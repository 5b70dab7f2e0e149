-- ===== src/Policy/Statement.antt =====
-- The data of s3/policy.ts, and what the evaluation takes from JavaScript.
use gdrive_s.Base.{ℕ, Bool, Option, List, Text}

-- `toLowerCase`, and `Number(raw)` where that is an integer from 0 on.
pub record Js : Type 0 where
  pub lower : Text → Text
  pub number : Text → Option ℕ

pub record PolicyPrincipal : Type 0 where
  pub user_id : Option Text
  pub email : Option Text

pub record PolicyContext : Type 0 where
  pub source_ip : Option Text
  pub secure_transport : Bool

pub record Condition : Type 0 where
  pub operator : Text
  pub key : Text
  pub values : List Text

pub data PolicyEffect : Type 0 where
  allow_effect deny_effect : PolicyEffect

pub data PolicyDecision : Type 0 where
  allow deny none_said : PolicyDecision

pub record PolicyStatement : Type 0 where
  pub sid : Option Text
  pub effect : PolicyEffect
  pub any_principal : Bool
  pub principal_emails : List Text
  pub negated_principal : Bool
  pub actions : List Text
  pub not_actions : List Text
  pub resources : List Text
  pub not_resources : List Text
  pub conditions : List Condition

pub record BucketPolicy : Type 0 where
  pub version : Option Text
  pub id : Option Text
  pub statements : List PolicyStatement
