-- ===== src/Authorization/Access.antt =====
-- services/authorization-service.ts: principalFor, policyFor, isPublic and isAllowed.
use gdrive_s.Base.{
  ℕ, Bool, true, false, not, ◌&&◌, ◌||◌, Option, none, some, List, [], ◌∷◌, is_some, holds, Text,
  units, units_key, if◌then◌else◌,
}
use gdrive_s.S3Error.{Result, ok, err}
use gdrive_s.Acl.{acl_grants_public_read, acl_grants_public_write, acl_grants_authenticated_read}
use gdrive_s.Policy.Json.{Json}
use gdrive_s.Policy.Statement.{
  Js, PolicyPrincipal, PolicyDecision, allow, deny, none_said, BucketPolicy,
}
use gdrive_s.Policy.Evaluate.{bucket_arn, object_arn, evaluate_policy, policy_is_public}
use gdrive_s.Policy.Parse.{parse_bucket_policy}
use gdrive_s.Authorization.Actions.{S3Action, action_name, is_write, is_owner_only}

pub record Bucket : Type 0 where
  pub id : Text
  pub user_id : Text
  pub name : Text
  pub acl : Text

-- The tables that the service reads, and the JavaScript functions that the policy parser calls.
-- `email` is none for an unknown user and for one that has no address.
pub record Service : Type 0 where
  pub js : Js
  pub byte_length : Text → ℕ
  pub parse_json : Text → Option Json
  pub policy_json : Text → Option Text
  pub email : Text → Option Text
  pub member_role : Text → Text → Option Text
  pub accessible_by_name : Text → Text → Option Bucket
  pub list_by_name : Text → List Bucket
  pub object_acl : Text → Text → Option Text

pub record Request : Type 0 where
  pub user_id : Option Text
  pub action : S3Action
  pub object_key : Option Text
  pub source_ip : Option Text
  pub secure_transport : Bool

-- `value ? … : …` for a string or null.
abbrev pub given : Option Text → Option Text
given none = none
given (some []) = none
given (some (c ∷ s)) = some (c ∷ s)

abbrev pub decided : Result BucketPolicy → Option BucketPolicy
decided (err e) = none
decided (ok p) = some p

-- The ACL fallback: the object's own ACL for a read, then the bucket's.
acl_grants : Bool → Bool → Text → Bool
acl_grants authenticated writing acl =
    if writing
    then acl_grants_public_write acl
    else acl_grants_public_read acl || (authenticated && acl_grants_authenticated_read acl)

object_admits : Bool → Bool → Option Text → Bool
object_admits authenticated writing none = false
object_admits authenticated writing (some acl) = not writing && acl_grants authenticated writing acl

unfoldable pub acl_allows : Request → Bucket → Option Text → Bool
unfolding object_admits acl_grants
acl_allows request bucket object =
    let authenticated = is_some request.user_id in
    let writing = is_write request.action in
    if object_admits authenticated writing object
    then true
    else acl_grants authenticated writing bucket.acl

unfoldable pub resource_of : Bucket → Option Text → Text
resource_of bucket none = bucket_arn bucket.name
resource_of bucket (some key) = object_arn bucket.name key

module _ (s : Service) where
  parsed_policy : Option Text → Option BucketPolicy
  parsed_policy none = none
  parsed_policy (some raw) = decided (parse_bucket_policy s.js s.byte_length s.parse_json raw)

  unfoldable pub policy_for : Text → Option BucketPolicy
  unfolding parsed_policy
  policy_for bucket_id = parsed_policy (s.policy_json bucket_id)

  lower_or_none : Option Text → Option Text
  lower_or_none none = none
  lower_or_none (some email) = some (s.js.lower email)

  named_principal : Option Text → PolicyPrincipal
  unfolding lower_or_none
  named_principal none = record { user_id = none; email = none }
  named_principal (some id) = record { user_id = some id; email = lower_or_none (s.email id) }

  unfoldable pub principal_for : Option Text → PolicyPrincipal
  unfolding named_principal
  principal_for user_id = named_principal (given user_id)

  unfoldable pub decision_of : Option BucketPolicy → Request → Bucket → PolicyDecision
  decision_of none request bucket = none_said
  decision_of (some policy) request bucket =
      evaluate_policy s.js policy (principal_for request.user_id) (action_name request.action)
        (resource_of bucket request.object_key)
        (record { source_ip = request.source_ip; secure_transport = request.secure_transport })

  unfoldable pub policy_decision : Request → Bucket → PolicyDecision
  policy_decision request bucket = decision_of (policy_for bucket.id) request bucket

  -- The role that `bucket_members` holds for the caller.
  unfoldable pub role_of : Option Text → Bucket → Option Text
  role_of none bucket = none
  role_of (some user) bucket = s.member_role bucket.id user

  -- What follows the policy: owner, member, owner-only actions, ACL.
  unfoldable pub without_policy : Request → Bucket → Option Text → Bool
  unfolding role_of
  without_policy request bucket object =
      if holds request.user_id bucket.user_id
      then true
      else if holds (role_of request.user_id bucket) (units "editor")
      then true
      else if holds (role_of request.user_id bucket) (units "viewer")
          && not (is_write request.action)
      then true
      else if is_owner_only request.action
      then false
      else acl_allows request bucket object

  unfoldable pub is_allowed : Request → Bucket → Option Text → Bool
  unfolding without_policy
  is_allowed request bucket object = elim (policy_decision request bucket) [
    | deny ↦ false
    | allow ↦
        if not (is_owner_only request.action) then true else without_policy request bucket object
    | none_said ↦ without_policy request bucket object
  ]

  unfoldable pub is_public : Bucket → Bool
  is_public bucket =
      if acl_grants_public_read bucket.acl || acl_grants_public_write bucket.acl
      then true
      else elim (policy_for bucket.id) [ none ↦ false | some policy ↦ policy_is_public policy ]
