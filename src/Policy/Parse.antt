-- ===== src/Policy/Parse.antt =====
-- Parsing and validating a policy document: s3/policy.ts.
pub mod Bounds
pub mod WellFormed
mod Tests
use gdrive_s.Base.{
  ℕ, Bool, true, false, not, ◌&&◌, ◌||◌, Option, none, some, List, [], ◌∷◌, ◌++◌, ltb, eqb, any,
  length, is_some, is_none, Text, units, units_key, ◌==◌, after_prefix, if◌then◌else◌,
}
use gdrive_s.S3Error.{Result, ok, err, ◌>>=◌, ◌>>◌, require, malformed_policy}
use gdrive_s.Policy.Json.{
  Json, null, scalar, str, arr, obj, Elems, nil, cons, Fields, end, field, elems, get,
}
use gdrive_s.Policy.Statement.{
  Js, Condition, PolicyEffect, allow_effect, deny_effect, PolicyStatement, BucketPolicy,
}
use gdrive_s.Policy.Evaluate.{includes}

abbrev pub max_policy_bytes : ℕ
max_policy_bytes = 20_480

abbrev pub max_statements : ℕ
max_statements = 64

abbrev pub max_list_entries : ℕ
max_list_entries = 128

-- `raw.map(…)` over an array that must hold only strings.
pub strings : Elems → Result (List Text)
strings nil = ok []
strings (cons (str s) vs) = do rest ← strings vs; ok (s ∷ rest)
strings (cons _ vs) = err malformed_policy

pub string_list : Json → Result (List Text)
string_list (str s) = ok (s ∷ [])
string_list (arr vs) =
    if ltb max_list_entries (length (elems vs)) then err malformed_policy else strings vs
string_list _ = err malformed_policy

abbrev user_arn_prefix : Text
user_arn_prefix = units "arn:aws:iam:::user/"

pub record Principals : Type 0 where
  pub any_principal : Bool
  pub emails : List Text

abbrev everyone : Principals
everyone = record { any_principal = true; emails = [] }

-- `if (!email) malformed(…)`
nonempty_email : Text → Result Text
nonempty_email [] = err malformed_policy
nonempty_email (c ∷ s) = ok (c ∷ s)

abbrev is_star : Json → Bool
is_star (str s) = s == units "*"
is_star _ = false

pub supported : Text → Bool
supported operator =
    operator == units "StringEquals"
    || (operator == units "StringNotEquals"
        || (operator == units "StringLike"
            || (operator == units "StringNotLike"
                || (operator == units "IpAddress"
                    || (operator == units "NotIpAddress" || operator == units "Bool")))))

module _ (js : Js) where
  parse_email : Text → Result Text
  unfolding nonempty_email
  parse_email entry = elim (after_prefix user_arn_prefix entry) [
    | none ↦ err malformed_policy
    | some rest ↦ nonempty_email (js.lower rest)
  ]

  pub parse_emails : List Text → Result (List Text)
  parse_emails [] = ok []
  parse_emails (entry ∷ entries) = do
    email ← parse_email entry
    rest ← parse_emails entries
    ok (email ∷ rest)

  named_principals : List Text → Result Principals
  named_principals entries = if includes entries (units "*") then ok everyone else (do
    emails ← parse_emails entries
    ok (record { any_principal = false; emails = emails }))

  aws_principals : Option Json → Result Principals
  aws_principals none = err malformed_policy
  aws_principals (some aws) =
      if is_star aws then ok everyone else (do entries ← string_list aws; named_principals entries)

  pub parse_principal : Json → Result Principals
  parse_principal (str s) = if s == units "*" then ok everyone else err malformed_policy
  parse_principal (obj fs) = aws_principals (get (units "AWS") fs)
  parse_principal _ = err malformed_policy

  -- The inner loop over one operator's block.
  parse_block : Text → Fields → Result (List Condition)
  parse_block operator end = ok []
  parse_block operator (field key value fs) = do
    values ← string_list value
    rest ← parse_block operator fs
    ok (record { operator = operator; key = js.lower key; values = values } ∷ rest)

  operator_block : Text → Json → Result (List Condition)
  operator_block operator (obj block) =
      if not (supported operator) then err malformed_policy else parse_block operator block
  operator_block operator _ = err malformed_policy

  parse_operators : Fields → Result (List Condition)
  parse_operators end = ok []
  parse_operators (field operator block fs) = do
    first ← operator_block operator block
    rest ← parse_operators fs
    ok (first ++ rest)

  pub parse_conditions : Option Json → Result (List Condition)
  parse_conditions none = ok []
  parse_conditions (some (obj fs)) = parse_operators fs
  parse_conditions (some _) = err malformed_policy

parse_effect : Option Json → Result PolicyEffect
parse_effect none = err malformed_policy
parse_effect (some (str s)) =
    if s == units "Allow"
    then ok allow_effect
    else if s == units "Deny"
    then ok deny_effect
    else err malformed_policy
parse_effect (some _) = err malformed_policy

-- Exactly one of a field and its negation.
pub exactly_one : Option Json → Option Json → Result (Unit {0})
exactly_one plain negated =
    if is_some plain && is_some negated
    then err malformed_policy
    else if not (is_some plain) && not (is_some negated)
    then err malformed_policy
    else ok tt

-- A string, or nothing.
parse_optional : Option Json → Result (Option Text)
parse_optional none = ok none
parse_optional (some (str s)) = ok (some s)
parse_optional (some _) = err malformed_policy

-- `has ? stringList(value) : []`
pub list_or_empty : Option Json → Result (List Text)
list_or_empty none = ok []
list_or_empty (some v) = string_list v

-- `hasPrincipal ? Principal : NotPrincipal`
either_field : Option Json → Option Json → Json
either_field none none = null
either_field none (some v) = v
either_field (some v) negated = v

-- An array, or one statement alone.
raw_statements : Option Json → Result (List Json)
raw_statements none = err malformed_policy
raw_statements (some (arr vs)) =
    if eqb (length (elems vs)) 0
    then err malformed_policy
    else if ltb max_statements (length (elems vs))
    then err malformed_policy
    else ok (elems vs)
raw_statements (some v) = ok (v ∷ [])

module _ (js : Js) where
  statement_fields : Fields → Result PolicyStatement
  statement_fields fs = do
    effect ← parse_effect (get (units "Effect") fs)
    exactly_one (get (units "Principal") fs) (get (units "NotPrincipal") fs)
    principal ←
        parse_principal js
          (either_field (get (units "Principal") fs) (get (units "NotPrincipal") fs))
    exactly_one (get (units "Action") fs) (get (units "NotAction") fs)
    exactly_one (get (units "Resource") fs) (get (units "NotResource") fs)
    sid ← parse_optional (get (units "Sid") fs)
    actions ← list_or_empty (get (units "Action") fs)
    not_actions ← list_or_empty (get (units "NotAction") fs)
    resources ← list_or_empty (get (units "Resource") fs)
    not_resources ← list_or_empty (get (units "NotResource") fs)
    conditions ← parse_conditions js (get (units "Condition") fs)
    ok (record {
      sid = sid;
      effect = effect;
      any_principal = principal.any_principal;
      principal_emails = principal.emails;
      negated_principal = is_some (get (units "NotPrincipal") fs);
      actions = actions;
      not_actions = not_actions;
      resources = resources;
      not_resources = not_resources;
      conditions = conditions;
    })

  pub parse_statement : Json → Result PolicyStatement
  parse_statement (obj fs) = statement_fields fs
  parse_statement _ = err malformed_policy

  parse_statements : List Json → Result (List PolicyStatement)
  parse_statements [] = ok []
  parse_statements (v ∷ vs) = do
    first ← parse_statement v
    rest ← parse_statements vs
    ok (first ∷ rest)

  document_fields : Fields → Result BucketPolicy
  document_fields fs = do
    version ← parse_optional (get (units "Version") fs)
    id ← parse_optional (get (units "Id") fs)
    raw ← raw_statements (get (units "Statement") fs)
    statements ← parse_statements raw
    ok (record { version = version; id = id; statements = statements })

  parse_document : Option Json → Result BucketPolicy
  parse_document (some (obj fs)) = document_fields fs
  parse_document _ = err malformed_policy

  -- `byte_length` is `Buffer.byteLength`; `parse` is `JSON.parse`, `none` where it throws.
  pub parse_bucket_policy : (Text → ℕ) → (Text → Option Json) → Text → Result BucketPolicy
  parse_bucket_policy byte_length parse raw =
      if ltb max_policy_bytes (byte_length raw)
      then err malformed_policy
      else parse_document (parse raw)
