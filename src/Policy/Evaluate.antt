-- ===== src/Policy/Evaluate.antt =====
-- The evaluation of a bucket policy: s3/policy.ts.
use gdrive_s.Base.{
  Bool, true, false, not, ◌&&◌, ◌||◌, Option, none, some, List, [], ◌∷◌, ◌++◌, any, all, Text,
  units, units_key, ◌==◌, if◌then◌else◌,
}
use gdrive_s.Policy.Statement.{
  Js, PolicyPrincipal, PolicyContext, Condition, allow_effect, deny_effect, PolicyDecision, allow,
  deny, none_said, PolicyStatement, BucketPolicy,
}
use gdrive_s.Policy.Wildcard.{wildcard_match}
use gdrive_s.Policy.Cidr.{ip_in_cidr}

pub bucket_arn : Text → Text
bucket_arn name = units "arn:aws:s3:::" ++ name

pub object_arn : Text → Text → Text
object_arn name key = units "arn:aws:s3:::" ++ (name ++ (b'/' ∷ key))

abbrev pub nonempty : List Text → Bool
nonempty [] = false
nonempty (x ∷ xs) = true

abbrev pub includes : List Text → Text → Bool
includes values actual = any (λ v. v == actual) values

-- Either list of a statement, the negated one first.
listed : List Text → List Text → Text → Bool
listed negated plain value =
    if nonempty negated
    then not (any (λ p. wildcard_match p value) negated)
    else any (λ p. wildcard_match p value) plain

unfoldable pub matches_action : PolicyStatement → Text → Bool
unfolding listed
matches_action statement action = listed statement.not_actions statement.actions action

unfoldable pub matches_resource : PolicyStatement → Text → Bool
unfolding listed
matches_resource statement arn = listed statement.not_resources statement.resources arn

module _ (js : Js) where
  email_named : List Text → Option Text → Bool
  email_named emails none = false
  email_named emails (some email) = includes emails (js.lower email)

  unfoldable pub matches_principal : PolicyStatement → PolicyPrincipal → Bool
  unfolding email_named
  matches_principal statement principal =
      let named =
        statement.any_principal || email_named statement.principal_emails principal.email in
      if statement.negated_principal then not named else named

-- `principal.userId ? … : …`, where an empty id counts as none.
abbrev pub present : Option Text → Bool
present none = false
present (some []) = false
present (some (c ∷ s)) = true

unfoldable pub condition_value : Text → PolicyPrincipal → PolicyContext → Option Text
condition_value key principal context =
    if key == units "aws:sourceip"
    then context.source_ip
    else if key == units "aws:securetransport"
    then some (if context.secure_transport then units "true" else units "false")
    else if key == units "aws:username"
    then principal.email
    else if key == units "aws:principaltype"
    then some (if present principal.user_id then units "User" else units "Anonymous")
    else none

unfoldable pub is_negated : Text → Bool
is_negated operator =
    operator == units "StringNotEquals"
    || (operator == units "StringNotLike" || operator == units "NotIpAddress")

module _ (js : Js) where
  -- The switch on the operator; `none` is its default branch.
  unfoldable pub operator_matches : Text → List Text → Text → Option Bool
  operator_matches operator values actual =
      if operator == units "StringEquals" || operator == units "StringNotEquals"
      then some (includes values actual)
      else if operator == units "StringLike" || operator == units "StringNotLike"
      then some (any (λ v. wildcard_match v actual) values)
      else if operator == units "IpAddress" || operator == units "NotIpAddress"
      then some (any (λ v. ip_in_cidr js actual v) values)
      else if operator == units "Bool"
      then some (any (λ v. js.lower v == actual) values)
      else none

  -- One round of the loop of `matchesConditions`: false where the loop returns.
  actual_meets : Condition → Option Text → Bool
  actual_meets condition none = is_negated condition.operator
  actual_meets condition (some actual) =
      elim (operator_matches condition.operator condition.values actual) [
        | none ↦ false
        | some matched ↦ if is_negated condition.operator then not matched else matched
      ]

  unfoldable pub matches_condition : PolicyPrincipal → PolicyContext → Condition → Bool
  unfolding actual_meets
  matches_condition principal context condition =
      actual_meets condition (condition_value condition.key principal context)

  unfoldable pub matches_conditions : PolicyStatement → PolicyPrincipal → PolicyContext → Bool
  matches_conditions statement principal context =
      all (matches_condition principal context) statement.conditions

  -- The four tests that let the loop of `evaluatePolicy` pass a statement over.
  unfoldable pub applies : PolicyStatement → PolicyPrincipal → Text → Text → PolicyContext → Bool
  applies statement principal action arn context =
      if not (matches_principal js statement principal)
      then false
      else if not (matches_action statement action)
      then false
      else if not (matches_resource statement arn)
      then false
      else matches_conditions statement principal context

  unfoldable pub evaluate_from :
      Bool → List PolicyStatement → PolicyPrincipal → Text → Text → PolicyContext → PolicyDecision
  evaluate_from allowed [] principal action arn context = if allowed then allow else none_said
  evaluate_from allowed (s ∷ rest) principal action arn context =
      let skipped = evaluate_from allowed rest principal action arn context in
      let counted = evaluate_from true rest principal action arn context in
      if not (applies s principal action arn context)
      then skipped
      else elim s.effect [ deny_effect ↦ deny | allow_effect ↦ counted ]

  unfoldable pub evaluate_policy :
      BucketPolicy → PolicyPrincipal → Text → Text → PolicyContext → PolicyDecision
  unfolding evaluate_from
  evaluate_policy policy principal action arn context =
      evaluate_from false policy.statements principal action arn context

unfoldable pub policy_is_public : BucketPolicy → Bool
policy_is_public policy =
    any
      (λ s.
        (elim s.effect [ allow_effect ↦ true | deny_effect ↦ false ])
        && (s.any_principal && not s.negated_principal))
      policy.statements
