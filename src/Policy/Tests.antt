-- ===== src/Policy/Tests.antt =====
-- Tests and witnesses of the bucket policies.
use gdrive_s.Base.{
  after_prefix, String, ◌≡◌, ◌↔◌, refl, true, false, none, some, [], ◌∷◌, any, Text, units,
  units_key, ◌==◌, split, if◌then◌else◌,
}
use gdrive_s.Policy.Wildcard.{Matches, wildcard_match, wildcard_match_iff}
use gdrive_s.Policy.Statement.{
  Js, PolicyPrincipal, PolicyContext, allow_effect, deny_effect, allow, deny, none_said,
  PolicyStatement, BucketPolicy,
}
use gdrive_s.Policy.Cidr.{ip_in_cidr}
use gdrive_s.Policy.Evaluate.{
  evaluate_policy, matches_principal, matches_action, matches_resource, matches_conditions,
  matches_condition, applies, condition_value, operator_matches, is_negated,
}
use gdrive_s.Policy.Decision.{evaluate_policy-eq-ruling, with_effect, ruling}

wildcard_tests :
    (wildcard_match (units "arn:*:b/?.txt") (units "arn:aws:s3:::b/a.txt") ≡ true)
    × (wildcard_match (units "b/?.txt") (units "b/.txt") ≡ false)
    × (wildcard_match (units "a.c") (units "abc") ≡ false)
unfolding wildcard_match after_prefix
wildcard_tests = (refl, refl, refl)

wildcard_match_iff_example :
    (wildcard_match (units "a*?") (units "abc") ≡ true) ↔ Matches (units "a*?") (units "abc")
wildcard_match_iff_example = wildcard_match_iff (units "a*?") (units "abc")

-- A runtime for texts in lower case and the two prefix lengths that the tests use.
abbrev sample_js : Js
sample_js = record {
  lower = λ s. s;
  number = λ s. if s == units "8" then some 8 else if s == units "33" then some 33 else none;
}

cidr_tests :
    (ip_in_cidr sample_js (units "10.1.2.3") (units "10.0.0.0/8") ≡ true)
    × (ip_in_cidr sample_js (units "11.1.2.3") (units "10.0.0.0/8") ≡ false)
    × (ip_in_cidr sample_js (units "10.1.2.3") (units "10.1.2.3") ≡ true)
    × (ip_in_cidr sample_js (units "10.1.2.3") (units "10.0.0.0/33") ≡ false)
    × (ip_in_cidr sample_js (units "10.1.2.256") (units "10.0.0.0/8") ≡ false)
unfolding ip_in_cidr split
cidr_tests = (refl, refl, refl, refl, refl)

abbrev read_all : PolicyStatement
read_all = record {
  sid = none;
  effect = allow_effect;
  any_principal = true;
  principal_emails = [];
  negated_principal = false;
  actions = units "s3:Get*" ∷ [];
  not_actions = [];
  resources = units "arn:aws:s3:::b/*" ∷ [];
  not_resources = [];
  conditions = [];
}

abbrev deny_outside : PolicyStatement
deny_outside = record read_all {
  effect = deny_effect;
  conditions =
      record {
        operator = units "NotIpAddress";
        key = units "aws:sourceip";
        values = units "10.0.0.0/8" ∷ [];
      }
      ∷ [];
}

abbrev policy : BucketPolicy
policy = record { version = none; id = none; statements = read_all ∷ deny_outside ∷ [] }

abbrev turned : BucketPolicy
turned = record { version = none; id = none; statements = deny_outside ∷ read_all ∷ [] }

abbrev anonymous : PolicyPrincipal
anonymous = record { user_id = none; email = none }

abbrev from_ip : String → PolicyContext
from_ip ip = record { source_ip = some (units ip); secure_transport = true }

evaluation : Unit {0}
unfolding evaluate_policy applies matches_principal matches_action matches_resource
    matches_conditions matches_condition condition_value operator_matches is_negated wildcard_match
    after_prefix ip_in_cidr split
evaluation = tt

evaluate_tests :
    (evaluate_policy sample_js policy anonymous
        (units "s3:GetObject")
        (units "arn:aws:s3:::b/k")
        (from_ip "10.9.9.9")
      ≡ allow)
    × (evaluate_policy sample_js policy anonymous
          (units "s3:GetObject")
          (units "arn:aws:s3:::b/k")
          (from_ip "11.9.9.9")
        ≡ deny)
    × (evaluate_policy sample_js policy anonymous
          (units "s3:PutObject")
          (units "arn:aws:s3:::b/k")
          (from_ip "11.9.9.9")
        ≡ none_said)
unfolding evaluation
evaluate_tests = (refl, refl, refl)

abbrev get_object : Text
get_object = units "s3:GetObject"

abbrev object_k : Text
object_k = units "arn:aws:s3:::b/k"

evaluate_policy-eq-ruling_example :
    evaluate_policy sample_js policy anonymous get_object object_k (from_ip "11.9.9.9")
    ≡ ruling sample_js anonymous get_object object_k
        (from_ip "11.9.9.9")
        (any
          (with_effect sample_js anonymous get_object object_k (from_ip "11.9.9.9") deny_effect)
          policy.statements)
        (any
          (with_effect sample_js anonymous get_object object_k (from_ip "11.9.9.9") allow_effect)
          policy.statements)
evaluate_policy-eq-ruling_example =
    evaluate_policy-eq-ruling sample_js anonymous get_object object_k (from_ip "11.9.9.9") policy
