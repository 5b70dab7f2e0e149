-- ===== src/Conditions/Tests.antt =====
-- Tests and witnesses of the conditional requests.
use gdrive_s.Base.{
  ◌≡◌, ◌↔◌, inl, inr, refl, Option, none, some, [], Text, units, units_key, ◌==◌, ◌++◌, ◌*◌,
  if◌then◌else◌, length, split, after_prefix,
}
use gdrive_s.S3Error.{ok, err, precondition_failed}
use gdrive_s.Conditions.{
  proceed, DateJs, ConditionalObject, Headers, token_matches, etag_list_matches, modified_since,
  unmodified_since, check_match, check_none_match, evaluate_conditions,
  evaluate_copy_source_conditions,
}
use gdrive_s.Conditions.Copy.{SameConditions, copy_conditions_iff}

-- A runtime whose dates are as many seconds as the text has units.
abbrev sample_js : DateJs
sample_js = record { trim = λ s. s; parse = λ s. some (1000 * length s) }

abbrev object : ConditionalObject
object = record { etag = units "abc"; last_modified_at = units "ddddd" }

-- Two conditions, under names with a prefix or none.
abbrev given : Text → Option Text → Option Text → Headers
given prefix match unmodified name =
    if name == prefix ++ units "if-match"
    then match
    else if name == prefix ++ units "if-unmodified-since"
    then unmodified
    else none

abbrev of_copy : Text
of_copy = units "x-amz-copy-source-"

conditions : Unit {0}
unfolding evaluate_conditions evaluate_copy_source_conditions check_match check_none_match
    modified_since unmodified_since etag_list_matches token_matches split after_prefix
conditions = tt

-- A read goes on by the tag where a copy fails by the date.
conditions_tests :
    (evaluate_conditions sample_js (given [] (some (units "W/\"abc\"")) none) object
      ≡ err precondition_failed)
    × (evaluate_conditions sample_js (given [] none (some (units "d"))) object
        ≡ err precondition_failed)
    × (evaluate_conditions sample_js
          (given [] (some (units "\"x\",\"abc\"")) (some (units "d")))
          object
        ≡ ok proceed)
    × (evaluate_copy_source_conditions sample_js
          (given of_copy (some (units "\"x\",\"abc\"")) (some (units "d")))
          object
        ≡ err precondition_failed)
unfolding conditions
conditions_tests = (refl, refl, refl, refl)

by_tag : SameConditions (given [] (some (units "*")) none) (given of_copy (some (units "*")) none)
by_tag = record { match = refl; unmodified = refl; none_match = refl; modified = refl }

copy_by_tag :
    evaluate_copy_source_conditions sample_js (given of_copy (some (units "*")) none) object ≡ ok tt
unfolding conditions
copy_by_tag = refl

copy_conditions_iff_example :
    (evaluate_copy_source_conditions sample_js (given of_copy (some (units "*")) none) object
      ≡ ok tt)
    ↔ (evaluate_conditions sample_js (given [] (some (units "*")) none) object ≡ ok proceed)
copy_conditions_iff_example =
    copy_conditions_iff sample_js (given [] (some (units "*")) none)
      (given of_copy (some (units "*")) none) object by_tag (inr refl) (inl refl)
