-- ===== src/Policy/Parse/Tests.antt =====
-- Tests and witnesses of the policy parser.
use gdrive_s.Base.{
  ◌≤◌, ◌≡◌, refl, false, Option, none, some, [], ◌∷◌, Text, units, units_key, length, after_prefix,
}
use gdrive_s.S3Error.{ok, err, malformed_policy}
use gdrive_s.Policy.Json.{Json, str, arr, obj, nil, cons, Fields, end, field, get}
use gdrive_s.Policy.Statement.{Js, allow_effect, BucketPolicy}
use gdrive_s.Policy.Parse.{
  parse_bucket_policy, max_policy_bytes, strings, string_list, nonempty_email, supported,
  parse_email, parse_emails, named_principals, aws_principals, parse_principal, parse_block,
  operator_block, parse_operators, parse_conditions, parse_effect, exactly_one, parse_optional,
  list_or_empty, either_field, statement_fields, parse_statement, raw_statements, parse_statements,
  document_fields, parse_document,
}
use gdrive_s.Policy.Parse.WellFormed.{IsValid, parse_bucket_policy-IsValid}

parser : Unit {0}
unfolding parse_bucket_policy strings string_list nonempty_email supported parse_email parse_emails
    named_principals aws_principals parse_principal parse_block operator_block parse_operators
    parse_conditions parse_effect exactly_one parse_optional list_or_empty either_field
    statement_fields parse_statement raw_statements parse_statements document_fields parse_document
    get after_prefix
parser = tt

abbrev sample_js : Js
sample_js = record { lower = λ s. s; number = λ s. none }

abbrev document : Fields
document =
    field (units "Statement")
      (obj (
        field (units "Effect") (str (units "Allow")) (
          field (units "Principal")
            (obj (field (units "AWS") (str (units "arn:aws:iam:::user/ann@x")) end))
            (field (units "Action") (arr (cons (str (units "s3:Get*")) nil)) (
              field (units "NotResource") (str (units "arn:aws:s3:::b/private/*")) (
                field (units "Condition")
                  (obj (
                    field (units "Bool")
                      (obj (field (units "aws:securetransport") (str (units "true")) end)) end))
                  end))))))
      end

abbrev parsed : BucketPolicy
parsed = record {
  version = none;
  id = none;
  statements =
      record {
        sid = none;
        effect = allow_effect;
        any_principal = false;
        principal_emails = units "ann@x" ∷ [];
        negated_principal = false;
        actions = units "s3:Get*" ∷ [];
        not_actions = [];
        resources = [];
        not_resources = units "arn:aws:s3:::b/private/*" ∷ [];
        conditions =
            record {
              operator = units "Bool";
              key = units "aws:securetransport";
              values = units "true" ∷ [];
            }
            ∷ [];
      }
      ∷ [];
}

abbrev parse_sample : Text → Option Json
parse_sample raw = some (obj document)

abbrev parse_both : Text → Option Json
parse_both raw = some (obj (field (units "Statement") (arr nil) document))

parse-parsed : parse_bucket_policy sample_js length parse_sample (units "{}") ≡ ok parsed
unfolding parser
parse-parsed = refl

parse_empty_list :
    parse_bucket_policy sample_js length parse_both (units "{}") ≡ err malformed_policy
unfolding parser
parse_empty_list = refl

parse_bucket_policy-IsValid_example : (length (units "{}") ≤ max_policy_bytes) × IsValid parsed
parse_bucket_policy-IsValid_example =
    parse_bucket_policy-IsValid sample_js length parse_sample (units "{}") parsed parse-parsed
