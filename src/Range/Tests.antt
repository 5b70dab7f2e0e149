-- ===== src/Range/Tests.antt =====
-- Tests and witnesses of the byte ranges.
use gdrive_s.Base.{
  ℕ, ◌+◌, ◌-◌, ◌*◌, ◌≡◌, refl, true, none, some, [], ◌∷◌, Text, units, after_prefix, is_some,
}
use gdrive_s.S3Error.{Result, ok, err, invalid_range, not_implemented}
use gdrive_s.Range.{
  ResolvedRange, RangeJs, resolved, range_match, resolve_range, parse_range, some_range,
}
use gdrive_s.Range.Covers.{Answers, wanted, parse_range-Answers}

value_from : ℕ → Text → ℕ
value_from n [] = n
value_from n (c ∷ s) = value_from (10 * n + (c - 48)) s

-- A runtime for headers in lower case and numbers of one digit.
abbrev sample_js : RangeJs
sample_js = record {
  trim = λ s. s;
  lower = λ s. s;
  number = λ s. some (value_from 0 s);
  show = λ n. (48 + n) ∷ [];
}

ranging : Unit {0}
unfolding parse_range resolve_range range_match resolved value_from after_prefix
ranging = tt

abbrev middle : ResolvedRange
middle = record { start = 2; end = 4; length = 3; total_size = 8; header_value = units "bytes=2-4" }

parse_range_tests :
    (parse_range sample_js (some (units "bytes=2-4")) 8 ≡ ok (some middle))
    × (parse_range sample_js (some (units "bytes=9-")) 8 ≡ err invalid_range)
    × (parse_range sample_js (some (units "bytes=4-2")) 8 ≡ err invalid_range)
    × (parse_range sample_js (some (units "bytes=-0")) 8 ≡ err invalid_range)
    × (parse_range sample_js (some (units "bytes=0-0,2-3")) 8 ≡ err not_implemented)
    × (parse_range sample_js (some (units "items=0-0")) 8 ≡ ok none)
unfolding ranging
parse_range_tests = (refl, refl, refl, refl, refl, refl)

match_example : range_match (units "2-4") ≡ some (units "2", units "4")
unfolding ranging
match_example = refl

prefix_example : is_some (after_prefix (units "bytes=") (units "bytes=2-4")) ≡ true
unfolding ranging
prefix_example = refl

parse_range-Answers_example :
    (answer : Result ResolvedRange) × (parse_range sample_js (some (units "bytes=2-4")) 8
      ≡ some_range answer)
    × Answers sample_js 8 (wanted sample_js 8 (units "2") (units "4")) answer
parse_range-Answers_example =
    parse_range-Answers sample_js 8 98 (units "ytes=2-4") (units "2") (units "4") prefix_example
      refl match_example
