-- ===== src/Range.antt =====
-- s3/range.ts: the byte range of a request.
pub mod Covers
mod Tests
use gdrive_s.Base.{
  ℕ, zero, suc, ◌+◌, ◌-◌, max, min, ◌≡◌, Bool, true, false, not, ◌&&◌, ◌||◌, Option, none, some,
  List, [], ◌∷◌, ◌++◌, any, all, is_some, Text, units, after_prefix, eqb, leb, ltb, if◌then◌else◌,
}
use gdrive_s.S3Error.{Result, ok, err, invalid_range, not_implemented}

pub record ResolvedRange : Type 0 where
  pub start : ℕ
  pub end : ℕ
  pub length : ℕ
  pub total_size : ℕ
  pub header_value : Text

-- JavaScript's functions on strings. `number` is `Number` on a run of digits: none when the
-- value is not finite. `show` prints a number.
pub record RangeJs : Type 0 where
  pub trim : Text → Text
  pub lower : Text → Text
  pub number : Text → Option ℕ
  pub show : ℕ → Text

abbrev pub is_digit : ℕ → Bool
is_digit c = leb 48 c && leb c 57

-- `/^(\d*)-(\d*)$/`
abbrev pub before_dash : ℕ → Option (Text × Text) → Option (Text × Text)
before_dash c none = none
before_dash c (some (first, last)) = some (c ∷ first, last)

unfoldable pub range_match : Text → Option (Text × Text)
range_match [] = none
range_match (c ∷ s) =
    let rest = range_match s in
    if eqb c 45
    then (if all is_digit s then some ([], s) else none)
    else if is_digit c
    then before_dash c rest
    else none

-- `slice(n)`
abbrev pub slice_from : ℕ → Text → Text
slice_from zero s = s
slice_from (suc n) [] = []
slice_from (suc n) (c ∷ s) = slice_from n s

abbrev pub some_range : Result ResolvedRange → Result (Option ResolvedRange)
some_range (err e) = err e
some_range (ok r) = ok (some r)

module _ (js : RangeJs) where
  unfoldable pub resolved : ℕ → ℕ → ℕ → ResolvedRange
  resolved total start end = record {
    start = start;
    end = end;
    length = end - start + 1;
    total_size = total;
    header_value = units "bytes=" ++ (js.show start ++ (units "-" ++ js.show end));
  }

  unfoldable pub suffix_range : ℕ → Option ℕ → Result ResolvedRange
  suffix_range total none = err invalid_range
  suffix_range total (some suffix) =
      if leb suffix 0 then err invalid_range else ok (resolved total (total - suffix) (total - 1))

  unfoldable pub end_of : ℕ → Text → Option ℕ
  end_of total [] = some (total - 1)
  end_of total (c ∷ raw) = js.number (c ∷ raw)

  unfoldable pub start_range : ℕ → Option ℕ → Option ℕ → Result ResolvedRange
  start_range total none last = err invalid_range
  start_range total (some start) none = err invalid_range
  start_range total (some start) (some last) =
      if leb total start || ltb last start
      then err invalid_range
      else ok (resolved total start (min last (total - 1)))

  -- From the two groups of the match on.
  unfoldable pub resolve_range : ℕ → Text → Text → Result ResolvedRange
  unfolding suffix_range start_range resolved end_of
  resolve_range total [] [] = err invalid_range
  resolve_range total [] (c ∷ last) =
      if leb total 0 then err invalid_range else suffix_range total (js.number (c ∷ last))
  resolve_range total (c ∷ first) last =
      if leb total 0
      then err invalid_range
      else start_range total (js.number (c ∷ first)) (end_of total last)

  unfoldable pub matched : ℕ → Option (Text × Text) → Result (Option ResolvedRange)
  matched total none = err invalid_range
  matched total (some (first, last)) = some_range (resolve_range total first last)

  -- `header` is none for null.
  unfoldable pub parse_range : Option Text → ℕ → Result (Option ResolvedRange)
  unfolding matched
  parse_range none total = ok none
  parse_range (some []) total = ok none
  parse_range (some (c ∷ header)) total =
      let trimmed = js.trim (c ∷ header) in
      let spec = slice_from 6 trimmed in
      if not (is_some (after_prefix (units "bytes=") (js.lower trimmed)))
      then ok none
      else if any (λ u. eqb u 44) spec
      then err not_implemented
      else matched total (range_match spec)
