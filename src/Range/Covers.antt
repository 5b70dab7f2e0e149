-- ===== src/Range/Covers.antt =====
-- The bytes that a range request is answered with.
use gdrive_s.Base.{
  ℕ, ◌+◌, ◌-◌, ◌≤◌, ◌<◌, ◌≡◌, Bool, true, false, ◌&&◌, ◌||◌, Option, none, some, [], ◌∷◌, any,
  is_some, Text, units, after_prefix, eqb, leb, ltb, refl, arith, Bool-cases, inl, inr,
}
use gdrive_s.S3Error.{Result, ok, err, invalid_range}
use gdrive_s.Range.{
  ResolvedRange, RangeJs, resolved, suffix_range, start_range, end_of, resolve_range, slice_from,
  range_match, parse_range, matched, some_range,
}

-- A test of a number that may not be finite.
abbrev pub finite_and : Option ℕ → (ℕ → Bool) → Bool
finite_and none test = false
finite_and (some n) test = test n

module _ (js : RangeJs) (total : ℕ) where
  -- Whether a byte is asked for: the last bytes, those from an offset on, or those between two.
  abbrev pub wanted : Text → Text → ℕ → Bool
  wanted [] [] i = false
  wanted [] (d ∷ last) i = finite_and (js.number (d ∷ last)) (λ n. leb total (i + n))
  wanted (c ∷ first) [] i = finite_and (js.number (c ∷ first)) (λ a. leb a i)
  wanted (c ∷ first) (d ∷ last) i =
      finite_and (js.number (c ∷ first))
        (λ a. finite_and (js.number (d ∷ last)) (λ b. leb a i && leb i b))

  -- A range within the object, of exactly the bytes of it that are wanted; or no byte is wanted.
  abbrev pub Answers : (ℕ → Bool) → Result ResolvedRange → Type 0
  Answers test (err e) = (e ≡ invalid_range) × ((i : ℕ) → i < total → test i ≡ false)
  Answers test (ok r) =
      (r.start ≤ r.end)
      × (r.end < total)
      × (r.length + r.start ≡ r.end + 1)
      × (r.total_size ≡ total)
      × ((i : ℕ) → (leb r.start i && leb i r.end) ≡ (ltb i total && test i))

  suffix_range-Answers :
      (last : Option ℕ)
      → leb total 0 ≡ false
      → Answers (λ i. finite_and last (λ n. leb total (i + n))) (suffix_range js total last)
  unfolding suffix_range resolved
  suffix_range-Answers none h = (refl, λ i l. refl)
  suffix_range-Answers (some n) h = elim (Bool-cases (leb n 0)) [
    | inl z ↦ rw z (refl, λ i l. ground arith)
    | inr p ↦ rw p (ground arith, ground arith, ground arith, refl, λ i. ground arith)
  ]

  start_range-Answers :
      (first last : Option ℕ) (test : ℕ → Bool)
      → leb total 0 ≡ false
      → ((i : ℕ)
          → i < total
          → test i ≡ finite_and first (λ a. finite_and last (λ b. leb a i && leb i b)))
      → Answers test (start_range js total first last)
  unfolding start_range resolved
  start_range-Answers none last test h same = (refl, same)
  start_range-Answers (some a) none test h same = (refl, same)
  start_range-Answers (some a) (some b) test h same = elim (Bool-cases (leb total a || ltb b a)) [
    | inl z ↦ rw z (refl, λ i l. ground (arith, same i l))
    | inr p ↦ rw p (
      ground arith,
      ground arith,
      ground arith,
      refl,
      λ i. elim (Bool-cases (ltb i total)) [
        | inl l ↦ ground (arith, same i (ground arith))
        | inr l ↦ ground arith
      ],
    )
  ]

  onward_until_end :
      (first : Option ℕ) (i : ℕ)
      → i < total
      → finite_and first (λ a. leb a i) ≡ finite_and first (λ a. leb a i && leb i (total - 1))
  onward_until_end none i l = refl
  onward_until_end (some a) i l = ground arith

  resolve_range-Answers :
      (first last : Text) → Answers (wanted first last) (resolve_range js total first last)
  unfolding resolve_range end_of
  resolve_range-Answers [] [] = (refl, λ i l. refl)
  resolve_range-Answers [] (d ∷ last) = elim (Bool-cases (leb total 0)) [
    | inl z ↦ rw z (refl, λ i l. ground arith)
    | inr p ↦ rw p (suffix_range-Answers (js.number (d ∷ last)) p)
  ]
  resolve_range-Answers (c ∷ first) [] = elim (Bool-cases (leb total 0)) [
    | inl z ↦ rw z (refl, λ i l. ground arith)
    | inr p ↦ rw p (
        start_range-Answers (js.number (c ∷ first)) (end_of js total []) (wanted (c ∷ first) []) p
          (λ i l. onward_until_end (js.number (c ∷ first)) i l))
  ]
  resolve_range-Answers (c ∷ first) (d ∷ last) = elim (Bool-cases (leb total 0)) [
    | inl z ↦ rw z (refl, λ i l. ground arith)
    | inr p ↦ rw p (
        start_range-Answers (js.number (c ∷ first)) (end_of js total (d ∷ last))
          (wanted (c ∷ first) (d ∷ last)) p (λ i l. refl))
  ]

-- A header of one byte range is answered with a range inside the object that covers exactly
-- the bytes of the object that the header asks for (the last so many, those from an offset on,
-- or those between two offsets), or with InvalidRange when it asks for none of them.
pub parse_range-Answers :
    (js : RangeJs) (total c : ℕ) (header first last : Text)
    → is_some (after_prefix (units "bytes=") (js.lower (js.trim (c ∷ header)))) ≡ true
    → any (λ u. eqb u 44) (slice_from 6 (js.trim (c ∷ header))) ≡ false
    → range_match (slice_from 6 (js.trim (c ∷ header))) ≡ some (first, last)
    → (answer : Result ResolvedRange) × (parse_range js (some (c ∷ header)) total
        ≡ some_range answer)
      × Answers js total (wanted js total first last) answer
unfolding parse_range matched
parse_range-Answers js total c header first last p q m = (
  resolve_range js total first last,
  rw (p, q, m) refl,
  resolve_range-Answers js total first last,
)
