-- ===== src/Policy/Wildcard.antt =====
-- `wildcardMatch` of s3/policy.ts.
use mathlib.Core.List.{append_assoc}
use gdrive_s.Base.{
  ℕ, ◌≡◌, ◌≢◌, ◌↔◌, ◌⊎◌, inl, inr, refl, Bool, true, false, ◌||◌, [], ◌∷◌, arith, eqb, Text, units,
  units_key, text_eq_iff, ◌==◌, Bool-cases, if◌then◌else◌, eqb_iff, map, length, ◌++◌, ap, ◌∙◌, sym,
  ◌≤◌, ◌+◌, zero, suc, none, some, after_prefix,
}
use gdrive_s.Policy.Regexp.{
  star, mark, backslash, any_class, replace_each, is_special, escape_unit, star_unit, mark_unit,
  expression, Piece, literal, any_unit, any_run, is_starred, add_piece, pieces_of, some_suffix,
  one_unit, matches, regexp_test,
}

unfoldable pub wildcard_match : Text → Text → Bool
unfolding regexp_test replace_each
wildcard_match pattern value =
    if pattern == units "*" then true else regexp_test (expression pattern) value

-- What a pattern means: `*` stands for any run of units, `?` for one, another unit for itself.
pub data Matches : Text → Text → Type 0 where
  done : Matches [] []
  skip : {p : ℕ} {ps v : Text} → p ≡ star → Matches ps v → Matches (p ∷ ps) v
  more : {p c : ℕ} {ps v : Text} → p ≡ star → Matches (p ∷ ps) v → Matches (p ∷ ps) (c ∷ v)
  unit :
      {p c : ℕ} {ps v : Text}
      → p ≢ star
      → (p ≡ mark) ⊎ (p ≡ c)
      → Matches ps v
      → Matches (p ∷ ps) (c ∷ v)

-- The piece of the source that a unit of a pattern becomes.
abbrev piece_of : ℕ → Piece
piece_of c = if eqb c star then any_run else if eqb c mark then any_unit else literal c

abbrev chunk : ℕ → Text
chunk c = replace_each mark_unit (replace_each star_unit (escape_unit c))

replace_each-append :
    (f : ℕ → Text) (s t : Text) → replace_each f (s ++ t) ≡ replace_each f s ++ replace_each f t
unfolding replace_each
replace_each-append f [] t = refl
replace_each-append f (c ∷ s) t =
    ap (λ r. f c ++ r) (replace_each-append f s t) ∙ sym (append_assoc (f c) _ _)

expression-unit : (c : ℕ) (p : Text) → expression (c ∷ p) ≡ chunk c ++ expression p
unfolding replace_each
expression-unit c p =
    ap (replace_each mark_unit) (replace_each-append star_unit (escape_unit c) _)
    ∙ replace_each-append mark_unit (replace_each star_unit (escape_unit c)) _

plain_unit :
    (c : ℕ)
    → is_special c ≡ false
    → (eqb b'[' c ≡ false) × (eqb c backslash ≡ false) × (eqb c b'.' ≡ false)
plain_unit c e = ground arith

chunk-special :
    (c : ℕ)
    → eqb c star ≡ false
    → eqb c mark ≡ false
    → is_special c ≡ true
    → chunk c ≡ backslash ∷ c ∷ []
unfolding replace_each
chunk-special c n m e = rw (e, n, m) refl

chunk-plain :
    (c : ℕ) → eqb c star ≡ false → eqb c mark ≡ false → is_special c ≡ false → chunk c ≡ c ∷ []
unfolding replace_each
chunk-plain c n m e = rw (e, n, m) refl

plain-class : (c : ℕ) (s : Text) → eqb b'[' c ≡ false → after_prefix any_class (c ∷ s) ≡ none
unfolding after_prefix
plain-class c s e = rw e refl

plain-pieces :
    (c n : ℕ) (s : Text)
    → eqb c star ≡ false
    → eqb c mark ≡ false
    → is_special c ≡ false
    → pieces_of (suc n) (c ∷ s) ≡ add_piece (literal c) (pieces_of n s)
unfolding pieces_of
plain-pieces c n s e f g =
    let (no_class, no_escape, no_point) = plain_unit c g in
    let used : (is_special c || eqb c star || eqb c mark) ≡ false = rw (g, e, f) refl in
    rw (pieces_of, plain-class c s no_class) (rw (used, no_escape, no_point) refl)

-- A unit becomes one piece, whatever follows, unless that is a star.
chunk-piece :
    (c n : ℕ) (s : Text)
    → is_starred s ≡ false
    → pieces_of (suc n) (chunk c ++ s) ≡ add_piece (piece_of c) (pieces_of n s)
unfolding replace_each pieces_of after_prefix
chunk-piece c n s alone = elim (Bool-cases (eqb c star)) [
  | inl e ↦ rw ((eqb_iff c star).0 e) refl
  | inr e ↦ elim (Bool-cases (eqb c mark)) [
    | inl f ↦ rw ((eqb_iff c mark).0 f) (rw alone refl)
    | inr f ↦ elim (Bool-cases (is_special c)) [
      | inl g ↦ rw (chunk-special c e f g) (rw (e, f) refl)
      | inr g ↦ rw (chunk-plain c e f g) (rw (e, f) (plain-pieces c n s e f g))
    ]
  ]
]

chunk-alone : (c : ℕ) (s : Text) → is_starred (chunk c ++ s) ≡ false
unfolding replace_each
chunk-alone c s = elim (Bool-cases (eqb c star)) [
  | inl e ↦ rw ((eqb_iff c star).0 e) refl
  | inr e ↦ elim (Bool-cases (eqb c mark)) [
    | inl f ↦ rw ((eqb_iff c mark).0 f) refl
    | inr f ↦ elim (Bool-cases (is_special c)) [
      | inl g ↦ rw (chunk-special c e f g) refl
      | inr g ↦ rw (chunk-plain c e f g) (rw e refl)
    ]
  ]
]

expression-alone : (p : Text) → is_starred (expression p) ≡ false
unfolding replace_each
expression-alone [] = refl
expression-alone (c ∷ p) = ap is_starred (expression-unit c p) ∙ chunk-alone c (expression p)

-- The source is read back as the pieces of the pattern.
expression-pieces :
    (p : Text) (n : ℕ) → length p ≤ n → pieces_of n (expression p) ≡ some (map piece_of p)
unfolding replace_each pieces_of
expression-pieces [] n h = refl
expression-pieces (c ∷ p) zero h = absurd (omega arith)
expression-pieces (c ∷ p) (suc n) h =
    ap (pieces_of (suc n)) (expression-unit c p)
    ∙ chunk-piece c n (expression p) (expression-alone p)
    ∙ ap (add_piece (piece_of c)) (expression-pieces p n (omega arith))

chunk-length : (c : ℕ) (s : Text) → 1 + length s ≤ length (chunk c ++ s)
unfolding replace_each
chunk-length c s = elim (Bool-cases (eqb c star)) [
  | inl e ↦ rw ((eqb_iff c star).0 e) (omega arith)
  | inr e ↦ elim (Bool-cases (eqb c mark)) [
    | inl f ↦ rw ((eqb_iff c mark).0 f) (omega arith)
    | inr f ↦ elim (Bool-cases (is_special c)) [
      | inl g ↦ rw (chunk-special c e f g) (omega arith)
      | inr g ↦ rw (chunk-plain c e f g) (omega arith)
    ]
  ]
]

expression-length : (p : Text) → length p ≤ length (expression p)
unfolding replace_each
expression-length [] = omega arith
expression-length (c ∷ p) =
    rw (expression-unit c p) (omega (arith, chunk-length c (expression p), expression-length p))

some_suffix_sound :
    (p : ℕ) (ps v : Text) (rest : Text → Bool)
    → p ≡ star
    → ((w : Text) → rest w ≡ true → Matches ps w)
    → some_suffix rest v ≡ true
    → Matches (p ∷ ps) v
unfolding some_suffix
some_suffix_sound p ps [] rest e ih h = skip e (ih [] h)
some_suffix_sound p ps (c ∷ v) rest e ih h = elim (Bool-cases (rest (c ∷ v))) [
  | inl here ↦ skip e (ih (c ∷ v) here)
  | inr later ↦ more e (some_suffix_sound p ps v rest e ih (ground arith))
]

mark_sound :
    (p : ℕ) (ps v : Text) (rest : Text → Bool)
    → p ≡ mark
    → p ≢ star
    → ((w : Text) → rest w ≡ true → Matches ps w)
    → one_unit (λ c. true) rest v ≡ true
    → Matches (p ∷ ps) v
mark_sound p ps [] rest e n ih h = cc
mark_sound p ps (c ∷ v) rest e n ih h = unit n (inl e) (ih v h)

literal_sound :
    (p : ℕ) (ps v : Text) (rest : Text → Bool)
    → p ≢ star
    → ((w : Text) → rest w ≡ true → Matches ps w)
    → one_unit (eqb p) rest v ≡ true
    → Matches (p ∷ ps) v
literal_sound p ps [] rest n ih h = cc
literal_sound p ps (c ∷ v) rest n ih h = unit n (inr (ground arith)) (ih v (ground arith))

matches_sound : (ps v : Text) → matches (map piece_of ps) v ≡ true → Matches ps v
unfolding matches
matches_sound [] [] h = done
matches_sound [] (c ∷ v) h = cc
matches_sound (p ∷ ps) v h =
    let rest = matches (map piece_of ps) in
    elim (Bool-cases (eqb p star)) [
      | inl e ↦ some_suffix_sound p ps v rest ((eqb_iff p star).0 e) (matches_sound ps) (rw e at h)
      | inr e ↦ elim (Bool-cases (eqb p mark)) [
        | inl f ↦
            mark_sound p ps v rest ((eqb_iff p mark).0 f) (ground arith) (matches_sound ps)
              (rw (e, f) at h)
        | inr f ↦ literal_sound p ps v rest (ground arith) (matches_sound ps) (rw (e, f) at h)
      ]
    ]

some_suffix-here : (rest : Text → Bool) (v : Text) → rest v ≡ true → some_suffix rest v ≡ true
unfolding some_suffix
some_suffix-here rest [] h = h
some_suffix-here rest (c ∷ v) h = ground arith

matches_complete : {ps v : Text} → Matches ps v → matches (map piece_of ps) v ≡ true
unfolding matches some_suffix
matches_complete done = refl
matches_complete (skip {p} {ps} {v} e m) =
    rw e (some_suffix-here (matches (map piece_of ps)) v (matches_complete m))
matches_complete (more {p} {c} {ps} {v} e m) =
    let later : matches (map piece_of (star ∷ ps)) v ≡ true = rw e at (matches_complete m) in
    rw e (ground arith)
matches_complete (unit {p} {c} {ps} {v} n d m) =
    let rest = matches_complete m in
    let no_star : eqb p star ≡ false = ground arith in
    elim (Bool-cases (eqb p mark)) [
      | inl f ↦ rw (no_star, f) rest
      | inr f ↦ rw (no_star, f) (ground arith)
    ]

-- The expression that is built for a pattern tests what the pattern stands for.
regexp_test_iff :
    (p v : Text) → (regexp_test (expression p) v ≡ true) ↔ (matches (map piece_of p) v ≡ true)
unfolding regexp_test
regexp_test_iff p v =
    let read = expression-pieces p (length (expression p)) (expression-length p) in
    rw read (λ h. h, λ h. h)

Matches-star : (v : Text) → Matches (star ∷ []) v
Matches-star [] = skip refl done
Matches-star (c ∷ v) = more refl (Matches-star v)

-- The test succeeds exactly on the texts that the pattern stands for, in which only `*` and `?` have
-- a meaning of their own: no other unit of a pattern is one to the expression that is built.
pub wildcard_match_iff : (p v : Text) → (wildcard_match p v ≡ true) ↔ Matches p v
unfolding wildcard_match
wildcard_match_iff p v = elim (Bool-cases (p == units "*")) [
  | inl e ↦
      let same : p ≡ units "*" = (text_eq_iff p (units "*")).0 e in
      (λ _. rw same (Matches-star v), λ _. rw e refl)
  | inr e ↦ (
    λ h. matches_sound p v ((regexp_test_iff p v).0 (rw e at h)),
    λ m. rw e ((regexp_test_iff p v).1 (matches_complete m)),
  )
]
