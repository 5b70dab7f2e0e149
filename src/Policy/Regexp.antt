-- ===== src/Policy/Regexp.antt =====
-- The regular expressions that `wildcardMatch` of s3/policy.ts builds: the source of one, and what
-- RegExp does with it, as far as that source goes.
use gdrive_s.Base.{
  ℕ, zero, suc, Bool, true, false, not, ◌&&◌, ◌||◌, Option, none, some, List, [], ◌∷◌, ◌++◌, any,
  eqb, Text, after_prefix, length, if◌then◌else◌,
}

abbrev pub star : ℕ
star = b'*'

abbrev pub mark : ℕ
mark = b'?'

abbrev pub backslash : ℕ
backslash = 92

-- `[\s\S]`
abbrev pub any_class : Text
any_class = b'[' ∷ backslash ∷ b's' ∷ backslash ∷ b'S' ∷ b']' ∷ []

-- `replace` and `replaceAll` of single units.
unfoldable pub replace_each : (ℕ → Text) → Text → Text
replace_each f [] = []
replace_each f (c ∷ s) = f c ++ replace_each f s

-- The class of the first replacement.
abbrev pub specials : Text
specials =
    b'.' ∷ b'+' ∷ b'^' ∷ b'$' ∷ b'{' ∷ b'}' ∷ b'(' ∷ b')' ∷ b'|' ∷ b'[' ∷ b']' ∷ backslash ∷ []

abbrev pub is_special : ℕ → Bool
is_special c = any (eqb c) specials

abbrev pub escape_unit : ℕ → Text
escape_unit c = if is_special c then backslash ∷ c ∷ [] else c ∷ []

abbrev pub star_unit : ℕ → Text
star_unit c = if eqb c star then any_class ++ star ∷ [] else c ∷ []

abbrev pub mark_unit : ℕ → Text
mark_unit c = if eqb c mark then any_class else c ∷ []

-- The source, between `^` and `$`.
abbrev pub expression : Text → Text
expression pattern =
    let escaped = replace_each escape_unit pattern in
    replace_each mark_unit (replace_each star_unit escaped)

-- What a source is made of. A point stands for any unit but a line terminator.
pub data Piece : Type 0 where
  literal : ℕ → Piece
  point any_unit any_run : Piece

abbrev pub is_starred : Text → Bool
is_starred [] = false
is_starred (c ∷ s) = eqb c star

abbrev pub rest_of : Text → Text
rest_of [] = []
rest_of (c ∷ s) = s

-- The class with its star, if there is one.
abbrev pub class_piece : Bool → Piece
class_piece true = any_run
class_piece false = any_unit

abbrev pub add_piece : Piece → Option (List Piece) → Option (List Piece)
add_piece p none = none
add_piece p (some ps) = some (p ∷ ps)

abbrev after_backslash : Text → Option (ℕ × Text)
after_backslash [] = none
after_backslash (c ∷ s) = some (c, s)

-- The pieces of a source, none for what is not used here; as much fuel as the source has units.
unfoldable pub pieces_of : ℕ → Text → Option (List Piece)
pieces_of n [] = some []
pieces_of zero (c ∷ s) = none
pieces_of (suc n) (c ∷ s) = elim (after_prefix any_class (c ∷ s)) [
  | some rest ↦
      add_piece (class_piece (is_starred rest))
        (pieces_of n (if is_starred rest then rest_of rest else rest))
  | none ↦
      if eqb c backslash
      then (elim (after_backslash s) [
        | none ↦ none
        | some escaped ↦ add_piece (literal escaped.0) (pieces_of n escaped.1)
      ])
      else if eqb c b'.'
      then add_piece point (pieces_of n s)
      else if is_special c || eqb c star || eqb c mark
      then none
      else add_piece (literal c) (pieces_of n s)
]

abbrev is_line_terminator : ℕ → Bool
is_line_terminator c = any (eqb c) (10 ∷ 13 ∷ 8232 ∷ 8233 ∷ [])

-- Any run of units before the rest.
unfoldable pub some_suffix : (Text → Bool) → Text → Bool
some_suffix rest [] = rest []
some_suffix rest (c ∷ v) = rest (c ∷ v) || some_suffix rest v

abbrev pub one_unit : (ℕ → Bool) → (Text → Bool) → Text → Bool
one_unit p rest [] = false
one_unit p rest (c ∷ v) = p c && rest v

-- Whether the pieces match a text from its start to its end.
unfoldable pub matches : List Piece → Text → Bool
unfolding some_suffix
matches [] [] = true
matches [] (c ∷ v) = false
matches (literal a ∷ ps) v = one_unit (eqb a) (matches ps) v
matches (point ∷ ps) v = one_unit (λ c. not (is_line_terminator c)) (matches ps) v
matches (any_unit ∷ ps) v = one_unit (λ c. true) (matches ps) v
matches (any_run ∷ ps) v = some_suffix (matches ps) v

abbrev pub matches_parsed : Option (List Piece) → Text → Bool
matches_parsed none v = false
matches_parsed (some ps) v = matches ps v

-- `new RegExp(`^${source}$`).test(value)`
unfoldable pub regexp_test : Text → Text → Bool
unfolding pieces_of matches
regexp_test source value = matches_parsed (pieces_of (length source) source) value
