-- ===== src/Base/Lists.antt =====
-- Lists over native numbers, under the library's names, and predicates on their members.
use Prim.Native.Nat.{ℕ, suc, ◌+◌}
use mathlib.Core.Path.{◌≡◌}
use mathlib.Core.Logic.{inl, inr}
use mathlib.Core.Bool.{Bool, true, false, ◌&&◌, ◌||◌}
use mathlib.Core.List.{List, [], ◌∷◌, ◌++◌}
use mathlib.Core.Option
use mathlib.Core.Option.{Option, none, some}
use gdrive_s.Base.Tests.{eqb, if◌then◌else◌, Option-cases}
use native.Mathlib.Omega.{arith}

module _ {ℓ} {A : Type ℓ} where
  abbrev pub length : List A → ℕ
  length [] = 0
  length (x ∷ xs) = suc (length xs)

  pub length-append : (xs ys : List A) → length (xs ++ ys) ≡ length xs + length ys
  length-append [] ys = omega arith
  length-append (x ∷ xs) ys = omega (arith, length-append xs ys)

  abbrev pub any : (A → Bool) → List A → Bool
  any p [] = false
  any p (x ∷ xs) = p x || any p xs

  abbrev pub all : (A → Bool) → List A → Bool
  all p [] = true
  all p (x ∷ xs) = p x && all p xs

module _ {ℓ κ} {A : Type ℓ} (P : A → Type κ) where
  abbrev pub All : List A → Type κ
  All [] = Unit
  All (x ∷ xs) = P x × All xs

-- `indexOf` and `splice(i, 1)`: the list without its first `a`, or `none` if there is no `a`.
abbrev pub take_out : ℕ → List ℕ → Option (List ℕ)
take_out a [] = none
take_out a (x ∷ xs) =
    let rest = Option.map (◌∷◌ x) (take_out a xs) in if eqb x a then some xs else rest

pub length-take_out :
    (a : ℕ) (xs ys : List ℕ) → take_out a xs ≡ some ys → length xs ≡ suc (length ys)
length-take_out a [] ys h = cc
length-take_out a (x ∷ xs) ys h = elim (Option-cases (take_out a xs)) [
  | inl e ↦ ground arith
  | inr (rest, e) ↦ ground (arith, length-take_out a xs rest e)
]

pub All-append {ℓ κ} :
    {A : Type ℓ} (P : A → Type κ) (xs ys : List A) → All P xs → All P ys → All P (xs ++ ys)
All-append P [] ys front back = back
All-append P (x ∷ xs) ys (here, front) back = (here, All-append P xs ys front back)

pub All-map {ℓ κ μ} :
    {A : Type ℓ} (P : A → Type κ) (Q : A → Type μ)
    → ((x : A) → P x → Q x)
    → (xs : List A) → All P xs
    → All Q xs
All-map P Q f [] ps = tt
All-map P Q f (x ∷ xs) (p, ps) = (f x p, All-map P Q f xs ps)
