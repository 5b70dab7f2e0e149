-- ===== src/Base/Entries.antt =====
-- How many entries a map has, and which keys it knows.
use Prim.Native.Nat.{suc, ◌≤◌, ◌<◌}
use mathlib.Core.Path.{◌≡◌, refl}
use mathlib.Core.Logic.{inl, inr}
use mathlib.Core.Option.{some}
use mathlib.Core.List.{[], ◌∷◌}
use native.Mathlib.Omega.{arith}
use gdrive_s.Base.Tests.{Key, ◌==◌, ==_refl, Bool-cases}
use gdrive_s.Base.Lists.{length, All, All-map}
use gdrive_s.Base.JsMap.{Dict, lookup, put, remove}

module _ {ℓ κ} {K : Type ℓ} {V : Type κ} ⦃e : Key K⦄ where
  pub length-put : (k : K) (v : V) (m : Dict K V) → length (put k v m) ≤ suc (length m)
  unfolding put
  length-put k v [] = omega arith
  length-put k v ((j, w) ∷ m) = ground (arith, length-put k v m)

  pub length-put_found :
      (k : K) (v w : V) (m : Dict K V) → lookup k m ≡ some w → length (put k v m) ≡ length m
  unfolding put lookup
  length-put_found k v w [] h = cc
  length-put_found k v w ((j, u) ∷ m) h = elim (Bool-cases (j == k)) [
    | inl f ↦ rw f refl
    | inr f ↦ rw f (omega (arith, length-put_found k v w m (ground arith)))
  ]

  pub length-remove : (k : K) (m : Dict K V) → length (remove k m) ≤ length m
  unfolding remove
  length-remove k [] = omega arith
  length-remove k ((j, w) ∷ m) = ground (arith, length-remove k m)

  pub length-remove_found :
      (k : K) (v : V) (m : Dict K V) → lookup k m ≡ some v → length (remove k m) < length m
  unfolding remove lookup
  length-remove_found k v [] h = cc
  length-remove_found k v ((j, w) ∷ m) h = elim (Bool-cases (j == k)) [
    | inl f ↦ rw f (omega (arith, length-remove k m))
    | inr f ↦ rw f (omega (arith, length-remove_found k v m (ground arith)))
  ]

  pub lookup-first : (k : K) (v : V) (m : Dict K V) → lookup k ((k, v) ∷ m) ≡ some v
  unfolding lookup
  lookup-first k v m = rw (==_refl k) refl

  -- The key is one of the map's.
  abbrev pub Knows : Dict K V → K → Type κ
  Knows m k = (v : V) × (lookup k m ≡ some v)

  Knows-more : (j : K) (w : V) (m : Dict K V) (k : K) → Knows m k → Knows ((j, w) ∷ m) k
  unfolding lookup
  Knows-more j w m k (v, h) = elim (Bool-cases (j == k)) [
    | inl f ↦ (w, rw f refl)
    | inr f ↦ (v, rw f h)
  ]

  pub Knows-own : (m : Dict K V) → All (λ entry. Knows m (entry.0)) m
  Knows-own [] = tt
  Knows-own ((k, v) ∷ m) =
      ((v, lookup-first k v m), All-map _ _ (λ entry. Knows-more k v m (entry.0)) m (Knows-own m))
