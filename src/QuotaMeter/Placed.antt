-- ===== src/QuotaMeter/Placed.antt =====
-- Which stamps a slot of a ring can hold.
use native.Mathlib.Nat.{div-add-mod, mul-le-mul_left, mul-add}
use mathlib.Core.Option.{some-injective}
use gdrive_s.Base.{
  ℕ, zero, suc, ◌+◌, ◌/◌, ◌%◌, ◌≤◌, true, Option, none, some, List, [], ◌∷◌, ◌≡◌, ◌≢◌, refl, sym,
  ◌∙◌, ap, arith, length, eqb_iff, leb, Bool-cases, inl, inr,
}
use gdrive_s.QuotaMeter.Ring.{
  DriveCallKind, api, upload, download, DriveCallRecord, Slot, make_ring, add_to, counted,
  has_stamp, write_slot, modify,
}

-- Two stamps of one slot are the ring's size apart.
pub apart : (n s s' : ℕ) → s' % n ≡ s % n → s' ≤ s → s' ≢ s → s' + n ≤ s
apart n s s' e h d = elim (Bool-cases (leb (s / n) (s' / n))) [
  | inl le ↦
      let m = mul-le-mul_left {m = s / n} {n = s' / n} n (ground arith) in
      absurd (d (omega (arith, div-add-mod s n, div-add-mod s' n, m, e, h)))
  | inr gt ↦
      let m = mul-le-mul_left {m = s' / n + 1} {n = s / n} n (ground arith) in
      omega (arith, div-add-mod s n, div-add-mod s' n, m, mul-add n (s' / n) 1, e)
]

-- A slot at this place of the ring holds a stamp of it, none later than the bound.
pub record IsPlaced (n bound place : ℕ) (slot : Slot) : Type 0 where
  pub at_place : (s : ℕ) → slot.stamp ≡ some s → s % n ≡ place
  pub no_later : (s : ℕ) → slot.stamp ≡ some s → s ≤ bound

abbrev pub Placed : ℕ → ℕ → ℕ → List Slot → Type 0
Placed n bound place [] = Unit
Placed n bound place (slot ∷ ring) = IsPlaced n bound place slot × Placed n bound (suc place) ring

pub Placed-make_ring : (n bound place m : ℕ) → Placed n bound place (make_ring m)
unfolding make_ring
Placed-make_ring n bound place zero = tt
Placed-make_ring n bound place (suc m) =
    (record { at_place = λ s e. cc; no_later = λ s e. cc }, Placed-make_ring n bound (suc place) m)

pub Placed-later :
    (n bound later place : ℕ) (ring : List Slot)
    → bound ≤ later
    → Placed n bound place ring
    → Placed n later place ring
Placed-later n bound later place [] h p = tt
Placed-later n bound later place (slot ∷ ring) h (p, ps) = (
  record { at_place = p.at_place; no_later = λ s e. omega (arith, p.no_later s e, h) },
  Placed-later n bound later (suc place) ring h ps,
)

counted-stamp : (k : DriveCallKind) (slot : Slot) → (counted k slot).stamp ≡ slot.stamp
counted-stamp api slot = refl
counted-stamp upload slot = refl
counted-stamp download slot = refl

pub has_stamp-some : (o : Option ℕ) (s : ℕ) → has_stamp o s ≡ true → o ≡ some s
has_stamp-some none s h = cc
has_stamp-some (some t) s h = ap some ((eqb_iff t s).0 h)

pub write_slot-stamp :
    (s : ℕ) (c : DriveCallRecord) (slot : Slot) → (write_slot s c slot).stamp ≡ some s
unfolding write_slot add_to
write_slot-stamp s c slot = elim (Bool-cases (has_stamp slot.stamp s)) [
  | inl e ↦ rw e (counted-stamp c.kind _ ∙ has_stamp-some slot.stamp s e)
  | inr e ↦ rw e (counted-stamp c.kind _)
]

IsPlaced-write_slot :
    (n s place : ℕ) (c : DriveCallRecord) (slot : Slot)
    → s % n ≡ place
    → IsPlaced n s place (write_slot s c slot)
IsPlaced-write_slot n s place c slot e = record {
  at_place =
      λ t f. let same = some-injective s t (sym (write_slot-stamp s c slot) ∙ f) in rw (← same) e;
  no_later = λ t f.
      let same = some-injective s t (sym (write_slot-stamp s c slot) ∙ f) in omega (arith, same);
}

pub Placed-modify :
    (n s place i : ℕ) (c : DriveCallRecord) (ring : List Slot)
    → s % n ≡ place + i
    → Placed n s place ring
    → Placed n s place (modify i (write_slot s c) ring)
unfolding modify
Placed-modify n s place i c [] e p = tt
Placed-modify n s place zero c (slot ∷ ring) e (p, ps) =
    (IsPlaced-write_slot n s place c slot (omega (arith, e)), ps)
Placed-modify n s place (suc i) c (slot ∷ ring) e (p, ps) =
    (p, Placed-modify n s (suc place) i c ring (omega (arith, e)) ps)

pub length-modify :
    (i : ℕ) (f : Slot → Slot) (ring : List Slot) → length (modify i f ring) ≡ length ring
unfolding modify
length-modify i f [] = refl
length-modify zero f (slot ∷ ring) = refl
length-modify (suc i) f (slot ∷ ring) = ap suc (length-modify i f ring)

pub length-make_ring : (n : ℕ) → length (make_ring n) ≡ n
unfolding make_ring
length-make_ring zero = refl
length-make_ring (suc n) = ap suc (length-make_ring n)
