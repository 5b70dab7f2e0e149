-- ===== src/QuotaMeter/Exact.antt =====
-- A window counts the calls that fall in it.
use native.Mathlib.Nat.{mod-lt}
use gdrive_s.Base.{
  ℕ, zero, suc, ◌+◌, ◌%◌, ◌≤◌, ◌<◌, false, Option, none, some, List, [], ◌∷◌, ◌≡◌, ◌≢◌, refl, sym,
  ◌∙◌, ap, arith, length, leb, if◌then◌else◌, Bool-cases, inl, inr,
}
use gdrive_s.QuotaMeter.Ring.{
  DriveCallRecord, Slot, slot_at, roll_slot, make_ring, add_to, has_stamp, write_slot, modify,
  write,
}
use gdrive_s.QuotaMeter.Meter.{in_window, total}
use gdrive_s.QuotaMeter.Placed.{
  apart, IsPlaced, Placed, Placed-make_ring, Placed-later, write_slot-stamp, has_stamp-some,
  Placed-modify, length-modify, length-make_ring,
}

not_stamp : (t s : ℕ) → has_stamp (some t) s ≡ false → t ≢ s
not_stamp t s h e = ground arith

-- What a slot that is rolled over held has left the window.
gone :
    (n s place oldest newest : ℕ) (o : Option ℕ)
    → s % n ≡ place
    → ((t : ℕ) → o ≡ some t → t % n ≡ place)
    → ((t : ℕ) → o ≡ some t → t ≤ s)
    → has_stamp o s ≡ false
    → s ≤ newest
    → newest + 1 ≤ oldest + n
    → in_window oldest newest o ≡ false
gone n s place oldest newest none e p q f h w = refl
gone n s place oldest newest (some t) e p q f h w =
    let far = apart n s t (p t refl ∙ sym e) (q t refl) (not_stamp t s f) in ground arith

-- A field that a new slot has at 0 and that each call adds its share to.
module _ (field : Slot → ℕ) (share : DriveCallRecord → ℕ)
    (starts : (stamp : Option ℕ) → field (slot_at stamp) ≡ 0)
    (adds : (c : DriveCallRecord) (slot : Slot)
      → field (add_to c slot) ≡ field slot + share c) where
  field-write_slot :
      (s : ℕ) (c : DriveCallRecord) (slot : Slot)
      → field (write_slot s c slot) ≡ (if has_stamp slot.stamp s then field slot else 0) + share c
  unfolding write_slot
  field-write_slot s c slot = elim (Bool-cases (has_stamp slot.stamp s)) [
    | inl e ↦ rw e (adds c slot)
    | inr e ↦ rw e (adds c (roll_slot s) ∙ ap (λ m. m + share c) (starts (some s)))
  ]

  -- The slot that is written held the same stamp, or one that has left the window.
  amount-slot :
      (n s place oldest newest : ℕ) (c : DriveCallRecord) (slot : Slot)
      → s % n ≡ place
      → IsPlaced n s place slot
      → s ≤ newest
      → newest + 1 ≤ oldest + n
      → (if in_window oldest newest (write_slot s c slot).stamp
          then field (write_slot s c slot)
          else 0)
        ≡ (if in_window oldest newest slot.stamp then field slot else 0)
          + (if leb oldest s then share c else 0)
  amount-slot n s place oldest newest c slot e p h w = elim (Bool-cases (has_stamp slot.stamp s)) [
    | inl f ↦
        let same = has_stamp-some slot.stamp s f in
        rw (field-write_slot s c slot, write_slot-stamp s c slot, f, same) (ground arith)
    | inr f ↦
        let old = gone n s place oldest newest slot.stamp e p.at_place p.no_later f h w in
        rw (field-write_slot s c slot, write_slot-stamp s c slot, f, old) (ground arith)
  ]

  total-modify :
      (n s place i oldest newest : ℕ) (c : DriveCallRecord) (ring : List Slot)
      → i < length ring
      → s % n ≡ place + i
      → Placed n s place ring
      → s ≤ newest
      → newest + 1 ≤ oldest + n
      → total field oldest newest (modify i (write_slot s c) ring)
        ≡ total field oldest newest ring + (if leb oldest s then share c else 0)
  unfolding total modify
  total-modify n s place i oldest newest c [] l e p h w = absurd (omega (arith, l))
  total-modify n s place zero oldest newest c (slot ∷ ring) l e (p, ps) h w =
      omega (arith, amount-slot n s place oldest newest c slot (omega (arith, e)) p h w)
  total-modify n s place (suc i) oldest newest c (slot ∷ ring) l e (p, ps) h w = omega (
    arith,
    total-modify n s (suc place) i oldest newest c ring (omega (arith, l)) (omega (arith, e)) ps h
        w,
  )

  total-make_ring : (n oldest newest : ℕ) → total field oldest newest (make_ring n) ≡ 0
  unfolding total make_ring
  total-make_ring zero oldest newest = refl
  total-make_ring (suc n) oldest newest = omega (arith, total-make_ring n oldest newest)

-- The writes, the latest first.
unfoldable pub ring_after : ℕ → List (ℕ × DriveCallRecord) → List Slot
ring_after n [] = make_ring n
ring_after n ((s, c) ∷ earlier) = write s c (ring_after n earlier)

-- Stamps that never fall, none later than the bound.
abbrev pub InOrder : ℕ → List (ℕ × DriveCallRecord) → Type 0
InOrder bound [] = Unit
InOrder bound ((s, c) ∷ earlier) = s ≤ bound × InOrder s earlier

unfoldable pub share_since : (DriveCallRecord → ℕ) → ℕ → List (ℕ × DriveCallRecord) → ℕ
share_since share oldest [] = 0
share_since share oldest ((s, c) ∷ earlier) =
    share_since share oldest earlier + (if leb oldest s then share c else 0)

InOrder-later :
    (bound later : ℕ) (hs : List (ℕ × DriveCallRecord))
    → bound ≤ later
    → InOrder bound hs
    → InOrder later hs
InOrder-later bound later [] h o = tt
InOrder-later bound later ((s, c) ∷ hs) h (k, o) = (omega (arith, h, k), o)

length-ring_after : (n : ℕ) (hs : List (ℕ × DriveCallRecord)) → length (ring_after n hs) ≡ n
unfolding ring_after write
length-ring_after n [] = length-make_ring n
length-ring_after n ((s, c) ∷ hs) = length-modify _ _ (ring_after n hs) ∙ length-ring_after n hs

Placed-ring_after :
    (n bound : ℕ) (hs : List (ℕ × DriveCallRecord))
    → InOrder bound hs
    → Placed n bound 0 (ring_after n hs)
unfolding ring_after write
Placed-ring_after n bound [] o = Placed-make_ring n bound 0 n
Placed-ring_after n bound ((s, c) ∷ hs) (h, o) = rw (length-ring_after n hs) (
    Placed-later n s bound 0 _ h
      (Placed-modify n s 0 (s % n) c (ring_after n hs) (omega arith) (Placed-ring_after n s hs o)))

module _ (field : Slot → ℕ) (share : DriveCallRecord → ℕ)
    (starts : (stamp : Option ℕ) → field (slot_at stamp) ≡ 0)
    (adds : (c : DriveCallRecord) (slot : Slot)
      → field (add_to c slot) ≡ field slot + share c) where
  -- A window no longer than the ring holds the shares of all the calls since its start.
  pub total-ring_after :
      (n oldest newest : ℕ) (hs : List (ℕ × DriveCallRecord))
      → 0 < n
      → InOrder newest hs
      → newest + 1 ≤ oldest + n
      → total field oldest newest (ring_after n hs) ≡ share_since share oldest hs
  unfolding ring_after write share_since
  total-ring_after n oldest newest [] z o w =
      total-make_ring field share starts adds n oldest newest
  total-ring_after n oldest newest ((s, c) ∷ hs) z (h, o) w =
      let size = length-ring_after n hs in
      let place = mod-lt s z in
      let more =
        total-modify field share starts adds n s 0 (s % n) oldest newest c (ring_after n hs)
          (omega (arith, size, place)) (omega arith) (Placed-ring_after n s hs o) h w in
      let before = total-ring_after n oldest newest hs z (InOrder-later s newest hs h o) w in
      rw size (omega (arith, more, before))
