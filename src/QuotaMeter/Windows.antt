-- ===== src/QuotaMeter/Windows.antt =====
-- What the windows of the meter report.
use native.Mathlib.Nat.{le-div_iff_mul-le, div-mul-le_self}
use gdrive_s.Base.{
  ℕ, ◌+◌, ◌/◌, ◌≤◌, ◌<◌, ◌||◌, Option, List, [], ◌∷◌, ◌≡◌, refl, ap, arith, eqb, leb, if◌then◌else◌,
  Bool-cases, inl, inr,
}
use gdrive_s.QuotaMeter.Ring.{
  DriveCallKind, api, upload, download, DriveCallRecord, Slot, slot_at, add_to, write,
}
use gdrive_s.QuotaMeter.Meter.{
  DriveQuotaMeter, new_meter, time_of, record_call, total, unit_ms, oldest_of, ring_of_window,
  window,
}
use gdrive_s.QuotaMeter.Exact.{ring_after, InOrder, share_since, total-ring_after}

-- A call and what the meter's clock read at it.
abbrev pub Call : Type 0
Call = ℕ × DriveCallRecord

-- The meter after these calls, the latest first.
unfoldable pub meter_after : ℕ → List Call → DriveQuotaMeter
meter_after start [] = new_meter start
meter_after start ((now, c) ∷ earlier) = record_call now c (meter_after start earlier)

-- The slots' stamps of the calls, for slots of this length.
abbrev pub stamps : ℕ → List Call → List Call
stamps unit [] = []
stamps unit ((now, c) ∷ earlier) = (time_of now c / unit, c) ∷ stamps unit earlier

-- Times that never fall, none after now.
abbrev pub InTime : ℕ → List Call → Type 0
InTime bound [] = Unit
InTime bound ((now, c) ∷ earlier) = time_of now c ≤ bound × InTime (time_of now c) earlier

div_mono : (a b k : ℕ) → 0 < k → a ≤ b → a / k ≤ b / k
div_mono a b k z h =
    (le-div_iff_mul-le {k = k} {x = a / k} {y = b} z).1 (omega (arith, div-mul-le_self a k, h))

InOrder-stamps :
    (unit bound : ℕ) (cs : List Call)
    → 0 < unit
    → InTime bound cs
    → InOrder (bound / unit) (stamps unit cs)
InOrder-stamps unit bound [] z o = tt
InOrder-stamps unit bound ((now, c) ∷ cs) z (h, o) =
    (div_mono (time_of now c) bound unit z h, InOrder-stamps unit (time_of now c) cs z o)

seconds-meter_after :
    (start : ℕ) (cs : List Call) → (meter_after start cs).seconds ≡ ring_after 600 (stamps 1000 cs)
unfolding meter_after record_call new_meter ring_after
seconds-meter_after start [] = refl
seconds-meter_after start ((now, c) ∷ cs) =
    ap (write (time_of now c / 1000) c) (seconds-meter_after start cs)

minutes-meter_after :
    (start : ℕ) (cs : List Call)
    → (meter_after start cs).minutes ≡ ring_after 1440 (stamps 60_000 cs)
unfolding meter_after record_call new_meter ring_after
minutes-meter_after start [] = refl
minutes-meter_after start ((now, c) ∷ cs) =
    ap (write (time_of now c / 60_000) c) (minutes-meter_after start cs)

module _ (field : Slot → ℕ) (share : DriveCallRecord → ℕ)
    (starts : (stamp : Option ℕ) → field (slot_at stamp) ≡ 0)
    (adds : (c : DriveCallRecord) (slot : Slot)
      → field (add_to c slot) ≡ field slot + share c) where
  total-window :
      (start now w : ℕ) (cs : List Call)
      → w ≤ 86_400
      → InTime now cs
      → total field (oldest_of w now) (now / unit_ms w) (ring_of_window w (meter_after start cs))
        ≡ share_since share (oldest_of w now) (stamps (unit_ms w) cs)
  total-window start now w cs h o = elim (Bool-cases (leb w 600)) [
    | inl e ↦
        rw (e, seconds-meter_after start cs)
          (total-ring_after field share starts adds 600 _ (now / 1000) (stamps 1000 cs)
            (omega arith) (InOrder-stamps 1000 now cs (omega arith) o) (ground arith))
    | inr e ↦
        rw (e, minutes-meter_after start cs)
          (total-ring_after field share starts adds 1440 _ (now / 60_000) (stamps 60_000 cs)
            (omega arith) (InOrder-stamps 60_000 now cs (omega arith) o) (ground arith))
  ]

abbrev pub one : DriveCallRecord → ℕ
one c = 1

abbrev pub if_throttled : DriveCallRecord → ℕ
if_throttled c = if c.throttled then 1 else 0

abbrev pub if_failed : DriveCallRecord → ℕ
if_failed c = if c.throttled then 0 else if leb 400 c.status || eqb c.status 0 then 1 else 0

abbrev pub is_kind : DriveCallKind → DriveCallKind → ℕ
is_kind api api = 1
is_kind upload upload = 1
is_kind download download = 1
is_kind _ _ = 0

-- `add_to` changes each counter of a slot by what the call adds to it.
record Adds (c : DriveCallRecord) (slot : Slot) : Type 0 where
  requests : (add_to c slot).requests ≡ slot.requests + 1
  throttled : (add_to c slot).throttled ≡ slot.throttled + if_throttled c
  errors : (add_to c slot).errors ≡ slot.errors + if_failed c
  api_calls : (add_to c slot).api_calls ≡ slot.api_calls + is_kind api c.kind
  upload_calls : (add_to c slot).upload_calls ≡ slot.upload_calls + is_kind upload c.kind
  download_calls : (add_to c slot).download_calls ≡ slot.download_calls + is_kind download c.kind

add_to-Adds :
    (kind : DriveCallKind) (c : DriveCallRecord) (slot : Slot) → c.kind ≡ kind → Adds c slot
unfolding add_to
add_to-Adds api c slot e = rw e (record {
  requests = refl;
  throttled = refl;
  errors = refl;
  api_calls = omega arith;
  upload_calls = omega arith;
  download_calls = omega arith;
})
add_to-Adds upload c slot e = rw e (record {
  requests = refl;
  throttled = refl;
  errors = refl;
  api_calls = omega arith;
  upload_calls = omega arith;
  download_calls = omega arith;
})
add_to-Adds download c slot e = rw e (record {
  requests = refl;
  throttled = refl;
  errors = refl;
  api_calls = omega arith;
  upload_calls = omega arith;
  download_calls = omega arith;
})

adds : (c : DriveCallRecord) (slot : Slot) → Adds c slot
adds c slot = add_to-Adds c.kind c slot refl

-- The calls since the start of a window of `w` seconds, counted one by one.
abbrev pub calls_since : (DriveCallRecord → ℕ) → ℕ → ℕ → List Call → ℕ
calls_since share w now cs = share_since share (oldest_of w now) (stamps (unit_ms w) cs)

pub window_exact :
    (start now w : ℕ) (cs : List Call)
    → w ≤ 86_400
    → InTime now cs
    → ((window w now (meter_after start cs)).requests ≡ calls_since one w now cs)
      × ((window w now (meter_after start cs)).throttled ≡ calls_since if_throttled w now cs)
      × ((window w now (meter_after start cs)).errors ≡ calls_since if_failed w now cs)
      × ((window w now (meter_after start cs)).api_calls
          ≡ calls_since (λ c. is_kind api c.kind) w now cs)
      × ((window w now (meter_after start cs)).upload_calls
          ≡ calls_since (λ c. is_kind upload c.kind) w now cs)
      × ((window w now (meter_after start cs)).download_calls
          ≡ calls_since (λ c. is_kind download c.kind) w now cs)
unfolding window
window_exact start now w cs h o = (
  total-window (λ slot. slot.requests) one (λ s. refl) (λ c slot. (adds c slot).requests) start now
      w cs h o,
  total-window (λ slot. slot.throttled) if_throttled (λ s. refl) (λ c slot. (adds c slot).throttled)
      start now w cs h o,
  total-window (λ slot. slot.errors) if_failed (λ s. refl) (λ c slot. (adds c slot).errors) start
      now w cs h o,
  total-window (λ slot. slot.api_calls) _ (λ s. refl) (λ c slot. (adds c slot).api_calls) start now
      w cs h o,
  total-window (λ slot. slot.upload_calls) _ (λ s. refl) (λ c slot. (adds c slot).upload_calls)
      start now w cs h o,
  total-window (λ slot. slot.download_calls) _ (λ s. refl) (λ c slot. (adds c slot).download_calls)
      start now w cs h o,
)
