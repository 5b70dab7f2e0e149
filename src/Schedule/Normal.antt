-- ===== src/Schedule/Normal.antt =====
-- What a timing that is accepted satisfies.
use gdrive_s.Base.{
  ℕ, ◌≤◌, ◌≡◌, refl, ◌∙◌, String, Bool, true, false, Option, none, some, List, [], ◌∷◌, eqb, ltb,
  any, All, Text, arith, Bool-cases, inl, inr, max,
}
use mathlib.Core.Option.{some-injective}
use mathlib.Core.Path.{subst}
use gdrive_s.Store.Table.{order_by}
use gdrive_s.Store.Table.Select.{any-order_by}
use gdrive_s.Schedule.{
  ScheduleFrequency, interval, daily, weekly, on_change, unknown, Numeral, whole, improper,
  ScheduleTiming, between, time_matches, within, unused, proper_days, add_day, wholes, sort_days,
  days_or_none, interval_timing, change_timing, with_interval, given_or, with_quiet, with_daily,
  with_days, with_weekly, normalize_as, normalize_timing, is_whole, includes, insert_new_day,
  max_interval_minutes, max_quiet_minutes, max_wait_minutes_allowed, default_quiet_minutes,
  default_max_wait_minutes,
}

-- By its frequency, what the fields of a timing hold.
abbrev pub NormalAs : ScheduleFrequency → ScheduleTiming → ℕ → Type 0
NormalAs interval t min_interval =
    (n : ℕ) × (t.interval_minutes ≡ some (whole n)) × (min_interval ≤ n) × (n ≤ 10080)
NormalAs daily t min_interval =
    (s : Text) × (t.time_of_day ≡ some s) × (time_matches (some s) ≡ true)
NormalAs weekly t min_interval =
    (s : Text) × (t.time_of_day ≡ some s)
    × (time_matches (some s) ≡ true)
    × ((d : ℕ) × (1 ≤ d) × (d ≤ 7) × (includes t.days_of_week d ≡ true))
NormalAs on_change t min_interval =
    (q : ℕ) × (t.quiet_minutes ≡ some (whole q))
    × (1 ≤ q)
    × (q ≤ 1440)
    × ((w : ℕ) × (t.max_wait_minutes ≡ some (whole w)) × (q ≤ w) × (w ≤ 10080))
NormalAs unknown t min_interval = ⊥

abbrev pub IsNormal : ScheduleTiming → ℕ → Type 0
IsNormal t min_interval = NormalAs t.frequency t min_interval

within-bounds :
    (low high : ℕ) (x : Numeral) (n : ℕ) → within low high x ≡ some n → (low ≤ n) × (n ≤ high)
within-bounds low high improper n h = cc
within-bounds low high (whole m) n h = ground arith

interval_timing-IsNormal :
    (min_interval : ℕ) (tz : String) (o : Option ℕ) (t : ScheduleTiming)
    → ((n : ℕ) → o ≡ some n → (min_interval ≤ n) × (n ≤ 10080))
    → interval_timing tz o ≡ some t
    → IsNormal t min_interval
interval_timing-IsNormal min_interval tz none t b h = cc
interval_timing-IsNormal min_interval tz (some n) t b h =
    subst (λ r. IsNormal r min_interval)
      (some-injective (record (unused tz interval) { interval_minutes = some (whole n) }) t h)
      (n, refl, (b n refl).0, (b n refl).1)

with_interval-IsNormal :
    (min_interval : ℕ) (tz : String) (x : Option Numeral) (t : ScheduleTiming)
    → with_interval min_interval tz x ≡ some t
    → IsNormal t min_interval
with_interval-IsNormal min_interval tz none t h = cc
with_interval-IsNormal min_interval tz (some x) t h =
    interval_timing-IsNormal min_interval tz _ t (within-bounds min_interval max_interval_minutes x)
      h

change_timing-IsNormal :
    (min_interval : ℕ) (tz : String) (q : ℕ) (o : Option ℕ) (t : ScheduleTiming)
    → (1 ≤ q) × (q ≤ 1440)
    → ((n : ℕ) → o ≡ some n → (q ≤ n) × (n ≤ 10080))
    → change_timing tz q o ≡ some t
    → IsNormal t min_interval
change_timing-IsNormal min_interval tz q none t b c h = cc
change_timing-IsNormal min_interval tz q (some n) t b c h =
    subst (λ r. IsNormal r min_interval)
      (some-injective
        (record (unused tz on_change) {
          quiet_minutes = some (whole q);
          max_wait_minutes = some (whole n);
        })
        t h)
      (q, refl, b.0, b.1, (n, refl, (c n refl).0, (c n refl).1))

with_quiet-IsNormal :
    (min_interval : ℕ) (tz : String) (o : Option ℕ) (wait : Option Numeral) (t : ScheduleTiming)
    → ((q : ℕ) → o ≡ some q → (1 ≤ q) × (q ≤ 1440))
    → with_quiet tz o wait ≡ some t
    → IsNormal t min_interval
with_quiet-IsNormal min_interval tz none wait t b h = cc
with_quiet-IsNormal min_interval tz (some q) wait t b h =
    change_timing-IsNormal min_interval tz q _ t (b q refl)
      (within-bounds q max_wait_minutes_allowed (given_or (max default_max_wait_minutes q) wait)) h

with_daily-IsNormal :
    (min_interval : ℕ) (tz : String) (time : Option Text) (t : ScheduleTiming)
    → with_daily tz time ≡ some t
    → IsNormal t min_interval
with_daily-IsNormal min_interval tz none t h = cc
with_daily-IsNormal min_interval tz (some s) t h = elim (Bool-cases (time_matches (some s))) [
  | inr e ↦ absurd (cc (rw e at h))
  | inl e ↦
      subst (λ r. IsNormal r min_interval)
        (some-injective (record (unused tz daily) { time_of_day = some s }) t (rw e at h))
        (s, refl, e)
]

abbrev IsWeekday : ℕ → Type 0
IsWeekday d = between 1 7 d ≡ true

insert_new_day-All :
    (d : ℕ) (days : List ℕ)
    → IsWeekday d
    → All IsWeekday days
    → All IsWeekday (insert_new_day d days)
insert_new_day-All d days here later = elim (Bool-cases (any (eqb d) days)) [
  | inl e ↦ rw e later
  | inr e ↦ rw e (here, later)
]

add_day-All :
    (d : ℕ) (o : Option (List ℕ)) (days : List ℕ)
    → ((l : List ℕ) → o ≡ some l → All IsWeekday l)
    → add_day d o ≡ some days
    → All IsWeekday days
add_day-All d none days rest h = cc
add_day-All d (some l) days rest h = elim (Bool-cases (between 1 7 d)) [
  | inr e ↦ absurd (cc (rw e at h))
  | inl e ↦
      subst (All IsWeekday) (some-injective (insert_new_day d l) days (rw e at h))
        (insert_new_day-All d l e (rest l refl))
]

proper_days-All :
    (l : List Numeral) (days : List ℕ) → proper_days l ≡ some days → All IsWeekday days
unfolding proper_days
proper_days-All [] days h = subst (All IsWeekday) (some-injective [] days h) tt
proper_days-All (improper ∷ rest) days h = cc
proper_days-All (whole d ∷ rest) days h =
    add_day-All d (proper_days rest) days (proper_days-All rest) h

any-wholes : (d : ℕ) (days : List ℕ) → any (is_whole d) (wholes days) ≡ any (λ n. eqb n d) days
any-wholes d [] = refl
any-wholes d (n ∷ days) = ground (arith, any-wholes d days)

with_days-IsNormal :
    (min_interval : ℕ) (tz : String) (s : Text) (o : Option (List ℕ)) (t : ScheduleTiming)
    → time_matches (some s) ≡ true
    → ((l : List ℕ) → o ≡ some l → All IsWeekday l)
    → with_days tz (some s) (sort_days o) ≡ some t
    → IsNormal t min_interval
with_days-IsNormal min_interval tz s none t time all h = cc
with_days-IsNormal min_interval tz s (some []) t time all h = cc
with_days-IsNormal min_interval tz s (some (d ∷ rest)) t time all h =
    let days = order_by ltb (d ∷ rest) in
    let here = (all (d ∷ rest) refl).0 in
    let member : any (λ n. eqb n d) (d ∷ rest) ≡ true = ground arith in
    subst (λ r. IsNormal r min_interval)
      (some-injective
        (record (unused tz weekly) { time_of_day = some s; days_of_week = some (wholes days) }) t h)
      (
        s,
        refl,
        time,
        (
          d,
          ground arith,
          ground arith,
          any-wholes d days ∙ any-order_by (λ n. eqb n d) ltb (d ∷ rest) ∙ member,
        ),
      )

with_weekly-IsNormal :
    (min_interval : ℕ) (tz : String) (time : Option Text) (days : Option (List Numeral))
    (t : ScheduleTiming)
    → with_weekly tz time days ≡ some t
    → IsNormal t min_interval
with_weekly-IsNormal min_interval tz none days t h = cc
with_weekly-IsNormal min_interval tz (some s) days t h = elim (Bool-cases (time_matches (some s))) [
  | inr e ↦ absurd (cc (rw e at h))
  | inl e ↦
      with_days-IsNormal min_interval tz s _ t e (proper_days-All (days_or_none days)) (rw e at h)
]

normalize_as-IsNormal :
    (f : ScheduleFrequency) (input : ScheduleTiming) (min_interval : ℕ) (allow : Bool)
    (t : ScheduleTiming)
    → normalize_as f input min_interval allow ≡ some t
    → IsNormal t min_interval
normalize_as-IsNormal interval input m allow t h =
    with_interval-IsNormal m input.timezone input.interval_minutes t h
normalize_as-IsNormal daily input m allow t h =
    with_daily-IsNormal m input.timezone input.time_of_day t h
normalize_as-IsNormal weekly input m allow t h =
    with_weekly-IsNormal m input.timezone input.time_of_day input.days_of_week t h
normalize_as-IsNormal unknown input m allow t h = cc
normalize_as-IsNormal on_change input m false t h = cc
normalize_as-IsNormal on_change input m true t h =
    with_quiet-IsNormal m input.timezone _ input.max_wait_minutes t
      (within-bounds 1 max_quiet_minutes (given_or default_quiet_minutes input.quiet_minutes)) h

-- A timing that is accepted has the fields of its frequency, within their bounds.
pub normalize_timing-IsNormal :
    (valid : String → Bool) (input : ScheduleTiming) (min_interval : ℕ) (allow : Bool)
    (t : ScheduleTiming)
    → normalize_timing valid input min_interval allow ≡ some t
    → IsNormal t min_interval
unfolding normalize_timing
normalize_timing-IsNormal valid input m allow t h = elim (Bool-cases (valid input.timezone)) [
  | inr e ↦ absurd (cc (rw e at h))
  | inl e ↦ normalize_as-IsNormal input.frequency input m allow t (rw e at h)
]
