-- ===== src/Schedule/Tests.antt =====
-- Tests and the witness of the schedules.
use gdrive_s.Base.{
  ◌+◌, ◌*◌, ◌/◌, ◌≡◌, refl, true, false, none, some, [], ◌∷◌, units, arith, if◌then◌else◌, ltb,
  split,
}
use gdrive_s.Store.Table.{order_by, insert_by}
use gdrive_s.Schedule.{
  ScheduleTiming, weekly, on_change, whole, improper, Zone, normalize_timing, proper_days,
  next_run_at, next_run_as, first_run, zoned_time_to_instant, unused, as_utc,
}
use gdrive_s.Schedule.Next.{FallsDue, IsSteady, next_run_at-FallsDue}

-- Seven hours ahead of UTC, all the year.
abbrev jakarta : Zone
jakarta t = t / 1000 + 25200

-- An hour ahead, then two hours from 01:00 UTC of day 100, then one hour from 01:00 UTC of day 300.
abbrev summer : Zone
summer t =
    if ltb t (86400000 * 100 + 3600000)
    then t / 1000 + 3600
    else if ltb t (86400000 * 300 + 3600000)
    then t / 1000 + 7200
    else t / 1000 + 3600

abbrev timing : ScheduleTiming
timing = record (unused "Asia/Jakarta" weekly) {
  time_of_day = some (units "09:30");
  days_of_week = some (whole 5 ∷ whole 1 ∷ whole 5 ∷ []);
  quiet_minutes = some improper;
}

abbrev accepted : ScheduleTiming
accepted = record (unused "Asia/Jakarta" weekly) {
  time_of_day = some (units "09:30");
  days_of_week = some (whole 1 ∷ whole 5 ∷ []);
}

accepted_test : normalize_timing (λ z. true) timing 15 false ≡ some accepted
unfolding normalize_timing proper_days order_by insert_by
accepted_test = refl

normalize_tests :
    (normalize_timing (λ z. false) timing 15 false ≡ none)
    × (normalize_timing (λ z. true) (record timing { days_of_week = some (whole 8 ∷ []) }) 15 false
        ≡ none)
    × (normalize_timing (λ z. true) (record timing { time_of_day = some (units "24:00") }) 15 false
        ≡ none)
    × (normalize_timing (λ z. true) (unused "UTC" on_change) 15 true
        ≡ some (record (unused "UTC" on_change) {
          quiet_minutes = some (whole 10);
          max_wait_minutes = some (whole 360);
        }))
    × (normalize_timing (λ z. true) (unused "UTC" on_change) 15 false ≡ none)
unfolding normalize_timing proper_days
normalize_tests = (refl, refl, refl, refl, refl)

-- Day 7 is a Thursday: the Friday after it at 09:30 is 02:30 UTC of day 8, and the Monday that of
-- day 11. A run is strictly after the moment asked about.
next_run_tests :
    (next_run_at jakarta accepted (86400000 * 7) ≡ some (86400000 * 8 + 9000000))
    × (next_run_at jakarta accepted (86400000 * 8 + 9000000) ≡ some (86400000 * 11 + 9000000))
unfolding next_run_at next_run_as first_run zoned_time_to_instant split
next_run_tests = (refl, refl)

-- 02:30 is skipped on day 100 and becomes 03:30; on day 300 it comes twice, and the first counts.
change_tests :
    (zoned_time_to_instant summer (as_utc 100 (2, 30)) ≡ 86400000 * 100 + 5400000)
    × (zoned_time_to_instant summer (as_utc 300 (2, 30)) ≡ 86400000 * 300 + 1800000)
unfolding zoned_time_to_instant
change_tests = (refl, refl)

jakarta-IsSteady : IsSteady jakarta
jakarta-IsSteady s t = omega arith

next_run_at-FallsDue_example : FallsDue jakarta accepted (86400000 * 7)
next_run_at-FallsDue_example =
    next_run_at-FallsDue (λ z. true) timing 15 false accepted jakarta (86400000 * 7) accepted_test
      (omega arith) jakarta-IsSteady
