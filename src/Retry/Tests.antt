-- ===== src/Retry/Tests.antt =====
-- Tests and witnesses of the retries.
use gdrive_s.Base.{
  ℕ, ◌+◌, ◌^◌, ◌<◌, ◌≡◌, refl, arith, true, false, some, List, [], ◌∷◌, length, ltb, if◌then◌else◌,
}
use gdrive_s.Retry.{
  returned, drive_error, Outcome, value, rethrown, RetryRun, attempts_allowed, delay_ms, retry_loop,
  with_drive_retry,
}
use gdrive_s.Retry.Attempts.{PassesUntil, with_drive_retry-ends, with_drive_retry-value}

-- Drive is busy twice; then the operation gives 7.
abbrev busy_twice : ℕ → RetryRun ℕ
busy_twice max_attempts = record {
  max_attempts = max_attempts;
  base_delay_ms = 250;
  max_delay_ms = 400;
  operation = λ n. if ltb n 3 then drive_error true (some 300) else returned 7;
  aborted_before = λ n. false;
  aborted_in_sleep = λ n. false;
  random = λ n. 2 ^ 52;
}

retry_tests :
    (with_drive_retry (busy_twice 5) ≡ some (value 7, 300 ∷ 450 ∷ []))
    × (with_drive_retry (busy_twice 2) ≡ some (rethrown 2, 300 ∷ []))
unfolding with_drive_retry retry_loop delay_ms
retry_tests = (refl, refl)

with_drive_retry-ends_example :
    (o : Outcome ℕ × List ℕ) × (with_drive_retry (busy_twice 2) ≡ some o)
    × (length o.1 < attempts_allowed (busy_twice 2))
with_drive_retry-ends_example = with_drive_retry-ends (busy_twice 2)

busy_twice-PassesUntil : PassesUntil (busy_twice 5) 3
busy_twice-PassesUntil = record {
  not_stopped = λ j h. refl;
  not_woken = λ j h. refl;
  passing = λ j l h. (some 300, ground arith);
}

with_drive_retry-value_example :
    (delays : List ℕ) × (with_drive_retry (busy_twice 5) ≡ some (value 7, delays))
    × (length delays + 1 ≡ 3)
with_drive_retry-value_example =
    with_drive_retry-value (busy_twice 5) 3 7 (omega arith) (omega arith) busy_twice-PassesUntil
      refl
