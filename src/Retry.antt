-- ===== src/Retry.antt =====
-- drive/retry.ts: retries with exponential backoff.
pub mod Attempts
mod Tests
use gdrive_s.Base.{
  ℕ, zero, suc, ◌+◌, ◌-◌, ◌*◌, ◌/◌, ◌^◌, min, max, Bool, true, false, Option, none, some, List, [],
  ◌∷◌, leb, if◌then◌else◌,
}

-- What one call of the operation comes to: a value, a DriveError, or another error.
pub data Attempt {ℓ} (T : Type ℓ) : Type ℓ where
  returned : T → Attempt T
  drive_error : Bool → Option ℕ → Attempt T
  other_error : Attempt T

-- How the retries end: with a value, with the error of an attempt, or with the signal's reason.
pub data Outcome {ℓ} (T : Type ℓ) : Type ℓ where
  value : T → Outcome T
  rethrown : ℕ → Outcome T
  interrupted : Outcome T

-- The options with their defaults, what the operation and the signal do at each attempt, and
-- what `random` gives there, in parts of 2 ^ 53.
pub record RetryRun {ℓ} (T : Type ℓ) : Type ℓ where
  pub max_attempts : ℕ
  pub base_delay_ms : ℕ
  pub max_delay_ms : ℕ
  pub operation : ℕ → Attempt T
  pub aborted_before : ℕ → Bool
  pub aborted_in_sleep : ℕ → Bool
  pub random : ℕ → ℕ

abbrev pub retry_after : Option ℕ → ℕ
retry_after none = 0
retry_after (some ms) = ms

module _ {ℓ} {T : Type ℓ} (r : RetryRun T) where
  abbrev pub attempts_allowed : ℕ
  attempts_allowed = max 1 r.max_attempts

  unfoldable pub delay_ms : ℕ → Option ℕ → ℕ
  delay_ms attempt ms =
      let exponential = min r.max_delay_ms (r.base_delay_ms * 2 ^ (attempt - 1)) in
      let jitter = (exponential * r.random attempt) / 2 ^ 55 in
      max (retry_after ms) (exponential + jitter)

  abbrev pub slept : ℕ → Option (Outcome T × List ℕ) → Option (Outcome T × List ℕ)
  slept delay none = none
  slept delay (some (outcome, delays)) = some (outcome, delay ∷ delays)

  abbrev pub after_attempt :
      ℕ → Attempt T → Option (Outcome T × List ℕ) → Option (Outcome T × List ℕ)
  after_attempt attempt (returned v) next = some (value v, [])
  after_attempt attempt other_error next = some (rethrown attempt, [])
  after_attempt attempt (drive_error false ms) next = some (rethrown attempt, [])
  after_attempt attempt (drive_error true ms) next =
      if leb attempts_allowed attempt
      then some (rethrown attempt, [])
      else slept (delay_ms attempt ms)
          (if r.aborted_in_sleep attempt then some (interrupted, []) else next)

  -- The loop from an attempt on, with the delays it slept; none when the fuel runs out.
  unfoldable pub retry_loop : ℕ → ℕ → Option (Outcome T × List ℕ)
  retry_loop zero attempt = none
  retry_loop (suc fuel) attempt =
      let next = retry_loop fuel (attempt + 1) in
      if r.aborted_before attempt
      then some (interrupted, [])
      else after_attempt attempt (r.operation attempt) next

  unfoldable pub with_drive_retry : Option (Outcome T × List ℕ)
  with_drive_retry = retry_loop attempts_allowed 1
