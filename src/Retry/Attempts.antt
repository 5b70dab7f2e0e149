-- ===== src/Retry/Attempts.antt =====
-- How often an operation is tried, and that a passing error does not stop it.
use gdrive_s.Base.{
  ℕ, zero, suc, ◌+◌, ◌-◌, ◌≤◌, ◌<◌, true, false, Option, some, List, [], ◌∷◌, ◌≡◌, refl, arith,
  length, leb, Bool-cases, inl, inr,
}
use gdrive_s.Retry.{
  Attempt, returned, drive_error, other_error, Outcome, value, rethrown, interrupted, RetryRun,
  attempts_allowed, delay_ms, slept, after_attempt, retry_loop, with_drive_retry,
}

sum_zero : (a k : ℕ) → a + 0 ≡ k → a ≡ k
sum_zero a k e = omega (arith, e)

more_left : (a n : ℕ) → a < n → leb n a ≡ false
more_left a n h = ground arith

module _ {ℓ} {T : Type ℓ} (r : RetryRun T) where
  -- It ends, after fewer delays than this.
  abbrev EndsWithin : ℕ → Option (Outcome T × List ℕ) → Type ℓ
  EndsWithin n answer = (o : Outcome T × List ℕ) × (answer ≡ some o) × (length o.1 < n)

  slept-EndsWithin :
      (n d : ℕ) (answer : Option (Outcome T × List ℕ))
      → EndsWithin n answer
      → EndsWithin (suc n) (slept r d answer)
  slept-EndsWithin n d answer ((o, ds), e, l) = ((o, d ∷ ds), rw e refl, omega (arith, l))

  after_attempt-EndsWithin :
      (n attempt : ℕ) (a : Attempt T) (next : Option (Outcome T × List ℕ))
      → (attempt < attempts_allowed r → EndsWithin n next)
      → attempts_allowed r ≤ attempt + n
      → EndsWithin (suc n) (after_attempt r attempt a next)
  after_attempt-EndsWithin n attempt (returned v) next more h = ((value v, []), refl, omega arith)
  after_attempt-EndsWithin n attempt other_error next more h =
      ((rethrown attempt, []), refl, omega arith)
  after_attempt-EndsWithin n attempt (drive_error false ms) next more h =
      ((rethrown attempt, []), refl, omega arith)
  after_attempt-EndsWithin n attempt (drive_error true ms) next more h =
      elim (Bool-cases (leb (attempts_allowed r) attempt)) [
        | inl e ↦ rw e ((rethrown attempt, []), refl, omega arith)
        | inr e ↦ rw e (
            slept-EndsWithin n (delay_ms r attempt ms) _
              (elim (Bool-cases (r.aborted_in_sleep attempt)) [
                | inl a ↦ rw a ((interrupted, []), refl, ground arith)
                | inr a ↦ rw a (more (ground arith))
              ]))
      ]

  at_attempt :
      (n attempt : ℕ)
      → (attempt < attempts_allowed r → EndsWithin n (retry_loop r n (attempt + 1)))
      → attempts_allowed r ≤ attempt + n
      → EndsWithin (suc n) (retry_loop r (suc n) attempt)
  unfolding retry_loop
  at_attempt n attempt more h = elim (Bool-cases (r.aborted_before attempt)) [
    | inl e ↦ rw e ((interrupted, []), refl, omega arith)
    | inr e ↦ rw e (
        after_attempt-EndsWithin n attempt (r.operation attempt) (retry_loop r n (attempt + 1)) more
          h)
  ]

  retry_loop-EndsWithin :
      (n attempt : ℕ)
      → attempts_allowed r ≤ attempt + n
      → EndsWithin (suc n) (retry_loop r (suc n) attempt)
  retry_loop-EndsWithin zero attempt h =
      at_attempt zero attempt (λ l. absurd (omega (arith, h, l))) h
  retry_loop-EndsWithin (suc n) attempt h =
      at_attempt (suc n) attempt (λ l. retry_loop-EndsWithin n (attempt + 1) (omega (arith, h))) h

  enough_fuel : (k : ℕ) → attempts_allowed r ≤ k → EndsWithin k (retry_loop r k 1)
  enough_fuel zero h = absurd (omega (arith, h))
  enough_fuel (suc n) h = retry_loop-EndsWithin n 1 (omega (arith, h))

  -- The attempts before this one fail with errors of Drive that may pass, and no signal stops
  -- the retries until then.
  pub record PassesUntil (k : ℕ) : Type ℓ where
    pub not_stopped : (j : ℕ) → j ≤ k → r.aborted_before j ≡ false
    pub not_woken : (j : ℕ) → j < k → r.aborted_in_sleep j ≡ false
    pub passing : (j : ℕ) → 1 ≤ j → j < k → (ms : Option ℕ) × (r.operation j ≡ drive_error true ms)

  reaches :
      (d fuel attempt k : ℕ) (v : T)
      → d < fuel
      → attempt + d ≡ k
      → 1 ≤ attempt
      → k ≤ attempts_allowed r
      → PassesUntil k
      → r.operation k ≡ returned v
      → (delays : List ℕ) × (retry_loop r fuel attempt ≡ some (value v, delays))
        × (length delays ≡ d)
  unfolding retry_loop
  reaches d zero attempt k v f e o m p s = absurd (omega (arith, f))
  reaches zero (suc fuel) attempt k v f e o m p s =
      let here = p.not_stopped attempt (omega (arith, e)) in
      let same : r.operation attempt ≡ returned v = rw (sum_zero attempt k e) s in
      ([], rw (here, same) refl, refl)
  reaches (suc d) (suc fuel) attempt k v f e o m p s =
      let here = p.not_stopped attempt (omega (arith, e)) in
      let awake = p.not_woken attempt (omega (arith, e)) in
      let (ms, fails) = p.passing attempt o (omega (arith, e)) in
      let (delays, rest, size) =
        reaches d fuel (attempt + 1) k v (omega (arith, f)) (omega (arith, e)) (omega arith) m p
          s in
      let left = more_left attempt (attempts_allowed r) (omega (arith, m, e)) in
      (
        delay_ms r attempt ms ∷ delays,
        rw (here, fails, left, awake, rest) refl,
        omega (arith, size),
      )

-- Whatever the operation and the signal do, the retries end, and the operation is called at
-- most as often as the options allow, at least once being allowed: there are fewer delays.
pub with_drive_retry-ends {ℓ} :
    {T : Type ℓ} (r : RetryRun T)
    → (o : Outcome T × List ℕ) × (with_drive_retry r ≡ some o) × (length o.1 < attempts_allowed r)
unfolding with_drive_retry
with_drive_retry-ends r = enough_fuel r (attempts_allowed r) (omega arith)

-- An operation that fails with errors of Drive that may pass, and then returns a value at an
-- attempt that the options allow, is retried until then, and its value is the result.
pub with_drive_retry-value {ℓ} :
    {T : Type ℓ} (r : RetryRun T) (k : ℕ) (v : T)
    → 1 ≤ k
    → k ≤ attempts_allowed r
    → PassesUntil r k
    → r.operation k ≡ returned v
    → (delays : List ℕ) × (with_drive_retry r ≡ some (value v, delays)) × (length delays + 1 ≡ k)
unfolding with_drive_retry
with_drive_retry-value r k v o m p s =
    let (delays, e, size) =
      reaches r (k - 1) (attempts_allowed r) 1 k v (omega (arith, m, o)) (omega (arith, o))
        (omega arith) m p s in
    (delays, e, omega (arith, size, o))
