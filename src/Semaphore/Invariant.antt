-- ===== src/Semaphore/Invariant.antt =====
-- What every reachable state of a semaphore satisfies.
use gdrive_s.Base.{
  ℕ, zero, suc, ◌+◌, ◌≤◌, ◌<◌, ◌≡◌, ◌⊎◌, inl, inr, Bool, some, List, [], ◌∷◌, arith, length,
  take_out, length-take_out, Option-cases, refl,
}
use gdrive_s.Semaphore.{Semaphore, create, Event, acquire, abort, release, step, run, release_one}

-- As many slots are out as the counter says, never more than the capacity, and nobody waits while
-- a slot is free.
pub record IsValid (s : Semaphore) : Type 0 where
  pub counted : length s.live ≡ s.in_flight
  pub bounded : s.in_flight ≤ s.capacity
  pub busy : (s.in_flight ≡ s.capacity) ⊎ (s.waiters ≡ [])
  pub positive : 0 < s.capacity

create-IsValid : (n : ℕ) (s : Semaphore) → create n ≡ some s → IsValid s
unfolding create
create-IsValid zero s h = cc
create-IsValid (suc n) s h = ground arith

step-acquire : (s : Semaphore) (id : ℕ) (b : Bool) → IsValid s → IsValid (step s (acquire id b))
unfolding step
step-acquire s id b v = ground (arith, v.busy)

step-abort : (s : Semaphore) (id : ℕ) → IsValid s → IsValid (step s (abort id))
unfolding step
step-abort s id v = elim (Option-cases (take_out id s.waiters)) [
  | inl e ↦ ground (arith, v.busy)
  | inr (rest, e) ↦ ground (arith, v.busy, length-take_out id s.waiters rest e)
]

release_one-IsValid :
    (ws live : List ℕ) (s : Semaphore)
    → s.waiters ≡ ws
    → length live + 1 ≡ s.in_flight
    → s.in_flight ≤ s.capacity
    → (s.in_flight ≡ s.capacity) ⊎ (ws ≡ [])
    → IsValid (release_one ws (record s { live = live }))
unfolding release_one
release_one-IsValid [] live s e n b f = ground arith
release_one-IsValid (w ∷ ws) live s e n b f = ground arith

step-release : (s : Semaphore) (id : ℕ) → IsValid s → IsValid (step s (release id))
unfolding step
step-release s id v = elim (Option-cases (take_out id s.live)) [
  | inl e ↦ rw (e, step) v
  | inr (rest, e) ↦
      rw (e, step)
        (release_one-IsValid s.waiters rest s refl (omega (arith, length-take_out id s.live rest e))
          v.bounded v.busy)
]

pub step-IsValid : (s : Semaphore) (e : Event) → IsValid s → IsValid (step s e)
step-IsValid s (acquire id b) v = step-acquire s id b v
step-IsValid s (abort id) v = step-abort s id v
step-IsValid s (release id) v = step-release s id v

pub run-IsValid : (s : Semaphore) (es : List Event) → IsValid s → IsValid (run s es)
unfolding run
run-IsValid s [] v = v
run-IsValid s (e ∷ es) v = run-IsValid (step s e) es (step-IsValid s e v)

-- Whatever is acquired, aborted and released, in whatever order: the slots that are out are as
-- many as the semaphore counts, never more than its capacity, and nobody waits while one is free.
pub create-run-IsValid :
    (n : ℕ) (s : Semaphore) (es : List Event) → create n ≡ some s → IsValid (run s es)
create-run-IsValid n s es h = run-IsValid s es (create-IsValid n s h)
