-- ===== src/Semaphore/Fifo.antt =====
-- In which order a semaphore hands its slots on.
use gdrive_s.Base.{ℕ, ◌≡◌, some, List, [], ◌∷◌, ◌++◌, arith, length, take_out, eqb_iff, refl, map}
use gdrive_s.Semaphore.{Semaphore, release, step, run, release_one}

-- `id` has a slot that it has not given back.
abbrev pub IsOut : ℕ → Semaphore → Type 0
IsOut id s = (rest : List ℕ) × (take_out id s.live ≡ some rest)

-- Each of these gives back a slot that is out when its turn comes.
abbrev pub AreOut : List ℕ → Semaphore → Type 0
AreOut [] s = Unit
AreOut (id ∷ ids) s = IsOut id s × AreOut ids (step s (release id))

step-release_waiters :
    (s : Semaphore) (id w : ℕ) (ws : List ℕ)
    → IsOut id s
    → s.waiters ≡ w ∷ ws
    → (IsOut w (step s (release id))) × ((step s (release id)).waiters ≡ ws)
unfolding step
step-release_waiters s id w ws (rest, out) h =
    rw (out, step) (rw (h, release_one) ((rest, ground (arith, eqb_iff w w)), refl))

-- After as many returned slots as its place in the queue, a waiter has a slot, and those behind it
-- wait on in their order.
pub run-release_fifo :
    (before after : List ℕ) (w : ℕ) (ids : List ℕ) (id : ℕ) (s : Semaphore)
    → s.waiters ≡ before ++ w ∷ after
    → length ids ≡ length before
    → AreOut (ids ++ id ∷ []) s
    → (IsOut w (run s (map release (ids ++ id ∷ []))))
      × ((run s (map release (ids ++ id ∷ []))).waiters ≡ after)
unfolding run
run-release_fifo [] after w [] id s h n out = step-release_waiters s id w after out.0 h
run-release_fifo [] after w (x ∷ ids) id s h n out = absurd (omega arith)
run-release_fifo (b ∷ before) after w [] id s h n out = absurd (omega arith)
run-release_fifo (b ∷ before) after w (x ∷ ids) id s h n out =
    run-release_fifo before after w ids id (step s (release x))
      (step-release_waiters s x b (before ++ w ∷ after) out.0 h).1 (omega arith) out.1
