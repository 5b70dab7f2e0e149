-- ===== src/UploadLock/Tests.antt =====
-- Tests and witnesses of the upload locks.
use gdrive_s.Base.{
  ◌≤◌, String, ◌≡◌, ◌↔◌, ◌⊎◌, refl, false, true, List, [], ◌∷◌, length, lookup, put, remove,
}
use gdrive_s.Semaphore
use gdrive_s.Semaphore.{Event, acquire, abort, release}
use gdrive_s.UploadLock.{empty, is_held, step, run}
use gdrive_s.UploadLock.Mutex.{at, events_of, at-run, run-empty_exclusive}

abbrev script : List (String × Event)
script =
    ("a", acquire 1 false)
    ∷ ("b", acquire 2 false)
    ∷ ("a", acquire 3 false)
    ∷ ("b", release 2)
    ∷ ("a", release 1)
    ∷ []

script_test : run empty script ≡ record {
  held = ("a", tt) ∷ [];
  waiters = ("a", []) ∷ [];
  live = ("a", 3 ∷ []) ∷ ("b", []) ∷ [];
}
unfolding run step lookup put remove
script_test = refl

at-run_example : at "a" (run empty script) ≡ Semaphore.run (at "a" empty) (events_of "a" script)
at-run_example = at-run "a" empty script

run-empty_exclusive_example :
    (length (at "a" (run empty script)).live ≤ 1)
    × ((is_held "a" (run empty script) ≡ true) ↔ (length (at "a" (run empty script)).live ≡ 1))
    × ((is_held "a" (run empty script) ≡ true) ⊎ ((at "a" (run empty script)).waiters ≡ []))
run-empty_exclusive_example = run-empty_exclusive "a" script
