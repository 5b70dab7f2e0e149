-- ===== src/Semaphore/Tests.antt =====
-- Tests and witnesses of the semaphore.
use gdrive_s.Base.{◌≡◌, refl, false, true, some, List, [], ◌∷◌, map}
use gdrive_s.Semaphore.{Semaphore, create, Event, acquire, abort, release, step, run}
use gdrive_s.Semaphore.Invariant.{IsValid, create-run-IsValid}
use gdrive_s.Semaphore.Fifo.{IsOut, AreOut, run-release_fifo}

abbrev fresh : Semaphore
fresh = record { capacity = 2; in_flight = 0; waiters = []; live = [] }

abbrev script : List Event
script =
    acquire 1 false
    ∷ acquire 2 false
    ∷ acquire 3 false
    ∷ acquire 4 false
    ∷ acquire 5 true
    ∷ abort 3
    ∷ release 1
    ∷ release 1
    ∷ []

script_test :
    run fresh script ≡ record { capacity = 2; in_flight = 2; waiters = []; live = 4 ∷ 2 ∷ [] }
unfolding run step
script_test = refl

create-fresh : create 2 ≡ some fresh
unfolding create
create-fresh = refl

create-run-IsValid_example : IsValid (run fresh script)
create-run-IsValid_example = create-run-IsValid 2 fresh script create-fresh

abbrev queued : Semaphore
queued = record { capacity = 2; in_flight = 2; waiters = 3 ∷ 4 ∷ 5 ∷ []; live = 2 ∷ 1 ∷ [] }

queued_out : AreOut (1 ∷ 2 ∷ []) queued
unfolding step
queued_out = ((2 ∷ [], refl), ((3 ∷ [], refl), tt))

run-release_fifo_example :
    (IsOut 4 (run queued (map release (1 ∷ 2 ∷ []))))
    × ((run queued (map release (1 ∷ 2 ∷ []))).waiters ≡ 5 ∷ [])
run-release_fifo_example =
    run-release_fifo (3 ∷ []) (5 ∷ []) 4 (1 ∷ []) 2 queued refl refl queued_out
