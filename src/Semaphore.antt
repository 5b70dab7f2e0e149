-- ===== src/Semaphore.antt =====
-- util/semaphore.ts: the class `Semaphore`. An acquisition, its waiter and its slot go by one
-- number. A slot's flag `released` is false exactly while its number stands in `live`.
pub mod Invariant
pub mod Fifo
mod Tests
use gdrive_s.Base.{
  ℕ, zero, suc, ◌+◌, ◌-◌, Bool, true, false, Option, none, some, List, [], ◌∷◌, ◌++◌, ltb, take_out,
  if◌then◌else◌,
}

pub record Semaphore : Type 0 where
  pub capacity : ℕ
  pub in_flight : ℕ
  pub waiters : List ℕ
  pub live : List ℕ

-- `none`: the constructor throws.
pub create : ℕ → Option Semaphore
create zero = none
create (suc n) = some (record { capacity = suc n; in_flight = 0; waiters = []; live = [] })

-- What a caller or its abort signal does.
pub data Event : Type 0 where
  acquire : (id : ℕ) (aborted : Bool) → Event
  abort : (id : ℕ) → Event
  release : (id : ℕ) → Event

build_slot : ℕ → Semaphore → Semaphore
build_slot id s = record s { live = id ∷ s.live }

unfoldable pub release_one : List ℕ → Semaphore → Semaphore
unfolding build_slot
release_one [] s = record s { in_flight = s.in_flight - 1 }
release_one (next ∷ rest) s = build_slot next (record s { waiters = rest })

-- `throwIfAborted` leaves the semaphore as it is.
unfoldable pub step : Semaphore → Event → Semaphore
unfolding build_slot release_one
step s (acquire id aborted) =
    if aborted
    then s
    else if ltb s.in_flight s.capacity
    then build_slot id (record s { in_flight = s.in_flight + 1 })
    else record s { waiters = s.waiters ++ id ∷ [] }
step s (abort id) = elim (take_out id s.waiters) [
  | none ↦ s
  | some rest ↦ record s { waiters = rest }
]
step s (release id) = elim (take_out id s.live) [
  | none ↦ s
  | some rest ↦ release_one s.waiters (record s { live = rest })
]

unfoldable pub run : Semaphore → List Event → Semaphore
run s [] = s
run s (e ∷ es) = run (step s e) es
