-- ===== src/UploadLock.antt =====
-- util/upload-lock.ts: `UploadLockRegistry`. A lock and the queue item before it go by one number;
-- its flag `released` is false exactly while its number stands in `live` under its key.
pub mod Mutex
mod Tests
use gdrive_s.Base.{
  ℕ, String, Bool, true, false, Option, none, some, List, [], ◌∷◌, ◌++◌, Dict, lookup, put, remove,
  text_key, is_some, take_out, if◌then◌else◌,
}
use gdrive_s.Semaphore.{Event, acquire, abort, release}

pub record Registry : Type 0 where
  pub held : Dict String (Unit {0})
  pub waiters : Dict String (List ℕ)
  pub live : Dict String (List ℕ)

abbrev pub empty : Registry
empty = record { held = []; waiters = []; live = [] }

-- `map.get(key) ?? []`
abbrev pub listed : Option (List ℕ) → List ℕ
listed none = []
listed (some xs) = xs

pub is_held : String → Registry → Bool
is_held key r = is_some (lookup key r.held)

build_lock : String → ℕ → Registry → Registry
build_lock key id r = record r { live = put key (id ∷ listed (lookup key r.live)) r.live }

pass : Option (List ℕ) → String → Registry → Registry
unfolding build_lock
pass none key r = record r { held = remove key r.held }
pass (some []) key r = record r { held = remove key r.held; waiters = remove key r.waiters }
pass (some (next ∷ rest)) key r =
    build_lock key next (record r { waiters = put key rest r.waiters })

pub step : String → Registry → Event → Registry
unfolding build_lock pass is_held
step key r (acquire id aborted) =
    if aborted
    then r
    else if is_held key r
    then record r { waiters = put key (listed (lookup key r.waiters) ++ id ∷ []) r.waiters }
    else build_lock key id (record r { held = put key tt r.held })
step key r (abort id) = elim (take_out id (listed (lookup key r.waiters))) [
  | none ↦ r
  | some rest ↦ record r { waiters = put key rest r.waiters }
]
step key r (release id) = elim (take_out id (listed (lookup key r.live))) [
  | none ↦ r
  | some rest ↦ pass (lookup key r.waiters) key (record r { live = put key rest r.live })
]

pub run : Registry → List (String × Event) → Registry
run r [] = r
run r ((key, e) ∷ es) = run (step key r e) es
