-- ===== src/QuotaMeter/Bounds.antt =====
-- The memory that the meter holds.
use gdrive_s.Base.{
  String, ℕ, suc, ◌≤◌, ◌<◌, Option, none, some, List, [], ◌∷◌, ◌≡◌, refl, arith, length,
  length-append, length-put, length-put_found, length-remove_found, Knows, Knows-own, All, Dict,
  lookup, text_key, ltb, leb, truthy, Bool-cases, Option-cases, inl, inr,
}
use gdrive_s.QuotaMeter.Ring.{DriveCallRecord}
use gdrive_s.QuotaMeter.Meter.{
  UserEntry, DriveThrottleEvent, new_meter, oldest_user, evict_oldest_user, user_room, write_found,
  write_user, write_known, push_throttle, time_of, record_call,
}
use gdrive_s.QuotaMeter.Windows.{Call, meter_after}

length-push_throttle :
    (at_ms : ℕ) (c : DriveCallRecord) (events : List DriveThrottleEvent)
    → length events ≤ 50
    → length (push_throttle at_ms c events) ≤ 50
unfolding push_throttle
length-push_throttle at_ms c [] h = omega arith
length-push_throttle at_ms c (e ∷ events) h =
    let longer = length-append events (
      record {
        at_ms = at_ms;
        user_id = c.user_id;
        kind = c.kind;
        status = c.status;
        reason = c.reason;
        retry_after_ms = c.retry_after_ms;
      }
      ∷ []) in
    ground arith

-- The user that is found to be the oldest is one of the map's.
oldest_user-known :
    (users : Dict String UserEntry) (best : String × ℕ) (rest : Dict String UserEntry)
    → Knows users (best.0)
    → All (λ entry. Knows users (entry.0)) rest
    → (found : String × ℕ) × (oldest_user (some best) rest ≡ some found) × Knows users (found.0)
unfolding oldest_user
oldest_user-known users best [] k ks = (best, refl, k)
oldest_user-known users (best, ms) ((id, entry) ∷ rest) k (j, ks) =
    elim (Bool-cases (ltb entry.last_call_ms ms)) [
      | inl e ↦ rw e (oldest_user-known users (id, entry.last_call_ms) rest j ks)
      | inr e ↦ rw e (oldest_user-known users (best, ms) rest k ks)
    ]

length-evict :
    (users : Dict String UserEntry)
    → 0 < length users
    → length (evict_oldest_user users) < length users
unfolding oldest_user
length-evict [] h = absurd (omega (arith, h))
length-evict ((id, entry) ∷ rest) h =
    let (k, ks) = Knows-own ((id, entry) ∷ rest) in
    let (found, e, (v, l)) =
      oldest_user-known ((id, entry) ∷ rest) (id, entry.last_call_ms) rest k ks in
    rw e (length-remove_found (found.0) v ((id, entry) ∷ rest) l)

length-user_room :
    (users : Dict String UserEntry) → length users ≤ 200 → suc (length (user_room users)) ≤ 200
length-user_room users h = elim (Bool-cases (leb 200 (length users))) [
  | inl e ↦ rw e (omega (arith, length-evict users (ground arith), h))
  | inr e ↦ rw e (ground arith)
]

length-write_user :
    (id : String) (at_ms : ℕ) (c : DriveCallRecord) (users : Dict String UserEntry)
    → length users ≤ 200
    → length (write_user id at_ms c users) ≤ 200
unfolding write_user write_found
length-write_user id at_ms c users h = elim (Option-cases (lookup id users)) [
  | inl e ↦ rw e (omega (arith, length-put id _ (user_room users), length-user_room users h))
  | inr (entry, e) ↦ rw e (omega (arith, length-put_found id _ entry users e, h))
]

length-write_known :
    (id : Option String) (at_ms : ℕ) (c : DriveCallRecord) (users : Dict String UserEntry)
    → length users ≤ 200
    → length (write_known id at_ms c users) ≤ 200
length-write_known none at_ms c users h = h
length-write_known (some id) at_ms c users h = elim (Bool-cases (truthy (some id))) [
  | inl e ↦ rw e (length-write_user id at_ms c users h)
  | inr e ↦ rw e h
]

-- Whatever calls are recorded, the meter remembers at most 200 users and 50 throttled calls.
pub meter_after-bounded :
    (start : ℕ) (cs : List Call)
    → (length (meter_after start cs).users ≤ 200) × (length (meter_after start cs).throttles ≤ 50)
unfolding meter_after record_call new_meter push_throttle
meter_after-bounded start [] = (omega arith, omega arith)
meter_after-bounded start ((now, c) ∷ cs) =
    let (users, throttles) = meter_after-bounded start cs in
    (
      length-write_known c.user_id (time_of now c) c (meter_after start cs).users users,
      elim (Bool-cases c.throttled) [
        | inl e ↦
            rw e (length-push_throttle (time_of now c) c (meter_after start cs).throttles throttles)
        | inr e ↦ rw e throttles
      ],
    )
