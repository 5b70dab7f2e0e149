-- ===== src/QuotaMeter/Meter.antt =====
-- DriveQuotaMeter of drive/quota-meter.ts: `record` and the windows that `snapshot` reports.
use gdrive_s.Base.{
  String, ℕ, ◌+◌, ◌-◌, ◌*◌, ◌/◌, max, Bool, false, ◌&&◌, Option, none, some, List, [], ◌∷◌, ◌++◌,
  length, Dict, lookup, put, remove, text_key, ltb, leb, truthy, if◌then◌else◌,
}
use gdrive_s.QuotaMeter.Ring.{
  DriveCallKind, DriveCallRecord, Slot, second_slots, minute_slots, user_minute_slots,
  max_tracked_users, max_throttle_events, make_ring, write,
}

pub record UserEntry : Type 0 where
  pub ring : List Slot
  pub last_call_ms : ℕ

-- `at` is the time, which the code prints.
pub record DriveThrottleEvent : Type 0 where
  pub at_ms : ℕ
  pub user_id : Option String
  pub kind : DriveCallKind
  pub status : ℕ
  pub reason : Option String
  pub retry_after_ms : Option ℕ

pub record DriveQuotaMeter : Type 0 where
  pub seconds : List Slot
  pub minutes : List Slot
  pub users : Dict String UserEntry
  pub throttles : List DriveThrottleEvent
  pub total_requests : ℕ
  pub total_throttled : ℕ
  pub started_at_ms : ℕ

unfoldable pub new_meter : ℕ → DriveQuotaMeter
new_meter now = record {
  seconds = make_ring second_slots;
  minutes = make_ring minute_slots;
  users = [];
  throttles = [];
  total_requests = 0;
  total_throttled = 0;
  started_at_ms = now;
}

-- The loop of `evictOldestUser`: the first user with the earliest last call.
unfoldable pub oldest_user : Option (String × ℕ) → Dict String UserEntry → Option (String × ℕ)
oldest_user best [] = best
oldest_user none ((id, entry) ∷ rest) = oldest_user (some (id, entry.last_call_ms)) rest
oldest_user (some (best, ms)) ((id, entry) ∷ rest) =
    oldest_user
      (if ltb entry.last_call_ms ms then some (id, entry.last_call_ms) else some (best, ms)) rest

abbrev pub evict : Option (String × ℕ) → Dict String UserEntry → Dict String UserEntry
evict none users = users
evict (some (id, ms)) users = remove id users

abbrev pub evict_oldest_user : Dict String UserEntry → Dict String UserEntry
evict_oldest_user users = evict (oldest_user none users) users

abbrev pub user_room : Dict String UserEntry → Dict String UserEntry
user_room users = if leb max_tracked_users (length users) then evict_oldest_user users else users

abbrev pub written : ℕ → DriveCallRecord → List Slot → UserEntry
written at_ms call ring = record { ring = write (at_ms / 60_000) call ring; last_call_ms = at_ms }

-- A new entry is set at once and filled after: the entry is one object.
unfoldable pub write_found :
    String → ℕ → DriveCallRecord → Option UserEntry → Dict String UserEntry → Dict String UserEntry
write_found user_id at_ms call (some entry) users =
    put user_id (written at_ms call entry.ring) users
write_found user_id at_ms call none users =
    put user_id (written at_ms call (make_ring user_minute_slots)) (user_room users)

unfoldable pub write_user :
    String → ℕ → DriveCallRecord → Dict String UserEntry → Dict String UserEntry
write_user user_id at_ms call users = write_found user_id at_ms call (lookup user_id users) users

abbrev pub write_known :
    Option String → ℕ → DriveCallRecord → Dict String UserEntry → Dict String UserEntry
write_known none at_ms call users = users
write_known (some id) at_ms call users =
    if truthy (some id) then write_user id at_ms call users else users

abbrev pub shift : List DriveThrottleEvent → List DriveThrottleEvent
shift [] = []
shift (event ∷ events) = events

unfoldable pub push_throttle :
    ℕ → DriveCallRecord → List DriveThrottleEvent → List DriveThrottleEvent
push_throttle at_ms call events =
    let longer =
      events
      ++ (record {
        at_ms = at_ms;
        user_id = call.user_id;
        kind = call.kind;
        status = call.status;
        reason = call.reason;
        retry_after_ms = call.retry_after_ms;
      }
          ∷ []) in
    if ltb max_throttle_events (length longer) then shift longer else longer

abbrev pub time_of : ℕ → DriveCallRecord → ℕ
time_of now call = elim call.at_ms [ none ↦ now | some ms ↦ ms ]

-- `record`, where the meter's clock reads `now`.
unfoldable pub record_call : ℕ → DriveCallRecord → DriveQuotaMeter → DriveQuotaMeter
record_call now call meter =
    let at_ms = time_of now call in
    record meter {
      seconds = write (at_ms / 1000) call meter.seconds;
      minutes = write (at_ms / 60_000) call meter.minutes;
      users = write_known call.user_id at_ms call meter.users;
      throttles =
          if call.throttled then push_throttle at_ms call meter.throttles else meter.throttles;
      total_requests = meter.total_requests + 1;
      total_throttled = meter.total_throttled + (if call.throttled then 1 else 0);
    }

-- The sums of a window. `per_minute` is in hundredths, rounded from the half up.
pub record DriveWindowUsage : Type 0 where
  pub window_seconds : ℕ
  pub requests : ℕ
  pub throttled : ℕ
  pub errors : ℕ
  pub api_calls : ℕ
  pub upload_calls : ℕ
  pub download_calls : ℕ
  pub per_minute : ℕ

-- A slot never used holds no calls, so that whether it is passed over makes no difference.
abbrev pub in_window : ℕ → ℕ → Option ℕ → Bool
in_window oldest newest none = false
in_window oldest newest (some stamp) = leb oldest stamp && leb stamp newest

unfoldable pub total : (Slot → ℕ) → ℕ → ℕ → List Slot → ℕ
total field oldest newest [] = 0
total field oldest newest (slot ∷ ring) =
    (if in_window oldest newest slot.stamp then field slot else 0) + total field oldest newest ring

abbrev pub unit_ms : ℕ → ℕ
unit_ms window_seconds = if leb window_seconds second_slots then 1000 else 60_000

abbrev pub units_of : ℕ → ℕ
units_of window_seconds =
    max 1 ((window_seconds * 1000 + (unit_ms window_seconds - 1)) / unit_ms window_seconds)

-- A stamp is never below 0, so that an `oldest` below 0 is as good as 0.
abbrev pub oldest_of : ℕ → ℕ → ℕ
oldest_of window_seconds now = now / unit_ms window_seconds + 1 - units_of window_seconds

abbrev pub ring_of_window : ℕ → DriveQuotaMeter → List Slot
ring_of_window window_seconds meter =
    if leb window_seconds second_slots then meter.seconds else meter.minutes

unfoldable pub window : ℕ → ℕ → DriveQuotaMeter → DriveWindowUsage
window window_seconds now meter =
    let ring = ring_of_window window_seconds meter in
    let newest = now / unit_ms window_seconds in
    let oldest = oldest_of window_seconds now in
    let requests = total (λ slot. slot.requests) oldest newest ring in
    record {
      window_seconds = window_seconds;
      requests = requests;
      throttled = total (λ slot. slot.throttled) oldest newest ring;
      errors = total (λ slot. slot.errors) oldest newest ring;
      api_calls = total (λ slot. slot.api_calls) oldest newest ring;
      upload_calls = total (λ slot. slot.upload_calls) oldest newest ring;
      download_calls = total (λ slot. slot.download_calls) oldest newest ring;
      per_minute = (requests * 12_000 + window_seconds) / (2 * window_seconds);
    }
