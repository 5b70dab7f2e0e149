-- ===== src/QuotaMeter/Ring.antt =====
-- The slots of drive/quota-meter.ts and the rings of them.
use gdrive_s.Base.{
  String, ℕ, zero, suc, ◌+◌, ◌%◌, Bool, false, ◌||◌, Option, none, some, List, [], ◌∷◌, length,
  text_key, eqb, leb, if◌then◌else◌,
}

pub data DriveCallKind : Type 0 where
  api upload download : DriveCallKind

-- `at_ms` is none where the caller leaves the time to the meter's clock.
pub record DriveCallRecord : Type 0 where
  pub user_id : Option String
  pub kind : DriveCallKind
  pub status : ℕ
  pub throttled : Bool
  pub reason : Option String
  pub retry_after_ms : Option ℕ
  pub at_ms : Option ℕ

-- `stamp` is none in a slot never used, where the code has -1.
pub record Slot : Type 0 where
  pub stamp : Option ℕ
  pub requests : ℕ
  pub throttled : ℕ
  pub errors : ℕ
  pub api_calls : ℕ
  pub upload_calls : ℕ
  pub download_calls : ℕ

abbrev pub second_slots : ℕ
second_slots = 600

abbrev pub minute_slots : ℕ
minute_slots = 1440

abbrev pub user_minute_slots : ℕ
user_minute_slots = 60

abbrev pub max_tracked_users : ℕ
max_tracked_users = 200

abbrev pub max_throttle_events : ℕ
max_throttle_events = 50

abbrev pub slot_at : Option ℕ → Slot
slot_at stamp = record {
  stamp = stamp;
  requests = 0;
  throttled = 0;
  errors = 0;
  api_calls = 0;
  upload_calls = 0;
  download_calls = 0;
}

abbrev pub empty_slot : Slot
empty_slot = slot_at none

unfoldable pub make_ring : ℕ → List Slot
make_ring zero = []
make_ring (suc n) = empty_slot ∷ make_ring n

abbrev pub roll_slot : ℕ → Slot
roll_slot stamp = slot_at (some stamp)

abbrev pub counted : DriveCallKind → Slot → Slot
counted api slot = record slot { api_calls = slot.api_calls + 1 }
counted upload slot = record slot { upload_calls = slot.upload_calls + 1 }
counted download slot = record slot { download_calls = slot.download_calls + 1 }

unfoldable pub add_to : DriveCallRecord → Slot → Slot
add_to call slot = counted call.kind (record slot {
  requests = slot.requests + 1;
  throttled = slot.throttled + (if call.throttled then 1 else 0);
  errors =
      slot.errors
      + (if call.throttled then 0 else if leb 400 call.status || eqb call.status 0 then 1 else 0);
})

abbrev pub has_stamp : Option ℕ → ℕ → Bool
has_stamp none n = false
has_stamp (some s) n = eqb s n

unfoldable pub write_slot : ℕ → DriveCallRecord → Slot → Slot
write_slot stamp call slot =
    add_to call (if has_stamp slot.stamp stamp then slot else roll_slot stamp)

-- `ring[i]`, changed in place.
unfoldable pub modify : ℕ → (Slot → Slot) → List Slot → List Slot
modify i f [] = []
modify zero f (slot ∷ ring) = f slot ∷ ring
modify (suc i) f (slot ∷ ring) = slot ∷ modify i f ring

unfoldable pub write : ℕ → DriveCallRecord → List Slot → List Slot
write stamp call ring = modify (stamp % length ring) (write_slot stamp call) ring
