-- ===== src/Store/Deletion/Tests.antt =====
-- Runs of the deletions, and uses of their theorems at them.
use gdrive_s.Base.{
  ◌≡◌, refl, ℕ, String, true, false, none, some, List, [], ◌∷◌, map, Text, units, lookup, remove,
}
use gdrive_s.S3Error.{Result, ok, err, access_denied}
use gdrive_s.ObjectLock.{
  LockState, Dates, evaluate_delete, assert_deletable, retention_active, legal_hold_active,
}
use gdrive_s.ObjectLock.Delete.{MayDelete}
use gdrive_s.Store.Table.{
  find_first, update_first, update_all, delete_first, insert_new, insert_or_update, select,
  order_by, insert_by,
}
use gdrive_s.Store.Rows.{Store, Versioning, enabled, disabled, suspended}
use gdrive_s.Store.Objects.{find_active_by_id_in_bucket, upsert, delete_by_key}
use gdrive_s.Store.Versions
use gdrive_s.Store.Versions.{insert_delete_marker, newest_version, text_ltb, archived}
use gdrive_s.Store.Cleanup.{enqueue, complete_resource}
use gdrive_s.Store.Commit.{no_sse}
use gdrive_s.Store.Deletion.{
  DeleteBucket, Deleted, deleted, delete, Caller, delete_object_version, DeleteContext,
  DeleteRequest, Drawn, delete_object, removed as removed_as,
}
use gdrive_s.Store.Deletion.Service.{Keeps, delete_object-Keeps}
use gdrive_s.Store.Disk.{Disk, drain_drive_file_now}
use gdrive_s.Store.Drive.{permanent, my_drive}
use gdrive_s.Store.Drive.Sample.{listed_drive, listed_drive-IsDrive}
use gdrive_s.Store.Removal.{delete_and_queue_cleanup}
use gdrive_s.Store.Promotion.{promote_newest_version}
use gdrive_s.Store.Deletion.Locks.{delete_object_version-MayDelete, target_lock}
use gdrive_s.Store.Tracked.{tracked}
use gdrive_s.Store.Samples.{store, object, held, unlocked, v1, fresh}

abbrev bucket : Versioning → DeleteBucket
bucket v = record { id = "b"; user_id = "u"; drive_target_id = none; versioning = v }

-- One archived version, which a legal hold protects, and no current row.
abbrev hidden : Store
hidden = record store {
  objects = [];
  object_versions = archived (object "o1" "f1" v1 held) no_sse "ver" 1 ∷ [];
}

-- The version comes back without its legal hold.
unheld_test :
    map (λ r. r.lock) (promote_newest_version "b" "k" "o9" 9 hidden).objects ≡ unlocked ∷ []
unfolding promote_newest_version update_all newest_version order_by insert_by select find_first
    upsert insert_or_update update_first delete_first text_ltb
unheld_test = refl

abbrev tables_of : Deleted → Store
tables_of (deleted m released s) = s
tables_of _ = store

abbrev run : Versioning → Store → Deleted
run v s = delete (bucket v) "o1" "f1" "user" (units "v0") "mrk" fresh s

abbrev ctx : DeleteContext (List String)
ctx = record {
  drive_storage = listed_drive;
  s3_delete_mode = permanent;
  operation_target = λ b. my_drive;
  verified = true;
}

abbrev request : Versioning → DeleteRequest
request v = record {
  actor_user_id = "u";
  bucket = bucket v;
  object_id = "o1";
  drive_file_id = "f1";
  reason = "user";
}

abbrev drawn : Drawn
drawn = record { new_version = units "v0"; marker_row = "mrk"; fresh = fresh }

abbrev full : Disk (List String)
full = record { store = store; drive = "f1" ∷ [] }

-- With versioning the file stays; without, it is deleted at once, and the queue forgets it.
delete_object_tests :
    ((delete_object ctx (request enabled) drawn full).0.drive ≡ "f1" ∷ [])
    × ((delete_object ctx (request enabled) drawn full).1 ≡ removed_as (some (units "v0")))
    × ((delete_object ctx (request disabled) drawn full).0.drive ≡ [])
    × ((delete_object ctx (request disabled) drawn full).0.store.pending_cleanup ≡ [])
unfolding delete_object delete find_active_by_id_in_bucket find_first update_all insert_new
    insert_delete_marker delete_by_key delete_first lookup remove drain_drive_file_now
    delete_and_queue_cleanup select complete_resource
delete_object_tests = (refl, refl, refl, refl)

delete_object-Keeps_example :
    Keeps ctx
      (request enabled)
      drawn
      "f1"
      (object "o1" "f1" v1 held)
      full
      (delete_object ctx (request enabled) drawn full).0
unfolding find_active_by_id_in_bucket find_first
delete_object-Keeps_example =
    delete_object-Keeps ctx (request enabled) drawn full "f1" (some (units "v0"))
      (object "o1" "f1" v1 held) listed_drive-IsDrive (refl, tt) refl refl refl (λ h. refl)
      delete_object_tests.1

-- While versioning is suspended, a deletion drops an archived version with the id `null`, and no
-- table knows that version's file any more.
abbrev null_archived : Store
null_archived = record store {
  object_versions = archived (object "o0" "f0" (units "null") held) no_sse "ver" 1 ∷ [];
}

dropped_null_test :
    (tracked "f0" null_archived ≡ true)
    × (tracked "f0" (tables_of (run suspended null_archived)) ≡ false)
unfolding delete find_active_by_id_in_bucket find_first update_all insert_new insert_delete_marker
    delete_by_key delete_first lookup remove
dropped_null_test = (refl, refl)

-- To delete an old marker brings an archived version back over the current row, whose file is
-- known no more.
abbrev old_marker : Store
old_marker = record store {
  object_versions =
      archived (object "o0" "f0" (units "v3") unlocked) no_sse "ver" 1
      ∷ Versions.delete_marker "b" "k" (units "v2") "mrk" 2
      ∷ [];
}

abbrev owner : Caller
owner = record { bypass_governance = false; is_bucket_owner = true; object_id = "o9" }

never_parsed : (s : String) (t : ℕ) → none ≡ some t → none ≡ some t
never_parsed s t h = h

-- No string is a date.
abbrev no_dates : Dates
no_dates = record {
  parse = λ s. none;
  to_iso = λ t. "";
  parse_empty = refl;
  parse-to_iso = never_parsed;
}

abbrev result_of : Result Store → Store
result_of (ok s) = s
result_of (err e) = store

abbrev removed : Store → Text → Result Store
removed s version = delete_object_version no_dates (bucket enabled) "k" version owner fresh s

promoted_over_test :
    (tracked "f1" old_marker ≡ true)
    × (tracked "f1" (result_of (removed old_marker (units "v2"))) ≡ false)
unfolding delete_object_version evaluate_delete retention_active legal_hold_active assert_deletable
    find_first delete_first update_all promote_newest_version newest_version order_by insert_by
    select upsert insert_or_update update_first text_ltb
promoted_over_test = (refl, refl)

-- A legal hold protects the current version.
held_test : removed store v1 ≡ err access_denied
unfolding delete_object_version evaluate_delete legal_hold_active assert_deletable find_first
held_test = refl

delete_object_version-MayDelete_example :
    (state : LockState) × (target_lock
        (some (object "o1" "f1" v1 held))
        (Versions.find "b" "k" (units "v3") old_marker.object_versions)
        (units "v3")
      ≡ some state)
    × MayDelete no_dates state false true 9
unfolding delete_object_version evaluate_delete retention_active legal_hold_active assert_deletable
    find_first delete_first enqueue
delete_object_version-MayDelete_example =
    delete_object_version-MayDelete no_dates (bucket enabled) "k" (units "v3") owner fresh
      old_marker (result_of (removed old_marker (units "v3"))) refl
