-- ===== src/Store/Deletion.antt =====
-- What deletes a version: `delete` of services/object-service.ts once access is verified, and
-- deleteObjectVersion with promoteNewestVersion of s3/operations/objects.ts. Service is the whole
-- method `delete`; that deleteObjectVersion deletes a queued file from Drive at once, and that it
-- leaves the queue then, is not part of its steps.
pub mod Files
mod Tests
pub mod Service
pub mod Tracked
pub mod Locks
use gdrive_s.Base.{
  ℕ, String, Bool, true, false, not, ◌&&◌, ◌||◌, Option, none, some, List, [], ◌∷◌, ◌++◌, ◌==◌,
  text_key, units_key, if◌then◌else◌, Text, lookup, put, remove, holds, truthy, eqb,
}
use gdrive_s.S3Error.{S3Error, Result, ok, err, ◌>>=◌, ◌>>◌, no_such_version, internal_error}
use gdrive_s.ObjectLock.{LockState, Dates, evaluate_delete, assert_deletable}
use gdrive_s.Store.Rows.{
  Store, ObjectRow, ObjectVersionRow, Versioning, disabled, enabled, suspended, Sse, drive_file,
}
use gdrive_s.Store.Objects.{
  UpsertObjectInput, upsert, find_by_key, delete_by_key, find_active_by_id_in_bucket,
}
use gdrive_s.Store.Versions
use gdrive_s.Store.Versions.{
  null_version, archive, clear_latest, insert_delete_marker, newest_version,
}
use gdrive_s.Store.Promotion.{promote_newest_version}
use gdrive_s.Store.Cleanup.{EnqueueInput, enqueue}
use gdrive_s.Store.Commit.{
  Fresh, Outcome, done, not_ready, object_key_conflict, owner_mismatch, sse_of,
}
use gdrive_s.Store.Drive.{DriveStorage, DriveOperationTarget, DeleteMode, DeleteObjectInput}
use gdrive_s.Store.Disk.{Disk, drain_drive_file_now}
use gdrive_s.Store.Removal.{CleanupInput, delete_and_queue_cleanup}

pub record DeleteBucket : Type 0 where
  pub id : String
  pub user_id : String
  pub drive_target_id : Option String
  pub versioning : Versioning

abbrev pub to_queue : DeleteBucket → String → String → EnqueueInput
to_queue bucket file reason = record {
  user_id = bucket.user_id;
  resource_type = drive_file;
  resource_id = file;
  reason = reason;
  drive_target_id = bucket.drive_target_id;
}

abbrev after_delete : Outcome (Option ObjectRow) → Result Store
after_delete (done removed s) = ok s
after_delete not_ready = err internal_error
after_delete object_key_conflict = err internal_error
after_delete owner_mismatch = err internal_error

-- A version that is not current: a marker un-hides the key, another one's file is queued.
abbrev pub release : DeleteBucket → Option String → String → ℕ → Store → Store
release bucket none fresh now s = s
release bucket (some file) fresh now s =
    if truthy (some file)
    then record s {
      pending_cleanup =
          enqueue (to_queue bucket file "object_version_delete") fresh now s.pending_cleanup;
    }
    else s

pub record Caller : Type 0 where
  pub bypass_governance : Bool
  pub is_bucket_owner : Bool
  pub object_id : String

module _ (d : Dates) where
  abbrev pub delete_archived :
      DeleteBucket → String → Text → Caller → Fresh → Option ObjectVersionRow → Store → Result Store
  delete_archived bucket key version_id caller fresh none s = err no_such_version
  delete_archived bucket key version_id caller fresh (some archived) s = do
    assert_deletable
        (evaluate_delete d archived.lock caller.bypass_governance caller.is_bucket_owner fresh.now)
    let s = record s {
      object_versions = Versions.delete bucket.id key version_id s.object_versions;
    } in
        ok (
          if eqb archived.is_delete_marker 1
          then promote_newest_version bucket.id key caller.object_id fresh.now s
          else release bucket archived.drive_file_id fresh.cleanup_row fresh.now s)

  abbrev pub delete_current :
      DeleteBucket → String → Caller → Fresh → ObjectRow → Store → Result Store
  delete_current bucket key caller fresh current s = do
    assert_deletable
        (evaluate_delete d current.lock caller.bypass_governance caller.is_bucket_owner fresh.now)
    s ← after_delete (
        delete_and_queue_cleanup
          (record {
            user_id = bucket.user_id;
            bucket_id = bucket.id;
            object_key = key;
            reason = "object_version_delete";
            drive_target_id = bucket.drive_target_id;
          })
          fresh s)
    ok (promote_newest_version bucket.id key caller.object_id fresh.now s)

  abbrev pub delete_found :
      DeleteBucket
      → String
      → Text
      → Caller
      → Fresh
      → Option ObjectRow
      → Option ObjectVersionRow
      → Store
      → Result Store
  delete_found bucket key version_id caller fresh none archived s =
      delete_archived bucket key version_id caller fresh archived s
  delete_found bucket key version_id caller fresh (some current) archived s =
      if current.version_id == version_id
      then delete_current bucket key caller fresh current s
      else delete_archived bucket key version_id caller fresh archived s

  unfoldable pub delete_object_version :
      DeleteBucket → String → Text → Caller → Fresh → Store → Result Store
  delete_object_version bucket key version_id caller fresh s =
      delete_found bucket key version_id caller fresh (find_by_key bucket.id key s.objects)
        (Versions.find bucket.id key version_id s.object_versions) s

-- The tables after a deletion, with the marker's version id and the file that drainDriveFileNow is
-- called for.
pub data Deleted : Type 0 where
  not_found failed : Deleted
  -- The marker's version id is taken: the statement throws, what ran before stays.
  marker_refused : Store → Deleted
  deleted : Option Text → Option String → Store → Deleted

abbrev pub queue_unless : Bool → DeleteBucket → String → String → Fresh → Store → Store
queue_unless retained bucket file reason fresh s = if retained then s else record s {
  pending_cleanup =
      enqueue (to_queue bucket file reason) fresh.cleanup_row fresh.now s.pending_cleanup;
}

abbrev pub hide_with :
    Option (List ObjectVersionRow)
    → Bool
    → DeleteBucket
    → ObjectRow
    → Text
    → String
    → Fresh
    → Store
    → Deleted
hide_with none retained bucket current marker reason fresh s = marker_refused s
hide_with (some versions) retained bucket current marker reason fresh s =
    let s = record s {
      object_versions = versions;
      objects = (delete_by_key bucket.id current.object_key s.objects).1;
      object_encryption = remove current.id s.object_encryption;
    } in
    deleted (some marker) (if retained then none else some current.drive_file_id)
      (queue_unless retained bucket current.drive_file_id reason fresh s)

abbrev pub hide : Bool → Text → DeleteBucket → ObjectRow → String → String → Fresh → Store → Deleted
hide retained marker bucket current reason marker_row fresh s =
    let key = current.object_key in
    let kept =
      if retained
      then archive current (sse_of (lookup current.id s.object_encryption)) fresh.version_row
          fresh.now s.object_versions
      else s.object_versions in
    let cleared = clear_latest bucket.id key kept in
    let free =
      if marker == null_version
      then Versions.delete bucket.id key null_version cleared
      else cleared in
    hide_with (insert_delete_marker bucket.id key marker marker_row fresh.now free) retained bucket
      current marker reason fresh (record s { object_versions = free })

abbrev pub file_of : Option ObjectRow → Option String
file_of none = none
file_of (some removed) = some removed.drive_file_id

abbrev pub plain_outcome : Outcome (Option ObjectRow) → Deleted
plain_outcome (done removed after) = deleted none (file_of removed) after
plain_outcome not_ready = failed
plain_outcome object_key_conflict = failed
plain_outcome owner_mismatch = failed

abbrev pub delete_plain : DeleteBucket → ObjectRow → String → Fresh → Store → Deleted
delete_plain bucket current reason fresh s = plain_outcome (
    delete_and_queue_cleanup
      (record {
        user_id = bucket.user_id;
        bucket_id = bucket.id;
        object_key = current.object_key;
        reason = reason;
        drive_target_id = bucket.drive_target_id;
      })
      fresh s)

abbrev pub delete_by_mode :
    Versioning → DeleteBucket → ObjectRow → String → Text → String → Fresh → Store → Deleted
delete_by_mode enabled bucket current reason new_version marker_row fresh s =
    hide true new_version bucket current reason marker_row fresh s
delete_by_mode suspended bucket current reason new_version marker_row fresh s =
    hide (not (current.version_id == null_version)) null_version bucket current reason marker_row
      fresh s
delete_by_mode disabled bucket current reason new_version marker_row fresh s =
    delete_plain bucket current reason fresh s

abbrev pub delete_read :
    Option ObjectRow → DeleteBucket → String → String → Text → String → Fresh → Store → Deleted
delete_read none bucket file reason new_version marker_row fresh s = not_found
delete_read (some current) bucket file reason new_version marker_row fresh s =
    if current.drive_file_id == file
    then delete_by_mode bucket.versioning bucket current reason new_version marker_row fresh s
    else not_found

-- The object that the caller has read, by its id and its file.
unfoldable pub delete :
    DeleteBucket → String → String → String → Text → String → Fresh → Store → Deleted
delete bucket object_id file reason new_version marker_row fresh s =
    delete_read (find_active_by_id_in_bucket bucket.id object_id s.objects) bucket file reason
      new_version marker_row fresh s

-- The configuration, Drive, and whether verifyActorAccess returns.
pub record DeleteContext (D : Type 0) : Type 0 where
  pub drive_storage : DriveStorage D
  pub s3_delete_mode : DeleteMode
  pub operation_target : DeleteBucket → DriveOperationTarget
  pub verified : Bool

pub record DeleteRequest : Type 0 where
  pub actor_user_id : String
  pub bucket : DeleteBucket
  pub object_id : String
  pub drive_file_id : String
  pub reason : String

-- What the method draws at random, and the clock.
pub record Drawn : Type 0 where
  pub new_version : Text
  pub marker_row : String
  pub fresh : Fresh

pub data DeleteReply : Type 0 where
  object_access_error object_not_found_error other_error : DeleteReply
  removed : Option Text → DeleteReply

module _ {D : Type 0} (ctx : DeleteContext D) (rq : DeleteRequest) (drawn : Drawn) where
  abbrev pub deletion_input : String → DeleteObjectInput
  deletion_input file = record {
    user_id = rq.actor_user_id;
    drive_file_id = file;
    mode = ctx.s3_delete_mode;
    target = ctx.operation_target rq.bucket;
  }

  abbrev pub drain_released : Option String → Disk D → Disk D
  drain_released none w = w
  drain_released (some file) w =
      drain_drive_file_now ctx.drive_storage (deletion_input file) rq.bucket.user_id w

  abbrev pub after_tables : Deleted → Disk D → Disk D × DeleteReply
  after_tables not_found w = (w, object_not_found_error)
  after_tables failed w = (w, other_error)
  after_tables (marker_refused s) w = (record w { store = s }, other_error)
  after_tables (deleted marker file s) w =
      (drain_released file (record w { store = s }), removed marker)

  abbrev pub with_access : Bool → Disk D → Disk D × DeleteReply
  with_access false w = (w, object_access_error)
  with_access true w =
      after_tables
        (delete rq.bucket rq.object_id rq.drive_file_id rq.reason drawn.new_version drawn.marker_row
          drawn.fresh w.store)
        w

  unfoldable pub delete_object : Disk D → Disk D × DeleteReply
  delete_object w = with_access ctx.verified w
