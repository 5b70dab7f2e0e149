-- ===== src/Put.antt =====
-- services/object-service.ts: upload, the write of one object from its lock to its answer.
-- The locks, the access check, the body with its hashes, and Drive are parameters. What a caller
-- sees thrown is an error of the service, or a plain one with its message.
pub mod Files
pub mod Stored
pub mod Spared
mod Tests
use gdrive_s.Base.{
  ℕ, min, List, String, Bool, true, false, not, ◌&&◌, Option, none, some, ◌==◌, text_key,
  if◌then◌else◌, Text, is_some,
}
use gdrive_s.ObjectLock.{LockState}
use gdrive_s.Store.Rows.{
  Store, Headers, Sse, StagingRow, ObjectRow, StagingStatus, committed, Versioning, drive_file,
}
use gdrive_s.Store.Staging
use gdrive_s.Store.Objects.{find_any_by_key, find_by_key}
use gdrive_s.Store.Cleanup.{EnqueueInput, enqueue, complete_resource}
use gdrive_s.Store.Commit.{
  Outcome, not_ready, object_key_conflict, owner_mismatch, done, CommitOptions, Committed, Fresh,
  commit_staged_object, sse_of,
}
use gdrive_s.Store.Disk.{Disk, drain_drive_file_now}
use gdrive_s.Store.Drive.{
  streaming_upload, DriveStorage, DriveOperationTarget, DeleteMode, DeleteObjectInput,
  DeletionAnswer, deleted, StreamingUploadInput, StreamingUploadResult, UploadAnswer, stored,
  upload_error,
}
use gdrive_s.Multipart.World.{UploadBucket}

pub data Thrown : Type 0 where
  object_access_error object_already_exists_error : Thrown
  plain_error : String → Thrown

-- `body` is the bytes that the stream gives; `verify` gives the message that input.verify throws.
pub record ObjectUploadInput : Type 0 where
  pub request_id : String
  pub actor_user_id : String
  pub bucket : UploadBucket
  pub key : String
  pub body : List ℕ
  pub content_length : Option ℕ
  pub max_bytes : Option ℕ
  pub content_type : String
  pub headers : Headers
  pub lock : LockState
  pub encryption : Option Sse
  pub versioning : Versioning
  pub version_id : Option Text
  pub if_absent : Bool
  pub verify : StreamingUploadResult → Option String

-- `lock_refused` and `slot_refused` are the reasons for which a wait was given up, and
-- `verified` is whether verifyActorAccess returns.
pub record PutContext (D : Type 0) : Type 0 where
  pub drive_storage : DriveStorage D
  pub s3_delete_mode : DeleteMode
  pub max_single_put_bytes : ℕ
  pub drive_resumable_threshold_bytes : ℕ
  pub drive_upload_chunk_bytes : ℕ
  pub operation_target : UploadBucket → DriveOperationTarget
  pub lock_refused : Option String
  pub verified : Bool
  pub slot_refused : Option String
  pub staging_id : String
  pub object_id : String
  pub fresh : Fresh
  pub queue_id : String

pub data Reply : Type 0 where
  returned : Committed → StreamingUploadResult → Reply
  thrown : Thrown → Reply

abbrev pub is_committed : StagingStatus → Bool
is_committed committed = true
is_committed _ = false

abbrev pub row_committed : Option StagingRow → Bool
row_committed none = false
row_committed (some r) = is_committed r.status

abbrev pub most_bytes : Option ℕ → ℕ → ℕ
most_bytes none most = most
most_bytes (some n) most = min n most

abbrev pub file_of : Option ObjectRow → Option String
file_of none = none
file_of (some r) = some r.drive_file_id

module _ {D : Type 0} (ctx : PutContext D) (input : ObjectUploadInput) where
  abbrev pub previous_of : Store → Option ObjectRow
  previous_of s =
      if input.if_absent
      then find_any_by_key input.bucket.id input.key s.objects
      else find_by_key input.bucket.id input.key s.objects

  abbrev pub staging_input : Store → Staging.StartStagingInput
  staging_input s = record {
    request_id = input.request_id;
    user_id = input.bucket.user_id;
    bucket_id = input.bucket.id;
    object_key = input.key;
    content_type = input.content_type;
    headers = input.headers;
    sse = sse_of input.encryption;
    lock = input.lock;
    old_drive_file_id = file_of (previous_of s);
    drive_target_id = input.bucket.drive_target_id;
  }

  abbrev pub staged : Disk D → Disk D
  staged w = record w {
    store = record w.store {
      object_staging =
          Staging.start (staging_input w.store) ctx.staging_id ctx.object_id ctx.fresh.now
            w.store.object_staging;
    };
  }

  abbrev pub failed_input : StreamingUploadResult → EnqueueInput
  failed_input u = record {
    user_id = input.bucket.user_id;
    resource_type = drive_file;
    resource_id = u.drive_file_id;
    reason = "failed_object_staging";
    drive_target_id = input.bucket.drive_target_id;
  }

  abbrev pub queue_uploaded : Option StreamingUploadResult → Store → Store
  queue_uploaded none s = s
  queue_uploaded (some u) s = record s {
    pending_cleanup = enqueue (failed_input u) ctx.queue_id ctx.fresh.now s.pending_cleanup;
  }

  -- The branch of `catch`.
  unfoldable pub fail : Option StreamingUploadResult → String → Disk D → Disk D
  fail sent message w =
      if row_committed (Staging.by_id ctx.staging_id w.store.object_staging) then w else record w {
        store = queue_uploaded sent (record w.store {
          object_staging =
              Staging.mark_failed ctx.staging_id message ctx.fresh.now w.store.object_staging;
        });
      }

  abbrev pub delete_input : String → DeleteObjectInput
  delete_input file = record {
    user_id = input.actor_user_id;
    drive_file_id = file;
    mode = ctx.s3_delete_mode;
    target = ctx.operation_target input.bucket;
  }

  -- The file of a row that was replaced and not retained is deleted at once.
  abbrev pub drain_previous : Bool → Option ObjectRow → String → Disk D → Disk D
  drain_previous archived none new w = w
  drain_previous archived (some previous) new w =
      if not archived && not (previous.drive_file_id == new)
      then drain_drive_file_now ctx.drive_storage (delete_input previous.drive_file_id)
          input.bucket.user_id w
      else w

  abbrev pub commit_options : CommitOptions
  commit_options = record {
    if_absent = input.if_absent;
    versioning = input.versioning;
    version_id = input.version_id;
  }

  abbrev pub after_commit : StreamingUploadResult → Outcome Committed → Disk D → Disk D × Reply
  after_commit u (done c s) w = (
    drain_previous c.archived_previous c.previous u.drive_file_id (record w { store = s }),
    returned c u,
  )
  after_commit u not_ready w = (
    fail (some u) "staging row is not ready to commit" w,
    thrown (plain_error "staging row is not ready to commit"),
  )
  after_commit u object_key_conflict w =
      (fail (some u) "object key already exists" w, thrown object_already_exists_error)
  after_commit u owner_mismatch w =
      (fail (some u) "owner mismatch" w, thrown (plain_error "owner mismatch"))

  abbrev pub uploaded_input : StreamingUploadResult → Staging.MarkUploadedInput
  uploaded_input u = record {
    id = ctx.staging_id;
    drive_file_id = u.drive_file_id;
    size_bytes = u.size;
    etag = u.md5_hex;
    checksum_sha256 = u.sha256_hex;
  }

  abbrev pub with_uploaded : StreamingUploadResult → Disk D → Disk D
  with_uploaded u w = record w {
    store = record w.store {
      object_staging =
          Staging.mark_uploaded (uploaded_input u) ctx.fresh.now w.store.object_staging;
    };
  }

  abbrev pub after_verify : Option String → StreamingUploadResult → Disk D → Disk D × Reply
  after_verify (some message) u w = (fail (some u) message w, thrown (plain_error message))
  after_verify none u w =
      let marked = with_uploaded u w in
      after_commit u (commit_staged_object ctx.staging_id commit_options ctx.fresh marked.store)
        marked

  abbrev pub after_upload : UploadAnswer → Disk D → Disk D × Reply
  after_upload (upload_error message) w = (fail none message w, thrown (plain_error message))
  after_upload (stored u) w = after_verify (input.verify u) u w

  abbrev pub upload_input : StreamingUploadInput
  upload_input = record {
    user_id = input.actor_user_id;
    bucket_id = input.bucket.id;
    bucket_folder_id = input.bucket.drive_folder_id;
    object_id = ctx.object_id;
    object_key = input.key;
    mime_type = input.content_type;
    body = input.body;
    content_length = input.content_length;
    max_bytes = most_bytes input.max_bytes ctx.max_single_put_bytes;
    resumable_threshold = ctx.drive_resumable_threshold_bytes;
    chunk_size = ctx.drive_upload_chunk_bytes;
    target = ctx.operation_target input.bucket;
    cipher = input.encryption;
  }

  -- The body of `try`.
  unfoldable pub transfer : Disk D → Disk D × Reply
  transfer w =
      let (answer, d) = streaming_upload ctx.drive_storage upload_input w.drive in
      after_upload answer (record w { drive = d })

  -- The wait for a slot comes before `try`: given up, it leaves the staged row as it is.
  abbrev pub with_slot : Option String → Disk D → Disk D × Reply
  with_slot none w = transfer w
  with_slot (some reason) w = (w, thrown (plain_error reason))

  abbrev pub with_key : Bool → Disk D → Disk D × Reply
  with_key true w = (w, thrown object_already_exists_error)
  with_key false w = with_slot ctx.slot_refused (staged w)

  abbrev pub with_access : Bool → Disk D → Disk D × Reply
  with_access false w = (w, thrown object_access_error)
  with_access true w = with_key (input.if_absent && is_some (previous_of w.store)) w

  abbrev pub with_lock : Option String → Disk D → Disk D × Reply
  with_lock none w = with_access ctx.verified w
  with_lock (some reason) w = (w, thrown (plain_error reason))

  unfoldable pub upload : Disk D → Disk D × Reply
  upload w = with_lock ctx.lock_refused w
