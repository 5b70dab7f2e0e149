-- ===== src/Multipart/Complete.antt =====
-- s3/operations/multipart-complete.ts: the handler completeLocked, from the bucket to the answer.
-- It runs under the lock of the upload. The parsed body, the files of the parts, the runtime's
-- ciphers and hashes, and Drive are parameters; an error that is no S3Error and that comes before
-- the claim is answered as InternalError, as s3/router.ts does.
pub mod Staged
pub mod Files
pub mod Completed
pub mod Failed
mod Tests
use gdrive_s.Base.{
  ℕ, String, Bool, true, false, not, ◌&&◌, ◌||◌, Option, none, some, List, [], ◌∷◌, ◌++◌, ◌==◌,
  text_key, if◌then◌else◌, all, leb, length, truthy,
}
use gdrive_s.ObjectLock.{LockState}
use gdrive_s.S3Error.{
  S3Error, Result, ok, err, ◌>>=◌, ◌>>◌, require, access_denied, no_such_bucket, no_such_upload,
  internal_error, entity_too_large, not_implemented,
}
use gdrive_s.Store.Rows.{Store, Headers, Sse, ObjectRow, drive_file, temp_file, disabled}
use gdrive_s.Store.Staging
use gdrive_s.Store.Objects.{find_by_key, no_lock}
use gdrive_s.Store.Cleanup.{EnqueueInput, enqueue, complete_resource}
use gdrive_s.Store.Commit.{
  Outcome, not_ready, object_key_conflict, owner_mismatch, done, CommitOptions, Committed, Fresh,
  commit_staged_object, no_sse,
}
use gdrive_s.Store.Drive.{
  streaming_upload, DriveStorage, DriveOperationTarget, DeleteMode, DeleteObjectInput,
  DeletionAnswer, deleted, drive_error, other_error, StreamingUploadInput, StreamingUploadResult,
  UploadAnswer, stored, upload_error,
}
use gdrive_s.Multipart.Parts.{RequestedPart, MultipartPartRow, checked_parts, total_size}
use gdrive_s.Multipart.Table.{list, delete_all}
use gdrive_s.Multipart.Uploads.{
  MultipartUploadRow, by_id, is_open, apply, mark_completing, mark_completed, mark_failed,
}
use gdrive_s.Multipart.World.{World, UploadBucket}

-- What findByName answers for the caller: an error, nothing, or the bucket.
pub data BucketAnswer : Type 0 where
  refused absent : BucketAnswer
  granted : UploadBucket → BucketAnswer

pub data Thrown : Type 0 where
  s3_error : S3Error → Thrown
  plain_error : String → Thrown

-- `body` is the text of the request, read and parsed; `verified` is whether verifyActorAccess
-- returns; `slot_refused` is the reason for which the wait for an upload slot was given up.
pub record CompleteRequest : Type 0 where
  pub request_id : String
  pub user_id : String
  pub bucket : BucketAnswer
  pub verified : Bool
  pub key : String
  pub upload_id : String
  pub body : Result (List RequestedPart)
  pub slot_refused : Option String

-- The configuration, the runtime and Drive. `part_bytes` is what a part's file holds, `stat_matches` is the check of a part's file, `removes`
-- whether `rm` returns; `plain_metadata` parses the column and prints it again, {} if it does not
-- parse; `decrypts` is whether the key service opens a data key. `fresh` draws the id of the
-- queue's row for a resource, and `now` stands for every reading of the clock.
pub record CompleteContext (D : Type 0) : Type 0 where
  pub drive_storage : DriveStorage D
  pub s3_delete_mode : DeleteMode
  pub operation_target : UploadBucket → DriveOperationTarget
  pub min_multipart_part_bytes : ℕ
  pub max_multipart_object_bytes : ℕ
  pub drive_upload_chunk_bytes : ℕ
  pub part_bytes : MultipartPartRow → List ℕ
  pub stat_matches : MultipartPartRow → Bool
  pub removes : String → Bool
  pub multipart_etag : List MultipartPartRow → String
  pub plain_metadata : String → String
  pub decrypts : Sse → Bool
  pub message : S3Error → String
  pub staging_id : String
  pub object_id : String
  pub version_row : String
  pub cleanup_row : String
  pub fresh : String → String
  pub now : ℕ

-- What the checks before the claim have found.
pub record Admitted : Type 0 where
  pub bucket : UploadBucket
  pub upload : MultipartUploadRow
  pub selected : List MultipartPartRow

pub data Reply : Type 0 where
  answered : String → Reply
  thrown : Thrown → Reply

abbrev pub found_bucket : BucketAnswer → Result UploadBucket
found_bucket refused = err access_denied
found_bucket absent = err no_such_bucket
found_bucket (granted bucket) = ok bucket

abbrev pub open_upload :
    Option MultipartUploadRow → UploadBucket → String → Result MultipartUploadRow
open_upload none bucket key = err no_such_upload
open_upload (some upload) bucket key =
    if is_open upload.status && (upload.bucket_id == bucket.id) && (upload.object_key == key)
    then ok upload
    else err no_such_upload

-- What multipartCipher throws, if anything.
unfoldable pub cipher_error : (Sse → Bool) → Sse → Option Thrown
cipher_error decrypts sse =
    if not (truthy sse.sse_algorithm && truthy sse.iv)
    then none
    else if truthy sse.customer_key_md5
    then some (s3_error not_implemented)
    else if not (truthy sse.kms_key_id && truthy sse.wrapped_data_key)
    then some (s3_error internal_error)
    else if decrypts sse
    then none
    else some (plain_error "decryptDataKey")

abbrev pub carried_sse : Sse → Sse
carried_sse sse = if truthy sse.sse_algorithm && truthy sse.iv then sse else no_sse

abbrev pub cipher_of : Sse → Option Sse
cipher_of sse = if truthy sse.sse_algorithm && truthy sse.iv then some sse else none

abbrev pub folder_of : Option String → UploadBucket → String
folder_of none bucket = bucket.drive_folder_id
folder_of (some folder) bucket = folder

-- multipartConcatStream
abbrev pub multipart_concat_stream : (MultipartPartRow → List ℕ) → List MultipartPartRow → List ℕ
multipart_concat_stream part_bytes [] = []
multipart_concat_stream part_bytes (part ∷ parts) =
    part_bytes part ++ multipart_concat_stream part_bytes parts

abbrev pub file_of : Option ObjectRow → Option String
file_of none = none
file_of (some r) = some r.drive_file_id

abbrev pub failed_input : Admitted → StreamingUploadResult → EnqueueInput
failed_input a u = record {
  user_id = a.bucket.user_id;
  resource_type = drive_file;
  resource_id = u.drive_file_id;
  reason = "failed_multipart_complete";
  drive_target_id = a.bucket.drive_target_id;
}

module _ {D : Type 0} (ctx : CompleteContext D) (rq : CompleteRequest) where
  unfoldable pub admit : World D → Result Admitted
  admit w = do
    bucket ← found_bucket rq.bucket
    require rq.verified access_denied
    upload ← open_upload (by_id rq.upload_id w.uploads) bucket rq.key
    requested ← rq.body
    selected ←
        checked_parts ctx.stat_matches requested (list rq.upload_id w.parts)
          ctx.min_multipart_part_bytes ctx.max_multipart_object_bytes
    ok (record { bucket = bucket; upload = upload; selected = selected })

  abbrev pub staging_input : Admitted → World D → Staging.StartStagingInput
  staging_input a w = record {
    request_id = rq.request_id;
    user_id = a.bucket.user_id;
    bucket_id = a.bucket.id;
    object_key = rq.key;
    content_type = a.upload.content_type;
    headers = record {
      metadata_json = ctx.plain_metadata a.upload.metadata_json;
      cache_control = none;
      content_disposition = none;
      content_encoding = none;
      content_language = none;
      expires_at = none;
      acl = "private";
    };
    sse = carried_sse a.upload.sse;
    lock = no_lock;
    old_drive_file_id = file_of (find_by_key a.bucket.id rq.key w.store.objects);
    drive_target_id = a.bucket.drive_target_id;
  }

  abbrev pub staged : Admitted → World D → World D
  staged a w = record w {
    store = record w.store {
      object_staging =
          Staging.start (staging_input a w) ctx.staging_id ctx.object_id ctx.now
            w.store.object_staging;
    };
  }

  -- The branch of `catch`.
  abbrev pub queue_uploaded : Admitted → Option StreamingUploadResult → Store → Store
  queue_uploaded a none s = s
  queue_uploaded a (some u) s = record s {
    pending_cleanup =
        enqueue (failed_input a u) (ctx.fresh u.drive_file_id) ctx.now s.pending_cleanup;
  }

  unfoldable pub fail : Admitted → Option StreamingUploadResult → String → World D → World D
  fail a uploaded message w = record w {
    uploads = (apply (mark_failed rq.upload_id message) w.uploads).1;
    store = queue_uploaded a uploaded (record w.store {
      object_staging = Staging.mark_failed ctx.staging_id message ctx.now w.store.object_staging;
    });
  }

  -- drainOldDriveFile: the queue forgets a file that Drive deletes at once.
  abbrev pub after_drain : DeletionAnswer → UploadBucket → String → Store → Store
  after_drain deleted bucket file s = record s {
    pending_cleanup = (complete_resource bucket.user_id drive_file file s.pending_cleanup).1;
  }
  after_drain _ bucket file s = s

  abbrev pub drain_input : UploadBucket → String → DeleteObjectInput
  drain_input bucket file = record {
    user_id = rq.user_id;
    drive_file_id = file;
    mode = ctx.s3_delete_mode;
    target = ctx.operation_target bucket;
  }

  abbrev pub drain_file : UploadBucket → String → World D → World D
  drain_file bucket file w =
      let (answer, d) = ctx.drive_storage.delete_file (drain_input bucket file) w.drive in
      record w { store = after_drain answer bucket file w.store; drive = d }

  unfoldable pub drain : UploadBucket → Option ObjectRow → String → World D → World D
  drain bucket none new w = w
  drain bucket (some previous) new w =
      if not (previous.drive_file_id == new) then drain_file bucket previous.drive_file_id w else w

  unfoldable pub cleanup_temp_files : List MultipartPartRow → Store → Store
  cleanup_temp_files [] s = s
  cleanup_temp_files (part ∷ parts) s = cleanup_temp_files parts (
      if ctx.removes part.temp_path then s else record s {
        pending_cleanup =
            enqueue
              (record {
                user_id = rq.user_id;
                resource_type = temp_file;
                resource_id = part.temp_path;
                reason = "multipart_complete_cleanup";
                drive_target_id = none;
              })
              (ctx.fresh part.temp_path) ctx.now s.pending_cleanup;
      })

  unfoldable pub finish : Admitted → World D → World D
  finish a w =
      let (gone, left) = delete_all rq.upload_id w.parts in
      record w {
        uploads = (apply (mark_completed rq.upload_id (length a.selected) ctx.now) w.uploads).1;
        parts = left;
        store = cleanup_temp_files gone w.store;
      }

  abbrev pub commit_options : CommitOptions
  commit_options = record { if_absent = false; versioning = disabled; version_id = none }

  abbrev pub commit_fresh : Fresh
  commit_fresh = record {
    version_row = ctx.version_row;
    cleanup_row = ctx.cleanup_row;
    now = ctx.now;
  }

  -- What follows the transaction, which throws when the staged row cannot be committed.
  abbrev pub after_commit :
      Admitted → StreamingUploadResult → Outcome Committed → World D → World D × Reply
  after_commit a u (done c s) w = (
    finish a (drain a.bucket c.previous u.drive_file_id (record w { store = s })),
    answered (ctx.multipart_etag a.selected),
  )
  after_commit a u not_ready w = (
    fail a (some u) "staging row is not ready to commit" w,
    thrown (plain_error "staging row is not ready to commit"),
  )
  after_commit a u object_key_conflict w = (
    fail a (some u) "object key already exists" w,
    thrown (plain_error "object key already exists"),
  )
  after_commit a u owner_mismatch w =
      (fail a (some u) "owner mismatch" w, thrown (plain_error "owner mismatch"))

  abbrev pub uploaded_input : Admitted → StreamingUploadResult → Staging.MarkUploadedInput
  uploaded_input a u = record {
    id = ctx.staging_id;
    drive_file_id = u.drive_file_id;
    size_bytes = u.size;
    etag = ctx.multipart_etag a.selected;
    checksum_sha256 = u.sha256_hex;
  }

  abbrev pub with_uploaded : Admitted → StreamingUploadResult → World D → World D
  with_uploaded a u w = record w {
    store = record w.store {
      object_staging = Staging.mark_uploaded (uploaded_input a u) ctx.now w.store.object_staging;
    };
  }

  abbrev pub after_upload : Admitted → UploadAnswer → World D → World D × Reply
  after_upload a (upload_error message) w = (fail a none message w, thrown (plain_error message))
  after_upload a (stored u) w =
      let marked = with_uploaded a u w in
      after_commit a u
        (commit_staged_object ctx.staging_id commit_options commit_fresh marked.store) marked

  abbrev pub upload_input : Admitted → StreamingUploadInput
  upload_input a = record {
    user_id = rq.user_id;
    bucket_id = a.bucket.id;
    bucket_folder_id = folder_of a.upload.drive_folder_id a.bucket;
    object_id = ctx.object_id;
    object_key = rq.key;
    mime_type = a.upload.content_type;
    body = multipart_concat_stream ctx.part_bytes a.selected;
    content_length = some (total_size a.selected);
    max_bytes = ctx.max_multipart_object_bytes;
    resumable_threshold = 0;
    chunk_size = ctx.drive_upload_chunk_bytes;
    target = ctx.operation_target a.bucket;
    cipher = cipher_of a.upload.sse;
  }

  -- The body of `try`.
  unfoldable pub assemble : Admitted → World D → World D × Reply
  assemble a w =
      let (answer, d) = streaming_upload ctx.drive_storage (upload_input a) w.drive in
      after_upload a answer (record w { drive = d })

  -- The cipher and the slot come before `try`: what they throw leaves the claim and the staged row.
  abbrev pub with_slot : Option String → Admitted → World D → World D × Reply
  with_slot none a w = assemble a w
  with_slot (some reason) a w = (w, thrown (plain_error reason))

  abbrev pub with_cipher : Option Thrown → Admitted → World D → World D × Reply
  with_cipher none a w = with_slot rq.slot_refused a w
  with_cipher (some error) a w = (w, thrown error)

  abbrev pub after_claim : Bool → Admitted → World D → World D × Reply
  after_claim false a w = (w, thrown (s3_error no_such_upload))
  after_claim true a w = with_cipher (cipher_error ctx.decrypts a.upload.sse) a (staged a w)

  abbrev pub after_admit : Result Admitted → World D → World D × Reply
  after_admit (err code) w = (w, thrown (s3_error code))
  after_admit (ok a) w =
      let (won, uploads) = apply (mark_completing rq.upload_id) w.uploads in
      after_claim won a (record w { uploads = uploads })

  unfoldable pub complete_locked : World D → World D × Reply
  unfolding admit
  complete_locked w = after_admit (admit w) w
