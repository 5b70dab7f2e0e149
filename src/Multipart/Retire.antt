-- ===== src/Multipart/Retire.antt =====
-- jobs/multipart-expiry.ts, and abortMultipartUpload of s3/operations/multipart.ts: an upload that
-- nobody completes ends, and its temporary files are handed to the queue.
pub mod Files
mod Tests
use gdrive_s.Base.{
  ℕ, ◌+◌, String, Bool, true, false, not, ◌&&◌, Option, none, some, List, [], ◌∷◌, ◌==◌, text_key,
  if◌then◌else◌, ltb,
}
use gdrive_s.S3Error.{S3Error, no_such_upload}
use gdrive_s.Store.Rows.{Store, PendingCleanupRow, temp_file}
use gdrive_s.Store.Cleanup.{EnqueueInput, enqueue}
use gdrive_s.Store.Drain.{Paths, is_under}
use gdrive_s.Multipart.Parts.{MultipartPartRow}
use gdrive_s.Multipart.Table.{delete_all}
use gdrive_s.Multipart.Uploads.{
  MultipartUploadRow, by_id, is_open, list_expired, apply, mark_expired, mark_aborted,
}
use gdrive_s.Multipart.World.{World, UploadBucket}

-- The configuration, the clock as it is read for an upload, whether the worker has been told to
-- stop when an upload's turn comes, and the ids drawn for the rows of the queue.
pub record ExpiryContext : Type 0 where
  pub paths : Paths
  pub multipart_temp_dir : String
  pub multipart_expiry_batch_size : ℕ
  pub clock : String → ℕ
  pub stopping : String → Bool
  pub fresh : String → String

pub record ExpiryRunResult : Type 0 where
  pub scanned : ℕ
  pub expired : ℕ
  pub temp_files_enqueued : ℕ
  pub skipped : ℕ

abbrev pub temp_input : String → String → String → EnqueueInput
temp_input user_id path reason = record {
  user_id = user_id;
  resource_type = temp_file;
  resource_id = path;
  reason = reason;
  drive_target_id = none;
}

-- The files of an aborted upload are queued, whatever their paths.
unfoldable pub queue_aborted :
    (String → String)
    → String
    → ℕ
    → List MultipartPartRow
    → List PendingCleanupRow
    → List PendingCleanupRow
queue_aborted fresh user_id now [] t = t
queue_aborted fresh user_id now (part ∷ parts) t =
    queue_aborted fresh user_id now parts
      (enqueue (temp_input user_id part.temp_path "multipart_abort") (fresh part.temp_path) now t)

-- What requireBucket has found, or the error that it throws.
abbrev owned_upload : Option MultipartUploadRow → UploadBucket → String → Bool
owned_upload none bucket key = false
owned_upload (some upload) bucket key =
    (upload.bucket_id == bucket.id) && (upload.object_key == key)

module _ (ctx : ExpiryContext) where
  abbrev pub inside : MultipartPartRow → Bool
  inside part = is_under ctx.paths ctx.multipart_temp_dir part.temp_path

  -- How many files were queued, and the queue: a path outside the directory is left out.
  abbrev pub queue_part :
      String → ℕ → MultipartPartRow → ℕ × List PendingCleanupRow → ℕ × List PendingCleanupRow
  queue_part user_id now part acc =
      if inside part
      then (
        acc.0 + 1,
        enqueue (temp_input user_id part.temp_path "multipart_expired") (ctx.fresh part.temp_path)
            now acc.1,
      )
      else acc

  unfoldable pub queue_expired :
      String → ℕ → List MultipartPartRow → ℕ × List PendingCleanupRow → ℕ × List PendingCleanupRow
  queue_expired user_id now [] acc = acc
  queue_expired user_id now (part ∷ parts) acc =
      queue_expired user_id now parts (queue_part user_id now part acc)

abbrev pub counted : Option ℕ → ExpiryRunResult → ExpiryRunResult
counted none result = record result { scanned = result.scanned + 1; skipped = result.skipped + 1 }
counted (some enqueued) result = record result {
  scanned = result.scanned + 1;
  expired = result.expired + 1;
  temp_files_enqueued = result.temp_files_enqueued + enqueued;
}

module _ {D : Type 0} where
  abbrev pub aborted_world : (String → String) → String → String → ℕ → World D → World D
  aborted_world fresh user_id upload_id now w =
      let (gone, left) = delete_all upload_id w.parts in
      record w {
        uploads = (apply (mark_aborted upload_id) w.uploads).1;
        parts = left;
        store = record w.store {
          pending_cleanup = queue_aborted fresh user_id now gone w.store.pending_cleanup;
        };
      }

  -- The error that is thrown, if any, and what is left.
  unfoldable pub abort_upload :
      (String → String)
      → UploadBucket
      → String
      → String
      → String
      → ℕ
      → World D
      → Option S3Error × World D
  abort_upload fresh bucket user_id key upload_id now w =
      if not (owned_upload (by_id upload_id w.uploads) bucket key)
      then (some no_such_upload, w)
      else if (apply (mark_aborted upload_id) w.uploads).0
      then (none, aborted_world fresh user_id upload_id now w)
      else (some no_such_upload, w)

  module _ (ctx : ExpiryContext) where
    abbrev pub expired_world : String → String → World D → ℕ × World D
    expired_world user_id upload_id w =
        let (gone, left) = delete_all upload_id w.parts in
        let (enqueued, queue) =
          queue_expired ctx user_id (ctx.clock upload_id) gone (0, w.store.pending_cleanup) in
        (
          enqueued,
          record w {
            uploads = (apply (mark_expired upload_id) w.uploads).1;
            parts = left;
            store = record w.store { pending_cleanup = queue };
          },
        )

    abbrev pub expire_found : Option MultipartUploadRow → String → World D → Option ℕ × World D
    expire_found none upload_id w = (none, w)
    expire_found (some upload) upload_id w =
        if not (is_open upload.status)
        then (none, w)
        else if ltb (ctx.clock upload_id) upload.expires_at
        then (none, w)
        else if (apply (mark_expired upload_id) w.uploads).0
        then (
          some (expired_world upload.user_id upload_id w).0,
          (expired_world upload.user_id upload_id w).1,
        )
        else (none, w)

    unfoldable pub expire_one : String → World D → Option ℕ × World D
    expire_one upload_id w = expire_found (by_id upload_id w.uploads) upload_id w

    unfoldable pub expire_rows :
        List MultipartUploadRow → ExpiryRunResult → World D → ExpiryRunResult × World D
    expire_rows [] result w = (result, w)
    expire_rows (row ∷ rows) result w =
        let one = expire_one row.id w in
        let later = expire_rows rows (counted one.0 result) one.1 in
        if ctx.stopping row.id then (result, w) else later

    -- `busy` is `running || stopping` when the run is asked for.
    unfoldable pub run_once : Bool → ℕ → World D → ExpiryRunResult × World D
    unfolding expire_rows
    run_once busy now w =
        let nothing : ExpiryRunResult = record {
          scanned = 0;
          expired = 0;
          temp_files_enqueued = 0;
          skipped = 0;
        } in
        if busy
        then (nothing, w)
        else expire_rows (list_expired now ctx.multipart_expiry_batch_size w.uploads) nothing w
