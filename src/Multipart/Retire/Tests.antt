-- ===== src/Multipart/Retire/Tests.antt =====
-- Tests and witnesses of the uploads that nobody completes.
use gdrive_s.Base.{
  ◌≡◌, refl, String, true, false, none, some, List, [], ◌∷◌, ◌==◌, text_key, map, units,
  if◌then◌else◌, after_prefix,
}
use gdrive_s.S3Error.{no_such_upload}
use gdrive_s.Store.Commit.{no_sse}
use gdrive_s.Store.Table.{find_first, order_by, insert_by, select, limit}
use gdrive_s.Store.Cleanup.{enqueue}
use gdrive_s.Store.Drain.{is_under}
use gdrive_s.Multipart.Table.{list, delete_all}
use gdrive_s.Multipart.Uploads.{expired, aborted, apply, changes, updated, list_expired}
use gdrive_s.Multipart.World.{World, UploadBucket}
use gdrive_s.Multipart.Samples.{world}
use gdrive_s.Multipart.Retire.{
  ExpiryContext, run_once, expire_rows, expire_one, queue_expired, queue_aborted, abort_upload,
}
use gdrive_s.Multipart.Retire.Files.{known_temp, run_once-known, abort_upload-known}

-- Of the two parts, the second lies outside the directory.
abbrev ctx : ExpiryContext
ctx = record {
  paths = record {
    resolve = λ p. p;
    relative = λ base path. if path == "/tmp/1" then units "1" else units "..";
    is_absolute = λ p. false;
  };
  multipart_temp_dir = "/tmp";
  multipart_expiry_batch_size = 5;
  clock = λ id. 1000;
  stopping = λ id. false;
  fresh = λ path. path;
}

abbrev before : World (List String)
before = world no_sse

expiry_test :
    (map (λ r. r.status) (run_once ctx false 1000 before).1.uploads ≡ expired ∷ [])
    × (map (λ r. r.resource_id) (run_once ctx false 1000 before).1.store.pending_cleanup
        ≡ "/tmp/1" ∷ [])
    × ((run_once ctx false 1000 before).1.parts ≡ [])
    × ((run_once ctx false 1000 before).0.expired ≡ 1)
    × ((run_once ctx false 899 before).0.scanned ≡ 0)
unfolding run_once expire_rows expire_one queue_expired list_expired limit order_by insert_by select
    find_first apply changes updated list delete_all enqueue is_under after_prefix
expiry_test = (refl, refl, refl, refl, refl)

abbrev bucket : UploadBucket
bucket = record { id = "b"; user_id = "ada"; drive_folder_id = "f"; drive_target_id = none }

abort_test :
    (map (λ r. r.status) (abort_upload (λ p. p) bucket "ada" "k" "u" 5 before).1.uploads
      ≡ aborted ∷ [])
    × (map
          (λ r. r.resource_id)
          (abort_upload (λ p. p) bucket "ada" "k" "u" 5 before).1.store.pending_cleanup
        ≡ "/tmp/1" ∷ "/tmp/2" ∷ [])
    × ((abort_upload (λ p. p) bucket "ada" "other" "u" 5 before).0 ≡ some no_such_upload)
unfolding abort_upload queue_aborted find_first apply changes updated list delete_all order_by
    insert_by select enqueue
abort_test = (refl, refl, refl)

inside : is_under ctx.paths "/tmp" "/tmp/1" ≡ true
unfolding is_under after_prefix
inside = refl

run_once-known_example :
    known_temp "/tmp/1" (run_once ctx false 1000 before).1 ≡ known_temp "/tmp/1" before
run_once-known_example = run_once-known ctx false 1000 before "/tmp/1" inside

abort_upload-known_example :
    known_temp "/tmp/2" (abort_upload (λ p. p) bucket "ada" "k" "u" 5 before).1
    ≡ known_temp "/tmp/2" before
abort_upload-known_example = abort_upload-known (λ p. p) bucket "ada" "k" "u" 5 before "/tmp/2"
