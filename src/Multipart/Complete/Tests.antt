-- ===== src/Multipart/Complete/Tests.antt =====
-- Tests and witnesses of the completion of an upload.
use gdrive_s.Base.{
  arith, false, ◌≡◌, refl, String, true, none, some, List, [], ◌∷◌, units, map, ◌==◌, text_key,
  lookup, put, remove,
}
use gdrive_s.S3Error.{ok, not_implemented}
use gdrive_s.Store.Rows.{Sse, uploading}
use gdrive_s.Store.Commit.{no_sse, commit_staged_object, ready, ready_columns}
use gdrive_s.Store.Drive.{streaming_upload, left_by_upload, permanent, my_drive, upload_error}
use gdrive_s.Store.Drive.Sample.{listed_drive, listed_drive-IsDrive}
use gdrive_s.Store.Table.{
  find_first, order_by, insert_by, select, insert_or_update, update_first, insert_new, update_all,
}
use gdrive_s.Store.Staging.{start}
use gdrive_s.Store.Cleanup.{enqueue}
use gdrive_s.Store.Tracked.{tracked}
use gdrive_s.Multipart.Parts.{checked_parts, validate_requested_parts, select_parts, check_sizes}
use gdrive_s.Multipart.Table.{list, delete_all}
use gdrive_s.Multipart.Complete.Files.{complete_locked-Known}
use gdrive_s.Multipart.Complete.Completed.{IsCompleted, complete_locked-IsCompleted}
use gdrive_s.Multipart.Complete.Failed.{Spared, complete_locked-Spared}
use gdrive_s.Multipart.Uploads.{completing, completed, aborted, apply, changes, updated}
use gdrive_s.Multipart.World.{World}
use gdrive_s.Multipart.Samples.{world}
use gdrive_s.Multipart.Complete.{
  Admitted, admit, upload_input, CompleteRequest, CompleteContext, granted, Reply, answered, thrown,
  s3_error, plain_error, complete_locked, cipher_error, assemble, fail, drain, finish,
  cleanup_temp_files,
}

abbrev request : CompleteRequest
request = record {
  request_id = "r";
  user_id = "ada";
  bucket =
      granted (record { id = "b"; user_id = "ada"; drive_folder_id = "f"; drive_target_id = none });
  verified = true;
  key = "k";
  upload_id = "u";
  body =
      ok (record { number = 1; etag = units "e" } ∷ record { number = 2; etag = units "e" } ∷ []);
  slot_refused = none;
}

abbrev ctx : CompleteContext (List String)
ctx = record {
  drive_storage = listed_drive;
  s3_delete_mode = permanent;
  operation_target = λ b. my_drive;
  min_multipart_part_bytes = 5;
  max_multipart_object_bytes = 100;
  drive_upload_chunk_bytes = 10;
  part_bytes = λ p. p.part_number ∷ [];
  stat_matches = λ p. true;
  removes = λ path. path == "/tmp/1";
  multipart_etag = λ parts. "tag-2";
  plain_metadata = λ s. s;
  decrypts = λ sse. true;
  message = λ e. "error";
  staging_id = "s";
  object_id = "file";
  version_row = "v";
  cleanup_row = "c";
  fresh = λ r. r;
  now = 7;
}

abbrev after : World (List String) × Reply
after = complete_locked ctx request (world no_sse)

-- An upload whose key is the customer's is claimed and then refused: it stays completing.
abbrev customer_sse : Sse
customer_sse = record no_sse {
  sse_algorithm = some "AES256";
  iv = some "iv";
  customer_key_md5 = some "md5";
}

complete_test :
    (after.1 ≡ answered "tag-2")
    × (map (λ r. r.status) after.0.uploads ≡ completed ∷ [])
    × (after.0.parts ≡ [])
    × (map (λ r. r.drive_file_id) after.0.store.objects ≡ "file" ∷ [])
    × (map (λ r. r.resource_id) after.0.store.pending_cleanup ≡ "/tmp/2" ∷ [])
    × (after.0.drive ≡ "file" ∷ [])
unfolding complete_locked streaming_upload find_first checked_parts validate_requested_parts
    select_parts list order_by insert_by select check_sizes apply changes cipher_error updated start
    assemble fail drain finish cleanup_temp_files delete_all enqueue commit_staged_object ready
    ready_columns insert_or_update update_first insert_new update_all lookup put remove
complete_test = (refl, refl, refl, refl, refl, refl)

stuck_test :
    ((complete_locked ctx request (world customer_sse)).1 ≡ thrown (s3_error not_implemented))
    × (map (λ r. r.status) (complete_locked ctx request (world customer_sse)).0.uploads
        ≡ completing ∷ [])
    × (map (λ r. r.status) (complete_locked ctx request (world customer_sse)).0.store.object_staging
        ≡ uploading ∷ [])
unfolding complete_locked streaming_upload find_first checked_parts validate_requested_parts
    select_parts list order_by insert_by select check_sizes apply changes cipher_error updated start
    assemble fail drain finish cleanup_temp_files delete_all enqueue commit_staged_object ready
    ready_columns insert_or_update update_first insert_new update_all lookup put remove
stuck_test = (refl, refl, refl)

-- A Drive that takes nothing: the upload is aborted, and its parts stay in the table.
abbrev full_ctx : CompleteContext (List String)
full_ctx = record ctx {
  drive_storage = record listed_drive { upload_resumable = λ input d. (upload_error "quota", d) };
}

failed_test :
    ((complete_locked full_ctx request (world no_sse)).1 ≡ thrown (plain_error "quota"))
    × (map (λ r. r.status) (complete_locked full_ctx request (world no_sse)).0.uploads
        ≡ aborted ∷ [])
    × (map (λ r. r.part_number) (complete_locked full_ctx request (world no_sse)).0.parts
        ≡ 2 ∷ 1 ∷ [])
    × ((complete_locked full_ctx request (world no_sse)).0.store.pending_cleanup ≡ [])
unfolding complete_locked streaming_upload find_first checked_parts validate_requested_parts
    select_parts list order_by insert_by select check_sizes apply changes cipher_error updated start
    assemble fail drain finish cleanup_temp_files delete_all enqueue commit_staged_object ready
    ready_columns insert_or_update update_first insert_new update_all lookup put remove
failed_test = (refl, refl, refl, refl)

kept : listed_drive.stores "file" after.0.drive ≡ true
kept = rw complete_test.5 refl

left_none :
    (a : Admitted)
    → admit ctx request (world no_sse) ≡ ok a
    → left_by_upload listed_drive (upload_input ctx request a) "file" [] ≡ false
unfolding streaming_upload
left_none a e = ground arith

complete_locked-Known_example : tracked "file" after.0.store ≡ true
complete_locked-Known_example =
    complete_locked-Known ctx request (world no_sse) "file" listed_drive-IsDrive refl left_none
      (λ h. cc) kept

complete_locked-IsCompleted_example : IsCompleted ctx request (world no_sse) after.0 "tag-2"
complete_locked-IsCompleted_example =
    complete_locked-IsCompleted ctx request (world no_sse) "tag-2" refl complete_test.0

complete_locked-Spared_example :
    Spared full_ctx request (world no_sse) (complete_locked full_ctx request (world no_sse)).0
complete_locked-Spared_example =
    complete_locked-Spared full_ctx request (world no_sse) (plain_error "quota") failed_test.0
