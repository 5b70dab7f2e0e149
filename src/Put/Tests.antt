-- ===== src/Put/Tests.antt =====
-- Tests and witnesses of the write of an object.
use gdrive_s.Base.{
  ◌≡◌, refl, String, true, false, none, some, List, [], ◌∷◌, map, any, units, ◌==◌, text_key,
  lookup, put, remove,
}
use gdrive_s.Store.Rows.{ObjectRow, disabled, active, failed, committed}
use gdrive_s.Store.Objects.{no_lock, find_any_by_key}
use gdrive_s.Store.Commit.{Committed, archives, commit_staged_object, ready, ready_columns}
use gdrive_s.Store.Drive.{
  streaming_upload, permanent, my_drive, StreamingUploadResult, left_by_upload,
}
use gdrive_s.Store.Drive.Sample.{listed_drive, listed_drive-IsDrive}
use gdrive_s.Store.Commit.Files.{no_clash}
use gdrive_s.Store.Table.{
  find_first, insert_or_update, update_first, insert_new, update_all, select, delete_first,
}
use gdrive_s.Store.Staging.{start}
use gdrive_s.Store.Cleanup.{enqueue, complete_resource}
use gdrive_s.Store.Tracked.{tracked}
use gdrive_s.Multipart.Samples.{empty_store}
use gdrive_s.Store.Disk.{Disk, drain_drive_file_now}
use gdrive_s.Put.{
  PutContext, ObjectUploadInput, Reply, returned, thrown, plain_error, object_already_exists_error,
  upload, transfer, fail, upload_input,
}
use gdrive_s.Put.Files.{upload-Known}
use gdrive_s.Put.Stored.{IsStored, upload-IsStored}
use gdrive_s.Put.Spared.{Spared, upload-Spared}

abbrev request : ObjectUploadInput
request = record {
  request_id = "r";
  actor_user_id = "ada";
  bucket = record { id = "b"; user_id = "ada"; drive_folder_id = "f"; drive_target_id = none };
  key = "k";
  body = 1 ∷ 2 ∷ 3 ∷ [];
  content_length = some 3;
  max_bytes = none;
  content_type = "text/plain";
  headers = record {
    metadata_json = "{}";
    cache_control = none;
    content_disposition = none;
    content_encoding = none;
    content_language = none;
    expires_at = none;
    acl = "private";
  };
  lock = no_lock;
  encryption = none;
  versioning = disabled;
  version_id = none;
  if_absent = false;
  verify = λ u. none;
}

abbrev ctx : String → PutContext (List String)
ctx n = record {
  drive_storage = listed_drive;
  s3_delete_mode = permanent;
  max_single_put_bytes = 100;
  drive_resumable_threshold_bytes = 50;
  drive_upload_chunk_bytes = 10;
  operation_target = λ b. my_drive;
  lock_refused = none;
  verified = true;
  slot_refused = none;
  staging_id = n;
  object_id = n;
  fresh = record { version_row = n; cleanup_row = n; now = 7 };
  queue_id = "q";
}

abbrev empty : Disk (List String)
empty = record { store = empty_store; drive = [] }

abbrev once : Disk (List String) × Reply
once = upload (ctx "one") request empty

abbrev twice : Disk (List String) × Reply
twice = upload (ctx "two") request once.0

-- The second write replaces the first, whose file is deleted at once and forgotten by the queue.
overwrite_test :
    (map (λ r. r.drive_file_id) twice.0.store.objects ≡ "two" ∷ [])
    × (map (λ r. r.id) twice.0.store.objects ≡ "one" ∷ [])
    × (twice.0.drive ≡ "two" ∷ [])
    × (twice.0.store.pending_cleanup ≡ [])
    × (map (λ r. r.status) twice.0.store.object_staging ≡ committed ∷ committed ∷ [])
unfolding upload transfer streaming_upload fail drain_drive_file_now find_first start
    commit_staged_object ready ready_columns insert_or_update update_first insert_new update_all
    select delete_first lookup put remove enqueue complete_resource
overwrite_test = (refl, refl, refl, refl, refl)

-- A body that fails the caller's check is in Drive, and is queued for deletion.
abbrev refusing : ObjectUploadInput
refusing = record request { verify = λ u. some "BadDigest" }

abbrev refused : Disk (List String) × Reply
refused = upload (ctx "two") refusing once.0

refused_test :
    (refused.1 ≡ thrown (plain_error "BadDigest"))
    × (map (λ r. r.drive_file_id) refused.0.store.objects ≡ "one" ∷ [])
    × (refused.0.drive ≡ "two" ∷ "one" ∷ [])
    × (map (λ r. r.resource_id) refused.0.store.pending_cleanup ≡ "two" ∷ [])
    × (map (λ r. r.status) refused.0.store.object_staging ≡ committed ∷ failed ∷ [])
unfolding upload transfer streaming_upload fail drain_drive_file_now find_first start
    commit_staged_object ready ready_columns insert_or_update update_first insert_new update_all
    select delete_first lookup put remove enqueue complete_resource
refused_test = (refl, refl, refl, refl, refl)

if_absent_test :
    (upload (ctx "two") (record request { if_absent = true }) once.0).1
    ≡ thrown object_already_exists_error
unfolding upload transfer streaming_upload fail drain_drive_file_now find_first start
    commit_staged_object ready ready_columns insert_or_update update_first insert_new update_all
    select delete_first lookup put remove enqueue complete_resource
if_absent_test = refl

sent_two : listed_drive.stores "two" refused.0.drive ≡ true
sent_two = rw refused_test.2 refl

new_two : any (λ r. r.id == "two") once.0.store.object_staging ≡ false
unfolding upload transfer streaming_upload fail drain_drive_file_now find_first start
    commit_staged_object ready ready_columns insert_or_update update_first insert_new update_all
    select delete_first lookup put remove enqueue complete_resource
new_two = refl

unversioned :
    no_clash
      (archives disabled (find_any_by_key "b" "k" once.0.store.objects))
      (find_any_by_key "b" "k" once.0.store.objects)
      once.0.store.object_versions
    ≡ true
unfolding upload transfer streaming_upload fail drain_drive_file_now find_first start
    commit_staged_object ready ready_columns insert_or_update update_first insert_new update_all
    select delete_first lookup put remove enqueue complete_resource
unversioned = refl

not_sent : listed_drive.stores "two" once.0.drive ≡ false
unfolding upload transfer streaming_upload fail drain_drive_file_now find_first start
    commit_staged_object ready ready_columns insert_or_update update_first insert_new update_all
    select delete_first lookup put remove enqueue complete_resource
not_sent = refl

left_none :
    left_by_upload listed_drive (upload_input (ctx "two") refusing) "two" once.0.drive ≡ false
unfolding streaming_upload
left_none = refl

upload-Known_example : tracked "two" refused.0.store ≡ true
upload-Known_example =
    upload-Known (ctx "two") refusing once.0 "two" listed_drive-IsDrive new_two unversioned
      left_none (λ h. cc (not_sent, h)) sent_two

abbrev row : ObjectRow
row = record {
  id = "one";
  bucket_id = "b";
  object_key = "k";
  drive_file_id = "one";
  size_bytes = 3;
  content_type = "text/plain";
  etag = "0";
  checksum_sha256 = some "00";
  storage_class = "STANDARD";
  status = active;
  headers = request.headers;
  version_id = units "null";
  lock = no_lock;
  last_modified_at = 7;
  created_at = 7;
  updated_at = 7;
}

abbrev answer : Committed
answer = record { current = some row; previous = none; archived_previous = false }

abbrev result : StreamingUploadResult
result = record { drive_file_id = "one"; size = 3; md5_hex = "0"; sha256_hex = "00" }

returned_test : once.1 ≡ returned answer result
unfolding upload transfer streaming_upload fail drain_drive_file_now find_first start
    commit_staged_object ready ready_columns insert_or_update update_first insert_new update_all
    select delete_first lookup put remove enqueue complete_resource
returned_test = refl

upload-IsStored_example : IsStored (ctx "one") request empty once.0 answer result
upload-IsStored_example = upload-IsStored (ctx "one") request empty answer result refl returned_test

upload-Spared_example : Spared (ctx "two") refusing once.0 refused.0
upload-Spared_example =
    upload-Spared (ctx "two") refusing once.0 (plain_error "BadDigest") refused_test.0
