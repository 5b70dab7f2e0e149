-- ===== src/Multipart/Samples.antt =====
-- Sample uploads for the tests.
use gdrive_s.Base.{ℕ, String, none, List, [], ◌∷◌, units}
use gdrive_s.Store.Rows.{Store, Sse}
use gdrive_s.Multipart.Parts.{MultipartPartRow}
use gdrive_s.Multipart.Uploads.{MultipartUploadRow, opened}
use gdrive_s.Multipart.World.{World}

abbrev pub part : ℕ → String → MultipartPartRow
part n path = record {
  upload_id = "u";
  part_number = n;
  temp_path = path;
  size_bytes = 8;
  etag = units "e";
  checksum_sha256 = none;
  created_at = 0;
}

abbrev pub upload : Sse → MultipartUploadRow
upload sse = record {
  id = "u";
  bucket_id = "b";
  object_key = "k";
  user_id = "ada";
  content_type = "text/plain";
  metadata_json = "{}";
  status = opened;
  initiated_at = 0;
  expires_at = 900;
  completed_at = none;
  drive_folder_id = none;
  total_parts = none;
  last_error = none;
  drive_target_id = none;
  sse = sse;
}

abbrev pub empty_store : Store
empty_store = record {
  objects = [];
  object_versions = [];
  object_staging = [];
  pending_cleanup = [];
  object_encryption = [];
  bucket_owners = ("b", "ada") ∷ [];
}

abbrev pub world : Sse → World (List String)
world sse = record {
  uploads = upload sse ∷ [];
  parts = part 2 "/tmp/2" ∷ part 1 "/tmp/1" ∷ [];
  store = empty_store;
  drive = [];
}
