-- ===== src/Store/Samples.antt =====
-- A small store that the tests run on: a locked object, and two uploads in progress.
use gdrive_s.Base.{String, Option, none, some, [], ◌∷◌, Text, units}
use gdrive_s.ObjectLock.{LockState}
use gdrive_s.Store.Rows.{Store, ObjectRow, StagingRow, Headers, uploaded, active}
use gdrive_s.Store.Commit.{Fresh, no_sse}

abbrev pub headers : Headers
headers = record {
  metadata_json = "{}";
  cache_control = none;
  content_disposition = none;
  content_encoding = none;
  content_language = none;
  expires_at = none;
  acl = "private";
}

abbrev pub unlocked : LockState
unlocked = record { lock_mode = none; retain_until = none; legal_hold = 0 }

abbrev pub held : LockState
held = record { lock_mode = none; retain_until = none; legal_hold = 1 }

abbrev pub object : String → String → Text → LockState → ObjectRow
object id file version lock = record {
  id = id;
  bucket_id = "b";
  object_key = "k";
  drive_file_id = file;
  size_bytes = 3;
  content_type = "text/plain";
  etag = "e1";
  checksum_sha256 = none;
  storage_class = "STANDARD";
  status = active;
  headers = headers;
  version_id = version;
  lock = lock;
  last_modified_at = 1;
  created_at = 1;
  updated_at = 1;
}

abbrev pub staged : String → Option String → StagingRow
staged id file = record {
  id = id;
  request_id = "r";
  user_id = "u";
  bucket_id = "b";
  object_key = "k";
  object_id = "o2";
  new_drive_file_id = file;
  old_drive_file_id = none;
  size_bytes = some 5;
  etag = some "e2";
  checksum_sha256 = none;
  content_type = some "text/plain";
  headers = headers;
  sse = no_sse;
  lock = unlocked;
  status = uploaded;
  last_error = none;
  created_at = 2;
  updated_at = 2;
  drive_target_id = none;
}

abbrev pub v1 : Text
v1 = units "v1"

abbrev pub store : Store
store = record {
  objects = object "o1" "f1" v1 held ∷ [];
  object_versions = [];
  object_staging = staged "s1" (some "f2") ∷ staged "s2" none ∷ [];
  pending_cleanup = [];
  object_encryption = [];
  bucket_owners = ("b", "u") ∷ [];
}

abbrev pub fresh : Fresh
fresh = record { version_row = "ver"; cleanup_row = "cln"; now = 9 }
