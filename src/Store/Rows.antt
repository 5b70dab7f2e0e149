-- ===== src/Store/Rows.antt =====
-- The rows of the tables behind an object, and the tables together.
-- A timestamp is a number, as ISO dates of one width sort like the moments; a version id is a
-- list of code units, which SQLite orders. The columns that every copy of an object carries
-- unread are one record, and so are those of its encryption.
use gdrive_s.Base.{ℕ, String, Bool, true, false, Option, List, Text, Dict, Key, ◌↔◌, ◌≡◌}
use gdrive_s.ObjectLock.{LockState}

pub record Headers : Type 0 where
  pub metadata_json : String
  pub cache_control : Option String
  pub content_disposition : Option String
  pub content_encoding : Option String
  pub content_language : Option String
  pub expires_at : Option String
  pub acl : String

pub record Sse : Type 0 where
  pub sse_algorithm : Option String
  pub kms_key_id : Option String
  pub kms_key_version : Option ℕ
  pub wrapped_data_key : Option String
  pub iv : Option String
  pub customer_key_md5 : Option String

pub data ObjectStatus : Type 0 where
  active missing externally_modified deleting error : ObjectStatus

pub record ObjectRow : Type 0 where
  pub id : String
  pub bucket_id : String
  pub object_key : String
  pub drive_file_id : String
  pub size_bytes : ℕ
  pub content_type : String
  pub etag : String
  pub checksum_sha256 : Option String
  pub storage_class : String
  pub status : ObjectStatus
  pub headers : Headers
  pub version_id : Text
  pub lock : LockState
  pub last_modified_at : ℕ
  pub created_at : ℕ
  pub updated_at : ℕ

pub record ObjectVersionRow : Type 0 where
  pub id : String
  pub bucket_id : String
  pub object_key : String
  pub version_id : Text
  pub drive_file_id : Option String
  pub size_bytes : ℕ
  pub content_type : String
  pub etag : Option String
  pub checksum_sha256 : Option String
  pub storage_class : String
  pub headers : Headers
  pub is_delete_marker : ℕ
  pub is_latest : ℕ
  pub sse : Sse
  pub lock : LockState
  pub last_modified_at : ℕ
  pub created_at : ℕ

pub data StagingStatus : Type 0 where
  uploading uploaded committed failed : StagingStatus

pub record StagingRow : Type 0 where
  pub id : String
  pub request_id : String
  pub user_id : String
  pub bucket_id : String
  pub object_key : String
  pub object_id : String
  pub new_drive_file_id : Option String
  pub old_drive_file_id : Option String
  pub size_bytes : Option ℕ
  pub etag : Option String
  pub checksum_sha256 : Option String
  pub content_type : Option String
  pub headers : Headers
  pub sse : Sse
  pub lock : LockState
  pub status : StagingStatus
  pub last_error : Option String
  pub created_at : ℕ
  pub updated_at : ℕ
  pub drive_target_id : Option String

pub data CleanupResourceType : Type 0 where
  drive_file temp_file : CleanupResourceType

pub record PendingCleanupRow : Type 0 where
  pub id : String
  pub user_id : String
  pub resource_type : CleanupResourceType
  pub resource_id : String
  pub reason : String
  pub attempts : ℕ
  pub next_attempt_at : ℕ
  pub last_error : Option String
  pub created_at : ℕ
  pub drive_target_id : Option String

-- `bucket_owners` is the column `user_id` of `buckets`; `object_encryption` maps an object's id.
pub record Store : Type 0 where
  pub objects : List ObjectRow
  pub object_versions : List ObjectVersionRow
  pub object_staging : List StagingRow
  pub pending_cleanup : List PendingCleanupRow
  pub object_encryption : Dict String Sse
  pub bucket_owners : Dict String String

pub data Versioning : Type 0 where
  disabled enabled suspended : Versioning

abbrev pub is_active : ObjectStatus → Bool
is_active active = true
is_active _ = false

-- `status IN ('uploading', 'uploaded')`
abbrev pub is_open : StagingStatus → Bool
is_open uploading = true
is_open uploaded = true
is_open _ = false

abbrev pub is_uploaded : StagingStatus → Bool
is_uploaded uploaded = true
is_uploaded _ = false

abbrev pub is_uploading : StagingStatus → Bool
is_uploading uploading = true
is_uploading _ = false

abbrev same_type : CleanupResourceType → CleanupResourceType → Bool
same_type drive_file drive_file = true
same_type temp_file temp_file = true
same_type _ _ = false

pub same_type_iff : (a b : CleanupResourceType) → (same_type a b ≡ true) ↔ (a ≡ b)
same_type_iff drive_file drive_file = (λ h. cc, λ h. cc)
same_type_iff drive_file temp_file = (λ h. cc, λ h. cc)
same_type_iff temp_file drive_file = (λ h. cc, λ h. cc)
same_type_iff temp_file temp_file = (λ h. cc, λ h. cc)

instance abbrev pub resource_type_key : Key CleanupResourceType
resource_type_key = record { test = same_type; test_iff = same_type_iff }
