-- ===== src/Store/Commit.antt =====
-- The transactions of db/repositories/objects.ts that change several tables at once:
-- commitStagedObject and deleteAndQueueCleanup.
pub mod Inversion
pub mod Files
pub mod Published
pub mod Retained
use gdrive_s.Base.{
  ℕ, String, Bool, true, false, not, ◌&&◌, ◌||◌, Option, none, some, List, [], ◌∷◌, ◌++◌, ◌==◌,
  text_key, units_key, if◌then◌else◌, Text, lookup, put, remove, holds, truthy, is_some,
}
use gdrive_s.Store.Table.{update_first, delete_first, insert_or_update}
use gdrive_s.Store.Rows.{
  Store, ObjectRow, ObjectVersionRow, StagingRow, PendingCleanupRow, Versioning, disabled, enabled,
  suspended, Sse, Headers, active, is_uploaded, drive_file, committed,
}
use gdrive_s.Store.Staging
use gdrive_s.Store.Objects.{at_key, find_any_by_key, find_by_key}
use gdrive_s.Store.Versions.{null_version, archive, clear_latest}
use gdrive_s.Store.Cleanup.{queued}

-- An error that rolls the transaction back, or its answer and the tables after it.
pub data Outcome (A : Type 0) : Type 0 where
  not_ready object_key_conflict owner_mismatch : Outcome A
  done : A → Store → Outcome A

pub record CommitOptions : Type 0 where
  pub if_absent : Bool
  pub versioning : Versioning
  pub version_id : Option Text

-- What the environment supplies: random ids and the clock.
pub record Fresh : Type 0 where
  pub version_row : String
  pub cleanup_row : String
  pub now : ℕ

-- The columns that are known not to be null once a staging row is ready.
pub record Ready : Type 0 where
  pub row : StagingRow
  pub drive_file_id : String
  pub size_bytes : ℕ
  pub etag : String
  pub content_type : String

pub record Committed : Type 0 where
  pub current : Option ObjectRow
  pub previous : Option ObjectRow
  pub archived_previous : Bool

abbrev pub non_empty : Option String → Option String
non_empty o = if truthy o then o else none

-- The columns one after the other, each of which may refuse the row.
unfoldable pub ready_columns :
    StagingRow → Option String → Option ℕ → Option String → Option String → Option Ready
ready_columns r (some file) (some size) (some etag) (some content_type) = some (record {
  row = r;
  drive_file_id = file;
  size_bytes = size;
  etag = etag;
  content_type = content_type;
})
ready_columns r _ _ _ _ = none

unfoldable pub ready : Option StagingRow → Option Ready
unfolding ready_columns
ready none = none
ready (some r) =
    if is_uploaded r.status
    then ready_columns r (non_empty r.new_drive_file_id) r.size_bytes (non_empty r.etag)
        (non_empty r.content_type)
    else none

abbrev pub null_of : Option Text → Text
null_of none = null_version
null_of (some v) = v

abbrev pub archives : Versioning → Option ObjectRow → Bool
archives v none = false
archives enabled (some previous) = true
archives suspended (some previous) = not (previous.version_id == null_version)
archives disabled (some previous) = false

abbrev pub id_of : Option ObjectRow → String → String
id_of none object_id = object_id
id_of (some previous) object_id = previous.id

abbrev pub created_of : Option ObjectRow → ℕ → ℕ
created_of none now = now
created_of (some previous) now = previous.created_at

abbrev pub no_sse : Sse
no_sse = record {
  sse_algorithm = none;
  kms_key_id = none;
  kms_key_version = none;
  wrapped_data_key = none;
  iv = none;
  customer_key_md5 = none;
}

abbrev pub sse_of : Option Sse → Sse
sse_of none = no_sse
sse_of (some sse) = sse

abbrev pub promoted : Ready → Option ObjectRow → Text → ℕ → ObjectRow
promoted staging previous version_id now = record {
  id = id_of previous staging.row.object_id;
  bucket_id = staging.row.bucket_id;
  object_key = staging.row.object_key;
  drive_file_id = staging.drive_file_id;
  size_bytes = staging.size_bytes;
  content_type = staging.content_type;
  etag = staging.etag;
  checksum_sha256 = staging.row.checksum_sha256;
  storage_class = "STANDARD";
  status = active;
  headers = staging.row.headers;
  version_id = version_id;
  lock = staging.row.lock;
  last_modified_at = now;
  created_at = created_of previous now;
  updated_at = now;
}

-- `DO UPDATE SET`: the columns id, storage_class and created_at stay.
abbrev pub replaced : ObjectRow → ObjectRow → ObjectRow
replaced next r = record next {
  id = r.id;
  bucket_id = r.bucket_id;
  object_key = r.object_key;
  storage_class = r.storage_class;
  created_at = r.created_at;
}

-- The previous row becomes a version, when it is to be retained.
abbrev pub archive_previous : Bool → Option ObjectRow → Store → Fresh → List ObjectVersionRow
archive_previous retains none s fresh = s.object_versions
archive_previous retains (some previous) s fresh =
    if retains
    then archive previous (sse_of (lookup previous.id s.object_encryption)) fresh.version_row
        fresh.now s.object_versions
    else s.object_versions

abbrev pub queue_row : String → String → String → Option String → Fresh → PendingCleanupRow
queue_row user_id file reason target fresh =
    queued
      (record {
        user_id = user_id;
        resource_type = drive_file;
        resource_id = file;
        reason = reason;
        drive_target_id = target;
      })
      fresh.cleanup_row fresh.now fresh.now

-- The file of the previous row is queued, when the row is not retained and the file is another.
abbrev pub queue_previous :
    Bool → Option ObjectRow → Ready → Fresh → List PendingCleanupRow → List PendingCleanupRow
queue_previous retains none staging fresh t = t
queue_previous retains (some previous) staging fresh t =
    if not retains && not (previous.drive_file_id == staging.drive_file_id)
    then t
      ++ queue_row staging.row.user_id previous.drive_file_id "object_overwrite_old_file"
          staging.row.drive_target_id fresh
        ∷ []
    else t

abbrev pub commit_tables : Ready → Option ObjectRow → CommitOptions → Fresh → Store → Store
commit_tables staging previous options fresh s =
    let retains = archives options.versioning previous in
    let next = promoted staging previous (null_of options.version_id) fresh.now in
    let committed_id = id_of previous staging.row.object_id in
    record s {
      objects =
          insert_or_update (at_key staging.row.bucket_id staging.row.object_key) next
            (replaced next) s.objects;
      object_versions =
          clear_latest staging.row.bucket_id staging.row.object_key
            (archive_previous retains previous s fresh);
      object_encryption =
          if truthy staging.row.sse.sse_algorithm && truthy staging.row.sse.iv
          then put committed_id staging.row.sse s.object_encryption
          else remove committed_id s.object_encryption;
      pending_cleanup = queue_previous retains previous staging fresh s.pending_cleanup;
      object_staging =
          update_first (λ r. r.id == staging.row.id)
            (λ r. record r { status = committed; last_error = none; updated_at = fresh.now })
            s.object_staging;
    }

abbrev pub commit_ready : Option Ready → CommitOptions → Fresh → Store → Outcome Committed
commit_ready none options fresh s = not_ready
commit_ready (some staging) options fresh s =
    let previous = find_any_by_key staging.row.bucket_id staging.row.object_key s.objects in
    let after = commit_tables staging previous options fresh s in
    if options.if_absent && is_some previous
    then object_key_conflict
    else done
        (record {
          current = find_by_key staging.row.bucket_id staging.row.object_key after.objects;
          previous = previous;
          archived_previous = archives options.versioning previous;
        })
        after

unfoldable pub commit_staged_object : String → CommitOptions → Fresh → Store → Outcome Committed
unfolding ready
commit_staged_object staging_id options fresh s =
    commit_ready (ready (Staging.by_id staging_id s.object_staging)) options fresh s
