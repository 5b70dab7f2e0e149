-- ===== src/Store/Staging.antt =====
-- db/repositories/object-staging.ts: the durable record of a write in progress.
pub mod Final
use gdrive_s.Base.{
  ◌≡◌, ap, ◌∙◌, ℕ, String, ◌&&◌, Option, none, some, List, [], ◌∷◌, ◌++◌, ltb, ◌==◌, text_key,
  if◌then◌else◌,
}
use gdrive_s.ObjectLock.{LockState}
use gdrive_s.Store.Table.{
  find_first, find_first-IsPicked, update_first, delete_first, select, order_by, limit,
}
use gdrive_s.Store.Rows.{
  StagingRow, uploading, uploaded, committed, failed, Headers, Sse, is_open, is_uploading,
}

-- The optional fields `acl`, `sse` and `lock` with their defaults filled in.
pub record StartStagingInput : Type 0 where
  pub request_id : String
  pub user_id : String
  pub bucket_id : String
  pub object_key : String
  pub content_type : String
  pub headers : Headers
  pub sse : Sse
  pub lock : LockState
  pub old_drive_file_id : Option String
  pub drive_target_id : Option String

pub record MarkUploadedInput : Type 0 where
  pub id : String
  pub drive_file_id : String
  pub size_bytes : ℕ
  pub etag : String
  pub checksum_sha256 : String

-- `id` and `object_id` are drawn at random.
abbrev pub started : StartStagingInput → String → String → ℕ → StagingRow
started input id object_id now = record {
  id = id;
  request_id = input.request_id;
  user_id = input.user_id;
  bucket_id = input.bucket_id;
  object_key = input.object_key;
  object_id = object_id;
  new_drive_file_id = none;
  old_drive_file_id = input.old_drive_file_id;
  size_bytes = none;
  etag = none;
  checksum_sha256 = none;
  content_type = some input.content_type;
  headers = input.headers;
  sse = input.sse;
  lock = input.lock;
  status = uploading;
  last_error = none;
  created_at = now;
  updated_at = now;
  drive_target_id = input.drive_target_id;
}

unfoldable pub start : StartStagingInput → String → String → ℕ → List StagingRow → List StagingRow
start input id object_id now t = t ++ started input id object_id now ∷ []

abbrev pub by_id : String → List StagingRow → Option StagingRow
by_id id t = find_first (λ r. r.id == id) t

-- A row that one of the statements has picked by its id, when the statement also asks for a status.
abbrev pub set_uploaded : MarkUploadedInput → ℕ → StagingRow → StagingRow
set_uploaded input now r =
    if is_uploading r.status
    then record r {
      status = uploaded;
      new_drive_file_id = some input.drive_file_id;
      size_bytes = some input.size_bytes;
      etag = some input.etag;
      checksum_sha256 = some input.checksum_sha256;
      updated_at = now;
    }
    else r

abbrev pub set_failed : String → ℕ → StagingRow → StagingRow
set_failed error now r =
    if is_open r.status
    then record r { status = failed; last_error = some error; updated_at = now }
    else r

abbrev pub set_committed : ℕ → StagingRow → StagingRow
set_committed now r =
    if is_open r.status
    then record r { status = committed; last_error = none; updated_at = now }
    else r

abbrev pub mark_uploaded : MarkUploadedInput → ℕ → List StagingRow → List StagingRow
mark_uploaded input now t = update_first (λ r. r.id == input.id) (set_uploaded input now) t

abbrev pub mark_failed : String → String → ℕ → List StagingRow → List StagingRow
mark_failed id error now t = update_first (λ r. r.id == id) (set_failed error now) t

abbrev pub mark_committed : String → ℕ → List StagingRow → List StagingRow
mark_committed id now t = update_first (λ r. r.id == id) (set_committed now) t

unfoldable pub list_stale : ℕ → ℕ → List StagingRow → List StagingRow
list_stale cutoff size t = limit size (
    order_by (λ a b. ltb a.updated_at b.updated_at)
      (select (λ r. is_open r.status && ltb r.updated_at cutoff) t))

abbrev pub delete : String → List StagingRow → List StagingRow
delete id t = delete_first (λ r. r.id == id) t

pub by_id-eq :
    (id : String) (t : List StagingRow) (r : StagingRow) → by_id id t ≡ some r → r.id ≡ id
by_id-eq id t r h = (text_key.test_iff r.id id).0 (find_first-IsPicked _ t r h)

-- A row that is found by an id is found by its own.
pub by_id-own :
    (id : String) (t : List StagingRow) (r : StagingRow)
    → by_id id t ≡ some r
    → by_id r.id t ≡ some r
by_id-own id t r h = ap (λ k. by_id k t) (by_id-eq id t r h) ∙ h
