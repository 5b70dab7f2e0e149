-- ===== src/Store/Versions.antt =====
-- db/repositories/object-versions.ts: superseded versions and delete markers.
use gdrive_s.Base.{
  ℕ, String, Bool, true, false, not, ◌&&◌, ◌||◌, Option, none, some, List, [], ◌∷◌, ◌++◌, ◌==◌,
  text_key, units_key, if◌then◌else◌, Text, eqb, ltb, is_none, units, any,
}
use gdrive_s.ObjectLock.{LockState}
use gdrive_s.Store.Table.{
  find_first, update_all, delete_first, insert_new, select, order_by, limit, any_changed,
}
use gdrive_s.Store.Rows.{ObjectRow, ObjectVersionRow, Sse}
use gdrive_s.Store.Objects.{SetLockInput, set_hold, set_mode, nothing_set}

abbrev pub null_version : Text
null_version = units "null"

-- The binary order of SQLite.
unfoldable pub text_ltb : Text → Text → Bool
text_ltb [] [] = false
text_ltb [] (b ∷ t) = true
text_ltb (a ∷ s) [] = false
text_ltb (a ∷ s) (b ∷ t) = ltb a b || (eqb a b && text_ltb s t)

-- The unique key of the table.
abbrev pub at_version : String → String → Text → ObjectVersionRow → Bool
at_version bucket_id object_key version_id r =
    (r.bucket_id == bucket_id) && (r.object_key == object_key) && (r.version_id == version_id)

abbrev pub of_key : String → String → ObjectVersionRow → Bool
of_key bucket_id object_key r = (r.bucket_id == bucket_id) && (r.object_key == object_key)

abbrev pub find : String → String → Text → List ObjectVersionRow → Option ObjectVersionRow
find bucket_id object_key version_id t = find_first (at_version bucket_id object_key version_id) t

unfoldable pub find_latest_delete_marker :
    String → String → List ObjectVersionRow → Option ObjectVersionRow
find_latest_delete_marker bucket_id object_key t =
    find_first (λ r. of_key bucket_id object_key r && eqb r.is_latest 1 && eqb r.is_delete_marker 1)
      t

unfoldable pub list_for_key : String → String → List ObjectVersionRow → List ObjectVersionRow
list_for_key bucket_id object_key t =
    order_by (λ a b. text_ltb a.version_id b.version_id) (select (of_key bucket_id object_key) t)

abbrev pub archived : ObjectRow → Sse → String → ℕ → ObjectVersionRow
archived object encryption id now = record {
  id = id;
  bucket_id = object.bucket_id;
  object_key = object.object_key;
  version_id = object.version_id;
  drive_file_id = some object.drive_file_id;
  size_bytes = object.size_bytes;
  content_type = object.content_type;
  etag = some object.etag;
  checksum_sha256 = object.checksum_sha256;
  storage_class = object.storage_class;
  headers = object.headers;
  is_delete_marker = 0;
  is_latest = 0;
  sse = encryption;
  lock = object.lock;
  last_modified_at = object.last_modified_at;
  created_at = now;
}

-- `INSERT … ON CONFLICT(bucket_id, object_key, version_id) DO NOTHING`
abbrev pub archive : ObjectRow → Sse → String → ℕ → List ObjectVersionRow → List ObjectVersionRow
archive object encryption id now t =
    insert_new (at_version object.bucket_id object.object_key object.version_id)
      (archived object encryption id now) t

-- The columns that the statement leaves out have the defaults of the table.
abbrev pub delete_marker : String → String → Text → String → ℕ → ObjectVersionRow
delete_marker bucket_id object_key version_id id now = record {
  id = id;
  bucket_id = bucket_id;
  object_key = object_key;
  version_id = version_id;
  drive_file_id = none;
  size_bytes = 0;
  content_type = "application/octet-stream";
  etag = none;
  checksum_sha256 = none;
  storage_class = "STANDARD";
  headers = record {
    metadata_json = "{}";
    cache_control = none;
    content_disposition = none;
    content_encoding = none;
    content_language = none;
    expires_at = none;
    acl = "private";
  };
  is_delete_marker = 1;
  is_latest = 1;
  sse = record {
    sse_algorithm = none;
    kms_key_id = none;
    kms_key_version = none;
    wrapped_data_key = none;
    iv = none;
    customer_key_md5 = none;
  };
  lock = record { lock_mode = none; retain_until = none; legal_hold = 0 };
  last_modified_at = now;
  created_at = now;
}

-- A version id that is there breaks the unique key: the statement throws and changes nothing.
unfoldable pub insert_delete_marker :
    String → String → Text → String → ℕ → List ObjectVersionRow → Option (List ObjectVersionRow)
insert_delete_marker bucket_id object_key version_id id now t =
    if any (at_version bucket_id object_key version_id) t
    then none
    else some (t ++ delete_marker bucket_id object_key version_id id now ∷ [])

abbrev pub clear_latest : String → String → List ObjectVersionRow → List ObjectVersionRow
clear_latest bucket_id object_key t =
    update_all (of_key bucket_id object_key) (λ r. record r { is_latest = 0 }) t

abbrev pub delete : String → String → Text → List ObjectVersionRow → List ObjectVersionRow
delete bucket_id object_key version_id t =
    delete_first (at_version bucket_id object_key version_id) t

-- `ORDER BY version_id ASC LIMIT 1`
abbrev first_row : List ObjectVersionRow → Option ObjectVersionRow
first_row [] = none
first_row (r ∷ t) = some r

unfoldable pub newest_version : String → String → List ObjectVersionRow → Option ObjectVersionRow
newest_version bucket_id object_key t = first_row (
    order_by (λ a b. text_ltb a.version_id b.version_id)
      (select (λ r. of_key bucket_id object_key r && eqb r.is_delete_marker 0) t))

-- `earlier` is the order of SQLite on the text of a date, `today` the text of the present.
abbrev prunable : (String → String → Bool) → String → LockState → Bool
prunable earlier today state =
    eqb state.legal_hold 0
    && (is_none state.lock_mode
        || elim (state.retain_until) [ none ↦ true | some date ↦ not (earlier today date) ])

unfoldable pub list_non_current :
    (String → String → Bool) → String → String → ℕ → List ObjectVersionRow → List ObjectVersionRow
list_non_current earlier today bucket_id size t = limit size (
    order_by (λ a b. ltb a.created_at b.created_at)
      (select
        (λ r.
          (r.bucket_id == bucket_id) && eqb r.is_delete_marker 0 && prunable earlier today r.lock)
        t))

unfoldable pub set_lock :
    String → String → Text → SetLockInput → List ObjectVersionRow → Bool × List ObjectVersionRow
set_lock bucket_id object_key version_id input t =
    if nothing_set input
    then (false, t)
    else any_changed (at_version bucket_id object_key version_id)
        (λ r. record r { lock = set_hold input (set_mode input r.lock) }) t
