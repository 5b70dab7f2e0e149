-- ===== src/Store/Objects.antt =====
-- db/repositories/objects.ts: the current version of every key.
use gdrive_s.Base.{
  ◌≡◌, refl, ap, ==_refl, arith, All, ℕ, String, Bool, true, false, ◌&&◌, Option, none, some, List,
  ◌==◌, text_key, if◌then◌else◌, Text, Dict, lookup, holds,
}
use gdrive_s.ObjectLock.{LockState}
use gdrive_s.Store.Table.{find_first, delete_first, insert_or_update, any_changed}
use gdrive_s.Store.Rows.{ObjectRow, ObjectStatus, active, Headers, is_active}

pub record UpsertObjectInput : Type 0 where
  pub bucket_id : String
  pub object_key : String
  pub drive_file_id : String
  pub size_bytes : ℕ
  pub content_type : String
  pub etag : String
  pub checksum_sha256 : Option String
  pub headers : Headers
  pub version_id : Text

-- The unique key of the table.
abbrev pub at_key : String → String → ObjectRow → Bool
at_key bucket_id object_key r = (r.bucket_id == bucket_id) && (r.object_key == object_key)

abbrev pub find_any_by_key : String → String → List ObjectRow → Option ObjectRow
find_any_by_key bucket_id object_key t = find_first (at_key bucket_id object_key) t

abbrev pub if_active : Option ObjectRow → Option ObjectRow
if_active none = none
if_active (some r) = if is_active r.status then some r else none

-- A unique key picks the row; the test of its status comes after.
abbrev pub find_by_key : String → String → List ObjectRow → Option ObjectRow
find_by_key bucket_id object_key t = if_active (find_any_by_key bucket_id object_key t)

abbrev pub in_bucket : String → Option ObjectRow → Option ObjectRow
in_bucket bucket_id none = none
in_bucket bucket_id (some r) =
    if (r.bucket_id == bucket_id) && is_active r.status then some r else none

unfoldable pub find_active_by_id_in_bucket : String → String → List ObjectRow → Option ObjectRow
find_active_by_id_in_bucket bucket_id object_id t =
    in_bucket bucket_id (find_first (λ r. r.id == object_id) t)

-- No lock column is written: an inserted row has the columns' defaults, an updated one keeps its
-- own.
abbrev pub no_lock : LockState
no_lock = record { lock_mode = none; retain_until = none; legal_hold = 0 }

abbrev pub id_of : Option ObjectRow → String → String
id_of none fresh = fresh
id_of (some r) fresh = r.id

abbrev pub created_of : Option ObjectRow → ℕ → ℕ
created_of none now = now
created_of (some r) now = r.created_at

abbrev pub upserted : UpsertObjectInput → String → ℕ → ℕ → ObjectRow
upserted input id created now = record {
  id = id;
  bucket_id = input.bucket_id;
  object_key = input.object_key;
  drive_file_id = input.drive_file_id;
  size_bytes = input.size_bytes;
  content_type = input.content_type;
  etag = input.etag;
  checksum_sha256 = input.checksum_sha256;
  storage_class = "STANDARD";
  status = active;
  headers = input.headers;
  version_id = input.version_id;
  lock = no_lock;
  last_modified_at = now;
  created_at = created;
  updated_at = now;
}

-- `DO UPDATE SET`: the columns id, storage_class, created_at and those of the lock stay.
abbrev pub overwritten : ObjectRow → ObjectRow → ObjectRow
overwritten next r = record next {
  id = r.id;
  bucket_id = r.bucket_id;
  object_key = r.object_key;
  storage_class = r.storage_class;
  lock = r.lock;
  created_at = r.created_at;
}

-- The table after it; the method also answers what `find_by_key` finds before and after.
unfoldable pub upsert : UpsertObjectInput → String → ℕ → List ObjectRow → List ObjectRow
upsert input fresh now t =
    let previous = find_by_key input.bucket_id input.object_key t in
    let next = upserted input (id_of previous fresh) (created_of previous now) now in
    insert_or_update (at_key input.bucket_id input.object_key) next (overwritten next) t

abbrev delete_existing :
    Option ObjectRow → String → String → List ObjectRow → Option ObjectRow × List ObjectRow
delete_existing none bucket_id object_key t = (none, t)
delete_existing (some existing) bucket_id object_key t =
    (some existing, delete_first (at_key bucket_id object_key) t)

-- The row that was there, and the table after it.
unfoldable pub delete_by_key : String → String → List ObjectRow → Option ObjectRow × List ObjectRow
delete_by_key bucket_id object_key t =
    delete_existing (find_by_key bucket_id object_key t) bucket_id object_key t

-- `mark_status`: whether a row changed, and the table. `owners` is `buckets.user_id`.
abbrev owned : Dict String String → String → ObjectRow → Bool
owned owners user_id r = holds (lookup r.bucket_id owners) user_id

unfoldable pub mark_status :
    Dict String String → String → String → ObjectStatus → ℕ → List ObjectRow → Bool × List ObjectRow
mark_status owners user_id object_id status now t =
    any_changed (λ r. (r.id == object_id) && owned owners user_id r)
      (λ r. record r { status = status; updated_at = now }) t

-- The fields that are given; null is a value, so a mode may be `some none`.
pub record SetLockInput : Type 0 where
  pub lock_mode : Option (Option String)
  pub retain_until : Option String
  pub legal_hold : Option Bool

abbrev pub set_mode : SetLockInput → LockState → LockState
set_mode input state = elim (input.lock_mode) [
  | none ↦ state
  | some mode ↦ record state { lock_mode = mode; retain_until = input.retain_until }
]

abbrev pub set_hold : SetLockInput → LockState → LockState
set_hold input state = elim (input.legal_hold) [
  | none ↦ state
  | some hold ↦ record state { legal_hold = if hold then 1 else 0 }
]

abbrev pub nothing_set : SetLockInput → Bool
nothing_set input = elim (input.lock_mode) [
  | some mode ↦ false
  | none ↦ elim (input.legal_hold) [ none ↦ true | some hold ↦ false ]
]

unfoldable pub set_lock :
    String → String → SetLockInput → ℕ → List ObjectRow → Bool × List ObjectRow
set_lock bucket_id object_key input now t =
    if nothing_set input
    then (false, t)
    else any_changed (λ r. at_key bucket_id object_key r && is_active r.status)
        (λ r. record r { lock = set_hold input (set_mode input r.lock); updated_at = now }) t

unfoldable pub set_acl : String → String → String → ℕ → List ObjectRow → Bool × List ObjectRow
set_acl bucket_id object_key acl now t =
    any_changed (λ r. at_key bucket_id object_key r && is_active r.status)
      (λ r. record r { headers = record r.headers { acl = acl }; updated_at = now }) t

pub if_active-active : (r : ObjectRow) → r.status ≡ active → if_active (some r) ≡ some r
if_active-active r h = rw h refl

pub if_active-some : (o : Option ObjectRow) (r : ObjectRow) → if_active o ≡ some r → o ≡ some r
if_active-some none r h = cc
if_active-some (some x) r h = ground arith

pub delete_by_key-eq :
    (b k : String) (t : List ObjectRow) (r : ObjectRow)
    → find_by_key b k t ≡ some r
    → (delete_by_key b k t).1 ≡ delete_first (at_key b k) t
unfolding delete_by_key
delete_by_key-eq b k t r h = ap (λ o. (delete_existing o b k t).1) h

pub at_key_self : (b k : String) → ((b == b) && (k == k)) ≡ true
at_key_self b k = ground (arith, ==_refl b, ==_refl k)

-- No two rows share a bucket and a key: each is the one that they find.
abbrev pub HasUniqueKeys : List ObjectRow → Type 0
HasUniqueKeys t = All (λ r. find_any_by_key r.bucket_id r.object_key t ≡ some r) t
