-- ===== src/Store/Commit/Published.antt =====
-- What a commit leaves behind: the current row, the staging row and the version retained.
use mathlib.Core.Option
use gdrive_s.Base.{◌≡◌, refl, ap, ◌∙◌, sym, String, Option, none, some, ◌==◌, text_key}
use gdrive_s.Store.Table.{find_first, update_first, find_first-update}
use gdrive_s.Store.Table.Found.{find_first-upsert, upserted_row}
use gdrive_s.Store.Rows.{Store, StagingRow, ObjectRow, active, committed}
use gdrive_s.Store.Staging
use gdrive_s.Store.Commit.{
  Fresh, CommitOptions, Committed, done, commit_staged_object, promoted, replaced, null_of,
}
use gdrive_s.Store.Commit.Inversion.{commit_staged_object-IsCommit}
use gdrive_s.Store.Objects.{at_key, find_by_key, if_active, if_active-active, at_key_self}

-- The row answered has the contents of the staging row, which is now committed.
pub record Published (id : String) (options : CommitOptions) (fresh : Fresh) (s : Store)
    (answer : Committed) (after : Store) : Type 0 where
  pub staged : StagingRow
  pub found : Staging.by_id id s.object_staging ≡ some staged
  pub row : ObjectRow
  pub current : answer.current ≡ some row
  pub stored : find_by_key staged.bucket_id staged.object_key after.objects ≡ some row
  pub file : staged.new_drive_file_id ≡ some row.drive_file_id
  pub size : staged.size_bytes ≡ some row.size_bytes
  pub tag : staged.etag ≡ some row.etag
  pub headers : row.headers ≡ staged.headers
  pub lock : row.lock ≡ staged.lock
  pub version : row.version_id ≡ null_of options.version_id
  pub settled :
      Staging.by_id id after.object_staging
      ≡ some (record staged { status = committed; last_error = none; updated_at = fresh.now })

-- The fields of the row that both branches of the upsert set alike.
row-contents :
    (previous : Option ObjectRow) (next : ObjectRow) (b k : String)
    → next.status ≡ active
    → (let row = upserted_row (at_key b k) previous next (replaced next) in
        (row.drive_file_id ≡ next.drive_file_id)
        × (row.size_bytes ≡ next.size_bytes)
        × (row.etag ≡ next.etag)
        × (row.headers ≡ next.headers)
        × (row.lock ≡ next.lock)
        × (row.version_id ≡ next.version_id)
        × (row.status ≡ next.status))
row-contents none next b k h = (refl, refl, refl, refl, refl, refl, refl)
row-contents (some r) next b k h = (refl, refl, refl, refl, refl, refl, refl)

settle :
    (id : String) (r : StagingRow) (fresh : Fresh) (s : Store)
    → Staging.by_id id s.object_staging ≡ some r
    → some (record r { status = committed; last_error = none; updated_at = fresh.now })
      ≡ Staging.by_id id (
          update_first
            (λ x. x.id == r.id)
            (λ x. record x { status = committed; last_error = none; updated_at = fresh.now })
            s.object_staging)
settle id r fresh s h =
    let change : StagingRow → StagingRow =
      λ x. record x { status = committed; last_error = none; updated_at = fresh.now } in
    sym (
      ap (λ k. Staging.by_id id (update_first (λ x. x.id == k) change s.object_staging))
        (Staging.by_id-eq id s.object_staging r h)
      ∙ find_first-update (λ x. x.id == id) change (λ x. refl) s.object_staging
      ∙ ap (Option.map change) h)

-- A commit that answers publishes what was staged: the key now resolves to a row with the file,
-- the size, the ETag, the headers and the lock of the staging row and with the version id asked
-- for, the answer is that row, and the staging row is committed.
pub commit_staged_object-Published :
    (id : String) (options : CommitOptions) (fresh : Fresh) (s after : Store) (answer : Committed)
    → commit_staged_object id options fresh s ≡ done answer after
    → Published id options fresh s answer after
commit_staged_object-Published id options fresh s after answer h =
    let c = commit_staged_object-IsCommit id options fresh s after answer h in
    let staging = c.staging in
    let p = at_key staging.row.bucket_id staging.row.object_key in
    let next = promoted staging answer.previous (null_of options.version_id) fresh.now in
    let row = upserted_row p (find_first p s.objects) next (replaced next) in
    let parts =
      row-contents (find_first p s.objects) next staging.row.bucket_id staging.row.object_key
        refl in
    let stored : find_by_key staging.row.bucket_id staging.row.object_key after.objects ≡ some row =
      ap (λ t. find_by_key staging.row.bucket_id staging.row.object_key t.objects) (sym c.tables)
      ∙ ap if_active (
          find_first-upsert p next (replaced next) (at_key_self next.bucket_id next.object_key)
            (λ r. refl) s.objects)
      ∙ if_active-active row parts.6 in
    record {
      staged = staging.row;
      found = c.is_ready.found;
      row = row;
      current = c.current ∙ stored;
      stored = stored;
      file = c.is_ready.file ∙ ap some (sym parts.0);
      size = c.is_ready.size ∙ ap some (sym parts.1);
      tag = c.is_ready.tag ∙ ap some (sym parts.2);
      headers = parts.3;
      lock = parts.4;
      version = parts.5;
      settled =
          ap (λ t. Staging.by_id id t.object_staging) (sym c.tables)
          ∙ sym (settle id staging.row fresh s c.is_ready.found);
    }
