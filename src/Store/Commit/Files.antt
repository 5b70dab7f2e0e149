-- ===== src/Store/Commit/Files.antt =====
-- What happens to Drive files in the transactions of Store/Commit.
use gdrive_s.Base.{
  ◌≡◌, refl, ap, ◌∙◌, sym, String, Bool, true, false, not, ◌&&◌, ◌||◌, Option, none, some, arith,
  any, List, ◌==◌, text_key, holds,
}
use gdrive_s.Store.Table.{
  test_of, any-old, any-upsert, any-insert_new, any-append_row, any-update_all, any-update_first,
  any-found,
}
use gdrive_s.Store.Rows.{
  Store, StagingRow, ObjectRow, ObjectVersionRow, is_uploaded, is_open, StagingStatus, uploading,
  uploaded, committed, failed,
}
use gdrive_s.Store.Commit.{
  Ready, Fresh, CommitOptions, Committed, done, commit_staged_object, commit_tables, archives,
  archive_previous, queue_previous, promoted, replaced, queue_row, null_of,
}
use gdrive_s.Store.Commit.Inversion.{IsReady, commit_staged_object-IsCommit}
use gdrive_s.Store.Objects.{at_key, find_any_by_key}
use gdrive_s.Store.Versions.{at_version, of_key}
use gdrive_s.Store.Tracked.{tracked, object_with, version_with, queued_with, open_with}
use gdrive_s.Store.Staging

-- No archived version has the version id of the row that a write replaces and retains.
abbrev pub no_clash : Bool → Option ObjectRow → List ObjectVersionRow → Bool
no_clash retains none t = true
no_clash retains (some previous) t =
    not retains
    || not (any (at_version previous.bucket_id previous.object_key previous.version_id) t)

archive_previous-any :
    (file : String) (retains : Bool) (previous : Option ObjectRow) (s : Store) (fresh : Fresh)
    → no_clash retains previous s.object_versions ≡ true
    → any (version_with file) (archive_previous retains previous s fresh) ≡ (
        any (version_with file) s.object_versions
        || (retains && test_of (object_with file) previous))
archive_previous-any file retains none s fresh h = ground arith
archive_previous-any file false (some previous) s fresh h = ground arith
archive_previous-any file true (some previous) s fresh h =
    any-insert_new _ _ _ s.object_versions (ground arith)

queue_previous-any :
    (file : String) (retains : Bool) (previous : Option ObjectRow) (staging : Ready) (fresh : Fresh)
    (s : Store)
    → any (queued_with file) (queue_previous retains previous staging fresh s.pending_cleanup) ≡ (
        any (queued_with file) s.pending_cleanup
        || (not retains
            && test_of
                (λ r. not (r.drive_file_id == staging.drive_file_id) && object_with file r)
                previous))
queue_previous-any file retains none staging fresh s = ground arith
queue_previous-any file retains (some previous) staging fresh s = ground (
  arith,
  any-append_row (queued_with file)
      (queue_row staging.row.user_id previous.drive_file_id "object_overwrite_old_file"
        staging.row.drive_target_id fresh)
      s.pending_cleanup,
)

-- The file of the row that is replaced is archived, queued, or that of the new row.
previous-covered :
    (file : String) (retains : Bool) (previous : Option ObjectRow) (new : String)
    → test_of (object_with file) previous ≡ true
    → ((retains && test_of (object_with file) previous)
        || (not retains
            && test_of (λ r. not (r.drive_file_id == new) && object_with file r) previous)
        || (new == file))
      ≡ true
previous-covered file retains none new h = cc
previous-covered file retains (some previous) new h = ground (
  arith,
  text_key.test_iff previous.drive_file_id new,
  text_key.test_iff previous.drive_file_id file,
  text_key.test_iff new file,
)

uploaded-is_open : (status : StagingStatus) → is_uploaded status ≡ true → is_open status ≡ true
uploaded-is_open uploaded h = refl
uploaded-is_open uploading h = cc
uploaded-is_open committed h = cc
uploaded-is_open failed h = cc

open_with-ready :
    (file : String) (o : Option StagingRow) (staging : Ready)
    → IsReady o staging
    → open_with file staging.row ≡ (staging.drive_file_id == file)
open_with-ready file o staging is_ready =
    let same = ap (λ column. holds column file) is_ready.file in
    ground (arith, uploaded-is_open staging.row.status is_ready.status)

commit_tables-tracked :
    (id file : String) (staging : Ready) (previous : Option ObjectRow) (options : CommitOptions)
    (fresh : Fresh) (s : Store)
    → IsReady (Staging.by_id id s.object_staging) staging
    → find_any_by_key staging.row.bucket_id staging.row.object_key s.objects ≡ previous
    → no_clash (archives options.versioning previous) previous s.object_versions ≡ true
    → tracked file s ≡ true
    → tracked file (commit_tables staging previous options fresh s) ≡ true
commit_tables-tracked id file staging previous options fresh s is_ready there clash h =
    let row = staging.row in
    let p = at_key row.bucket_id row.object_key in
    let retains = archives options.versioning previous in
    let next = promoted staging previous (null_of options.version_id) fresh.now in
    let own = Staging.by_id-own id s.object_staging row is_ready.found in
    ground (
      arith,
      any-old p (object_with file) s.objects,
      ap (test_of (object_with file)) there,
      any-upsert p (object_with file) (staging.drive_file_id == file) next (replaced next) s.objects
          refl (λ r. refl),
      any-update_all (of_key row.bucket_id row.object_key) (version_with file)
          (λ r. record r { is_latest = 0 }) (λ r. refl) (archive_previous retains previous s fresh),
      archive_previous-any file retains previous s fresh clash,
      queue_previous-any file retains previous staging fresh s,
      previous-covered file retains previous staging.drive_file_id,
      open_with-ready file _ staging is_ready,
      any-found (λ r. r.id == row.id) (open_with file) s.object_staging row own,
      any-update_first (λ r. r.id == row.id) (open_with file)
          (λ r. record r { status = committed; last_error = none; updated_at = fresh.now })
          s.object_staging row own,
    )

-- A commit loses no Drive file: when no archived version has the version id of the row that is
-- retained, each file that an object, a version, the queue or an open staging row referred to
-- before the commit is still referred to after it.
pub commit_staged_object-tracked :
    (id file : String) (options : CommitOptions) (fresh : Fresh) (s after : Store)
    (answer : Committed)
    → commit_staged_object id options fresh s ≡ done answer after
    → no_clash answer.archived_previous answer.previous s.object_versions ≡ true
    → tracked file s ≡ true
    → tracked file after ≡ true
commit_staged_object-tracked id file options fresh s after answer h clash known =
    let c = commit_staged_object-IsCommit id options fresh s after answer h in
    ap (tracked file) (sym c.tables)
    ∙ commit_tables-tracked id file c.staging answer.previous options fresh s c.is_ready c.previous
        (ap (λ b. no_clash b answer.previous s.object_versions) c.archived ∙ clash) known
