-- ===== src/Store/Commit/Retained.antt =====
-- The row that a versioned write replaces.
use mathlib.Core.Option
use gdrive_s.Base.{
  ◌≡◌, refl, ap, ◌∙◌, sym, String, Bool, true, false, some, text_key, units_key, ==_refl, arith,
  any, if◌then◌else◌, lookup,
}
use gdrive_s.Store.Table.{find_first, insert_new, update_all}
use gdrive_s.Store.Table.Found.{find_first-insert_new, find_first-update_all}
use gdrive_s.Store.Rows.{Store, ObjectRow, ObjectVersionRow, Sse}
use gdrive_s.Store.Commit.{
  Fresh, CommitOptions, Committed, done, commit_staged_object, archive_previous, sse_of, archives,
}
use gdrive_s.Store.Commit.Inversion.{commit_staged_object-IsCommit}
use gdrive_s.Store.Commit.Files.{no_clash}
use gdrive_s.Store.Versions
use gdrive_s.Store.Versions.{at_version, of_key, archived, clear_latest}

-- The version keeps the file, the contents, the encryption and the lock of the row.
pub record Retains (s : Store) (previous : ObjectRow) (v : ObjectVersionRow) : Type 0 where
  pub file : v.drive_file_id ≡ some previous.drive_file_id
  pub size : v.size_bytes ≡ previous.size_bytes
  pub tag : v.etag ≡ some previous.etag
  pub headers : v.headers ≡ previous.headers
  pub lock : v.lock ≡ previous.lock
  pub sse : v.sse ≡ sse_of (lookup previous.id s.object_encryption)

archived-Retains :
    (s : Store) (previous : ObjectRow) (fresh : Fresh) (cleared : Bool)
    → (let v =
          archived previous
            (sse_of (lookup previous.id s.object_encryption))
            fresh.version_row
            fresh.now in
        Retains s previous (if cleared then record v { is_latest = 0 } else v))
archived-Retains s previous fresh true = record {
  file = refl;
  size = refl;
  tag = refl;
  headers = refl;
  lock = refl;
  sse = refl;
}
archived-Retains s previous fresh false = record {
  file = refl;
  size = refl;
  tag = refl;
  headers = refl;
  lock = refl;
  sse = refl;
}

at_version-own :
    (r : ObjectRow) (sse : Sse) (fresh : Fresh)
    → at_version r.bucket_id r.object_key r.version_id (archived r sse fresh.version_row fresh.now)
      ≡ true
at_version-own r sse fresh =
    ground (arith, ==_refl r.bucket_id, ==_refl r.object_key, ==_refl r.version_id)

-- With versioning, a commit keeps the row that it replaces: when it says so and no archived
-- version had that row's version id, the key has a version under the id, with the file, the
-- contents, the encryption and the lock that the row had.
pub commit_staged_object-retained :
    (id : String) (options : CommitOptions) (fresh : Fresh) (s after : Store) (answer : Committed)
    (previous : ObjectRow)
    → commit_staged_object id options fresh s ≡ done answer after
    → answer.previous ≡ some previous
    → answer.archived_previous ≡ true
    → no_clash true (some previous) s.object_versions ≡ true
    → (v : ObjectVersionRow) × (Versions.find previous.bucket_id previous.object_key
          previous.version_id after.object_versions
        ≡ some v)
      × Retains s previous v
commit_staged_object-retained id options fresh s after answer previous h there retained clash =
    let c = commit_staged_object-IsCommit id options fresh s after answer h in
    let p = at_version previous.bucket_id previous.object_key previous.version_id in
    let sse = sse_of (lookup previous.id s.object_encryption) in
    let v = archived previous sse fresh.version_row fresh.now in
    let q = of_key c.staging.row.bucket_id c.staging.row.object_key in
    let absent : any p s.object_versions ≡ false = ground arith in
    let kept : archive_previous (archives options.versioning answer.previous) answer.previous s
          fresh
        ≡ insert_new p v s.object_versions =
      ap (λ b. archive_previous b answer.previous s fresh) (c.archived ∙ retained)
      ∙ ap (λ o. archive_previous true o s fresh) there in
    let clear : ObjectVersionRow → ObjectVersionRow = λ r. record r { is_latest = 0 } in
    (
      (if q v then record v { is_latest = 0 } else v),
      ap (λ t. find_first p t.object_versions) (sym c.tables)
          ∙ ap (λ t. find_first p (update_all q clear t)) kept
          ∙ find_first-update_all p q clear (λ r. refl) (insert_new p v s.object_versions)
          ∙ ap (Option.map (λ r. if q r then clear r else r)) (
              find_first-insert_new p v s.object_versions absent
                (at_version-own previous sse fresh)),
      archived-Retains s previous fresh (q v),
    )
