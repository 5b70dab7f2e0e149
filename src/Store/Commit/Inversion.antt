-- ===== src/Store/Commit/Inversion.antt =====
-- The staging rows that may be committed.
use gdrive_s.Base.{
  ◌≡◌, ◌≢◌, if◌then◌else◌, refl, ap, ◌∙◌, sym, ◌&&◌, is_some, String, ℕ, Bool, true, false, Option,
  none, some, inl, inr, Bool-cases, Option-cases, arith,
}
use mathlib.Core.Option.{some-injective}
use gdrive_s.Store.Rows.{Store, StagingRow, is_uploaded}
use gdrive_s.Store.Commit.{
  Ready, ready, ready_columns, non_empty, Fresh, CommitOptions, Committed, done, not_ready,
  object_key_conflict, commit_ready, commit_staged_object, commit_tables, archives,
}
use gdrive_s.Store.Objects.{find_any_by_key, find_by_key}
use gdrive_s.Store.Staging

-- Every column that a commit takes from a row is the row's, and is not empty.
pub record IsReady (o : Option StagingRow) (staging : Ready) : Type 0 where
  pub found : o ≡ some staging.row
  pub status : is_uploaded staging.row.status ≡ true
  pub file : staging.row.new_drive_file_id ≡ some staging.drive_file_id
  pub size : staging.row.size_bytes ≡ some staging.size_bytes
  pub tag : staging.row.etag ≡ some staging.etag

ready_columns-eq :
    (r : StagingRow) (file : Option String) (size : Option ℕ) (tag kind : Option String)
    (staging : Ready)
    → ready_columns r file size tag kind ≡ some staging
    → (staging.row ≡ r)
      × (file ≡ some staging.drive_file_id)
      × (size ≡ some staging.size_bytes)
      × (tag ≡ some staging.etag)
unfolding ready_columns
ready_columns-eq r (some f) (some n) (some e) (some k) staging h =
    let same = some-injective _ _ h in
    (
      sym (ap (λ x. x.row) same),
      ap (λ x. some x.drive_file_id) same,
      ap (λ x. some x.size_bytes) same,
      ap (λ x. some x.etag) same,
    )
ready_columns-eq r none n e k staging h = cc
ready_columns-eq r (some f) none e k staging h = cc
ready_columns-eq r (some f) (some n) none k staging h = cc
ready_columns-eq r (some f) (some n) (some e) none staging h = cc

non_empty-some : (o : Option String) (s : String) → non_empty o ≡ some s → o ≡ some s
non_empty-some o s h = ground arith

pub ready-IsReady :
    (o : Option StagingRow) (staging : Ready) → ready o ≡ some staging → IsReady o staging
unfolding ready
ready-IsReady none staging h = cc
ready-IsReady (some r) staging h = elim (Bool-cases (is_uploaded r.status)) [
  | inr e ↦ ground arith
  | inl e ↦
      let columns =
        ready_columns-eq r (non_empty r.new_drive_file_id) r.size_bytes (non_empty r.etag)
          (non_empty r.content_type) staging (ground arith) in
      record {
        found = ap some (sym columns.0);
        status = rw columns.0 e;
        file = rw columns.0 (non_empty-some _ _ columns.1);
        size = rw columns.0 columns.2;
        tag = rw columns.0 (non_empty-some _ _ columns.3);
      }
]

choice-done :
    {A : Type 0} (b : Bool) (x y : A) (s t : Store)
    → (if b then object_key_conflict else done x s) ≡ done y t
    → (b ≡ false) × (x ≡ y) × (s ≡ t)
choice-done true x y s t h = cc
choice-done false x y s t h = (refl, cc, cc)

not_ready-done : {A : Type 0} (x : A) (s : Store) → not_ready ≢ done x s
not_ready-done x s h = cc

-- A commit that succeeded: the row was ready, and the tables are those of `commit_tables`.
pub record IsCommit (id : String) (options : CommitOptions) (fresh : Fresh) (s : Store)
    (answer : Committed) (after : Store) : Type 0 where
  pub staging : Ready
  pub is_ready : IsReady (Staging.by_id id s.object_staging) staging
  pub previous :
      find_any_by_key staging.row.bucket_id staging.row.object_key s.objects ≡ answer.previous
  pub absent : (options.if_absent && is_some answer.previous) ≡ false
  pub archived : archives options.versioning answer.previous ≡ answer.archived_previous
  pub tables : commit_tables staging answer.previous options fresh s ≡ after
  pub current :
      answer.current ≡ find_by_key staging.row.bucket_id staging.row.object_key after.objects

commit_ready-IsCommit :
    (id : String) (options : CommitOptions) (fresh : Fresh) (s after : Store) (answer : Committed)
    (staging : Ready)
    → IsReady (Staging.by_id id s.object_staging) staging
    → commit_ready (some staging) options fresh s ≡ done answer after
    → IsCommit id options fresh s answer after
commit_ready-IsCommit id options fresh s after answer staging is_ready h =
    let parts = choice-done _ _ answer _ after h in
    let previous = ap (λ x. x.previous) parts.1 in
    record {
      staging = staging;
      is_ready = is_ready;
      previous = previous;
      absent = ap (λ o. options.if_absent && is_some o) (sym previous) ∙ parts.0;
      archived =
          ap (archives options.versioning) (sym previous) ∙ ap (λ x. x.archived_previous) parts.1;
      tables = ap (λ o. commit_tables staging o options fresh s) (sym previous) ∙ parts.2;
      current =
          sym (ap (λ x. x.current) parts.1)
          ∙ ap (λ t. find_by_key staging.row.bucket_id staging.row.object_key t.objects) parts.2;
    }

pub commit_staged_object-IsCommit :
    (id : String) (options : CommitOptions) (fresh : Fresh) (s after : Store) (answer : Committed)
    → commit_staged_object id options fresh s ≡ done answer after
    → IsCommit id options fresh s answer after
unfolding commit_staged_object
commit_staged_object-IsCommit id options fresh s after answer h =
    elim (Option-cases (ready (Staging.by_id id s.object_staging))) [
      | inl e ↦
          absurd
            (not_ready-done answer after (ap (λ o. commit_ready o options fresh s) (sym e) ∙ h))
      | inr (staging, e) ↦
          commit_ready-IsCommit id options fresh s after answer staging (ready-IsReady _ staging e)
            (ap (λ o. commit_ready o options fresh s) (sym e) ∙ h)
    ]
