-- ===== src/Store/Recovery/Files.antt =====
-- The recovery of staged writes loses no file.
use mathlib.Core.Option
use mathlib.Core.Option.{some-injective}
use gdrive_s.Base.{
  ◌≡◌, ◌≢◌, refl, ap, ◌∙◌, sym, ℕ, ◌+◌, String, true, false, Option, none, some, List, [], ◌∷◌,
  text_key, arith, any, Bool-cases, inl, inr, All, All-map, truthy,
}
use gdrive_s.Store.Table.{test_of, any-old}
use gdrive_s.Store.Table.Select.{All-page}
use gdrive_s.Store.Rows.{Store, StagingRow, ObjectRow, resource_type_key}
use gdrive_s.Store.Staging.{
  by_id, list_stale, set_failed, set_committed, mark_failed, mark_committed,
}
use gdrive_s.Store.Objects.{at_key, find_any_by_key, find_by_key, if_active}
use gdrive_s.Store.Cleanup.{enqueue}
use gdrive_s.Store.Cleanup.Enqueue.{enqueue-any}
use gdrive_s.Store.Tracked.{tracked, object_with, open_with}
use gdrive_s.Store.Recovery.Closing.{recover_row-Closes, staged_file, staged_file-update}
use gdrive_s.Store.Recovery.{
  RecoveryResult, recover_row, recover_rows, recover_stale_staging, nothing_recovered, holds_file,
  settle_file, settle_column, fail_row, stale_file, stale_file,
}
use gdrive_s.Store.Recovery.Rows.{Fits, set_failed-closed, set_committed-closed, close-open}

active-any :
    (file : String) (o : Option ObjectRow)
    → holds_file (if_active o) file ≡ true
    → test_of (object_with file) o ≡ true
active-any file none h = cc
active-any file (some r) h = ground arith

holds_file-any :
    (file : String) (b k : String) (t : List ObjectRow)
    → holds_file (find_by_key b k t) file ≡ true
    → any (object_with file) t ≡ true
holds_file-any file b k t h =
    ground
      (arith, active-any file (find_any_by_key b k t) h, any-old (at_key b k) (object_with file) t)

same_column : {o : Option String} {a b : String} → some a ≡ o → o ≡ some b → a ≡ b
same_column there other = some-injective _ _ (there ∙ other)

unnamed : (a b : String) → truthy (some a) ≡ false → truthy (some b) ≡ true → a ≢ b
unnamed a b empty named same = cc

-- What is done with a row, once its column is known.
fail_row-tracked :
    (file : String) (row : StagingRow) (now : ℕ) (s : Store) (result : RecoveryResult)
    → Fits s.object_staging row
    → row.new_drive_file_id ≢ some file
    → tracked file s ≡ true
    → tracked file (fail_row row now s result).1 ≡ true
fail_row-tracked file row now s result fits other h =
    let closes = set_failed-closed file "stale upload without Drive file" now in
    elim (Bool-cases (any (open_with file) s.object_staging)) [
      | inr e ↦ ground arith
      | inl e ↦
          elim (close-open file row (set_failed "stale upload without Drive file" now)
            s.object_staging closes fits e) [
              | inl still ↦ ground arith
              | inr own ↦ absurd (other own)
            ]
    ]

finalize-tracked :
    (file : String) (row : StagingRow) (now : ℕ) (s : Store)
    → Fits s.object_staging row
    → tracked file s ≡ true
    → (row.new_drive_file_id ≡ some file → any (object_with file) s.objects ≡ true)
    → tracked file (record s { object_staging = mark_committed row.id now s.object_staging }) ≡ true
finalize-tracked file row now s fits h current =
    elim (Bool-cases (any (open_with file) s.object_staging)) [
      | inr e ↦ ground arith
      | inl e ↦
          elim (close-open file row (set_committed now) s.object_staging
            (set_committed-closed file now) fits e) [
              | inl still ↦ ground arith
              | inr own ↦ ground (arith, current own)
            ]
    ]

orphan-tracked :
    (file : String) (row : StagingRow) (column fresh : String) (now : ℕ) (s : Store)
    → Fits s.object_staging row
    → tracked file s ≡ true
    → (row.new_drive_file_id ≡ some file → column ≡ file)
    → tracked file (record s {
      pending_cleanup = enqueue (stale_file row column) fresh now s.pending_cleanup;
      object_staging = mark_failed row.id "stale uploaded object orphaned" now s.object_staging;
    })
      ≡ true
orphan-tracked file row column fresh now s fits h own_file =
    let queued = enqueue-any file (stale_file row column) fresh now s.pending_cleanup in
    elim (Bool-cases (any (open_with file) s.object_staging)) [
      | inr e ↦ ground arith
      | inl e ↦
          elim (close-open file row (set_failed "stale uploaded object orphaned" now)
            s.object_staging (set_failed-closed file "stale uploaded object orphaned" now) fits e) [
              | inl still ↦ ground arith
              | inr own ↦ ground (arith, (text_key.test_iff column file).1 (own_file own))
            ]
    ]

settle_file-tracked :
    (file : String) (row : StagingRow) (column fresh : String) (now : ℕ) (s : Store)
    (result : RecoveryResult)
    → Fits s.object_staging row
    → row.new_drive_file_id ≡ some column
    → tracked file s ≡ true
    → tracked file (settle_file row column fresh now s result).1 ≡ true
settle_file-tracked file row column fresh now s result fits own h =
    let found = holds_file (find_by_key row.bucket_id row.object_key s.objects) column in
    elim (Bool-cases found) [
      | inl e ↦ rw e (
          finalize-tracked file row now s fits h (λ same.
            holds_file-any file row.bucket_id row.object_key s.objects (
              ap (λ x. holds_file (find_by_key row.bucket_id row.object_key s.objects) x)
                (same_column (sym same) own)
              ∙ e)))
      | inr e ↦
          rw e
            (orphan-tracked file row column fresh now s fits h (λ same. same_column (sym own) same))
    ]

settle_column-tracked :
    (file : String) (row : StagingRow) (column : Option String) (fresh : String) (now : ℕ)
    (s : Store) (result : RecoveryResult)
    → truthy (some file) ≡ true
    → Fits s.object_staging row
    → row.new_drive_file_id ≡ column
    → tracked file s ≡ true
    → tracked file (settle_column row column fresh now s result).1 ≡ true
settle_column-tracked file row none fresh now s result named fits own h =
    fail_row-tracked file row now s result fits (λ e. cc) h
settle_column-tracked file row (some column) fresh now s result named fits own h =
    elim (Bool-cases (truthy (some column))) [
      | inl e ↦ rw e (settle_file-tracked file row column fresh now s result fits own h)
      | inr e ↦ rw e (
          fail_row-tracked file row now s result fits
            (λ same. unnamed _ _ e named (same_column (sym own) same)) h)
    ]

recover_row-tracked :
    (file : String) (row : StagingRow) (fresh : String) (now : ℕ) (s : Store)
    (result : RecoveryResult)
    → truthy (some file) ≡ true
    → Fits s.object_staging row
    → tracked file s ≡ true
    → tracked file (recover_row row fresh now s result).1 ≡ true
recover_row-tracked file row fresh now s result named fits h =
    settle_column-tracked file row row.new_drive_file_id fresh now s
      (record result { examined = result.examined + 1 }) named fits refl h

-- A step leaves the file column of every id.
recover_row-Fits :
    (row : StagingRow) (fresh : String) (now : ℕ) (s : Store) (result : RecoveryResult)
    (other : StagingRow)
    → Fits s.object_staging other
    → Fits (recover_row row fresh now s result).1.object_staging other
recover_row-Fits row fresh now s result other fits =
    let step = recover_row-Closes row fresh now s result in
    ap (staged_file other.id) step.table
    ∙ staged_file-update step.change step.is_closing other.id _ s.object_staging
    ∙ fits

recover_rows-tracked :
    (file : String) (fresh : String → String) (now : ℕ) (rows : List StagingRow) (s : Store)
    (result : RecoveryResult)
    → truthy (some file) ≡ true
    → All (Fits s.object_staging) rows
    → tracked file s ≡ true
    → tracked file (recover_rows fresh now rows s result).1 ≡ true
unfolding recover_rows
recover_rows-tracked file fresh now [] s result named fits h = h
recover_rows-tracked file fresh now (row ∷ rows) s result named (here, later) h =
    recover_rows-tracked file fresh now rows _ _ named
      (All-map _ _ (recover_row-Fits row (fresh row.id) now s result) rows later)
      (recover_row-tracked file row (fresh row.id) now s result named here h)

-- No two rows share an id: each is the one that its id finds.
abbrev pub HasUniqueIds : List StagingRow → Type 0
HasUniqueIds t = All (λ r. by_id r.id t ≡ some r) t

-- The recovery at start-up loses no Drive file: when no two staging rows share an id, each named
-- file that an object, a version, the queue or an open staging row referred to before is still
-- referred to after it, whatever the cut-off and the size of the batch.
pub recover_stale_staging-tracked :
    (file : String) (fresh : String → String) (cutoff batch now : ℕ) (s : Store)
    → truthy (some file) ≡ true
    → HasUniqueIds s.object_staging
    → tracked file s ≡ true
    → tracked file (recover_stale_staging fresh cutoff batch now s).1 ≡ true
unfolding recover_stale_staging list_stale
recover_stale_staging-tracked file fresh cutoff batch now s named unique h =
    recover_rows-tracked file fresh now _ s nothing_recovered named
      (All-page (Fits s.object_staging) batch _ _ s.object_staging
        (All-map _ _ (λ r. ap (Option.map (λ x. x.new_drive_file_id))) s.object_staging unique))
      h
