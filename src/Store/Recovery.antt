-- ===== src/Store/Recovery.antt =====
-- jobs/staging-recovery.ts: what start-up does with the writes that a crash cut off.
pub mod Closing
pub mod Rows
pub mod Files
use gdrive_s.Base.{
  ℕ, ◌+◌, String, Bool, true, false, Option, none, some, List, [], ◌∷◌, ◌==◌, text_key,
  if◌then◌else◌, truthy,
}
use gdrive_s.Store.Rows.{Store, StagingRow, ObjectRow, drive_file}
use gdrive_s.Store.Staging.{list_stale, mark_failed, mark_committed}
use gdrive_s.Store.Objects.{find_by_key}
use gdrive_s.Store.Cleanup.{EnqueueInput, enqueue}

pub record RecoveryResult : Type 0 where
  pub examined : ℕ
  pub finalized : ℕ
  pub orphaned : ℕ
  pub failed : ℕ

abbrev pub nothing_recovered : RecoveryResult
nothing_recovered = record { examined = 0; finalized = 0; orphaned = 0; failed = 0 }

abbrev pub holds_file : Option ObjectRow → String → Bool
holds_file none file = false
holds_file (some active) file = active.drive_file_id == file

-- What is done with one row. The queue's row has an id drawn from `fresh`.
abbrev pub fail_row : StagingRow → ℕ → Store → RecoveryResult → RecoveryResult × Store
fail_row row now s result = (
  record result { failed = result.failed + 1 },
  record s {
    object_staging = mark_failed row.id "stale upload without Drive file" now s.object_staging;
  },
)

abbrev pub stale_file : StagingRow → String → EnqueueInput
stale_file row file = record {
  user_id = row.user_id;
  resource_type = drive_file;
  resource_id = file;
  reason = "stale_object_staging";
  drive_target_id = row.drive_target_id;
}

abbrev pub settle_file :
    StagingRow → String → String → ℕ → Store → RecoveryResult → RecoveryResult × Store
settle_file row file fresh now s result =
    if holds_file (find_by_key row.bucket_id row.object_key s.objects) file
    then (
      record result { finalized = result.finalized + 1 },
      record s { object_staging = mark_committed row.id now s.object_staging },
    )
    else (
      record result { orphaned = result.orphaned + 1 },
      record s {
        pending_cleanup = enqueue (stale_file row file) fresh now s.pending_cleanup;
        object_staging = mark_failed row.id "stale uploaded object orphaned" now s.object_staging;
      },
    )

abbrev pub settle_column :
    StagingRow → Option String → String → ℕ → Store → RecoveryResult → RecoveryResult × Store
settle_column row none fresh now s result = fail_row row now s result
settle_column row (some file) fresh now s result =
    if truthy (some file)
    then settle_file row file fresh now s result
    else fail_row row now s result

abbrev pub recover_row : StagingRow → String → ℕ → Store → RecoveryResult → RecoveryResult × Store
recover_row row fresh now s result =
    settle_column row row.new_drive_file_id fresh now s
      (record result { examined = result.examined + 1 })

-- Row after row. `fresh` gives the id that is drawn for the queue at each.
unfoldable pub recover_rows :
    (String → String) → ℕ → List StagingRow → Store → RecoveryResult → RecoveryResult × Store
recover_rows fresh now [] s result = (result, s)
recover_rows fresh now (row ∷ rows) s result =
    let step = recover_row row (fresh row.id) now s result in
    recover_rows fresh now rows step.1 step.0

-- `cutoff` is `stagingStaleAfterMs` before now, `batch` is `cleanupBatchSize`.
unfoldable pub recover_stale_staging :
    (String → String) → ℕ → ℕ → ℕ → Store → RecoveryResult × Store
unfolding recover_rows
recover_stale_staging fresh cutoff batch now s =
    recover_rows fresh now (list_stale cutoff batch s.object_staging) s nothing_recovered
