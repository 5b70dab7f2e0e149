-- ===== src/Store/Drain.antt =====
-- jobs/orphan-cleanup.ts: the worker that deletes what is queued, with assertUnder of
-- util/multipart-path.ts and nextCleanupAttempt of drive/retry.ts.
pub mod Handled
pub mod Kept
mod Tests
use gdrive_s.Base.{
  ℕ, ◌+◌, ◌*◌, ◌^◌, min, String, Bool, true, false, not, ◌&&◌, ◌||◌, Option, none, some, List, [],
  ◌∷◌, ◌==◌, text_key, if◌then◌else◌, leb, truthy, Text, is_none, is_some, after_prefix, units,
}
use gdrive_s.Store.Rows.{PendingCleanupRow, CleanupResourceType, drive_file, temp_file}
use gdrive_s.Store.Cleanup.{due, complete, retry}
use gdrive_s.Store.Drive.{
  DriveStorage, DriveOperationTarget, my_drive, shared_drive, DeleteMode, DeleteObjectInput,
  DeletionAnswer, deleted, drive_error, other_error, is_already_gone,
}

-- The module node:path.
pub record Paths : Type 0 where
  pub resolve : String → String
  pub relative : String → String → Text
  pub is_absolute : Text → Bool

abbrev is_empty : Text → Bool
is_empty [] = true
is_empty (c ∷ s) = false

-- Whether assertUnder returns.
unfoldable pub is_under : Paths → String → String → Bool
is_under p base_dir target_path =
    let rel = p.relative (p.resolve base_dir) (p.resolve target_path) in
    not (is_empty rel || is_some (after_prefix (units "..") rel) || p.is_absolute rel)

pub record DriveTargetRow : Type 0 where
  pub is_shared_drive : Bool
  pub shared_drive_id : Option String

abbrev pub max_attempts : ℕ
max_attempts = 12

abbrev pub day_ms : ℕ
day_ms = 86400000

unfoldable pub next_cleanup_attempt : ℕ → ℕ → ℕ
next_cleanup_attempt attempts now_ms = now_ms + min day_ms (1000 * 2 ^ min attempts 16)

-- The configuration, the table of targets, the clock as it is read for each row, and whether the
-- worker has been told to stop when a row's turn comes.
pub record Context (D : Type 0) : Type 0 where
  pub drive_storage : DriveStorage D
  pub find_target : String → Option DriveTargetRow
  pub paths : Paths
  pub multipart_temp_dir : String
  pub s3_delete_mode : DeleteMode
  pub cleanup_batch_size : ℕ
  pub clock : String → ℕ
  pub stopping : String → Bool

pub record Counts : Type 0 where
  pub processed : ℕ
  pub retried : ℕ
  pub completed : ℕ

-- The counts, the queue, Drive and the temporary files unlinked, as the loop changes them.
pub record Run (D : Type 0) : Type 0 where
  pub counts : Counts
  pub queue : List PendingCleanupRow
  pub drive : D
  pub unlinked : List String

abbrev shared_of : Option String → DriveOperationTarget
shared_of none = my_drive
shared_of (some id) = if truthy (some id) then shared_drive id else my_drive

abbrev target_of : Option DriveTargetRow → DriveOperationTarget
target_of none = my_drive
target_of (some row) = if row.is_shared_drive then shared_of row.shared_drive_id else my_drive

abbrev found_target : {D : Type 0} → Context D → Option String → Option DriveTargetRow
found_target ctx none = none
found_target ctx (some id) = if truthy (some id) then ctx.find_target id else none

module _ {D : Type 0} (ctx : Context D) where
  abbrev pub deletion_of : PendingCleanupRow → DeleteObjectInput
  deletion_of row = record {
    user_id = row.user_id;
    drive_file_id = row.resource_id;
    mode = ctx.s3_delete_mode;
    target = target_of (found_target ctx row.drive_target_id);
  }

  abbrev pub completed_row : PendingCleanupRow → D → Run D → Run D
  completed_row row d run = record run {
    counts = record run.counts { completed = run.counts.completed + 1 };
    queue = complete row.id run.queue;
    drive = d;
  }

  abbrev pub next_of : PendingCleanupRow → ℕ
  next_of row =
      if leb max_attempts (row.attempts + 1)
      then ctx.clock row.id + day_ms
      else next_cleanup_attempt (row.attempts + 1) (ctx.clock row.id)

  abbrev pub retried_row : PendingCleanupRow → String → D → Run D → Run D
  retried_row row message d run = record run {
    counts = record run.counts { retried = run.counts.retried + 1 };
    queue = retry row.id message (next_of row) run.queue;
    drive = d;
  }

  -- What follows the call of Drive.
  abbrev pub after_deletion : PendingCleanupRow → DeletionAnswer → D → Run D → Run D
  after_deletion row deleted d run = completed_row row d run
  after_deletion row (drive_error status category message) d run =
      if is_already_gone (drive_error status category message)
      then completed_row row d run
      else retried_row row message d run
  after_deletion row (other_error message) d run = retried_row row message d run

  -- A path outside the directory is dropped; a file inside is unlinked, and errors are ignored.
  abbrev pub clean_resource : CleanupResourceType → PendingCleanupRow → Run D → Run D
  clean_resource drive_file row run =
      let (answer, d) = ctx.drive_storage.delete_file (deletion_of row) run.drive in
      after_deletion row answer d run
  clean_resource temp_file row run =
      if is_under ctx.paths ctx.multipart_temp_dir row.resource_id
      then completed_row row run.drive (record run { unlinked = row.resource_id ∷ run.unlinked })
      else completed_row row run.drive run

  abbrev pub clean_row : PendingCleanupRow → Run D → Run D
  clean_row row run =
      clean_resource row.resource_type row
        (record run { counts = record run.counts { processed = run.counts.processed + 1 } })

  unfoldable pub clean_rows : List PendingCleanupRow → Run D → Run D
  clean_rows [] run = run
  clean_rows (row ∷ rows) run =
      let later = clean_rows rows (clean_row row run) in if ctx.stopping row.id then run else later

  abbrev pub begin : List PendingCleanupRow → D → Run D
  begin queue d = record {
    counts = record { processed = 0; retried = 0; completed = 0 };
    queue = queue;
    drive = d;
    unlinked = [];
  }

  -- `busy` is `running || stopping` when the run is asked for, `now` when the queue is read.
  unfoldable pub run_once : Bool → ℕ → List PendingCleanupRow → D → Run D
  unfolding clean_rows
  run_once busy now queue d =
      if busy
      then begin queue d
      else clean_rows (due now ctx.cleanup_batch_size queue) (begin queue d)
