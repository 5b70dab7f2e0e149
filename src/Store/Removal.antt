-- ===== src/Store/Removal.antt =====
-- deleteAndQueueCleanup of db/repositories/objects.ts: a row goes, and its file is queued.
use gdrive_s.Base.{
  String, not, Option, none, some, [], ◌∷◌, ◌++◌, text_key, units_key, if◌then◌else◌, lookup,
  remove, holds,
}
use gdrive_s.Store.Table.{delete_first}
use gdrive_s.Store.Rows.{Store, ObjectRow}
use gdrive_s.Store.Objects.{at_key, find_by_key}
use gdrive_s.Store.Commit.{Outcome, done, owner_mismatch, Fresh, queue_row}

pub record CleanupInput : Type 0 where
  pub user_id : String
  pub bucket_id : String
  pub object_key : String
  pub reason : String
  pub drive_target_id : Option String

-- The row of the encryption goes with the object: its foreign key cascades.
abbrev pub delete_tables : CleanupInput → ObjectRow → Fresh → Store → Store
delete_tables input existing fresh s = record s {
  objects = delete_first (at_key input.bucket_id input.object_key) s.objects;
  pending_cleanup =
      s.pending_cleanup
      ++ queue_row input.user_id existing.drive_file_id input.reason input.drive_target_id fresh
        ∷ [];
  object_encryption = remove existing.id s.object_encryption;
}

abbrev pub delete_row : Option ObjectRow → CleanupInput → Fresh → Store → Outcome (Option ObjectRow)
delete_row none input fresh s = done none s
delete_row (some existing) input fresh s =
    done (some existing) (delete_tables input existing fresh s)

unfoldable pub delete_and_queue_cleanup : CleanupInput → Fresh → Store → Outcome (Option ObjectRow)
delete_and_queue_cleanup input fresh s =
    if not (holds (lookup input.bucket_id s.bucket_owners) input.user_id)
    then owner_mismatch
    else delete_row (find_by_key input.bucket_id input.object_key s.objects) input fresh s
