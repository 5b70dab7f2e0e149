-- ===== src/Store/Disk.antt =====
-- The tables and Drive together, and drainDriveFileNow of services/object-service.ts.
pub mod Known
use gdrive_s.Base.{String}
use gdrive_s.Store.Rows.{Store, drive_file}
use gdrive_s.Store.Cleanup.{complete_resource}
use gdrive_s.Store.Drive.{DriveStorage, DeleteObjectInput, DeletionAnswer, deleted}

pub record Disk (D : Type 0) : Type 0 where
  pub store : Store
  pub drive : D

abbrev pub after_deletion : DeletionAnswer → String → String → Store → Store
after_deletion deleted user_id file s = record s {
  pending_cleanup = (complete_resource user_id drive_file file s.pending_cleanup).1;
}
after_deletion _ user_id file s = s

unfoldable pub drain_drive_file_now :
    {D : Type 0} → DriveStorage D → DeleteObjectInput → String → Disk D → Disk D
drain_drive_file_now drive input cleanup_user_id w =
    let (answer, d) = drive.delete_file input w.drive in
    record { store = after_deletion answer cleanup_user_id input.drive_file_id w.store; drive = d }
