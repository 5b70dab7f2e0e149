-- ===== src/Store/Tracked.antt =====
-- Whether the tables still know a Drive file, so that it is read, recovered or deleted one day.
use gdrive_s.Base.{String, Bool, ◌&&◌, ◌||◌, ◌==◌, any, holds, text_key}
use gdrive_s.Store.Rows.{
  Store, ObjectRow, ObjectVersionRow, PendingCleanupRow, CleanupResourceType, StagingRow,
  drive_file, resource_type_key, is_open,
}

abbrev pub object_with : String → ObjectRow → Bool
object_with file r = r.drive_file_id == file

abbrev pub version_with : String → ObjectVersionRow → Bool
version_with file r = holds r.drive_file_id file

abbrev pub queued_as : CleanupResourceType → String → PendingCleanupRow → Bool
queued_as kind resource r = (r.resource_type == kind) && (r.resource_id == resource)

abbrev pub queued_with : String → PendingCleanupRow → Bool
queued_with file r = queued_as drive_file file r

abbrev pub open_with : String → StagingRow → Bool
open_with file r = is_open r.status && holds r.new_drive_file_id file

abbrev pub tracked : String → Store → Bool
tracked file s =
    any (object_with file) s.objects
    || any (version_with file) s.object_versions
    || any (queued_with file) s.pending_cleanup
    || any (open_with file) s.object_staging
