-- ===== src/Multipart/World.antt =====
-- What the handlers of multipart uploads share: the tables, the files on disk and Drive.
use gdrive_s.Base.{String, Option, List}
use gdrive_s.Store.Rows.{Store}
use gdrive_s.Multipart.Parts.{MultipartPartRow}
use gdrive_s.Multipart.Uploads.{MultipartUploadRow}

pub record World (D : Type 0) : Type 0 where
  pub uploads : List MultipartUploadRow
  pub parts : List MultipartPartRow
  pub store : Store
  pub drive : D

-- The columns of a bucket that the handlers read.
pub record UploadBucket : Type 0 where
  pub id : String
  pub user_id : String
  pub drive_folder_id : String
  pub drive_target_id : Option String
