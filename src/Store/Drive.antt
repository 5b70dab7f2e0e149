-- ===== src/Store/Drive.antt =====
-- drive/storage.ts and drive/errors.ts: what jobs and handlers ask of Google Drive.
-- Drive itself is not part of the program: its state, what it stores and what its calls do are
-- parameters, and `IsDrive` is what the code relies on.
pub mod Sample
use gdrive_s.Base.{
  ℕ, String, Bool, true, false, not, Option, List, ◌&&◌, ◌||◌, ◌==◌, text_key, eqb, ◌≡◌, refl, ap,
  arith, ltb, is_none, none, some, if◌then◌else◌, Bool-cases, inl, inr,
}
use gdrive_s.Store.Rows.{Sse}

pub data DriveOperationTarget : Type 0 where
  my_drive : DriveOperationTarget
  shared_drive : String → DriveOperationTarget

pub data DeleteMode : Type 0 where
  trash permanent : DeleteMode

pub record DeleteObjectInput : Type 0 where
  pub user_id : String
  pub drive_file_id : String
  pub mode : DeleteMode
  pub target : DriveOperationTarget

-- A call returns, or throws a DriveError with its status and category, or another error.
pub data DeletionAnswer : Type 0 where
  deleted : DeletionAnswer
  drive_error : ℕ → String → String → DeletionAnswer
  other_error : String → DeletionAnswer

-- `body` is the bytes that the stream gives, `cipher` what they are encrypted with on the way.
pub record StreamingUploadInput : Type 0 where
  pub user_id : String
  pub bucket_id : String
  pub bucket_folder_id : String
  pub object_id : String
  pub object_key : String
  pub mime_type : String
  pub body : List ℕ
  pub content_length : Option ℕ
  pub max_bytes : ℕ
  pub resumable_threshold : ℕ
  pub chunk_size : ℕ
  pub target : DriveOperationTarget
  pub cipher : Option Sse

pub record StreamingUploadResult : Type 0 where
  pub drive_file_id : String
  pub size : ℕ
  pub md5_hex : String
  pub sha256_hex : String

pub data UploadAnswer : Type 0 where
  stored : StreamingUploadResult → UploadAnswer
  upload_error : String → UploadAnswer

abbrev pub stored_as : UploadAnswer → String → Bool
stored_as (stored u) file = u.drive_file_id == file
stored_as (upload_error message) file = false

-- A call gives its answer and the state of Drive after it. `stores` is whether a file is there and
-- out of the trash. The two uploads are uploadResumable, whose chunks are the subject of Upload, and
-- uploadMultipart, each over the storage.
pub record DriveStorage (D : Type 0) : Type 0 where
  pub stores : String → D → Bool
  pub delete_file : DeleteObjectInput → D → DeletionAnswer × D
  pub upload_resumable : StreamingUploadInput → D → UploadAnswer × D
  pub upload_multipart : StreamingUploadInput → D → UploadAnswer × D

-- `contentLength !== null && contentLength > …`
abbrev pub exceeds : Option ℕ → ℕ → Bool
exceeds none most = false
exceeds (some n) most = ltb most n

abbrev pub in_chunks : StreamingUploadInput → Bool
in_chunks input =
    is_none input.content_length
    || exceeds input.content_length input.resumable_threshold
    || exceeds input.content_length input.chunk_size

unfoldable pub streaming_upload :
    {D : Type 0} → DriveStorage D → StreamingUploadInput → D → UploadAnswer × D
streaming_upload drive input d =
    if exceeds input.content_length input.max_bytes
    then (upload_error "EntityTooLarge", d)
    else if in_chunks input
    then drive.upload_resumable input d
    else drive.upload_multipart input d

abbrev pub is_already_gone : DeletionAnswer → Bool
is_already_gone deleted = false
is_already_gone (drive_error status category message) = eqb status 404 || (category == "not_found")
is_already_gone (other_error message) = false

abbrev pub is_deleted : DeletionAnswer → Bool
is_deleted deleted = true
is_deleted _ = false

abbrev pub threw : UploadAnswer → Bool
threw (stored u) = false
threw (upload_error message) = true

-- A file that was deleted is not stored; a deletion touches no other file and makes none; an upload
-- that returns has added at most the file that it answers with.
pub record IsDrive {D : Type 0} (drive : DriveStorage D) : Type 0 where
  pub gone :
      (input : DeleteObjectInput) (file : String) (d : D)
      → (input.drive_file_id == file) ≡ true
      → is_deleted (drive.delete_file input d).0 ≡ true
      → drive.stores file (drive.delete_file input d).1 ≡ false
  pub spares :
      (input : DeleteObjectInput) (file : String) (d : D)
      → (input.drive_file_id == file) ≡ false
      → drive.stores file (drive.delete_file input d).1 ≡ drive.stores file d
  pub makes_none :
      (input : DeleteObjectInput) (file : String) (d : D)
      → drive.stores file (drive.delete_file input d).1 ≡ true
      → drive.stores file d ≡ true
  pub resumable_adds_one :
      (input : StreamingUploadInput) (file : String) (d : D) (u : StreamingUploadResult)
      → (drive.upload_resumable input d).0 ≡ stored u
      → (u.drive_file_id == file) ≡ false
      → drive.stores file (drive.upload_resumable input d).1 ≡ true
      → drive.stores file d ≡ true
  pub multipart_adds_one :
      (input : StreamingUploadInput) (file : String) (d : D) (u : StreamingUploadResult)
      → (drive.upload_multipart input d).0 ≡ stored u
      → (u.drive_file_id == file) ≡ false
      → drive.stores file (drive.upload_multipart input d).1 ≡ true
      → drive.stores file d ≡ true

module _ {D : Type 0} (drive : DriveStorage D) where
  -- Whether the file is one that an upload which throws leaves in Drive.
  abbrev pub left_by_upload : StreamingUploadInput → String → D → Bool
  left_by_upload input file d =
      threw (streaming_upload drive input d).0
      && drive.stores file (streaming_upload drive input d).1
      && not (drive.stores file d)

  -- Drive answers 404 for a file that is not there and for one that the account does not see. The
  -- accounts see this file when they are answered so only because it is not there.
  abbrev pub IsSeen : String → Type 0
  IsSeen file =
      (input : DeleteObjectInput) (d : D)
      → (input.drive_file_id == file) ≡ true
      → is_already_gone (drive.delete_file input d).0 ≡ true
      → drive.stores file (drive.delete_file input d).1 ≡ false

  streaming_upload-adds_one :
      IsDrive drive
      → (input : StreamingUploadInput) (file : String) (d : D) (u : StreamingUploadResult)
      → (streaming_upload drive input d).0 ≡ stored u
      → (u.drive_file_id == file) ≡ false
      → drive.stores file (streaming_upload drive input d).1 ≡ true
      → drive.stores file d ≡ true
  unfolding streaming_upload
  streaming_upload-adds_one law input file d u e other there =
      elim (Bool-cases (exceeds input.content_length input.max_bytes)) [
        | inl large ↦ rw large at there
        | inr fits ↦ elim (Bool-cases (in_chunks input)) [
          | inl chunks ↦
              law.resumable_adds_one input file d u (rw (fits, chunks) at e) other
                (rw (fits, chunks) at there)
          | inr whole ↦
              law.multipart_adds_one input file d u (rw (fits, whole) at e) other
                (rw (fits, whole) at there)
        ]
      ]

  answered-adds :
      IsDrive drive
      → (answer : UploadAnswer) (input : StreamingUploadInput) (file : String) (d : D)
      → (streaming_upload drive input d).0 ≡ answer
      → left_by_upload input file d ≡ false
      → stored_as answer file ≡ false
      → drive.stores file (streaming_upload drive input d).1 ≡ true
      → drive.stores file d ≡ true
  answered-adds law (stored u) input file d e left other there =
      streaming_upload-adds_one law input file d u e other there
  answered-adds law (upload_error message) input file d e left other there =
      let failed : threw (streaming_upload drive input d).0 ≡ true = ap threw e in ground arith

  -- A file that is there after an upload, is not its answer and was not left by a failure was there.
  pub streaming_upload-adds :
      IsDrive drive
      → (input : StreamingUploadInput) (file : String) (d : D) → left_by_upload input file d ≡ false
      → stored_as (streaming_upload drive input d).0 file ≡ false
      → drive.stores file (streaming_upload drive input d).1 ≡ true
      → drive.stores file d ≡ true
  streaming_upload-adds law input file d left other there =
      answered-adds law (streaming_upload drive input d).0 input file d refl left other there
