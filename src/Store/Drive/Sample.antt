-- ===== src/Store/Drive/Sample.antt =====
-- A Drive that keeps a list of file ids, to show that the assumptions of Store/Drive can be met.
-- It refuses to delete the file named pinned.
use gdrive_s.Base.{
  ◌≡◌, ap, length, String, Bool, not, ◌&&◌, List, [], ◌∷◌, ◌==◌, text_key, arith, any,
  if◌then◌else◌,
}
use gdrive_s.Store.Table.{select}
use gdrive_s.Store.Drive.{
  DriveStorage, IsDrive, DeleteObjectInput, DeletionAnswer, deleted, drive_error,
  StreamingUploadInput, UploadAnswer, stored, stored_as, IsSeen,
}

abbrev is_file : String → String → Bool
is_file file f = f == file

abbrev without : String → List String → List String
without id d = select (λ f. not (f == id)) d

abbrev pub delete_listed : DeleteObjectInput → List String → DeletionAnswer × List String
delete_listed input d =
    if input.drive_file_id == "pinned"
    then (drive_error 500 "unavailable" "later", d)
    else if any (is_file input.drive_file_id) d
    then (deleted, without input.drive_file_id d)
    else (drive_error 404 "not_found" "gone", without input.drive_file_id d)

abbrev pub upload_listed : StreamingUploadInput → List String → UploadAnswer × List String
upload_listed input d = (
  stored (record {
    drive_file_id = input.object_id;
    size = length input.body;
    md5_hex = "0";
    sha256_hex = "00";
  }),
  input.object_id ∷ d,
)

abbrev pub listed_drive : DriveStorage (List String)
listed_drive = record {
  stores = λ file d. any (is_file file) d;
  delete_file = delete_listed;
  upload_resumable = upload_listed;
  upload_multipart = upload_listed;
}

any-without :
    (file id : String) (d : List String)
    → any (is_file file) (without id d) ≡ (any (is_file file) d && not (id == file))
unfolding select
any-without file id [] = ground arith
any-without file id (f ∷ d) = ground (
  arith,
  any-without file id d,
  text_key.test_iff f file,
  text_key.test_iff f id,
  text_key.test_iff id file,
)

pub listed_drive-IsDrive : IsDrive listed_drive
listed_drive-IsDrive = record {
  gone = λ input file d own settled. ground (arith, any-without file input.drive_file_id d);
  spares = λ input file d other. ground (arith, any-without file input.drive_file_id d);
  makes_none = λ input file d h. ground (arith, any-without file input.drive_file_id d);
  resumable_adds_one =
      λ input file d u e other h. let same = ap (λ a. stored_as a file) e in ground arith;
  multipart_adds_one =
      λ input file d u e other h. let same = ap (λ a. stored_as a file) e in ground arith;
}

pub listed_drive-IsSeen : (file : String) → IsSeen listed_drive file
listed_drive-IsSeen file input d own absent = ground (arith, any-without file input.drive_file_id d)
