-- ===== src/Multipart/Tests.antt =====
-- Tests and witnesses of the multipart uploads.
use gdrive_s.Base.{Bool, not, eqb, all, ℕ, ◌≡◌, ◌≤◌, ◌↔◌, refl, true, List, [], ◌∷◌, units, none}
use gdrive_s.Store.Commit.{no_sse}
use gdrive_s.S3Error.{ok, err, invalid_part, invalid_part_order, entity_too_small, internal_error}
use gdrive_s.Multipart.Parts.{
  RequestedPart, MultipartPartRow, select_parts, check_sizes, validate_requested_parts,
  checked_parts, total_size,
}
use gdrive_s.Multipart.Uploads.{
  CreateMultipartInput, Statement, create, mark_completing, mark_aborted, mark_expired, apply,
  updated, changes, known, has_open_in_bucket, count_open_by_bucket,
}
use gdrive_s.Multipart.Selection.{Selects, BigEnough, checked_parts_iff}
use gdrive_s.Multipart.Claims.{wins, wins_once}

abbrev asked : ℕ → RequestedPart
asked n = record { number = n; etag = units "e" }

abbrev row : ℕ → ℕ → MultipartPartRow
row n size = record {
  upload_id = "u";
  part_number = n;
  temp_path = "/tmp/u/part";
  size_bytes = size;
  etag = units "e";
  checksum_sha256 = none;
  created_at = 0;
}

abbrev intact : MultipartPartRow → Bool
intact part = not (eqb part.part_number 2)

abbrev rows : List MultipartPartRow
rows = row 1 8 ∷ row 2 3 ∷ row 4 1 ∷ []

parts_tests :
    (checked_parts intact (asked 1 ∷ asked 4 ∷ []) rows 5 100 ≡ ok (row 1 8 ∷ row 4 1 ∷ []))
    × (checked_parts intact (asked 4 ∷ asked 1 ∷ []) rows 5 100 ≡ err invalid_part_order)
    × (checked_parts intact (asked 1 ∷ asked 1 ∷ []) rows 5 100 ≡ err invalid_part_order)
    × (checked_parts intact (asked 1 ∷ asked 3 ∷ []) rows 5 100 ≡ err invalid_part)
    × (checked_parts intact (asked 1 ∷ asked 2 ∷ asked 4 ∷ []) rows 5 100 ≡ err entity_too_small)
    × (checked_parts intact (asked 2 ∷ asked 4 ∷ []) rows 1 100 ≡ err internal_error)
unfolding checked_parts validate_requested_parts select_parts check_sizes
parts_tests = (refl, refl, refl, refl, refl, refl)

checked_parts_iff_example :
    (checked_parts intact (asked 1 ∷ asked 4 ∷ []) rows 5 100 ≡ ok (row 1 8 ∷ row 4 1 ∷ [])) ↔ (
      Selects rows 0 (asked 1 ∷ asked 4 ∷ []) (row 1 8 ∷ row 4 1 ∷ [])
      × BigEnough 5 (row 1 8 ∷ row 4 1 ∷ [])
      × (all intact (row 1 8 ∷ row 4 1 ∷ []) ≡ true)
      × total_size (row 1 8 ∷ row 4 1 ∷ []) ≤ 100)
checked_parts_iff_example =
    checked_parts_iff intact (asked 1 ∷ asked 4 ∷ []) rows 5 100 (row 1 8 ∷ row 4 1 ∷ [])

abbrev upload : CreateMultipartInput
upload = record {
  id = "u";
  bucket_id = "b";
  user_id = "ada";
  drive_folder_id = "f";
  object_key = "k";
  content_type = "text/plain";
  metadata_json = "{}";
  now = 0;
  expires_at = 2026;
  drive_target_id = none;
  sse = no_sse;
}

abbrev history : List Statement
history =
    create upload
    ∷ mark_completing "u"
    ∷ mark_expired "u"
    ∷ mark_aborted "u"
    ∷ mark_completing "u"
    ∷ create upload
    ∷ mark_completing "u"
    ∷ []

history_tests :
    (wins "u" history [] ≡ 1) × (has_open_in_bucket "b" (apply (create upload) []).1 ≡ true)
unfolding wins apply updated changes known has_open_in_bucket count_open_by_bucket
history_tests = (refl, refl)

wins_once_example : wins "u" history [] ≤ 1
wins_once_example = wins_once "u" history []
