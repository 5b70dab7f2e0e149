-- ===== src/Multipart/Parts.antt =====
-- `validateRequestedParts` of s3/operations/multipart-complete.ts and the size check after it.
use gdrive_s.Base.{
  ℕ, String, Bool, all, ◌+◌, not, Option, none, some, List, [], ◌∷◌, Text, units_key, ◌==◌, eqb,
  leb, ltb, if◌then◌else◌,
}
use gdrive_s.S3Error.{
  Result, ok, err, ◌>>=◌, ◌>>◌, require, invalid_part, invalid_part_order, entity_too_small,
  entity_too_large, internal_error,
}

pub record RequestedPart : Type 0 where
  pub number : ℕ
  pub etag : Text

pub record MultipartPartRow : Type 0 where
  pub upload_id : String
  pub part_number : ℕ
  pub temp_path : String
  pub size_bytes : ℕ
  pub etag : Text
  pub checksum_sha256 : Option String
  pub created_at : ℕ

-- `stored.find(…)`
abbrev pub find_part : ℕ → List MultipartPartRow → Option MultipartPartRow
find_part n [] = none
find_part n (part ∷ parts) =
    let rest = find_part n parts in if eqb part.part_number n then some part else rest

-- `!found || found.etag !== req.etag`
abbrev pub matching : Text → Option MultipartPartRow → Result MultipartPartRow
matching etag none = err invalid_part
matching etag (some part) = if part.etag == etag then ok part else err invalid_part

unfoldable pub select_parts :
    List MultipartPartRow → ℕ → List RequestedPart → Result (List MultipartPartRow)
select_parts stored previous [] = ok []
select_parts stored previous (req ∷ rest) =
    let later = select_parts stored req.number rest in
    do
      require (not (leb req.number previous)) invalid_part_order
      found ← matching req.etag (find_part req.number stored)
      selected ← later
      ok (found ∷ selected)

-- Every part but the last.
unfoldable pub check_sizes : ℕ → List MultipartPartRow → Result (Unit {0})
check_sizes min_part_bytes [] = ok tt
check_sizes min_part_bytes (part ∷ []) = ok tt
check_sizes min_part_bytes (part ∷ next ∷ rest) =
    let later = check_sizes min_part_bytes (next ∷ rest) in
    if ltb part.size_bytes min_part_bytes then err entity_too_small else later

unfoldable pub validate_requested_parts :
    List RequestedPart → List MultipartPartRow → ℕ → Result (List MultipartPartRow)
validate_requested_parts requested stored min_part_bytes = do
  selected ← select_parts stored 0 requested
  check_sizes min_part_bytes selected
  ok selected

-- `selected.reduce(…)`
abbrev pub total_size : List MultipartPartRow → ℕ
total_size [] = 0
total_size (part ∷ parts) = part.size_bytes + total_size parts

-- What completeLocked checks between the parsed request and the claim of the upload. `stat_matches`
-- is the look at a part's file.
unfoldable pub checked_parts :
    (MultipartPartRow → Bool)
    → List RequestedPart
    → List MultipartPartRow
    → ℕ
    → ℕ
    → Result (List MultipartPartRow)
checked_parts stat_matches requested stored min_part_bytes max_object_bytes = do
  selected ← validate_requested_parts requested stored min_part_bytes
  require (all stat_matches selected) internal_error
  require (leb (total_size selected) max_object_bytes) entity_too_large
  ok selected
