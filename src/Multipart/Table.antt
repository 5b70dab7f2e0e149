-- ===== src/Multipart/Table.antt =====
-- db/repositories/multipart-parts.ts: the stored parts of every upload.
use gdrive_s.Base.{
  ℕ, String, Bool, not, ◌&&◌, Option, some, List, ◌==◌, text_key, number_key, eqb, ltb, Text,
  length,
}
use gdrive_s.Store.Table.{find_first, select, order_by, insert_or_update}
use gdrive_s.Multipart.Parts.{MultipartPartRow, total_size as sum_sizes}

pub record UpsertPartInput : Type 0 where
  pub upload_id : String
  pub part_number : ℕ
  pub temp_path : String
  pub size_bytes : ℕ
  pub etag : Text
  pub checksum_sha256 : String

-- The primary key of the table.
abbrev pub at_part : String → ℕ → MultipartPartRow → Bool
at_part upload_id part_number r = (r.upload_id == upload_id) && eqb r.part_number part_number

abbrev pub of_upload : String → MultipartPartRow → Bool
of_upload upload_id r = r.upload_id == upload_id

abbrev pub part_of : UpsertPartInput → ℕ → MultipartPartRow
part_of input now = record {
  upload_id = input.upload_id;
  part_number = input.part_number;
  temp_path = input.temp_path;
  size_bytes = input.size_bytes;
  etag = input.etag;
  checksum_sha256 = some input.checksum_sha256;
  created_at = now;
}

-- The key of the row that is updated is that of the input.
unfoldable pub upsert : UpsertPartInput → ℕ → List MultipartPartRow → List MultipartPartRow
upsert input now t =
    insert_or_update (at_part input.upload_id input.part_number) (part_of input now)
      (λ r. record (part_of input now) { upload_id = r.upload_id; part_number = r.part_number }) t

abbrev pub find : String → ℕ → List MultipartPartRow → Option MultipartPartRow
find upload_id part_number t = find_first (at_part upload_id part_number) t

unfoldable pub list : String → List MultipartPartRow → List MultipartPartRow
list upload_id t =
    order_by (λ a b. ltb a.part_number b.part_number) (select (of_upload upload_id) t)

unfoldable pub count : String → List MultipartPartRow → ℕ
count upload_id t = length (select (of_upload upload_id) t)

unfoldable pub total_size : String → List MultipartPartRow → ℕ
total_size upload_id t = sum_sizes (select (of_upload upload_id) t)

-- The rows that went, and the table without them.
unfoldable pub delete_all :
    String → List MultipartPartRow → List MultipartPartRow × List MultipartPartRow
unfolding list
delete_all upload_id t = (list upload_id t, select (λ r. not (of_upload upload_id r)) t)
