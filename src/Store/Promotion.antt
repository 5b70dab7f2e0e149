-- ===== src/Store/Promotion.antt =====
-- promoteNewestVersion of s3/operations/objects.ts: an archived version becomes current again.
use gdrive_s.Base.{
  ℕ, String, not, ◌&&◌, ◌||◌, Option, none, some, text_key, units_key, if◌then◌else◌, put, truthy,
}
use gdrive_s.Store.Rows.{Store, ObjectRow, ObjectVersionRow, Sse}
use gdrive_s.Store.Objects.{UpsertObjectInput, upsert, find_by_key}
use gdrive_s.Store.Versions
use gdrive_s.Store.Versions.{
  null_version, archive, clear_latest, insert_delete_marker, newest_version,
}

abbrev pub upsert_input : String → String → ObjectVersionRow → String → String → UpsertObjectInput
upsert_input bucket_id key newest file etag = record {
  bucket_id = bucket_id;
  object_key = key;
  drive_file_id = file;
  size_bytes = newest.size_bytes;
  content_type = newest.content_type;
  etag = etag;
  checksum_sha256 = newest.checksum_sha256;
  headers = newest.headers;
  version_id = newest.version_id;
}

abbrev pub put_encryption : Option ObjectRow → Sse → Store → Store
put_encryption none sse s = s
put_encryption (some current) sse s =
    if truthy sse.sse_algorithm && truthy sse.iv
    then record s { object_encryption = put current.id sse s.object_encryption }
    else s

-- The newest version moves into `objects`, with what encrypts it.
abbrev pub promote :
    String → String → ObjectVersionRow → String → String → String → ℕ → Store → Store
promote bucket_id key newest file etag fresh now s =
    let objects = upsert (upsert_input bucket_id key newest file etag) fresh now s.objects in
    let s =
      put_encryption (find_by_key bucket_id key objects) newest.sse
        (record s { objects = objects }) in
    record s { object_versions = Versions.delete bucket_id key newest.version_id s.object_versions }

-- `!newest.drive_file_id || !newest.etag`
abbrev pub promote_columns :
    String → String → ObjectVersionRow → Option String → Option String → String → ℕ → Store → Store
promote_columns bucket_id key newest (some file) (some etag) fresh now s =
    if not (truthy (some file)) || not (truthy (some etag))
    then s
    else promote bucket_id key newest file etag fresh now s
promote_columns bucket_id key newest _ _ fresh now s = s

abbrev pub promote_found : String → String → Option ObjectVersionRow → String → ℕ → Store → Store
promote_found bucket_id key none fresh now s = s
promote_found bucket_id key (some newest) fresh now s =
    promote_columns bucket_id key newest newest.drive_file_id newest.etag fresh now s

unfoldable pub promote_newest_version : String → String → String → ℕ → Store → Store
promote_newest_version bucket_id key fresh now s =
    let s = record s { object_versions = clear_latest bucket_id key s.object_versions } in
    promote_found bucket_id key (newest_version bucket_id key s.object_versions) fresh now s
