-- ===== src/Chunked/Reader.antt =====
-- The buffer of the decoder and the reader behind it: readLine and ensure of s3/aws-chunked.ts.
use gdrive_s.Base.{
  ℕ, ◌&&◌, Option, none, some, List, [], ◌∷◌, ◌++◌, ltb, eqb, length, if◌then◌else◌,
}
use gdrive_s.S3Error.{Result, ok, err, invalid_request}
use gdrive_s.Base.{Bytes}

pub record Input : Type 0 where
  pub buffer : Bytes
  pub reads : List Bytes

abbrev pub max_header_bytes : ℕ
max_header_bytes = 8192

abbrev pub longer : ℕ → Option (Bytes × Bytes) → Option (Bytes × Bytes)
longer b none = none
longer b (some (line, rest)) = some (b ∷ line, rest)

-- The bytes before the first CR LF, and those after it.
unfoldable pub find_crlf : Bytes → Option (Bytes × Bytes)
find_crlf [] = none
find_crlf (a ∷ []) = none
find_crlf (a ∷ b ∷ s) =
    let later = longer a (find_crlf (b ∷ s)) in if eqb a 13 && eqb b 10 then some ([], s) else later

-- `readLine`, from what the buffer has and the values still to be read.
unfoldable pub line_from : Bytes → List Bytes → Result (Bytes × Input)
unfolding find_crlf
line_from buffer [] = elim (find_crlf buffer) [
  | some found ↦ ok (found.0, record { buffer = found.1; reads = [] })
  | none ↦ err invalid_request
]
line_from buffer (value ∷ reads) = elim (find_crlf buffer) [
  | some found ↦ ok (found.0, record { buffer = found.1; reads = value ∷ reads })
  | none ↦
      let next = line_from (buffer ++ value) reads in
      if ltb max_header_bytes (length buffer) then err invalid_request else next
]

unfoldable pub read_line : Input → Result (Bytes × Input)
unfolding line_from
read_line input = line_from input.buffer input.reads

unfoldable pub ensure_from : ℕ → Bytes → List Bytes → Result Input
ensure_from n buffer [] =
    if ltb (length buffer) n
    then err invalid_request
    else ok (record { buffer = buffer; reads = [] })
ensure_from n buffer (value ∷ reads) =
    let next = ensure_from n (buffer ++ value) reads in
    if ltb (length buffer) n then next else ok (record { buffer = buffer; reads = value ∷ reads })

unfoldable pub ensure : ℕ → Input → Result Input
unfolding ensure_from
ensure n input = ensure_from n input.buffer input.reads
