-- ===== src/Upload.antt =====
-- drive/upload-streaming.ts: a body of unknown length is sent to Drive in aligned chunks.
-- The reader, the cipher and Drive are parameters; a stream is the list of the values read.
pub mod Sending
pub mod Delivered
mod Tests
use gdrive_s.Base.{
  ℕ, zero, suc, ◌+◌, ◌*◌, ◌/◌, Bool, true, false, not, ◌&&◌, ◌||◌, Option, none, some, List, [],
  ◌∷◌, ◌++◌, ltb, length, is_some, is_none, if◌then◌else◌,
}
use gdrive_s.S3Error.{Result, ok, err, ◌>>=◌, ◌>>◌, require, entity_too_large, internal_error}
use gdrive_s.Base.{Bytes, take, drop, concat}

abbrev pub resumable_alignment : ℕ
resumable_alignment = 262144

unfoldable pub align_chunk : ℕ → ℕ
align_chunk chunk_size =
    if ltb chunk_size resumable_alignment
    then resumable_alignment
    else chunk_size / resumable_alignment * resumable_alignment

-- A request of `uploadResumableChunk`, and what Drive answers: how many bytes it has, and the id of
-- the file once the upload is complete.
pub record Sent : Type 0 where
  pub chunk : Bytes
  pub start_offset : ℕ
  pub total_bytes : Option ℕ
  pub is_final : Bool

pub record Progress : Type 0 where
  pub committed_bytes : ℕ
  pub uploaded : Option ℕ

-- A cipher with its state; no cipher is one that changes nothing and has no tail.
pub record Cipher (S : Type 0) : Type 0 where
  pub start : S
  pub update : S → Bytes → Bytes × S
  pub final : S → Bytes

pub record UploadInput : Type 0 where
  pub content_length : Option ℕ
  pub max_bytes : ℕ
  pub resumable_threshold : ℕ
  pub chunk_size : ℕ

-- The variables of the loop. `sent` is what was asked of Drive, the latest first.
pub record Upload : Type 0 where
  pub buffer : Bytes
  pub uploaded_size : ℕ
  pub uploaded : Option ℕ
  pub sent : List Sent

pub record UploadResult : Type 0 where
  pub file : ℕ
  pub size : ℕ
  pub requests : List Sent

abbrev pub new_upload : Upload
new_upload = record { buffer = []; uploaded_size = 0; uploaded = none; sent = [] }

abbrev latest : Option ℕ → Option ℕ → Option ℕ
latest none old = old
latest (some id) old = some id

-- Whether `streamingUpload` sends the body in chunks.
pub use_resumable : UploadInput → Bool
use_resumable input = elim (input.content_length) [
  | none ↦ true
  | some n ↦ ltb input.resumable_threshold n || ltb input.chunk_size n
]

module _ (input : UploadInput) (drive : List Sent → Sent → Result Progress) where
  -- `input.contentLength !== null && size > input.maxBytes`, negated.
  abbrev pub size_ok : ℕ → Bool
  size_ok size = is_none input.content_length || not (ltb input.max_bytes size)

  abbrev pub request : Bool → Upload → Bytes → Bytes → Sent
  request done u chunk rest =
      let is_final = done && not (ltb 0 (length rest)) in
      record {
        chunk = chunk;
        start_offset = u.uploaded_size;
        total_bytes =
            if is_final then some (u.uploaded_size + length chunk) else input.content_length;
        is_final = is_final;
      }

  -- One turn of the inner loop: the next chunk goes out and Drive answers.
  unfoldable pub send_chunk : Bool → Upload → Result Upload
  send_chunk done u =
      let size = if done then length u.buffer else align_chunk input.chunk_size in
      let chunk = take size u.buffer in
      let rest = drop size u.buffer in
      let sent = request done u chunk rest in
      do
        require (size_ok (u.uploaded_size + length chunk)) entity_too_large
        progress ← drive u.sent sent
        ok (record {
          buffer = rest;
          uploaded_size = progress.committed_bytes;
          uploaded = latest progress.uploaded u.uploaded;
          sent = sent ∷ u.sent;
        })

  abbrev pub wants : Bool → Upload → Bool
  wants done u =
      ltb (align_chunk input.chunk_size) (length u.buffer) || (done && ltb 0 (length u.buffer))

  -- `!isFinal && buffer.byteLength < chunkTarget`, where a chunk is final when it is the last.
  abbrev pub stops : Bool → Upload → Bool
  stops done u =
      not (done && not (ltb 0 (length u.buffer)))
      && ltb (length u.buffer) (align_chunk input.chunk_size)

  -- The inner loop, on fuel: each turn takes bytes off the buffer.
  unfoldable pub send_loop : ℕ → Bool → Upload → Result Upload
  unfolding send_chunk
  send_loop zero done u = ok u
  send_loop (suc fuel) done u = elim (wants done u) [
    | false ↦ ok u
    | true ↦ do
      next ← send_chunk done u
      let rest = send_loop fuel done next in if stops done next then ok next else rest
  ]

  unfoldable pub send_all : Bool → Upload → Result Upload
  unfolding send_loop
  send_all done u = send_loop (length u.buffer) done u

  -- No file yet: a request without bytes completes the upload.
  abbrev pub last_request : Upload → Sent
  last_request u = record {
    chunk = [];
    start_offset = u.uploaded_size;
    total_bytes = some u.uploaded_size;
    is_final = true;
  }

  abbrev pub complete : Upload → Sent → Progress → Option ℕ → Result UploadResult
  complete u last progress none = err internal_error
  complete u last progress (some id) =
      ok (record { file = id; size = progress.committed_bytes; requests = last ∷ u.sent })

  abbrev pub finish : Option ℕ → Upload → Result UploadResult
  finish (some id) u = ok (record { file = id; size = u.uploaded_size; requests = u.sent })
  finish none u = do
    progress ← drive u.sent (last_request u)
    complete u (last_request u) progress progress.uploaded

  module _ {S : Type 0} (cipher : Cipher S) where
    -- A value without bytes is passed over.
    abbrev pub updated : S → Bytes → Bytes × S
    updated state value = if ltb 0 (length value) then cipher.update state value else ([], state)

    -- The outer loop, from the values still to be read, the cipher and the bytes streamed.
    unfoldable pub read_loop : List Bytes → S → ℕ → Upload → Result Upload
    unfolding send_all
    read_loop [] state streamed u =
        send_all true (record u { buffer = u.buffer ++ cipher.final state })
    read_loop (value ∷ values) state streamed u = do
      require (not (ltb 0 (length value) && ltb input.max_bytes (streamed + length value)))
          entity_too_large
      next ← send_all false (record u { buffer = u.buffer ++ (updated state value).0 })
      read_loop values (updated state value).1 (streamed + length value) next

    unfoldable pub upload_resumable : List Bytes → Result UploadResult
    unfolding read_loop
    upload_resumable values = do u ← read_loop values cipher.start 0 new_upload; finish u.uploaded u
