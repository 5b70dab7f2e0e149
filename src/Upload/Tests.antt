-- ===== src/Upload/Tests.antt =====
-- Tests and witnesses of the resumable upload.
use gdrive_s.Base.{ℕ, ◌+◌, ◌≡◌, refl, true, none, some, List, [], ◌∷◌, length, if◌then◌else◌, arith}
use gdrive_s.S3Error.{Result, ok, err, entity_too_large}
use gdrive_s.Base.{Bytes}
use gdrive_s.Upload.{
  Sent, Progress, Cipher, UploadInput, UploadResult, upload_resumable, align_chunk, read_loop,
  send_all, send_loop, send_chunk,
}
use gdrive_s.Upload.Delivered.{Delivered, encrypted, upload_resumable-Delivered}

-- A Drive that takes whatever it is sent.
abbrev drive : List Sent → Sent → Result Progress
drive earlier x = ok (record {
  committed_bytes = x.start_offset + length x.chunk;
  uploaded = if x.is_final then some 7 else none;
})

-- A cipher that counts in its state, adds the count to each byte, and has a tail of one byte.
abbrev shifted : ℕ → Bytes → Bytes
shifted n [] = []
shifted n (b ∷ bytes) = (b + n) ∷ shifted n bytes

abbrev cipher : Cipher ℕ
cipher = record { start = 1; update = λ n bytes. (shifted n bytes, n + 1); final = λ n. n ∷ [] }

abbrev input : UploadInput
input = record {
  content_length = none;
  max_bytes = 3;
  resumable_threshold = 5;
  chunk_size = 300000;
}

abbrev body : List Bytes
body = (10 ∷ 20 ∷ []) ∷ [] ∷ (30 ∷ []) ∷ []

abbrev one_chunk : Sent
one_chunk = record {
  chunk = 11 ∷ 21 ∷ 32 ∷ 3 ∷ [];
  start_offset = 0;
  total_bytes = some 4;
  is_final = true;
}

aligned_test :
    (align_chunk 300000 ≡ 262144) × (align_chunk 5 ≡ 262144) × (align_chunk 524289 ≡ 524288)
unfolding align_chunk
aligned_test = (refl, refl, refl)

upload_test :
    upload_resumable input drive cipher body
    ≡ ok (record { file = 7; size = 4; requests = one_chunk ∷ [] })
unfolding upload_resumable read_loop send_all send_loop send_chunk align_chunk
upload_test = refl

-- A larger stream is refused.
refused_test :
    upload_resumable (record input { max_bytes = 2 }) drive cipher body ≡ err entity_too_large
unfolding upload_resumable read_loop send_all send_loop send_chunk align_chunk
refused_test = refl

upload_resumable-Delivered_example :
    (r : UploadResult) × (upload_resumable input drive cipher body ≡ ok r)
    × Delivered input drive 7 (encrypted input drive 7 cipher body 1) r
upload_resumable-Delivered_example =
    upload_resumable-Delivered input drive 7 cipher body (λ earlier x. refl) (omega arith) refl
