-- ===== src/Upload/Delivered.antt =====
-- What Drive holds after a resumable upload: uploadResumable of drive/upload-streaming.ts.
use mathlib.Core.List.{append_assoc}
use mathlib.Core.Path.{subst}
use gdrive_s.Base.{
  ℕ, zero, suc, ◌+◌, ◌≤◌, ◌<◌, ◌≡◌, refl, ap, ◌∙◌, sym, true, false, not, ◌&&◌, none, some, List,
  [], ◌∷◌, ◌++◌, ltb, length, length-append, All, Bool-cases, inl, inr, arith,
}
use gdrive_s.S3Error.{Result, ok, ◌>>=◌}
use gdrive_s.Base.{Bytes, concat, take_all, drop_all, empty-eq}
use gdrive_s.Upload.{
  Sent, Progress, Cipher, UploadInput, Upload, UploadResult, new_upload, size_ok, send_chunk,
  send_loop, send_all, finish, last_request, updated, read_loop, upload_resumable,
}
use gdrive_s.Upload.Sending.{
  joined, Offsets, TakesAll, IsFull, Sending, Sending-append, size_ok_le, Sending-le,
  send_loop-Sending, send_loop-turn, send_loop-idle, align_chunk_pos,
}

module _ (input : UploadInput) (drive : List Sent → Sent → Result Progress) (file : ℕ) where
  -- The requests of a complete upload of `c`.
  pub record Delivered (c : Bytes) (r : UploadResult) : Type 0 where
    pub last : Sent
    pub earlier : List Sent
    pub requests : r.requests ≡ last ∷ earlier
    pub bytes : joined earlier ++ last.chunk ≡ c
    pub offsets : Offsets (last ∷ earlier)
    pub full : All (IsFull input drive file) earlier
    pub final : last.is_final ≡ true
    pub total : last.total_bytes ≡ some (length c)
    pub size : r.size ≡ length c
    pub same_file : r.file ≡ file

  -- The last chunk, of all that is in the buffer.
  last_chunk : Upload → Sent
  last_chunk u = record {
    chunk = u.buffer;
    start_offset = u.uploaded_size;
    total_bytes = some (u.uploaded_size + length u.buffer);
    is_final = true;
  }

  all_sent : Upload → Upload
  unfolding last_chunk
  all_sent u = record {
    buffer = [];
    uploaded_size = u.uploaded_size + length u.buffer;
    uploaded = some file;
    sent = last_chunk u ∷ u.sent;
  }

  send_chunk-last :
      (u : Upload)
      → TakesAll input drive file
      → size_ok input drive (u.uploaded_size + length u.buffer) ≡ true
      → send_chunk input drive true u ≡ ok (all_sent u)
  unfolding send_chunk all_sent
  send_chunk-last u takes fits =
      rw (take_all u.buffer)
        (rw (drop_all u.buffer) (rw fits (rw (takes u.sent (last_chunk u)) refl)))

  send_loop-last :
      (fuel : ℕ) (u : Upload)
      → TakesAll input drive file
      → 0 < length u.buffer
      → size_ok input drive (u.uploaded_size + length u.buffer) ≡ true
      → 0 < fuel
      → send_loop input drive fuel true u ≡ ok (all_sent u)
  unfolding all_sent
  send_loop-last zero u takes some_left fits fuelled = absurd (omega (arith, fuelled))
  send_loop-last (suc fuel) u takes some_left fits fuelled =
      send_loop-turn input drive file fuel true u (all_sent u) (ground arith)
        (send_chunk-last u takes fits)
      ∙ send_loop-idle input drive file fuel true (all_sent u)
          (ground (arith, align_chunk_pos input.chunk_size))

  finish-pending :
      (u : Upload)
      → TakesAll input drive file
      → u.uploaded ≡ none
      → finish input drive u.uploaded u
        ≡ ok (record {
          file = file;
          size = u.uploaded_size + 0;
          requests = last_request input drive u ∷ u.sent;
        })
  finish-pending u takes pending =
      ap (λ o. finish input drive o u) pending ∙ rw (takes u.sent (last_request input drive u)) refl

  -- The upload is complete once the body is at its end.
  Completed : Bytes → Result Upload → Type 0
  Completed c outcome =
      (v : Upload) × (outcome ≡ ok v)
      × (r : UploadResult) × (finish input drive v.uploaded v ≡ ok r)
      × Delivered c r

  send_all-Completed :
      (c : Bytes) (u : Upload)
      → TakesAll input drive file
      → Sending input drive file c u
      → size_ok input drive (length c) ≡ true
      → Completed c (send_all input drive true u)
  unfolding send_all Completed all_sent last_chunk
  send_all-Completed c u takes s fits = elim (Bool-cases (ltb 0 (length u.buffer))) [
    | inl e ↦ (
      all_sent u,
      send_loop-last (length u.buffer) u takes (ground arith)
          (ap (size_ok input drive) (Sending-le input drive file c u s) ∙ fits) (ground arith),
      record {
        file = file;
        size = u.uploaded_size + length u.buffer;
        requests = last_chunk u ∷ u.sent;
      },
      refl,
      record {
        last = last_chunk u;
        earlier = u.sent;
        requests = refl;
        bytes = s.bytes;
        offsets = (s.offset, s.offsets);
        full = s.full;
        final = refl;
        total = ap some (Sending-le input drive file c u s);
        size = Sending-le input drive file c u s;
        same_file = refl;
      },
    )
    | inr e ↦
        let empty = empty-eq u.buffer (ground arith) in
        let all_out : u.uploaded_size ≡ length c =
          omega (arith, Sending-le input drive file c u s, ap length empty) in
        (
          u,
          send_loop-idle input drive file (length u.buffer) true u (ground arith),
          record {
            file = file;
            size = u.uploaded_size + 0;
            requests = last_request input drive u ∷ u.sent;
          },
          finish-pending u takes s.pending,
          record {
            last = last_request input drive u;
            earlier = u.sent;
            requests = refl;
            bytes = ap (λ b. joined u.sent ++ b) (sym empty) ∙ s.bytes;
            offsets = (s.offset, s.offsets);
            full = s.full;
            final = refl;
            total = ap some all_out;
            size = omega (arith, all_out);
            same_file = refl;
          },
        )
  ]

  module _ {S : Type 0} (cipher : Cipher S) where
    -- What the cipher makes of a stream.
    abbrev pub encrypted : List Bytes → S → Bytes
    encrypted [] state = cipher.final state
    encrypted (value ∷ values) state =
        (updated input drive cipher state value).0
        ++ encrypted values (updated input drive cipher state value).1

    read_loop-next :
        (value : Bytes) (values : List Bytes) (state : S) (streamed : ℕ) (u next : Upload)
        → not (ltb 0 (length value) && ltb input.max_bytes (streamed + length value)) ≡ true
        → send_all input drive false
            (record u { buffer = u.buffer ++ (updated input drive cipher state value).0 })
          ≡ ok next
        → read_loop input drive cipher (value ∷ values) state streamed u
          ≡ read_loop input drive cipher values
              (updated input drive cipher state value).1
              (streamed + length value)
              next
    unfolding read_loop
    read_loop-next value values state streamed u next within went = rw within (rw went refl)

    read_loop-Completed :
        (values : List Bytes) (state : S) (streamed : ℕ) (c : Bytes) (u : Upload)
        → TakesAll input drive file
        → Sending input drive file c u
        → streamed + length (concat values) ≤ input.max_bytes
        → size_ok input drive (length (c ++ encrypted values state)) ≡ true
        → Completed
            (c ++ encrypted values state)
            (read_loop input drive cipher values state streamed u)
    unfolding read_loop send_all
    read_loop-Completed [] state streamed c u takes s small fits =
        send_all-Completed (c ++ cipher.final state) _ takes
          (Sending-append input drive file c (cipher.final state) u s) fits
    read_loop-Completed (value ∷ values) state streamed c u takes s small fits =
        let x = (updated input drive cipher state value).0 in
        let rest = encrypted values (updated input drive cipher state value).1 in
        let more = record u { buffer = u.buffer ++ x } in
        let within : size_ok input drive (length (c ++ x)) ≡ true =
          size_ok_le input drive file _ _
            (omega (arith, length-append c x, length-append c (x ++ rest), length-append x rest))
            fits in
        let (next, loops, s', _) =
          send_loop-Sending input drive file (length more.buffer) (c ++ x) more takes
            (Sending-append input drive file c x u s) (omega arith) within in
        subst (λ b. Completed b (read_loop input drive cipher (value ∷ values) state streamed u))
          (append_assoc c x rest)
          (subst (Completed ((c ++ x) ++ rest))
            (sym (
              read_loop-next value values state streamed u next
                (ground (arith, length-append value (concat values))) loops))
            (read_loop-Completed values (updated input drive cipher state value).1
              (streamed + length value) (c ++ x) next takes s'
              (omega (arith, length-append value (concat values)))
              (ap (λ b. size_ok input drive (length b)) (append_assoc c x rest) ∙ fits)))

    -- The upload of a stream that is no larger than allowed, to a Drive that takes every chunk
    -- whole, succeeds: the chunks sent are, in their order, what the cipher makes of the stream,
    -- each starts where the one before ends, all but the last have the aligned size, and the last
    -- alone is final and tells the total.
    pub upload_resumable-Delivered :
        (values : List Bytes)
        → TakesAll input drive file
        → length (concat values) ≤ input.max_bytes
        → size_ok input drive (length (encrypted values cipher.start)) ≡ true
        → (r : UploadResult) × (upload_resumable input drive cipher values ≡ ok r)
          × Delivered (encrypted values cipher.start) r
    unfolding upload_resumable Completed
    upload_resumable-Delivered values takes small fits =
        let (v, reads, r, finishes, delivered) =
          read_loop-Completed values cipher.start 0 [] new_upload takes
            (record { bytes = refl; offset = refl; offsets = tt; full = tt; pending = refl })
            (omega (arith, small)) fits in
        (r, ap (λ o. o >>= λ u. finish input drive u.uploaded u) reads ∙ finishes, delivered)
