-- ===== src/Upload/Sending.antt =====
-- The inner loop of the resumable upload, with a Drive that takes whole chunks.
use mathlib.Core.List.{append_assoc}
use gdrive_s.Base.{
  ℕ, zero, suc, ◌+◌, ◌%◌, ◌≤◌, ◌<◌, ◌≡◌, refl, ap, ◌∙◌, sym, Bool, true, false, none, some, List,
  [], ◌∷◌, ◌++◌, length, length-append, if◌then◌else◌, All, Bool-cases, inl, inr, arith,
}
use gdrive_s.S3Error.{Result, ok}
use gdrive_s.Base.{Bytes, take, drop, take-append-drop, length-take, length-drop}
use gdrive_s.Upload.{
  Sent, Progress, UploadInput, Upload, resumable_alignment, align_chunk, size_ok, request,
  send_chunk, send_loop, wants, stops,
}

-- The bytes of the requests, the latest of which comes first.
abbrev pub joined : List Sent → Bytes
joined [] = []
joined (x ∷ earlier) = joined earlier ++ x.chunk

-- Each request starts where the earlier ones end.
abbrev pub Offsets : List Sent → Type 0
Offsets [] = Unit
Offsets (x ∷ earlier) = (x.start_offset ≡ length (joined earlier)) × Offsets earlier

pub align_chunk_pos : (n : ℕ) → 0 < align_chunk n
unfolding align_chunk
align_chunk_pos n = ground arith

-- Drive takes only multiples of 256 KiB before the last chunk.
align_chunk_aligned : (n : ℕ) → align_chunk n % resumable_alignment ≡ 0
unfolding align_chunk
align_chunk_aligned n = ground arith

module _ (input : UploadInput) (drive : List Sent → Sent → Result Progress) (file : ℕ) where
  -- Drive takes every chunk whole, and completes the upload at the final one.
  abbrev pub TakesAll : Type 0
  TakesAll =
      (earlier : List Sent) (x : Sent)
      → drive earlier x
        ≡ ok (record {
          committed_bytes = x.start_offset + length x.chunk;
          uploaded = if x.is_final then some file else none;
        })

  -- A full chunk in the middle of the upload.
  abbrev pub IsFull : Sent → Type 0
  IsFull x =
      (length x.chunk ≡ align_chunk input.chunk_size)
      × (length x.chunk % resumable_alignment ≡ 0)
      × (x.is_final ≡ false)

  -- What has gone out and what is in the buffer make up the bytes read so far.
  pub record Sending (c : Bytes) (u : Upload) : Type 0 where
    pub bytes : joined u.sent ++ u.buffer ≡ c
    pub offset : u.uploaded_size ≡ length (joined u.sent)
    pub offsets : Offsets u.sent
    pub full : All IsFull u.sent
    pub pending : u.uploaded ≡ none

  pub size_ok_le : (a b : ℕ) → a ≤ b → size_ok input drive b ≡ true → size_ok input drive a ≡ true
  size_ok_le a b h fits = ground arith

  -- More bytes are read into the buffer.
  pub Sending-append :
      (c x : Bytes) (u : Upload)
      → Sending c u
      → Sending (c ++ x) (record u { buffer = u.buffer ++ x })
  Sending-append c x u s = record {
    bytes = sym (append_assoc (joined u.sent) u.buffer x) ∙ ap (λ t. t ++ x) s.bytes;
    offset = s.offset;
    offsets = s.offsets;
    full = s.full;
    pending = s.pending;
  }

  -- A turn in the middle: a full chunk goes out.
  sent_middle : Upload → Upload
  sent_middle u =
      let target = align_chunk input.chunk_size in
      record {
        buffer = drop target u.buffer;
        uploaded_size = u.uploaded_size + length (take target u.buffer);
        uploaded = u.uploaded;
        sent = request input drive false u (take target u.buffer) (drop target u.buffer) ∷ u.sent;
      }

  send_chunk-middle :
      (u : Upload)
      → TakesAll
      → size_ok input drive
          (u.uploaded_size + length (take (align_chunk input.chunk_size) u.buffer))
        ≡ true
      → send_chunk input drive false u ≡ ok (sent_middle u)
  unfolding send_chunk sent_middle
  send_chunk-middle u takes fits =
      let target = align_chunk input.chunk_size in
      let sent = request input drive false u (take target u.buffer) (drop target u.buffer) in
      rw fits (rw (takes u.sent sent) refl)

  sent_middle-Sending :
      (c : Bytes) (u : Upload)
      → Sending c u
      → align_chunk input.chunk_size < length u.buffer
      → Sending c (sent_middle u)
  unfolding sent_middle
  sent_middle-Sending c u s h =
      let target = align_chunk input.chunk_size in
      let chunk = take target u.buffer in
      record {
        bytes =
            append_assoc (joined u.sent) chunk (drop target u.buffer)
            ∙ ap (λ t. joined u.sent ++ t) (take-append-drop target u.buffer)
            ∙ s.bytes;
        offset = omega (arith, length-append (joined u.sent) chunk, s.offset);
        offsets = (s.offset, s.offsets);
        full = (
          (
            length-take target u.buffer (omega arith),
            ap (λ n. n % resumable_alignment) (length-take target u.buffer (omega arith))
                ∙ align_chunk_aligned input.chunk_size,
            refl,
          ),
          s.full,
        );
        pending = s.pending;
      }

  pub Sending-le :
      (c : Bytes) (u : Upload) → Sending c u → u.uploaded_size + length u.buffer ≡ length c
  Sending-le c u s =
      omega (arith, length-append (joined u.sent) u.buffer, ap length s.bytes, s.offset)

  pub send_loop-turn :
      (fuel : ℕ) (done : Bool) (u next : Upload)
      → wants input drive done u ≡ true
      → send_chunk input drive done u ≡ ok next
      → send_loop input drive (suc fuel) done u
        ≡ (if stops input drive done next then ok next else send_loop input drive fuel done next)
  unfolding send_loop
  send_loop-turn fuel done u next e went = rw (e, send_loop) (rw went refl)

  pub send_loop-idle :
      (fuel : ℕ) (done : Bool) (u : Upload)
      → wants input drive done u ≡ false
      → send_loop input drive fuel done u ≡ ok u
  unfolding send_loop
  send_loop-idle zero done u e = refl
  send_loop-idle (suc fuel) done u e = rw (e, send_loop) refl

  -- The loop leaves no more than a chunk in the buffer.
  pub send_loop-Sending :
      (fuel : ℕ) (c : Bytes) (u : Upload)
      → TakesAll
      → Sending c u
      → length u.buffer ≤ fuel
      → size_ok input drive (length c) ≡ true
      → (v : Upload) × (send_loop input drive fuel false u ≡ ok v)
        × Sending c v
        × (length v.buffer ≤ align_chunk input.chunk_size)
  unfolding send_loop sent_middle
  send_loop-Sending zero c u takes s enough fits = (u, refl, s, omega arith)
  send_loop-Sending (suc fuel) c u takes s enough fits =
      elim (Bool-cases (wants input drive false u)) [
        | inr e ↦ (u, rw (e, send_loop) refl, s, ground arith)
        | inl e ↦
            let next = sent_middle u in
            let long : align_chunk input.chunk_size < length u.buffer = ground arith in
            let kept = sent_middle-Sending c u s long in
            let went = send_chunk-middle u takes (
              size_ok_le _ (length c)
                (omega (
                  arith,
                  Sending-le c u s,
                  length-take (align_chunk input.chunk_size) u.buffer (omega arith),
                ))
                fits) in
            elim (Bool-cases (stops input drive false next)) [
              | inl f ↦ (
                next,
                send_loop-turn fuel false u next e went
                    ∙ ap (λ b. if b then ok next else send_loop input drive fuel false next) f,
                kept,
                ground arith,
              )
              | inr f ↦
                  let shorter : length next.buffer ≤ fuel = omega (
                    arith,
                    length-drop (align_chunk input.chunk_size) u.buffer,
                    align_chunk_pos input.chunk_size,
                  ) in
                  let (v, loops, s', small) =
                    send_loop-Sending fuel c next takes kept shorter fits in
                  (
                    v,
                    send_loop-turn fuel false u next e went
                        ∙ ap (λ b. if b then ok next else send_loop input drive fuel false next) f
                        ∙ loops,
                    s',
                    small,
                  )
            ]
      ]
