-- ===== src/Chunked/RoundTrip.antt =====
-- A signed body decodes to the chunks it was made of: s3/aws-chunked.ts.
use gdrive_s.Base.{
  ℕ, suc, ◌+◌, ◌≤◌, ◌<◌, ◌≡◌, refl, ap, ◌∙◌, true, false, Option, some, List, [], ◌∷◌, ◌++◌, leb,
  eqb, length, length-append, all, All, Text, ==_refl, units_key, map, arith,
}
use gdrive_s.S3Error.{ok}
use gdrive_s.Base.{Bytes, concat}
use gdrive_s.Chunked.Reader.{Input, read_line, ensure}
use gdrive_s.Chunked.{
  Runtime, AwsChunkedAuth, Decoder, chunk, closed, expected_signature, length_ok, pulled, pull,
  pull_all, continued, before, decode_aws_chunked_body, max_safe,
}
use gdrive_s.Chunked.Lines.{ahead, line_from-line, ensure_from-enough, take-ahead}
use gdrive_s.Chunked.Headers.{
  hex_value, header_text, is_plain, IsSignature, header_text-plain, parse_header-text, plain-no_cr,
  length-header_text,
}

-- A chunk as it is sent: its size in hexadecimal, as the sender wrote it, and its bytes.
pub record Piece : Type 0 where
  pub first_digit : ℕ
  pub digits : Text
  pub bytes : Bytes

pub record IsPiece (p : Piece) : Type 0 where
  pub value : hex_value 0 (p.first_digit ∷ p.digits) ≡ some (length p.bytes)
  pub safe : length p.bytes ≤ max_safe
  pub short : length p.digits < 8000

-- What the decoder relies on of the runtime: ASCII bytes are their own text, and the HMAC is 32
-- bytes in lower-case hexadecimal.
pub record IsRuntime (r : Runtime) : Type 0 where
  pub ascii : (s : Text) → all is_plain s ≡ true → r.decode s ≡ s
  pub digest : (s : Text) → IsSignature (r.hmac_hex s)

module _ (r : Runtime) (auth : AwsChunkedAuth) where
  -- One chunk on the wire, signed after the signature of the one before.
  abbrev pub header_of : Text → Piece → Text
  header_of previous p =
      header_text (p.first_digit ∷ p.digits) (expected_signature r auth previous p.bytes)

  abbrev pub framed : Text → Piece → Bytes → Bytes
  framed previous p rest = header_of previous p ++ (13 ∷ 10 ∷ (p.bytes ++ (13 ∷ 10 ∷ rest)))

  -- The chunks, then one without bytes.
  abbrev pub encoded : Text → List Piece → Piece → Bytes
  encoded previous [] last = framed previous last []
  encoded previous (p ∷ pieces) last =
      framed previous p (encoded (expected_signature r auth previous p.bytes) pieces last)

  module _ (runtime : IsRuntime r) where
    signed :
        (previous : Text) (bytes : Bytes) → IsSignature (expected_signature r auth previous bytes)
    unfolding expected_signature
    signed previous bytes = runtime.digest _

    read_line-header :
        (previous : Text) (p : Piece) (rest : Bytes) (input : Input)
        → IsPiece p
        → ahead input ≡ framed previous p rest
        → (after : Input) × (read_line input ≡ ok (header_of previous p, after))
          × (ahead after ≡ p.bytes ++ (13 ∷ 10 ∷ rest))
    unfolding read_line
    read_line-header previous p rest input piece e =
        line_from-line input.reads input.buffer (header_of previous p) _ e
          (plain-no_cr (header_of previous p) (
            header_text-plain (p.first_digit ∷ p.digits) _ _ piece.value (signed previous p.bytes)))
          (omega (
            arith,
            piece.short,
            length-header_text (p.first_digit ∷ p.digits) _ (signed previous p.bytes),
          ))

    -- The decoder after a chunk.
    next_decoder : Text → Piece → Input → Decoder → Decoder
    next_decoder previous p input d = record {
      input = input;
      previous_signature = expected_signature r auth previous p.bytes;
      decoded_length = d.decoded_length + length p.bytes;
    }

    module _ (expected_length : Option ℕ) where
      pull-ahead :
          (p : Piece) (rest : Bytes) (d : Decoder)
          → IsPiece p
          → ahead d.input ≡ framed d.previous_signature p rest
          → (after : Input) × (pull r auth expected_length d
              ≡ pulled r auth expected_length
                  (length p.bytes)
                  p.bytes
                  (next_decoder d.previous_signature p after d))
            × (ahead after ≡ rest)
      unfolding pull ensure next_decoder
      pull-ahead p rest d piece e =
          let sig = expected_signature r auth d.previous_signature p.bytes in
          let (first, line, there) = read_line-header d.previous_signature p rest d.input piece e in
          let text = runtime.ascii (header_of d.previous_signature p) (
            header_text-plain (p.first_digit ∷ p.digits) sig (length p.bytes) piece.value
              (signed d.previous_signature p.bytes)) in
          let header =
            parse_header-text p.first_digit p.digits sig (length p.bytes) piece.value
              (signed d.previous_signature p.bytes) in
          let safe : leb (length p.bytes) max_safe ≡ true = ground (arith, piece.safe) in
          let (second, gathered, same, enough) =
            ensure_from-enough (length p.bytes + 2) first.reads first.buffer
              (omega (arith, ap length there, length-append p.bytes (13 ∷ 10 ∷ rest))) in
          let (taken, (left, dropped, rest_there)) =
            take-ahead p.bytes second.buffer (concat second.reads) rest (same ∙ there) enough in
          (
            record second { buffer = left },
            rw line (
                rw text (
                  rw header
                    (rw safe (rw gathered (rw dropped (rw taken (rw (==_refl sig) refl))))))),
            rest_there,
          )

      pull-piece :
          (p : Piece) (rest : Bytes) (d : Decoder)
          → IsPiece p
          → 0 < length p.bytes
          → ahead d.input ≡ framed d.previous_signature p rest
          → (after : Input) × (pull r auth expected_length d
              ≡ ok (chunk p.bytes (next_decoder d.previous_signature p after d)))
            × (ahead after ≡ rest)
      pull-piece p rest d piece full e =
          let (after, pulls, there) = pull-ahead p rest d piece e in
          let some_bytes : eqb (length p.bytes) 0 ≡ false = ground (arith, full) in
          (after, pulls ∙ rw some_bytes refl, there)

      pull-last :
          (p : Piece) (rest : Bytes) (d : Decoder)
          → IsPiece p
          → length p.bytes ≡ 0
          → ahead d.input ≡ framed d.previous_signature p rest
          → length_ok r auth expected_length d.decoded_length ≡ true
          → pull r auth expected_length d ≡ ok closed
      unfolding next_decoder
      pull-last p rest d piece empty e matches =
          let (after, pulls, there) = pull-ahead p rest d piece e in
          let same : length_ok r auth expected_length (d.decoded_length + length p.bytes) ≡ true =
            ap (length_ok r auth expected_length) (omega (arith, empty)) ∙ matches in
          let no_bytes : eqb (length p.bytes) 0 ≡ true = ground (arith, empty) in
          pulls ∙ rw no_bytes (rw same refl)

      pull_all-encoded :
          (pieces : List Piece) (last : Piece) (d : Decoder)
          → All (λ p. IsPiece p × (0 < length p.bytes)) pieces
          → IsPiece last
          → length last.bytes ≡ 0
          → ahead d.input ≡ encoded d.previous_signature pieces last
          → length_ok r auth expected_length
              (d.decoded_length + length (concat (map (λ p. p.bytes) pieces)))
            ≡ true
          → pull_all r auth expected_length (suc (length pieces)) d
            ≡ some (map (λ p. p.bytes) pieces, ok tt)
      unfolding pull_all next_decoder
      pull_all-encoded [] last d tt is_last empty e matches =
          ap (λ o. continued r auth expected_length o (pull_all r auth expected_length 0))
            (pull-last last [] d is_last empty e
              (ap (length_ok r auth expected_length) (omega arith) ∙ matches))
      pull_all-encoded (p ∷ pieces) last d ((piece, full), later) is_last empty e matches =
          let (after, pulls, there) = pull-piece p _ d piece full e in
          let next = next_decoder d.previous_signature p after d in
          let total = length (concat (map (λ q. q.bytes) pieces)) in
          ap
            (λ o.
              continued r auth expected_length o
                (pull_all r auth expected_length (suc (length pieces))))
            pulls
          ∙ ap (before r auth expected_length p.bytes) (
              pull_all-encoded pieces last next later is_last empty there (
                ap (length_ok r auth expected_length)
                  (omega (arith, length-append p.bytes (concat (map (λ q. q.bytes) pieces))))
                ∙ matches))

      -- Encoding and decoding a signed body is the identity: chunks that are signed one after the
      -- other and closed by one without bytes, however the wire cuts them into reads, decode to the
      -- bytes of the chunks and a stream that ends well, when the length that is expected, if any,
      -- is theirs, in as many turns as there are chunks.
      pub decode-encoded :
          (pieces : List Piece) (last : Piece) (reads : List Bytes)
          → All (λ p. IsPiece p × (0 < length p.bytes)) pieces
          → IsPiece last
          → length last.bytes ≡ 0
          → concat reads ≡ encoded auth.seed_signature pieces last
          → length_ok r auth expected_length (length (concat (map (λ p. p.bytes) pieces))) ≡ true
          → decode_aws_chunked_body r auth expected_length (suc (length pieces)) reads
            ≡ some (map (λ p. p.bytes) pieces, ok tt)
      unfolding decode_aws_chunked_body
      decode-encoded pieces last reads are_pieces is_last empty e matches =
          pull_all-encoded pieces last _ are_pieces is_last empty e
            (ap (length_ok r auth expected_length) (omega arith) ∙ matches)
