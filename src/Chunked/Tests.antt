-- ===== src/Chunked/Tests.antt =====
-- Tests and witnesses of the chunked body.
use gdrive_s.Base.{
  ℕ, zero, suc, ◌+◌, ◌%◌, ◌≡◌, refl, none, some, List, [], ◌∷◌, Text, units, if◌then◌else◌, eqb,
  Bool-cases, inl, inr, arith, after_prefix,
}
use gdrive_s.S3Error.{ok, err, invalid_request}
use gdrive_s.Base.{Bytes, take, drop}
use gdrive_s.Chunked.Reader.{read_line, line_from, find_crlf, ensure, ensure_from}
use gdrive_s.Chunked.{
  Runtime, AwsChunkedAuth, expected_signature, string_to_sign, newline, parse_header, read_size,
  hex_digit, pull, pull_all, decode_aws_chunked_body,
}
use gdrive_s.Chunked.Headers.{hex_value, IsSignature}
use gdrive_s.Chunked.RoundTrip.{Piece, IsPiece, IsRuntime, encoded, decode-encoded}

abbrev sum : Text → ℕ
sum [] = 0
sum (c ∷ s) = c + sum s

abbrev copies : ℕ → ℕ → Text
copies zero c = []
copies (suc n) c = c ∷ copies n c

-- A runtime whose hash is the parity of a text.
abbrev digest : Text → Text
digest s = if eqb (sum s % 2) 0 then copies 64 b'a' else copies 64 b'0'

abbrev runtime : Runtime
runtime = record { decode = λ s. s; sha256_hex = λ s. s; hmac_hex = digest }

digest-IsSignature : (s : Text) → IsSignature (digest s)
digest-IsSignature s = elim (Bool-cases (eqb (sum s % 2) 0)) [
  | inl e ↦ rw e (record { size = refl; digits = refl })
  | inr e ↦ rw e (record { size = refl; digits = refl })
]

runtime-IsRuntime : IsRuntime runtime
runtime-IsRuntime = record { ascii = λ s h. refl; digest = digest-IsSignature }

abbrev auth : AwsChunkedAuth
auth = record { seed_signature = units "seed"; amz_date = units "d"; scope = units "s" }

abbrev hello : Piece
hello = record { first_digit = b'5'; digits = []; bytes = units "hello" }

abbrev eleven : Piece
eleven = record { first_digit = b'0'; digits = units "B"; bytes = units "hello world" }

abbrev end : Piece
end = record { first_digit = b'0'; digits = []; bytes = [] }

hello-IsPiece : IsPiece hello
unfolding hex_value hex_digit
hello-IsPiece = record { value = refl; safe = omega arith; short = omega arith }

eleven-IsPiece : IsPiece eleven
unfolding hex_value hex_digit
eleven-IsPiece = record { value = refl; safe = omega arith; short = omega arith }

end-IsPiece : IsPiece end
unfolding hex_value hex_digit
end-IsPiece = record { value = refl; safe = omega arith; short = omega arith }

abbrev wire : Bytes
wire = encoded runtime auth auth.seed_signature (hello ∷ eleven ∷ []) end

-- The body is cut within its first header.
abbrev reads : List Bytes
reads = take 10 wire ∷ [] ∷ drop 10 wire ∷ []

decode-encoded_example :
    decode_aws_chunked_body runtime auth (some 16) 3 reads
    ≡ some (units "hello" ∷ units "hello world" ∷ [], ok tt)
unfolding expected_signature string_to_sign newline
decode-encoded_example =
    decode-encoded runtime auth runtime-IsRuntime (some 16) (hello ∷ eleven ∷ []) end reads
      ((hello-IsPiece, omega arith), ((eleven-IsPiece, omega arith), tt)) end-IsPiece refl refl refl

-- The wrong length at the end, and a body that ends too soon.
mismatch_test :
    (decode_aws_chunked_body runtime auth
        (some 4)
        2
        (encoded runtime auth auth.seed_signature (hello ∷ []) end ∷ [])
      ≡ some (units "hello" ∷ [], err invalid_request))
    × (decode_aws_chunked_body runtime auth none 2 (take 70 wire ∷ [])
        ≡ some ([], err invalid_request))
unfolding expected_signature string_to_sign newline decode_aws_chunked_body pull_all pull read_line
    line_from find_crlf parse_header read_size hex_digit ensure ensure_from after_prefix
mismatch_test = (refl, refl)
