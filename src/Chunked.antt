-- ===== src/Chunked.antt =====
-- s3/aws-chunked.ts: a signed body in chunks, decoded while it is read.
-- The reader is the list of the values still to be read. Text is a list of code units.
pub mod Reader
pub mod Lines
pub mod Headers
pub mod RoundTrip
mod Tests
use gdrive_s.Base.{
  ℕ, zero, suc, ◌+◌, ◌*◌, ◌-◌, ◌^◌, Bool, true, false, not, ◌&&◌, ◌||◌, Option, none, some, List,
  [], ◌∷◌, ◌++◌, ltb, leb, eqb, length, all, Text, units, units_key, ◌==◌, is_none, holds,
  number_key, if◌then◌else◌, after_prefix,
}
use gdrive_s.S3Error.{
  S3Error, Result, ok, err, ◌>>=◌, ◌>>◌, require, invalid_request, signature_does_not_match,
}
use gdrive_s.Base.{Bytes, take, drop}
use gdrive_s.Chunked.Reader.{Input, read_line, ensure}

-- The runtime: the text of some bytes, and the two hashes, in hexadecimal. The key of the HMAC is
-- part of it.
pub record Runtime : Type 0 where
  pub decode : Bytes → Text
  pub sha256_hex : Bytes → Text
  pub hmac_hex : Text → Text

pub record AwsChunkedAuth : Type 0 where
  pub seed_signature : Text
  pub amz_date : Text
  pub scope : Text

-- The value of a hexadecimal digit.
unfoldable pub hex_digit : ℕ → Option ℕ
hex_digit c =
    if leb b'0' c && leb c b'9'
    then some (c - b'0')
    else if leb b'a' c && leb c b'f'
    then some (c - b'a' + 10)
    else if leb b'A' c && leb c b'F'
    then some (c - b'A' + 10)
    else none

abbrev pub is_lower_hex : ℕ → Bool
is_lower_hex c = (leb b'0' c && leb c b'9') || (leb b'a' c && leb c b'f')

-- A character that is no digit ends the match in vain.
abbrev pub with_digit {ℓ} : {A : Type ℓ} → Option ℕ → (ℕ → Option A) → Option A
with_digit none rest = none
with_digit (some d) rest = rest d

-- `[0-9a-fA-F]+;` from the value so far: the number, and what follows the semicolon.
unfoldable pub read_size : ℕ → Text → Option (ℕ × Text)
read_size value [] = none
read_size value (c ∷ s) =
    if eqb c b';'
    then some (value, s)
    else with_digit (hex_digit c) (λ d. read_size (value * 16 + d) s)

pub record Header : Type 0 where
  pub size : ℕ
  pub signature : Text

abbrev pub signature_of : ℕ → Option Text → Option Header
signature_of size none = none
signature_of size (some s) =
    if eqb (length s) 64 && all is_lower_hex s
    then some (record { size = size; signature = s })
    else none

abbrev pub after_size : Option (ℕ × Text) → Option Header
after_size none = none
after_size (some (size, s)) = signature_of size (after_prefix (units "chunk-signature=") s)

-- `/^([0-9a-fA-F]+);chunk-signature=([0-9a-f]{64})$/`: at least one digit.
unfoldable pub parse_header : Text → Option Header
parse_header [] = none
parse_header (c ∷ s) = if eqb c b';' then none else after_size (read_size 0 (c ∷ s))

-- `Number.MAX_SAFE_INTEGER`
abbrev pub max_safe : ℕ
max_safe = 2 ^ 53 - 1

-- The variables of the decoder.
pub record Decoder : Type 0 where
  pub input : Input
  pub previous_signature : Text
  pub decoded_length : ℕ

-- One turn of `pull`: a chunk and the decoder after it, or the end.
pub data Pulled : Type 0 where
  chunk : Bytes → Decoder → Pulled
  closed : Pulled

abbrev header_or : Option Header → Result Header
header_or none = err invalid_request
header_or (some h) = ok h

-- The delimiter after a chunk, and what follows it.
abbrev pub after_delimiter : Bytes → Result Bytes
after_delimiter [] = err invalid_request
after_delimiter (a ∷ []) = err invalid_request
after_delimiter (a ∷ b ∷ rest) = if eqb a 13 && eqb b 10 then ok rest else err invalid_request

module _ (r : Runtime) (auth : AwsChunkedAuth) where
  unfoldable pub newline : Text
  newline = 10 ∷ []

  unfoldable pub string_to_sign : Text → Bytes → Text
  unfolding newline
  string_to_sign previous bytes =
      units "AWS4-HMAC-SHA256-PAYLOAD"
      ++ newline
      ++ auth.amz_date
      ++ newline
      ++ auth.scope
      ++ newline
      ++ previous
      ++ newline
      ++ r.sha256_hex []
      ++ newline
      ++ r.sha256_hex bytes

  unfoldable pub expected_signature : Text → Bytes → Text
  unfolding string_to_sign
  expected_signature previous bytes = r.hmac_hex (string_to_sign previous bytes)

  module _ (expected_length : Option ℕ) where
    abbrev pub length_ok : ℕ → Bool
    length_ok n = is_none expected_length || holds expected_length n

    abbrev pub pulled : ℕ → Bytes → Decoder → Result Pulled
    pulled size bytes d =
        if eqb size 0
        then require (length_ok d.decoded_length) invalid_request >> ok closed
        else ok (chunk bytes d)

    unfoldable pub pull : Decoder → Result Pulled
    unfolding parse_header expected_signature
    pull d = do
      (line, input) ← read_line d.input
      header ← header_or (parse_header (r.decode line))
      require (leb header.size max_safe) invalid_request
      input ← ensure (header.size + 2) input
      rest ← after_delimiter (drop header.size input.buffer)
      let bytes = take header.size input.buffer in
          do
            require (header.signature == expected_signature d.previous_signature bytes)
                signature_does_not_match
            pulled header.size bytes (record {
              input = record input { buffer = rest };
              previous_signature = header.signature;
              decoded_length = d.decoded_length + header.size;
            })

    -- What a reader of the decoded stream gets: the chunks, and how the stream ends. `none` when
    -- the fuel, one unit for each turn, does not last.
    abbrev pub before :
        Bytes → Option (List Bytes × Result (Unit {0})) → Option (List Bytes × Result (Unit {0}))
    before bytes none = none
    before bytes (some (chunks, end)) = some (bytes ∷ chunks, end)

    abbrev pub continued :
        Result Pulled
        → (Decoder → Option (List Bytes × Result (Unit {0})))
        → Option (List Bytes × Result (Unit {0}))
    continued (err code) rest = some ([], err code)
    continued (ok closed) rest = some ([], ok tt)
    continued (ok (chunk bytes next)) rest = before bytes (rest next)

    unfoldable pub pull_all : ℕ → Decoder → Option (List Bytes × Result (Unit {0}))
    unfolding pull
    pull_all zero d = none
    pull_all (suc fuel) d = continued (pull d) (pull_all fuel)

    unfoldable pub decode_aws_chunked_body :
        ℕ → List Bytes → Option (List Bytes × Result (Unit {0}))
    unfolding pull_all
    decode_aws_chunked_body fuel reads = pull_all fuel (record {
      input = record { buffer = []; reads = reads };
      previous_signature = auth.seed_signature;
      decoded_length = 0;
    })
