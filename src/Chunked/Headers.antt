-- ===== src/Chunked/Headers.antt =====
-- The header of a chunk, written and read: the regular expression of s3/aws-chunked.ts.
use gdrive_s.Base.{
  ℕ, ◌+◌, ◌*◌, ◌≡◌, refl, ap, ◌∙◌, Bool, true, false, not, ◌&&◌, Option, none, some, [], ◌∷◌, ◌++◌,
  ltb, eqb, length, length-append, all, Text, units, if◌then◌else◌, arith, after_prefix,
}
use gdrive_s.Chunked.{
  hex_digit, read_size, parse_header, after_size, signature_of, with_digit, is_lower_hex,
}
use gdrive_s.Chunked.Lines.{no_cr}

-- The value of a text of hexadecimal digits, from the value so far.
unfoldable pub hex_value : ℕ → Text → Option ℕ
hex_value value [] = some value
hex_value value (c ∷ s) = with_digit (hex_digit c) (λ d. hex_value (value * 16 + d) s)

-- The text of a header.
abbrev pub header_text : Text → Text → Text
header_text size_text signature = size_text ++ (b';' ∷ (units "chunk-signature=" ++ signature))

-- ASCII, and not a carriage return.
abbrev pub is_plain : ℕ → Bool
is_plain c = ltb c 128 && not (eqb c 13)

pub record IsSignature (s : Text) : Type 0 where
  pub size : length s ≡ 64
  pub digits : all is_lower_hex s ≡ true

hex_digit-plain : (c d : ℕ) → hex_digit c ≡ some d → (is_plain c ≡ true) × (eqb c b';' ≡ false)
unfolding hex_digit
hex_digit-plain c d h = (ground arith, ground arith)

pub length-header_text :
    (size_text signature : Text)
    → IsSignature signature
    → length (header_text size_text signature) ≡ length size_text + 81
length-header_text size_text signature s =
    omega (arith, length-append size_text (b';' ∷ (units "chunk-signature=" ++ signature)), s.size)

with_digit-some :
    (o : Option ℕ) (f : ℕ → Option ℕ) (n : ℕ)
    → with_digit o f ≡ some n
    → (d : ℕ) × (o ≡ some d) × (f d ≡ some n)
with_digit-some none f n h = cc
with_digit-some (some d) f n h = (d, refl, h)

read_size-value :
    (v n : ℕ) (s t : Text) → hex_value v s ≡ some n → read_size v (s ++ b';' ∷ t) ≡ some (n, t)
unfolding hex_value read_size
read_size-value v n [] t h = ground arith
read_size-value v n (c ∷ s) t h =
    let (d, digit, rest) = with_digit-some (hex_digit c) (λ d. hex_value (v * 16 + d) s) n h in
    rw (hex_digit-plain c d digit).1 (
      ap (λ o. with_digit o (λ x. read_size (v * 16 + x) (s ++ b';' ∷ t))) digit
      ∙ read_size-value (v * 16 + d) n s t rest)

all-append : (p : ℕ → Bool) (s t : Text) → all p s ≡ true → all p t ≡ true → all p (s ++ t) ≡ true
all-append p [] t hs ht = ht
all-append p (c ∷ s) t hs ht = ground (arith, all-append p s t)

hex_value-plain : (v n : ℕ) (s : Text) → hex_value v s ≡ some n → all is_plain s ≡ true
unfolding hex_value
hex_value-plain v n [] h = refl
hex_value-plain v n (c ∷ s) h =
    let (d, digit, rest) = with_digit-some (hex_digit c) (λ d. hex_value (v * 16 + d) s) n h in
    ground (arith, (hex_digit-plain c d digit).0, hex_value-plain (v * 16 + d) n s rest)

lower_hex-plain : (s : Text) → all is_lower_hex s ≡ true → all is_plain s ≡ true
lower_hex-plain [] h = refl
lower_hex-plain (c ∷ s) h = ground (arith, lower_hex-plain s)

pub plain-no_cr : (s : Text) → all is_plain s ≡ true → no_cr s ≡ true
plain-no_cr [] h = refl
plain-no_cr (c ∷ s) h = ground (arith, plain-no_cr s)

pub header_text-plain :
    (size_text signature : Text) (n : ℕ)
    → hex_value 0 size_text ≡ some n
    → IsSignature signature
    → all is_plain (header_text size_text signature) ≡ true
header_text-plain size_text signature n h s =
    all-append is_plain size_text (b';' ∷ (units "chunk-signature=" ++ signature))
      (hex_value-plain 0 n size_text h)
      (all-append is_plain (units ";chunk-signature=") signature refl
        (lower_hex-plain signature s.digits))

signature_of-own :
    (n : ℕ) (signature : Text)
    → IsSignature signature
    → signature_of n
        (after_prefix (units "chunk-signature=") (units "chunk-signature=" ++ signature))
      ≡ some (record { size = n; signature = signature })
unfolding after_prefix
signature_of-own n signature s =
    let long : eqb (length signature) 64 ≡ true = ground (arith, s.size) in
    rw long (rw s.digits refl)

pub parse_header-text :
    (c : ℕ) (digits signature : Text) (n : ℕ)
    → hex_value 0 (c ∷ digits) ≡ some n
    → IsSignature signature
    → parse_header (header_text (c ∷ digits) signature)
      ≡ some (record { size = n; signature = signature })
unfolding parse_header hex_value
parse_header-text c digits signature n h s =
    let (d, digit, rest) = with_digit-some (hex_digit c) (λ d. hex_value (0 * 16 + d) digits) n h in
    let tail = units "chunk-signature=" ++ signature in
    ap (λ b. if b then none else after_size (read_size 0 ((c ∷ digits) ++ (b';' ∷ tail))))
      (hex_digit-plain c d digit).1
    ∙ (ap after_size (read_size-value 0 n (c ∷ digits) tail h) ∙ signature_of-own n signature s)
