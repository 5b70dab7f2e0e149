-- ===== src/Chunked/Lines.antt =====
-- However a body is cut into reads, the reader finds its lines and gathers its bytes.
use mathlib.Core.List.{append_assoc, append-nil, head-eq_of_cons-eq, tail-eq_of_cons-eq}
use mathlib.Core.Option.{some-injective}
use gdrive_s.Base.{
  ℕ, suc, ◌+◌, ◌≤◌, ◌<◌, ◌≡◌, refl, ap, ◌∙◌, sym, Bool, true, false, not, ◌&&◌, Option, none, some,
  List, [], ◌∷◌, ◌++◌, ltb, eqb, length, all, if◌then◌else◌, Bool-cases, Option-cases, inl, inr,
  arith,
}
use gdrive_s.S3Error.{ok}
use gdrive_s.Base.{Bytes, concat, take, drop}
use gdrive_s.Chunked.Reader.{Input, find_crlf, longer, line_from, ensure_from, max_header_bytes}

abbrev pub no_cr : Bytes → Bool
no_cr line = all (λ c. not (eqb c 13)) line

-- What is still to come: the buffer, then the values still to be read.
abbrev pub ahead : Input → Bytes
ahead input = input.buffer ++ concat input.reads

abbrev extended : Bytes → Bytes × Bytes → Option (Bytes × Bytes)
extended t found = some (found.0, found.1 ++ t)

none_differs : {A : Type 0} {a : A} → none ≡ some a → ⊥
none_differs h = cc

longer-append :
    (a : ℕ) (t : Bytes) (o o' : Option (Bytes × Bytes)) (line rest : Bytes)
    → ((l r : Bytes) → o ≡ some (l, r) → o' ≡ some (l, r ++ t))
    → longer a o ≡ some (line, rest)
    → longer a o' ≡ some (line, rest ++ t)
longer-append a t none o' line rest same h = cc
longer-append a t (some (l, r)) o' line rest same h =
    let parts = some-injective _ _ h in rw (same l r refl) (ap (extended t) parts)

find_crlf-append :
    (s t line rest : Bytes)
    → find_crlf s ≡ some (line, rest)
    → find_crlf (s ++ t) ≡ some (line, rest ++ t)
unfolding find_crlf
find_crlf-append [] t line rest h = cc
find_crlf-append (a ∷ []) t line rest h = cc
find_crlf-append (a ∷ b ∷ s) t line rest h = elim (Bool-cases (eqb a 13 && eqb b 10)) [
  | inl e ↦ rw e (ap (extended t) (some-injective ([], s) _ (ground arith)))
  | inr e ↦ rw e (
      longer-append a t (find_crlf (b ∷ s)) _ line rest (λ l r g. find_crlf-append (b ∷ s) t l r g)
        (ground arith))
]

find_crlf-line :
    (line rest : Bytes) → no_cr line ≡ true → find_crlf (line ++ 13 ∷ 10 ∷ rest) ≡ some (line, rest)
unfolding find_crlf
find_crlf-line [] rest h = refl
find_crlf-line (a ∷ []) rest h = ground (arith)
find_crlf-line (a ∷ b ∷ line) rest h = ground (arith, find_crlf-line (b ∷ line) rest)

not_longer :
    (found : Bool) (a : ℕ) (here : Bytes × Bytes) (o : Option (Bytes × Bytes))
    → (if found then some here else longer a o) ≡ none
    → o ≡ none
not_longer true a here o h = cc
not_longer false a here none h = refl
not_longer false a here (some found) h = cc

find_crlf-short :
    (s t line rest : Bytes)
    → find_crlf s ≡ none
    → s ++ t ≡ line ++ 13 ∷ 10 ∷ rest
    → length s ≤ suc (length line)
unfolding find_crlf
find_crlf-short [] t line rest h e = omega arith
find_crlf-short (a ∷ []) t line rest h e = omega arith
find_crlf-short (a ∷ b ∷ s) t [] rest h e =
    ground (arith, head-eq_of_cons-eq e, head-eq_of_cons-eq (tail-eq_of_cons-eq e))
find_crlf-short (a ∷ b ∷ s) t (c ∷ line) rest h e = omega (
  arith,
  find_crlf-short (b ∷ s) t line rest (not_longer _ a _ (find_crlf (b ∷ s)) h)
      (tail-eq_of_cons-eq e),
)

-- What is found in the buffer is the line that is ahead.
find_crlf-ahead :
    (buffer more line rest : Bytes) (found : Bytes × Bytes)
    → find_crlf buffer ≡ some found
    → buffer ++ more ≡ line ++ 13 ∷ 10 ∷ rest
    → no_cr line ≡ true
    → (found.0 ≡ line) × (found.1 ++ more ≡ rest)
find_crlf-ahead buffer more line rest found f e clean =
    let same : extended more found ≡ some (line, rest) =
      sym (find_crlf-append buffer more found.0 found.1 f)
      ∙ ap find_crlf e
      ∙ find_crlf-line line rest clean in
    let pair = some-injective _ _ same in
    (ap (λ (p : Bytes × Bytes). p.0) pair, ap (λ (p : Bytes × Bytes). p.1) pair)

-- The line that is ahead is read, and what follows it is ahead then.
pub line_from-line :
    (reads : List Bytes) (buffer line rest : Bytes)
    → buffer ++ concat reads ≡ line ++ 13 ∷ 10 ∷ rest
    → no_cr line ≡ true
    → length line < max_header_bytes
    → (input : Input) × (line_from buffer reads ≡ ok (line, input)) × (ahead input ≡ rest)
unfolding line_from
line_from-line [] buffer line rest e clean short = elim (Option-cases (find_crlf buffer)) [
  | inr (found, f) ↦
      let (same, left) = find_crlf-ahead buffer [] line rest found f e clean in
      let input : Input = record { buffer = found.1; reads = [] } in
      (input, rw (f, line_from) (ap (λ l. ok (l, input)) same), left)
  | inl f ↦ absurd (
      none_differs
        (sym f ∙ ap find_crlf (sym (append-nil buffer) ∙ e) ∙ find_crlf-line line rest clean))
]
line_from-line (value ∷ reads) buffer line rest e clean short =
    elim (Option-cases (find_crlf buffer)) [
      | inr (found, f) ↦
          let (same, left) =
            find_crlf-ahead buffer (concat (value ∷ reads)) line rest found f e clean in
          let input : Input = record { buffer = found.1; reads = value ∷ reads } in
          (input, rw (f, line_from) (ap (λ l. ok (l, input)) same), left)
      | inl f ↦
          let (input, reads_on, left) =
            line_from-line reads (buffer ++ value) line rest
              (append_assoc buffer value (concat reads) ∙ e) clean short in
          let small : ltb max_header_bytes (length buffer) ≡ false =
            ground (arith, find_crlf-short buffer (concat (value ∷ reads)) line rest f e) in
          (input, rw (f, line_from) (rw small reads_on), left)
    ]

pub ensure_from-enough :
    (n : ℕ) (reads : List Bytes) (buffer : Bytes)
    → n ≤ length (buffer ++ concat reads)
    → (input : Input) × (ensure_from n buffer reads ≡ ok input)
      × (ahead input ≡ buffer ++ concat reads)
      × (n ≤ length input.buffer)
unfolding ensure_from
ensure_from-enough n [] buffer h =
    let enough : n ≤ length buffer = omega (arith, h, ap length (append-nil buffer)) in
    let fits : ltb (length buffer) n ≡ false = ground arith in
    (record { buffer = buffer; reads = [] }, rw fits refl, refl, enough)
ensure_from-enough n (value ∷ reads) buffer h = elim (Bool-cases (ltb (length buffer) n)) [
  | inr e ↦ (record { buffer = buffer; reads = value ∷ reads }, rw e refl, refl, ground arith)
  | inl e ↦
      let (input, gathers, same, enough) =
        ensure_from-enough n reads (buffer ++ value)
          (omega (arith, h, ap length (append_assoc buffer value (concat reads)))) in
      (input, rw e gathers, same ∙ append_assoc buffer value (concat reads), enough)
]

-- The chunk that is ahead, and its delimiter, once the buffer has them.
pub take-ahead :
    (bytes buffer more rest : Bytes)
    → buffer ++ more ≡ bytes ++ 13 ∷ 10 ∷ rest
    → length bytes + 2 ≤ length buffer
    → (take (length bytes) buffer ≡ bytes)
      × ((left : Bytes) × (drop (length bytes) buffer ≡ 13 ∷ 10 ∷ left) × (left ++ more ≡ rest))
take-ahead [] [] more rest e h = absurd (omega (arith, h))
take-ahead [] (a ∷ []) more rest e h = absurd (omega (arith, h))
take-ahead [] (a ∷ b ∷ buffer) more rest e h = (
  refl,
  (
    buffer,
    ap (λ x. x ∷ b ∷ buffer) (head-eq_of_cons-eq e)
        ∙ ap (λ x. 13 ∷ x ∷ buffer) (head-eq_of_cons-eq (tail-eq_of_cons-eq e)),
    tail-eq_of_cons-eq (tail-eq_of_cons-eq e),
  ),
)
take-ahead (c ∷ bytes) [] more rest e h = absurd (omega (arith, h))
take-ahead (c ∷ bytes) (a ∷ buffer) more rest e h =
    let (taken, left) =
      take-ahead bytes buffer more rest (tail-eq_of_cons-eq e) (omega (arith, h)) in
    (ap (λ t. a ∷ t) taken ∙ ap (λ x. x ∷ bytes) (head-eq_of_cons-eq e), left)
