-- ===== src/S3Error.antt =====
-- s3/errors.ts: the codes that the modelled operations throw, and an operation that may throw.
use gdrive_s.Base.{◌⊎◌, inl, inr, ◌≡◌, refl, Bool, true, false}

pub data S3Error : Type 0 where
  access_denied no_such_bucket no_such_key no_such_upload invalid_range precondition_failed :
      S3Error
  invalid_part invalid_part_order invalid_request malformed_acl malformed_policy : S3Error
  malformed_xml invalid_argument entity_too_large entity_too_small not_implemented : S3Error
  internal_error signature_does_not_match no_such_version : S3Error

pub data Result {ℓ} (A : Type ℓ) : Type ℓ where
  err : S3Error → Result A
  ok : A → Result A

-- The rest of a block is reached only from a value; a thrown error is the block's result.
infixl 5 ◌>>=◌ ◌>>◌
abbrev pub ◌>>=◌ {ℓ κ} : {A : Type ℓ} {B : Type κ} → Result A → (A → Result B) → Result B
◌>>=◌ (err code) rest = err code
◌>>=◌ (ok value) rest = rest value

abbrev pub ◌>>◌ {ℓ κ} : {A : Type ℓ} {B : Type κ} → Result A → Result B → Result B
◌>>◌ (err code) rest = err code
◌>>◌ (ok value) rest = rest

-- `if (!test) throw new S3Error(code)`
abbrev pub require : Bool → S3Error → Result (Unit {0})
require test code = elim test [ true ↦ ok tt | false ↦ err code ]

-- A block that returned went through its first step.
pub >>=-eq-ok {ℓ κ} :
    {A : Type ℓ} {B : Type κ} (first : Result A) (rest : A → Result B) {b : B}
    → (first >>= rest) ≡ ok b
    → (a : A) × (first ≡ ok a) × (rest a ≡ ok b)
>>=-eq-ok (err code) rest h = cc
>>=-eq-ok (ok value) rest h = (value, refl, h)

pub >>-eq-ok {ℓ} :
    {B : Type ℓ} (first : Result (Unit {0})) (rest : Result B) {b : B}
    → (first >> rest) ≡ ok b
    → (first ≡ ok tt) × (rest ≡ ok b)
>>-eq-ok (err code) rest h = cc
>>-eq-ok (ok tt) rest h = (refl, h)

pub ok_injective {ℓ} : {A : Type ℓ} (x y : A) → ok x ≡ ok y → x ≡ y
ok_injective x y h = cc

pub Result-cases {ℓ} :
    {A : Type ℓ} (r : Result A) → ((e : S3Error) × (r ≡ err e)) ⊎ ((a : A) × (r ≡ ok a))
Result-cases (err e) = inl (e, refl)
Result-cases (ok a) = inr (a, refl)
