-- ===== src/Policy/Cidr.antt =====
-- `ipInCidr` of s3/policy.ts. A negative `bits` is not an integer from 0 on, and fails alike.
use Prim.Native.Nat.{bit_and, bit_or}
use gdrive_s.Base.{
  ℕ, ◌+◌, ◌-◌, ◌*◌, ◌%◌, ◌^◌, Bool, true, false, not, ◌&&◌, Option, none, some, List, [], ◌∷◌, ltb,
  leb, eqb, length, all, Text, split, if◌then◌else◌,
}
use gdrive_s.Policy.Statement.{Js}

abbrev is_digit : ℕ → Bool
is_digit c = leb b'0' c && leb c b'9'

decimal_from : ℕ → Text → ℕ
decimal_from n [] = n
decimal_from n (c ∷ s) = decimal_from (n * 10 + (c - b'0')) s

-- `/^\d{1,3}$/`, then at most 255.
octet : Text → Option ℕ
unfolding decimal_from
octet part =
    if not (leb 1 (length part) && leb (length part) 3 && all is_digit part)
    then none
    else if ltb 255 (decimal_from 0 part)
    then none
    else some (decimal_from 0 part)

-- The loop over the parts: `out = (out << 8) | octet`, as an unsigned word of 32 bits.
to_int_from : ℕ → List Text → Option ℕ
unfolding octet
to_int_from out [] = some out
to_int_from out (part ∷ parts) = elim (octet part) [
  | none ↦ none
  | some o ↦ to_int_from (bit_or ((out * 2 ^ 8) % 2 ^ 32) o) parts
]

pub to_int : Text → Option ℕ
unfolding to_int_from
to_int value =
    let parts = split b'.' value in if not (eqb (length parts) 4) then none else to_int_from 0 parts

-- `(0xffffffff << (32 - bits)) >>> 0`
abbrev pub mask : ℕ → ℕ
mask bits = (0xffff_ffff * 2 ^ (32 - bits)) % 2 ^ 32

same_network : Option ℕ → Option ℕ → ℕ → Bool
same_network none range bits = false
same_network (some ip) none bits = false
same_network (some ip) (some range) bits =
    if eqb bits 0 then true else eqb (bit_and ip (mask bits)) (bit_and range (mask bits))

-- `bitsRaw === undefined ? 32 : Number(bitsRaw)`, where it passes the tests.
prefix_bits : Js → List Text → Option ℕ
prefix_bits js [] = some 32
prefix_bits js (raw ∷ _) = elim (js.number raw) [
  | none ↦ none
  | some bits ↦ if ltb 32 bits then none else some bits
]

in_range : Js → Text → List Text → Bool
unfolding prefix_bits same_network to_int
in_range js ip [] = false
in_range js ip ([] ∷ rest) = false
in_range js ip ((c ∷ range) ∷ rest) = elim (prefix_bits js rest) [
  | none ↦ false
  | some bits ↦ same_network (to_int ip) (to_int (c ∷ range)) bits
]

unfoldable pub ip_in_cidr : Js → Text → Text → Bool
unfolding in_range
ip_in_cidr js ip cidr = in_range js ip (split b'/' cidr)
