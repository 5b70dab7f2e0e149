-- ===== src/Multipart/Selection.antt =====
-- What a completion is made of.
use gdrive_s.Base.{
  ℕ, all, ◌≤◌, ◌<◌, Bool, true, false, not, Option, none, some, List, [], ◌∷◌, ◌≡◌, ◌↔◌, inl, inr,
  refl, ap, arith, Text, units_key, ◌==◌, text_eq_iff, ==_refl, leb, leb→le, Bool-cases,
}
use gdrive_s.S3Error.{
  ok, require, >>=-eq-ok, >>-eq-ok, ok_injective, invalid_part_order, entity_too_large,
  internal_error,
}
use gdrive_s.Multipart.Parts.{
  RequestedPart, MultipartPartRow, find_part, matching, select_parts, check_sizes, total_size,
  validate_requested_parts, checked_parts,
}

-- The stored parts that a request names, one for each of its parts: the numbers ascend from
-- beyond `previous` and each part has the entity tag that the request gives.
pub data Selects (stored : List MultipartPartRow)
    : ℕ → List RequestedPart → List MultipartPartRow → Type 0 where
  done : {previous : ℕ} → Selects stored previous [] []
  next :
      {previous : ℕ} {req : RequestedPart} {rest : List RequestedPart} {part : MultipartPartRow}
      {parts : List MultipartPartRow}
      → previous < req.number
      → find_part req.number stored ≡ some part
      → part.etag ≡ req.etag
      → Selects stored req.number rest parts
      → Selects stored previous (req ∷ rest) (part ∷ parts)

-- Every part but the last has at least this many bytes.
pub data BigEnough (min_part_bytes : ℕ) : List MultipartPartRow → Type 0 where
  no_part : BigEnough min_part_bytes []
  last_part : {part : MultipartPartRow} → BigEnough min_part_bytes (part ∷ [])
  big_part :
      {part next : MultipartPartRow} {rest : List MultipartPartRow}
      → min_part_bytes ≤ part.size_bytes
      → BigEnough min_part_bytes (next ∷ rest)
      → BigEnough min_part_bytes (part ∷ next ∷ rest)

matching-ok :
    (etag : Text) (found : Option MultipartPartRow) (part : MultipartPartRow)
    → matching etag found ≡ ok part
    → (found ≡ some part) × (part.etag ≡ etag)
matching-ok etag none part h = cc
matching-ok etag (some p) part h = elim (Bool-cases (p.etag == etag)) [
  | inl e ↦
      let same = ok_injective p part (rw e at h) in
      (ap some same, rw (← same) ((text_eq_iff p.etag etag).0 e))
  | inr e ↦ cc
]

matching-found :
    (etag : Text) (found : Option MultipartPartRow) (part : MultipartPartRow)
    → found ≡ some part
    → part.etag ≡ etag
    → matching etag found ≡ ok part
matching-found etag found part f e = rw (f, e) (rw (==_refl etag) refl)

require-ok : (b : Bool) (e : _) → require b e ≡ ok tt → b ≡ true
require-ok true e h = refl
require-ok false e h = cc

select_parts-Selects :
    (stored : List MultipartPartRow) (previous : ℕ) (reqs : List RequestedPart)
    (parts : List MultipartPartRow)
    → select_parts stored previous reqs ≡ ok parts
    → Selects stored previous reqs parts
unfolding select_parts
select_parts-Selects stored previous [] parts h = rw (← ok_injective [] parts h) done
select_parts-Selects stored previous (req ∷ rest) parts h =
    let (ordered, h1) = >>-eq-ok (require (not (leb req.number previous)) invalid_part_order) _ h in
    let (found, p, h2) = >>=-eq-ok (matching req.etag (find_part req.number stored)) _ h1 in
    let (later, q, h3) = >>=-eq-ok (select_parts stored req.number rest) _ h2 in
    let (f, e) = matching-ok req.etag (find_part req.number stored) found p in
    rw (← ok_injective (found ∷ later) parts h3) (
      next (ground (arith, require-ok (not (leb req.number previous)) invalid_part_order ordered)) f
        e (select_parts-Selects stored req.number rest later q))

Selects-select_parts :
    (stored : List MultipartPartRow) {previous : ℕ} {reqs : List RequestedPart}
    {parts : List MultipartPartRow}
    → Selects stored previous reqs parts
    → select_parts stored previous reqs ≡ ok parts
unfolding select_parts
Selects-select_parts stored done = refl
Selects-select_parts stored (next {previous} {req} {rest} {part} {parts} o f e s) =
    let ih = Selects-select_parts stored s in
    let m = matching-found req.etag (find_part req.number stored) part f e in
    rw (m, ih) (ground arith)

check_sizes-ok :
    (m : ℕ) (parts : List MultipartPartRow) → check_sizes m parts ≡ ok tt → BigEnough m parts
unfolding check_sizes
check_sizes-ok m [] h = no_part
check_sizes-ok m (p ∷ []) h = last_part
check_sizes-ok m (p ∷ q ∷ rest) h =
    big_part (ground arith) (check_sizes-ok m (q ∷ rest) (ground arith))

BigEnough-check_sizes :
    (m : ℕ) {parts : List MultipartPartRow} → BigEnough m parts → check_sizes m parts ≡ ok tt
unfolding check_sizes
BigEnough-check_sizes m no_part = refl
BigEnough-check_sizes m last_part = refl
BigEnough-check_sizes m (big_part le b) = let ih = BigEnough-check_sizes m b in ground arith

-- A completion is accepted exactly with the parts that it selects, when each but the last has
-- the least size.
pub validate_requested_parts_iff :
    (requested : List RequestedPart) (stored : List MultipartPartRow) (m : ℕ)
    (parts : List MultipartPartRow)
    → (validate_requested_parts requested stored m ≡ ok parts)
      ↔ (Selects stored 0 requested parts × BigEnough m parts)
unfolding validate_requested_parts
validate_requested_parts_iff requested stored m parts = (
  λ h.
      let (selected, s, h1) = >>=-eq-ok (select_parts stored 0 requested) _ h in
      let (sizes, h2) = >>-eq-ok (check_sizes m selected) _ h1 in
      rw (← ok_injective selected parts h2)
        (select_parts-Selects stored 0 requested selected s, check_sizes-ok m selected sizes),
  λ (s, b). rw (Selects-select_parts stored s, BigEnough-check_sizes m b) refl,
)

-- A completion goes on exactly with the stored parts that the request names, each with the
-- entity tag that the request gives, in ascending order of their numbers and none twice, when
-- each but the last has the least size, the file of each is as its row says, and all together are
-- no larger than an object may be.
pub checked_parts_iff :
    (stat_matches : MultipartPartRow → Bool) (requested : List RequestedPart)
    (stored : List MultipartPartRow) (m most : ℕ) (parts : List MultipartPartRow)
    → (checked_parts stat_matches requested stored m most ≡ ok parts) ↔ (
        Selects stored 0 requested parts
        × BigEnough m parts
        × (all stat_matches parts ≡ true)
        × total_size parts ≤ most)
unfolding checked_parts
checked_parts_iff stat_matches requested stored m most parts = (
  λ h.
      let (selected, v, h1) = >>=-eq-ok (validate_requested_parts requested stored m) _ h in
      let (there, h2) = >>-eq-ok (require (all stat_matches selected) internal_error) _ h1 in
      let (fits, h3) = >>-eq-ok (require (leb (total_size selected) most) entity_too_large) _ h2 in
      let small =
        leb→le (total_size selected) most
          (require-ok (leb (total_size selected) most) entity_too_large fits) in
      let files = require-ok (all stat_matches selected) internal_error there in
      let (s, b) = (validate_requested_parts_iff requested stored m selected).0 v in
      rw (← ok_injective selected parts h3) (s, b, files, small),
  λ (s, b, files, small).
      let v = (validate_requested_parts_iff requested stored m parts).1 (s, b) in
      rw (v, files) (ground arith),
)
