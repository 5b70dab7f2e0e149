-- ===== src/Acl/Canned.antt =====
-- Between canned ACLs and grant lists: s3/acl.ts.
use mathlib.Core.Path.{ap₂}
use gdrive_s.Base.{
  ◌≡◌, ◌⊎◌, inl, inr, refl, ap, ◌∙◌, sym, Bool, true, false, ◌&&◌, ◌||◌, List, [], ◌∷◌, arith, any,
  Text, units_key, ◌==◌, text_eq_iff, Bool-cases,
}
use gdrive_s.S3Error.{ok, Result-cases, ok_injective}
use gdrive_s.Acl.{
  private_acl, public_read, public_read_write, authenticated_read, is_bucket_acl,
  acl_grants_public_read, acl_grants_public_write, Grantee, owner, all_users, authenticated_users,
  other_uri, Grant, grants_for_acl, Seen, reads, writes, see, see_grant, see_all, acl_of,
  nothing_seen, canned_acl,
}

is_bucket_acl-cases :
    (acl : Text)
    → is_bucket_acl acl ≡ true
    → (acl ≡ private_acl)
      ⊎ ((acl ≡ public_read) ⊎ ((acl ≡ public_read_write) ⊎ (acl ≡ authenticated_read)))
unfolding is_bucket_acl
is_bucket_acl-cases acl h = ground (
  arith,
  text_eq_iff acl private_acl,
  text_eq_iff acl public_read,
  text_eq_iff acl public_read_write,
  text_eq_iff acl authenticated_read,
)

-- The grants that a bucket ACL is shown as are read back as the same ACL.
pub canned_acl-grants_for_acl :
    (acl : Text) → is_bucket_acl acl ≡ true → canned_acl (grants_for_acl acl) ≡ ok acl
unfolding canned_acl grants_for_acl
canned_acl-grants_for_acl acl h = elim (is_bucket_acl-cases acl h) [
  | inl e ↦ rw e refl
  | inr (inl e) ↦ rw e refl
  | inr (inr (inl e)) ↦ rw e refl
  | inr (inr (inr e)) ↦ rw e refl
]

-- The grants to everybody.
abbrev pub to_everybody : Grantee → Bool
to_everybody all_users = true
to_everybody _ = false

abbrev pub lets_everybody_read : Grant → Bool
lets_everybody_read g = to_everybody g.grantee && reads g.permission

abbrev pub lets_everybody_write : Grant → Bool
lets_everybody_write g = to_everybody g.grantee && writes g.permission

see-seen :
    (x : Grantee) (p : Text) (seen out : Seen)
    → see x p seen ≡ ok out
    → (out.public_reads ≡ (seen.public_reads || (to_everybody x && reads p)))
      × (out.public_writes ≡ (seen.public_writes || (to_everybody x && writes p)))
unfolding see
see-seen owner p seen out h = ground arith
see-seen all_users p seen out h = ground arith
see-seen authenticated_users p seen out h = ground arith
see-seen (other_uri uri) p seen out h = cc

see_grant-seen :
    (g : Grant) (seen out : Seen)
    → see_grant g seen ≡ ok out
    → (out.public_reads ≡ (seen.public_reads || lets_everybody_read g))
      × (out.public_writes ≡ (seen.public_writes || lets_everybody_write g))
unfolding see_grant
see_grant-seen g seen out h = elim (Bool-cases (g.permission == [])) [
  | inl blank ↦ ground (arith, blank)
  | inr given ↦ see-seen g.grantee g.permission seen out (rw (given, see_grant) at h)
]

or_assoc : (a b c : Bool) → ((a || b) || c) ≡ (a || (b || c))
or_assoc a b c = ground arith

-- What the canned ACL chosen from the three variables grants everybody.
acl_of_public :
    (r w a : Bool)
    → let acl = acl_of (record { public_reads = r; public_writes = w; authenticated_reads = a }) in
      (acl_grants_public_write acl ≡ w) × (acl_grants_public_read acl ≡ (r || w))
unfolding acl_of acl_grants_public_read acl_grants_public_write
acl_of_public r true a = (refl, ground arith)
acl_of_public true false a = (refl, refl)
acl_of_public false false true = (refl, refl)
acl_of_public false false false = (refl, refl)

see_all-seen :
    (gs : List Grant) (seen out : Seen)
    → see_all gs seen ≡ ok out
    → (out.public_reads ≡ (seen.public_reads || any lets_everybody_read gs))
      × (out.public_writes ≡ (seen.public_writes || any lets_everybody_write gs))
unfolding see_all
see_all-seen [] seen out h = ground arith
see_all-seen (g ∷ gs) seen out h = elim (Result-cases (see_grant g seen)) [
  | inl (e, thrown) ↦ ground (arith, thrown)
  | inr (next, seen_one) ↦
      let k : see_all gs next ≡ ok out = rw (seen_one, see_all) at h in
      let ih = see_all-seen gs next out k in
      let one = see_grant-seen g seen next seen_one in combine g gs seen next out one ih
]
  where
    combine :
        (g : Grant) (gs : List Grant) (seen next out : Seen)
        → (next.public_reads ≡ (seen.public_reads || lets_everybody_read g))
          × (next.public_writes ≡ (seen.public_writes || lets_everybody_write g))
        → (out.public_reads ≡ (next.public_reads || any lets_everybody_read gs))
          × (out.public_writes ≡ (next.public_writes || any lets_everybody_write gs))
        → (out.public_reads ≡ (seen.public_reads || any lets_everybody_read (g ∷ gs)))
          × (out.public_writes ≡ (seen.public_writes || any lets_everybody_write (g ∷ gs)))
    combine g gs seen next out (a, b) (c, d) = (
      c
          ∙ (ap (λ r. r || any lets_everybody_read gs) a
              ∙ or_assoc (seen.public_reads) (lets_everybody_read g) _),
      d
          ∙ (ap (λ r. r || any lets_everybody_write gs) b
              ∙ or_assoc (seen.public_writes) (lets_everybody_write g) _),
    )

or_absorbed : (a b : Bool) → (b ≡ true → a ≡ true) → (a || b) ≡ a
or_absorbed a b h = ground arith

see_all-public :
    (gs : List Grant) (seen : Seen) (acl : Text)
    → see_all gs nothing_seen ≡ ok seen
    → acl_of seen ≡ acl
    → (any lets_everybody_write gs ≡ true → any lets_everybody_read gs ≡ true)
    → (acl_grants_public_write acl ≡ any lets_everybody_write gs)
      × (acl_grants_public_read acl ≡ any lets_everybody_read gs)
see_all-public gs seen acl all e named =
    let (r, w) = see_all-seen gs nothing_seen seen all in
    let shown = acl_of_public seen.public_reads seen.public_writes seen.authenticated_reads in
    (
      ap acl_grants_public_write (sym e) ∙ shown.0 ∙ w,
      ap acl_grants_public_read (sym e)
          ∙ shown.1
          ∙ ap₂ (λ x y. x || y) r w
          ∙ or_absorbed (any lets_everybody_read gs) (any lets_everybody_write gs) named,
    )

-- A grant list that a canned ACL can express, as it lets everybody read if it lets them write, is
-- not broadened: when it is accepted, the canned ACL lets everybody write exactly when a grant does
-- and read exactly when a grant does.
pub canned_acl_public :
    (gs : List Grant) (acl : Text)
    → canned_acl gs ≡ ok acl
    → (any lets_everybody_write gs ≡ true → any lets_everybody_read gs ≡ true)
    → (acl_grants_public_write acl ≡ any lets_everybody_write gs)
      × (acl_grants_public_read acl ≡ any lets_everybody_read gs)
unfolding canned_acl
canned_acl_public [] acl h named = cc
canned_acl_public (g ∷ gs) acl h named = elim (Result-cases (see_all (g ∷ gs) nothing_seen)) [
  | inl (e, thrown) ↦ ground (arith, thrown)
  | inr (seen, all) ↦
      let k : ok (acl_of seen) ≡ ok acl = rw (all, canned_acl) at h in
      see_all-public (g ∷ gs) seen acl all (ok_injective _ _ k) named
]
