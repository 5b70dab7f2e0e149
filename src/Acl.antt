-- ===== src/Acl.antt =====
-- s3/acl.ts: canned ACLs and the grants that they stand for. A grant is its group's URI, none for
-- the owner, and its permission: the XML around the two is left out.
pub mod Canned
mod Tests
use gdrive_s.Base.{
  Bool, true, false, not, ◌&&◌, ◌||◌, Option, none, some, List, [], ◌∷◌, ◌++◌, Text, units,
  units_key, ◌==◌, if◌then◌else◌,
}
use gdrive_s.S3Error.{Result, ok, err, malformed_acl}

abbrev pub private_acl : Text
private_acl = units "private"

abbrev pub public_read : Text
public_read = units "public-read"

abbrev pub public_read_write : Text
public_read_write = units "public-read-write"

abbrev pub authenticated_read : Text
authenticated_read = units "authenticated-read"

unfoldable pub is_bucket_acl : Text → Bool
is_bucket_acl value =
    value == private_acl
    || (value == public_read || (value == public_read_write || value == authenticated_read))

unfoldable pub acl_grants_public_read : Text → Bool
acl_grants_public_read acl = acl == public_read || acl == public_read_write

unfoldable pub acl_grants_public_write : Text → Bool
acl_grants_public_write acl = acl == public_read_write

unfoldable pub acl_grants_authenticated_read : Text → Bool
unfolding acl_grants_public_read
acl_grants_authenticated_read acl = acl == authenticated_read || acl_grants_public_read acl

-- The code compares the URIs as wholes; they are kept as two constructors and the others.
pub data Grantee : Type 0 where
  owner all_users authenticated_users : Grantee
  other_uri : Text → Grantee

-- An empty permission is a grant that has none.
pub record Grant : Type 0 where
  pub grantee : Grantee
  pub permission : Text

abbrev pub read : Text
read = units "READ"

abbrev pub write : Text
write = units "WRITE"

abbrev pub full_control : Text
full_control = units "FULL_CONTROL"

abbrev only_if : Bool → Grant → List Grant
only_if b g = if b then g ∷ [] else []

unfoldable pub grants_for_acl : Text → List Grant
unfolding acl_grants_public_read acl_grants_public_write
grants_for_acl acl =
    record { grantee = owner; permission = full_control }
    ∷ (only_if (acl_grants_public_read acl) (record { grantee = all_users; permission = read })
        ++ (only_if (acl_grants_public_write acl)
              (record { grantee = all_users; permission = write })
            ++ only_if (acl == authenticated_read)
                (record { grantee = authenticated_users; permission = read })))

-- The three variables of the loop of `cannedAclFromXml`.
pub record Seen : Type 0 where
  pub public_reads : Bool
  pub public_writes : Bool
  pub authenticated_reads : Bool

abbrev pub reads : Text → Bool
reads permission = permission == read || permission == full_control

abbrev pub writes : Text → Bool
writes permission = permission == write || permission == full_control

-- One round, for a permission that is not empty.
see : Grantee → Text → Seen → Result Seen
see owner permission seen = if not (permission == full_control) then err malformed_acl else ok seen
see all_users permission seen = ok (record seen {
  public_reads = seen.public_reads || reads permission;
  public_writes = seen.public_writes || writes permission;
})
see authenticated_users permission seen =
    ok (record seen { authenticated_reads = seen.authenticated_reads || reads permission })
see (other_uri uri) permission seen = err malformed_acl

see_grant : Grant → Seen → Result Seen
unfolding see
see_grant g seen = if g.permission == [] then err malformed_acl else see g.grantee g.permission seen

see_all : List Grant → Seen → Result Seen
unfolding see_grant
see_all [] seen = ok seen
see_all (g ∷ gs) seen = elim (see_grant g seen) [ err e ↦ err e | ok seen' ↦ see_all gs seen' ]

abbrev pub nothing_seen : Seen
nothing_seen = record { public_reads = false; public_writes = false; authenticated_reads = false }

acl_of : Seen → Text
acl_of seen =
    if seen.public_writes
    then public_read_write
    else if seen.public_reads
    then public_read
    else if seen.authenticated_reads
    then authenticated_read
    else private_acl

unfoldable pub canned_acl : List Grant → Result Text
unfolding see_all acl_of
canned_acl [] = err malformed_acl
canned_acl (g ∷ gs) = elim (see_all (g ∷ gs) nothing_seen) [
  | err e ↦ err e
  | ok seen ↦ ok (acl_of seen)
]
