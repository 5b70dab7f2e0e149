-- ===== src/Acl/Tests.antt =====
-- Tests and witnesses of the canned ACLs.
use gdrive_s.Base.{◌≡◌, refl, true, List, [], ◌∷◌, any}
use gdrive_s.S3Error.{ok}
use gdrive_s.Acl.{
  public_read_write, is_bucket_acl, acl_grants_public_read, acl_grants_public_write, all_users,
  Grant, write, full_control, canned_acl,
}
use gdrive_s.Acl.Canned.{canned_acl_public, lets_everybody_read, lets_everybody_write}

public_read_write-IsBucketAcl : is_bucket_acl public_read_write ≡ true
unfolding is_bucket_acl
public_read_write-IsBucketAcl = refl

-- A drop box, which everybody may write to and nobody else may read.
abbrev drop_box : List Grant
drop_box = record { grantee = all_users; permission = write } ∷ []

canned_acl-drop_box : canned_acl drop_box ≡ ok public_read_write
unfolding canned_acl
canned_acl-drop_box = refl

-- Everybody may do all that a canned ACL can let them.
abbrev open_house : List Grant
open_house = record { grantee = all_users; permission = full_control } ∷ []

canned_acl-open_house : canned_acl open_house ≡ ok public_read_write
unfolding canned_acl
canned_acl-open_house = refl

canned_acl_public_example :
    (acl_grants_public_write public_read_write ≡ any lets_everybody_write open_house)
    × (acl_grants_public_read public_read_write ≡ any lets_everybody_read open_house)
canned_acl_public_example =
    canned_acl_public open_house public_read_write canned_acl-open_house (λ h. refl)
