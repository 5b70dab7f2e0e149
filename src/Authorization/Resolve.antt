-- ===== src/Authorization/Resolve.antt =====
-- What resolveBucket and authorizeBucket give: only what isAllowed permits, and no sign of a
-- private bucket to a caller without credentials.
use mathlib.Core.Path.{ap₂}
use gdrive_s.Base.{
  true, Option, none, some, ◌≡◌, ◌↔◌, refl, ap, ◌∙◌, sym, arith, Text, Bool-cases, ◌⊎◌, inl, inr,
}
use gdrive_s.S3Error.{ok, err, no_such_bucket, ok_injective}
use gdrive_s.Authorization.Access.{Bucket, Service, Request, is_allowed}
use gdrive_s.Authorization.Buckets.{
  AuthorizedBucket, drive_actor, object_of, resolve_bucket, authorize_found, authorize_bucket,
}

-- The caller's own account moves the bytes, and the bucket owner's for a caller without one.
abbrev pub ActsFor : Option Text → Text → Text → Type 0
ActsFor none owner actor = actor ≡ owner
ActsFor (some user) owner actor = actor ≡ user

drive_actor-ActsFor :
    (user : Option Text) (b : Bucket) (actor : Text)
    → (actor ≡ drive_actor user b) ↔ ActsFor user b.user_id actor
unfolding drive_actor
drive_actor-ActsFor none b actor = (λ h. h, λ h. h)
drive_actor-ActsFor (some user) b actor = (λ h. h, λ h. h)

module _ (s : Service) (r : Request) where
  -- The bucket that the name resolves to, with that bucket's row of the key, permitted.
  pub record IsGrantedTo (found : Option Bucket) (a : AuthorizedBucket) : Type 0 where
    resolved : found ≡ some a.bucket
    own_object : a.object ≡ object_of s a.bucket r.object_key
    permitted : is_allowed s r a.bucket a.object ≡ true
    acts_for : ActsFor r.user_id a.bucket.user_id a.actor_user_id

  authorize_found-ok :
      (found : Option Bucket) (a : AuthorizedBucket)
      → authorize_found s r found ≡ ok a
      → IsGrantedTo found a
  unfolding authorize_found
  authorize_found-ok none a h = cc
  authorize_found-ok (some b) a h =
      elim (Bool-cases (is_allowed s r b (object_of s b r.object_key))) [
        | inl p ↦
            rw
              (← ok_injective
                (record {
                  bucket = b;
                  object = object_of s b r.object_key;
                  actor_user_id = drive_actor r.user_id b;
                })
                a (ground arith))
              (record {
                resolved = refl;
                own_object = refl;
                permitted = p;
                acts_for = (drive_actor-ActsFor r.user_id b _).0 refl;
              })
        | inr p ↦ ground arith
      ]

  granted-ok :
      (found : Option Bucket) (a : AuthorizedBucket)
      → IsGrantedTo found a
      → authorize_found s r found ≡ ok a
  unfolding authorize_found
  granted-ok found a g =
      let permitted = ap (is_allowed s r a.bucket) (sym g.own_object) ∙ g.permitted in
      let actor = (drive_actor-ActsFor r.user_id a.bucket a.actor_user_id).1 g.acts_for in
      rw g.resolved (
        rw permitted (
          ap₂ (λ o u. ok (record { bucket = a.bucket; object = o; actor_user_id = u }))
            (sym g.own_object) (sym actor)))

  authorize_found-anonymous :
      (found : Option Bucket)
      → r.user_id ≡ none
      → (authorize_found s r found ≡ err no_such_bucket)
        ⊎ ((a : AuthorizedBucket) × (authorize_found s r found ≡ ok a))
  unfolding authorize_found
  authorize_found-anonymous none e = inl refl
  authorize_found-anonymous (some b) e =
      elim (Bool-cases (is_allowed s r b (object_of s b r.object_key))) [
        | inl p ↦ inr (
          record {
            bucket = b;
            object = object_of s b r.object_key;
            actor_user_id = drive_actor r.user_id b;
          },
          rw p refl,
        )
        | inr p ↦ inl (rw (p, e) refl)
      ]

-- authorizeBucket goes on exactly with the bucket that the name resolves to and that bucket's row
-- of the key, when isAllowed permits the action on them; the account that moves the bytes is the
-- caller's own, or the bucket owner's for a caller without credentials.
pub authorize_bucket_iff :
    (s : Service) (r : Request) (name : Text) (a : AuthorizedBucket)
    → (authorize_bucket s r name ≡ ok a) ↔ IsGrantedTo s r (resolve_bucket s r name) a
unfolding authorize_bucket
authorize_bucket_iff s r name a =
    (authorize_found-ok s r (resolve_bucket s r name) a, granted-ok s r (resolve_bucket s r name) a)

-- A caller without credentials is never told that access is denied: the answer is the same
-- as for a bucket that does not exist.
pub authorize_bucket-anonymous :
    (s : Service) (r : Request) (name : Text)
    → r.user_id ≡ none
    → (authorize_bucket s r name ≡ err no_such_bucket)
      ⊎ ((a : AuthorizedBucket) × (authorize_bucket s r name ≡ ok a))
unfolding authorize_bucket
authorize_bucket-anonymous s r name e = authorize_found-anonymous s r (resolve_bucket s r name) e
