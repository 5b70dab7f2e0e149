-- ===== src/Authorization/Buckets.antt =====
-- resolveBucket of services/authorization-service.ts and authorizeBucket of s3/authorize.ts.
use gdrive_s.Base.{
  Bool, true, false, not, ◌&&◌, Option, none, some, List, [], ◌∷◌, any, is_some, is_none, Text,
  units_key, if◌then◌else◌,
}
use gdrive_s.S3Error.{Result, ok, err, access_denied, no_such_bucket}
use gdrive_s.Authorization.Actions.{S3Action, visibility_probe_actions}
use gdrive_s.Authorization.Access.{Bucket, Service, Request, given, is_allowed}

keep : (Bucket → Bool) → List Bucket → List Bucket
keep test [] = []
keep test (b ∷ bs) = let rest = keep test bs in if test b then b ∷ rest else rest

only_one : List Bucket → Option Bucket
only_one (b ∷ []) = some b
only_one _ = none

no_buckets : List Bucket → Bool
no_buckets [] = true
no_buckets (b ∷ bs) = false

-- `driveActor`
unfoldable pub drive_actor : Option Text → Bucket → Text
drive_actor none bucket = bucket.user_id
drive_actor (some user) bucket = user

pub record AuthorizedBucket : Type 0 where
  pub bucket : Bucket
  pub object : Option Text
  pub actor_user_id : Text

module _ (s : Service) where
  -- The object row that the decision looks at.
  unfoldable pub object_of : Bucket → Option Text → Option Text
  object_of bucket none = none
  object_of bucket (some key) = s.object_acl bucket.id key

  probe : Request → S3Action → Bucket → Bool
  probe request action bucket =
      is_allowed s (record request { action = action }) bucket (object_of bucket request.object_key)

  candidate : Request → List Bucket → Option Bucket
  unfolding probe keep only_one no_buckets
  candidate request candidates =
      let reachable = keep (probe request request.action) candidates in
      if no_buckets reachable && is_some request.user_id
      then only_one
          (keep (λ b. any (λ action. probe request action b) visibility_probe_actions) candidates)
      else only_one reachable

  direct : Option Text → Text → Option Bucket
  direct none name = none
  direct (some user) name = s.accessible_by_name user name

  unfoldable pub resolve_bucket : Request → Text → Option Bucket
  unfolding candidate direct
  resolve_bucket request name = elim (direct (given request.user_id) name) [
    | some bucket ↦ some bucket
    | none ↦ candidate request (s.list_by_name name)
  ]

  unfoldable pub authorize_found : Request → Option Bucket → Result AuthorizedBucket
  unfolding drive_actor
  authorize_found request none = err no_such_bucket
  authorize_found request (some bucket) =
      let object = object_of bucket request.object_key in
      if not (is_allowed s request bucket object)
      then (if is_none request.user_id then err no_such_bucket else err access_denied)
      else ok (record {
        bucket = bucket;
        object = object;
        actor_user_id = drive_actor request.user_id bucket;
      })

  unfoldable pub authorize_bucket : Request → Text → Result AuthorizedBucket
  unfolding authorize_found
  authorize_bucket request name = authorize_found request (resolve_bucket request name)
