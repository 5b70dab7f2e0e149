-- ===== src/Authorization/Tests.antt =====
-- Tests and witnesses of the authorization service.
use gdrive_s.Base.{
  ◌≡◌, ◌≢◌, ◌↔◌, refl, true, false, Option, none, some, [], ◌∷◌, Text, units, units_key, ◌==◌,
  if◌then◌else◌, length, holds, holds_iff,
}
use gdrive_s.S3Error.{ok, err, no_such_bucket, access_denied}
use gdrive_s.Acl.{acl_grants_public_read, acl_grants_public_write, acl_grants_authenticated_read}
use gdrive_s.Policy.Statement.{deny}
use gdrive_s.Authorization.Actions.{
  S3Action, get_object, put_object, get_bucket_policy, is_write, is_owner_only,
}
use gdrive_s.Authorization.Access.{
  Bucket, Service, Request, is_allowed, policy_decision, policy_for, decision_of, role_of,
  acl_allows, without_policy,
}
use gdrive_s.Authorization.Buckets.{
  AuthorizedBucket, authorize_bucket, authorize_found, resolve_bucket, object_of, drive_actor,
}
use gdrive_s.Authorization.Decision.{Granted, is_allowed_iff, is_allowed-reserved}
use gdrive_s.Authorization.Resolve.{IsGrantedTo, authorize_bucket_iff}

-- One bucket, readable by everyone, with one viewer and no policy.
abbrev photos : Bucket
photos = record {
  id = units "b1";
  user_id = units "ada";
  name = units "photos";
  acl = units "public-read";
}

abbrev service : Service
service = record {
  js = record { lower = λ t. t; number = λ t. none };
  byte_length = λ t. length t;
  parse_json = λ t. none;
  policy_json = λ id. none;
  email = λ id. none;
  member_role = λ bucket user. if user == units "bob" then some (units "viewer") else none;
  accessible_by_name = λ user name. if user == units "eve" then none else some photos;
  list_by_name = λ name. if name == units "photos" then photos ∷ [] else [];
  object_acl = λ bucket key. some (units "private");
}

abbrev request : Option Text → S3Action → Request
request user action = record {
  user_id = user;
  action = action;
  object_key = some (units "cat.jpg");
  source_ip = none;
  secure_transport = true;
}

authorization : Unit {0}
unfolding acl_grants_public_read acl_grants_public_write acl_grants_authenticated_read is_allowed
    policy_decision policy_for decision_of role_of acl_allows without_policy is_write is_owner_only
    authorize_bucket authorize_found resolve_bucket object_of drive_actor
authorization = tt

-- The viewer reads the policy of the bucket, though the action is the owner's.
authorize_tests :
    (is_allowed service (request (some (units "bob")) get_bucket_policy) photos none ≡ true)
    × (is_allowed service (request (some (units "bob")) put_object) photos none ≡ false)
    × (is_allowed service (request (some (units "eve")) get_bucket_policy) photos none ≡ false)
    × (authorize_bucket service (request none put_object) (units "photos") ≡ err no_such_bucket)
    × (authorize_bucket service (request (some (units "eve")) put_object) (units "photos")
        ≡ err access_denied)
unfolding authorization
authorize_tests = (refl, refl, refl, refl, refl)

get_object-open : is_owner_only get_object ≡ false
unfolding is_owner_only
get_object-open = refl

get_bucket_policy-reserved : is_owner_only get_bucket_policy ≡ true
unfolding is_owner_only
get_bucket_policy-reserved = refl

eve-IsStranger : some (units "eve") ≢ some photos.user_id
eve-IsStranger e =
    let same : holds (some (units "eve")) photos.user_id ≡ true =
      (holds_iff (some (units "eve")) photos.user_id).1 e in
    cc

eve-has_no_role : role_of service (some (units "eve")) photos ≡ none
unfolding role_of
eve-has_no_role = refl

is_allowed_iff_example :
    (is_allowed service (request (some (units "bob")) get_object) photos none ≡ true) ↔ (
      policy_decision service (request (some (units "bob")) get_object) photos ≢ deny
      × Granted service (request (some (units "bob")) get_object) photos none)
is_allowed_iff_example =
    is_allowed_iff service (request (some (units "bob")) get_object) photos none get_object-open

is_allowed-reserved_example :
    is_allowed service (request (some (units "eve")) get_bucket_policy) photos none ≡ false
is_allowed-reserved_example =
    is_allowed-reserved service (request (some (units "eve")) get_bucket_policy) photos none
      get_bucket_policy-reserved eve-IsStranger eve-has_no_role

abbrev granted : AuthorizedBucket
granted = record { bucket = photos; object = some (units "private"); actor_user_id = units "ada" }

anonymous_read : authorize_bucket service (request none get_object) (units "photos") ≡ ok granted
unfolding authorization
anonymous_read = refl

authorize_bucket_iff_example :
    (authorize_bucket service (request none get_object) (units "photos") ≡ ok granted)
    ↔ IsGrantedTo service
        (request none get_object)
        (resolve_bucket service (request none get_object) (units "photos"))
        granted
authorize_bucket_iff_example =
    authorize_bucket_iff service (request none get_object) (units "photos") granted
