-- ===== src/ObjectLock.antt =====
-- s3/object-lock.ts, and the handlers of s3/operations/lock.ts that change a lock.
-- A moment is a number of milliseconds counted from the earliest date that JavaScript has, so none
-- is negative; the code only compares moments.
pub mod Delete
pub mod Replace
pub mod Compliance
mod Tests
use gdrive_s.Base.{
  ℕ, String, ◌≡◌, Bool, true, false, not, ◌&&◌, ◌||◌, Option, none, some, List, [], ◌∷◌, ltb, leb,
  ◌==◌, text_key, eqb, truthy, holds, is_none, is_some, if◌then◌else◌,
}
use gdrive_s.S3Error.{
  S3Error, Result, ok, err, ◌>>=◌, ◌>>◌, require, access_denied, invalid_request, invalid_argument,
  malformed_xml,
}

-- `Date.parse` and `toISOString`: `none` is NaN.
pub record Dates : Type 0 where
  pub parse : String → Option ℕ
  pub to_iso : ℕ → String
  pub parse_empty : parse "" ≡ none
  pub parse-to_iso : (s : String) (t : ℕ) → parse s ≡ some t → parse (to_iso t) ≡ some t

pub record LockState : Type 0 where
  pub lock_mode : Option String
  pub retain_until : Option String
  pub legal_hold : ℕ

pub data DeleteDecision : Type 0 where
  allowed blocked_by_legal_hold blocked_by_compliance blocked_by_governance : DeleteDecision

pub is_lock_mode : String → Bool
is_lock_mode value = value == "GOVERNANCE" || value == "COMPLIANCE"

unfoldable pub legal_hold_active : LockState → Bool
legal_hold_active state = eqb state.legal_hold 1

unfoldable pub assert_deletable : DeleteDecision → Result (Unit {0})
assert_deletable allowed = ok tt
assert_deletable _ = err access_denied

-- `!Number.isNaN(current) && next >= current`
pub extends : Option ℕ → ℕ → Bool
extends none next = false
extends (some current) next = leb current next

module _ (d : Dates) where
  -- `Date.parse(raw)` of a string or null, and whether it lies after `now`; NaN counts as after.
  unfoldable pub still_running : Option String → ℕ → Bool
  still_running none now = false
  still_running (some raw) now = elim (d.parse raw) [ none ↦ true | some until ↦ ltb now until ]

  unfoldable pub retention_active : LockState → ℕ → Bool
  unfolding still_running
  retention_active state now =
      if not (truthy state.lock_mode) || not (truthy state.retain_until)
      then false
      else still_running state.retain_until now

  unfoldable pub evaluate_delete : LockState → Bool → Bool → ℕ → DeleteDecision
  unfolding legal_hold_active
  evaluate_delete state bypass_governance is_bucket_owner now =
      if legal_hold_active state
      then blocked_by_legal_hold
      else if not (retention_active state now)
      then allowed
      else if holds state.lock_mode "COMPLIANCE"
      then blocked_by_compliance
      else if bypass_governance && is_bucket_owner
      then allowed
      else blocked_by_governance

  -- `Date.parse(current.retain_until ?? "")`
  pub current_until : Option String → Option ℕ
  current_until none = d.parse ""
  current_until (some raw) = d.parse raw

  -- What is decided once the new date is known not to be NaN.
  replace_until : LockState → ℕ → String → Bool → Bool → Bool
  replace_until current next next_mode bypass_governance is_bucket_owner =
      if extends (current_until current.retain_until) next
      then not (holds current.lock_mode "COMPLIANCE" && not (next_mode == "COMPLIANCE"))
      else if holds current.lock_mode "COMPLIANCE"
      then false
      else bypass_governance && is_bucket_owner

  pub can_replace_retention : LockState → String → String → Bool → Bool → ℕ → Bool
  unfolding replace_until
  can_replace_retention current next_retain_until next_mode bypass_governance is_bucket_owner now =
      if not (retention_active current now) then true else elim (d.parse next_retain_until) [
        | none ↦ false
        | some next ↦ replace_until current next next_mode bypass_governance is_bucket_owner
      ]

pub record Retention : Type 0 where
  pub mode : String
  pub until : String

pub record LockRequest : Type 0 where
  pub mode : Option String
  pub until : Option String
  pub hold : Bool

pub record LockBucket : Type 0 where
  pub user_id : String
  pub object_lock_enabled : Bool

-- `headers.get("x-amz-bypass-governance-retention")`, already in lower case.
pub bypass_requested : Option String → Bool
bypass_requested header = holds header "true"

-- The captured `Status` of a LegalHold body.
pub parse_legal_hold : Option String → Result Bool
parse_legal_hold status =
    if not (holds status "ON") && not (holds status "OFF")
    then err malformed_xml
    else ok (holds status "ON")

-- `rawMode !== null && !isLockMode(rawMode)`, negated.
mode_ok : Option String → Bool
unfolding is_lock_mode
mode_ok none = true
mode_ok (some mode) = is_lock_mode mode

same : Bool → Bool → Bool
same true b = b
same false b = not b

module _ (d : Dates) where
  -- `Number.isNaN(Date.parse(raw))`, with the date printed again when it is one.
  iso_date : S3Error → String → Result String
  iso_date e raw = elim (d.parse raw) [ none ↦ err e | some t ↦ ok (d.to_iso t) ]

  -- The captured `Mode` and `RetainUntilDate` of a Retention body.
  pub parse_retention : Option String → Option String → Result Retention
  unfolding iso_date is_lock_mode
  parse_retention none until = err malformed_xml
  parse_retention (some mode) none = err malformed_xml
  parse_retention (some mode) (some until) = do
    require (is_lock_mode mode) malformed_xml
    require (not (until == "")) malformed_xml
    iso ← iso_date malformed_xml until
    ok (record { mode = mode; until = iso })

  -- An absent or empty date stays null; the others are printed again.
  iso_or_null : Option String → Result (Option String)
  unfolding iso_date
  iso_or_null none = ok none
  iso_or_null (some raw) = do iso ← iso_date invalid_argument raw; ok (some iso)

  pub parse_lock_headers : Option String → Option String → Option String → Result LockRequest
  unfolding iso_or_null mode_ok same
  parse_lock_headers raw_mode raw_until raw_hold = do
    require (mode_ok raw_mode) invalid_argument
    require (same (is_none raw_mode) (is_none raw_until)) invalid_request
    until ← iso_or_null raw_until
    require (is_none raw_hold || holds raw_hold "ON" || holds raw_hold "OFF") invalid_argument
    ok (record { mode = raw_mode; until = until; hold = holds raw_hold "ON" })

  -- `putObjectRetention`, from the outcomes of the user, bucket and version lookups. The new state
  -- is what `applyLock` stores.
  pub put_object_retention :
      Result String
      → Result LockBucket
      → Result LockState
      → Option String
      → Option String
      → Option String
      → ℕ
      → Result LockState
  unfolding parse_retention can_replace_retention bypass_requested
  put_object_retention user bucket target mode until bypass_header now = do
    user_id ← user
    b ← bucket
    require b.object_lock_enabled invalid_request
    current ← target
    requested ← parse_retention mode until
    require
        (can_replace_retention d current requested.until requested.mode
          (bypass_requested bypass_header) (user_id == b.user_id) now)
        access_denied
    ok (record current { lock_mode = some requested.mode; retain_until = some requested.until })

pub put_object_legal_hold :
    Result String → Result LockBucket → Result LockState → Option String → Result LockState
unfolding parse_legal_hold
put_object_legal_hold user bucket target status = do
  _ ← user
  b ← bucket
  require b.object_lock_enabled invalid_request
  current ← target
  hold ← parse_legal_hold status
  ok (record current { legal_hold = if hold then 1 else 0 })
