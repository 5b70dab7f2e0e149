-- ===== src/Store/Deletion/Locks.antt =====
-- Object Lock in the deletion of one version.
use mathlib.Core.Option
use gdrive_s.Base.{
  ◌≡◌, refl, String, Option, none, some, ◌==◌, units_key, Text, if◌then◌else◌, Bool-cases, inl, inr,
  arith,
}
use gdrive_s.S3Error.{ok, >>-eq-ok}
use gdrive_s.ObjectLock.{
  LockState, Dates, DeleteDecision, allowed, blocked_by_legal_hold, blocked_by_compliance,
  blocked_by_governance, evaluate_delete, assert_deletable,
}
use gdrive_s.ObjectLock.Delete.{MayDelete, evaluate_delete-allowed_iff}
use gdrive_s.Store.Rows.{Store, ObjectRow, ObjectVersionRow}
use gdrive_s.Store.Objects.{find_by_key}
use gdrive_s.Store.Versions
use gdrive_s.Store.Commit.{Fresh}
use gdrive_s.Store.Deletion.{
  DeleteBucket, Caller, delete_object_version, delete_archived, delete_current, delete_found,
}

assert_deletable-allowed :
    (decision : DeleteDecision) → assert_deletable decision ≡ ok tt → decision ≡ allowed
unfolding assert_deletable
assert_deletable-allowed allowed h = refl
assert_deletable-allowed blocked_by_legal_hold h = cc
assert_deletable-allowed blocked_by_compliance h = cc
assert_deletable-allowed blocked_by_governance h = cc

-- The lock of the version that a request names: the current row's, when it has that version id.
abbrev pub target_lock : Option ObjectRow → Option ObjectVersionRow → Text → Option LockState
target_lock none archived version_id = Option.map (λ v. v.lock) archived
target_lock (some current) archived version_id =
    if current.version_id == version_id
    then some current.lock
    else Option.map (λ v. v.lock) archived

module _ (d : Dates) (bucket : DeleteBucket) (key : String) (version_id : Text) (caller : Caller)
    (fresh : Fresh) where
  -- The lock of what is deleted lets it go.
  Allowed : Option LockState → Type 0
  Allowed target =
      (state : LockState) × (target ≡ some state)
      × (evaluate_delete d state caller.bypass_governance caller.is_bucket_owner fresh.now
          ≡ allowed)

  delete_archived-Allowed :
      (o : Option ObjectVersionRow) (s after : Store)
      → delete_archived d bucket key version_id caller fresh o s ≡ ok after
      → Allowed (Option.map (λ v. v.lock) o)
  unfolding Allowed
  delete_archived-Allowed none s after h = cc
  delete_archived-Allowed (some v) s after h =
      (v.lock, refl, assert_deletable-allowed _ (>>-eq-ok _ _ h).0)

  delete_current-Allowed :
      (current : ObjectRow) (s after : Store)
      → delete_current d bucket key caller fresh current s ≡ ok after
      → Allowed (some current.lock)
  unfolding Allowed
  delete_current-Allowed current s after h =
      (current.lock, refl, assert_deletable-allowed _ (>>-eq-ok _ _ h).0)

  delete_found-Allowed :
      (o : Option ObjectRow) (archived : Option ObjectVersionRow) (s after : Store)
      → delete_found d bucket key version_id caller fresh o archived s ≡ ok after
      → Allowed (target_lock o archived version_id)
  delete_found-Allowed none archived s after h = delete_archived-Allowed archived s after h
  delete_found-Allowed (some current) archived s after h =
      elim (Bool-cases (current.version_id == version_id)) [
        | inl e ↦ rw e (delete_current-Allowed current s after (ground arith))
        | inr e ↦ rw e (delete_archived-Allowed archived s after (ground arith))
      ]

  -- A version is deleted only with its lock's consent: when the request succeeds, the version that
  -- it names exists, as the current row or as an archived one, and that version has no legal hold
  -- and no retention running, but for one of GOVERNANCE mode that the bucket's owner bypasses.
  pub delete_object_version-MayDelete :
      (s after : Store)
      → delete_object_version d bucket key version_id caller fresh s ≡ ok after
      → (state : LockState) × (target_lock
            (find_by_key bucket.id key s.objects)
            (Versions.find bucket.id key version_id s.object_versions)
            version_id
          ≡ some state)
        × MayDelete d state caller.bypass_governance caller.is_bucket_owner fresh.now
  unfolding delete_object_version Allowed
  delete_object_version-MayDelete s after h =
      let (state, target, decision) =
        delete_found-Allowed (find_by_key bucket.id key s.objects)
          (Versions.find bucket.id key version_id s.object_versions) s after h in
      (state, target, (evaluate_delete-allowed_iff d state _ _ _).0 decision)
