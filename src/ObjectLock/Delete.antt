-- ===== src/ObjectLock/Delete.antt =====
-- When a version may be deleted: s3/object-lock.ts.
use gdrive_s.Base.{ℕ, ◌≡◌, ◌≢◌, ◌↔◌, ◌⊎◌, Bool, true, false, some, arith, holds_iff, text_key}
use gdrive_s.ObjectLock.{Dates, LockState, allowed, retention_active, evaluate_delete}

-- What a reader of the feature's description expects: no legal hold, and a retention that is over,
-- or one of GOVERNANCE mode that the bucket's owner bypasses.
pub record MayDelete (d : Dates) (s : LockState) (bypass owner : Bool) (now : ℕ) : Type 0 where
  pub no_hold : s.legal_hold ≢ 1
  pub over :
      (retention_active d s now ≡ false)
      ⊎ ((s.lock_mode ≢ some "COMPLIANCE") × (bypass ≡ true) × (owner ≡ true))

-- A version may be deleted exactly when `MayDelete` holds.
pub evaluate_delete-allowed_iff :
    (d : Dates) (s : LockState) (bypass owner : Bool) (now : ℕ)
    → (evaluate_delete d s bypass owner now ≡ allowed) ↔ MayDelete d s bypass owner now
unfolding evaluate_delete
evaluate_delete-allowed_iff d s bypass owner now = (
  λ h. record { no_hold = ground arith; over = ground (arith, holds_iff s.lock_mode "COMPLIANCE") },
  λ m. ground (arith, m.no_hold, m.over, holds_iff s.lock_mode "COMPLIANCE"),
)
