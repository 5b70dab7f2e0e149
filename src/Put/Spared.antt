-- ===== src/Put/Spared.antt =====
-- What a write that throws leaves as it was.
use gdrive_s.Base.{
  ◌≡◌, refl, String, Bool, true, false, Option, none, some, ◌⊎◌, inl, inr, Bool-cases,
}
use gdrive_s.Store.Staging
use gdrive_s.Store.Commit.{Outcome, not_ready, object_key_conflict, owner_mismatch, done, Committed}
use gdrive_s.Store.Drive.{
  streaming_upload, StreamingUploadResult, UploadAnswer, stored, upload_error,
}
use gdrive_s.Store.Disk.{Disk}
use gdrive_s.Put.{
  PutContext, ObjectUploadInput, Thrown, thrown, row_committed, staged, fail, after_commit,
  with_uploaded, after_verify, after_upload, upload_input, transfer, with_slot, with_key,
  with_access, with_lock, upload,
}

module _ {D : Type 0} (ctx : PutContext D) (input : ObjectUploadInput) where
  -- No object, version or encryption row is changed, and Drive is asked for one upload at most.
  pub record Spared (before after : Disk D) : Type 0 where
    pub objects : after.store.objects ≡ before.store.objects
    pub versions : after.store.object_versions ≡ before.store.object_versions
    pub encryption : after.store.object_encryption ≡ before.store.object_encryption
    pub drive :
        (after.drive ≡ before.drive)
        ⊎ (after.drive
            ≡ (streaming_upload ctx.drive_storage (upload_input ctx input) before.drive).1)

  module _ (w : Disk D) where
    -- The tables that only a commit writes, and Drive once the body was sent.
    record Sent (after : Disk D) : Type 0 where
      objects : after.store.objects ≡ w.store.objects
      versions : after.store.object_versions ≡ w.store.object_versions
      encryption : after.store.object_encryption ≡ w.store.object_encryption
      drive : after.drive ≡ (streaming_upload ctx.drive_storage (upload_input ctx input) w.drive).1

    fail-Sent :
        (u : Option StreamingUploadResult) (message : String) (v : Disk D)
        → Sent v
        → Sent (fail ctx input u message v)
    unfolding fail
    fail-Sent none message v s =
        elim (Bool-cases (row_committed (Staging.by_id ctx.staging_id v.store.object_staging))) [
          | inl e ↦ rw e s
          | inr e ↦ rw e (record {
            objects = s.objects;
            versions = s.versions;
            encryption = s.encryption;
            drive = s.drive;
          })
        ]
    fail-Sent (some u) message v s =
        elim (Bool-cases (row_committed (Staging.by_id ctx.staging_id v.store.object_staging))) [
          | inl e ↦ rw e s
          | inr e ↦ rw e (record {
            objects = s.objects;
            versions = s.versions;
            encryption = s.encryption;
            drive = s.drive;
          })
        ]

    after_commit-Sent :
        (u : StreamingUploadResult) (outcome : Outcome Committed) (v : Disk D) (error : Thrown)
        → (after_commit ctx input u outcome v).1 ≡ thrown error
        → Sent v
        → Sent (after_commit ctx input u outcome v).0
    after_commit-Sent u (done c s) v error h sent = cc
    after_commit-Sent u not_ready v error h sent = fail-Sent (some u) _ v sent
    after_commit-Sent u object_key_conflict v error h sent = fail-Sent (some u) _ v sent
    after_commit-Sent u owner_mismatch v error h sent = fail-Sent (some u) _ v sent

    after_verify-Sent :
        (refusal : Option String) (u : StreamingUploadResult) (v : Disk D) (error : Thrown)
        → (after_verify ctx input refusal u v).1 ≡ thrown error
        → Sent v
        → Sent (after_verify ctx input refusal u v).0
    after_verify-Sent (some message) u v error h sent = fail-Sent (some u) message v sent
    after_verify-Sent none u v error h sent =
        after_commit-Sent u _ (with_uploaded ctx input u v) error h (record {
          objects = sent.objects;
          versions = sent.versions;
          encryption = sent.encryption;
          drive = sent.drive;
        })

    after_upload-Sent :
        (answer : UploadAnswer) (v : Disk D) (error : Thrown)
        → (after_upload ctx input answer v).1 ≡ thrown error
        → Sent v
        → Sent (after_upload ctx input answer v).0
    after_upload-Sent (upload_error message) v error h sent = fail-Sent none message v sent
    after_upload-Sent (stored u) v error h sent =
        after_verify-Sent (input.verify u) u v error h sent

    Sent-Spared : (after : Disk D) → Sent after → Spared w after
    Sent-Spared after s = record {
      objects = s.objects;
      versions = s.versions;
      encryption = s.encryption;
      drive = inr s.drive;
    }

    unsent : Spared w w
    unsent = record { objects = refl; versions = refl; encryption = refl; drive = inl refl }

    with_slot-Spared :
        (refused : Option String) (error : Thrown)
        → (with_slot ctx input refused (staged ctx input w)).1 ≡ thrown error
        → Spared w (with_slot ctx input refused (staged ctx input w)).0
    unfolding transfer
    with_slot-Spared (some reason) error h = record {
      objects = refl;
      versions = refl;
      encryption = refl;
      drive = inl refl;
    }
    with_slot-Spared none error h = Sent-Spared _ (
        after_upload-Sent _ _ error h
          (record { objects = refl; versions = refl; encryption = refl; drive = refl }))

    with_key-Spared :
        (taken : Bool) (error : Thrown)
        → (with_key ctx input taken w).1 ≡ thrown error
        → Spared w (with_key ctx input taken w).0
    with_key-Spared true error h = unsent
    with_key-Spared false error h = with_slot-Spared ctx.slot_refused error h

    with_access-Spared :
        (verified : Bool) (error : Thrown)
        → (with_access ctx input verified w).1 ≡ thrown error
        → Spared w (with_access ctx input verified w).0
    with_access-Spared false error h = unsent
    with_access-Spared true error h = with_key-Spared _ error h

    with_lock-Spared :
        (refused : Option String) (error : Thrown)
        → (with_lock ctx input refused w).1 ≡ thrown error
        → Spared w (with_lock ctx input refused w).0
    with_lock-Spared (some reason) error h = unsent
    with_lock-Spared none error h = with_access-Spared ctx.verified error h

-- A write that throws, at whatever step, leaves every object, every version and every row of
-- encryption as it was, and has deleted nothing from Drive: it asked for one upload at most.
pub upload-Spared :
    {D : Type 0} (ctx : PutContext D) (input : ObjectUploadInput) (w : Disk D) (error : Thrown)
    → (upload ctx input w).1 ≡ thrown error
    → Spared ctx input w (upload ctx input w).0
unfolding upload
upload-Spared ctx input w error h = with_lock-Spared ctx input w ctx.lock_refused error h
