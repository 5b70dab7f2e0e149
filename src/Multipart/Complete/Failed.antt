-- ===== src/Multipart/Complete/Failed.antt =====
-- What a completion that throws leaves as it was.
use gdrive_s.Base.{◌≡◌, refl, ◌∙◌, String, Bool, true, false, Option, none, some}
use gdrive_s.S3Error.{Result, ok, err}
use gdrive_s.Store.Commit.{Outcome, not_ready, object_key_conflict, owner_mismatch, done, Committed}
use gdrive_s.Store.Drive.{
  streaming_upload, StreamingUploadResult, UploadAnswer, stored, upload_error,
}
use gdrive_s.Multipart.World.{World}
use gdrive_s.Multipart.Uploads.{apply, mark_completing}
use gdrive_s.Multipart.Complete.{
  CompleteRequest, CompleteContext, Admitted, thrown, Thrown, staged, fail, with_uploaded,
  upload_input, after_commit, after_upload, assemble, with_slot, with_cipher, after_claim,
  after_admit, complete_locked, admit, cipher_error,
}

module _ {D : Type 0} (ctx : CompleteContext D) (rq : CompleteRequest) where
  -- No object, version or part is changed.
  pub record Spared (before after : World D) : Type 0 where
    pub objects : after.store.objects ≡ before.store.objects
    pub versions : after.store.object_versions ≡ before.store.object_versions
    pub parts : after.parts ≡ before.parts

  fail-Spared :
      (a : Admitted) (uploaded : Option StreamingUploadResult) (message : String) (w : World D)
      → Spared w (fail ctx rq a uploaded message w)
  unfolding fail
  fail-Spared a none message w = record { objects = refl; versions = refl; parts = refl }
  fail-Spared a (some u) message w = record { objects = refl; versions = refl; parts = refl }

  after_commit-Spared :
      (a : Admitted) (u : StreamingUploadResult) (outcome : Outcome Committed) (w : World D)
      (error : Thrown)
      → (after_commit ctx rq a u outcome w).1 ≡ thrown error
      → Spared w (after_commit ctx rq a u outcome w).0
  after_commit-Spared a u (done c s) w error h = cc
  after_commit-Spared a u not_ready w error h = fail-Spared a (some u) _ w
  after_commit-Spared a u object_key_conflict w error h = fail-Spared a (some u) _ w
  after_commit-Spared a u owner_mismatch w error h = fail-Spared a (some u) _ w

  -- The steps before the commit write only the uploads, the staging rows and Drive.
  Spared-from :
      (v w after : World D)
      → w.store.objects ≡ v.store.objects
      → w.store.object_versions ≡ v.store.object_versions
      → w.parts ≡ v.parts
      → Spared w after
      → Spared v after
  Spared-from v w after objects versions parts s = record {
    objects = s.objects ∙ objects;
    versions = s.versions ∙ versions;
    parts = s.parts ∙ parts;
  }

  after_upload-Spared :
      (a : Admitted) (answer : UploadAnswer) (w : World D) (error : Thrown)
      → (after_upload ctx rq a answer w).1 ≡ thrown error
      → Spared w (after_upload ctx rq a answer w).0
  after_upload-Spared a (upload_error message) w error h = fail-Spared a none message w
  after_upload-Spared a (stored u) w error h =
      Spared-from w (with_uploaded ctx rq a u w) _ refl refl refl
        (after_commit-Spared a u _ (with_uploaded ctx rq a u w) error h)

  assemble-Spared :
      (a : Admitted) (w : World D) (error : Thrown)
      → (assemble ctx rq a w).1 ≡ thrown error
      → Spared w (assemble ctx rq a w).0
  unfolding assemble
  assemble-Spared a w error h =
      let d = (streaming_upload ctx.drive_storage (upload_input ctx rq a) w.drive).1 in
      Spared-from w (record w { drive = d }) _ refl refl refl
        (after_upload-Spared a _ (record w { drive = d }) error h)

  untouched :
      (v w : World D)
      → w.store.objects ≡ v.store.objects
      → w.store.object_versions ≡ v.store.object_versions
      → w.parts ≡ v.parts
      → Spared v w
  untouched v w objects versions parts = record {
    objects = objects;
    versions = versions;
    parts = parts;
  }

  with_slot-Spared :
      (refused : Option String) (a : Admitted) (w : World D) (error : Thrown)
      → (with_slot ctx rq refused a (staged ctx rq a w)).1 ≡ thrown error
      → Spared w (with_slot ctx rq refused a (staged ctx rq a w)).0
  with_slot-Spared none a w error h =
      Spared-from w (staged ctx rq a w) _ refl refl refl
        (assemble-Spared a (staged ctx rq a w) error h)
  with_slot-Spared (some reason) a w error h = untouched w (staged ctx rq a w) refl refl refl

  with_cipher-Spared :
      (cipher : Option Thrown) (a : Admitted) (w : World D) (error : Thrown)
      → (with_cipher ctx rq cipher a (staged ctx rq a w)).1 ≡ thrown error
      → Spared w (with_cipher ctx rq cipher a (staged ctx rq a w)).0
  with_cipher-Spared none a w error h = with_slot-Spared rq.slot_refused a w error h
  with_cipher-Spared (some code) a w error h = untouched w (staged ctx rq a w) refl refl refl

  after_claim-Spared :
      (won : Bool) (a : Admitted) (w : World D) (error : Thrown)
      → (after_claim ctx rq won a w).1 ≡ thrown error
      → Spared w (after_claim ctx rq won a w).0
  after_claim-Spared false a w error h = untouched w w refl refl refl
  after_claim-Spared true a w error h =
      with_cipher-Spared (cipher_error ctx.decrypts a.upload.sse) a w error h

  after_admit-Spared :
      (r : Result Admitted) (w : World D) (error : Thrown)
      → (after_admit ctx rq r w).1 ≡ thrown error
      → Spared w (after_admit ctx rq r w).0
  after_admit-Spared (err code) w error h = untouched w w refl refl refl
  after_admit-Spared (ok a) w error h =
      let (won, uploads) = apply (mark_completing rq.upload_id) w.uploads in
      let next = record w { uploads = uploads } in
      Spared-from w next _ refl refl refl (after_claim-Spared won a next error h)

-- A completion that throws, at whatever step, leaves every object, every version and every part of
-- an upload as it was.
pub complete_locked-Spared :
    {D : Type 0} (ctx : CompleteContext D) (rq : CompleteRequest) (w : World D) (error : Thrown)
    → (complete_locked ctx rq w).1 ≡ thrown error
    → Spared ctx rq w (complete_locked ctx rq w).0
unfolding complete_locked
complete_locked-Spared ctx rq w error h = after_admit-Spared ctx rq (admit ctx rq w) w error h
