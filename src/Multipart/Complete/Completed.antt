-- ===== src/Multipart/Complete/Completed.antt =====
-- What a completion that answers leaves behind, and what one that fails does not touch.
use mathlib.Core.Option.{some-injective}
use gdrive_s.Base.{
  ◌≡◌, refl, ap, ◌∙◌, sym, ℕ, String, Bool, true, false, not, Option, none, some, List, [], ◌∷◌,
  ◌==◌, text_key, arith, any, All, Bool-cases, inl, inr, length,
}
use gdrive_s.S3Error.{Result, ok, err}
use gdrive_s.Store.Rows.{Store, StagingRow, ObjectRow}
use gdrive_s.Store.Table.{select}
use gdrive_s.Store.Staging
use gdrive_s.Store.Objects.{find_by_key}
use gdrive_s.Store.Commit.{
  Outcome, not_ready, object_key_conflict, owner_mismatch, done, Committed, commit_staged_object,
}
use gdrive_s.Store.Commit.Published.{commit_staged_object-Published}
use gdrive_s.Store.Drive.{
  streaming_upload, DeletionAnswer, deleted, drive_error, other_error, StreamingUploadResult,
  UploadAnswer, stored, upload_error,
}
use gdrive_s.Multipart.Parts.{MultipartPartRow}
use gdrive_s.Multipart.Table.{of_upload, delete_all}
use gdrive_s.Multipart.World.{World, UploadBucket}
use gdrive_s.Multipart.Uploads.{
  MultipartUploadRow, completed, updated, apply, mark_completing, mark_completed,
}
use gdrive_s.Multipart.Complete.{
  CompleteRequest, CompleteContext, Admitted, answered, Thrown, staging_input, uploaded_input,
  upload_input, staged, after_drain, drain, cleanup_temp_files, finish, commit_options,
  commit_fresh, after_commit, with_uploaded, after_upload, assemble, with_slot, with_cipher,
  after_claim, after_admit, complete_locked, admit, cipher_error,
}
use gdrive_s.Multipart.Complete.Staged.{start-by_id, mark_uploaded-by_id}

-- Every row with the id is completed.
abbrev pub IsFinished : String → List MultipartUploadRow → Type 0
IsFinished id t = All (λ r. (r.id == id) ≡ true → r.status ≡ completed) t

mark_completed-IsFinished :
    (id : String) (total now : ℕ) (t : List MultipartUploadRow)
    → IsFinished id (apply (mark_completed id total now) t).1
unfolding apply updated
mark_completed-IsFinished id total now [] = tt
mark_completed-IsFinished id total now (r ∷ t) =
    (λ same. ground arith, mark_completed-IsFinished id total now t)

no_parts_left :
    (id : String) (t : List MultipartPartRow)
    → any (of_upload id) (select (λ r. not (of_upload id r)) t) ≡ false
unfolding select
no_parts_left id [] = refl
no_parts_left id (r ∷ t) = ground (arith, no_parts_left id t)

module _ {D : Type 0} (ctx : CompleteContext D) (rq : CompleteRequest) where
  cleanup_temp_files-objects :
      (parts : List MultipartPartRow) (s : Store)
      → (cleanup_temp_files ctx rq parts s).objects ≡ s.objects
  unfolding cleanup_temp_files
  cleanup_temp_files-objects [] s = refl
  cleanup_temp_files-objects (part ∷ parts) s = cleanup_temp_files-objects parts _ ∙ ground arith

  after_drain-objects :
      (answer : DeletionAnswer) (bucket : UploadBucket) (old : String) (s : Store)
      → (after_drain ctx rq answer bucket old s).objects ≡ s.objects
  after_drain-objects deleted bucket old s = refl
  after_drain-objects (drive_error status category message) bucket old s = refl
  after_drain-objects (other_error message) bucket old s = refl

  drain-objects :
      (bucket : UploadBucket) (previous : Option ObjectRow) (new : String) (w : World D)
      → (drain ctx rq bucket previous new w).store.objects ≡ w.store.objects
  unfolding drain
  drain-objects bucket none new w = refl
  drain-objects bucket (some previous) new w = elim (Bool-cases (previous.drive_file_id == new)) [
    | inl e ↦ rw e refl
    | inr e ↦ rw e (after_drain-objects _ bucket previous.drive_file_id w.store)
  ]

  pub record IsCompleted (w after : World D) (tag : String) : Type 0 where
    pub a : Admitted
    pub admitted : admit ctx rq w ≡ ok a
    pub u : StreamingUploadResult
    pub uploaded : (streaming_upload ctx.drive_storage (upload_input ctx rq a) w.drive).0 ≡ stored u
    pub row : ObjectRow
    pub current : find_by_key a.bucket.id rq.key after.store.objects ≡ some row
    pub file : row.drive_file_id ≡ u.drive_file_id
    pub size : row.size_bytes ≡ u.size
    pub tagged : tag ≡ ctx.multipart_etag a.selected
    pub etag : row.etag ≡ tag
    pub finished : IsFinished rq.upload_id after.uploads
    pub no_parts : any (of_upload rq.upload_id) after.parts ≡ false

  -- What the staged row carries when its upload has been marked.
  record Marked (a : Admitted) (u : StreamingUploadResult) (r : StagingRow) : Type 0 where
    bucket : r.bucket_id ≡ a.bucket.id
    key : r.object_key ≡ rq.key
    file : r.new_drive_file_id ≡ some u.drive_file_id
    size : r.size_bytes ≡ some u.size
    etag : r.etag ≡ some (ctx.multipart_etag a.selected)

  finish-objects :
      (a : Admitted) (w : World D) → (finish ctx rq a w).store.objects ≡ w.store.objects
  unfolding finish
  finish-objects a w = cleanup_temp_files-objects _ w.store

  finish-IsFinished :
      (a : Admitted) (w : World D) → IsFinished rq.upload_id (finish ctx rq a w).uploads
  unfolding finish
  finish-IsFinished a w =
      mark_completed-IsFinished rq.upload_id (length a.selected) ctx.now w.uploads

  finish-no_parts :
      (a : Admitted) (w : World D) → any (of_upload rq.upload_id) (finish ctx rq a w).parts ≡ false
  unfolding finish delete_all
  finish-no_parts a w = no_parts_left rq.upload_id w.parts

  module _ (w : World D) (tag : String) (a : Admitted) (admitted : admit ctx rq w ≡ ok a)
      (u : StreamingUploadResult)
      (uploaded : (streaming_upload ctx.drive_storage (upload_input ctx rq a) w.drive).0
        ≡ stored u) where
    after_commit-IsCompleted :
        (outcome : Outcome Committed) (ws : World D) (r : StagingRow)
        → commit_staged_object ctx.staging_id (commit_options ctx rq) (commit_fresh ctx rq) ws.store
          ≡ outcome
        → Staging.by_id ctx.staging_id ws.store.object_staging ≡ some r
        → Marked a u r
        → (after_commit ctx rq a u outcome ws).1 ≡ answered tag
        → IsCompleted w (after_commit ctx rq a u outcome ws).0 tag
    after_commit-IsCompleted not_ready ws r e found m h = cc
    after_commit-IsCompleted object_key_conflict ws r e found m h = cc
    after_commit-IsCompleted owner_mismatch ws r e found m h = cc
    after_commit-IsCompleted (done c s) ws r e found m h =
        let p =
          commit_staged_object-Published ctx.staging_id (commit_options ctx rq)
            (commit_fresh ctx rq) ws.store s c e in
        let same = some-injective _ _ (sym p.found ∙ found) in
        let drained = record ws { store = s } in
        let objects =
          finish-objects a (drain ctx rq a.bucket c.previous u.drive_file_id drained)
          ∙ drain-objects a.bucket c.previous u.drive_file_id drained in
        let tagged : tag ≡ ctx.multipart_etag a.selected = cc in
        record {
          a = a;
          admitted = admitted;
          u = u;
          uploaded = uploaded;
          row = p.row;
          current =
              ap (find_by_key a.bucket.id rq.key) objects
              ∙ ap (λ k. find_by_key k rq.key s.objects)
                  (sym m.bucket ∙ ap (λ x. x.bucket_id) (sym same))
              ∙ ap (λ k. find_by_key p.staged.bucket_id k s.objects)
                  (sym m.key ∙ ap (λ x. x.object_key) (sym same))
              ∙ p.stored;
          file = some-injective _ _ (sym p.file ∙ ap (λ x. x.new_drive_file_id) same ∙ m.file);
          size = some-injective _ _ (sym p.size ∙ ap (λ x. x.size_bytes) same ∙ m.size);
          tagged = tagged;
          etag = some-injective _ _ (sym p.tag ∙ ap (λ x. x.etag) same ∙ m.etag) ∙ sym tagged;
          finished = finish-IsFinished a _;
          no_parts = finish-no_parts a _;
        }

  -- The tables once the upload is claimed and its staging row is there.
  abbrev claimed : World D → World D
  claimed w = record w { uploads = (apply (mark_completing rq.upload_id) w.uploads).1 }

  module _ (w : World D) (tag : String) (a : Admitted) (admitted : admit ctx rq w ≡ ok a)
      (new : any (λ r. r.id == ctx.staging_id) w.store.object_staging ≡ false) where
    after_upload-IsCompleted :
        (answer : UploadAnswer) (d : D)
        → (streaming_upload ctx.drive_storage (upload_input ctx rq a) w.drive).0 ≡ answer
        → (after_upload ctx rq a answer (record (staged ctx rq a (claimed w)) { drive = d })).1
          ≡ answered tag
        → IsCompleted w
            (after_upload ctx rq a answer (record (staged ctx rq a (claimed w)) { drive = d })).0
            tag
    after_upload-IsCompleted (upload_error message) d e h = cc
    after_upload-IsCompleted (stored u) d e h =
        let input = staging_input ctx rq a (claimed w) in
        let row = Staging.started input ctx.staging_id ctx.object_id ctx.now in
        let ws = record (staged ctx rq a (claimed w)) { drive = d } in
        after_commit-IsCompleted w tag a admitted u e _ (with_uploaded ctx rq a u ws)
          (Staging.set_uploaded (uploaded_input ctx rq a u) ctx.now row) refl
          (mark_uploaded-by_id (uploaded_input ctx rq a u) ctx.now ws.store.object_staging row
            (start-by_id input ctx.staging_id ctx.object_id ctx.now w.store.object_staging new))
          (record { bucket = refl; key = refl; file = refl; size = refl; etag = refl }) h

    assemble-IsCompleted :
        (assemble ctx rq a (staged ctx rq a (claimed w))).1 ≡ answered tag
        → IsCompleted w (assemble ctx rq a (staged ctx rq a (claimed w))).0 tag
    unfolding assemble
    assemble-IsCompleted h = after_upload-IsCompleted _ _ refl h

    with_slot-IsCompleted :
        (refused : Option String)
        → (with_slot ctx rq refused a (staged ctx rq a (claimed w))).1 ≡ answered tag
        → IsCompleted w (with_slot ctx rq refused a (staged ctx rq a (claimed w))).0 tag
    with_slot-IsCompleted none h = assemble-IsCompleted h
    with_slot-IsCompleted (some reason) h = cc

    with_cipher-IsCompleted :
        (error : Option Thrown)
        → (with_cipher ctx rq error a (staged ctx rq a (claimed w))).1 ≡ answered tag
        → IsCompleted w (with_cipher ctx rq error a (staged ctx rq a (claimed w))).0 tag
    with_cipher-IsCompleted none h = with_slot-IsCompleted rq.slot_refused h
    with_cipher-IsCompleted (some error) h = cc

    after_claim-IsCompleted :
        (won : Bool)
        → (after_claim ctx rq won a (claimed w)).1 ≡ answered tag
        → IsCompleted w (after_claim ctx rq won a (claimed w)).0 tag
    after_claim-IsCompleted false h = cc
    after_claim-IsCompleted true h =
        with_cipher-IsCompleted (cipher_error ctx.decrypts a.upload.sse) h

  after_admit-IsCompleted :
      (r : Result Admitted) (w : World D) (tag : String)
      → admit ctx rq w ≡ r
      → any (λ r. r.id == ctx.staging_id) w.store.object_staging ≡ false
      → (after_admit ctx rq r w).1 ≡ answered tag
      → IsCompleted w (after_admit ctx rq r w).0 tag
  after_admit-IsCompleted (err code) w tag e new h = cc
  after_admit-IsCompleted (ok a) w tag e new h =
      after_claim-IsCompleted w tag a e new (apply (mark_completing rq.upload_id) w.uploads).0 h

-- What a completion that answers has done: when the id drawn for the staging row is new, the
-- request passed the checks, Drive took the parts as one file, the key resolves to a row with that
-- file, its size and the entity tag of the parts, which is the answer, each row of the upload is
-- completed, and none of its parts is left.
pub complete_locked-IsCompleted :
    {D : Type 0} (ctx : CompleteContext D) (rq : CompleteRequest) (w : World D) (tag : String)
    → any (λ r. r.id == ctx.staging_id) w.store.object_staging ≡ false
    → (complete_locked ctx rq w).1 ≡ answered tag
    → IsCompleted ctx rq w (complete_locked ctx rq w).0 tag
unfolding complete_locked
complete_locked-IsCompleted ctx rq w tag new h =
    after_admit-IsCompleted ctx rq (admit ctx rq w) w tag refl new h
