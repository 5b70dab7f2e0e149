-- ===== src/Multipart/Complete/Files.antt =====
-- What a completion does to the Drive files that the tables know.
use gdrive_s.Base.{
  ◌≡◌, refl, ap, ◌∙◌, sym, String, Bool, true, false, ◌||◌, Option, none, some, List, [], ◌∷◌, ◌==◌,
  text_key, arith, any, Bool-cases, inl, inr,
}
use gdrive_s.S3Error.{Result, ok, err}
use gdrive_s.Store.Rows.{
  Store, StagingRow, ObjectRow, temp_file, resource_type_key, disabled, is_uploading,
}
use gdrive_s.Store.Staging
use gdrive_s.Store.Cleanup.Enqueue.{enqueue-any}
use gdrive_s.Store.Commit.{
  archives, Outcome, not_ready, object_key_conflict, owner_mismatch, done, Committed,
  commit_staged_object,
}
use gdrive_s.Store.Commit.Inversion.{commit_staged_object-IsCommit}
use gdrive_s.Store.Commit.Files.{commit_staged_object-tracked, no_clash}
use gdrive_s.Store.Tracked.{tracked, open_with}
use gdrive_s.Store.Disk.Known.{complete_resource-any}
use gdrive_s.Store.Drive.{
  streaming_upload, IsDrive, DeletionAnswer, deleted, drive_error, other_error,
  StreamingUploadResult, UploadAnswer, stored, upload_error, stored_as, left_by_upload,
  streaming_upload-adds, is_deleted,
}
use gdrive_s.Multipart.Parts.{MultipartPartRow}
use gdrive_s.Multipart.World.{World, UploadBucket}
use gdrive_s.Multipart.Uploads.{apply, mark_completing}
use gdrive_s.Multipart.Complete.{
  CompleteRequest, CompleteContext, Admitted, Thrown, staging_input, failed_input, drain_input,
  uploaded_input, upload_input, staged, fail, after_drain, drain_file, drain, cleanup_temp_files,
  finish, commit_options, commit_fresh, after_commit, with_uploaded, after_upload, assemble,
  with_slot, with_cipher, after_claim, after_admit, complete_locked, admit, cipher_error,
}
use gdrive_s.Multipart.Complete.Staged.{
  start-any, start-by_id, mark_uploaded-by_id, mark_uploaded-any, mark_failed-any,
}

module _ {D : Type 0} (ctx : CompleteContext D) (rq : CompleteRequest) (file : String) where
  cleanup_temp_files-tracked :
      (parts : List MultipartPartRow) (s : Store)
      → tracked file s ≡ true
      → tracked file (cleanup_temp_files ctx rq parts s) ≡ true
  unfolding cleanup_temp_files
  cleanup_temp_files-tracked [] s h = h
  cleanup_temp_files-tracked (part ∷ parts) s h = cleanup_temp_files-tracked parts _ (
      ground (
        arith,
        enqueue-any file
            (record {
              user_id = rq.user_id;
              resource_type = temp_file;
              resource_id = part.temp_path;
              reason = "multipart_complete_cleanup";
              drive_target_id = none;
            })
            (ctx.fresh part.temp_path) ctx.now s.pending_cleanup,
      ))

  finish-tracked :
      (a : Admitted) (w : World D)
      → tracked file w.store ≡ true
      → tracked file (finish ctx rq a w).store ≡ true
  unfolding finish
  finish-tracked a w h = cleanup_temp_files-tracked _ w.store h

  -- Every file that Drive has is known to the tables.
  abbrev Known : World D → Type 0
  Known w = ctx.drive_storage.stores file w.drive ≡ true → tracked file w.store ≡ true

  after_drain-Known :
      (answer : DeletionAnswer) (bucket : UploadBucket) (old : String) (s : Store)
      → (old == file) ≡ false
      → tracked file s ≡ true
      → tracked file (after_drain ctx rq answer bucket old s) ≡ true
  after_drain-Known deleted bucket old s other h =
      ground (arith, complete_resource-any file bucket.user_id old s.pending_cleanup other)
  after_drain-Known (drive_error status category message) bucket old s other h = h
  after_drain-Known (other_error message) bucket old s other h = h

  after_drain-refused :
      (answer : DeletionAnswer) (bucket : UploadBucket) (old : String) (s : Store)
      → is_deleted answer ≡ false
      → after_drain ctx rq answer bucket old s ≡ s
  after_drain-refused deleted bucket old s h = cc
  after_drain-refused (drive_error status category message) bucket old s h = refl
  after_drain-refused (other_error message) bucket old s h = refl

  drain_file-Known :
      IsDrive ctx.drive_storage
      → (bucket : UploadBucket) (old : String) (w : World D) → Known w
      → Known (drain_file ctx rq bucket old w)
  drain_file-Known law bucket old w h still =
      let input = drain_input ctx rq bucket old in
      let known = h (law.makes_none input file w.drive still) in
      let answer = (ctx.drive_storage.delete_file input w.drive).0 in
      elim (Bool-cases (old == file)) [
        | inr other ↦ after_drain-Known answer bucket old w.store other known
        | inl own ↦ elim (Bool-cases (is_deleted answer)) [
          | inl gone ↦ absurd (cc (law.gone input file w.drive own gone))
          | inr refused ↦
              ap (tracked file) (after_drain-refused answer bucket old w.store refused) ∙ known
        ]
      ]

  drain-Known :
      IsDrive ctx.drive_storage
      → (bucket : UploadBucket) (previous : Option ObjectRow) (new : String) (w : World D) → Known w
      → Known (drain ctx rq bucket previous new w)
  unfolding drain
  drain-Known law bucket none new w h = h
  drain-Known law bucket (some previous) new w h =
      elim (Bool-cases (previous.drive_file_id == new)) [
        | inl e ↦ rw e h
        | inr e ↦ rw e (drain_file-Known law bucket previous.drive_file_id w h)
      ]

  abbrev is_upload : Option StreamingUploadResult → Bool
  is_upload none = false
  is_upload (some u) = u.drive_file_id == file

  -- A failure closes the staged row, and queues the file that the row may have named.
  fail-tracked :
      (a : Admitted) (uploaded : Option StreamingUploadResult) (message : String) (w : World D)
      (r : StagingRow)
      → Staging.by_id ctx.staging_id w.store.object_staging ≡ some r
      → (open_with file r ≡ true → is_upload uploaded ≡ true)
      → (tracked file w.store || is_upload uploaded) ≡ true
      → tracked file (fail ctx rq a uploaded message w).store ≡ true
  unfolding fail
  fail-tracked a none message w r found own h =
      ground
        (arith, mark_failed-any file ctx.staging_id message ctx.now w.store.object_staging r found)
  fail-tracked a (some u) message w r found own h = ground (
    arith,
    mark_failed-any file ctx.staging_id message ctx.now w.store.object_staging r found,
    enqueue-any file (failed_input a u) (ctx.fresh u.drive_file_id) ctx.now w.store.pending_cleanup,
  )

  no_clash_disabled :
      (b : Bool) (previous : Option ObjectRow) (s : Store)
      → archives disabled previous ≡ b
      → no_clash b previous s.object_versions ≡ true
  no_clash_disabled b none s e = refl
  no_clash_disabled b (some previous) s e = rw (← e) refl

  -- Neither step calls Drive.
  drained-still :
      (a : Admitted) (w : World D)
      → ctx.drive_storage.stores file (finish ctx rq a w).drive ≡ true
      → ctx.drive_storage.stores file w.drive ≡ true
  unfolding finish
  drained-still a w h = h

  failed-still :
      (a : Admitted) (uploaded : Option StreamingUploadResult) (message : String) (w : World D)
      → ctx.drive_storage.stores file (fail ctx rq a uploaded message w).drive ≡ true
      → ctx.drive_storage.stores file w.drive ≡ true
  unfolding fail
  failed-still a uploaded message w h = h

  committed-tracked :
      (w : World D) (c : Committed) (s : Store)
      → commit_staged_object ctx.staging_id (commit_options ctx rq) (commit_fresh ctx rq) w.store
        ≡ done c s
      → tracked file w.store ≡ true
      → tracked file s ≡ true
  committed-tracked w c s e known =
      let options = commit_options ctx rq in
      let fresh = commit_fresh ctx rq in
      let it = commit_staged_object-IsCommit ctx.staging_id options fresh w.store s c e in
      commit_staged_object-tracked ctx.staging_id file options fresh w.store s c e
        (no_clash_disabled c.archived_previous c.previous w.store it.archived) known

  after_commit-Known :
      IsDrive ctx.drive_storage
      → (a : Admitted) (u : StreamingUploadResult) (outcome : Outcome Committed) (w : World D)
        (r : StagingRow)
      → commit_staged_object ctx.staging_id (commit_options ctx rq) (commit_fresh ctx rq) w.store
        ≡ outcome
      → Staging.by_id ctx.staging_id w.store.object_staging ≡ some r
      → (open_with file r ≡ true → (u.drive_file_id == file) ≡ true)
      → Known w
      → Known (after_commit ctx rq a u outcome w).0
  after_commit-Known law a u (done c s) w r e found own h still = finish-tracked a _ (
      drain-Known law a.bucket c.previous u.drive_file_id (record w { store = s })
        (λ there. committed-tracked w c s e (h there)) (drained-still a _ still))
  after_commit-Known law a u not_ready w r e found own h still =
      fail-tracked a (some u) _ w r found own
        (ground (arith, h (failed-still a (some u) _ w still)))
  after_commit-Known law a u object_key_conflict w r e found own h still =
      fail-tracked a (some u) _ w r found own
        (ground (arith, h (failed-still a (some u) _ w still)))
  after_commit-Known law a u owner_mismatch w r e found own h still =
      fail-tracked a (some u) _ w r found own
        (ground (arith, h (failed-still a (some u) _ w still)))

  -- A row that is uploading refers to no file, and to the uploaded one once it is marked.
  marked-open :
      (input : Staging.MarkUploadedInput) (r : StagingRow)
      → is_uploading r.status ≡ true
      → open_with file (Staging.set_uploaded input ctx.now r) ≡ (input.drive_file_id == file)
  marked-open input r h = rw h refl

  after_upload-Known :
      IsDrive ctx.drive_storage
      → (a : Admitted) (answer : UploadAnswer) (w : World D) (r : StagingRow)
      → Staging.by_id ctx.staging_id w.store.object_staging ≡ some r
      → is_uploading r.status ≡ true
      → open_with file r ≡ false
      → (ctx.drive_storage.stores file w.drive ≡ true
          → (tracked file w.store || stored_as answer file) ≡ true)
      → Known (after_upload ctx rq a answer w).0
  after_upload-Known law a (upload_error message) w r found uploading empty h still =
      fail-tracked a none message w r found (λ e. cc) (h (failed-still a none message w still))
  after_upload-Known law a (stored u) w r found uploading empty h still =
      let input = uploaded_input ctx rq a u in
      let marked = with_uploaded ctx rq a u w in
      let opens = marked-open input r uploading in
      let table = mark_uploaded-any file input ctx.now w.store.object_staging r found empty in
      after_commit-Known law a u _ marked (Staging.set_uploaded input ctx.now r) refl
        (mark_uploaded-by_id input ctx.now w.store.object_staging r found) (λ e. sym opens ∙ e)
        (λ there. ground (arith, table, opens, h there)) still

  assemble-Known :
      IsDrive ctx.drive_storage
      → (a : Admitted) (w : World D) (r : StagingRow)
      → Staging.by_id ctx.staging_id w.store.object_staging ≡ some r
      → is_uploading r.status ≡ true
      → open_with file r ≡ false
      → left_by_upload ctx.drive_storage (upload_input ctx rq a) file w.drive ≡ false
      → Known w
      → Known (assemble ctx rq a w).0
  unfolding assemble
  assemble-Known law a w r found uploading empty left h =
      let input = upload_input ctx rq a in
      let answer = (streaming_upload ctx.drive_storage input w.drive).0 in
      after_upload-Known law a answer
        (record w { drive = (streaming_upload ctx.drive_storage input w.drive).1 }) r found
        uploading empty
        (λ there. elim (Bool-cases (stored_as answer file)) [
          | inl own ↦ ground arith
          | inr other ↦ ground (
            arith,
            h (streaming_upload-adds ctx.drive_storage law input file w.drive left other there),
          )
        ])

  staged-Known : (a : Admitted) (w : World D) → Known w → Known (staged ctx rq a w)
  staged-Known a w h still = ground (
    arith,
    h still,
    start-any (staging_input ctx rq a w) ctx.staging_id ctx.object_id ctx.now w.store.object_staging
        file,
  )

  with_slot-Known :
      IsDrive ctx.drive_storage
      → (refused : Option String) (a : Admitted) (w : World D)
      → any (λ r. r.id == ctx.staging_id) w.store.object_staging ≡ false
      → left_by_upload ctx.drive_storage (upload_input ctx rq a) file w.drive ≡ false
      → Known w
      → Known (with_slot ctx rq refused a (staged ctx rq a w)).0
  with_slot-Known law none a w new left h =
      let input = staging_input ctx rq a w in
      assemble-Known law a (staged ctx rq a w)
        (Staging.started input ctx.staging_id ctx.object_id ctx.now)
        (start-by_id input ctx.staging_id ctx.object_id ctx.now w.store.object_staging new) refl
        refl left (staged-Known a w h)
  with_slot-Known law (some reason) a w new left h = staged-Known a w h

  with_cipher-Known :
      IsDrive ctx.drive_storage
      → (error : Option Thrown) (a : Admitted) (w : World D)
      → any (λ r. r.id == ctx.staging_id) w.store.object_staging ≡ false
      → left_by_upload ctx.drive_storage (upload_input ctx rq a) file w.drive ≡ false
      → Known w
      → Known (with_cipher ctx rq error a (staged ctx rq a w)).0
  with_cipher-Known law none a w new left h = with_slot-Known law rq.slot_refused a w new left h
  with_cipher-Known law (some error) a w new left h = staged-Known a w h

  after_claim-Known :
      IsDrive ctx.drive_storage
      → (won : Bool) (a : Admitted) (w : World D)
      → any (λ r. r.id == ctx.staging_id) w.store.object_staging ≡ false
      → left_by_upload ctx.drive_storage (upload_input ctx rq a) file w.drive ≡ false
      → Known w
      → Known (after_claim ctx rq won a w).0
  after_claim-Known law false a w new left h = h
  after_claim-Known law true a w new left h =
      with_cipher-Known law (cipher_error ctx.decrypts a.upload.sse) a w new left h

  after_admit-Known :
      IsDrive ctx.drive_storage
      → (r : Result Admitted) (w : World D)
      → any (λ r. r.id == ctx.staging_id) w.store.object_staging ≡ false
      → ((a : Admitted)
          → r ≡ ok a
          → left_by_upload ctx.drive_storage (upload_input ctx rq a) file w.drive ≡ false)
      → Known w
      → Known (after_admit ctx rq r w).0
  after_admit-Known law (err code) w new left h = h
  after_admit-Known law (ok a) w new left h =
      let (won, uploads) = apply (mark_completing rq.upload_id) w.uploads in
      after_claim-Known law won a (record w { uploads = uploads }) new (left a refl) h

-- A completion loses no Drive file but what an upload that throws has left there: when Drive keeps
-- the laws of IsDrive (a deletion touches no other file, an upload that returns adds only the file
-- that it answers with), the id drawn for the staging row is new, the file is not one that an
-- upload which throws leaves in Drive, and the tables refer to the file if Drive has it, then they
-- refer to it after the request if Drive has it then, be it an old file or the one that the request
-- uploaded.
pub complete_locked-Known :
    {D : Type 0} (ctx : CompleteContext D) (rq : CompleteRequest) (w : World D) (file : String)
    → IsDrive ctx.drive_storage
    → any (λ r. r.id == ctx.staging_id) w.store.object_staging ≡ false
    → ((a : Admitted)
        → admit ctx rq w ≡ ok a
        → left_by_upload ctx.drive_storage (upload_input ctx rq a) file w.drive ≡ false)
    → (ctx.drive_storage.stores file w.drive ≡ true → tracked file w.store ≡ true)
    → ctx.drive_storage.stores file (complete_locked ctx rq w).0.drive ≡ true
    → tracked file (complete_locked ctx rq w).0.store ≡ true
unfolding complete_locked
complete_locked-Known ctx rq w file law new left h =
    after_admit-Known ctx rq file law (admit ctx rq w) w new left h
