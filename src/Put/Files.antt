-- ===== src/Put/Files.antt =====
-- What a write does to the Drive files that the tables know.
use mathlib.Core.Path.{ap₂}
use mathlib.Core.Option.{some-injective}
use gdrive_s.Base.{
  ◌≡◌, refl, ap, ◌∙◌, sym, String, Bool, true, false, not, ◌&&◌, ◌||◌, Option, none, some, ◌==◌,
  text_key, arith, any, Bool-cases, inl, inr,
}
use gdrive_s.Store.Rows.{Store, StagingRow, ObjectRow}
use gdrive_s.Store.Staging
use gdrive_s.Store.Cleanup.Enqueue.{enqueue-any}
use gdrive_s.Store.Objects.{find_any_by_key}
use gdrive_s.Store.Commit.{
  archives, Outcome, not_ready, object_key_conflict, owner_mismatch, done, Committed,
  commit_staged_object,
}
use gdrive_s.Store.Commit.Inversion.{commit_staged_object-IsCommit}
use gdrive_s.Store.Commit.Files.{commit_staged_object-tracked, no_clash}
use gdrive_s.Store.Tracked.{tracked, open_with}
use gdrive_s.Store.Drive.{
  streaming_upload, IsDrive, StreamingUploadResult, UploadAnswer, stored, upload_error, stored_as,
  left_by_upload, streaming_upload-adds,
}
use gdrive_s.Multipart.Complete.Staged.{
  start-any, start-by_id, mark_uploaded-by_id, mark_uploaded-any, mark_failed-any,
}
use gdrive_s.Store.Disk.{Disk}
use gdrive_s.Store.Disk.Known.{Known as Knows, drain_drive_file_now-Known}
use gdrive_s.Put.{
  PutContext, ObjectUploadInput, is_committed, row_committed, staging_input, staged, failed_input,
  fail, delete_input, drain_previous, commit_options, after_commit, uploaded_input, with_uploaded,
  after_verify, after_upload, upload_input, transfer, with_slot, with_key, with_access, with_lock,
  upload,
}

module _ {D : Type 0} (ctx : PutContext D) (input : ObjectUploadInput) (file : String) where
  abbrev Known : Disk D → Type 0
  Known w = Knows ctx.drive_storage file w

  -- The row that a write replaces, when it is to be retained, takes the place of no version.
  abbrev KeepsVersions : Store → Type 0
  KeepsVersions s =
      no_clash (archives input.versioning (find_any_by_key input.bucket.id input.key s.objects))
        (find_any_by_key input.bucket.id input.key s.objects) s.object_versions
      ≡ true

  drain_previous-Known :
      IsDrive ctx.drive_storage
      → (archived : Bool) (previous : Option ObjectRow) (new : String) (w : Disk D) → Known w
      → Known (drain_previous ctx input archived previous new w)
  drain_previous-Known law archived none new w h = h
  drain_previous-Known law archived (some previous) new w h =
      elim (Bool-cases (not archived && not (previous.drive_file_id == new))) [
        | inl e ↦ rw e (
            drain_drive_file_now-Known ctx.drive_storage law
              (delete_input ctx input previous.drive_file_id) input.bucket.user_id file w h)
        | inr e ↦ rw e h
      ]

  abbrev is_upload : Option StreamingUploadResult → Bool
  is_upload none = false
  is_upload (some u) = u.drive_file_id == file

  -- A failure closes the staged row, and queues the file that the row may have named.
  fail-tracked :
      (sent : Option StreamingUploadResult) (message : String) (w : Disk D) (r : StagingRow)
      → Staging.by_id ctx.staging_id w.store.object_staging ≡ some r
      → is_committed r.status ≡ false
      → (open_with file r ≡ true → is_upload sent ≡ true)
      → (tracked file w.store || is_upload sent) ≡ true
      → tracked file (fail ctx input sent message w).store ≡ true
  unfolding fail
  fail-tracked none message w r found fresh own h = rw found (
      rw fresh (
        ground (
          arith,
          mark_failed-any file ctx.staging_id message ctx.fresh.now w.store.object_staging r found,
        )))
  fail-tracked (some u) message w r found fresh own h = rw found (
      rw fresh (
        ground (
          arith,
          mark_failed-any file ctx.staging_id message ctx.fresh.now w.store.object_staging r found,
          enqueue-any file (failed_input ctx input u) ctx.queue_id ctx.fresh.now
              w.store.pending_cleanup,
        )))

  -- Neither branch calls Drive.
  fail-drive :
      (sent : Option StreamingUploadResult) (message : String) (w : Disk D)
      → (fail ctx input sent message w).drive ≡ w.drive
  unfolding fail
  fail-drive sent message w =
      elim (Bool-cases (row_committed (Staging.by_id ctx.staging_id w.store.object_staging))) [
        | inl e ↦ rw e refl
        | inr e ↦ rw e refl
      ]

  failed-still :
      (sent : Option StreamingUploadResult) (message : String) (w : Disk D)
      → ctx.drive_storage.stores file (fail ctx input sent message w).drive ≡ true
      → ctx.drive_storage.stores file w.drive ≡ true
  failed-still sent message w h =
      ap (ctx.drive_storage.stores file) (sym (fail-drive sent message w)) ∙ h

  -- What the staged row holds of the request, until the commit.
  record IsStaged (w : Disk D) (r : StagingRow) : Type 0 where
    found : Staging.by_id ctx.staging_id w.store.object_staging ≡ some r
    fresh : is_committed r.status ≡ false
    bucket : r.bucket_id ≡ input.bucket.id
    key : r.object_key ≡ input.key

  committed-tracked :
      (w : Disk D) (r : StagingRow) (c : Committed) (s : Store)
      → commit_staged_object ctx.staging_id (commit_options ctx input) ctx.fresh w.store ≡ done c s
      → IsStaged w r
      → KeepsVersions w.store
      → tracked file w.store ≡ true
      → tracked file s ≡ true
  committed-tracked w r c s e row keeps known =
      let options = commit_options ctx input in
      let it = commit_staged_object-IsCommit ctx.staging_id options ctx.fresh w.store s c e in
      let same = some-injective _ _ (sym it.is_ready.found ∙ row.found) in
      let previous : find_any_by_key input.bucket.id input.key w.store.objects ≡ c.previous =
        ap₂ (λ b k. find_any_by_key b k w.store.objects)
          (sym row.bucket ∙ ap (λ x. x.bucket_id) (sym same))
          (sym row.key ∙ ap (λ x. x.object_key) (sym same))
        ∙ it.previous in
      let clash =
        ap₂ (λ b o. no_clash b o w.store.object_versions)
          (sym it.archived ∙ ap (archives input.versioning) (sym previous)) (sym previous) in
      commit_staged_object-tracked ctx.staging_id file options ctx.fresh w.store s c e
        (clash ∙ keeps) known

  refused-tracked :
      (u : StreamingUploadResult) (message : String) (w : Disk D) (r : StagingRow)
      → IsStaged w r
      → (open_with file r ≡ true → (u.drive_file_id == file) ≡ true)
      → (ctx.drive_storage.stores file w.drive ≡ true
          → (tracked file w.store || (u.drive_file_id == file)) ≡ true)
      → Known (fail ctx input (some u) message w)
  refused-tracked u message w r row own h still =
      fail-tracked (some u) message w r row.found row.fresh own
        (h (failed-still (some u) message w still))

  after_commit-Known :
      IsDrive ctx.drive_storage
      → (u : StreamingUploadResult) (outcome : Outcome Committed) (w : Disk D) (r : StagingRow)
      → commit_staged_object ctx.staging_id (commit_options ctx input) ctx.fresh w.store ≡ outcome
      → IsStaged w r
      → (open_with file r ≡ true → (u.drive_file_id == file) ≡ true)
      → KeepsVersions w.store
      → Known w
      → Known (after_commit ctx input u outcome w).0
  after_commit-Known law u (done c s) w r e row own keeps h =
      drain_previous-Known law c.archived_previous c.previous u.drive_file_id
        (record w { store = s }) (λ there. committed-tracked w r c s e row keeps (h there))
  after_commit-Known law u not_ready w r e row own keeps h =
      refused-tracked u _ w r row own (λ there. ground (arith, h there))
  after_commit-Known law u object_key_conflict w r e row own keeps h =
      refused-tracked u _ w r row own (λ there. ground (arith, h there))
  after_commit-Known law u owner_mismatch w r e row own keeps h =
      refused-tracked u _ w r row own (λ there. ground (arith, h there))

  -- A row that is uploading refers to no file, and to the uploaded one once it is marked.
  abbrev row : Disk D → StagingRow
  row w =
      Staging.started (staging_input ctx input w.store) ctx.staging_id ctx.object_id ctx.fresh.now

  after_verify-Known :
      IsDrive ctx.drive_storage
      → (refusal : Option String) (u : StreamingUploadResult) (v w : Disk D)
      → Staging.by_id ctx.staging_id w.store.object_staging ≡ some (row v)
      → KeepsVersions w.store
      → (ctx.drive_storage.stores file w.drive ≡ true
          → (tracked file w.store || (u.drive_file_id == file)) ≡ true)
      → Known (after_verify ctx input refusal u w).0
  after_verify-Known law (some message) u v w found keeps h =
      refused-tracked u message w (row v)
        (record { found = found; fresh = refl; bucket = refl; key = refl }) (λ e. cc) h
  after_verify-Known law none u v w found keeps h =
      let request = uploaded_input ctx input u in
      let t = w.store.object_staging in
      let marked = with_uploaded ctx input u w in
      let table = mark_uploaded-any file request ctx.fresh.now t (row v) found refl in
      after_commit-Known law u _ marked (Staging.set_uploaded request ctx.fresh.now (row v)) refl
        (record {
          found = mark_uploaded-by_id request ctx.fresh.now t (row v) found;
          fresh = refl;
          bucket = refl;
          key = refl;
        })
        (λ e. e) keeps (λ there. ground (arith, table, h there))

  after_upload-Known :
      IsDrive ctx.drive_storage
      → (answer : UploadAnswer) (v w : Disk D)
      → Staging.by_id ctx.staging_id w.store.object_staging ≡ some (row v)
      → KeepsVersions w.store
      → (ctx.drive_storage.stores file w.drive ≡ true
          → (tracked file w.store || stored_as answer file) ≡ true)
      → Known (after_upload ctx input answer w).0
  after_upload-Known law (upload_error message) v w found keeps h still =
      fail-tracked none message w (row v) found refl (λ e. cc)
        (h (failed-still none message w still))
  after_upload-Known law (stored u) v w found keeps h still =
      after_verify-Known law (input.verify u) u v w found keeps h still

  transfer-Known :
      IsDrive ctx.drive_storage
      → (v w : Disk D) → Staging.by_id ctx.staging_id w.store.object_staging ≡ some (row v)
      → KeepsVersions w.store
      → left_by_upload ctx.drive_storage (upload_input ctx input) file w.drive ≡ false
      → Known w
      → Known (transfer ctx input w).0
  unfolding transfer
  transfer-Known law v w found keeps left h =
      let request = upload_input ctx input in
      let answer = (streaming_upload ctx.drive_storage request w.drive).0 in
      after_upload-Known law answer v
        (record w { drive = (streaming_upload ctx.drive_storage request w.drive).1 }) found keeps
        (λ there. elim (Bool-cases (stored_as answer file)) [
          | inl own ↦ ground arith
          | inr other ↦ ground (
            arith,
            h (streaming_upload-adds ctx.drive_storage law request file w.drive left other there),
          )
        ])

  staged-Known : (w : Disk D) → Known w → Known (staged ctx input w)
  staged-Known w h still = ground (
    arith,
    h still,
    start-any (staging_input ctx input w.store) ctx.staging_id ctx.object_id ctx.fresh.now
        w.store.object_staging file,
  )

  with_slot-Known :
      IsDrive ctx.drive_storage
      → (refused : Option String) (w : Disk D)
      → any (λ r. r.id == ctx.staging_id) w.store.object_staging ≡ false
      → KeepsVersions w.store
      → left_by_upload ctx.drive_storage (upload_input ctx input) file w.drive ≡ false
      → Known w
      → Known (with_slot ctx input refused (staged ctx input w)).0
  with_slot-Known law none w new keeps left h =
      transfer-Known law w (staged ctx input w)
        (start-by_id (staging_input ctx input w.store) ctx.staging_id ctx.object_id ctx.fresh.now
          w.store.object_staging new)
        keeps left (staged-Known w h)
  with_slot-Known law (some reason) w new keeps left h = staged-Known w h

  with_key-Known :
      IsDrive ctx.drive_storage
      → (taken : Bool) (w : Disk D)
      → any (λ r. r.id == ctx.staging_id) w.store.object_staging ≡ false
      → KeepsVersions w.store
      → left_by_upload ctx.drive_storage (upload_input ctx input) file w.drive ≡ false
      → Known w
      → Known (with_key ctx input taken w).0
  with_key-Known law true w new keeps left h = h
  with_key-Known law false w new keeps left h =
      with_slot-Known law ctx.slot_refused w new keeps left h

  with_access-Known :
      IsDrive ctx.drive_storage
      → (verified : Bool) (w : Disk D)
      → any (λ r. r.id == ctx.staging_id) w.store.object_staging ≡ false
      → KeepsVersions w.store
      → left_by_upload ctx.drive_storage (upload_input ctx input) file w.drive ≡ false
      → Known w
      → Known (with_access ctx input verified w).0
  with_access-Known law false w new keeps left h = h
  with_access-Known law true w new keeps left h = with_key-Known law _ w new keeps left h

  with_lock-Known :
      IsDrive ctx.drive_storage
      → (refused : Option String) (w : Disk D)
      → any (λ r. r.id == ctx.staging_id) w.store.object_staging ≡ false
      → KeepsVersions w.store
      → left_by_upload ctx.drive_storage (upload_input ctx input) file w.drive ≡ false
      → Known w
      → Known (with_lock ctx input refused w).0
  with_lock-Known law (some reason) w new keeps left h = h
  with_lock-Known law none w new keeps left h =
      with_access-Known law ctx.verified w new keeps left h

-- A write loses no Drive file but what an upload that throws has left there: when Drive keeps the
-- laws of IsDrive (a deletion touches no other file, an upload that returns adds only the file that
-- it answers with), the id drawn for the staging row is new, the row that the write replaces and
-- retains takes the place of no archived version, the file is not one that an upload which throws
-- leaves in Drive, and the tables refer to the file if Drive has it, then they refer to it after
-- the write if Drive has it then, be it an old file or the one that the write uploaded.
pub upload-Known :
    {D : Type 0} (ctx : PutContext D) (input : ObjectUploadInput) (w : Disk D) (file : String)
    → IsDrive ctx.drive_storage
    → any (λ r. r.id == ctx.staging_id) w.store.object_staging ≡ false
    → no_clash
        (archives input.versioning (find_any_by_key input.bucket.id input.key w.store.objects))
        (find_any_by_key input.bucket.id input.key w.store.objects)
        w.store.object_versions
      ≡ true
    → left_by_upload ctx.drive_storage (upload_input ctx input) file w.drive ≡ false
    → (ctx.drive_storage.stores file w.drive ≡ true → tracked file w.store ≡ true)
    → ctx.drive_storage.stores file (upload ctx input w).0.drive ≡ true
    → tracked file (upload ctx input w).0.store ≡ true
unfolding upload
upload-Known ctx input w file law new keeps left h =
    with_lock-Known ctx input file law ctx.lock_refused w new keeps left h
