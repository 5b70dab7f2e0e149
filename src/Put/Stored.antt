-- ===== src/Put/Stored.antt =====
-- What a write that returns leaves behind.
use mathlib.Core.Path.{ap₂, subst}
use mathlib.Core.Option.{some-injective}
use gdrive_s.Base.{
  ◌≡◌, refl, ap, ◌∙◌, sym, Bool, true, false, not, ◌&&◌, Option, none, some, any, Bool-cases, inl,
  inr, String, is_some, arith, ◌==◌, text_key,
}
use gdrive_s.Store.Rows.{Store, StagingRow, ObjectRow}
use gdrive_s.Store.Staging
use gdrive_s.Store.Objects.{find_by_key, find_any_by_key}
use gdrive_s.Store.Commit.{
  Outcome, not_ready, object_key_conflict, owner_mismatch, done, Committed, commit_staged_object,
  null_of,
}
use gdrive_s.Store.Commit.Published.{commit_staged_object-Published}
use gdrive_s.Store.Drive.{
  streaming_upload, StreamingUploadResult, UploadAnswer, stored, upload_error,
}
use gdrive_s.Multipart.Complete.Staged.{start-by_id, mark_uploaded-by_id}
use gdrive_s.Store.Disk.{Disk}
use gdrive_s.Store.Disk.Known.{drain_drive_file_now-objects}
use gdrive_s.Put.{
  PutContext, ObjectUploadInput, returned, previous_of, staging_input, staged, drain_previous,
  commit_options, after_commit, uploaded_input, with_uploaded, after_verify, after_upload,
  upload_input, transfer, with_slot, with_key, with_access, with_lock, upload,
}

module _ {D : Type 0} (ctx : PutContext D) (input : ObjectUploadInput) where
  drain_previous-objects :
      (archived : Bool) (previous : Option ObjectRow) (new : String) (w : Disk D)
      → (drain_previous ctx input archived previous new w).store.objects ≡ w.store.objects
  drain_previous-objects archived none new w = refl
  drain_previous-objects archived (some previous) new w =
      elim (Bool-cases (not archived && not (previous.drive_file_id == new))) [
        | inl e ↦ rw e (drain_drive_file_now-objects ctx.drive_storage _ input.bucket.user_id w)
        | inr e ↦ rw e refl
      ]

  drain_previous-archived :
      (archived : Bool) (previous : Option ObjectRow) (new : String) (w : Disk D)
      → archived ≡ true
      → drain_previous ctx input archived previous new w ≡ w
  drain_previous-archived archived none new w e = refl
  drain_previous-archived archived (some previous) new w e = rw e refl

  -- The key resolves to a row with what was sent, after the checks that come before; a row that
  -- was retained keeps its file, as nothing is deleted from Drive.
  pub record IsStored (w after : Disk D) (c : Committed) (u : StreamingUploadResult) : Type 0 where
    pub verified : ctx.verified ≡ true
    pub absent :
        (input.if_absent && is_some (find_any_by_key input.bucket.id input.key w.store.objects))
        ≡ false
    pub uploaded :
        (streaming_upload ctx.drive_storage (upload_input ctx input) w.drive).0 ≡ stored u
    pub checked : input.verify u ≡ none
    pub row : ObjectRow
    pub answered : c.current ≡ some row
    pub current : find_by_key input.bucket.id input.key after.store.objects ≡ some row
    pub file : row.drive_file_id ≡ u.drive_file_id
    pub size : row.size_bytes ≡ u.size
    pub etag : row.etag ≡ u.md5_hex
    pub headers : row.headers ≡ input.headers
    pub lock : row.lock ≡ input.lock
    pub version : row.version_id ≡ null_of input.version_id
    pub retained :
        c.archived_previous ≡ true
        → after.drive ≡ (streaming_upload ctx.drive_storage (upload_input ctx input) w.drive).1

  -- What the staged row carries when its upload has been marked.
  record Marked (u : StreamingUploadResult) (r : StagingRow) : Type 0 where
    bucket : r.bucket_id ≡ input.bucket.id
    key : r.object_key ≡ input.key
    file : r.new_drive_file_id ≡ some u.drive_file_id
    size : r.size_bytes ≡ some u.size
    etag : r.etag ≡ some u.md5_hex
    headers : r.headers ≡ input.headers
    lock : r.lock ≡ input.lock

  module _ (w : Disk D) (verified : ctx.verified ≡ true)
      (absent : (input.if_absent
          && is_some (find_any_by_key input.bucket.id input.key w.store.objects))
        ≡ false) where
    module _ (u : StreamingUploadResult)
        (uploaded : (streaming_upload ctx.drive_storage (upload_input ctx input) w.drive).0
          ≡ stored u)
        (checked : input.verify u ≡ none) where
      committed-IsStored :
          (ws : Disk D) (c : Committed) (s : Store) (r : StagingRow)
          → commit_staged_object ctx.staging_id (commit_options ctx input) ctx.fresh ws.store
            ≡ done c s
          → ws.drive ≡ (streaming_upload ctx.drive_storage (upload_input ctx input) w.drive).1
          → Staging.by_id ctx.staging_id ws.store.object_staging ≡ some r
          → Marked u r
          → IsStored w
              (drain_previous ctx input c.archived_previous c.previous u.drive_file_id
                (record ws { store = s }))
              c
              u
      committed-IsStored ws c s r e drive found m =
          let p =
            commit_staged_object-Published ctx.staging_id (commit_options ctx input) ctx.fresh
              ws.store s c e in
          let same = some-injective _ _ (sym p.found ∙ found) in
          let next = record ws { store = s } in
          record {
            verified = verified;
            absent = absent;
            uploaded = uploaded;
            checked = checked;
            row = p.row;
            answered = p.current;
            current =
                ap (find_by_key input.bucket.id input.key)
                  (drain_previous-objects c.archived_previous c.previous u.drive_file_id next)
                ∙ ap₂ (λ b k. find_by_key b k s.objects)
                    (sym m.bucket ∙ ap (λ x. x.bucket_id) (sym same))
                    (sym m.key ∙ ap (λ x. x.object_key) (sym same))
                ∙ p.stored;
            file = some-injective _ _ (sym p.file ∙ ap (λ x. x.new_drive_file_id) same ∙ m.file);
            size = some-injective _ _ (sym p.size ∙ ap (λ x. x.size_bytes) same ∙ m.size);
            etag = some-injective _ _ (sym p.tag ∙ ap (λ x. x.etag) same ∙ m.etag);
            headers = p.headers ∙ ap (λ x. x.headers) same ∙ m.headers;
            lock = p.lock ∙ ap (λ x. x.lock) same ∙ m.lock;
            version = p.version;
            retained = λ kept.
                ap (λ x. x.drive)
                  (drain_previous-archived c.archived_previous c.previous u.drive_file_id next kept)
                ∙ drive;
          }

      after_commit-IsStored :
          (outcome : Outcome Committed) (ws : Disk D) (r : StagingRow) (c : Committed)
          (v : StreamingUploadResult)
          → commit_staged_object ctx.staging_id (commit_options ctx input) ctx.fresh ws.store
            ≡ outcome
          → ws.drive ≡ (streaming_upload ctx.drive_storage (upload_input ctx input) w.drive).1
          → Staging.by_id ctx.staging_id ws.store.object_staging ≡ some r
          → Marked u r
          → (after_commit ctx input u outcome ws).1 ≡ returned c v
          → IsStored w (after_commit ctx input u outcome ws).0 c v
      after_commit-IsStored not_ready ws r c v e drive found m h = cc
      after_commit-IsStored object_key_conflict ws r c v e drive found m h = cc
      after_commit-IsStored owner_mismatch ws r c v e drive found m h = cc
      after_commit-IsStored (done d s) ws r c v e drive found m h =
          let after = (after_commit ctx input u (done d s) ws).0 in
          let same_answer : d ≡ c = cc in
          let same_result : u ≡ v = cc in
          subst (λ x. IsStored w after x v) same_answer
            (subst (IsStored w after d) same_result (committed-IsStored ws d s r e drive found m))

    -- The tables once the staging row is there.
    abbrev sent : Disk D
    sent = record (staged ctx input w) {
      drive = (streaming_upload ctx.drive_storage (upload_input ctx input) w.drive).1;
    }

    after_verify-IsStored :
        (refusal : Option String) (u : StreamingUploadResult) (c : Committed)
        (v : StreamingUploadResult)
        → any (λ r. r.id == ctx.staging_id) w.store.object_staging ≡ false
        → (streaming_upload ctx.drive_storage (upload_input ctx input) w.drive).0 ≡ stored u
        → input.verify u ≡ refusal
        → (after_verify ctx input refusal u sent).1 ≡ returned c v
        → IsStored w (after_verify ctx input refusal u sent).0 c v
    after_verify-IsStored (some message) u c v new uploaded checked h = cc
    after_verify-IsStored none u c v new uploaded checked h =
        let request = staging_input ctx input w.store in
        let row = Staging.started request ctx.staging_id ctx.object_id ctx.fresh.now in
        after_commit-IsStored u uploaded checked _ (with_uploaded ctx input u sent)
          (Staging.set_uploaded (uploaded_input ctx input u) ctx.fresh.now row) c v refl refl
          (mark_uploaded-by_id (uploaded_input ctx input u) ctx.fresh.now sent.store.object_staging
            row
            (start-by_id request ctx.staging_id ctx.object_id ctx.fresh.now w.store.object_staging
              new))
          (record {
            bucket = refl;
            key = refl;
            file = refl;
            size = refl;
            etag = refl;
            headers = refl;
            lock = refl;
          })
          h

    after_upload-IsStored :
        (answer : UploadAnswer) (c : Committed) (v : StreamingUploadResult)
        → any (λ r. r.id == ctx.staging_id) w.store.object_staging ≡ false
        → (streaming_upload ctx.drive_storage (upload_input ctx input) w.drive).0 ≡ answer
        → (after_upload ctx input answer sent).1 ≡ returned c v
        → IsStored w (after_upload ctx input answer sent).0 c v
    after_upload-IsStored (upload_error message) c v new e h = cc
    after_upload-IsStored (stored u) c v new e h =
        after_verify-IsStored (input.verify u) u c v new e refl h

    with_slot-IsStored :
        (refused : Option String) (c : Committed) (v : StreamingUploadResult)
        → any (λ r. r.id == ctx.staging_id) w.store.object_staging ≡ false
        → (with_slot ctx input refused (staged ctx input w)).1 ≡ returned c v
        → IsStored w (with_slot ctx input refused (staged ctx input w)).0 c v
    unfolding transfer
    with_slot-IsStored none c v new h = after_upload-IsStored _ c v new refl h
    with_slot-IsStored (some reason) c v new h = cc

  absent_any :
      (s : Store)
      → (input.if_absent && is_some (previous_of ctx input s)) ≡ false
      → (input.if_absent && is_some (find_any_by_key input.bucket.id input.key s.objects)) ≡ false
  absent_any s e = ground arith

  with_key-IsStored :
      (taken : Bool) (w : Disk D) (c : Committed) (v : StreamingUploadResult)
      → any (λ r. r.id == ctx.staging_id) w.store.object_staging ≡ false
      → ctx.verified ≡ true
      → (input.if_absent && is_some (previous_of ctx input w.store)) ≡ taken
      → (with_key ctx input taken w).1 ≡ returned c v
      → IsStored w (with_key ctx input taken w).0 c v
  with_key-IsStored true w c v new verified e h = cc
  with_key-IsStored false w c v new verified e h =
      with_slot-IsStored w verified (absent_any w.store e) ctx.slot_refused c v new h

  with_access-IsStored :
      (verified : Bool) (w : Disk D) (c : Committed) (v : StreamingUploadResult)
      → any (λ r. r.id == ctx.staging_id) w.store.object_staging ≡ false
      → ctx.verified ≡ verified
      → (with_access ctx input verified w).1 ≡ returned c v
      → IsStored w (with_access ctx input verified w).0 c v
  with_access-IsStored false w c v new e h = cc
  with_access-IsStored true w c v new e h = with_key-IsStored _ w c v new e refl h

  with_lock-IsStored :
      (refused : Option String) (w : Disk D) (c : Committed) (v : StreamingUploadResult)
      → any (λ r. r.id == ctx.staging_id) w.store.object_staging ≡ false
      → (with_lock ctx input refused w).1 ≡ returned c v
      → IsStored w (with_lock ctx input refused w).0 c v
  with_lock-IsStored (some reason) w c v new h = cc
  with_lock-IsStored none w c v new h = with_access-IsStored ctx.verified w c v new refl h

-- What a write that returns has done: when the id drawn for the staging row is new, the caller's
-- access was verified, nothing was at the key if the write was to create it, Drive took the body,
-- the caller's check accepted what arrived, the key resolves to a row with that file, its size, its
-- MD5 as the entity tag and the headers, the lock and the version id asked for, and when the row
-- before it was retained no file was deleted from Drive.
pub upload-IsStored :
    {D : Type 0} (ctx : PutContext D) (input : ObjectUploadInput) (w : Disk D) (c : Committed)
    (u : StreamingUploadResult)
    → any (λ r. r.id == ctx.staging_id) w.store.object_staging ≡ false
    → (upload ctx input w).1 ≡ returned c u
    → IsStored ctx input w (upload ctx input w).0 c u
unfolding upload
upload-IsStored ctx input w c u new h = with_lock-IsStored ctx input ctx.lock_refused w c u new h
