-- ===== src/Multipart/Retire/Files.antt =====
-- No temporary file is forgotten when an upload ends.
use gdrive_s.Base.{
  ◌≡◌, refl, ap, ◌∙◌, sym, ℕ, String, Bool, true, false, not, ◌||◌, Option, none, some, List, [],
  ◌∷◌, ◌==◌, text_key, arith, any, Bool-cases, inl, inr, ltb,
}
use gdrive_s.Store.Rows.{PendingCleanupRow, temp_file, resource_type_key}
use gdrive_s.Store.Table.{select}
use gdrive_s.Store.Table.Select.{any-order_by, any-split}
use gdrive_s.Store.Cleanup.{enqueue}
use gdrive_s.Store.Cleanup.Enqueue.{enqueue-any_as}
use gdrive_s.Store.Tracked.{queued_as}
use gdrive_s.Store.Drain.{is_under}
use gdrive_s.Multipart.Parts.{MultipartPartRow}
use gdrive_s.Multipart.Table.{delete_all, list, of_upload}
use gdrive_s.Multipart.World.{World, UploadBucket}
use gdrive_s.Multipart.Uploads.{
  MultipartUploadRow, by_id, is_open, apply, mark_expired, list_expired,
}
use gdrive_s.Multipart.Retire.{
  ExpiryContext, ExpiryRunResult, temp_input, queue_aborted, abort_upload, queue_part,
  queue_expired, inside, expired_world, expire_found, expire_one, expire_rows, run_once,
}

abbrev pub part_with : String → MultipartPartRow → Bool
part_with path p = p.temp_path == path

-- A temporary file that a part names, or that waits to be unlinked.
abbrev pub known_temp : {D : Type 0} → String → World D → Bool
known_temp path w =
    any (part_with path) w.parts || any (queued_as temp_file path) w.store.pending_cleanup

delete_all-any :
    (path upload_id : String) (t : List MultipartPartRow)
    → any (part_with path) t ≡ (
        any (part_with path) (delete_all upload_id t).0
        || any (part_with path) (delete_all upload_id t).1)
unfolding delete_all list
delete_all-any path upload_id t =
    any-split (part_with path) (of_upload upload_id) t
    ∙ ap (λ b. b || any (part_with path) (select (λ r. not (of_upload upload_id r)) t))
        (sym (any-order_by (part_with path) _ (select (of_upload upload_id) t)))

queue_aborted-any :
    (path : String) (fresh : String → String) (user_id : String) (now : ℕ)
    (parts : List MultipartPartRow) (t : List PendingCleanupRow)
    → any (queued_as temp_file path) (queue_aborted fresh user_id now parts t)
      ≡ (any (part_with path) parts || any (queued_as temp_file path) t)
unfolding queue_aborted
queue_aborted-any path fresh user_id now [] t = refl
queue_aborted-any path fresh user_id now (part ∷ parts) t =
    let input = temp_input user_id part.temp_path "multipart_abort" in
    let next = enqueue input (fresh part.temp_path) now t in
    ground (
      arith,
      queue_aborted-any path fresh user_id now parts next,
      enqueue-any_as temp_file path input (fresh part.temp_path) now t,
    )

module _ (ctx : ExpiryContext) (path : String)
    (under : is_under ctx.paths ctx.multipart_temp_dir path ≡ true) where
  queue_part-any :
      (user_id : String) (now : ℕ) (part : MultipartPartRow) (acc : ℕ × List PendingCleanupRow)
      → any (queued_as temp_file path) (queue_part ctx user_id now part acc).1
        ≡ (part_with path part || any (queued_as temp_file path) acc.1)
  queue_part-any user_id now part acc =
      let input = temp_input user_id part.temp_path "multipart_expired" in
      let now_queued = enqueue-any_as temp_file path input (ctx.fresh part.temp_path) now acc.1 in
      elim (Bool-cases (inside ctx part)) [
        | inl e ↦ rw e (ground (arith, now_queued))
        | inr e ↦ elim (Bool-cases (part.temp_path == path)) [
          | inr other ↦ rw e (ground (arith, other))
          | inl same ↦
              let p = (text_key.test_iff part.temp_path path).0 same in
              absurd (cc (ap (λ x. is_under ctx.paths ctx.multipart_temp_dir x) p))
        ]
      ]

  -- What is queued of the parts, and what was queued before.
  queue_expired-any :
      (user_id : String) (now : ℕ) (parts : List MultipartPartRow)
      (acc : ℕ × List PendingCleanupRow)
      → any (queued_as temp_file path) (queue_expired ctx user_id now parts acc).1
        ≡ (any (part_with path) parts || any (queued_as temp_file path) acc.1)
  unfolding queue_expired
  queue_expired-any user_id now [] acc = refl
  queue_expired-any user_id now (part ∷ parts) acc =
      let next = queue_part ctx user_id now part acc in
      ground (arith, queue_expired-any user_id now parts next, queue_part-any user_id now part acc)

  module _ {D : Type 0} where
    expired_world-known :
        (user_id upload_id : String) (w : World D)
        → known_temp path (expired_world ctx user_id upload_id w).1 ≡ known_temp path w
    expired_world-known user_id upload_id w =
        let gone = (delete_all upload_id w.parts).0 in
        ground (
          arith,
          delete_all-any path upload_id w.parts,
          queue_expired-any user_id (ctx.clock upload_id) gone (0, w.store.pending_cleanup),
        )

    expire_found-known :
        (upload : Option MultipartUploadRow) (upload_id : String) (w : World D)
        → known_temp path (expire_found ctx upload upload_id w).1 ≡ known_temp path w
    expire_found-known none upload_id w = refl
    expire_found-known (some upload) upload_id w = elim (Bool-cases (is_open upload.status)) [
      | inr e ↦ rw e refl
      | inl e ↦ elim (Bool-cases (ltb (ctx.clock upload_id) upload.expires_at)) [
        | inl later ↦ rw (e, later) refl
        | inr over ↦ elim (Bool-cases (apply (mark_expired upload_id) w.uploads).0) [
          | inl won ↦ rw (e, over, won) (expired_world-known upload.user_id upload_id w)
          | inr lost ↦ rw (e, over, lost) refl
        ]
      ]
    ]

    expire_rows-known :
        (rows : List MultipartUploadRow) (result : ExpiryRunResult) (w : World D)
        → known_temp path (expire_rows ctx rows result w).1 ≡ known_temp path w
    unfolding expire_rows expire_one
    expire_rows-known [] result w = refl
    expire_rows-known (row ∷ rows) result w = elim (Bool-cases (ctx.stopping row.id)) [
      | inl stop ↦ rw stop refl
      | inr go ↦ rw go (
          expire_rows-known rows _ (expire_one ctx row.id w).1
          ∙ expire_found-known (by_id row.id w.uploads) row.id w)
    ]

-- The expiry of uploads forgets no temporary file: a path in the configured directory that a part
-- names or the queue holds is named or held after the run, and no other is.
pub run_once-known :
    {D : Type 0} (ctx : ExpiryContext) (busy : Bool) (now : ℕ) (w : World D) (path : String)
    → is_under ctx.paths ctx.multipart_temp_dir path ≡ true
    → known_temp path (run_once ctx busy now w).1 ≡ known_temp path w
unfolding run_once
run_once-known ctx true now w path under = refl
run_once-known ctx false now w path under =
    expire_rows-known ctx path under (list_expired now ctx.multipart_expiry_batch_size w.uploads) _
      w

-- An abort that is answered, and one that is refused, forgets no temporary file either, and makes
-- none known.
pub abort_upload-known :
    {D : Type 0} (fresh : String → String) (bucket : UploadBucket) (user_id key upload_id : String)
    (now : ℕ) (w : World D) (path : String)
    → known_temp path (abort_upload fresh bucket user_id key upload_id now w).1 ≡ known_temp path w
unfolding abort_upload
abort_upload-known fresh bucket user_id key upload_id now w path =
    let gone = (delete_all upload_id w.parts).0 in
    ground (
      arith,
      delete_all-any path upload_id w.parts,
      queue_aborted-any path fresh user_id now gone w.store.pending_cleanup,
    )
