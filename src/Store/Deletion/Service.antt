-- ===== src/Store/Deletion/Service.antt =====
-- `delete` of services/object-service.ts as a whole: what it leaves in the tables and in Drive.
use gdrive_s.Base.{
  ◌≡◌, refl, ap, ◌∙◌, String, Bool, true, false, Option, none, some, ◌==◌, text_key, Text,
  units_key, if◌then◌else◌,
}
use gdrive_s.Store.Rows.{ObjectRow}
use gdrive_s.Store.Objects.{find_active_by_id_in_bucket, HasUniqueKeys}
use gdrive_s.Store.Versions.{null_version}
use gdrive_s.Store.Tracked.{tracked}
use gdrive_s.Store.Drive.{IsDrive}
use gdrive_s.Store.Disk.{Disk}
use gdrive_s.Store.Disk.Known.{Known, drain_drive_file_now-Known, drain_drive_file_now-spares}
use gdrive_s.Store.Deletion.{
  DeleteContext, DeleteRequest, Drawn, Deleted, not_found, failed, marker_refused, deleted, removed,
  deletion_input, drain_released, after_tables, with_access, delete, delete_object,
}
use gdrive_s.Store.Deletion.Tracked.{delete-tracked, unobstructed, retains}

module _ {D : Type 0} (ctx : DeleteContext D) (rq : DeleteRequest) (drawn : Drawn)
    (file : String) where
  -- A file that Drive has is known; a file but the current version's is as it was in Drive, and that
  -- one as well when the version is retained.
  pub record Keeps (current : ObjectRow) (before after : Disk D) : Type 0 where
    pub known : Known ctx.drive_storage file after
    pub others :
        (current.drive_file_id == file) ≡ false
        → ctx.drive_storage.stores file after.drive ≡ ctx.drive_storage.stores file before.drive
    pub retained : retains rq.bucket.versioning current ≡ true → after.drive ≡ before.drive

  released-retained :
      (kept : Bool) (own : String) (w : Disk D)
      → kept ≡ true
      → (drain_released ctx rq drawn (if kept then none else some own) w).drive ≡ w.drive
  released-retained true own w h = refl
  released-retained false own w h = cc

  released-others :
      IsDrive ctx.drive_storage
      → (kept : Bool) (own : String) (w : Disk D) → (own == file) ≡ false
      → ctx.drive_storage.stores file
          (drain_released ctx rq drawn (if kept then none else some own) w).drive
        ≡ ctx.drive_storage.stores file w.drive
  released-others law true own w other = refl
  released-others law false own w other =
      drain_drive_file_now-spares ctx.drive_storage law (deletion_input ctx rq drawn own)
        rq.bucket.user_id file w other

  drain_released-Known :
      IsDrive ctx.drive_storage
      → (released : Option String) (w : Disk D) → Known ctx.drive_storage file w
      → Known ctx.drive_storage file (drain_released ctx rq drawn released w)
  drain_released-Known law none w h = h
  drain_released-Known law (some own) w h =
      drain_drive_file_now-Known ctx.drive_storage law (deletion_input ctx rq drawn own)
        rq.bucket.user_id file w h

  after_tables-Keeps :
      IsDrive ctx.drive_storage
      → (d : Deleted) (w : Disk D) (m : Option Text) (current : ObjectRow)
      → delete rq.bucket rq.object_id rq.drive_file_id rq.reason drawn.new_version drawn.marker_row
          drawn.fresh w.store
        ≡ d
      → HasUniqueKeys w.store.objects
      → find_active_by_id_in_bucket rq.bucket.id rq.object_id w.store.objects ≡ some current
      → (drawn.new_version == null_version) ≡ false
      → unobstructed rq.bucket.versioning current w.store.object_versions ≡ true
      → Known ctx.drive_storage file w
      → (after_tables ctx rq drawn d w).1 ≡ removed m
      → Keeps current w (after_tables ctx rq drawn d w).0
  after_tables-Keeps law not_found w m current e unique found new free known h = cc
  after_tables-Keeps law failed w m current e unique found new free known h = cc
  after_tables-Keeps law (marker_refused s) w m current e unique found new free known h = cc
  after_tables-Keeps law (deleted marker released s) w m current e unique found new free known h =
      let (kept, which) =
        delete-tracked file rq.bucket rq.object_id rq.drive_file_id rq.reason drawn.new_version
          drawn.marker_row drawn.fresh w.store s marker released current e unique found new free in
      let next = record w { store = s } in
      let stays = retains rq.bucket.versioning current in
      record {
        known = drain_released-Known law released next (λ there. kept (known there));
        others = λ other.
            ap (λ o. ctx.drive_storage.stores file (drain_released ctx rq drawn o next).drive) which
            ∙ released-others law stays current.drive_file_id next other;
        retained = λ stay.
            ap (λ o. (drain_released ctx rq drawn o next).drive) which
            ∙ released-retained stays current.drive_file_id next stay;
      }

  with_access-Keeps :
      IsDrive ctx.drive_storage
      → (verified : Bool) (w : Disk D) (m : Option Text) (current : ObjectRow)
      → HasUniqueKeys w.store.objects
      → find_active_by_id_in_bucket rq.bucket.id rq.object_id w.store.objects ≡ some current
      → (drawn.new_version == null_version) ≡ false
      → unobstructed rq.bucket.versioning current w.store.object_versions ≡ true
      → Known ctx.drive_storage file w
      → (with_access ctx rq drawn verified w).1 ≡ removed m
      → Keeps current w (with_access ctx rq drawn verified w).0
  with_access-Keeps law false w m current unique found new free known h = cc
  with_access-Keeps law true w m current unique found new free known h =
      after_tables-Keeps law _ w m current refl unique found new free known h

-- A deletion that succeeds loses no Drive file and deletes none that is still needed: when Drive
-- keeps the laws of IsDrive (a file that was deleted is gone, a deletion touches no other file), no
-- two objects share a key, the version id drawn is not null, no archived version has one of the
-- version ids that are to be written, and the tables refer to the file if Drive has it, then they
-- refer to it after the deletion if Drive has it then; a file other than the current version's is
-- as it was in Drive, and when that version is retained Drive is as it was altogether.
pub delete_object-Keeps :
    {D : Type 0} (ctx : DeleteContext D) (rq : DeleteRequest) (drawn : Drawn) (w : Disk D)
    (file : String) (m : Option Text) (current : ObjectRow)
    → IsDrive ctx.drive_storage
    → HasUniqueKeys w.store.objects
    → find_active_by_id_in_bucket rq.bucket.id rq.object_id w.store.objects ≡ some current
    → (drawn.new_version == null_version) ≡ false
    → unobstructed rq.bucket.versioning current w.store.object_versions ≡ true
    → (ctx.drive_storage.stores file w.drive ≡ true → tracked file w.store ≡ true)
    → (delete_object ctx rq drawn w).1 ≡ removed m
    → Keeps ctx rq drawn file current w (delete_object ctx rq drawn w).0
unfolding delete_object
delete_object-Keeps ctx rq drawn w file m current law unique found new free known h =
    with_access-Keeps ctx rq drawn file law ctx.verified w m current unique found new free known h
