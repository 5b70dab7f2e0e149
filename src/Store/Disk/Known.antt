-- ===== src/Store/Disk/Known.antt =====
-- What the deletion of a file does to the files that the tables know.
use gdrive_s.Base.{
  ◌≡◌, refl, ap, ◌∙◌, String, true, false, not, List, ◌==◌, text_key, arith, any, Bool-cases, inl,
  inr,
}
use gdrive_s.Store.Rows.{Store, PendingCleanupRow, drive_file, resource_type_key}
use gdrive_s.Store.Table.Select.{any-select}
use gdrive_s.Store.Cleanup.{complete_resource, of_resource}
use gdrive_s.Store.Tracked.{tracked, queued_with}
use gdrive_s.Store.Drive.{
  DriveStorage, IsDrive, DeleteObjectInput, DeletionAnswer, deleted, drive_error, other_error,
  is_deleted,
}
use gdrive_s.Store.Disk.{Disk, after_deletion, drain_drive_file_now}

-- A deletion from the queue keeps the files of other resources.
pub complete_resource-any :
    (file user_id id : String) (t : List PendingCleanupRow)
    → (id == file) ≡ false
    → any (queued_with file) (complete_resource user_id drive_file id t).1
      ≡ any (queued_with file) t
unfolding complete_resource
complete_resource-any file user_id id t other =
    any-select (λ r. not (of_resource user_id drive_file id r)) (queued_with file)
      (λ r h. ground (
        arith,
        text_key.test_iff r.resource_id id,
        text_key.test_iff r.resource_id file,
        text_key.test_iff id file,
      ))
      t

-- Every file that Drive has is known to the tables.
abbrev pub Known : {D : Type 0} → DriveStorage D → String → Disk D → Type 0
Known drive file w = drive.stores file w.drive ≡ true → tracked file w.store ≡ true

after_deletion-tracked :
    (file user_id : String) (answer : DeletionAnswer) (old : String) (s : Store)
    → (old == file) ≡ false
    → tracked file s ≡ true
    → tracked file (after_deletion answer user_id old s) ≡ true
after_deletion-tracked file user_id deleted old s other h =
    ground (arith, complete_resource-any file user_id old s.pending_cleanup other)
after_deletion-tracked file user_id (drive_error status category message) old s other h = h
after_deletion-tracked file user_id (other_error message) old s other h = h

after_deletion-refused :
    (user_id : String) (answer : DeletionAnswer) (old : String) (s : Store)
    → is_deleted answer ≡ false
    → after_deletion answer user_id old s ≡ s
after_deletion-refused user_id deleted old s h = cc
after_deletion-refused user_id (drive_error status category message) old s h = refl
after_deletion-refused user_id (other_error message) old s h = refl

after_deletion-objects :
    (answer : DeletionAnswer) (user_id old : String) (s : Store)
    → (after_deletion answer user_id old s).objects ≡ s.objects
after_deletion-objects deleted user_id old s = refl
after_deletion-objects (drive_error status category message) user_id old s = refl
after_deletion-objects (other_error message) user_id old s = refl

module _ {D : Type 0} (drive : DriveStorage D) where
  pub drain_drive_file_now-Known :
      IsDrive drive
      → (input : DeleteObjectInput) (user_id file : String) (w : Disk D) → Known drive file w
      → Known drive file (drain_drive_file_now drive input user_id w)
  unfolding drain_drive_file_now
  drain_drive_file_now-Known law input user_id file w h still =
      let old = input.drive_file_id in
      let known = h (law.makes_none input file w.drive still) in
      let answer = (drive.delete_file input w.drive).0 in
      elim (Bool-cases (old == file)) [
        | inr other ↦ after_deletion-tracked file user_id answer old w.store other known
        | inl own ↦ elim (Bool-cases (is_deleted answer)) [
          | inl gone ↦ absurd (cc (law.gone input file w.drive own gone))
          | inr refused ↦
              ap (tracked file) (after_deletion-refused user_id answer old w.store refused) ∙ known
        ]
      ]

  pub drain_drive_file_now-objects :
      (input : DeleteObjectInput) (user_id : String) (w : Disk D)
      → (drain_drive_file_now drive input user_id w).store.objects ≡ w.store.objects
  unfolding drain_drive_file_now
  drain_drive_file_now-objects input user_id w =
      after_deletion-objects _ user_id input.drive_file_id w.store

  pub drain_drive_file_now-spares :
      IsDrive drive
      → (input : DeleteObjectInput) (user_id file : String) (w : Disk D)
      → (input.drive_file_id == file) ≡ false
      → drive.stores file (drain_drive_file_now drive input user_id w).drive
        ≡ drive.stores file w.drive
  unfolding drain_drive_file_now
  drain_drive_file_now-spares law input user_id file w other = law.spares input file w.drive other
