-- ===== src/Store/Cleanup/Enqueue.antt =====
-- What is queued after an enqueue.
use gdrive_s.Base.{
  ◌≡◌, ℕ, String, Bool, true, ◌&&◌, ◌||◌, List, ◌==◌, text_key, arith, any, Bool-cases, inl, inr,
}
use gdrive_s.Store.Table.{any-append_row}
use gdrive_s.Store.Table.Select.{any-weaken}
use gdrive_s.Store.Rows.{PendingCleanupRow, CleanupResourceType, drive_file, resource_type_key}
use gdrive_s.Store.Cleanup.{EnqueueInput, enqueue, queued, of_resource}
use gdrive_s.Store.Tracked.{queued_with, queued_as}

-- A file that is queued already for the same owner is queued.
queues :
    (kind : CleanupResourceType) (file : String) (input : EnqueueInput)
    → ((input.resource_type == kind) && (input.resource_id == file)) ≡ true
    → (r : PendingCleanupRow)
    → of_resource input.user_id input.resource_type input.resource_id r ≡ true
    → queued_as kind file r ≡ true
queues kind file input same r h = ground (
  arith,
  resource_type_key.test_iff input.resource_type kind,
  resource_type_key.test_iff r.resource_type input.resource_type,
  resource_type_key.test_iff r.resource_type kind,
  text_key.test_iff input.resource_id file,
  text_key.test_iff r.resource_id input.resource_id,
  text_key.test_iff r.resource_id file,
)

already : (a b : Bool) → (b ≡ true → a ≡ true) → a ≡ (a || b)
already a b h = ground arith

pub enqueue-any_as :
    (kind : CleanupResourceType) (file : String) (input : EnqueueInput) (id : String) (now : ℕ)
    (t : List PendingCleanupRow)
    → any (queued_as kind file) (enqueue input id now t) ≡ (
        any (queued_as kind file) t
        || ((input.resource_type == kind) && (input.resource_id == file)))
unfolding enqueue
enqueue-any_as kind file input id now t =
    elim (Bool-cases (any (of_resource input.user_id input.resource_type input.resource_id) t)) [
      | inl e ↦ rw e (
          already _ _
            (λ same. any-weaken _ (queued_as kind file) (queues kind file input same) t e))
      | inr e ↦ rw e (any-append_row (queued_as kind file) (queued input id now now) t)
    ]

pub enqueue-any :
    (file : String) (input : EnqueueInput) (id : String) (now : ℕ) (t : List PendingCleanupRow)
    → any (queued_with file) (enqueue input id now t) ≡ (
        any (queued_with file) t
        || ((input.resource_type == drive_file) && (input.resource_id == file)))
enqueue-any file = enqueue-any_as drive_file file
