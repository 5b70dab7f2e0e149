-- ===== src/Store/Cleanup.antt =====
-- db/repositories/pending-cleanup.ts: the queue of files to delete from Drive.
pub mod Enqueue
use gdrive_s.Base.{
  ℕ, ◌+◌, String, Bool, true, false, not, ◌&&◌, ◌||◌, Option, none, some, List, [], ◌∷◌, ◌++◌, ◌==◌,
  text_key, if◌then◌else◌, eqb, ltb, leb, length, any,
}
use gdrive_s.Store.Table.{update_first, delete_first, select, order_by, limit}
use gdrive_s.Store.Rows.{PendingCleanupRow, CleanupResourceType, resource_type_key}

pub record EnqueueInput : Type 0 where
  pub user_id : String
  pub resource_type : CleanupResourceType
  pub resource_id : String
  pub reason : String
  pub drive_target_id : Option String

abbrev pub of_resource : String → CleanupResourceType → String → PendingCleanupRow → Bool
of_resource user_id resource_type resource_id r =
    (r.user_id == user_id) && (r.resource_type == resource_type) && (r.resource_id == resource_id)

abbrev pub queued : EnqueueInput → String → ℕ → ℕ → PendingCleanupRow
queued input id due now = record {
  id = id;
  user_id = input.user_id;
  resource_type = input.resource_type;
  resource_id = input.resource_id;
  reason = input.reason;
  attempts = 0;
  next_attempt_at = due;
  last_error = none;
  created_at = now;
  drive_target_id = input.drive_target_id;
}

-- The table after it, for no `nextAttemptAt`: a resource that is queued is not queued again.
unfoldable pub enqueue : EnqueueInput → String → ℕ → List PendingCleanupRow → List PendingCleanupRow
enqueue input id now t =
    if any (of_resource input.user_id input.resource_type input.resource_id) t
    then t
    else t ++ queued input id now now ∷ []

unfoldable pub due : ℕ → ℕ → List PendingCleanupRow → List PendingCleanupRow
due now size t = limit size (
    order_by
      (λ a b.
        ltb a.next_attempt_at b.next_attempt_at
        || (eqb a.next_attempt_at b.next_attempt_at && ltb a.created_at b.created_at))
      (select (λ r. leb r.next_attempt_at now) t))

unfoldable pub retry : String → String → ℕ → List PendingCleanupRow → List PendingCleanupRow
retry id error next_attempt_at t =
    update_first (λ r. r.id == id)
      (λ r. record r {
        attempts = r.attempts + 1;
        last_error = some error;
        next_attempt_at = next_attempt_at;
      })
      t

unfoldable pub complete : String → List PendingCleanupRow → List PendingCleanupRow
complete id t = delete_first (λ r. r.id == id) t

-- How many rows went, and the table without them.
unfoldable pub complete_resource :
    String → CleanupResourceType → String → List PendingCleanupRow → ℕ × List PendingCleanupRow
complete_resource user_id resource_type resource_id t = (
  length (select (of_resource user_id resource_type resource_id) t),
  select (λ r. not (of_resource user_id resource_type resource_id r)) t,
)

unfoldable pub backlog : List PendingCleanupRow → ℕ
backlog t = length t
