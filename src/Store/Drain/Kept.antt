-- ===== src/Store/Drain/Kept.antt =====
-- What a run of the worker takes from the queue, deletes and keeps.
use gdrive_s.Base.{
  ℕ, ◌+◌, ◌≡◌, refl, ◌∙◌, sym, String, Bool, true, false, ◌||◌, List, [], ◌∷◌, ◌==◌, text_key,
  arith, any, All, All-map, Bool-cases, inl, inr,
}
use gdrive_s.Store.Rows.{
  PendingCleanupRow, CleanupResourceType, drive_file, temp_file, resource_type_key,
}
use gdrive_s.Store.Table.Select.{
  any-delete_other, any-update_same, All-delete_first, All-update_first, All-not_any, All-page,
}
use gdrive_s.Store.Cleanup.{due, complete, retry}
use gdrive_s.Store.Tracked.{queued_with}
use gdrive_s.Store.Drive.{
  IsDrive, IsSeen, DeletionAnswer, deleted, drive_error, other_error, is_already_gone, is_deleted,
}
use gdrive_s.Store.Drain.{
  Context, Run, deletion_of, completed_row, retried_row, after_deletion, clean_resource, clean_row,
  clean_rows, run_once, begin, is_under,
}
use gdrive_s.Store.Drain.Handled.{batch, Handles, Handles-none, clean_rows-Handles}

-- A row with the id of another is that row, as far as its resource goes.
abbrev pub HasResource : PendingCleanupRow → PendingCleanupRow → Type 0
HasResource row r =
    r.id ≡ row.id → (r.resource_type ≡ row.resource_type) × (r.resource_id ≡ row.resource_id)

-- The ids of the queue are a key.
abbrev pub HasKeyIds : List PendingCleanupRow → Type 0
HasKeyIds t = All (λ row. All (HasResource row) t) t

queued_with-resource :
    (file : String) (row r : PendingCleanupRow)
    → HasResource row r
    → queued_with file row ≡ false
    → (r.id == row.id) ≡ true
    → queued_with file r ≡ false
queued_with-resource file row r same other h =
    let e = same ((text_key.test_iff r.id row.id).0 h) in rw (e.0, e.1) other

complete-kept :
    (file : String) (row : PendingCleanupRow) (t : List PendingCleanupRow)
    → All (HasResource row) t
    → queued_with file row ≡ false
    → any (queued_with file) t ≡ true
    → any (queued_with file) (complete row.id t) ≡ true
unfolding complete
complete-kept file row t same other h =
    any-delete_other (λ r. r.id == row.id) (queued_with file) t
      (All-map _ _ (λ r e. queued_with-resource file row r e other) t same) h

retry-any :
    (file id error : String) (next : ℕ) (t : List PendingCleanupRow)
    → any (queued_with file) (retry id error next t) ≡ any (queued_with file) t
unfolding retry
retry-any file id error next t = any-update_same _ (queued_with file) _ (λ r. refl) t

complete-HasResource :
    (row : PendingCleanupRow) (id : String) (t : List PendingCleanupRow)
    → All (HasResource row) t
    → All (HasResource row) (complete id t)
unfolding complete
complete-HasResource row id t h = All-delete_first (HasResource row) _ t h

retry-HasResource :
    (row : PendingCleanupRow) (id error : String) (next : ℕ) (t : List PendingCleanupRow)
    → All (HasResource row) t
    → All (HasResource row) (retry id error next t)
unfolding retry
retry-HasResource row id error next t h = All-update_first (HasResource row) _ _ (λ r e. e) t h

module _ {D : Type 0} (ctx : Context D) (file : String) where
  abbrev has : D → Bool
  has d = ctx.drive_storage.stores file d

  -- What handling a row does to the file and to the queue.
  record Keeps (row : PendingCleanupRow) (before after : Run D) : Type 0 where
    makes_none : has after.drive ≡ true → has before.drive ≡ true
    kept :
        All (HasResource row) before.queue
        → has after.drive ≡ true
        → any (queued_with file) before.queue ≡ true
        → any (queued_with file) after.queue ≡ true
    spared : queued_with file row ≡ false → has after.drive ≡ has before.drive
    resources :
        (r : PendingCleanupRow) → All (HasResource r) before.queue → All (HasResource r) after.queue

  completed_row-Keeps :
      (row : PendingCleanupRow) (d : D) (run : Run D)
      → (has d ≡ true → has run.drive ≡ true)
      → (has d ≡ true → queued_with file row ≡ false)
      → (queued_with file row ≡ false → has d ≡ has run.drive)
      → Keeps row run (completed_row ctx row d run)
  completed_row-Keeps row d run less gone spares = record {
    makes_none = less;
    kept = λ same still. complete-kept file row run.queue same (gone still);
    spared = spares;
    resources = λ r. complete-HasResource r row.id run.queue;
  }

  retried_row-Keeps :
      (row : PendingCleanupRow) (message : String) (d : D) (run : Run D)
      → (has d ≡ true → has run.drive ≡ true)
      → (queued_with file row ≡ false → has d ≡ has run.drive)
      → Keeps row run (retried_row ctx row message d run)
  retried_row-Keeps row message d run less spares = record {
    makes_none = less;
    kept = λ same still h. retry-any file row.id message _ run.queue ∙ h;
    spared = spares;
    resources = λ r. retry-HasResource r row.id message _ run.queue;
  }

  after_deletion-Keeps :
      (row : PendingCleanupRow) (answer : DeletionAnswer) (d : D) (run : Run D)
      → (has d ≡ true → has run.drive ≡ true)
      → ((is_deleted answer || is_already_gone answer) ≡ true
          → has d ≡ true
          → queued_with file row ≡ false)
      → (queued_with file row ≡ false → has d ≡ has run.drive)
      → Keeps row run (after_deletion ctx row answer d run)
  after_deletion-Keeps row deleted d run less gone spares =
      completed_row-Keeps row d run less (gone refl) spares
  after_deletion-Keeps row (other_error message) d run less gone spares =
      retried_row-Keeps row message d run less spares
  after_deletion-Keeps row (drive_error status category message) d run less gone spares =
      elim (Bool-cases (is_already_gone (drive_error status category message))) [
        | inl e ↦ rw e (completed_row-Keeps row d run less (gone e) spares)
        | inr e ↦ rw e (retried_row-Keeps row message d run less spares)
      ]

  other_resource :
      (row : PendingCleanupRow)
      → row.resource_type ≡ drive_file
      → queued_with file row ≡ (row.resource_id == file)
  other_resource row e = rw e refl

  clean_resource-Keeps :
      IsDrive ctx.drive_storage
      → IsSeen ctx.drive_storage file
      → (kind : CleanupResourceType) (row : PendingCleanupRow) (run : Run D)
      → row.resource_type ≡ kind
      → Keeps row run (clean_resource ctx kind row run)
  clean_resource-Keeps law seen drive_file row run e =
      let input = deletion_of ctx row in
      let which = other_resource row e in
      after_deletion-Keeps row (ctx.drive_storage.delete_file input run.drive).0
        (ctx.drive_storage.delete_file input run.drive).1 run (law.makes_none input file run.drive)
        (λ settled still. elim (Bool-cases (row.resource_id == file)) [
          | inr other ↦ which ∙ other
          | inl own ↦
              elim (Bool-cases (is_deleted (ctx.drive_storage.delete_file input run.drive).0)) [
                | inl done ↦ absurd (cc (law.gone input file run.drive own done))
                | inr refused ↦ absurd (cc (seen input run.drive own (ground arith)))
              ]
        ])
        (λ other. law.spares input file run.drive (sym which ∙ other))
  clean_resource-Keeps law seen temp_file row run e =
      let away : queued_with file row ≡ false = rw e refl in
      let k = completed_row-Keeps row run.drive run (λ h. h) (λ h. away) (λ h. refl) in
      elim (Bool-cases (is_under ctx.paths ctx.multipart_temp_dir row.resource_id)) [
        | inl IsInside ↦ rw IsInside (record {
          makes_none = k.makes_none;
          kept = k.kept;
          spared = k.spared;
          resources = k.resources;
        })
        | inr outside ↦ rw outside k
      ]

  clean_rows-kept :
      IsDrive ctx.drive_storage
      → IsSeen ctx.drive_storage file
      → (rows : List PendingCleanupRow) (run : Run D)
      → All (λ row. All (HasResource row) run.queue) rows
      → has (clean_rows ctx rows run).drive ≡ true
      → (has run.drive ≡ true)
        × (any (queued_with file) run.queue ≡ true
            → any (queued_with file) (clean_rows ctx rows run).queue ≡ true)
  unfolding clean_rows
  clean_rows-kept law seen [] run keys still = (still, λ h. h)
  clean_rows-kept law seen (row ∷ rows) run (here, later) still =
      elim (Bool-cases (ctx.stopping row.id)) [
        | inl stop ↦ rw stop (rw stop at still, λ h. h)
        | inr go ↦
            let k =
              clean_resource-Keeps law seen row.resource_type row
                (record run { counts = record run.counts { processed = run.counts.processed + 1 } })
                refl in
            let rest =
              clean_rows-kept law seen rows (clean_row ctx row run)
                (All-map _ _ (λ r. k.resources r) rows later) (rw go at still) in
            rw go (k.makes_none rest.0, λ h. rest.1 (k.kept here rest.0 h))
      ]

  clean_rows-spared :
      IsDrive ctx.drive_storage
      → IsSeen ctx.drive_storage file
      → (rows : List PendingCleanupRow) (run : Run D)
      → All (λ row. queued_with file row ≡ false) rows
      → has (clean_rows ctx rows run).drive ≡ has run.drive
  unfolding clean_rows
  clean_rows-spared law seen [] run other = refl
  clean_rows-spared law seen (row ∷ rows) run (here, later) =
      elim (Bool-cases (ctx.stopping row.id)) [
        | inl stop ↦ rw stop refl
        | inr go ↦
            let k =
              clean_resource-Keeps law seen row.resource_type row
                (record run { counts = record run.counts { processed = run.counts.processed + 1 } })
                refl in
            rw go (clean_rows-spared law seen rows (clean_row ctx row run) later ∙ k.spared here)
      ]

module _ {D : Type 0} (ctx : Context D) where
  pub record Drained (file : String) (rows queue : List PendingCleanupRow) (d : D) (after : Run D)
      : Type 0 where
    pub handled : Handles ctx rows (begin ctx queue d) after
    pub kept :
        ctx.drive_storage.stores file after.drive ≡ true
        → any (queued_with file) queue ≡ true
        → any (queued_with file) after.queue ≡ true
    pub spared :
        any (queued_with file) queue ≡ false
        → ctx.drive_storage.stores file after.drive ≡ ctx.drive_storage.stores file d

pub run_once-Drained :
    {D : Type 0} (ctx : Context D) (busy : Bool) (now : ℕ) (queue : List PendingCleanupRow) (d : D)
    (file : String)
    → IsDrive ctx.drive_storage
    → IsSeen ctx.drive_storage file
    → HasKeyIds queue
    → Drained ctx file (batch ctx busy now queue) queue d (run_once ctx busy now queue d)
unfolding run_once due
run_once-Drained ctx true now queue d file law seen keys = record {
  handled = Handles-none ctx (begin ctx queue d);
  kept = λ still h. h;
  spared = λ other. refl;
}
run_once-Drained ctx false now queue d file law seen keys =
    let rows = due now ctx.cleanup_batch_size queue in
    let first = begin ctx queue d in
    record {
      handled = clean_rows-Handles ctx rows first;
      kept = λ still h.
          (clean_rows-kept ctx file law seen rows first (All-page _ _ _ _ queue keys) still).1 h;
      spared = λ other.
          clean_rows-spared ctx file law seen rows first (
            All-page _ _ _ _ queue (All-not_any (queued_with file) (queued_with file) queue other));
    }
