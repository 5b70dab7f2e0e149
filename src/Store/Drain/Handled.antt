-- ===== src/Store/Drain/Handled.antt =====
-- What a run of the worker asks of Drive, unlinks and counts.
use gdrive_s.Base.{
  ℕ, ◌+◌, ◌≡◌, refl, ◌∙◌, String, Bool, true, false, List, [], ◌∷◌, text_key, arith, ap, length,
  if◌then◌else◌, Bool-cases, inl, inr,
}
use gdrive_s.Store.Rows.{
  PendingCleanupRow, CleanupResourceType, drive_file, temp_file, resource_type_key,
}
use gdrive_s.Store.Cleanup.{due}
use gdrive_s.Store.Drive.{DeletionAnswer, deleted, drive_error, other_error, is_already_gone}
use gdrive_s.Store.Drain.{
  Context, Run, deletion_of, after_deletion, clean_resource, clean_row, clean_rows, is_under,
}

-- The rows that the loop comes to before it is told to stop.
abbrev pub taken : {D : Type 0} → Context D → List PendingCleanupRow → List PendingCleanupRow
taken ctx [] = []
taken ctx (row ∷ rows) = if ctx.stopping row.id then [] else row ∷ taken ctx rows

abbrev pub batch :
    {D : Type 0} → Context D → Bool → ℕ → List PendingCleanupRow → List PendingCleanupRow
batch ctx true now queue = []
batch ctx false now queue = taken ctx (due now ctx.cleanup_batch_size queue)

module _ {D : Type 0} (ctx : Context D) where
  -- Drive after it was asked to delete the file of each row, in their order.
  abbrev pub asked : List PendingCleanupRow → D → D
  asked [] d = d
  asked (row ∷ rows) d = asked rows (elim row.resource_type [
    | drive_file ↦ (ctx.drive_storage.delete_file (deletion_of ctx row) d).1
    | temp_file ↦ d
  ])

  -- The temporary files of the rows that lie in the directory, the last of them first.
  abbrev pub unlinked_by : List PendingCleanupRow → List String → List String
  unlinked_by [] paths = paths
  unlinked_by (row ∷ rows) paths = unlinked_by rows (elim row.resource_type [
    | drive_file ↦ paths
    | temp_file ↦
        if is_under ctx.paths ctx.multipart_temp_dir row.resource_id
        then row.resource_id ∷ paths
        else paths
  ])

  -- What handling rows has done, from one moment of the run to another.
  pub record Handles (rows : List PendingCleanupRow) (before after : Run D) : Type 0 where
    pub deleted : after.drive ≡ asked rows before.drive
    pub unlinked : after.unlinked ≡ unlinked_by rows before.unlinked
    pub processed : after.counts.processed ≡ before.counts.processed + length rows
    pub tally :
        after.counts.completed + after.counts.retried
        ≡ before.counts.completed + before.counts.retried + length rows

  after_deletion-Handles :
      (row : PendingCleanupRow) (answer : DeletionAnswer) (d : D) (run : Run D)
      → ((after_deletion ctx row answer d run).drive ≡ d)
        × ((after_deletion ctx row answer d run).unlinked ≡ run.unlinked)
        × ((after_deletion ctx row answer d run).counts.processed ≡ run.counts.processed)
        × ((after_deletion ctx row answer d run).counts.completed
              + (after_deletion ctx row answer d run).counts.retried
            ≡ run.counts.completed + run.counts.retried + 1)
  after_deletion-Handles row deleted d run = (refl, refl, refl, omega arith)
  after_deletion-Handles row (other_error message) d run = (refl, refl, refl, omega arith)
  after_deletion-Handles row (drive_error status category message) d run =
      elim (Bool-cases (is_already_gone (drive_error status category message))) [
        | inl e ↦ rw e (refl, refl, refl, omega arith)
        | inr e ↦ rw e (refl, refl, refl, omega arith)
      ]

  clean_resource-Handles :
      (kind : CleanupResourceType) (row : PendingCleanupRow) (run : Run D)
      → row.resource_type ≡ kind
      → Handles (row ∷ []) run (
          clean_resource ctx kind row
            (record run { counts = record run.counts { processed = run.counts.processed + 1 } }))
  clean_resource-Handles drive_file row run e =
      let (answer, d) = ctx.drive_storage.delete_file (deletion_of ctx row) run.drive in
      let (drive, unlinked, processed, tally) =
        after_deletion-Handles row answer d
          (record run { counts = record run.counts { processed = run.counts.processed + 1 } }) in
      record {
        deleted = rw e drive;
        unlinked = rw e unlinked;
        processed = omega (arith, processed);
        tally = omega (arith, tally);
      }
  clean_resource-Handles temp_file row run e =
      elim (Bool-cases (is_under ctx.paths ctx.multipart_temp_dir row.resource_id)) [
        | inl inside ↦ rw inside (record {
          deleted = rw e refl;
          unlinked = rw e (rw inside refl);
          processed = omega arith;
          tally = omega arith;
        })
        | inr outside ↦ rw outside (record {
          deleted = rw e refl;
          unlinked = rw e (rw outside refl);
          processed = omega arith;
          tally = omega arith;
        })
      ]

  Handles-next :
      (row : PendingCleanupRow) (rows : List PendingCleanupRow) (a b c : Run D)
      → Handles (row ∷ []) a b
      → Handles rows b c
      → Handles (row ∷ rows) a c
  Handles-next row rows a b c h k = record {
    deleted = k.deleted ∙ ap (asked rows) h.deleted;
    unlinked = k.unlinked ∙ ap (unlinked_by rows) h.unlinked;
    processed = omega (arith, h.processed, k.processed);
    tally = omega (arith, h.tally, k.tally);
  }

  pub Handles-none : (run : Run D) → Handles [] run run
  Handles-none run = record {
    deleted = refl;
    unlinked = refl;
    processed = omega arith;
    tally = omega arith;
  }

  pub clean_rows-Handles :
      (rows : List PendingCleanupRow) (run : Run D)
      → Handles (taken ctx rows) run (clean_rows ctx rows run)
  unfolding clean_rows
  clean_rows-Handles [] run = Handles-none run
  clean_rows-Handles (row ∷ rows) run = elim (Bool-cases (ctx.stopping row.id)) [
    | inl stop ↦ rw stop (Handles-none run)
    | inr go ↦ rw go (
        Handles-next row (taken ctx rows) run (clean_row ctx row run) _
          (clean_resource-Handles row.resource_type row run refl)
          (clean_rows-Handles rows (clean_row ctx row run)))
  ]
