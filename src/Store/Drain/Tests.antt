-- ===== src/Store/Drain/Tests.antt =====
-- Tests and the witness of the cleanup worker.
use gdrive_s.Base.{
  ℕ, ◌≡◌, refl, String, Bool, true, false, none, List, [], ◌∷◌, map, arith, not, all, All, ◌||◌,
  ◌&&◌, after_prefix, ◌==◌, text_key, if◌then◌else◌, units, Text,
}
use gdrive_s.Store.Rows.{
  PendingCleanupRow, CleanupResourceType, drive_file, temp_file, resource_type_key,
}
use gdrive_s.Store.Table.{select, order_by, insert_by, limit, delete_first, update_first}
use gdrive_s.Store.Cleanup.{due, complete, retry}
use gdrive_s.Store.Drive.{permanent}
use gdrive_s.Store.Drive.Sample.{listed_drive, listed_drive-IsDrive, listed_drive-IsSeen}
use gdrive_s.Store.Drain.{Context, Paths, Run, run_once, clean_rows, is_under, next_cleanup_attempt}
use gdrive_s.Store.Drain.Handled.{batch}
use gdrive_s.Store.Drain.Kept.{Drained, HasKeyIds, HasResource, run_once-Drained}

abbrev row : String → CleanupResourceType → String → ℕ → ℕ → PendingCleanupRow
row id kind resource attempts due_at = record {
  id = id;
  user_id = "ada";
  resource_type = kind;
  resource_id = resource;
  reason = "test";
  attempts = attempts;
  next_attempt_at = due_at;
  last_error = none;
  created_at = 0;
  drive_target_id = none;
}

-- A file that is there, one that is not, one that cannot be deleted, a path inside the directory,
-- one outside, and one that is not due.
abbrev queue : List PendingCleanupRow
queue =
    row "1" drive_file "a" 0 1
    ∷ row "2" drive_file "gone" 0 2
    ∷ row "3" drive_file "pinned" 11 3
    ∷ row "4" temp_file "/tmp/x" 0 4
    ∷ row "5" temp_file "/etc/x" 0 5
    ∷ row "6" drive_file "b" 0 900
    ∷ []

-- Paths of which only one lies under the directory.
abbrev relative : String → String → Text
relative base path = if path == "/tmp/x" then units "x" else units "../etc"

abbrev paths : Paths
paths = record { resolve = λ p. p; relative = relative; is_absolute = λ p. false }

abbrev ctx : Context (List String)
ctx = record {
  drive_storage = listed_drive;
  find_target = λ id. none;
  paths = paths;
  multipart_temp_dir = "/tmp";
  s3_delete_mode = permanent;
  cleanup_batch_size = 10;
  clock = λ id. 100;
  stopping = λ id. false;
}

-- The key as a test.
matches : PendingCleanupRow → PendingCleanupRow → Bool
matches row r =
    not (r.id == row.id)
    || ((r.resource_type == row.resource_type) && (r.resource_id == row.resource_id))

matches-HasResource :
    (row : PendingCleanupRow) (t : List PendingCleanupRow)
    → all (matches row) t ≡ true
    → All (HasResource row) t
unfolding matches
matches-HasResource row [] h = tt
matches-HasResource row (r ∷ t) h = (
  λ same.
      let e = (text_key.test_iff r.id row.id).1 same in
      (
        (resource_type_key.test_iff r.resource_type row.resource_type).0 (ground arith),
        (text_key.test_iff r.resource_id row.resource_id).0 (ground arith),
      ),
  matches-HasResource row t (ground arith),
)

matches-HasKeyIds :
    (rows t : List PendingCleanupRow)
    → all (λ row. all (matches row) t) rows ≡ true
    → All (λ row. All (HasResource row) t) rows
matches-HasKeyIds [] t h = tt
matches-HasKeyIds (row ∷ rows) t h =
    (matches-HasResource row t (ground arith), matches-HasKeyIds rows t (ground arith))

queue-HasKeyIds : HasKeyIds queue
unfolding matches
queue-HasKeyIds = matches-HasKeyIds queue queue refl

abbrev after : Run (List String)
after = run_once ctx false 100 queue ("a" ∷ "b" ∷ "pinned" ∷ [])

-- The row that cannot be deleted is put off for a day, at its twelfth attempt.
run_once_test :
    (after.drive ≡ "b" ∷ "pinned" ∷ [])
    × (after.unlinked ≡ "/tmp/x" ∷ [])
    × (map (λ r. r.id) after.queue ≡ "3" ∷ "6" ∷ [])
    × (map (λ r. r.next_attempt_at) after.queue ≡ 86400100 ∷ 900 ∷ [])
    × (after.counts.processed ≡ 5)
    × (after.counts.retried ≡ 1)
    × (after.counts.completed ≡ 4)
unfolding run_once clean_rows due complete retry is_under next_cleanup_attempt select order_by
    insert_by limit delete_first update_first after_prefix
run_once_test = (refl, refl, refl, refl, refl, refl, refl)

-- The waits double up to the sixteenth.
next_cleanup_attempt_test :
    (next_cleanup_attempt 1 0 ≡ 2000)
    × (next_cleanup_attempt 11 5 ≡ 2048005)
    × (next_cleanup_attempt 40 0 ≡ 65536000)
unfolding next_cleanup_attempt
next_cleanup_attempt_test = (refl, refl, refl)

run_once-Drained_example :
    Drained ctx "pinned" (batch ctx false 100 queue) queue ("a" ∷ "b" ∷ "pinned" ∷ []) after
run_once-Drained_example =
    run_once-Drained ctx false 100 queue ("a" ∷ "b" ∷ "pinned" ∷ []) "pinned" listed_drive-IsDrive
      (listed_drive-IsSeen "pinned") queue-HasKeyIds
