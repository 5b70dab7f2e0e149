-- ===== src/Store/Tests.antt =====
-- Runs of the object store, and uses of its theorems at them.
use gdrive_s.Base.{
  ◌∷◌, List, ◌≡◌, refl, String, true, false, none, some, [], units, lookup, put, remove, All,
  length, ◌+◌,
}
use gdrive_s.Store.Table.{
  find_first, update_first, update_all, insert_new, insert_or_update, select, order_by, insert_by,
  limit,
}
use gdrive_s.Store.Rows.{Store, ObjectVersionRow, StagingRow, failed, Versioning, enabled, disabled}
use gdrive_s.Store.Staging.{by_id, list_stale}
use gdrive_s.Store.Versions
use gdrive_s.Store.Versions.{insert_delete_marker, newest_version, clear_latest, text_ltb}
use gdrive_s.Store.Commit.{
  CommitOptions, Committed, Outcome, done, commit_staged_object, ready, ready_columns,
}
use gdrive_s.Store.Commit.Files.{commit_staged_object-tracked}
use gdrive_s.Store.Commit.Published.{Published, commit_staged_object-Published}
use gdrive_s.Store.Commit.Retained.{Retains, commit_staged_object-retained}
use gdrive_s.Store.Recovery.{recover_stale_staging, recover_rows}
use gdrive_s.Store.Recovery.Closing.{recover_stale_staging-settled, still_open}
use gdrive_s.Store.Recovery.Files.{recover_stale_staging-tracked}
use gdrive_s.Store.Staging.Final.{serve_all, serve_all-Final, was_committed, has_failed}
use gdrive_s.Store.Tracked.{tracked}
use gdrive_s.Store.Samples.{store, object, held, v1, fresh, staged}

abbrev options : Versioning → CommitOptions
options v = record { if_absent = false; versioning = v; version_id = some (units "v0") }

abbrev answer_of : Outcome Committed → Committed
answer_of (done answer s) = answer
answer_of _ = record { current = none; previous = none; archived_previous = false }

abbrev tables_of : {A : Type 0} → Outcome A → Store
tables_of (done answer s) = s
tables_of _ = store

abbrev committed_with : Versioning → Outcome Committed
committed_with v = commit_staged_object "s1" (options v) fresh store

-- The locked row is archived with its file, and nothing is queued.
archived_test :
    (tables_of (committed_with enabled)).pending_cleanup ≡ []
    × (length (tables_of (committed_with enabled)).object_versions ≡ 1)
unfolding commit_staged_object ready ready_columns find_first update_first update_all
    insert_or_update insert_new lookup put remove
archived_test = (refl, refl)

-- Without versioning the same commit queues the file of the row, though its lock holds it.
overwritten_test :
    (length (tables_of (committed_with disabled)).pending_cleanup ≡ 1)
    × ((tables_of (committed_with disabled)).object_versions ≡ [])
unfolding commit_staged_object ready ready_columns find_first update_first update_all
    insert_or_update insert_new lookup put remove
overwritten_test = (refl, refl)

commit_staged_object-tracked_example : tracked "f1" (tables_of (committed_with disabled)) ≡ true
unfolding commit_staged_object ready ready_columns find_first update_first update_all
    insert_or_update insert_new lookup put remove
commit_staged_object-tracked_example =
    commit_staged_object-tracked "s1" "f1" (options disabled) fresh store
      (tables_of (committed_with disabled)) (answer_of (committed_with disabled)) refl refl refl

commit_staged_object-Published_example :
    Published "s1"
      (options enabled)
      fresh
      store
      (answer_of (committed_with enabled))
      (tables_of (committed_with enabled))
unfolding commit_staged_object ready ready_columns find_first update_first update_all
    insert_or_update insert_new lookup put remove
commit_staged_object-Published_example =
    commit_staged_object-Published "s1" (options enabled) fresh store
      (tables_of (committed_with enabled)) (answer_of (committed_with enabled)) refl

commit_staged_object-retained_example :
    (v : ObjectVersionRow) × (Versions.find "b" "k" v1
        (tables_of (committed_with enabled)).object_versions
      ≡ some v)
    × Retains store (object "o1" "f1" v1 held) v
unfolding commit_staged_object ready ready_columns find_first update_first update_all
    insert_or_update insert_new lookup put remove
commit_staged_object-retained_example =
    commit_staged_object-retained "s1" (options enabled) fresh store
      (tables_of (committed_with enabled)) (answer_of (committed_with enabled))
      (object "o1" "f1" v1 held) refl refl refl refl

abbrev drawn : String → String
drawn id = id

abbrev recovered : Store
recovered = (recover_stale_staging drawn 5 10 9 store).1

-- One upload is orphaned, the other has no file.
recovery_test :
    (recover_stale_staging drawn 5 10 9 store).0
    ≡ record { examined = 2; finalized = 0; orphaned = 1; failed = 1 }
unfolding recover_stale_staging recover_rows list_stale find_first update_first select order_by
    insert_by limit
recovery_test = refl

recover_stale_staging-tracked_example : tracked "f2" recovered ≡ true
unfolding find_first
recover_stale_staging-tracked_example =
    recover_stale_staging-tracked "f2" drawn 5 10 9 store refl (refl, (refl, tt)) refl

recover_stale_staging-settled_example :
    (let rows = list_stale 5 10 store.object_staging in
      let outcome = recover_stale_staging drawn 5 10 9 store in
      All (λ row. still_open row.id outcome.1.object_staging ≡ false) rows
      × (outcome.0.examined ≡ length rows)
      × (outcome.0.examined ≡ outcome.0.finalized + outcome.0.orphaned + outcome.0.failed))
recover_stale_staging-settled_example = recover_stale_staging-settled drawn 5 10 9 store

abbrev settled : List StagingRow
settled = recovered.object_staging

abbrev orphaned : StagingRow
orphaned = record (staged "s1" (some "f2")) {
  status = failed;
  last_error = some "stale uploaded object orphaned";
  updated_at = 9;
}

-- A late commit of an upload that the recovery has failed does nothing.
serve_all-Final_example :
    by_id "s1" (serve_all (was_committed "s1" 12 ∷ has_failed "s1" "late" 13 ∷ []) settled)
    ≡ some orphaned
unfolding recover_stale_staging recover_rows list_stale find_first update_first select order_by
    insert_by limit
serve_all-Final_example =
    serve_all-Final "s1" orphaned refl (was_committed "s1" 12 ∷ has_failed "s1" "late" 13 ∷ [])
      settled refl
