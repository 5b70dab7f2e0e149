-- ===== src/Store/Deletion/Tracked.antt =====
-- The tables of `delete` of services/object-service.ts, in all three modes of a bucket.
use mathlib.Core.Option.{some-injective}
use gdrive_s.Base.{
  ◌≡◌, refl, ap, ◌∙◌, sym, String, Bool, true, false, not, ◌&&◌, Option, none, some, List, ◌==◌,
  text_key, units_key, Text, if◌then◌else◌, arith, any, lookup,
}
use gdrive_s.Store.Table.{any-found, any-append_row, any-update_all, any-insert_new}
use gdrive_s.Store.Table.Select.{All-find_first}
use gdrive_s.Store.Rows.{
  Store, ObjectRow, ObjectVersionRow, Versioning, disabled, enabled, suspended, is_active, Sse,
}
use gdrive_s.Store.Objects.{
  at_key, find_by_key, find_active_by_id_in_bucket, in_bucket, HasUniqueKeys, if_active,
  if_active-some,
}
use gdrive_s.Store.Versions.{at_version, of_key, archived, null_version}
use gdrive_s.Store.Commit.{
  Fresh, Outcome, done, not_ready, object_key_conflict, sse_of, queue_row, owner_mismatch,
}
use gdrive_s.Store.Removal.{delete_and_queue_cleanup, CleanupInput, delete_row}
use gdrive_s.Store.Deletion.{
  DeleteBucket, Deleted, deleted, not_found, delete, delete_by_mode, plain_outcome, delete_read,
  file_of, hide_with,
}
use gdrive_s.Store.Deletion.Files.{kept_versions, hide-tracked}
use gdrive_s.Store.Tracked.{tracked, object_with, queued_with}

-- The version ids that the deletion wants to write are free.
abbrev pub unobstructed : Versioning → ObjectRow → List ObjectVersionRow → Bool
unobstructed disabled current t = true
unobstructed enabled current t =
    not (any (at_version current.bucket_id current.object_key current.version_id) t)
unobstructed suspended current t =
    not (any (at_version current.bucket_id current.object_key current.version_id) t)
    && not (any (at_version current.bucket_id current.object_key null_version) t)

chosen-eq :
    {A : Type 0} (b : Bool) (x r : A) → (if b then some x else none) ≡ some r → (b ≡ true) × (x ≡ r)
chosen-eq true x r h = (refl, some-injective x r h)
chosen-eq false x r h = cc

in_bucket-found :
    (b : String) (o : Option ObjectRow) (r : ObjectRow)
    → in_bucket b o ≡ some r
    → (o ≡ some r) × (r.bucket_id ≡ b) × (is_active r.status ≡ true)
in_bucket-found b none r h = cc
in_bucket-found b (some x) r h =
    let chosen = chosen-eq _ x r h in
    (
      ap some chosen.1,
      ap (λ y. y.bucket_id) (sym chosen.1) ∙ (text_key.test_iff x.bucket_id b).0 (ground arith),
      ap (λ y. is_active y.status) (sym chosen.1) ∙ (ground arith),
    )

if_active-is_active : (r : ObjectRow) → is_active r.status ≡ true → if_active (some r) ≡ some r
if_active-is_active r h = rw h refl

current-found :
    (b id : String) (t : List ObjectRow) (current : ObjectRow)
    → HasUniqueKeys t
    → find_active_by_id_in_bucket b id t ≡ some current
    → (current.bucket_id ≡ b) × (find_by_key b current.object_key t ≡ some current)
unfolding find_active_by_id_in_bucket
current-found b id t current unique h =
    let (found, same, is_current) = in_bucket-found b _ current h in
    let by_key = All-find_first _ (λ r. r.id == id) t current unique found in
    (
      same,
      ap (λ k. find_by_key k current.object_key t) (sym same)
          ∙ ap if_active by_key
          ∙ if_active-is_active current is_current,
    )

accepted :
    (refused : Bool) (outcome : Outcome (Option ObjectRow)) (after : Store) (o : Option ObjectRow)
    → (if refused then owner_mismatch else outcome) ≡ done o after
    → outcome ≡ done o after
accepted true outcome after o h = cc
accepted false outcome after o h = h

done-tables : (x y : Option ObjectRow) (s t : Store) → done x s ≡ done y t → s ≡ t
done-tables x y s t h = cc

delete_row-tracked :
    (file : String) (existing : Option ObjectRow) (input : CleanupInput) (fresh : Fresh)
    (s after : Store) (o : Option ObjectRow)
    → delete_row existing input fresh s ≡ done o after
    → find_by_key input.bucket_id input.object_key s.objects ≡ existing
    → tracked file s ≡ true
    → tracked file after ≡ true
delete_row-tracked file none input fresh s after o h there known =
    ap (tracked file) (sym (done-tables none o s after h)) ∙ known
delete_row-tracked file (some r) input fresh s after o h there known =
    ap (tracked file) (sym (done-tables (some r) o _ after h))
    ∙ ground (
      arith,
      any-found (at_key input.bucket_id input.object_key) (object_with file) s.objects r
          (if_active-some _ r there),
      any-append_row (queued_with file)
          (queue_row input.user_id r.drive_file_id input.reason input.drive_target_id fresh)
          s.pending_cleanup,
    )

delete_and_queue_cleanup-tracked :
    (file : String) (input : CleanupInput) (fresh : Fresh) (s after : Store) (o : Option ObjectRow)
    → delete_and_queue_cleanup input fresh s ≡ done o after
    → tracked file s ≡ true
    → tracked file after ≡ true
unfolding delete_and_queue_cleanup
delete_and_queue_cleanup-tracked file input fresh s after o h known =
    delete_row-tracked file (find_by_key input.bucket_id input.object_key s.objects) input fresh s
      after o (accepted _ _ after o h) refl known

kept-null_free :
    (b k : String) (retained : Bool) (current : ObjectRow) (sse : Sse) (fresh : Fresh)
    (t : List ObjectVersionRow)
    → retained ≡ not (current.version_id == null_version)
    → any (at_version b k null_version) t ≡ false
    → any (at_version current.bucket_id current.object_key current.version_id) t ≡ false
    → any (at_version b k null_version) (kept_versions retained current sse fresh t) ≡ false
kept-null_free b k false current sse fresh t is_retained no_null no_own = no_null
kept-null_free b k true current sse fresh t is_retained no_null no_own = ground (
  arith,
  any-insert_new (at_version current.bucket_id current.object_key current.version_id)
      (at_version b k null_version) (archived current sse fresh.version_row fresh.now) t no_own,
)

deleted-tables :
    (m n : Option Text) (f g : Option String) (s t : Store)
    → deleted m f s ≡ deleted n g t
    → (f ≡ g) × (s ≡ t)
deleted-tables m n f g s t h = (cc, cc)

plain_outcome-done :
    (outcome : Outcome (Option ObjectRow)) (m : Option Text) (released : Option String)
    (after : Store)
    → plain_outcome outcome ≡ deleted m released after
    → (o : Option ObjectRow) × (outcome ≡ done o after) × (released ≡ file_of o)
plain_outcome-done (done o s) m released after h =
    let (file, tables) = deleted-tables none m (file_of o) released s after h in
    (o, ap (done o) tables, sym file)
plain_outcome-done not_ready m released after h = cc
plain_outcome-done object_key_conflict m released after h = cc
plain_outcome-done owner_mismatch m released after h = cc

read-deleted :
    (matches : Bool) (d : Deleted) (m : Option Text) (released : Option String) (after : Store)
    → (if matches then d else not_found) ≡ deleted m released after
    → d ≡ deleted m released after
read-deleted true d m released after h = h
read-deleted false d m released after h = cc

delete_by_mode-tracked :
    (file : String) (mode : Versioning) (bucket : DeleteBucket) (current : ObjectRow)
    (reason : String) (new_version : Text) (marker_row : String) (fresh : Fresh) (s after : Store)
    (m : Option Text) (released : Option String)
    → delete_by_mode mode bucket current reason new_version marker_row fresh s
      ≡ deleted m released after
    → current.bucket_id ≡ bucket.id
    → find_by_key bucket.id current.object_key s.objects ≡ some current
    → (new_version == null_version) ≡ false
    → unobstructed mode current s.object_versions ≡ true
    → tracked file s ≡ true
    → tracked file after ≡ true
delete_by_mode-tracked file disabled bucket current reason new_version marker_row fresh s after m
      released h same there drawn free known =
    let (o, accepted_h, which) = plain_outcome-done _ m released after h in
    delete_and_queue_cleanup-tracked file _ fresh s after o accepted_h known
delete_by_mode-tracked file enabled bucket current reason new_version marker_row fresh s after m
      released h same there drawn free known =
    hide-tracked file true new_version bucket current reason marker_row fresh s after m released h
      there (ground arith) (ground (arith, drawn)) known
delete_by_mode-tracked file suspended bucket current reason new_version marker_row fresh s after m
      released h same there drawn free known =
    let retained = not (current.version_id == null_version) in
    let sse = sse_of (lookup current.id s.object_encryption) in
    let kept = kept_versions retained current sse fresh s.object_versions in
    let at_null = at_version bucket.id current.object_key null_version in
    let no_null : any at_null s.object_versions ≡ false =
      ap (λ b. any (at_version b current.object_key null_version) s.object_versions) (sym same)
      ∙ ground arith in
    hide-tracked file retained null_version bucket current reason marker_row fresh s after m
      released h there (ground arith)
      (any-update_all (of_key bucket.id current.object_key) at_null
          (λ r. record r { is_latest = 0 }) (λ r. refl) kept
        ∙ kept-null_free bucket.id current.object_key retained current sse fresh s.object_versions
            refl no_null (ground arith))
      known

-- Whether the current version becomes an archived one.
abbrev pub retains : Versioning → ObjectRow → Bool
retains disabled current = false
retains enabled current = true
retains suspended current = not (current.version_id == null_version)

abbrev pub released_by : Versioning → ObjectRow → Option String
released_by mode current = if retains mode current then none else some current.drive_file_id

hide_with-released :
    (o : Option (List ObjectVersionRow)) (retained : Bool) (bucket : DeleteBucket)
    (current : ObjectRow) (marker : Text) (reason : String) (fresh : Fresh) (s after : Store)
    (m : Option Text) (released : Option String)
    → hide_with o retained bucket current marker reason fresh s ≡ deleted m released after
    → released ≡ (if retained then none else some current.drive_file_id)
hide_with-released none retained bucket current marker reason fresh s after m released h = cc
hide_with-released (some vs) retained bucket current marker reason fresh s after m released h =
    sym (deleted-tables (some marker) m _ released _ after h).0

delete_row-same :
    (existing o : Option ObjectRow) (input : CleanupInput) (fresh : Fresh) (s after : Store)
    → delete_row existing input fresh s ≡ done o after
    → existing ≡ o
delete_row-same none o input fresh s after h = cc
delete_row-same (some r) o input fresh s after h = cc

-- The file that is drained is that of a version that is not retained.
delete_by_mode-released :
    (mode : Versioning) (bucket : DeleteBucket) (current : ObjectRow) (reason : String)
    (new_version : Text) (marker_row : String) (fresh : Fresh) (s after : Store) (m : Option Text)
    (released : Option String)
    → delete_by_mode mode bucket current reason new_version marker_row fresh s
      ≡ deleted m released after
    → find_by_key bucket.id current.object_key s.objects ≡ some current
    → released ≡ released_by mode current
unfolding delete_and_queue_cleanup
delete_by_mode-released disabled bucket current reason new_version marker_row fresh s after m
      released h there =
    let (o, accepted_h, file) = plain_outcome-done _ m released after h in
    file
    ∙ ap file_of (
        sym (
          delete_row-same (find_by_key bucket.id current.object_key s.objects) o _ fresh s after
            (accepted _ _ after o accepted_h))
        ∙ there)
delete_by_mode-released enabled bucket current reason new_version marker_row fresh s after m
      released h there =
    hide_with-released _ true bucket current new_version reason fresh _ after m released h
delete_by_mode-released suspended bucket current reason new_version marker_row fresh s after m
      released h there =
    hide_with-released _ (not (current.version_id == null_version)) bucket current null_version
      reason fresh _ after m released h

-- What the tables of a deletion know, and which file it drains: when no two objects share a key, the
-- version id drawn is not `null` and no archived version has one of the version ids that are to be
-- written, each file that an object, a version, the queue or an open staging row referred to is
-- still referred to, and the file that is drained is that of a current version not retained.
pub delete-tracked :
    (file : String) (bucket : DeleteBucket) (object_id object_file reason : String)
    (new_version : Text) (marker_row : String) (fresh : Fresh) (s after : Store) (m : Option Text)
    (released : Option String) (current : ObjectRow)
    → delete bucket object_id object_file reason new_version marker_row fresh s
      ≡ deleted m released after
    → HasUniqueKeys s.objects
    → find_active_by_id_in_bucket bucket.id object_id s.objects ≡ some current
    → (new_version == null_version) ≡ false
    → unobstructed bucket.versioning current s.object_versions ≡ true
    → (tracked file s ≡ true → tracked file after ≡ true)
      × (released ≡ released_by bucket.versioning current)
unfolding delete
delete-tracked file bucket object_id object_file reason new_version marker_row fresh s after m
      released current h unique found drawn free =
    let (same, there) = current-found bucket.id object_id s.objects current unique found in
    let read = read-deleted _ _ m released after (
      sym (ap (λ o. delete_read o bucket object_file reason new_version marker_row fresh s) found)
      ∙ h) in
    (
      delete_by_mode-tracked file bucket.versioning bucket current reason new_version marker_row
          fresh s after m released read same there drawn free,
      delete_by_mode-released bucket.versioning bucket current reason new_version marker_row fresh s
          after m released read there,
    )
