-- ===== src/Store/Deletion/Files.antt =====
-- What happens to Drive files when an object is deleted.
use gdrive_s.Base.{
  ◌≡◌, refl, ap, ◌∙◌, sym, ℕ, String, Bool, true, false, not, ◌&&◌, ◌||◌, Option, none, some, List,
  ◌∷◌, [], ◌++◌, ◌==◌, text_key, units_key, Text, if◌then◌else◌, arith, any, Bool-cases, inl, inr,
  lookup,
}
use gdrive_s.Store.Table.{any-insert_new, any-append_row, any-update_all, any-found}
use gdrive_s.Store.Table.Select.{delete_first-absent}
use gdrive_s.Store.Rows.{Store, ObjectRow, ObjectVersionRow, Sse}
use gdrive_s.Store.Objects.{at_key, find_by_key, delete_by_key, if_active-some, delete_by_key-eq}
use gdrive_s.Store.Versions
use gdrive_s.Store.Versions.{
  at_version, of_key, archive, archived, clear_latest, insert_delete_marker, delete_marker,
  null_version,
}
use gdrive_s.Store.Cleanup.Enqueue.{enqueue-any}
use gdrive_s.Store.Commit.{Fresh, sse_of}
use gdrive_s.Store.Deletion.{DeleteBucket, deleted, hide, hide_with, queue_unless, to_queue}
use gdrive_s.Store.Tracked.{tracked, object_with, version_with, queued_with}

-- The versions that a deletion hides behind a marker.
abbrev pub kept_versions :
    Bool → ObjectRow → Sse → Fresh → List ObjectVersionRow → List ObjectVersionRow
kept_versions retained current sse fresh t =
    if retained then archive current sse fresh.version_row fresh.now t else t

kept_versions-any :
    (file : String) (retained : Bool) (current : ObjectRow) (sse : Sse) (fresh : Fresh)
    (t : List ObjectVersionRow)
    → (retained && any (at_version current.bucket_id current.object_key current.version_id) t)
      ≡ false
    → any (version_with file) (kept_versions retained current sse fresh t)
      ≡ (any (version_with file) t || (retained && object_with file current))
kept_versions-any file false current sse fresh t h = ground arith
kept_versions-any file true current sse fresh t h = any-insert_new _ _ _ t h

refused_or :
    {A : Type 0} (refused : Bool) (x y : A) → (if refused then none else some x) ≡ some y → x ≡ y
refused_or true x y h = cc
refused_or false x y h = cc

or_false : (b : Bool) → (b || false) ≡ b
or_false b = ground arith

insert_delete_marker-any :
    (file b k : String) (v : Text) (id : String) (now : ℕ) (t after : List ObjectVersionRow)
    → insert_delete_marker b k v id now t ≡ some after
    → any (version_with file) after ≡ any (version_with file) t
unfolding insert_delete_marker
insert_delete_marker-any file b k v id now t after h =
    let marker = delete_marker b k v id now in
    ap (any (version_with file)) (sym (refused_or _ (t ++ marker ∷ []) after h))
    ∙ any-append_row (version_with file) marker t
    ∙ or_false _

delete_by_key-any :
    (file b : String) (current : ObjectRow) (t : List ObjectRow)
    → find_by_key b current.object_key t ≡ some current
    → any (object_with file) t ≡ (
        object_with file current || any (object_with file) (delete_by_key b current.object_key t).1)
delete_by_key-any file b current t h =
    any-found (at_key b current.object_key) (object_with file) t current
      (if_active-some _ current h)
    ∙ ap (λ rows. object_with file current || any (object_with file) rows)
        (sym (delete_by_key-eq b current.object_key t current h))

queue_unless-any :
    (file : String) (retained : Bool) (bucket : DeleteBucket) (own reason : String) (fresh : Fresh)
    (s : Store)
    → any (queued_with file) (queue_unless retained bucket own reason fresh s).pending_cleanup
      ≡ (any (queued_with file) s.pending_cleanup || (not retained && (own == file)))
queue_unless-any file true bucket own reason fresh s = ground arith
queue_unless-any file false bucket own reason fresh s = enqueue-any file _ _ _ _

deleted-injective :
    (m n : Option Text) (f g : Option String) (s t : Store) → deleted m f s ≡ deleted n g t → s ≡ t
deleted-injective m n f g s t h = cc

-- The current row goes; its file is in a version when it is retained, and in the queue otherwise.
hide_with-tracked :
    (file : String) (o : Option (List ObjectVersionRow)) (retained : Bool) (bucket : DeleteBucket)
    (current : ObjectRow) (marker : Text) (reason : String) (fresh : Fresh) (s after : Store)
    (m : Option Text) (released : Option String)
    → hide_with o retained bucket current marker reason fresh s ≡ deleted m released after
    → find_by_key bucket.id current.object_key s.objects ≡ some current
    → ((versions : List ObjectVersionRow)
        → o ≡ some versions
        → any (version_with file) versions ≡ any (version_with file) s.object_versions)
    → ((retained && object_with file current) ≡ true
        → any (version_with file) s.object_versions ≡ true)
    → tracked file s ≡ true
    → tracked file after ≡ true
hide_with-tracked file none retained bucket current marker reason fresh s after m released h there
      same kept known =
    cc
hide_with-tracked file (some vs) true bucket current marker reason fresh s after m released h there
      same kept known =
    ap (tracked file) (sym (deleted-injective (some marker) m _ released _ after h))
    ∙ ground (arith, same vs refl, kept, delete_by_key-any file bucket.id current s.objects there)
hide_with-tracked file (some vs) false bucket current marker reason fresh s after m released h there
      same kept known =
    ap (tracked file) (sym (deleted-injective (some marker) m _ released _ after h))
    ∙ ground (
      arith,
      same vs refl,
      delete_by_key-any file bucket.id current s.objects there,
      enqueue-any file (to_queue bucket current.drive_file_id reason) fresh.cleanup_row fresh.now
          s.pending_cleanup,
    )

-- What stands in the way of the marker goes first; `hide` finds no version there.
free_versions-any :
    (file b k : String) (marker : Text) (t : List ObjectVersionRow)
    → ((marker == null_version) && any (at_version b k null_version) t) ≡ false
    → any
        (version_with file)
        (if marker == null_version then Versions.delete b k null_version t else t)
      ≡ any (version_with file) t
free_versions-any file b k marker t h = elim (Bool-cases (marker == null_version)) [
  | inl e ↦ rw e (ap (any (version_with file)) (delete_first-absent _ t (ground arith)))
  | inr e ↦ rw e refl
]

pub hide-tracked :
    (file : String) (retained : Bool) (marker : Text) (bucket : DeleteBucket) (current : ObjectRow)
    (reason marker_row : String) (fresh : Fresh) (s after : Store) (m : Option Text)
    (released : Option String)
    → hide retained marker bucket current reason marker_row fresh s ≡ deleted m released after
    → find_by_key bucket.id current.object_key s.objects ≡ some current
    → (retained
        && any
            (at_version current.bucket_id current.object_key current.version_id)
            s.object_versions)
      ≡ false
    → ((marker == null_version)
        && any (at_version bucket.id current.object_key null_version) (
            clear_latest bucket.id current.object_key (
              kept_versions retained current
                (sse_of (lookup current.id s.object_encryption))
                fresh
                s.object_versions)))
      ≡ false
    → tracked file s ≡ true
    → tracked file after ≡ true
hide-tracked file retained marker bucket current reason marker_row fresh s after m released h there
      clash null known =
    let key = current.object_key in
    let kept =
      kept_versions retained current (sse_of (lookup current.id s.object_encryption)) fresh
        s.object_versions in
    let cleared = clear_latest bucket.id key kept in
    let free =
      if marker == null_version
      then Versions.delete bucket.id key null_version cleared
      else cleared in
    let same : any (version_with file) free
        ≡ (any (version_with file) s.object_versions || (retained && object_with file current)) =
      free_versions-any file bucket.id key marker cleared null
      ∙ any-update_all (of_key bucket.id key) (version_with file) (λ r. record r { is_latest = 0 })
          (λ r. refl) kept
      ∙ kept_versions-any file retained current _ fresh s.object_versions clash in
    hide_with-tracked file _ retained bucket current marker reason fresh
      (record s { object_versions = free }) after m released h there
      (λ versions found.
        insert_delete_marker-any file bucket.id key marker marker_row fresh.now free versions found)
      (λ own. ground arith) (ground arith)
