-- ===== src/Multipart/Complete/Staged.antt =====
-- What the open staging rows refer to as a row is started, uploaded and failed.
use mathlib.Core.Option
use gdrive_s.Base.{
  ◌≡◌, refl, sym, ap, ◌∙◌, ℕ, String, Bool, true, false, ◌||◌, some, List, ◌==◌, text_key, arith,
  any,
}
use gdrive_s.Store.Table.{
  find_first-update, delete_first, test_of, any-old, any-update, any-append_row,
}
use gdrive_s.Store.Table.Found.{find_first-append_row}
use gdrive_s.Store.Rows.{StagingRow}
use gdrive_s.Store.Staging.{
  StartStagingInput, MarkUploadedInput, started, start, by_id, set_uploaded, set_failed,
  mark_uploaded, mark_failed,
}
use gdrive_s.Store.Tracked.{open_with}

module _ (input : StartStagingInput) (id object_id : String) (now : ℕ) (t : List StagingRow) where
  pub start-any :
      (file : String)
      → any (open_with file) (start input id object_id now t) ≡ any (open_with file) t
  unfolding start
  start-any file =
      ground (arith, any-append_row (open_with file) (started input id object_id now) t)

  pub start-by_id :
      any (λ r. r.id == id) t ≡ false
      → by_id id (start input id object_id now t) ≡ some (started input id object_id now)
  unfolding start
  start-by_id new =
      find_first-append_row (λ r. r.id == id) (started input id object_id now) t new
        ((text_key.test_iff id id).1 refl)

pub mark_uploaded-by_id :
    (input : MarkUploadedInput) (now : ℕ) (t : List StagingRow) (r : StagingRow)
    → by_id input.id t ≡ some r
    → by_id input.id (mark_uploaded input now t) ≡ some (set_uploaded input now r)
mark_uploaded-by_id input now t r found =
    find_first-update (λ x. x.id == input.id) (set_uploaded input now) (λ x. ground arith) t
    ∙ ap (Option.map (set_uploaded input now)) found

-- An update of a row that holds no open file keeps the others, and adds what the row holds then.
pub mark_uploaded-any :
    (file : String) (input : MarkUploadedInput) (now : ℕ) (t : List StagingRow) (r : StagingRow)
    → by_id input.id t ≡ some r
    → open_with file r ≡ false
    → any (open_with file) (mark_uploaded input now t)
      ≡ (open_with file (set_uploaded input now r) || any (open_with file) t)
mark_uploaded-any file input now t r found empty =
    let p : StagingRow → Bool = λ x. x.id == input.id in
    let new : StagingRow → Bool = λ x. open_with file (set_uploaded input now x) in
    let changed = any-update p (open_with file) (set_uploaded input now) t in
    let now_held = ap (test_of new) found in
    let before = any-old p (open_with file) t in
    let was_held = ap (test_of (open_with file)) found in
    changed
    ∙ ap (λ b. b || any (open_with file) (delete_first p t)) now_held
    ∙ ap (λ b. open_with file (set_uploaded input now r) || b)
        (sym (before ∙ ap (λ b. b || any (open_with file) (delete_first p t)) (was_held ∙ empty)))

pub mark_failed-any :
    (file id error : String) (now : ℕ) (t : List StagingRow) (r : StagingRow)
    → by_id id t ≡ some r
    → any (open_with file) t ≡ true
    → (any (open_with file) (mark_failed id error now t) || open_with file r) ≡ true
mark_failed-any file id error now t r found h =
    let p : StagingRow → Bool = λ x. x.id == id in
    let before = any-old p (open_with file) t in
    let holds = ap (test_of (open_with file)) found in
    let after = any-update p (open_with file) (set_failed error now) t in
    ground (arith, before, holds, after)
