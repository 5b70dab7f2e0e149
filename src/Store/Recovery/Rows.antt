-- ===== src/Store/Recovery/Rows.antt =====
-- What a step of the recovery takes out of the open staging rows.
use mathlib.Core.Option
use mathlib.Core.Option.{some-injective}
use gdrive_s.Base.{
  ◌≡◌, ◌⊎◌, refl, ◌∙◌, sym, ℕ, String, true, false, Option, none, some, List, ◌==◌, text_key, arith,
  any, Bool-cases, inl, inr, holds_iff,
}
use gdrive_s.Store.Table.{update_first, test_of, any-old, any-update}
use gdrive_s.Store.Rows.{StagingRow, is_open, resource_type_key}
use gdrive_s.Store.Staging.{by_id, set_failed, set_committed}
use gdrive_s.Store.Tracked.{open_with}
use gdrive_s.Store.Recovery.Closing.{staged_file}

-- A listed row is still the one that its id finds, as far as its file goes.
abbrev pub Fits : List StagingRow → StagingRow → Type 0
Fits t row = staged_file row.id t ≡ some row.new_drive_file_id

pub set_failed-closed :
    (file error : String) (now : ℕ) (r : StagingRow)
    → open_with file (set_failed error now r) ≡ false
set_failed-closed file error now r = elim (Bool-cases (is_open r.status)) [
  | inl e ↦ rw e refl
  | inr e ↦ rw e (rw e refl)
]

pub set_committed-closed :
    (file : String) (now : ℕ) (r : StagingRow) → open_with file (set_committed now r) ≡ false
set_committed-closed file now r = elim (Bool-cases (is_open r.status)) [
  | inl e ↦ rw e refl
  | inr e ↦ rw e (rw e refl)
]

Fits-holds :
    (file : String) (row : StagingRow) (o : Option StagingRow)
    → Option.map (λ r. r.new_drive_file_id) o ≡ some row.new_drive_file_id
    → test_of (open_with file) o ≡ true
    → row.new_drive_file_id ≡ some file
Fits-holds file row none fits h = cc
Fits-holds file row (some r) fits h =
    sym (some-injective _ _ fits) ∙ (holds_iff r.new_drive_file_id file).0 (ground arith)

-- To close a row loses no other file than the row's own.
pub close-open :
    (file : String) (row : StagingRow) (change : StagingRow → StagingRow) (t : List StagingRow)
    → ((r : StagingRow) → open_with file (change r) ≡ false)
    → Fits t row
    → any (open_with file) t ≡ true
    → (any (open_with file) (update_first (λ r. r.id == row.id) change t) ≡ true)
      ⊎ (row.new_drive_file_id ≡ some file)
close-open file row change t closes fits h =
    elim (Bool-cases (test_of (open_with file) (by_id row.id t))) [
      | inl e ↦ inr (Fits-holds file row _ fits e)
      | inr e ↦ inl (
          ground (
            arith,
            any-old (λ r. r.id == row.id) (open_with file) t,
            any-update (λ r. r.id == row.id) (open_with file) change t,
          ))
    ]
