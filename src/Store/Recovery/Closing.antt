-- ===== src/Store/Recovery/Closing.antt =====
-- Every step of the recovery closes the row that it is about, and no step opens a row.
use mathlib.Core.Option
use gdrive_s.Base.{
  ◌≡◌, refl, ap, ◌∙◌, ℕ, ◌+◌, suc, String, Bool, false, Option, none, some, List, [], ◌∷◌, ◌==◌,
  text_key, arith, Bool-cases, inl, inr, All, truthy, length,
}
use gdrive_s.Store.Table.{find_first, update_first, test_of}
use gdrive_s.Store.Rows.{Store, StagingRow, is_open}
use gdrive_s.Store.Staging.{by_id, list_stale, set_failed, set_committed}
use gdrive_s.Store.Objects.{find_by_key}
use gdrive_s.Store.Recovery.{
  RecoveryResult, recover_row, recover_rows, recover_stale_staging, nothing_recovered, holds_file,
  settle_column,
}

-- A change that one of the statements makes.
pub record IsClosing (change : StagingRow → StagingRow) : Type 0 where
  pub keeps_id : (r : StagingRow) → (change r).id ≡ r.id
  pub keeps_file : (r : StagingRow) → (change r).new_drive_file_id ≡ r.new_drive_file_id
  pub closes : (r : StagingRow) → is_open (change r).status ≡ false

set_failed-IsClosing : (error : String) (now : ℕ) → IsClosing (set_failed error now)
set_failed-IsClosing error now = record {
  keeps_id = λ r. ground arith;
  keeps_file = λ r. ground arith;
  closes =
      λ r. elim (Bool-cases (is_open r.status)) [ inl e ↦ rw e refl | inr e ↦ rw e (rw e refl) ];
}

set_committed-IsClosing : (now : ℕ) → IsClosing (set_committed now)
set_committed-IsClosing now = record {
  keeps_id = λ r. ground arith;
  keeps_file = λ r. ground arith;
  closes =
      λ r. elim (Bool-cases (is_open r.status)) [ inl e ↦ rw e refl | inr e ↦ rw e (rw e refl) ];
}

-- What a step makes of the staging table.
pub record Closes (row : StagingRow) (s after : Store) : Type 0 where
  pub change : StagingRow → StagingRow
  pub is_closing : IsClosing change
  pub table : after.object_staging ≡ update_first (λ r. r.id == row.id) change s.object_staging

settle_column-Closes :
    (row : StagingRow) (column : Option String) (fresh : String) (now : ℕ) (s : Store)
    (result : RecoveryResult)
    → Closes row s (settle_column row column fresh now s result).1
settle_column-Closes row none fresh now s result = record {
  change = _;
  is_closing = set_failed-IsClosing _ now;
  table = refl;
}
settle_column-Closes row (some file) fresh now s result = elim (Bool-cases (truthy (some file))) [
  | inr e ↦ rw e record { change = _; is_closing = set_failed-IsClosing _ now; table = refl }
  | inl e ↦
      rw e
        (elim (Bool-cases (holds_file (find_by_key row.bucket_id row.object_key s.objects) file)) [
          | inl f ↦
              rw f record { change = _; is_closing = set_committed-IsClosing now; table = refl }
          | inr f ↦
              rw f record { change = _; is_closing = set_failed-IsClosing _ now; table = refl }
        ])
]

pub recover_row-Closes :
    (row : StagingRow) (fresh : String) (now : ℕ) (s : Store) (result : RecoveryResult)
    → Closes row s (recover_row row fresh now s result).1
recover_row-Closes row fresh now s result =
    settle_column-Closes row row.new_drive_file_id fresh now s
      (record result { examined = result.examined + 1 })

-- The file column of the row with an id.
abbrev pub staged_file : String → List StagingRow → Option (Option String)
staged_file id t = Option.map (λ r. r.new_drive_file_id) (by_id id t)

-- Whether the row with an id is open.
abbrev pub still_open : String → List StagingRow → Bool
still_open id t = test_of (λ r. is_open r.status) (by_id id t)

module _ (change : StagingRow → StagingRow) (c : IsClosing change) where
  pub staged_file-update :
      (id : String) (p : StagingRow → Bool) (t : List StagingRow)
      → staged_file id (update_first p change t) ≡ staged_file id t
  unfolding find_first update_first
  staged_file-update id p [] = refl
  staged_file-update id p (x ∷ t) =
      ground (arith, c.keeps_id x, c.keeps_file x, staged_file-update id p t)

  still_open-update :
      (id : String) (p : StagingRow → Bool) (t : List StagingRow)
      → still_open id t ≡ false
      → still_open id (update_first p change t) ≡ false
  unfolding find_first update_first
  still_open-update id p [] h = refl
  still_open-update id p (x ∷ t) h =
      ground (arith, c.keeps_id x, c.closes x, still_open-update id p t)

  still_open-own :
      (id : String) (t : List StagingRow)
      → still_open id (update_first (λ r. r.id == id) change t) ≡ false
  unfolding find_first update_first
  still_open-own id [] = refl
  still_open-own id (x ∷ t) = ground (arith, c.keeps_id x, c.closes x, still_open-own id t)

recover_rows-open :
    (id : String) (fresh : String → String) (now : ℕ) (rows : List StagingRow) (s : Store)
    (result : RecoveryResult)
    → still_open id s.object_staging ≡ false
    → still_open id (recover_rows fresh now rows s result).1.object_staging ≡ false
unfolding recover_rows
recover_rows-open id fresh now [] s result h = h
recover_rows-open id fresh now (row ∷ rows) s result h =
    let step = recover_row-Closes row (fresh row.id) now s result in
    recover_rows-open id fresh now rows _ _ (
      ap (still_open id) step.table
      ∙ still_open-update step.change step.is_closing id _ s.object_staging h)

recover_rows-closed :
    (fresh : String → String) (now : ℕ) (rows : List StagingRow) (s : Store)
    (result : RecoveryResult)
    → All
        (λ row. still_open row.id (recover_rows fresh now rows s result).1.object_staging ≡ false)
        rows
unfolding recover_rows
recover_rows-closed fresh now [] s result = tt
recover_rows-closed fresh now (row ∷ rows) s result =
    let step = recover_row-Closes row (fresh row.id) now s result in
    (
      recover_rows-open row.id fresh now rows _ _ (
          ap (still_open row.id) step.table
          ∙ still_open-own step.change step.is_closing row.id s.object_staging),
      recover_rows-closed fresh now rows _ _,
    )

-- The counters agree.
abbrev pub Balanced : RecoveryResult → Type 0
Balanced r = r.examined ≡ r.finalized + r.orphaned + r.failed

settle_column-Balanced :
    (row : StagingRow) (column : Option String) (fresh : String) (now : ℕ) (s : Store)
    (result : RecoveryResult)
    → Balanced result
    → (let outcome =
          (settle_column row column fresh now s
            (record result { examined = result.examined + 1 })).0 in
        Balanced outcome × (outcome.examined ≡ suc result.examined))
settle_column-Balanced row none fresh now s result h = (omega arith, omega arith)
settle_column-Balanced row (some file) fresh now s result h =
    elim (Bool-cases (truthy (some file))) [
      | inr e ↦ rw e (omega arith, omega arith)
      | inl e ↦
          rw e
            (elim (Bool-cases
              (holds_file (find_by_key row.bucket_id row.object_key s.objects) file)) [
                | inl f ↦ rw f (omega arith, omega arith)
                | inr f ↦ rw f (omega arith, omega arith)
              ])
    ]

recover_row-Balanced :
    (row : StagingRow) (fresh : String) (now : ℕ) (s : Store) (result : RecoveryResult)
    → Balanced result
    → Balanced (recover_row row fresh now s result).0
      × ((recover_row row fresh now s result).0.examined ≡ suc result.examined)
recover_row-Balanced row fresh now s result h =
    settle_column-Balanced row row.new_drive_file_id fresh now s result h

recover_rows-Balanced :
    (fresh : String → String) (now : ℕ) (rows : List StagingRow) (s : Store)
    (result : RecoveryResult)
    → Balanced result
    → Balanced (recover_rows fresh now rows s result).0
      × ((recover_rows fresh now rows s result).0.examined ≡ result.examined + length rows)
unfolding recover_rows
recover_rows-Balanced fresh now [] s result h = (h, omega arith)
recover_rows-Balanced fresh now (row ∷ rows) s result h =
    let step = recover_row-Balanced row (fresh row.id) now s result h in
    let rest = recover_rows-Balanced fresh now rows _ _ step.0 in
    (rest.0, omega (arith, rest.1, step.1))

-- The recovery settles what it examines: no row that it listed is open after it, as many rows
-- are counted as examined as were listed, and each is counted as finalized, orphaned or failed.
pub recover_stale_staging-settled :
    (fresh : String → String) (cutoff batch now : ℕ) (s : Store)
    → (let rows = list_stale cutoff batch s.object_staging in
        let outcome = recover_stale_staging fresh cutoff batch now s in
        All (λ row. still_open row.id outcome.1.object_staging ≡ false) rows
        × (outcome.0.examined ≡ length rows)
        × (outcome.0.examined ≡ outcome.0.finalized + outcome.0.orphaned + outcome.0.failed))
unfolding recover_stale_staging
recover_stale_staging-settled fresh cutoff batch now s =
    let rows = list_stale cutoff batch s.object_staging in
    let counts = recover_rows-Balanced fresh now rows s nothing_recovered refl in
    (recover_rows-closed fresh now rows s nothing_recovered, omega (arith, counts.1), counts.0)
