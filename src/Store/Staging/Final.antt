-- ===== src/Store/Staging/Final.antt =====
-- The statuses of a staging row as a state machine: db/repositories/object-staging.ts.
use mathlib.Core.Option.{some-injective}
use gdrive_s.Base.{
  ◌≡◌, refl, ap, ◌∙◌, sym, ℕ, String, Bool, false, some, List, [], ◌∷◌, ◌++◌, ◌==◌, text_key,
  Bool-cases, inl, inr, arith,
}
use gdrive_s.Store.Table.{find_first, update_first}
use gdrive_s.Store.Rows.{
  StagingRow, StagingStatus, uploading, uploaded, committed, failed, is_open, is_uploading,
}
use gdrive_s.Store.Staging.{
  StartStagingInput, MarkUploadedInput, start, by_id, set_uploaded, set_failed, set_committed,
  mark_uploaded, mark_failed, mark_committed,
}

pub data StagingStatement : Type 0 where
  started : StartStagingInput → String → String → ℕ → StagingStatement
  was_uploaded : MarkUploadedInput → ℕ → StagingStatement
  has_failed : String → String → ℕ → StagingStatement
  was_committed : String → ℕ → StagingStatement

unfoldable pub serve : StagingStatement → List StagingRow → List StagingRow
serve (started input id object_id now) t = start input id object_id now t
serve (was_uploaded input now) t = mark_uploaded input now t
serve (has_failed id error now) t = mark_failed id error now t
serve (was_committed id now) t = mark_committed id now t

unfoldable pub serve_all : List StagingStatement → List StagingRow → List StagingRow
unfolding serve
serve_all [] t = t
serve_all (statement ∷ later) t = serve_all later (serve statement t)

closed-uploading : (s : StagingStatus) → is_open s ≡ false → is_uploading s ≡ false
closed-uploading uploading h = cc
closed-uploading uploaded h = refl
closed-uploading committed h = refl
closed-uploading failed h = refl

module _ (id : String) (r : StagingRow) (closed : is_open r.status ≡ false) where
  update_first-Final :
      (change : StagingRow → StagingRow) (p : StagingRow → Bool)
      → ((x : StagingRow) → (change x).id ≡ x.id)
      → change r ≡ r
      → (t : List StagingRow) → by_id id t ≡ some r
      → by_id id (update_first p change t) ≡ some r
  unfolding find_first update_first
  update_first-Final change p keeps fixed [] h = cc
  update_first-Final change p keeps fixed (x ∷ t) h = elim (Bool-cases (x.id == id)) [
    | inl e ↦
        let same : x ≡ r = some-injective x r (ground arith) in
        let left : change x ≡ x = ap change same ∙ fixed ∙ sym same in
        elim (Bool-cases (p x)) [
          | inl f ↦ rw f (rw left (rw e (ap some same)))
          | inr f ↦ rw f (rw e (ap some same))
        ]
    | inr e ↦ ground (arith, keeps x, update_first-Final change p keeps fixed t)
  ]

  start-Final :
      (row : StagingRow) (t : List StagingRow)
      → by_id id t ≡ some r
      → by_id id (t ++ row ∷ []) ≡ some r
  unfolding find_first
  start-Final row [] h = cc
  start-Final row (x ∷ t) h = ground (arith, start-Final row t)

  serve-Final :
      (statement : StagingStatement) (t : List StagingRow)
      → by_id id t ≡ some r
      → by_id id (serve statement t) ≡ some r
  unfolding serve start
  serve-Final (started input new object_id now) t h = start-Final _ t h
  serve-Final (was_uploaded input now) t h =
      update_first-Final (set_uploaded input now) _ (λ x. ground arith)
        (rw (closed-uploading r.status closed) refl) t h
  serve-Final (has_failed i error now) t h =
      update_first-Final (set_failed error now) _ (λ x. ground arith) (rw closed refl) t h
  serve-Final (was_committed i now) t h =
      update_first-Final (set_committed now) _ (λ x. ground arith) (rw closed refl) t h

  -- A staging row that is committed or failed is final: whatever statements start writes, mark them
  -- uploaded, failed or committed, and in whatever order, its id finds it unchanged after them.
  pub serve_all-Final :
      (statements : List StagingStatement) (t : List StagingRow)
      → by_id id t ≡ some r
      → by_id id (serve_all statements t) ≡ some r
  unfolding serve_all
  serve_all-Final [] t h = h
  serve_all-Final (statement ∷ later) t h =
      serve_all-Final later (serve statement t) (serve-Final statement t h)
