-- ===== src/Store/Table.antt =====
-- The SQL statements of the repositories, on a table as the list of its rows.
-- A condition that names a primary or unique key picks at most one row, so the statement acts on
-- the first row that it picks.
pub mod Found
pub mod Select
use mathlib.Core.Bool.{◌||◌}
use gdrive_s.Base.{
  ◌≡◌, refl, ap, Bool, true, false, ◌&&◌, Option, none, some, List, [], ◌∷◌, ◌++◌, any, ltb, ℕ,
  zero, suc, if◌then◌else◌, Bool-cases, inl, inr, arith, map,
}
use mathlib.Core.Option

module _ {ℓ} {A : Type ℓ} where
  -- `SELECT … WHERE key = ?`
  unfoldable pub find_first : (A → Bool) → List A → Option A
  find_first p [] = none
  find_first p (r ∷ t) = let later = find_first p t in if p r then some r else later

  -- `DELETE … WHERE key = ?`
  unfoldable pub delete_first : (A → Bool) → List A → List A
  delete_first p [] = []
  delete_first p (r ∷ t) = let rest = r ∷ delete_first p t in if p r then t else rest

  -- `UPDATE … SET … WHERE key = ?`
  unfoldable pub update_first : (A → Bool) → (A → A) → List A → List A
  update_first p change [] = []
  update_first p change (r ∷ t) =
      let rest = r ∷ update_first p change t in if p r then change r ∷ t else rest

  -- `UPDATE … SET … WHERE …`, when the condition may pick many rows.
  unfoldable pub update_all : (A → Bool) → (A → A) → List A → List A
  update_all p change [] = []
  update_all p change (r ∷ t) = (if p r then change r else r) ∷ update_all p change t

  -- Such a statement, and whether it changed a row.
  abbrev pub any_changed : (A → Bool) → (A → A) → List A → Bool × List A
  any_changed p change t = (any p t, update_first p change t)

  -- `INSERT … ON CONFLICT(key) DO NOTHING`
  unfoldable pub insert_new : (A → Bool) → A → List A → List A
  insert_new p row t = if any p t then t else t ++ row ∷ []

  -- `INSERT … ON CONFLICT(key) DO UPDATE SET …`
  unfoldable pub insert_or_update : (A → Bool) → A → (A → A) → List A → List A
  unfolding update_first
  insert_or_update p row change t = if any p t then update_first p change t else t ++ row ∷ []

  -- `SELECT … WHERE …`
  unfoldable pub select : (A → Bool) → List A → List A
  select p [] = []
  select p (r ∷ t) = let rest = select p t in if p r then r ∷ rest else rest

  -- `ORDER BY … ASC`, from a test whether a row sorts strictly before another.
  unfoldable pub insert_by : (A → A → Bool) → A → List A → List A
  insert_by before row [] = row ∷ []
  insert_by before row (r ∷ t) =
      let rest = r ∷ insert_by before row t in if before r row then rest else row ∷ r ∷ t

  unfoldable pub order_by : (A → A → Bool) → List A → List A
  unfolding insert_by
  order_by before [] = []
  order_by before (r ∷ t) = insert_by before r (order_by before t)

  -- `LIMIT n`
  unfoldable pub limit : ℕ → List A → List A
  limit zero t = []
  limit (suc n) [] = []
  limit (suc n) (r ∷ t) = r ∷ limit n t

  abbrev pub test_of : (A → Bool) → Option A → Bool
  test_of q none = false
  test_of q (some r) = q r

  pub any-append_row :
      (q : A → Bool) (row : A) (t : List A) → any q (t ++ row ∷ []) ≡ (any q t || q row)
  any-append_row q row [] = ground arith
  any-append_row q row (x ∷ t) = ground (arith, any-append_row q row t)

  pub any-update_all :
      (p q : A → Bool) (change : A → A)
      → ((r : A) → q (change r) ≡ q r)
      → (t : List A) → any q (update_all p change t) ≡ any q t
  unfolding update_all
  any-update_all p q change keeps [] = refl
  any-update_all p q change keeps (x ∷ t) =
      ground (arith, keeps x, any-update_all p q change keeps t)

module _ {ℓ} {A : Type ℓ} (p : A → Bool) where
  pub find_first-IsPicked : (t : List A) (r : A) → find_first p t ≡ some r → p r ≡ true
  unfolding find_first
  find_first-IsPicked [] r h = cc
  find_first-IsPicked (x ∷ t) r h = elim (Bool-cases (p x)) [
    | inl e ↦ ground arith
    | inr e ↦ find_first-IsPicked t r (ground arith)
  ]

  -- A test on the rows, in terms of the one that is picked and the others.
  pub any-found :
      (q : A → Bool) (t : List A) (r : A)
      → find_first p t ≡ some r
      → any q t ≡ (q r || any q (delete_first p t))
  unfolding find_first delete_first
  any-found q [] r h = cc
  any-found q (x ∷ t) r h = ground (arith, any-found q t r)

  pub any-update_first :
      (q : A → Bool) (change : A → A) (t : List A) (r : A)
      → find_first p t ≡ some r
      → any q (update_first p change t) ≡ (q (change r) || any q (delete_first p t))
  unfolding find_first delete_first update_first
  any-update_first q change [] r h = cc
  any-update_first q change (x ∷ t) r h = ground (arith, any-update_first q change t r)

  pub find_first-update :
      (change : A → A)
      → ((r : A) → p (change r) ≡ p r)
      → (t : List A) → find_first p (update_first p change t) ≡ Option.map change (find_first p t)
  unfolding find_first update_first
  find_first-update change keeps [] = refl
  find_first-update change keeps (x ∷ t) = elim (Bool-cases (p x)) [
    | inl e ↦ rw e (rw (keeps x) (rw e refl))
    | inr e ↦ rw e (rw e (find_first-update change keeps t))
  ]

  pub any-old :
      (q : A → Bool) (t : List A)
      → any q t ≡ (test_of q (find_first p t) || any q (delete_first p t))
  unfolding find_first delete_first
  any-old q [] = refl
  any-old q (x ∷ t) = ground (arith, any-old q t)

  pub any-update :
      (q : A → Bool) (change : A → A) (t : List A)
      → any q (update_first p change t)
        ≡ (test_of (λ r. q (change r)) (find_first p t) || any q (delete_first p t))
  unfolding find_first delete_first update_first
  any-update q change [] = refl
  any-update q change (x ∷ t) = ground (arith, any-update q change t)

  pub any-upsert :
      (q : A → Bool) (b : Bool) (row : A) (change : A → A) (t : List A)
      → q row ≡ b
      → ((r : A) → q (change r) ≡ b)
      → any q (insert_or_update p row change t) ≡ (b || any q (delete_first p t))
  unfolding insert_or_update update_first delete_first
  any-upsert q b row change [] at_row at_change = ground (arith)
  any-upsert q b row change (x ∷ t) at_row at_change =
      ground (arith, at_change x, any-upsert q b row change t at_row at_change)

  pub any-insert_new :
      (q : A → Bool) (row : A) (t : List A)
      → any p t ≡ false
      → any q (insert_new p row t) ≡ (any q t || q row)
  unfolding insert_new
  any-insert_new q row t h = rw h (any-append_row q row t)
