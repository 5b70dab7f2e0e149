-- ===== src/Store/Table/Select.antt =====
-- Queries answer rows of the table.
use gdrive_s.Base.{
  ℕ, zero, suc, some, ◌≡◌, refl, Bool, true, false, List, [], ◌∷◌, All, any, not, ◌||◌, inl, inr,
  Bool-cases, arith,
}
use mathlib.Core.Option.{some-injective}
use mathlib.Core.Path.{subst}
use gdrive_s.Store.Table.{
  find_first, delete_first, update_first, select, insert_by, order_by, limit,
}

pub any-weaken {ℓ} :
    {A : Type ℓ} (p q : A → Bool)
    → ((r : A) → p r ≡ true → q r ≡ true)
    → (t : List A) → any p t ≡ true
    → any q t ≡ true
any-weaken p q implies [] h = cc
any-weaken p q implies (x ∷ t) h = ground (arith, implies x, any-weaken p q implies t)

module _ {ℓ κ} {A : Type ℓ} (P : A → Type κ) where
  All-select : (p : A → Bool) (t : List A) → All P t → All P (select p t)
  unfolding select
  All-select p [] h = tt
  All-select p (x ∷ t) (here, later) = elim (Bool-cases (p x)) [
    | inl e ↦ rw e (here, All-select p t later)
    | inr e ↦ rw e (All-select p t later)
  ]

  All-insert_by :
      (before : A → A → Bool) (row : A) (t : List A)
      → P row
      → All P t
      → All P (insert_by before row t)
  unfolding insert_by
  All-insert_by before row [] here h = (here, tt)
  All-insert_by before row (x ∷ t) here (first, later) = elim (Bool-cases (before x row)) [
    | inl e ↦ rw e (first, All-insert_by before row t here later)
    | inr e ↦ rw e (here, (first, later))
  ]

  All-order_by : (before : A → A → Bool) (t : List A) → All P t → All P (order_by before t)
  unfolding order_by
  All-order_by before [] h = tt
  All-order_by before (x ∷ t) (here, later) =
      All-insert_by before x _ here (All-order_by before t later)

  All-limit : (n : ℕ) (t : List A) → All P t → All P (limit n t)
  unfolding limit
  All-limit zero t h = tt
  All-limit (suc n) [] h = tt
  All-limit (suc n) (x ∷ t) (here, later) = (here, All-limit n t later)

  -- `SELECT … WHERE … ORDER BY … LIMIT …`
  pub All-page :
      (n : ℕ) (before : A → A → Bool) (p : A → Bool) (t : List A)
      → All P t
      → All P (limit n (order_by before (select p t)))
  All-page n before p t h = All-limit n _ (All-order_by before _ (All-select p t h))

pub delete_first-absent {ℓ} :
    {A : Type ℓ} (p : A → Bool) (t : List A) → any p t ≡ false → delete_first p t ≡ t
unfolding delete_first
delete_first-absent p [] h = refl
delete_first-absent p (x ∷ t) h = ground (arith, delete_first-absent p t)

pub All-find_first {ℓ κ} :
    {A : Type ℓ} (P : A → Type κ) (p : A → Bool) (t : List A) (r : A)
    → All P t
    → find_first p t ≡ some r
    → P r
unfolding find_first
All-find_first P p [] r h e = cc
All-find_first P p (x ∷ t) r (here, later) e = elim (Bool-cases (p x)) [
  | inl f ↦ subst P (some-injective _ _ (ground arith)) here
  | inr f ↦ All-find_first P p t r later (ground arith)
]

-- A deletion that picks no row with `q` leaves one, and so does an update that keeps `q`.
module _ {ℓ} {A : Type ℓ} (p q : A → Bool) where
  pub any-delete_other :
      (t : List A)
      → All (λ r. p r ≡ true → q r ≡ false) t
      → any q t ≡ true
      → any q (delete_first p t) ≡ true
  unfolding delete_first
  any-delete_other [] other h = cc
  any-delete_other (x ∷ t) (here, later) h = elim (Bool-cases (p x)) [
    | inl e ↦ ground (arith, here e)
    | inr e ↦ ground (arith, any-delete_other t later)
  ]

  pub any-update_same :
      (change : A → A)
      → ((r : A) → q (change r) ≡ q r)
      → (t : List A) → any q (update_first p change t) ≡ any q t
  unfolding update_first
  any-update_same change keeps [] = refl
  any-update_same change keeps (x ∷ t) = ground (arith, keeps x, any-update_same change keeps t)

  -- So does a query that drops no row with `q`.
  pub any-select : ((r : A) → q r ≡ true → p r ≡ true) → (t : List A) → any q (select p t) ≡ any q t
  unfolding select
  any-select keeps [] = refl
  any-select keeps (x ∷ t) = ground (arith, keeps x, any-select keeps t)

  pub All-not_any : (t : List A) → any q t ≡ false → All (λ r. q r ≡ false) t
  All-not_any [] h = tt
  All-not_any (x ∷ t) h = (ground arith, All-not_any t (ground arith))

module _ {ℓ κ} {A : Type ℓ} (P : A → Type κ) (p : A → Bool) where
  pub All-delete_first : (t : List A) → All P t → All P (delete_first p t)
  unfolding delete_first
  All-delete_first [] h = tt
  All-delete_first (x ∷ t) (here, later) = elim (Bool-cases (p x)) [
    | inl e ↦ rw e later
    | inr e ↦ rw e (here, All-delete_first t later)
  ]

  pub All-update_first :
      (change : A → A)
      → ((r : A) → P r → P (change r))
      → (t : List A) → All P t
      → All P (update_first p change t)
  unfolding update_first
  All-update_first change keeps [] h = tt
  All-update_first change keeps (x ∷ t) (here, later) = elim (Bool-cases (p x)) [
    | inl e ↦ rw e (keeps x here, later)
    | inr e ↦ rw e (here, All-update_first change keeps t later)
  ]

-- Sorting keeps the rows, and what is selected and what is not are all of them.
module _ {ℓ} {A : Type ℓ} (q : A → Bool) where
  any-insert_by :
      (before : A → A → Bool) (row : A) (t : List A)
      → any q (insert_by before row t) ≡ (q row || any q t)
  unfolding insert_by
  any-insert_by before row [] = refl
  any-insert_by before row (x ∷ t) = ground (arith, any-insert_by before row t)

  pub any-order_by : (before : A → A → Bool) (t : List A) → any q (order_by before t) ≡ any q t
  unfolding order_by
  any-order_by before [] = refl
  any-order_by before (x ∷ t) =
      ground (arith, any-insert_by before x (order_by before t), any-order_by before t)

  pub any-split :
      (p : A → Bool) (t : List A)
      → any q t ≡ (any q (select p t) || any q (select (λ r. not (p r)) t))
  unfolding select
  any-split p [] = refl
  any-split p (x ∷ t) = ground (arith, any-split p t)
