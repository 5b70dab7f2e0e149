-- ===== src/Store/Table/Found.antt =====
-- What a key finds after a statement.
use mathlib.Core.Option
use gdrive_s.Base.{
  ◌≡◌, refl, Bool, true, false, Option, none, some, List, [], ◌∷◌, ◌++◌, any, if◌then◌else◌, arith,
}
use gdrive_s.Store.Table.{find_first, update_first, update_all, insert_new, insert_or_update}

module _ {ℓ} {A : Type ℓ} (p : A → Bool) where
  -- The row that an insert with `DO UPDATE` leaves.
  abbrev pub upserted_row : Option A → A → (A → A) → A
  upserted_row none row change = row
  upserted_row (some r) row change = change r

  pub find_first-upsert :
      (row : A) (change : A → A)
      → p row ≡ true
      → ((r : A) → p (change r) ≡ p r)
      → (t : List A)
      → find_first p (insert_or_update p row change t)
        ≡ some (upserted_row (find_first p t) row change)
  unfolding find_first insert_or_update update_first
  find_first-upsert row change at_row keeps [] = ground arith
  find_first-upsert row change at_row keeps (x ∷ t) =
      ground (arith, keeps x, find_first-upsert row change at_row keeps t)

  pub find_first-append_row :
      (row : A) (t : List A)
      → any p t ≡ false
      → p row ≡ true
      → find_first p (t ++ row ∷ []) ≡ some row
  unfolding find_first
  find_first-append_row row [] h at_row = ground arith
  find_first-append_row row (x ∷ t) h at_row = ground (arith, find_first-append_row row t)

  pub find_first-insert_new :
      (row : A) (t : List A)
      → any p t ≡ false
      → p row ≡ true
      → find_first p (insert_new p row t) ≡ some row
  unfolding insert_new
  find_first-insert_new row t h at_row = rw h (find_first-append_row row t h at_row)

  pub find_first-update_all :
      (q : A → Bool) (change : A → A)
      → ((r : A) → p (change r) ≡ p r)
      → (t : List A)
      → find_first p (update_all q change t)
        ≡ Option.map (λ r. if q r then change r else r) (find_first p t)
  unfolding find_first update_all
  find_first-update_all q change keeps [] = refl
  find_first-update_all q change keeps (x ∷ t) =
      ground (arith, keeps x, find_first-update_all q change keeps t)
