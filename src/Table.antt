-- ===== src/Table.antt =====
-- What the services use of the ORM: a table is the list of its rows in order of insertion, a query
-- selects rows by a Boolean condition, and an assignment to a loaded object rewrites its row.
pub mod Select
pub mod Update
use smart_procurement_backen.Prelude.{
  ℕ, Bool, Option, none, some, List, [], ◌∷◌, if◌then◌else◌, leb,
}
use smart_procurement_backen.Errors.{Result, ok, err, multiple_results}

module _ {ℓ} {A : Type ℓ} where
  -- select(T).where(p)
  abbrev pub select : (A → Bool) → List A → List A
  select p [] = []
  select p (x ∷ xs) = if p x then x ∷ select p xs else select p xs

  -- `scalar_one_or_none()` raises when there is more than one row.
  abbrev pub scalar_one_or_none : List A → Result (Option A)
  scalar_one_or_none [] = ok none
  scalar_one_or_none (x ∷ []) = ok (some x)
  scalar_one_or_none (x ∷ y ∷ xs) = err multiple_results

  -- The rows that satisfy `p` are rewritten by `f`.
  abbrev pub update : (A → Bool) → (A → A) → List A → List A
  update p f [] = []
  update p f (x ∷ xs) = (if p x then f x else x) ∷ update p f xs

  -- `.order_by(key)`: ascending; rows with the same key keep the order of the table.
  pub insert_by : (A → ℕ) → A → List A → List A
  insert_by key x [] = x ∷ []
  insert_by key x (y ∷ ys) = if leb (key x) (key y) then x ∷ y ∷ ys else y ∷ insert_by key x ys

  unfoldable pub order_by : (A → ℕ) → List A → List A
  unfolding insert_by
  order_by key [] = []
  order_by key (x ∷ xs) = insert_by key x (order_by key xs)
