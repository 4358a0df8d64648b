-- ===== src/Table/Select.antt =====
-- What a selection returns.
use mathlib.Core.Path.{subst}
use smart_procurement_backen.Prelude.{
  ℕ, ◌≡◌, Bool, true, false, List, [], ◌∷◌, ◌++◌, All, IsIn, sym, Bool-cases, inl, inr, ap, leb,
  length, ◌≤◌, arith, refl,
}
use smart_procurement_backen.Errors.{ok}
use smart_procurement_backen.Prelude.{none, some}
use smart_procurement_backen.Table.{select, scalar_one_or_none, insert_by, order_by}

module _ {ℓ} {A : Type ℓ} (p : A → Bool) where
  -- Every selected row meets the condition.
  pub select-All : (xs : List A) → All (λ x. p x ≡ true) (select p xs)
  select-All [] = tt
  select-All (x ∷ xs) = elim (Bool-cases (p x)) [
    | inl e ↦ rw e (e, select-All xs)
    | inr e ↦ rw e (select-All xs)
  ]

  -- What holds of every row holds of every selected row.
  pub All-select {κ} : (P : A → Type κ) (xs : List A) → All P xs → All P (select p xs)
  All-select P [] h = tt
  All-select P (x ∷ xs) h = elim (Bool-cases (p x)) [
    | inl e ↦ rw e (h.0, All-select P xs h.1)
    | inr e ↦ rw e (All-select P xs h.1)
  ]

  -- An empty selection: no row meets the condition.
  pub select-eq-nil : (xs : List A) → select p xs ≡ [] → All (λ x. p x ≡ false) xs
  select-eq-nil [] h = tt
  select-eq-nil (x ∷ xs) h = elim (Bool-cases (p x)) [
    | inl e ↦ cc (rw e at h)
    | inr e ↦ (e, select-eq-nil xs (rw e at h))
  ]

  pub select-none : (xs : List A) → All (λ x. p x ≡ false) xs → select p xs ≡ []
  select-none [] h = refl
  select-none (x ∷ xs) h = rw h.0 (select-none xs h.1)

  absent-cases :
      (a : A) (xs : List A) → All (λ x. p x ≡ false) xs → All (λ x. p x ≡ true → x ≡ a) xs
  absent-cases a [] h = tt
  absent-cases a (x ∷ xs) h = (λ e. cc, absent-cases a xs h.1)

  -- A selection of a single row: no other row meets the condition.
  pub select-eq-one :
      (a : A) (xs : List A) → select p xs ≡ a ∷ [] → All (λ x. p x ≡ true → x ≡ a) xs
  select-eq-one a [] h = tt
  select-eq-one a (x ∷ xs) h = elim (Bool-cases (p x)) [
    | inl e ↦ (λ _. cc (rw e at h), absent-cases a xs (select-eq-nil xs (cc (rw e at h))))
    | inr e ↦ (λ f. cc, select-eq-one a xs (rw e at h))
  ]

  pub select-append : (xs ys : List A) → select p (xs ++ ys) ≡ select p xs ++ select p ys
  select-append [] ys = refl
  select-append (x ∷ xs) ys = elim (Bool-cases (p x)) [
    | inl e ↦ rw e (ap (λ t. x ∷ t) (select-append xs ys))
    | inr e ↦ rw e (select-append xs ys)
  ]

-- A row that a query returned met the condition, and was the only one.
module _ {ℓ} {A : Type ℓ} where
  pub scalar-some : (rows : List A) (a : A) → scalar_one_or_none rows ≡ ok (some a) → rows ≡ a ∷ []
  scalar-some [] a h = cc
  scalar-some (x ∷ []) a h = cc
  scalar-some (x ∷ y ∷ xs) a h = cc

  pub scalar-none : (rows : List A) → scalar_one_or_none rows ≡ ok none → rows ≡ []
  scalar-none [] h = refl
  scalar-none (x ∷ []) h = cc
  scalar-none (x ∷ y ∷ xs) h = cc

  pub insert_by-All {κ} :
      (P : A → Type κ) (key : A → ℕ) (x : A) (xs : List A)
      → P x
      → All P xs
      → All P (insert_by key x xs)
  unfolding insert_by
  insert_by-All P key x [] h hs = (h, tt)
  insert_by-All P key x (y ∷ ys) h hs = elim (Bool-cases (leb (key x) (key y))) [
    | inl e ↦ rw e (h, hs)
    | inr e ↦ rw e (hs.0, insert_by-All P key x ys h hs.1)
  ]

  pub order_by-All {κ} :
      (P : A → Type κ) (key : A → ℕ) (xs : List A) → All P xs → All P (order_by key xs)
  unfolding order_by
  order_by-All P key [] h = tt
  order_by-All P key (x ∷ xs) h =
      insert_by-All P key x (order_by key xs) h.0 (order_by-All P key xs h.1)

module _ {ℓ κ} {A : Type ℓ} where
  -- What holds of the rows that meet the condition holds of every selected row.
  pub select-All_if :
      (p : A → Bool) (P : A → Type κ) (xs : List A)
      → All (λ x. p x ≡ true → P x) xs
      → All P (select p xs)
  select-All_if p P [] h = tt
  select-All_if p P (x ∷ xs) h = elim (Bool-cases (p x)) [
    | inl e ↦ rw e (h.0 e, select-All_if p P xs h.1)
    | inr e ↦ rw e (select-All_if p P xs h.1)
  ]

module _ {ℓ} {A : Type ℓ} where
  -- The first selected row is in the table and meets the condition.
  pub select-IsIn :
      (p : A → Bool) (a : A) (xs ys : List A) → select p xs ≡ a ∷ ys → IsIn a xs × (p a ≡ true)
  select-IsIn p a [] ys h = cc
  select-IsIn p a (x ∷ xs) ys h = elim (Bool-cases (p x)) [
    | inl e ↦
        let same : x ≡ a = cc (rw e at h) in
        (subst (λ y. IsIn a (y ∷ xs)) (sym same) IsIn.here, subst (λ y. p y ≡ true) same e)
    | inr e ↦ let (i, q) = select-IsIn p a xs ys (rw e at h) in (IsIn.there i, q)
  ]

  IsIn-select : (p : A → Bool) (a : A) (xs : List A) → IsIn a xs → p a ≡ true → IsIn a (select p xs)
  IsIn-select p a [] i e = elim i [ ]
  IsIn-select p a (x ∷ xs) IsIn.here e = rw e IsIn.here
  IsIn-select p a (x ∷ xs) (IsIn.there i) e = elim (Bool-cases (p x)) [
    | inl t ↦ rw t (IsIn.there (IsIn-select p a xs i e))
    | inr t ↦ rw t (IsIn-select p a xs i e)
  ]

  only-one : (a : A) (ys : List A) → IsIn a ys → length ys ≤ 1 → ys ≡ a ∷ []
  only-one a [] i h = elim i [ ]
  only-one a (y ∷ []) IsIn.here h = refl
  only-one a (y ∷ []) (IsIn.there i) h = elim i [ ]
  only-one a (y ∷ z ∷ ys) i h = absurd (omega (arith, h))

  -- A row that meets a condition which at most one row meets is the whole selection.
  pub select-only :
      (p : A → Bool) (a : A) (xs : List A)
      → IsIn a xs
      → p a ≡ true
      → length (select p xs) ≤ 1
      → select p xs ≡ a ∷ []
  select-only p a xs i e h = only-one a (select p xs) (IsIn-select p a xs i e) h
