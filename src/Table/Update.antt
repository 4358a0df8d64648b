-- ===== src/Table/Update.antt =====
-- What an assignment to a loaded row changes.
use smart_procurement_backen.Prelude.{
  ◌≡◌, refl, Bool, true, false, List, [], ◌∷◌, ap, All, Bool-cases, inl, inr, length, suc, ◌≤◌,
  arith,
}
use smart_procurement_backen.Table.{select, update}

module _ {ℓ} {A : Type ℓ} (p : A → Bool) (f : A → A) where
  -- A property is kept if the rewritten rows have it and the others keep it.
  pub All-update {κ η} :
      (P : A → Type κ) (Q : A → Type η)
      → ((x : A) → P x → p x ≡ true → Q (f x))
      → ((x : A) → P x → p x ≡ false → Q x)
      → (xs : List A) → All P xs
      → All Q (update p f xs)
  All-update P Q hit miss [] h = tt
  All-update P Q hit miss (x ∷ xs) h = elim (Bool-cases (p x)) [
    | inl e ↦ rw e (hit x h.0 e, All-update P Q hit miss xs h.1)
    | inr e ↦ rw e (miss x h.0 e, All-update P Q hit miss xs h.1)
  ]

  pub length-update : (xs : List A) → length (update p f xs) ≡ length xs
  length-update [] = refl
  length-update (x ∷ xs) = ap suc (length-update xs)

  -- A query whose condition the rewritten rows fail, before and after, does not see the update.
  pub select-update_miss :
      (q : A → Bool)
      → ((x : A) → p x ≡ true → q x ≡ false)
      → ((x : A) → p x ≡ true → q (f x) ≡ false)
      → (xs : List A) → select q (update p f xs) ≡ select q xs
  select-update_miss q before after [] = refl
  select-update_miss q before after (x ∷ xs) = elim (Bool-cases (p x)) [
    | inl e ↦ rw (e, before x e, after x e) (select-update_miss q before after xs)
    | inr e ↦ rw e (elim (Bool-cases (q x)) [
      | inl t ↦ rw t (ap (λ l. x ∷ l) (select-update_miss q before after xs))
      | inr t ↦ rw t (select-update_miss q before after xs)
    ])
  ]

  -- The same, where the condition fails on the rows of the table that are rewritten.
  pub select-update_absent :
      (q : A → Bool)
      → ((x : A) → q (f x) ≡ false)
      → (xs : List A) → All (λ x. p x ≡ true → q x ≡ false) xs
      → select q (update p f xs) ≡ select q xs
  select-update_absent q after [] h = refl
  select-update_absent q after (x ∷ xs) h = elim (Bool-cases (p x)) [
    | inl e ↦ rw (e, h.0 e, after x) (select-update_absent q after xs h.1)
    | inr e ↦ rw e (elim (Bool-cases (q x)) [
      | inl t ↦ rw t (ap (λ l. x ∷ l) (select-update_absent q after xs h.1))
      | inr t ↦ rw t (select-update_absent q after xs h.1)
    ])
  ]

  -- A query that tells no row from what it is rewritten to returns as many rows.
  pub length-select-update_same :
      (q : A → Bool)
      → ((x : A) → p x ≡ true → q (f x) ≡ q x)
      → (xs : List A) → length (select q (update p f xs)) ≡ length (select q xs)
  length-select-update_same q same [] = refl
  length-select-update_same q same (x ∷ xs) =
      let rest = length-select-update_same q same xs in
      elim (Bool-cases (p x)) [
        | inl e ↦
            rw (e, same x e)
              (elim (Bool-cases (q x)) [ inl t ↦ rw t (ap suc rest) | inr t ↦ rw t rest ])
        | inr e ↦ rw e (elim (Bool-cases (q x)) [ inl t ↦ rw t (ap suc rest) | inr t ↦ rw t rest ])
      ]

  -- A query that does not look at what is rewritten commutes with the update.
  pub select-update_same :
      (q : A → Bool)
      → ((x : A) → q (f x) ≡ q x)
      → (xs : List A) → select q (update p f xs) ≡ update p f (select q xs)
  select-update_same q same [] = refl
  select-update_same q same (x ∷ xs) = elim (Bool-cases (p x)) [
    | inl e ↦
        rw (e, same x)
          (elim (Bool-cases (q x)) [
            | inl t ↦ rw (t, e) (ap (λ l. f x ∷ l) (select-update_same q same xs))
            | inr t ↦ rw t (select-update_same q same xs)
          ])
    | inr e ↦ rw e (elim (Bool-cases (q x)) [
      | inl t ↦ rw (t, e) (ap (λ l. x ∷ l) (select-update_same q same xs))
      | inr t ↦ rw t (select-update_same q same xs)
    ])
  ]

module _ {ℓ} {A : Type ℓ} (p : A → Bool) (f : A → A) (q : A → Bool)
    (off : (x : A) → q (f x) ≡ false) where
  -- A query that no rewritten row meets returns at most what it did.
  pub length-select-update :
      (xs : List A) → length (select q (update p f xs)) ≤ length (select q xs)
  length-select-update [] = omega arith
  length-select-update (x ∷ xs) =
      let rest = length-select-update xs in
      elim (Bool-cases (p x)) [
        | inl e ↦
            rw (e, off x)
              (elim (Bool-cases (q x)) [
                | inl t ↦ rw t (omega (arith, rest))
                | inr t ↦ rw t (omega (arith, rest))
              ])
        | inr e ↦ rw e (elim (Bool-cases (q x)) [
          | inl t ↦ rw t (omega (arith, rest))
          | inr t ↦ rw t (omega (arith, rest))
        ])
      ]
