-- ===== src/DomainMap/Sources.antt =====
-- About the texts of sources of domain_map in src/app/domain/map_service.py.
use smart_procurement_backen.Prelude.{
  ◌≡◌, refl, ap, ◌∙◌, String, Bool, true, not, ◌&&◌, ◌||◌, List, [], ◌∷◌, map, str_eq, eq_iff, any,
  Bool-cases, inl, inr,
}
use smart_procurement_backen.Table.{select}
use smart_procurement_backen.Pagination.{is_empty}

pub any-nonempty :
    (x : String) (xs : List String)
    → any (str_eq x) (select (λ s. not (is_empty s)) xs) ≡ (not (is_empty x) && any (str_eq x) xs)
any-nonempty x [] = elim (Bool-cases (is_empty x)) [ inl e ↦ rw e refl | inr e ↦ rw e refl ]
any-nonempty x (s ∷ xs) =
    let ih = any-nonempty x xs in
    let hit : str_eq x s ≡ true → is_empty x ≡ is_empty s = λ h. ap is_empty ((eq_iff x s).0 h) in
    elim (Bool-cases (is_empty s)) [
      | inl e ↦ elim (Bool-cases (str_eq x s)) [
        | inl k ↦ rw (e, k, hit k ∙ e) (rw (hit k ∙ e) at ih)
        | inr k ↦ rw (e, k) ih
      ]
      | inr e ↦ elim (Bool-cases (str_eq x s)) [
        | inl k ↦ rw (e, k, hit k ∙ e) refl
        | inr k ↦ rw (e, k) ih
      ]
    ]

pub any-map {ℓ} :
    {A B : Type ℓ} (f : A → B) (p : B → Bool) (xs : List A)
    → any p (map f xs) ≡ any (λ x. p (f x)) xs
any-map f p [] = refl
any-map f p (x ∷ xs) = ap (λ b. p (f x) || b) (any-map f p xs)
