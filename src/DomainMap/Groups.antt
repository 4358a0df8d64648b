-- ===== src/DomainMap/Groups.antt =====
-- About the counts by state of domain_map in src/app/domain/map_service.py.
use smart_procurement_backen.Prelude.{
  ℕ, ◌+◌, ◌≡◌, refl, ap, ◌∙◌, true, false, List, [], ◌∷◌, if◌then◌else◌, length, Bool-cases, inl,
  inr, arith,
}
use smart_procurement_backen.Table.{select}
use smart_procurement_backen.Models.Domain.{Observability, EntityRow}
use smart_procurement_backen.DomainMap.Overview.{same_state, count_state, group_states, sum_counts}

-- What the dict of the states says of one, nothing being none.
abbrev pub number : Observability → List (Observability × ℕ) → ℕ
number o [] = 0
number o ((state, n) ∷ groups) = if same_state state o then n else number o groups

sum-count_state :
    (o : Observability) (groups : List (Observability × ℕ))
    → sum_counts (count_state o groups) ≡ sum_counts groups + 1
sum-count_state o [] = refl
sum-count_state o ((state, n) ∷ groups) = elim (Bool-cases (same_state state o)) [
  | inl e ↦ rw e (omega arith)
  | inr e ↦ rw e (omega (arith, sum-count_state o groups))
]

pub sum-group_states : (rows : List EntityRow) → sum_counts (group_states rows) ≡ length rows
sum-group_states [] = refl
sum-group_states (row ∷ rows) =
    omega (arith, sum-count_state row.observability (group_states rows), sum-group_states rows)

same_state-eq : (a b : Observability) → same_state a b ≡ true → a ≡ b
same_state-eq a b h = ground arith

same_state_refl : (a : Observability) → same_state a a ≡ true
same_state_refl a = ground arith

number-count_state :
    (x o : Observability) (groups : List (Observability × ℕ))
    → number x (count_state o groups) ≡ (if same_state o x then 1 else 0) + number x groups
number-count_state x o [] = omega arith
number-count_state x o ((state, n) ∷ groups) = elim (Bool-cases (same_state state o)) [
  | inl e ↦
      let same = ap (λ y. same_state y x) (same_state-eq state o e) in
      elim (Bool-cases (same_state o x)) [
        | inl k ↦ rw (e, same, k) (omega arith)
        | inr k ↦ rw (e, same, k) (omega arith)
      ]
  | inr e ↦ elim (Bool-cases (same_state state x)) [
    | inl k ↦
        let apart : same_state o x ≡ false = elim (Bool-cases (same_state o x)) [
          | inr off ↦ off
          | inl on ↦ cc (
            e,
            same_state_refl state,
            ap (λ y. same_state state y) (same_state-eq state x k),
            ap (λ y. same_state state y) (same_state-eq o x on),
          )
        ] in
        rw (e, k, apart) (omega arith)
    | inr k ↦ rw (e, k) (number-count_state x o groups)
  ]
]

-- The dict counts the rows of each state.
pub number-group_states :
    (x : Observability) (rows : List EntityRow)
    → number x (group_states rows)
      ≡ length (select (λ (row : EntityRow). same_state row.observability x) rows)
number-group_states x [] = refl
number-group_states x (row ∷ rows) =
    number-count_state x row.observability (group_states rows)
    ∙ elim (Bool-cases (same_state row.observability x)) [
      | inl e ↦ rw e (omega (arith, number-group_states x rows))
      | inr e ↦ rw e (omega (arith, number-group_states x rows))
    ]
