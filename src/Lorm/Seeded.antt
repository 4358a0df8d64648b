-- ===== src/Lorm/Seeded.antt =====
-- About the capabilities that src/app/lorm/seed.py leaves.
use smart_procurement_backen.Prelude.{
  ℕ, ◌+◌, ◌≡◌, refl, String, Bool, true, List, [], ◌∷◌, ◌++◌, arith, if◌then◌else◌, ◌==◌, sym, ◌∙◌,
  ap, ==_refl, eq_iff, All, Bool-cases, inl, inr,
}
use mathlib.Core.List.{append-nil, append_assoc}
use smart_procurement_backen.Errors.{Result, ok}
use smart_procurement_backen.Table.{select}
use smart_procurement_backen.Table.Select.{select-append}
use smart_procurement_backen.Models.Basic.{RowId}
use smart_procurement_backen.Models.Lorm.{Capability}
use smart_procurement_backen.Session.{Session}
use smart_procurement_backen.Lorm.Seed.{
  SeedEntry, seed_levels, default_tolerances, default_uncertainty_threshold, key_in, seed_loop,
  seed_capabilities,
}

-- How many entries are missing.
pub missing : List Capability → List SeedEntry → ℕ
missing existing [] = 0
missing existing ((key, level, allowed) ∷ entries) =
    (if key_in key existing then 0 else 1) + missing existing entries

-- The rows that a run inserts, for the uuids it draws.
pub inserted : RowId → List Capability → List SeedEntry → (ℕ → RowId) → ℕ → List Capability
inserted enterprise_id existing [] uuids n = []
inserted enterprise_id existing ((key, level, l5_allowed) ∷ entries) uuids n =
    if key_in key existing
    then inserted enterprise_id existing entries uuids n
    else (record {
      id = uuids n;
      enterprise_id = enterprise_id;
      key = key;
      level = level;
      l5_allowed = l5_allowed;
      verification_tolerances = default_tolerances;
      uncertainty_threshold = default_uncertainty_threshold;
    }
        ∷ inserted enterprise_id existing entries uuids (n + 1))

-- The session after rows were inserted and uuids were drawn.
abbrev pub seeded : Session → List Capability → ℕ → Session
seeded s rows n = record s { db = record s.db { capabilities = rows }; drawn = n }

seeded-eq :
    (s : Session) {a b m n : ℕ} {xs ys : List Capability}
    → a ≡ b
    → xs ≡ ys
    → m ≡ n
    → ◌≡◌ {A = Result ℕ × Session} (ok a, seeded s xs m) (ok b, seeded s ys n)
seeded-eq s p q r = λ i. (ok (p i), seeded s (q i) (r i))

-- The loop inserts exactly the missing entries, in order, and counts them.
seed_loop-lem :
    (enterprise_id : RowId) (existing : List Capability) (entries : List SeedEntry) (created : ℕ)
    (s : Session)
    → seed_loop enterprise_id existing entries created s ≡ (
      ok (created + missing existing entries),
      seeded s
          (s.capabilities ++ inserted enterprise_id existing entries s.uuids s.drawn)
          (s.drawn + missing existing entries),
    )
unfolding seed_loop missing inserted
seed_loop-lem enterprise_id existing [] created s =
    seeded-eq s (omega arith) (sym (append-nil s.capabilities)) (omega arith)
seed_loop-lem enterprise_id existing ((key, level, l5_allowed) ∷ entries) created s =
    elim (Bool-cases (key_in key existing)) [
      | inl old ↦ rw old (
          seed_loop-lem enterprise_id existing entries created s
          ∙ seeded-eq s (omega arith) refl (omega arith))
      | inr new ↦ rw new (
          let row : Capability = record {
            id = s.uuids s.drawn;
            enterprise_id = enterprise_id;
            key = key;
            level = level;
            l5_allowed = l5_allowed;
            verification_tolerances = default_tolerances;
            uncertainty_threshold = default_uncertainty_threshold;
          } in
          seed_loop-lem enterprise_id existing entries (created + 1)
            (seeded s (s.capabilities ++ (row ∷ [])) (s.drawn + 1))
          ∙ seeded-eq s (omega arith)
              (append_assoc s.capabilities (row ∷ [])
                (inserted enterprise_id existing entries s.uuids (s.drawn + 1)))
              (omega arith))
    ]

-- A key of the entries is there afterwards: it was there, or its row is inserted.
module _ (enterprise_id : RowId) where
  abbrev pub of_enterprise : Capability → Bool
  of_enterprise c = c.enterprise_id == enterprise_id

  key_in-append_left :
      (key : String) (xs ys : List Capability) → key_in key xs ≡ true → key_in key (xs ++ ys) ≡ true
  key_in-append_left key [] ys h = cc
  key_in-append_left key (x ∷ xs) ys h = ground (arith, key_in-append_left key xs ys)

  key_in-append_right :
      (key : String) (xs ys : List Capability) → key_in key ys ≡ true → key_in key (xs ++ ys) ≡ true
  key_in-append_right key [] ys h = h
  key_in-append_right key (x ∷ xs) ys h = ground (arith, key_in-append_right key xs ys h)

  -- Every entry has a row in the list.
  abbrev HasKeys : List Capability → List SeedEntry → Type 0
  HasKeys rows = All (λ e. key_in e.0 rows ≡ true)

  HasKeys-cons :
      (row : Capability) (rows : List Capability) (entries : List SeedEntry)
      → HasKeys rows entries
      → HasKeys (row ∷ rows) entries
  HasKeys-cons row rows [] h = tt
  HasKeys-cons row rows (e ∷ entries) h = (ground arith, HasKeys-cons row rows entries h.1)

  select-inserted :
      (existing : List Capability) (entries : List SeedEntry) (uuids : ℕ → RowId) (n : ℕ)
      → select of_enterprise (inserted enterprise_id existing entries uuids n)
        ≡ inserted enterprise_id existing entries uuids n
  unfolding inserted
  select-inserted existing [] uuids n = refl
  select-inserted existing ((key, level, l5_allowed) ∷ entries) uuids n =
      elim (Bool-cases (key_in key existing)) [
        | inl old ↦ rw old (select-inserted existing entries uuids n)
        | inr new ↦
            rw (new, ==_refl enterprise_id)
              (ap
                (λ l.
                  record {
                    id = uuids n;
                    enterprise_id = enterprise_id;
                    key = key;
                    level = level;
                    l5_allowed = l5_allowed;
                    verification_tolerances = default_tolerances;
                    uncertainty_threshold = default_uncertainty_threshold;
                  }
                  ∷ l)
                (select-inserted existing entries uuids (n + 1)))
      ]

  -- The loop leaves a row for each of its entries.
  covered :
      (existing : List Capability) (entries : List SeedEntry) (uuids : ℕ → RowId) (n : ℕ)
      (before rows : List Capability)
      → rows ≡ existing ++ (before ++ inserted enterprise_id existing entries uuids n)
      → HasKeys rows entries
  unfolding inserted
  covered existing [] uuids n before rows all = tt
  covered existing ((key, level, l5_allowed) ∷ entries) uuids n before rows all =
      elim (Bool-cases (key_in key existing)) [
        | inl old ↦ (
          rw all (key_in-append_left key existing _ old),
          covered existing entries uuids n before rows (rw old at all),
        )
        | inr new ↦
            let row : Capability = record {
              id = uuids n;
              enterprise_id = enterprise_id;
              key = key;
              level = level;
              l5_allowed = l5_allowed;
              verification_tolerances = default_tolerances;
              uncertainty_threshold = default_uncertainty_threshold;
            } in
            let rest = inserted enterprise_id existing entries uuids (n + 1) in
            let here : rows ≡ existing ++ (before ++ (row ∷ rest)) = rw new at all in
            (
              rw here (
                  key_in-append_right key existing (before ++ (row ∷ rest)) (
                    key_in-append_right key before (row ∷ rest)
                      (ground (arith, (eq_iff key key).1 refl)))),
              covered existing entries uuids (n + 1) (before ++ (row ∷ [])) rows
                  (here ∙ ap (λ l. existing ++ l) (sym (append_assoc before (row ∷ []) rest))),
            )
      ]

  seed_loop-none :
      (existing : List Capability) (entries : List SeedEntry) (created : ℕ) (s : Session)
      → HasKeys existing entries
      → seed_loop enterprise_id existing entries created s ≡ (ok created, s)
  unfolding seed_loop
  seed_loop-none existing [] created s h = refl
  seed_loop-none existing ((key, level, l5_allowed) ∷ entries) created s h =
      rw h.0 (seed_loop-none existing entries created s h.1)

  -- Seeding creates the missing capabilities, and a second run creates none and changes nothing.
  pub seed_capabilities-again :
      (s : Session)
      → let s' = (seed_capabilities enterprise_id s).1 in
        ((seed_capabilities enterprise_id s).0
          ≡ ok (missing (select of_enterprise s.capabilities) seed_levels))
        × (seed_capabilities enterprise_id s' ≡ (ok 0, s'))
  unfolding seed_capabilities
  seed_capabilities-again s =
      let existing = select of_enterprise s.capabilities in
      let rows = s.capabilities ++ inserted enterprise_id existing seed_levels s.uuids s.drawn in
      let s' = seeded s rows (s.drawn + missing existing seed_levels) in
      let first = seed_loop-lem enterprise_id existing seed_levels 0 s in
      let all : HasKeys (select of_enterprise rows) seed_levels =
        covered existing seed_levels s.uuids s.drawn [] (select of_enterprise rows) (
          select-append of_enterprise s.capabilities
            (inserted enterprise_id existing seed_levels s.uuids s.drawn)
          ∙ ap (λ l. existing ++ l) (select-inserted existing seed_levels s.uuids s.drawn)) in
      rw first
        (ap ok (omega arith), seed_loop-none (select of_enterprise rows) seed_levels 0 s' all)
