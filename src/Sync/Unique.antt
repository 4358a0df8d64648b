-- ===== src/Sync/Unique.antt =====
-- About the canonical rows for each identity in src/app/integration/sync.py.
use smart_procurement_backen.Prelude.{
  and_parts, ◌≡◌, refl, sym, ◌∙◌, ap, String, Bool, true, false, ◌&&◌, Option, none, some, List, [],
  ◌∷◌, ◌++◌, ◌==◌, ==_iff, str_eq, any, arith, Bool-cases, inl, inr, length-append, Option-cases,
}
use smart_procurement_backen.Prelude.Dict.{get}
use smart_procurement_backen.Table.{select, update}
use smart_procurement_backen.Table.Select.{select-append}
use smart_procurement_backen.Table.Update.{length-update, select-update_same}
use smart_procurement_backen.Models.Basic.{RowId, Time}
use smart_procurement_backen.Models.Domain.{
  Entity, entity_index, columns_of, Cells, Cell, same_value, Provenance, EntityRow,
}
use smart_procurement_backen.Models.Analysis.{SignalType}
use smart_procurement_backen.Session.{Db, Session, after, pure}
use smart_procurement_backen.Session.Keeps.{Keeps, after-Keeps, >>=-Keeps}
use smart_procurement_backen.Sync.Records.{Texts}
use smart_procurement_backen.Sync.Specs.{Attr, given, linked, Resolved, spec_of, signal_watch}
use smart_procurement_backen.Sync.Upsert.{
  add_signal, diff_value, diff_watched, diff_signal, upsert_found, coerced_of, upsert,
}
use smart_procurement_backen.Sync.Rows.{
  same_identity, is_existing, is_raw, with_defaults, new_row, updated, has_row_id, find_existing,
  insert_row, row_error, has_unknown, update_row,
}
use smart_procurement_backen.Sync.References.{value_of}
use smart_procurement_backen.Sync.Keyed.{
  IsKeyed, entity_index-eq, same_identity-Agree, same_identity-coerced, Agree-join,
  same_identity-cells, with_defaults-Agree, assign_all-Agree, identity-All,
}

-- The same columns of the identity select the same rows.
select-identity :
    (i : RowId) (e : Entity) (a b : Cells) (rows : List EntityRow)
    → ((cells : Cells)
        → same_identity (spec_of e).identity a cells ≡ same_identity (spec_of e).identity b cells)
    → select (is_existing i e a) rows ≡ select (is_existing i e b) rows
select-identity i e a b [] h = refl
select-identity i e a b (r ∷ rows) h = rw (h r.cells) (elim (Bool-cases (is_existing i e b r)) [
  | inl t ↦ rw t (ap (λ l. r ∷ l) (select-identity i e a b rows h))
  | inr t ↦ rw t (select-identity i e a b rows h)
])

-- A row that matches another identity has that one too.
select-new :
    (i i' : RowId) (e e' : Entity) (a b : Cells) (p : Provenance) (id : RowId)
    (rows : List EntityRow)
    → is_existing i' e' b (new_row i e a p id) ≡ true
    → select (is_existing i e a) rows ≡ []
    → select (is_existing i' e' b) rows ≡ []
select-new i i' e e' a b p id rows own absent =
    let (own_row, same) =
      and_parts (i == i' && entity_index e == entity_index e')
        (same_identity (spec_of e').identity b (new_row i e a p id).cells) own in
    let (own_i, own_e) = and_parts (i == i') (entity_index e == entity_index e') own_row in
    let eq_i : i ≡ i' = (==_iff i i').0 own_i in
    let eq_e : e ≡ e' = entity_index-eq e e' own_e in
    let same' : same_identity (spec_of e).identity b (new_row i e a p id).cells ≡ true =
      rw (sym eq_e) at same in
    rw (sym eq_i, sym eq_e)
      (sym (
          select-identity i e a b rows (λ cells.
            same_identity-coerced (spec_of e).identity a b cells (
              Agree-join (spec_of e).identity (new_row i e a p id).cells a b
                (with_defaults-Agree e a)
                (same_identity-Agree (spec_of e).identity b (new_row i e a p id).cells same'))))
        ∙ absent)

new_row-IsKeyed :
    (i : RowId) (e : Entity) (a : Cells) (p : Provenance) (id : RowId) (rows : List EntityRow)
    → select (is_existing i e a) rows ≡ []
    → IsKeyed rows
    → IsKeyed (rows ++ (new_row i e a p id ∷ []))
new_row-IsKeyed i e a p id rows absent h i' e' b =
    rw (select-append (is_existing i' e' b) rows (new_row i e a p id ∷ []))
      (elim (Bool-cases (is_existing i' e' b (new_row i e a p id))) [
        | inl own ↦ rw (select-new i i' e e' a b p id rows own absent, own) (omega arith)
        | inr other ↦
            rw other
              (rw (length-append (select (is_existing i' e' b) rows) []) (omega (arith, h i' e' b)))
      ])

off : (a x y : Bool) → (a && false && x) ≡ (a && false && y)
off true x y = refl
off false x y = refl

-- An update does not change what a query for an identity selects.
updated-is_existing :
    (a : Cells) (p : Provenance) (i : RowId) (e : Entity) (b : Cells) (row : EntityRow)
    → is_existing i e b (updated a p row) ≡ is_existing i e b row
updated-is_existing a p i e b row = elim (Bool-cases (entity_index row.entity == entity_index e)) [
  | inr other ↦ rw other (
      off (row.enterprise_id == i) (same_identity (spec_of e).identity b (updated a p row).cells)
        (same_identity (spec_of e).identity b row.cells))
  | inl own ↦
      let same : row.entity ≡ e = entity_index-eq row.entity e own in
      ap (λ t. (row.enterprise_id == i) && (entity_index row.entity == entity_index e) && t)
        (same_identity-cells (spec_of e).identity b (updated a p row).cells row.cells (
          rw (sym same) (
            assign_all-Agree (spec_of row.entity).identity (spec_of row.entity).identity
              (columns_of row.entity) a row.cells (identity-All row.entity))))
]

updated-IsKeyed :
    (a : Cells) (p : Provenance) (id : RowId) (rows : List EntityRow)
    → IsKeyed rows
    → IsKeyed (update (has_row_id id) (updated a p) rows)
updated-IsKeyed a p id rows h i e b =
    rw
      (select-update_same (has_row_id id) (updated a p) (is_existing i e b)
        (updated-is_existing a p i e b) rows)
      (rw (length-update (has_row_id id) (updated a p) (select (is_existing i e b) rows)) (h i e b))

abbrev pub HasKeys : Db → Type 0
HasKeys db = IsKeyed db.entities

insert_row-IsKeyed :
    (i : RowId) (e : Entity) (a : Cells) (p : Provenance) (s : Session)
    → select (is_existing i e a) s.entities ≡ []
    → IsKeyed s.entities
    → IsKeyed (insert_row i e a p s).1.entities
unfolding insert_row
insert_row-IsKeyed i e a p s absent h = elim (Bool-cases (has_unknown (columns_of e) a)) [
  | inl bad ↦ rw bad h
  | inr good ↦
      rw good (elim (Option-cases (row_error (columns_of e) (with_defaults (columns_of e) a))) [
        | inr (x, wrong) ↦ rw (wrong, after) h
        | inl fine ↦
            rw (fine, after) (new_row-IsKeyed i e a p (s.uuids s.drawn) s.entities absent h)
      ])
]

update_row-Keeps :
    (e : Entity) (a : Cells) (p : Provenance) (row : EntityRow)
    → Keeps HasKeys (update_row e a p row)
unfolding update_row
update_row-Keeps e a p row s h =
    elim (Bool-cases (any (λ (entry : String × Option Cell). str_eq entry.0 "enterprise_id") a)) [
      | inl bad ↦ rw bad h
      | inr good ↦ rw good (elim (Option-cases (row_error (columns_of e) (updated a p row).cells)) [
        | inr (x, wrong) ↦ rw (wrong, after) h
        | inl fine ↦ rw (fine, after) (updated-IsKeyed a p row.id s.entities h)
      ])
    ]

-- A signal leaves the canonical rows.
abbrev pub Has : List EntityRow → Db → Type 0
Has rows db = db.entities ≡ rows

module _ (t : Texts) where
  pub add_signal-entities :
      (i : RowId) (e : Entity) (attr : String) (y : SignalType) (old new : Option Cell)
      (resolved : Resolved) (d : RowId) (at : Time) (s : Session)
      → (add_signal t i e attr y old new resolved d at s).1.entities ≡ s.entities
  unfolding add_signal
  add_signal-entities i e attr y old new resolved d at s =
      go (get "item_id" resolved) (get "supplier_id" resolved) refl refl
    where
      go :
          (item supplier : Option Attr)
          → get "item_id" resolved ≡ item
          → get "supplier_id" resolved ≡ supplier
          → (add_signal t i e attr y old new resolved d at s).1.entities ≡ s.entities
      go (some (given x)) supplier p q = rw (p, after) refl
      go none (some (given x)) p q = rw (p, q, after) refl
      go none none p q = rw (p, q, after) refl
      go none (some (linked x)) p q = rw (p, q, after) refl
      go (some (linked z)) (some (given x)) p q = rw (p, q, after) refl
      go (some (linked z)) none p q = rw (p, q, after) refl
      go (some (linked z)) (some (linked x)) p q = rw (p, q, after) refl

  diff_value-entities :
      (i : RowId) (e : Entity) (attr : String) (y : SignalType) (row : EntityRow)
      (new : Option (Option Cell)) (resolved : Resolved) (d : RowId) (at : Time) (s : Session)
      → (diff_value t i e attr y row new resolved d at s).1.entities ≡ s.entities
  unfolding diff_value
  diff_value-entities i e attr y row none resolved d at s = refl
  diff_value-entities i e attr y row (some new) resolved d at s =
      elim (Bool-cases (same_value (value_of attr row.cells) new)) [
        | inl same ↦ rw same refl
        | inr other ↦
            rw other (add_signal-entities i e attr y (value_of attr row.cells) new resolved d at s)
      ]

  diff_signal-entities :
      (i : RowId) (e : Entity) (row : EntityRow) (a : Cells) (resolved : Resolved) (d : RowId)
      (at : Time) (s : Session)
      → (diff_signal t i e row a resolved d at s).1.entities ≡ s.entities
  unfolding diff_signal diff_watched
  diff_signal-entities i e row a resolved d at s = go (signal_watch e)
    where
      go :
          (w : Option (String × SignalType))
          → (diff_watched t i e w row a resolved d at s).1.entities ≡ s.entities
      go none = refl
      go (some (attr, y)) = diff_value-entities i e attr y row (get attr a) resolved d at s

  -- Writing a record keeps at most one row for each identity.
  pub upsert-Keeps :
      (i : RowId) (e : Entity) (resolved : Resolved) (p : Provenance)
      → Keeps HasKeys (upsert t i e resolved p)
  unfolding upsert upsert_found find_existing
  upsert-Keeps i e resolved p s h =
      elim (Bool-cases (any (λ c. is_raw (value_of c a)) (spec_of e).identity)) [
        | inl bad ↦ rw (bad, after) h
        | inr good ↦ go (select (is_existing i e a) s.entities) refl good
      ]
    where
      a : Cells
      a = coerced_of t e resolved

      go :
          (rows : List EntityRow)
          → select (is_existing i e a) s.entities ≡ rows
          → any (λ c. is_raw (value_of c a)) (spec_of e).identity ≡ false
          → HasKeys (upsert t i e resolved p s).1.db
      go [] one good =
          rw (good, one, after)
            (after-Keeps HasKeys (λ _. pure none) (insert_row i e a p s)
              (insert_row-IsKeyed i e a p s one h) (λ _ s' k. k))
      go (row ∷ row' ∷ rows) one good = rw (good, one, after) h
      go (row ∷ []) one good =
          rw (good, one, after)
            (after-Keeps HasKeys _
              (diff_signal t i e row a resolved p.data_source_id p.fetched_at s)
              (rw (diff_signal-entities i e row a resolved p.data_source_id p.fetched_at s) h)
              (λ signal.
                >>=-Keeps HasKeys (update_row e a p row) (λ _. pure signal)
                  (update_row-Keeps e a p row) (λ _ s' k. k)))
