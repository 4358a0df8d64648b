-- ===== src/Aggregates/Trusted.antt =====
-- About items without trustworthy stock in src/app/observation/aggregates.py.
use mathlib.Core.List.{append-nil}
use smart_procurement_backen.Prelude.{
  ℕ, ◌+◌, ◌≤◌, ◌≡◌, refl, ◌∙◌, true, false, Option, none, some, List, [], ◌∷◌, ◌++◌, ◌==◌, ==_iff,
  Bool-cases, inl, inr, ap, sym, All, All-map, All-append, any, arith,
}
use smart_procurement_backen.Errors.{Result, ok, err}
use smart_procurement_backen.Prelude.Decimal.{Decimal}
use smart_procurement_backen.Table.{select, update}
use smart_procurement_backen.Table.Select.{select-none, select-append, select-All, All-select}
use smart_procurement_backen.Table.Update.{select-update_same, All-update}
use smart_procurement_backen.Models.Basic.{RowId, Time}
use smart_procurement_backen.Models.Observation.{SkuAggregate}
use smart_procurement_backen.Models.Domain.{
  Entity, entity_index, EntityRow, Observability, Cell, ref,
}
use smart_procurement_backen.Session.{Session, Exec, after, pure}
use smart_procurement_backen.Aggregates.Queries.{Figures, is_trusted, is_lost, is_ref, figures}
use smart_procurement_backen.Sync.References.{value_of}
use smart_procurement_backen.Sync.Keyed.{entity_index-eq}
use smart_procurement_backen.Aggregates.{
  is_item_aggregate, has_aggregate_id, with_figures, new_aggregate, any_overflows, write_aggregate,
  upsert_aggregate, is_item_in_scope, append_found, recompute_stocked, recompute_one,
  recompute_each, recompute_aggregates,
}

-- No aggregate of the item has the id of one of another item.
abbrev pub IsApart : RowId → List SkuAggregate → List SkuAggregate → Type 0
IsApart item_id own rows =
    All (λ a. is_item_aggregate item_id a ≡ false → any (has_aggregate_id a.id) own ≡ false) rows

-- No id that is still to be drawn is that of one of the rows.
abbrev pub IsUndrawn : List SkuAggregate → Session → Type 0
IsUndrawn own s = (n : ℕ) → s.drawn ≤ n → any (has_aggregate_id (s.uuids n)) own ≡ false

-- The canonical rows are these, and the aggregates of the item are those.
abbrev Kept : RowId → List EntityRow → List SkuAggregate → Session → Type 0
Kept i rows own s =
    (s.entities ≡ rows)
    × (select (is_item_aggregate i) s.aggregates ≡ own)
    × IsApart i own s.aggregates
    × IsUndrawn own s

abbrev Preserves : (Session → Type 0) → {A : Type 0} → Exec A → Type 0
Preserves P m = (s : Session) → P s → P (m s).1

after-Preserves :
    (P : Session → Type 0) {A B : Type 0} (f : A → Exec B) (r : Result A × Session)
    → P r.1
    → ((a : A) → Preserves P (f a))
    → P (after f r).1
after-Preserves P f (ok a, s) h keeps = keeps a s h
after-Preserves P f (err e, s) h keeps = h

-- A row of another item is added, or one is rewritten.
added-own :
    (i j e : RowId) (f : Figures) (id : RowId) (at : Time) (rows : List SkuAggregate)
    → (j == i) ≡ false
    → select (is_item_aggregate i) (rows ++ (new_aggregate e j f id at ∷ []))
      ≡ select (is_item_aggregate i) rows
added-own i j e f id at rows other =
    rw (select-append (is_item_aggregate i) rows (new_aggregate e j f id at ∷ []))
      (rw other (append-nil (select (is_item_aggregate i) rows)))

update-absent :
    (id : RowId) (f : Figures) (at : Time) (own : List SkuAggregate)
    → any (has_aggregate_id id) own ≡ false
    → update (has_aggregate_id id) (with_figures f at) own ≡ own
update-absent id f at [] h = refl
update-absent id f at (a ∷ own) h = elim (Bool-cases (a.id == id)) [
  | inl e ↦ cc (rw e at h)
  | inr e ↦ rw e (ap (λ rest. a ∷ rest) (update-absent id f at own (rw e at h)))
]

updated-own :
    (i id : RowId) (f : Figures) (at : Time) (rows own : List SkuAggregate)
    → select (is_item_aggregate i) rows ≡ own
    → any (has_aggregate_id id) own ≡ false
    → select (is_item_aggregate i) (update (has_aggregate_id id) (with_figures f at) rows) ≡ own
updated-own i id f at rows own same apart =
    select-update_same (has_aggregate_id id) (with_figures f at) (is_item_aggregate i) (λ x. refl)
      rows
    ∙ ap (update (has_aggregate_id id) (with_figures f at)) same
    ∙ update-absent id f at own apart

-- An aggregate of another item has the id of none of the rows.
found-apart :
    (i j : RowId) (a : SkuAggregate) (found own rows : List SkuAggregate)
    → (j == i) ≡ false
    → select (is_item_aggregate j) rows ≡ a ∷ found
    → IsApart i own rows
    → any (has_aggregate_id a.id) own ≡ false
found-apart i j a found own rows other one apart =
    let hit : is_item_aggregate j a ≡ true =
      (rw one at (select-All (is_item_aggregate j) rows)).0 in
    let foreign =
      (rw one at (
        All-select (is_item_aggregate j)
          (λ b. is_item_aggregate i b ≡ false → any (has_aggregate_id b.id) own ≡ false) rows
          apart)).0 in
    foreign (elim (Bool-cases (a.item_id == j)) [
      | inl e ↦ rw (ap (λ x. x == i) ((==_iff a.item_id j).0 e) ∙ other) refl
      | inr e ↦ cc (rw e at hit)
    ])

upsert-Preserves :
    (i j e : RowId) (f : Figures) (rows : List EntityRow) (own : List SkuAggregate)
    → (j == i) ≡ false
    → Preserves (Kept i rows own) (upsert_aggregate e j f)
unfolding upsert_aggregate write_aggregate
upsert-Preserves i j e f rows own other s (same, mine, apart, supply) =
    go (select (is_item_aggregate j) s.aggregates) refl
  where
    later : (n : ℕ) → s.drawn + 1 ≤ n → any (has_aggregate_id (s.uuids n)) own ≡ false
    later n h = supply n (omega arith)

    go :
        (found : List SkuAggregate)
        → select (is_item_aggregate j) s.aggregates ≡ found
        → Kept i rows own (upsert_aggregate e j f s).1
    go (a ∷ b ∷ found) one = rw (one, after) (same, mine, apart, supply)
    go [] one =
        rw (one, after)
          (elim (Bool-cases (any_overflows f)) [
            | inl bad ↦ rw (bad, after) (same, mine, apart, later)
            | inr good ↦
                rw (good, after)
                  (
                    same,
                    added-own i j e f (s.uuids s.drawn) (s.clock s.ticks) s.aggregates other ∙ mine,
                    All-append
                        (λ x.
                          is_item_aggregate i x ≡ false → any (has_aggregate_id x.id) own ≡ false)
                        s.aggregates _ apart ((λ _. supply s.drawn (omega arith)), tt),
                    later,
                  )
          ])
    go (a ∷ []) one =
        rw (one, after)
          (elim (Bool-cases (any_overflows f)) [
            | inl bad ↦ rw (bad, after) (same, mine, apart, supply)
            | inr good ↦
                rw (good, after)
                  (
                    same,
                    updated-own i a.id f (s.clock s.ticks) s.aggregates own mine
                        (found-apart i j a [] own s.aggregates other one apart),
                    All-update (has_aggregate_id a.id) (with_figures f (s.clock s.ticks))
                        (λ x.
                          is_item_aggregate i x ≡ false → any (has_aggregate_id x.id) own ≡ false)
                        (λ x.
                          is_item_aggregate i x ≡ false → any (has_aggregate_id x.id) own ≡ false)
                        (λ x h hit. h) (λ x h miss. h) s.aggregates apart,
                    supply,
                  )
          ])

module _ (divide : Decimal → Decimal → Decimal) (i : RowId) (rows : List EntityRow)
    (untrusted : select (is_trusted Entity.stock_level i) rows ≡ []) (own : List SkuAggregate) where
  one-Preserves : (e j : RowId) → Preserves (Kept i rows own) (recompute_one divide e j)
  unfolding recompute_one recompute_stocked
  one-Preserves e j s h = go (select (is_trusted Entity.stock_level j) s.entities) refl
    where
      go :
          (stock : List EntityRow)
          → select (is_trusted Entity.stock_level j) s.entities ≡ stock
          → Kept i rows own (recompute_stocked divide e j stock s).1
      go [] one = h
      go (row ∷ stock) one = elim (Bool-cases (j == i)) [
        | inr other ↦
            upsert-Preserves i j e (figures divide j (row ∷ stock) s.entities) rows own other s h
        | inl is ↦
            let same : j ≡ i = (==_iff j i).0 is in
            let none_ : select (is_trusted Entity.stock_level j) s.entities ≡ [] =
              ap (λ x. select (is_trusted Entity.stock_level x) s.entities) same
              ∙ ap (λ x. select (is_trusted Entity.stock_level i) x) h.0
              ∙ untrusted in
            cc (sym one ∙ none_)
      ]

  each-Preserves :
      (e : RowId) (items : List EntityRow)
      → Preserves (Kept i rows own) (recompute_each divide e items)
  unfolding recompute_each
  each-Preserves e [] s h = h
  each-Preserves e (item ∷ items) s h =
      after-Preserves (Kept i rows own) _ (recompute_one divide e item.id s)
        (one-Preserves e item.id s h)
        (λ a u k.
          after-Preserves (Kept i rows own) (λ results. pure (append_found a results))
            (recompute_each divide e items u) (each-Preserves e items u k) (λ _ v m. m))

-- A row of stock of the item is lost.
abbrev pub IsLost : RowId → EntityRow → Type 0
IsLost item_id row =
    row.entity ≡ Entity.stock_level
    → value_of "item_id" row.cells ≡ some (ref item_id)
    → row.observability ≡ Observability.lost

is_lost-true : (o : Observability) → o ≡ Observability.lost → is_lost o ≡ true
is_lost-true o e = rw e refl

is_ref-eq : (i : RowId) (v : Option Cell) → is_ref i v ≡ true → v ≡ some (ref i)
is_ref-eq i (some (ref x)) h = ap (λ y. some (ref y)) ((==_iff x i).0 h)
is_ref-eq i none h = cc
is_ref-eq i (some _) h = cc

IsLost-untrusted :
    (i : RowId) (row : EntityRow) → IsLost i row → is_trusted Entity.stock_level i row ≡ false
IsLost-untrusted i row h =
    elim (Bool-cases (entity_index row.entity == entity_index Entity.stock_level)) [
      | inr e ↦ rw e refl
      | inl e ↦ elim (Bool-cases (is_ref i (value_of "item_id" row.cells))) [
        | inr e' ↦ rw (e, e') refl
        | inl e' ↦
            let gone = is_lost-true row.observability (
              h (entity_index-eq row.entity Entity.stock_level e)
                (is_ref-eq i (value_of "item_id" row.cells) e')) in
            rw (e, e', gone) refl
      ]
    ]

-- Where every row of stock of an item is lost, or it has none, and the ids of its aggregates are neither
-- those of other items nor drawn again: a recomputation leaves the aggregates of the item as they were,
-- whatever its scope and whether it returns or raises. None is added, and one that was there stays, with
-- its figures and the time of their computation.
pub recompute_aggregates-trusted :
    (divide : Decimal → Decimal → Decimal) (enterprise_id : RowId) (item_ids : List RowId)
    (item_id : RowId) (s : Session)
    → All (IsLost item_id) s.entities
    → IsApart item_id (select (is_item_aggregate item_id) s.aggregates) s.aggregates
    → IsUndrawn (select (is_item_aggregate item_id) s.aggregates) s
    → select
        (is_item_aggregate item_id)
        (recompute_aggregates divide enterprise_id item_ids s).1.aggregates
      ≡ select (is_item_aggregate item_id) s.aggregates
unfolding recompute_aggregates
recompute_aggregates-trusted divide enterprise_id item_ids item_id s untrusted apart supply =
    (each-Preserves divide item_id s.entities
      (select-none (is_trusted Entity.stock_level item_id) s.entities
        (All-map (IsLost item_id) _ (IsLost-untrusted item_id) s.entities untrusted))
      (select (is_item_aggregate item_id) s.aggregates) enterprise_id
      (select (is_item_in_scope enterprise_id item_ids) s.entities) s (refl, refl, apart, supply)).1
