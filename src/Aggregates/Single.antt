-- ===== src/Aggregates/Single.antt =====
-- About the number of aggregates of an item in src/app/observation/aggregates.py.
use smart_procurement_backen.Prelude.{
  ◌≤◌, ◌≡◌, refl, false, List, [], ◌∷◌, ◌++◌, ◌==◌, ==_iff, arith, Bool-cases, inl, inr, length,
  length-append, sym,
}
use smart_procurement_backen.Prelude.Decimal.{Decimal}
use smart_procurement_backen.Table.{select, update}
use smart_procurement_backen.Table.Select.{select-append}
use smart_procurement_backen.Table.Update.{length-update, select-update_same}
use smart_procurement_backen.Models.Basic.{RowId, Time}
use smart_procurement_backen.Models.Observation.{SkuAggregate}
use smart_procurement_backen.Models.Domain.{Entity, EntityRow}
use smart_procurement_backen.Session.{Db, Session, after, pure}
use smart_procurement_backen.Session.Keeps.{Keeps, after-Keeps}
use smart_procurement_backen.Aggregates.Queries.{Figures, is_trusted, figures}
use smart_procurement_backen.Aggregates.{
  is_item_aggregate, any_overflows, with_figures, new_aggregate, has_aggregate_id, write_aggregate,
  upsert_aggregate, is_item_in_scope, append_found, recompute_stocked, recompute_one,
  recompute_each, recompute_aggregates,
}

-- For each item there is at most one aggregate over all warehouses.
abbrev pub IsSingle : List SkuAggregate → Type 0
IsSingle rows = (item_id : RowId) → length (select (is_item_aggregate item_id) rows) ≤ 1

abbrev HasSingle : Db → Type 0
HasSingle db = IsSingle db.aggregates

-- The items of the other rows.
pub added-length :
    (i j : RowId) (e : RowId) (f : Figures) (id : RowId) (at : Time) (rows : List SkuAggregate)
    → (j == i) ≡ false
    → length (select (is_item_aggregate i) (rows ++ (new_aggregate e j f id at ∷ [])))
      ≡ length (select (is_item_aggregate i) rows)
added-length i j e f id at rows other =
    rw (select-append (is_item_aggregate i) rows (new_aggregate e j f id at ∷ []))
      (rw other (rw (length-append (select (is_item_aggregate i) rows) []) (omega arith)))

pub updated-length :
    (i id : RowId) (f : Figures) (at : Time) (rows : List SkuAggregate)
    → length (select (is_item_aggregate i) (update (has_aggregate_id id) (with_figures f at) rows))
      ≡ length (select (is_item_aggregate i) rows)
updated-length i id f at rows =
    rw
      (select-update_same (has_aggregate_id id) (with_figures f at) (is_item_aggregate i)
        (λ x. refl) rows)
      (length-update (has_aggregate_id id) (with_figures f at) (select (is_item_aggregate i) rows))

added-IsSingle :
    (j e : RowId) (f : Figures) (id : RowId) (at : Time) (rows : List SkuAggregate)
    → select (is_item_aggregate j) rows ≡ []
    → IsSingle rows
    → IsSingle (rows ++ (new_aggregate e j f id at ∷ []))
added-IsSingle j e f id at rows absent h i = elim (Bool-cases (j == i)) [
  | inr other ↦ omega (arith, added-length i j e f id at rows other, h i)
  | inl own ↦
      let same : j ≡ i = (==_iff j i).0 own in
      rw (select-append (is_item_aggregate i) rows (new_aggregate e j f id at ∷ []))
        (rw (sym same) (rw (absent) (omega (arith, short j e f id at))))
]
  where
    short :
        (j e : RowId) (f : Figures) (id : RowId) (at : Time)
        → length (select (is_item_aggregate j) (new_aggregate e j f id at ∷ [])) ≤ 1
    short j e f id at = elim (Bool-cases (j == j)) [
      | inl p ↦ rw p (omega arith)
      | inr p ↦ rw p (omega arith)
    ]

upsert-IsSingle : (e i : RowId) (f : Figures) → Keeps HasSingle (upsert_aggregate e i f)
unfolding upsert_aggregate write_aggregate
upsert-IsSingle e i f s h = go (select (is_item_aggregate i) s.aggregates) refl
  where
    go :
        (rows : List SkuAggregate)
        → select (is_item_aggregate i) s.aggregates ≡ rows
        → HasSingle (upsert_aggregate e i f s).1.db
    go (a ∷ b ∷ rows) one = rw (one, after) h
    go [] one =
        rw (one, after)
          (elim (Bool-cases (any_overflows f)) [
            | inl bad ↦ rw (bad, after) h
            | inr good ↦
                rw (good, after)
                  (added-IsSingle i e f (s.uuids s.drawn) (s.clock s.ticks) s.aggregates one h)
          ])
    go (a ∷ []) one =
        rw (one, after)
          (elim (Bool-cases (any_overflows f)) [
            | inl bad ↦ rw (bad, after) h
            | inr good ↦
                rw (good, after)
                  (λ j. omega (arith, updated-length j a.id f (s.clock s.ticks) s.aggregates, h j))
          ])

module _ (divide : Decimal → Decimal → Decimal) where
  one-IsSingle : (e i : RowId) → Keeps HasSingle (recompute_one divide e i)
  unfolding recompute_one recompute_stocked
  one-IsSingle e i s h = go (select (is_trusted Entity.stock_level i) s.entities)
    where
      go : (rows : List EntityRow) → HasSingle (recompute_stocked divide e i rows s).1.db
      go [] = h
      go (row ∷ rows) = upsert-IsSingle e i (figures divide i (row ∷ rows) s.entities) s h

  each-IsSingle :
      (e : RowId) (items : List EntityRow) → Keeps HasSingle (recompute_each divide e items)
  unfolding recompute_each
  each-IsSingle e [] s h = h
  each-IsSingle e (item ∷ items) s h =
      after-Keeps HasSingle _ (recompute_one divide e item.id s) (one-IsSingle e item.id s h)
        (λ a u k.
          after-Keeps HasSingle (λ results. pure (append_found a results))
            (recompute_each divide e items u) (each-IsSingle e items u k) (λ _ v m. m))

  -- If each item has at most one aggregate over all warehouses, this is so after a recomputation,
  -- whether it returns or raises.
  pub recompute_aggregates-IsSingle :
      (enterprise_id : RowId) (item_ids : List RowId) (s : Session)
      → IsSingle s.aggregates
      → IsSingle (recompute_aggregates divide enterprise_id item_ids s).1.aggregates
  unfolding recompute_aggregates
  recompute_aggregates-IsSingle enterprise_id item_ids s h =
      each-IsSingle enterprise_id (select (is_item_in_scope enterprise_id item_ids) s.entities) s h
