-- ===== src/Aggregates/Frame.antt =====
-- About what a recomputation of src/app/observation/aggregates.py leaves alone.
use smart_procurement_backen.Prelude.{◌≡◌, refl, List, [], ◌∷◌, Bool-cases, inl, inr}
use smart_procurement_backen.Prelude.Decimal.{Decimal}
use smart_procurement_backen.Table.{select}
use smart_procurement_backen.Models.Basic.{RowId}
use smart_procurement_backen.Models.Observation.{SkuAggregate}
use smart_procurement_backen.Models.Domain.{Entity, EntityRow}
use smart_procurement_backen.Session.{Db, after, pure}
use smart_procurement_backen.Session.Keeps.{Keeps, after-Keeps}
use smart_procurement_backen.Aggregates.Queries.{Figures, is_trusted, figures}
use smart_procurement_backen.Aggregates.{
  is_item_aggregate, any_overflows, write_aggregate, upsert_aggregate, is_item_in_scope,
  append_found, recompute_stocked, recompute_one, recompute_each, recompute_aggregates,
}

-- A property that does not read the aggregates.
module _ (P : Db → Type 0)
    (ignores : (db : Db) (rows : List SkuAggregate)
      → P db
      → P (record db { aggregates = rows })) where
  upsert-Keeps : (e i : RowId) (f : Figures) → Keeps P (upsert_aggregate e i f)
  unfolding upsert_aggregate write_aggregate
  upsert-Keeps e i f s h = go (select (is_item_aggregate i) s.aggregates) refl
    where
      go :
          (found : List SkuAggregate)
          → select (is_item_aggregate i) s.aggregates ≡ found
          → P (upsert_aggregate e i f s).1.db
      go (a ∷ b ∷ found) one = rw (one, after) h
      go [] one =
          rw (one, after)
            (elim (Bool-cases (any_overflows f)) [
              | inl bad ↦ rw (bad, after) h
              | inr good ↦ rw (good, after) (ignores s.db _ h)
            ])
      go (a ∷ []) one =
          rw (one, after)
            (elim (Bool-cases (any_overflows f)) [
              | inl bad ↦ rw (bad, after) h
              | inr good ↦ rw (good, after) (ignores s.db _ h)
            ])

  module _ (divide : Decimal → Decimal → Decimal) where
    one-Keeps : (e i : RowId) → Keeps P (recompute_one divide e i)
    unfolding recompute_one recompute_stocked
    one-Keeps e i s h = go (select (is_trusted Entity.stock_level i) s.entities)
      where
        go : (rows : List EntityRow) → P (recompute_stocked divide e i rows s).1.db
        go [] = h
        go (row ∷ rows) = upsert-Keeps e i (figures divide i (row ∷ rows) s.entities) s h

    each-Keeps : (e : RowId) (items : List EntityRow) → Keeps P (recompute_each divide e items)
    unfolding recompute_each
    each-Keeps e [] s h = h
    each-Keeps e (item ∷ items) s h =
        after-Keeps P _ (recompute_one divide e item.id s) (one-Keeps e item.id s h) (λ a u k.
          after-Keeps P (λ results. pure (append_found a results)) (recompute_each divide e items u)
            (each-Keeps e items u k) (λ _ v m. m))

    -- A recomputation writes aggregates only.
    pub recompute_aggregates-ignored :
        (e : RowId) (ids : List RowId) → Keeps P (recompute_aggregates divide e ids)
    unfolding recompute_aggregates
    recompute_aggregates-ignored e ids s h =
        each-Keeps e (select (is_item_in_scope e ids) s.entities) s h
