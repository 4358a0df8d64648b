-- ===== src/Aggregates.antt =====
-- src/app/observation/aggregates.py: recomputing the aggregates of items from their canonical rows.
pub mod Queries
pub mod Single
pub mod Trusted
pub mod Frame
mod Tests
use smart_procurement_backen.Prelude.{
  ℕ, ◌+◌, ◌-◌, String, Bool, true, false, not, ◌&&◌, ◌||◌, Option, none, some, List, [], ◌∷◌, ◌++◌,
  map, if◌then◌else◌, ◌==◌, ltb, leb, str_eq, any, is_none, length,
}
use smart_procurement_backen.Prelude.Int.{ℤ, pos, negsuc, ltb_ℤ, ◌+ℤ◌}
use smart_procurement_backen.Prelude.Decimal.{
  Decimal, decimal_zero, add_decimal, sub_decimal, whole, of_units, to_units, days_between,
}
use smart_procurement_backen.Errors.{ok, data_error}
use smart_procurement_backen.Table.{select, update, scalar_one_or_none}
use smart_procurement_backen.Models.Basic.{RowId, Time}
use smart_procurement_backen.Models.Observation.{SkuAggregate}
use smart_procurement_backen.Models.Domain.{
  Entity, entity_index, Cell, words, decimal, ref, day, instant, flag, raw, Observability,
  EntityRow, fits_numeric,
}
use smart_procurement_backen.Session.{
  Db, Session, Exec, pure, raise, gets, lift, ◌>>=◌, ◌>>◌, modify, now, uuid4,
}
use smart_procurement_backen.Sync.References.{value_of}
use smart_procurement_backen.Aggregates.Queries.{Figures, is_trusted, figures}

abbrev pub is_item_aggregate : RowId → SkuAggregate → Bool
is_item_aggregate item_id a = a.item_id == item_id && is_none a.warehouse_id

-- What a column of type NUMERIC(18, 4) holds of a figure.
abbrev pub stored : Option Decimal → Option ℤ
stored none = none
stored (some d) = some (to_units d)

abbrev pub overflows : Option Decimal → Bool
overflows none = false
overflows (some d) = not (fits_numeric d)

abbrev pub any_overflows : Figures → Bool
any_overflows f =
    overflows f.avg_daily_consumption
    || overflows f.days_of_cover
    || overflows f.last_price
    || overflows f.price_trend
    || overflows f.avg_supplier_delay_days

abbrev pub with_figures : Figures → Time → SkuAggregate → SkuAggregate
with_figures f at a = record a {
  avg_daily_consumption = stored f.avg_daily_consumption;
  days_of_cover = stored f.days_of_cover;
  next_expected_delivery_at = f.next_expected_delivery_at;
  last_price = stored f.last_price;
  price_trend = stored f.price_trend;
  avg_supplier_delay_days = stored f.avg_supplier_delay_days;
  computed_at = at;
}

abbrev pub new_aggregate : RowId → RowId → Figures → RowId → Time → SkuAggregate
new_aggregate enterprise_id item_id f id at = record {
  id = id;
  enterprise_id = enterprise_id;
  item_id = item_id;
  warehouse_id = none;
  avg_daily_consumption = stored f.avg_daily_consumption;
  days_of_cover = stored f.days_of_cover;
  next_expected_delivery_at = f.next_expected_delivery_at;
  last_price = stored f.last_price;
  price_trend = stored f.price_trend;
  avg_supplier_delay_days = stored f.avg_supplier_delay_days;
  computed_at = at;
}

abbrev pub has_aggregate_id : RowId → SkuAggregate → Bool
has_aggregate_id id a = a.id == id

-- The flush raises if a figure does not fit its column.
unfoldable pub write_aggregate :
    RowId → RowId → Figures → Option SkuAggregate → Exec (Option SkuAggregate)
write_aggregate enterprise_id item_id f none = do
  at ← now
  id ← uuid4
  if any_overflows f
      then raise data_error
      else (modify (λ db. record db {
        aggregates = db.aggregates ++ (new_aggregate enterprise_id item_id f id at ∷ []);
      })
          >> pure (some (new_aggregate enterprise_id item_id f id at)))
write_aggregate enterprise_id item_id f (some a) = do
  at ← now
  if any_overflows f
      then raise data_error
      else (modify (λ db. record db {
        aggregates = update (has_aggregate_id a.id) (with_figures f at) db.aggregates;
      })
          >> pure (some (with_figures f at a)))

-- _upsert_aggregate
unfoldable pub upsert_aggregate : RowId → RowId → Figures → Exec (Option SkuAggregate)
upsert_aggregate enterprise_id item_id f s =
    (lift (scalar_one_or_none (select (is_item_aggregate item_id) s.aggregates))
        >>= write_aggregate enterprise_id item_id f)
      s

-- `ids`: all items of the enterprise, or those of a list that is not empty.
abbrev pub is_among : List RowId → RowId → Bool
is_among [] id = true
is_among (x ∷ xs) id = any (λ y. y == id) (x ∷ xs)

abbrev pub is_item_in_scope : RowId → List RowId → EntityRow → Bool
is_item_in_scope enterprise_id item_ids row =
    entity_index row.entity == entity_index Entity.item
    && row.enterprise_id == enterprise_id
    && is_among item_ids row.id

abbrev pub append_found : Option SkuAggregate → List SkuAggregate → List SkuAggregate
append_found none results = results
append_found (some a) results = a ∷ results

module _ (divide : Decimal → Decimal → Decimal) where
  -- The item's aggregate, if it has trustworthy rows of stock.
  unfoldable pub recompute_stocked : RowId → RowId → List EntityRow → Exec (Option SkuAggregate)
  recompute_stocked enterprise_id item_id [] = pure none
  recompute_stocked enterprise_id item_id (row ∷ rows) =
      λ s. upsert_aggregate enterprise_id item_id (figures divide item_id (row ∷ rows) s.entities) s

  -- _recompute_one
  unfoldable pub recompute_one : RowId → RowId → Exec (Option SkuAggregate)
  recompute_one enterprise_id item_id s =
      recompute_stocked enterprise_id item_id
        (select (is_trusted Entity.stock_level item_id) s.entities) s

  unfoldable pub recompute_each : RowId → List EntityRow → Exec (List SkuAggregate)
  recompute_each enterprise_id [] = pure []
  recompute_each enterprise_id (item ∷ items) = do
    a ← recompute_one enterprise_id item.id
    results ← recompute_each enterprise_id items
    pure (append_found a results)

  -- An `item_ids` of None is the empty list: both mean the whole enterprise.
  unfoldable pub recompute_aggregates : RowId → List RowId → Exec (List SkuAggregate)
  recompute_aggregates enterprise_id item_ids s =
      recompute_each enterprise_id (select (is_item_in_scope enterprise_id item_ids) s.entities) s
