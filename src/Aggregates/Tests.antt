-- ===== src/Aggregates/Tests.antt =====
-- Aggregates at concrete inputs.
use smart_procurement_backen.Prelude.{◌≡◌, refl, false, none, some, ◌+◌, ◌==◌, [], ◌∷◌, arith}
use smart_procurement_backen.Prelude.Int.{pos}
use smart_procurement_backen.Prelude.Decimal.{Decimal, whole}
use smart_procurement_backen.Table.{select}
use smart_procurement_backen.Models.Basic.{RowId}
use smart_procurement_backen.Models.Observation.{SkuAggregate}
use smart_procurement_backen.Models.Domain.{
  Entity, Cells, words, decimal, ref, Observability, EntityRow,
}
use smart_procurement_backen.Session.{Session}
use smart_procurement_backen.Session.Sample.{empty_db, session_on}
use smart_procurement_backen.Aggregates.{is_item_aggregate, recompute_aggregates}
use smart_procurement_backen.Aggregates.Single.{IsSingle, recompute_aggregates-IsSingle}
use smart_procurement_backen.Aggregates.Trusted.{IsUndrawn, recompute_aggregates-trusted}

abbrev row : RowId → Entity → Cells → EntityRow
row id e cells = record {
  id = id;
  enterprise_id = 9;
  entity = e;
  cells = cells;
  provenance = record { data_source_id = 1; source_field_path = "stock"; fetched_at = 500 };
  observability = Observability.fresh;
}

abbrev bolt : EntityRow
bolt = row 1 Entity.item (("sku", some (words "B-1")) ∷ [])

abbrev nut : EntityRow
nut = row 2 Entity.item (("sku", some (words "N-1")) ∷ [])

abbrev bolts : EntityRow
bolts =
    row 42 Entity.stock_level
      (("item_id", some (ref 1)) ∷ ("quantity", some (decimal (whole (pos 60)))) ∷ [])

abbrev nuts : EntityRow
nuts =
    row 44 Entity.stock_level
      (("item_id", some (ref 2)) ∷ ("quantity", some (decimal (whole (pos 5)))) ∷ [])

abbrev used : EntityRow
used =
    row 43 Entity.consumption
      (("item_id", some (ref 1)) ∷ ("quantity", some (decimal (whole (pos 30)))) ∷ [])

abbrev start : Session
start = session_on (record empty_db { entities = bolt ∷ nut ∷ bolts ∷ used ∷ [] })

-- Stands for the quotient; both theorems hold for any function.
abbrev divide : Decimal → Decimal → Decimal
divide a b = a

abbrev once : Session
once = (recompute_aggregates divide 9 [] start).1

recompute_aggregates-IsSingle_example : IsSingle once.aggregates
recompute_aggregates-IsSingle_example =
    recompute_aggregates-IsSingle divide 9 [] start (λ _. omega arith)

-- What was computed for the nut when it had stock.
abbrev stale : SkuAggregate
stale = record {
  id = 7;
  enterprise_id = 9;
  item_id = 2;
  warehouse_id = none;
  avg_daily_consumption = none;
  days_of_cover = some (pos 40000);
  next_expected_delivery_at = none;
  last_price = none;
  price_trend = none;
  avg_supplier_delay_days = none;
  computed_at = 300;
}

-- The only stock of the nut is lost.
abbrev dark : Session
dark = session_on (record empty_db {
  entities = bolt ∷ nut ∷ (record nuts { observability = Observability.lost }) ∷ bolts ∷ [];
  aggregates = stale ∷ [];
})

undrawn : IsUndrawn (stale ∷ []) dark
undrawn n h = let other : (7 == 100 + n) ≡ false = ground arith in rw other refl

recompute_aggregates-trusted_example :
    select (is_item_aggregate 2) (recompute_aggregates divide 9 [] dark).1.aggregates ≡ stale ∷ []
recompute_aggregates-trusted_example =
    recompute_aggregates-trusted divide 9 [] 2 dark
      ((λ _ e. cc), ((λ _ e. cc), ((λ _ _. refl), ((λ _ e. cc), tt)))) ((λ e. cc), tt) undrawn
