-- ===== src/Aggregates/Queries.antt =====
-- The queries of src/app/observation/aggregates.py and what is computed from them. The quotient of two
-- decimals, as the decimal context rounds it, is an argument. Of rows created at one time, which the
-- database may return in any order, the last one inserted comes first.
use smart_procurement_backen.Prelude.{
  ℕ, ◌-◌, String, Bool, true, false, not, ◌&&◌, Option, none, some, List, [], ◌∷◌, map,
  if◌then◌else◌, ◌==◌, ltb, leb, str_eq, is_none, length,
}
use smart_procurement_backen.Prelude.Int.{ℤ, pos, negsuc, ltb_ℤ, ◌+ℤ◌}
use smart_procurement_backen.Prelude.Decimal.{
  Decimal, decimal_zero, add_decimal, sub_decimal, whole, of_units, to_units, days_between,
}
use smart_procurement_backen.Table.{select}
use smart_procurement_backen.Models.Basic.{RowId, Time}
use smart_procurement_backen.Models.Domain.{
  Entity, entity_index, Cell, words, decimal, ref, day, instant, Observability, EntityRow,
}
use smart_procurement_backen.Sync.References.{value_of}

-- A value of a numeric column as a query loads it.
abbrev pub number_of : Option Cell → Option Decimal
number_of (some (decimal d)) = some (of_units (to_units d))
number_of _ = none

-- `Decimal(str(value))` of a numeric column without NULL.
abbrev pub or_zero : Option Decimal → Decimal
or_zero none = decimal_zero
or_zero (some d) = d

abbrev pub amount : String → EntityRow → Decimal
amount name row = or_zero (number_of (value_of name row.cells))

abbrev pub day_in : Option Cell → Option ℕ
day_in (some (day n)) = some n
day_in _ = none

abbrev pub time_in : Option Cell → Option Time
time_in (some (instant t)) = some t
time_in _ = none

abbrev pub is_ref : RowId → Option Cell → Bool
is_ref id (some (ref x)) = x == id
is_ref id _ = false

abbrev pub is_text : String → Option Cell → Bool
is_text s (some (words w)) = str_eq w s
is_text s _ = false

abbrev pub is_lost : Observability → Bool
is_lost Observability.lost = true
is_lost _ = false

-- The rows of an entity for an item that are not lost.
abbrev pub is_trusted : Entity → RowId → EntityRow → Bool
is_trusted e item_id row =
    entity_index row.entity == entity_index e
    && is_ref item_id (value_of "item_id" row.cells)
    && not (is_lost row.observability)

-- `key.desc().nulls_last()`: `a` does not come after `b`.
abbrev pub not_older : Option ℕ → Option ℕ → Bool
not_older a none = true
not_older none (some b) = false
not_older (some a) (some b) = leb b a

abbrev pub insert_newest : (EntityRow → Option ℕ) → EntityRow → List EntityRow → List EntityRow
insert_newest key x [] = x ∷ []
insert_newest key x (y ∷ ys) =
    if not_older (key y) (key x) then y ∷ insert_newest key x ys else x ∷ y ∷ ys

unfoldable pub newest_first : (EntityRow → Option ℕ) → List EntityRow → List EntityRow
newest_first key [] = []
newest_first key (x ∷ xs) = insert_newest key x (newest_first key xs)

unfoldable pub sum_decimals : List Decimal → Decimal
sum_decimals [] = decimal_zero
sum_decimals (d ∷ ds) = add_decimal d (sum_decimals ds)

unfoldable pub sum_days : List ℤ → ℤ
unfolding ◌+ℤ◌
sum_days [] = pos 0
sum_days (n ∷ ns) = n +ℤ sum_days ns

abbrev pub is_open_order : RowId → EntityRow → Bool
is_open_order item_id row =
    is_trusted Entity.purchase_order item_id row
    && is_text "open" (value_of "status" row.cells)
    && not (is_none (time_in (value_of "expected_at" row.cells)))

abbrev pub earlier : Option Time → Option Time → Option Time
earlier none b = b
earlier (some a) none = some a
earlier (some a) (some b) = if leb a b then some a else some b

-- `order_by(expected_at.asc()).limit(1)`
unfoldable pub earliest : List EntityRow → Option Time
earliest [] = none
earliest (row ∷ rows) = earlier (time_in (value_of "expected_at" row.cells)) (earliest rows)

-- _next_expected_delivery
unfoldable pub next_expected_delivery : RowId → List EntityRow → Option Time
next_expected_delivery item_id rows = earliest (select (is_open_order item_id) rows)

abbrev pub is_received_order : RowId → EntityRow → Bool
is_received_order item_id row =
    is_trusted Entity.purchase_order item_id row
    && is_text "received" (value_of "status" row.cells)
    && not (is_none (time_in (value_of "expected_at" row.cells)))
    && not (is_none (time_in (value_of "received_at" row.cells)))

-- `(received_at - expected_at).days`; the query leaves neither out.
abbrev pub delay_between : Option Time → Option Time → ℤ
delay_between (some received) (some expected) = days_between received expected
delay_between _ _ = pos 0

abbrev pub delay_of : EntityRow → ℤ
delay_of row =
    delay_between (time_in (value_of "received_at" row.cells))
      (time_in (value_of "expected_at" row.cells))

abbrev pub is_positive : Decimal → Bool
is_positive d = ltb_ℤ (pos 0) d.coefficient

abbrev pub is_zero : ℤ → Bool
is_zero (pos n) = n == 0
is_zero (negsuc n) = false

-- What a recomputation finds out about an item: the keyword arguments of _upsert_aggregate.
pub record Figures : Type 0 where
  pub avg_daily_consumption : Option Decimal
  pub days_of_cover : Option Decimal
  pub next_expected_delivery_at : Option Time
  pub last_price : Option Decimal
  pub price_trend : Option Decimal
  pub avg_supplier_delay_days : Option Decimal

module _ (divide : Decimal → Decimal → Decimal) where
  abbrev pub daily : Decimal → Option ℕ → Option ℕ → Decimal
  daily quantity (some from_) (some to) =
      if ltb from_ to
      then divide quantity (whole (pos (to - from_)))
      else divide quantity (whole (pos 30))
  daily quantity _ _ = divide quantity (whole (pos 30))

  abbrev pub daily_of : List EntityRow → Option Decimal
  daily_of [] = none
  daily_of (row ∷ rows) = some (
      daily (amount "quantity" row) (day_in (value_of "period_start" row.cells))
        (day_in (value_of "period_end" row.cells)))

  -- _avg_daily_consumption
  unfoldable pub avg_daily_consumption : RowId → List EntityRow → Option Decimal
  avg_daily_consumption item_id rows = daily_of (
      newest_first (λ row. day_in (value_of "period_end" row.cells))
        (select (is_trusted Entity.consumption item_id) rows))

  abbrev pub trend_of : List EntityRow → Option Decimal × Option Decimal
  trend_of [] = (none, none)
  trend_of (newest ∷ []) = (some (amount "unit_price" newest), none)
  trend_of (newest ∷ older ∷ rows) =
      if is_zero (amount "unit_price" older).coefficient
      then (some (amount "unit_price" newest), none)
      else (
        some (amount "unit_price" newest),
        some (
            divide (sub_decimal (amount "unit_price" newest) (amount "unit_price" older))
              (amount "unit_price" older)),
      )

  -- _price_trend
  unfoldable pub price_trend : RowId → List EntityRow → Option Decimal × Option Decimal
  price_trend item_id rows = trend_of (
      newest_first (λ row. day_in (value_of "valid_from" row.cells))
        (select (is_trusted Entity.price item_id) rows))

  abbrev pub mean_delay : List ℤ → Option Decimal
  mean_delay [] = none
  mean_delay (n ∷ ns) = some (divide (whole (sum_days (n ∷ ns))) (whole (pos (length (n ∷ ns)))))

  -- _avg_supplier_delay
  unfoldable pub avg_supplier_delay : RowId → List EntityRow → Option Decimal
  avg_supplier_delay item_id rows =
      mean_delay (map delay_of (select (is_received_order item_id) rows))

  abbrev pub cover : Decimal → Option Decimal → Option Decimal
  cover total none = none
  cover total (some daily) = if is_positive daily then some (divide total daily) else none

  -- The figures for an item with these rows of stock.
  unfoldable pub figures : RowId → List EntityRow → List EntityRow → Figures
  figures item_id stock rows = record {
    avg_daily_consumption = avg_daily_consumption item_id rows;
    days_of_cover =
        cover (sum_decimals (map (amount "quantity") stock)) (avg_daily_consumption item_id rows);
    next_expected_delivery_at = next_expected_delivery item_id rows;
    last_price = (price_trend item_id rows).0;
    price_trend = (price_trend item_id rows).1;
    avg_supplier_delay_days = avg_supplier_delay item_id rows;
  }
