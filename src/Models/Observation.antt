-- ===== src/Models/Observation.antt =====
-- src/app/observation/models.py: the observability gaps and the aggregates.
use smart_procurement_backen.Prelude.{String, Option}
use smart_procurement_backen.Prelude.Int.{ℤ}
use smart_procurement_backen.Models.Basic.{RowId, Time}

-- GAP_SCOPES
pub data Scope : Type 0 where
  source entity capability : Scope

-- GAP_REASONS
pub data GapReason : Type 0 where
  source_unavailable stale_data ai_unavailable : GapReason

-- `str(ds.id)` or a capability's key.
pub data ScopeRef : Type 0 where
  source_ref : RowId → ScopeRef
  key_ref : String → ScopeRef

pub record ObservabilityGap : Type 0 where
  pub id : RowId
  pub enterprise_id : RowId
  pub scope : Scope
  pub scope_ref : ScopeRef
  pub reason : GapReason
  pub opened_at : Time
  pub closed_at : Option Time

-- The columns of type NUMERIC(18, 4) count ten-thousandths.
pub record SkuAggregate : Type 0 where
  pub id : RowId
  pub enterprise_id : RowId
  pub item_id : RowId
  pub warehouse_id : Option RowId
  pub avg_daily_consumption : Option ℤ
  pub days_of_cover : Option ℤ
  pub next_expected_delivery_at : Option Time
  pub last_price : Option ℤ
  pub price_trend : Option ℤ
  pub avg_supplier_delay_days : Option ℤ
  pub computed_at : Time
