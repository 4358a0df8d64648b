-- ===== src/Models/Analysis.antt =====
-- src/app/analysis/models.py and the rows of src/app/observation/models.py that detection reads.
use smart_procurement_backen.Prelude.{ℕ, String, Option, List}
use smart_procurement_backen.Models.Basic.{RowId, Time, Payload}

-- RISK_TYPES
pub data RiskType : Type 0 where
  likely_shortage insufficient_until_next_delivery production_stop_risk : RiskType
  systematic_supplier_delay quality_degradation price_anomaly : RiskType

-- SEVERITIES
pub data Severity : Type 0 where
  low med high : Severity

-- RISK_STATUSES
pub data RiskStatus : Type 0 where
  open_ recommended actioned resolved dismissed : RiskStatus

-- DETECTED_BY
pub data DetectedBy : Type 0 where
  rule : DetectedBy

-- AI_STATUSES
pub data AiStatus : Type 0 where
  pending ready unavailable : AiStatus

-- SIGNAL_TYPES
pub data SignalType : Type 0 where
  stock_change consumption_rate reorder_point_near demand_change supplier_delay : SignalType
  lead_time_change price_change quality_issue other : SignalType

pub record RiskFinding : Type 0 where
  pub id : RowId
  pub enterprise_id : RowId
  pub risk_type : RiskType
  pub item_id : Option RowId
  pub supplier_id : Option RowId
  pub severity : Severity
  pub status : RiskStatus
  pub detected_by : DetectedBy
  pub ai_status : AiStatus
  pub detected_at : Time
  pub resolved_at : Option Time
  pub dismissed_reason : Option String
  pub dismissed_at : Option Time
  pub dismissed_by : Option RowId

pub record RiskSignalLink : Type 0 where
  pub id : RowId
  pub risk_finding_id : RowId
  pub observation_signal_id : RowId

pub record ObservationSignal : Type 0 where
  pub id : RowId
  pub enterprise_id : RowId
  pub data_source_id : RowId
  pub signal_type : SignalType
  pub item_id : Option RowId
  pub supplier_id : Option RowId
  pub payload : Payload
  pub observed_at : Time
  pub ingested_at : Time

-- EvidenceKind and RiskFactorWeight of src/app/ai/schemas.py
pub data EvidenceKind : Type 0 where
  observation_signal sku_aggregate domain_row : EvidenceKind

pub record EvidenceRef : Type 0 where
  pub kind : EvidenceKind
  pub ref : String

pub record RiskFactor : Type 0 where
  pub name : String
  pub effect : String
  pub weight : Severity

-- `confidence` is NUMERIC(4, 3): a number of thousandths. Every row is about a finding and made by
-- the model.
pub record Explanation : Type 0 where
  pub id : RowId
  pub enterprise_id : RowId
  pub subject_id : RowId
  pub what : String
  pub why : String
  pub data_used : List EvidenceRef
  pub factors : List RiskFactor
  pub confidence : ℕ
  pub llm_provider : Option String
  pub llm_model : Option String
