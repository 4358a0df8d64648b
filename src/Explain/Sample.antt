-- ===== src/Explain/Sample.antt =====
-- The ground of the tests: a finding with one signal, and an answer of the model.
use smart_procurement_backen.Prelude.{if◌then◌else◌, ◌==◌, ℕ, String, none, some, List, [], ◌∷◌}
use smart_procurement_backen.Models.Basic.{RowId}
use smart_procurement_backen.Models.Analysis.{
  RiskType, Severity, RiskStatus, DetectedBy, AiStatus, SignalType, RiskFinding, RiskSignalLink,
  ObservationSignal, EvidenceKind, EvidenceRef,
}
use smart_procurement_backen.Session.{Session}
use smart_procurement_backen.Session.Sample.{empty_db, session_on}
use smart_procurement_backen.Ai.{Attempt}
use smart_procurement_backen.Explain.{RiskExplanation}

abbrev pub finding : RiskFinding
finding = record {
  id = 80;
  enterprise_id = 9;
  risk_type = RiskType.likely_shortage;
  item_id = some 40;
  supplier_id = none;
  severity = Severity.high;
  status = RiskStatus.open_;
  detected_by = DetectedBy.rule;
  ai_status = AiStatus.pending;
  detected_at = 900;
  resolved_at = none;
  dismissed_reason = none;
  dismissed_at = none;
  dismissed_by = none;
}

abbrev pub drop : ObservationSignal
drop = record {
  id = 60;
  enterprise_id = 9;
  data_source_id = 1;
  signal_type = SignalType.stock_change;
  item_id = some 40;
  supplier_id = none;
  payload = [];
  observed_at = 900;
  ingested_at = 900;
}

abbrev pub link : RiskSignalLink
link = record { id = 81; risk_finding_id = 80; observation_signal_id = 60 }

abbrev pub start : Session
start =
    session_on
      (record empty_db { findings = finding ∷ []; signals = drop ∷ []; signal_links = link ∷ [] })

abbrev pub cited : String → EvidenceRef
cited id = record { kind = EvidenceKind.observation_signal; ref = id }

-- One reference to the evidence, and one to nothing.
abbrev pub answer : RiskFinding → List EvidenceRef → ℕ → Attempt RiskExplanation
answer f evidence n = Attempt.valid (record {
  what = "Stock fell";
  why = "Two days of cover";
  data_used = cited "60" ∷ cited "61" ∷ [];
  factors = [];
  confidence = 800;
})

abbrev pub id_text : RowId → String
id_text id = if id == 60 then "60" else "another"
