-- ===== src/Risks.antt =====
-- src/app/analysis/rules.py, from the candidate that a rule found to its row.
pub mod Dismissal
pub mod Unique
pub mod Dismiss
pub mod Rules
pub mod Thresholds
pub mod Samples
pub mod Detect
pub mod Detected
pub mod Queued
mod Tests
use smart_procurement_backen.Prelude.{
  ℕ, String, Bool, true, false, not, ◌&&◌, ◌||◌, Option, none, some, List, [], ◌∷◌, ◌++◌,
  if◌then◌else◌, ◌==◌, str_eq, same_ref, any,
}
use smart_procurement_backen.Errors.{ok, conflict}
use smart_procurement_backen.Table.{select, scalar_one_or_none, update}
use smart_procurement_backen.Models.Basic.{RowId, Time, Json, text, uuid_text, Payload}
use smart_procurement_backen.Models.Jobs.{Job, JobStatus}
use smart_procurement_backen.Models.Audit.{risk_dismissed, not_applicable}
use smart_procurement_backen.Models.Analysis.{
  RiskType, Severity, RiskStatus, DetectedBy, AiStatus, SignalType, RiskFinding, RiskSignalLink,
  ObservationSignal,
}
use smart_procurement_backen.Session.{
  Db, Session, Exec, pure, raise, gets, lift, require_one, ◌>>=◌, ◌>>◌, modify, now, uuid4,
}
use smart_procurement_backen.Jobs.{enqueue, default_max_attempts}
use smart_procurement_backen.Audit.{AuditEvent, record_event}

-- `reason` is a text for the log.
pub record RiskCandidate : Type 0 where
  pub risk_type : RiskType
  pub item_id : Option RowId
  pub supplier_id : Option RowId
  pub severity : Severity

-- The position in RISK_TYPES.
abbrev pub risk_index : RiskType → ℕ
risk_index RiskType.likely_shortage = 0
risk_index RiskType.insufficient_until_next_delivery = 1
risk_index RiskType.production_stop_risk = 2
risk_index RiskType.systematic_supplier_delay = 3
risk_index RiskType.quality_degradation = 4
risk_index RiskType.price_anomaly = 5

-- The position in SIGNAL_TYPES.
abbrev pub signal_index : SignalType → ℕ
signal_index SignalType.stock_change = 0
signal_index SignalType.consumption_rate = 1
signal_index SignalType.reorder_point_near = 2
signal_index SignalType.demand_change = 3
signal_index SignalType.supplier_delay = 4
signal_index SignalType.lead_time_change = 5
signal_index SignalType.price_change = 6
signal_index SignalType.quality_issue = 7
signal_index SignalType.other = 8

-- _EVIDENCE_SIGNAL_TYPES
abbrev pub evidence_signal_types : RiskType → List SignalType
evidence_signal_types RiskType.likely_shortage = SignalType.stock_change ∷ []
evidence_signal_types RiskType.insufficient_until_next_delivery = SignalType.stock_change ∷ []
evidence_signal_types RiskType.production_stop_risk =
    SignalType.stock_change ∷ SignalType.demand_change ∷ []
evidence_signal_types RiskType.price_anomaly = SignalType.price_change ∷ []
evidence_signal_types RiskType.quality_degradation = SignalType.quality_issue ∷ []
evidence_signal_types RiskType.systematic_supplier_delay = []

-- TERMINAL_RISK_STATUSES
abbrev pub is_terminal : RiskStatus → Bool
is_terminal RiskStatus.resolved = true
is_terminal RiskStatus.dismissed = true
is_terminal _ = false

-- The conditions of `_find_non_terminal`.
abbrev pub is_same_risk : RowId → RiskCandidate → RiskFinding → Bool
is_same_risk enterprise_id c f =
    f.enterprise_id == enterprise_id
    && risk_index f.risk_type == risk_index c.risk_type
    && same_ref f.item_id c.item_id
    && same_ref f.supplier_id c.supplier_id
    && not (is_terminal f.status)

unfoldable pub find_non_terminal : RowId → RiskCandidate → Exec (Option RiskFinding)
find_non_terminal enterprise_id c s =
    lift (scalar_one_or_none (select (is_same_risk enterprise_id c) s.findings)) s

abbrev pub new_finding : RowId → RiskCandidate → RowId → Time → RiskFinding
new_finding enterprise_id c id at = record {
  id = id;
  enterprise_id = enterprise_id;
  risk_type = c.risk_type;
  item_id = c.item_id;
  supplier_id = c.supplier_id;
  severity = c.severity;
  status = RiskStatus.open_;
  detected_by = DetectedBy.rule;
  ai_status = AiStatus.pending;
  detected_at = at;
  resolved_at = none;
  dismissed_reason = none;
  dismissed_at = none;
  dismissed_by = none;
}

unfoldable pub found_or_new : RowId → RiskCandidate → Option RiskFinding → Exec RiskFinding
found_or_new enterprise_id c (some f) = pure f
found_or_new enterprise_id c none = do
  at ← now
  id ← uuid4
  modify (λ db. record db { findings = db.findings ++ (new_finding enterprise_id c id at ∷ []) })
  pure (new_finding enterprise_id c id at)

unfoldable pub find_or_create : RowId → RiskCandidate → Exec RiskFinding
find_or_create enterprise_id c = find_non_terminal enterprise_id c >>= found_or_new enterprise_id c

-- A condition that is added only for a given id.
abbrev pub is_given_ref : Option RowId → Option RowId → Bool
is_given_ref none x = true
is_given_ref (some id) x = same_ref x (some id)

-- The signal is already linked to the finding.
abbrev pub is_linked : RowId → List RiskSignalLink → RowId → Bool
is_linked finding_id links signal_id =
    any
      (λ (l : RiskSignalLink).
        l.risk_finding_id == finding_id && l.observation_signal_id == signal_id)
      links

abbrev pub is_new_evidence :
    RiskFinding
    → List SignalType
    → Option RowId
    → Option RowId
    → List RiskSignalLink
    → ObservationSignal
    → Bool
is_new_evidence f types item_id supplier_id links s =
    s.enterprise_id == f.enterprise_id
    && any (λ t. signal_index t == signal_index s.signal_type) types
    && not (is_linked f.id links s.id)
    && is_given_ref item_id s.item_id
    && is_given_ref supplier_id s.supplier_id

unfoldable pub add_links : RowId → List ObservationSignal → Exec (Unit {0})
add_links finding_id [] = pure tt
add_links finding_id (s ∷ signals) = do
  id ← uuid4
  let link : RiskSignalLink = record {
    id = id;
    risk_finding_id = finding_id;
    observation_signal_id = s.id;
  }
  modify (λ db. record db { signal_links = db.signal_links ++ (link ∷ []) })
  add_links finding_id signals

unfoldable pub link_new_evidence :
    RiskFinding → Option RowId → Option RowId → List SignalType → Exec (Unit {0})
link_new_evidence f item_id supplier_id types = do
  signals ←
      gets (λ db. select (is_new_evidence f types item_id supplier_id db.signal_links) db.signals)
  add_links f.id signals

-- `if signal_types:`
unfoldable pub link_if_any :
    RiskFinding → Option RowId → Option RowId → List SignalType → Exec (Unit {0})
link_if_any f item_id supplier_id [] = pure tt
link_if_any f item_id supplier_id (t ∷ types) = link_new_evidence f item_id supplier_id (t ∷ types)

abbrev pub is_ready : AiStatus → Bool
is_ready AiStatus.ready = true
is_ready _ = false

abbrev pub is_active : JobStatus → Bool
is_active JobStatus.pending = true
is_active JobStatus.running = true
is_active _ = false

-- `payload[key] == str(id)`
abbrev pub names_uuid : String → RowId → Payload → Bool
names_uuid key id [] = false
names_uuid key id ((k, uuid_text x) ∷ rest) = (str_eq k key && x == id) || names_uuid key id rest
names_uuid key id ((k, _) ∷ rest) = names_uuid key id rest

abbrev pub is_explanation_job : RowId → Job → Bool
is_explanation_job finding_id j =
    str_eq j.kind "generate_explanation"
    && names_uuid "risk_finding_id" finding_id j.payload
    && is_active j.status

unfoldable pub enqueue_explanation : RiskFinding → Exec (Unit {0})
enqueue_explanation f =
    enqueue "generate_explanation"
      (("enterprise_id", uuid_text f.enterprise_id) ∷ ("risk_finding_id", uuid_text f.id) ∷ []) none
      (some f.enterprise_id) default_max_attempts
    >> pure tt

unfoldable pub maybe_enqueue_explanation : RiskFinding → Exec (Unit {0})
maybe_enqueue_explanation f s =
    if is_ready f.ai_status || any (is_explanation_job f.id) s.jobs
    then (ok tt, s)
    else enqueue_explanation f s

-- _apply
unfoldable pub apply_candidate :
    RowId → RiskCandidate → Option RowId → Option RowId → Exec RiskFinding
apply_candidate enterprise_id c item_id supplier_id = do
  f ← find_or_create enterprise_id c
  link_if_any f item_id supplier_id (evidence_signal_types c.risk_type)
  maybe_enqueue_explanation f
  pure f
