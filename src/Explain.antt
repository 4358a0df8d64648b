-- ===== src/Explain.antt =====
-- src/app/analysis/explain.py: the explanation of a finding by a model, grounded in its evidence. What
-- the attempts bring is an argument, as in Ai; the prompt goes to the provider only.
pub mod Grounded
pub mod Sample
mod Tests
use smart_procurement_backen.Prelude.{
  ℕ, String, Bool, true, false, not, ◌&&◌, Option, none, some, List, [], ◌∷◌, ◌++◌, map,
  if◌then◌else◌, ◌==◌, str_eq, any,
}
use smart_procurement_backen.Errors.{Error, Result, ok, err, llm_unavailable}
use smart_procurement_backen.Table.{select, update}
use smart_procurement_backen.Models.Basic.{RowId, text}
use smart_procurement_backen.Models.Audit.{ai_unavailable, not_applicable}
use smart_procurement_backen.Models.Analysis.{
  RiskType, AiStatus, RiskFinding, RiskSignalLink, ObservationSignal, EvidenceKind, EvidenceRef,
  RiskFactor, Explanation,
}
use smart_procurement_backen.Models.Domain.{EntityRow}
use smart_procurement_backen.Session.{
  Db, Session, Exec, pure, raise, gets, ◌>>=◌, ◌>>◌, modify, uuid4,
}
use smart_procurement_backen.Observability.{open_gap}
use smart_procurement_backen.Audit.{AuditEvent, record_event}
use smart_procurement_backen.Ai.{Attempt, ai_gap, generate_structured}
use smart_procurement_backen.Sync.References.{value_of}
use smart_procurement_backen.Risks.{risk_index}
use smart_procurement_backen.Risks.Dismissal.{get_finding}
use smart_procurement_backen.Risks.Detect.{is_delay_row, ref_in, same_id}

abbrev pub diagnose_key : String
diagnose_key = "proc.risk.diagnose"

abbrev pub explanation_action : String
explanation_action = "generate_structured:RiskExplanation"

-- RiskExplanation, with the confidence in thousandths
pub record RiskExplanation : Type 0 where
  pub what : String
  pub why : String
  pub data_used : List EvidenceRef
  pub factors : List RiskFactor
  pub confidence : ℕ

abbrev pub same_kind : EvidenceKind → EvidenceKind → Bool
same_kind EvidenceKind.observation_signal EvidenceKind.observation_signal = true
same_kind EvidenceKind.sku_aggregate EvidenceKind.sku_aggregate = true
same_kind EvidenceKind.domain_row EvidenceKind.domain_row = true
same_kind _ _ = false

-- `(d.kind, d.ref) in valid_refs`
abbrev pub is_valid_ref : List EvidenceRef → EvidenceRef → Bool
is_valid_ref evidence d =
    any (λ (e : EvidenceRef). same_kind e.kind d.kind && str_eq e.ref d.ref) evidence

-- The join of the links of a finding with the signals.
unfoldable pub joined :
    RowId → List RiskSignalLink → List ObservationSignal → List ObservationSignal
joined finding_id [] signals = []
joined finding_id (l ∷ links) signals =
    (if l.risk_finding_id == finding_id
      then select (λ (s : ObservationSignal). s.id == l.observation_signal_id) signals
      else [])
    ++ joined finding_id links signals

abbrev pub is_delay : RiskType → Bool
is_delay RiskType.systematic_supplier_delay = true
is_delay _ = false

abbrev pub names_supplier : RowId → Option RowId → Bool
names_supplier supplier none = false
names_supplier supplier (some id) = id == supplier

abbrev pub is_late_order : RowId → RowId → EntityRow → Bool
is_late_order enterprise_id supplier row =
    is_delay_row enterprise_id row
    && names_supplier supplier (ref_in (value_of "supplier_id" row.cells))

-- The purchase orders behind a finding of systematic delay.
abbrev pub orders_of : RiskFinding → Bool → Option RowId → List EntityRow → List EntityRow
orders_of f true (some supplier) rows = select (is_late_order f.enterprise_id supplier) rows
orders_of f _ _ rows = []

-- `str` of an id.
module _ (id_text : RowId → String) where
  abbrev pub signal_evidence : ObservationSignal → EvidenceRef
  signal_evidence s = record { kind = EvidenceKind.observation_signal; ref = id_text s.id }

  abbrev pub order_evidence : EntityRow → EvidenceRef
  order_evidence row = record { kind = EvidenceKind.domain_row; ref = id_text row.id }

  -- evidence_payloads, without the details that are only shown
  unfoldable pub evidence_payloads : RiskFinding → Db → List EvidenceRef
  unfolding joined
  evidence_payloads f db =
      map signal_evidence (joined f.id db.signal_links db.signals)
      ++ map order_evidence (orders_of f (is_delay f.risk_type) f.supplier_id db.entities)

abbrev pub with_ai_status : AiStatus → RiskFinding → RiskFinding
with_ai_status status f = record f { ai_status = status }

unfoldable pub set_ai_status : RowId → AiStatus → Exec (Unit {0})
set_ai_status finding_id status = modify (λ db. record db {
  findings = update (λ (f : RiskFinding). f.id == finding_id) (with_ai_status status) db.findings;
})

abbrev pub no_evidence : String
no_evidence =
    "no valid evidence remained after grounding validation (all data_used refs were hallucinated or empty)"

abbrev pub grounding_event : RowId → String → AuditEvent
grounding_event enterprise_id reason = record {
  enterprise_id = enterprise_id;
  event_type = ai_unavailable;
  correlation_id = none;
  capability_id = none;
  capability_key = some diagnose_key;
  lorm_level = none;
  decision = none;
  evidence_ref = none;
  authorizer = none;
  action = some explanation_action;
  params = none;
  procurement_action_id = none;
  outcome = some (("error", text reason) ∷ []);
  verified = not_applicable;
}

-- _mark_unavailable
unfoldable pub mark_unavailable : RowId → String → Exec (Unit {0})
mark_unavailable enterprise_id reason = do
  open_gap (ai_gap enterprise_id diagnose_key)
  record_event (grounding_event enterprise_id reason)
  pure tt

-- The provider that the caller passes, by its name, and the model of the settings.
abbrev pub model_of : Option String → String → String
model_of none anthropic_model = anthropic_model
model_of (some name) anthropic_model = if str_eq name "anthropic" then anthropic_model else name

module _ (provider : Option String) (anthropic_model : String) where
  abbrev pub new_explanation :
      RowId → RowId → RiskExplanation → List EvidenceRef → RowId → Explanation
  new_explanation enterprise_id finding_id parsed kept id = record {
    id = id;
    enterprise_id = enterprise_id;
    subject_id = finding_id;
    what = parsed.what;
    why = parsed.why;
    data_used = kept;
    factors = parsed.factors;
    confidence = parsed.confidence;
    llm_provider = provider;
    llm_model = some (model_of provider anthropic_model);
  }

  -- `if not kept:`
  unfoldable pub store_explanation :
      RowId → RowId → RiskExplanation → List EvidenceRef → Exec Explanation
  store_explanation enterprise_id finding_id parsed [] = do
    mark_unavailable enterprise_id no_evidence
    set_ai_status finding_id AiStatus.unavailable
    raise llm_unavailable
  store_explanation enterprise_id finding_id parsed (d ∷ kept) = do
    id ← uuid4
    let x = new_explanation enterprise_id finding_id parsed (d ∷ kept) id
    modify (λ db. record db { explanations = db.explanations ++ (x ∷ []) })
    set_ai_status finding_id AiStatus.ready
    pure x

  -- `except LLMUnavailable`
  unfoldable pub explained :
      RowId
      → RowId
      → List EvidenceRef
      → Result RiskExplanation × Session
      → Result Explanation × Session
  explained enterprise_id finding_id evidence (ok parsed, s) =
      store_explanation enterprise_id finding_id parsed
        (select (is_valid_ref evidence) parsed.data_used) s
  explained enterprise_id finding_id evidence (err llm_unavailable, s) =
      (set_ai_status finding_id AiStatus.unavailable >> raise llm_unavailable) s
  explained enterprise_id finding_id evidence (err e, s) = (err e, s)

  module _ (id_text : RowId → String)
      (generate : RiskFinding → List EvidenceRef → ℕ → Attempt RiskExplanation) where
    unfoldable pub explain_found : RowId → RiskFinding → Exec Explanation
    explain_found enterprise_id f = λ s.
        explained enterprise_id f.id (evidence_payloads id_text f s.db) (
          generate_structured (generate f (evidence_payloads id_text f s.db)) enterprise_id
            diagnose_key none explanation_action 3 s)

    unfoldable pub explain_risk : RowId → RowId → Exec Explanation
    explain_risk enterprise_id risk_finding_id =
        get_finding enterprise_id risk_finding_id >>= explain_found enterprise_id
