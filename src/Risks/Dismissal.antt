-- ===== src/Risks/Dismissal.antt =====
-- The dismissal of a finding in src/app/api/routers/risks.py.
use smart_procurement_backen.Prelude.{String, Bool, ◌&&◌, none, some, [], ◌∷◌, if◌then◌else◌, ◌==◌}
use smart_procurement_backen.Errors.{conflict}
use smart_procurement_backen.Table.{select, update}
use smart_procurement_backen.Models.Basic.{RowId, Time, text, uuid_text}
use smart_procurement_backen.Models.Audit.{risk_dismissed, not_applicable}
use smart_procurement_backen.Models.Analysis.{RiskStatus, RiskFinding}
use smart_procurement_backen.Session.{Exec, pure, raise, require_one, ◌>>=◌, ◌>>◌, modify, now}
use smart_procurement_backen.Audit.{AuditEvent, record_event}
use smart_procurement_backen.Risks.{is_terminal}

abbrev pub has_finding_id : RowId → RowId → RiskFinding → Bool
has_finding_id enterprise_id risk_id f = f.id == risk_id && f.enterprise_id == enterprise_id

-- _get_finding_or_404: the row with the primary key; one of another enterprise counts as missing.
unfoldable pub get_finding : RowId → RowId → Exec RiskFinding
get_finding enterprise_id risk_id s =
    require_one (select (has_finding_id enterprise_id risk_id) s.findings) s

abbrev pub as_dismissed : String → RowId → Time → RiskFinding → RiskFinding
as_dismissed reason user_id at f = record f {
  status = RiskStatus.dismissed;
  dismissed_reason = some reason;
  dismissed_at = some at;
  dismissed_by = some user_id;
  resolved_at = some at;
}

abbrev pub dismissal_event : RowId → RowId → RowId → String → AuditEvent
dismissal_event enterprise_id user_id risk_id reason = record {
  enterprise_id = enterprise_id;
  event_type = risk_dismissed;
  correlation_id = none;
  capability_id = none;
  capability_key = none;
  lorm_level = none;
  decision = none;
  evidence_ref = none;
  authorizer = some (("kind", text "human") ∷ ("user_id", uuid_text user_id) ∷ []);
  action = some "risk.dismiss";
  params = some (("risk_finding_id", uuid_text risk_id) ∷ ("reason", text reason) ∷ []);
  procurement_action_id = none;
  outcome = some (("status", text "dismissed") ∷ []);
  verified = not_applicable;
}

-- dismiss_risk, for the user that the route lets pass
unfoldable pub dismiss_risk : RowId → RowId → RowId → String → Exec RiskFinding
dismiss_risk enterprise_id user_id risk_id reason = do
  f ← get_finding enterprise_id risk_id
  if is_terminal f.status then raise conflict else (do
    at ← now
    modify (λ db. record db {
      findings = update (λ x. x.id == f.id) (as_dismissed reason user_id at) db.findings;
    })
    record_event (dismissal_event enterprise_id user_id f.id reason)
    pure (as_dismissed reason user_id at f))
