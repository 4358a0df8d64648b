-- ===== src/Risks/Dismiss.antt =====
-- About dismiss_risk of src/app/api/routers/risks.py.
use smart_procurement_backen.Prelude.{
  ◌+◌, ◌≡◌, refl, String, false, some, [], ◌∷◌, ◌++◌, ◌==◌, Bool-cases, inl, inr,
}
use smart_procurement_backen.Errors.{Result, ok, err}
use smart_procurement_backen.Table.{select, update}
use smart_procurement_backen.Models.Basic.{RowId, text, uuid_text}
use smart_procurement_backen.Models.Audit.{AuditRecord, risk_dismissed}
use smart_procurement_backen.Models.Analysis.{RiskFinding}
use smart_procurement_backen.Session.{Session, after, require_one-cases}
use smart_procurement_backen.Audit.{record_event, audit_row}
use smart_procurement_backen.Risks.{is_terminal}
use smart_procurement_backen.Risks.Dismissal.{
  has_finding_id, get_finding, as_dismissed, dismissal_event, dismiss_risk,
}

-- A dismissal closed the only finding with the id, which was not terminal, and recorded who did it; or
-- it changed no table.
abbrev pub Dismisses :
    RowId → RowId → RowId → String → Session → Result RiskFinding × Session → Type 0
Dismisses enterprise_id user_id risk_id reason s (ok f', s') =
    (f : RiskFinding) × (row : AuditRecord) × (select (has_finding_id enterprise_id risk_id)
        s.findings
      ≡ f ∷ [])
    × (is_terminal f.status ≡ false)
    × (f' ≡ as_dismissed reason user_id (s.clock s.ticks) f)
    × (row.event_type ≡ risk_dismissed)
    × (row.enterprise_id ≡ enterprise_id)
    × (row.authorizer ≡ some (("kind", text "human") ∷ ("user_id", uuid_text user_id) ∷ []))
    × (row.params ≡ some (("risk_finding_id", uuid_text f.id) ∷ ("reason", text reason) ∷ []))
    × (s'.db ≡ record s.db {
      findings =
          update (λ x. x.id == f.id) (as_dismissed reason user_id (s.clock s.ticks)) s.findings;
      audit_records = s.audit_records ++ (row ∷ []);
    })
Dismisses enterprise_id user_id risk_id reason s (err e, s') = s'.db ≡ s.db

-- A dismissal closes the only finding with the id, which was not terminal, and adds an audit
-- record that names the user; a call that raises changes no table.
pub dismiss_risk-Dismisses :
    (enterprise_id user_id risk_id : RowId) (reason : String) (s : Session)
    → Dismisses enterprise_id user_id risk_id reason s
        (dismiss_risk enterprise_id user_id risk_id reason s)
unfolding dismiss_risk get_finding record_event
dismiss_risk-Dismisses enterprise_id user_id risk_id reason s =
    elim (require_one-cases (select (has_finding_id enterprise_id risk_id) s.findings) s) [
      | inr (e, bad) ↦ rw (bad, after) refl
      | inl (f, one, good) ↦
          rw (good, after)
            (elim (Bool-cases (is_terminal f.status)) [
              | inl over ↦ rw over refl
              | inr open_ ↦ rw open_ (
                f,
                audit_row (dismissal_event enterprise_id user_id f.id reason) (s.uuids s.drawn)
                    (s.clock (s.ticks + 1)),
                one,
                open_,
                refl,
                refl,
                refl,
                refl,
                refl,
                refl,
              )
            ])
    ]
