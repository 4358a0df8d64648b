-- ===== src/Audit/Tests.antt =====
-- The recorder at concrete inputs.
use smart_procurement_backen.Prelude.{◌≡◌, refl, none, some, []}
use smart_procurement_backen.Errors.{err, audit_integrity}
use smart_procurement_backen.Models.Audit.{dispatched, risk_dismissed, not_applicable}
use smart_procurement_backen.Session.{Session}
use smart_procurement_backen.Session.Sample.{empty_db, session_on}
use smart_procurement_backen.Audit.{AuditEvent, record_event, has_required}
use smart_procurement_backen.Audit.Complete.{Extends, Reach, Reach-Extends}

abbrev dismissal : AuditEvent
dismissal = record {
  enterprise_id = 9;
  event_type = risk_dismissed;
  correlation_id = none;
  capability_id = none;
  capability_key = none;
  lorm_level = none;
  decision = none;
  evidence_ref = none;
  authorizer = none;
  action = some "dismiss";
  params = none;
  procurement_action_id = none;
  outcome = none;
  verified = not_applicable;
}

abbrev bare_dispatch : AuditEvent
bare_dispatch = record dismissal { event_type = dispatched }

abbrev start : Session
start = session_on empty_db

-- A dispatch without its evidence is refused.
refused : (record_event bare_dispatch start).0 ≡ err audit_integrity
unfolding record_event has_required
refused = refl

two_calls : Reach start (record_event bare_dispatch (record_event dismissal start).1).1
two_calls = Reach.next (Reach.next Reach.here dismissal) bare_dispatch

Reach-Extends_example :
    Extends [] (record_event bare_dispatch (record_event dismissal start).1).1.audit_records
Reach-Extends_example = Reach-Extends two_calls
