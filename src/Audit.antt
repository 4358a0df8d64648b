-- ===== src/Audit.antt =====
-- src/app/audit/recorder.py: the writer of the append-only audit trail. That the event type is a known
-- one holds by its type.
pub mod Complete
mod Tests
use smart_procurement_backen.Prelude.{
  String, Bool, true, false, not, ◌&&◌, Option, none, some, List, [], ◌∷◌, ◌++◌, if◌then◌else◌,
  str_eq,
}
use smart_procurement_backen.Errors.{audit_integrity}
use smart_procurement_backen.Models.Basic.{RowId, Time, Payload}
use smart_procurement_backen.Models.Audit.{
  EventType, l4_approved, l5_authorized, dispatched, execution_result, verification, VerifiedState,
  AuditRecord,
}
use smart_procurement_backen.Session.{Db, Exec, pure, raise, ◌>>=◌, ◌>>◌, modify, now, uuid4}

-- The keyword arguments of `record`.
pub record AuditEvent : Type 0 where
  pub enterprise_id : RowId
  pub event_type : EventType
  pub correlation_id : Option RowId
  pub capability_id : Option RowId
  pub capability_key : Option String
  pub lorm_level : Option String
  pub decision : Option Payload
  pub evidence_ref : Option Payload
  pub authorizer : Option Payload
  pub action : Option String
  pub params : Option Payload
  pub procurement_action_id : Option RowId
  pub outcome : Option Payload
  pub verified : VerifiedState

-- _ACTION_EVENTS
abbrev pub is_action_event : EventType → Bool
is_action_event l4_approved = true
is_action_event l5_authorized = true
is_action_event dispatched = true
is_action_event execution_result = true
is_action_event verification = true
is_action_event _ = false

-- Python's truth of an optional text and of an optional dict.
abbrev pub is_given_text : Option String → Bool
is_given_text none = false
is_given_text (some t) = not (str_eq t "")

abbrev pub is_given_dict : Option Payload → Bool
is_given_dict none = false
is_given_dict (some []) = false
is_given_dict (some (p ∷ ps)) = true

-- `not missing`, for the fields of _REQUIRED_FOR_ACTION
unfoldable pub has_required :
    Option String → Option String → Option Payload → Option String → Option Payload → Bool
has_required capability_key lorm_level authorizer action evidence_ref =
    is_given_text capability_key
    && is_given_text lorm_level
    && is_given_dict authorizer
    && is_given_text action
    && is_given_dict evidence_ref

abbrev pub is_incomplete : AuditEvent → Bool
is_incomplete e =
    is_action_event e.event_type
    && not (has_required e.capability_key e.lorm_level e.authorizer e.action e.evidence_ref)

-- The row that is inserted.
abbrev pub audit_row : AuditEvent → RowId → Time → AuditRecord
audit_row e id at = record {
  id = id;
  enterprise_id = e.enterprise_id;
  at = at;
  event_type = e.event_type;
  correlation_id = e.correlation_id;
  capability_id = e.capability_id;
  capability_key = e.capability_key;
  lorm_level = e.lorm_level;
  decision = e.decision;
  evidence_ref = e.evidence_ref;
  authorizer = e.authorizer;
  action = e.action;
  params = e.params;
  procurement_action_id = e.procurement_action_id;
  outcome = e.outcome;
  verified = e.verified;
}

-- AuditRecorder.record
unfoldable pub record_event : AuditEvent → Exec AuditRecord
record_event e = if is_incomplete e then raise audit_integrity else (do
  at ← now
  id ← uuid4
  modify (λ db. record db { audit_records = db.audit_records ++ (audit_row e id at ∷ []) })
  pure (audit_row e id at))
