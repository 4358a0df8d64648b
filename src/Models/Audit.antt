-- ===== src/Models/Audit.antt =====
-- src/app/audit/models.py
use smart_procurement_backen.Prelude.{String, Option}
use smart_procurement_backen.Models.Basic.{RowId, Time, Payload}

-- EVENT_TYPES
pub data EventType : Type 0 where
  recommendation l4_prepared l4_approved l4_rejected l5_authorized dispatched : EventType
  execution_result verification promotion demotion recovery ai_unavailable : EventType
  policy_approved policy_revoked mapping_confirmed enforcement risk_dismissed : EventType

-- VERIFIED_STATES
pub data VerifiedState : Type 0 where
  verified failed unverifiable pending not_applicable : VerifiedState

pub record AuditRecord : Type 0 where
  pub id : RowId
  pub enterprise_id : RowId
  pub at : Time
  pub event_type : EventType
  pub correlation_id : Option RowId
  pub capability_id : Option RowId
  pub capability_key : Option String
  pub lorm_level : Option String
  pub decision : Option Payload
  pub evidence_ref : Option Payload
  pub authorizer : Option Payload
  pub action : Option String
  pub params : Option Payload
  pub procurement_action_id : Option RowId
  pub outcome : Option Payload
  pub verified : VerifiedState
