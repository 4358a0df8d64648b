-- ===== src/Models/Integration.antt =====
-- src/app/integration/models.py
use smart_procurement_backen.Prelude.{ℕ, String, Option, List}
use smart_procurement_backen.Models.Basic.{RowId, Time, Payload}

-- SOURCE_HEALTH
pub data Health : Type 0 where
  available unavailable stale : Health

-- MAPPING_STATUSES
pub data MappingStatus : Type 0 where
  suggested confirmed rejected retired : MappingStatus

-- MAPPING_ACTIONS
pub data MappingAction : Type 0 where
  suggested confirmed edited rejected retired : MappingAction

pub record DataSource : Type 0 where
  pub id : RowId
  pub enterprise_id : RowId
  pub name : String
  pub kind : String
  pub connector_type : String
  pub config : Payload
  pub credential_ref : Option RowId
  pub observation_interval_seconds : ℕ
  pub health : Health
  pub last_success_at : Option Time
  pub last_check_at : Option Time
  pub last_error : Option String

pub record SourceField : Type 0 where
  pub id : RowId
  pub data_source_id : RowId
  pub path : String
  pub inferred_type : String
  pub sample_values : List String

-- `ai_confidence` is NUMERIC(4, 3): a number of thousandths.
pub record FieldMapping : Type 0 where
  pub id : RowId
  pub data_source_id : RowId
  pub source_field_path : String
  pub canonical_entity : String
  pub canonical_attribute : String
  pub transform : Option Payload
  pub status : MappingStatus
  pub ai_confidence : Option ℕ
  pub confirmed_by : Option RowId
  pub confirmed_at : Option Time

-- The dict that `_snapshot` builds.
pub record Snapshot : Type 0 where
  pub source_field_path : String
  pub canonical_entity : String
  pub canonical_attribute : String
  pub transform : Option Payload
  pub status : MappingStatus
  pub ai_confidence : Option ℕ

pub record MappingChangeEvent : Type 0 where
  pub id : RowId
  pub field_mapping_id : RowId
  pub action : MappingAction
  pub actor_id : Option RowId
  pub before : Option Snapshot
  pub after : Option Snapshot
  pub at : Time
