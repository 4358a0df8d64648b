-- ===== src/Models/Lorm.antt =====
-- src/app/lorm/models.py. The CHECK constraints of `enum_column` become data types.
use smart_procurement_backen.Prelude.{
  ℕ, String, Bool, Option, none, some, if◌then◌else◌, str_eq, ◌==◌,
}
use smart_procurement_backen.Models.Basic.{RowId, Time, Payload}

-- LEVELS
pub data Level : Type 0 where
  l0 l1 l2 l3 l4 l5 : Level

-- `_LEVEL_INDEX[level]`
unfoldable pub index : Level → ℕ
index l0 = 0
index l1 = 1
index l2 = 2
index l3 = 3
index l4 = 4
index l5 = 5

-- `LEVELS[i]`; `none` is the IndexError.
unfoldable pub level_at : ℕ → Option Level
level_at i =
    if i == 0
    then some l0
    else if i == 1
    then some l1
    else if i == 2
    then some l2
    else if i == 3
    then some l3
    else if i == 4
    then some l4
    else if i == 5
    then some l5
    else none

-- The level that a text names, if it names one.
unfoldable pub level_of : String → Option Level
level_of t =
    if str_eq t "L0"
    then some l0
    else if str_eq t "L1"
    then some l1
    else if str_eq t "L2"
    then some l2
    else if str_eq t "L3"
    then some l3
    else if str_eq t "L4"
    then some l4
    else if str_eq t "L5"
    then some l5
    else none

unfoldable pub level_name : Level → String
level_name l0 = "L0"
level_name l1 = "L1"
level_name l2 = "L2"
level_name l3 = "L3"
level_name l4 = "L4"
level_name l5 = "L5"

pub data Direction : Type 0 where
  promotion demotion : Direction

pub data Trigger : Type 0 where
  human incident rollback verification_failure observability_loss uncertainty : Trigger
  policy_expiry policy_revocation : Trigger

pub data Origin : Type 0 where
  human ai : Origin

pub data RequestStatus : Type 0 where
  pending approved rejected : RequestStatus

-- `uncertainty_threshold` is NUMERIC(4, 3): a number of thousandths.
pub record Capability : Type 0 where
  pub id : RowId
  pub enterprise_id : RowId
  pub key : String
  pub level : Level
  pub l5_allowed : Bool
  pub verification_tolerances : Payload
  pub uncertainty_threshold : ℕ

pub record CapabilityLevelEvent : Type 0 where
  pub id : RowId
  pub capability_id : RowId
  pub direction : Direction
  pub from_level : Level
  pub to_level : Level
  pub reason : String
  pub trigger : Trigger
  pub actor_id : Option RowId
  pub at : Time

pub record PromotionRequest : Type 0 where
  pub id : RowId
  pub enterprise_id : RowId
  pub capability_id : RowId
  pub proposed_to_level : Level
  pub rationale : String
  pub evidence : Payload
  pub origin : Origin
  pub status : RequestStatus
  pub decided_by : Option RowId
  pub decided_at : Option Time
