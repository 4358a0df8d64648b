-- ===== src/Lorm.antt =====
-- src/app/lorm/capability_service.py and lorm/seed.py: the levels of the capabilities and the
-- requests to promote them.
pub mod Seeded
pub mod Target
pub mod Approve
pub mod Requests
pub mod History
pub mod Seed
mod Tests
use smart_procurement_backen.Prelude.{
  ℕ, suc, ◌+◌, String, Bool, true, false, not, ◌&&◌, Option, none, some, List, [], ◌∷◌, ◌++◌,
  if◌then◌else◌, ◌==◌, str_eq,
}
use smart_procurement_backen.Errors.{
  Result, ok, err, not_found, conflict, domain_rule, index_error, integrity_error, unknown_level,
  not_one_step, l5_not_allowed,
}
use smart_procurement_backen.Table.{select, scalar_one_or_none, update}
use smart_procurement_backen.Models.Basic.{RowId, Time}
use smart_procurement_backen.Models.Lorm.{
  Level, l5, index, level_at, level_of, level_name, Direction, promotion, Trigger, Origin,
  RequestStatus, pending, approved, rejected, Capability, CapabilityLevelEvent, PromotionRequest,
}
use smart_procurement_backen.Session.{
  Db, Session, Exec, pure, raise, lift, require_one, ◌>>=◌, ◌>>◌, modify, now, uuid4,
}

abbrev pub has_key : RowId → String → Capability → Bool
has_key enterprise_id key c = c.enterprise_id == enterprise_id && str_eq c.key key

pub get_capability : RowId → String → Exec Capability
get_capability enterprise_id key s =
    require_one (select (has_key enterprise_id key) s.capabilities) s

abbrev pub has_request_id : RowId → RowId → PromotionRequest → Bool
has_request_id enterprise_id request_id r = r.id == request_id && r.enterprise_id == enterprise_id

pub get_promotion_request : RowId → RowId → Exec PromotionRequest
get_promotion_request enterprise_id request_id s =
    require_one (select (has_request_id enterprise_id request_id) s.promotion_requests) s

abbrev pub has_capability_id : RowId → Capability → Bool
has_capability_id capability_id c = c.id == capability_id

pub get_capability_by_id : RowId → Exec Capability
get_capability_by_id capability_id s =
    require_one (select (has_capability_id capability_id) s.capabilities) s

-- The refusal of a target that is not one step up. Its message reads `LEVELS[... + 1]`, which is an
-- IndexError when the capability is at the last level.
refuse_step : Option Level → Result (Unit {0})
refuse_step none = err index_error
refuse_step (some next) = err (domain_rule not_one_step)

-- `delta != 1`, written without negative numbers.
check_step : Capability → Level → String → Result (Unit {0})
check_step cap level target =
    if index level == index cap.level + 1
    then (if str_eq target "L5" && not cap.l5_allowed
        then err (domain_rule l5_not_allowed)
        else ok tt)
    else refuse_step (level_at (index cap.level + 1))

pub validate_target : Capability → String → Result (Unit {0})
validate_target cap target = elim (level_of target) [
  | none ↦ err (domain_rule unknown_level)
  | some level ↦ check_step cap level target
]

-- A text that is no level fails the CHECK constraint of the column.
abbrev pub level_column : String → Result Level
level_column target = elim (level_of target) [ none ↦ err integrity_error | some l ↦ ok l ]

pub create_promotion_request : RowId → String → String → String → RowId → Exec PromotionRequest
create_promotion_request enterprise_id key proposed_to_level rationale created_by = do
  cap ← get_capability enterprise_id key
  lift (validate_target cap proposed_to_level)
  id ← uuid4
  level ← lift (level_column proposed_to_level)
  let req : PromotionRequest = record {
    id = id;
    enterprise_id = enterprise_id;
    capability_id = cap.id;
    proposed_to_level = level;
    rationale = rationale;
    evidence = [];
    origin = Origin.human;
    status = pending;
    decided_by = none;
    decided_at = none;
  }
  modify (λ db. record db { promotion_requests = db.promotion_requests ++ (req ∷ []) })
  pure req

abbrev pub is_pending : RequestStatus → Bool
is_pending pending = true
is_pending _ = false

-- `cap.level = level`
abbrev pub set_level : RowId → Level → Db → Db
set_level capability_id level db = record db {
  capabilities =
      update (has_capability_id capability_id) (λ c. record c { level = level }) db.capabilities;
}

-- `req.status = status; req.decided_by = decided_by; req.decided_at = at`
abbrev pub decide : RowId → RequestStatus → RowId → Time → Db → Db
decide request_id status decided_by at db = record db {
  promotion_requests =
      update (λ r. r.id == request_id)
        (λ r. record r { status = status; decided_by = some decided_by; decided_at = some at })
        db.promotion_requests;
}

-- `req.rationale or "promotion approved"`
abbrev pub reason_of : String → String
reason_of rationale = if str_eq rationale "" then "promotion approved" else rationale

promote : PromotionRequest → Capability → RowId → Exec Capability
promote req cap decided_by = do
  lift (validate_target cap (level_name req.proposed_to_level))
  decided_at ← now
  at ← now
  id ← uuid4
  modify (set_level cap.id req.proposed_to_level)
  modify (decide req.id approved decided_by decided_at)
  let event : CapabilityLevelEvent = record {
    id = id;
    capability_id = cap.id;
    direction = promotion;
    from_level = cap.level;
    to_level = req.proposed_to_level;
    reason = reason_of req.rationale;
    trigger = Trigger.human;
    actor_id = some decided_by;
    at = at;
  }
  modify (λ db. record db { level_events = db.level_events ++ (event ∷ []) })
  pure (record cap { level = req.proposed_to_level })

pub approve_promotion : RowId → RowId → RowId → Exec Capability
approve_promotion enterprise_id request_id decided_by = do
  req ← get_promotion_request enterprise_id request_id
  if is_pending req.status
      then (do cap ← get_capability_by_id req.capability_id; promote req cap decided_by)
      else raise conflict

pub reject_promotion : RowId → RowId → RowId → Exec PromotionRequest
reject_promotion enterprise_id request_id decided_by = do
  req ← get_promotion_request enterprise_id request_id
  if is_pending req.status
      then (do
        at ← now
        modify (decide req.id rejected decided_by at)
        pure (record req { status = rejected; decided_by = some decided_by; decided_at = some at }))
      else raise conflict
