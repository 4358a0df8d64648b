-- ===== src/Lorm/Approve.antt =====
-- About approve_promotion of src/app/lorm/capability_service.py.
use smart_procurement_backen.Prelude.{
  ◌+◌, ◌≡◌, refl, true, some, [], ◌∷◌, ◌++◌, arith, Bool-cases, inl, inr,
}
use mathlib.Core.Path.{subst}
use smart_procurement_backen.Errors.{Result, ok, err, Result-cases}
use smart_procurement_backen.Table.{select}
use smart_procurement_backen.Models.Basic.{RowId}
use smart_procurement_backen.Models.Lorm.{
  Level, level_name, promotion, Trigger, RequestStatus, pending, approved, Capability,
  CapabilityLevelEvent, PromotionRequest,
}
use smart_procurement_backen.Session.{Session, after, require_one-cases}
use smart_procurement_backen.Lorm.{
  has_request_id, has_capability_id, is_pending, set_level, decide, promote, approve_promotion,
  get_promotion_request, get_capability_by_id, validate_target, reason_of,
}
use smart_procurement_backen.Lorm.Target.{IsAllowed, validate_target-ok, level_of-level_name}

-- What an approval has done, by how it ended. On success the request and the capability are the
-- only rows with their ids, the request was pending, its level is an allowed step for the
-- capability, and the tables differ in the level, the decision and one event that joins both levels.
abbrev pub Approves : RowId → RowId → RowId → Session → Result Capability × Session → Type 0
Approves enterprise_id request_id decided_by s (ok c', s') =
    (req : PromotionRequest) × (c : Capability) × (event : CapabilityLevelEvent) × (select
        (has_request_id enterprise_id request_id) s.promotion_requests
      ≡ req ∷ [])
    × (req.status ≡ pending)
    × (select (has_capability_id req.capability_id) s.capabilities ≡ c ∷ [])
    × IsAllowed c req.proposed_to_level
    × (c' ≡ record c { level = req.proposed_to_level })
    × (event.capability_id ≡ c.id)
    × (event.from_level ≡ c.level)
    × (event.to_level ≡ req.proposed_to_level)
    × (event.trigger ≡ Trigger.human)
    × (event.actor_id ≡ some decided_by)
    × (s'.db
        ≡ record (decide req.id approved decided_by (s.clock s.ticks)
            (set_level c.id req.proposed_to_level s.db)) {
              level_events = s.db.level_events ++ (event ∷ []);
            })
Approves enterprise_id request_id decided_by s (err e, s') = s'.db ≡ s.db

pub allowed :
    (c : Capability) (l : Level) → validate_target c (level_name l) ≡ ok tt → IsAllowed c l
allowed c l h =
    let (k, named, a) = validate_target-ok c (level_name l) h in
    let e : k ≡ l = cc (named, level_of-level_name l) in subst (IsAllowed c) e a

-- The part of the call that follows the two queries.
promote-Approves :
    (enterprise_id request_id decided_by : RowId) (req : PromotionRequest) (c : Capability)
    (s : Session)
    → select (has_request_id enterprise_id request_id) s.promotion_requests ≡ req ∷ []
    → req.status ≡ pending
    → select (has_capability_id req.capability_id) s.capabilities ≡ c ∷ []
    → Approves enterprise_id request_id decided_by s (promote req c decided_by s)
unfolding promote
promote-Approves enterprise_id request_id decided_by req c s one_req waits one_cap =
    elim (Result-cases (validate_target c (level_name req.proposed_to_level))) [
      | inr (e, bad) ↦ rw (bad, after) refl
      | inl (_, good) ↦
          rw (good, after)
            (
              req,
              c,
              record {
                id = s.uuids s.drawn;
                capability_id = c.id;
                direction = promotion;
                from_level = c.level;
                to_level = req.proposed_to_level;
                reason = reason_of req.rationale;
                trigger = Trigger.human;
                actor_id = some decided_by;
                at = s.clock (s.ticks + 1);
              },
              one_req,
              waits,
              one_cap,
              allowed c req.proposed_to_level good,
              refl,
              refl,
              refl,
              refl,
              refl,
              refl,
              refl,
            )
    ]

pub is_pending-true : (status : RequestStatus) → is_pending status ≡ true → status ≡ pending
is_pending-true status h = ground arith

-- An approval decides the only request with the id, which was pending, moves its capability
-- exactly one allowed level up and adds one event of it; a call that raises changes no table.
pub approve_promotion-Approves :
    (enterprise_id request_id decided_by : RowId) (s : Session)
    → Approves enterprise_id request_id decided_by s
        (approve_promotion enterprise_id request_id decided_by s)
unfolding approve_promotion get_promotion_request get_capability_by_id
approve_promotion-Approves enterprise_id request_id decided_by s =
    elim (require_one-cases (select (has_request_id enterprise_id request_id) s.promotion_requests)
      s) [
        | inr (e, bad) ↦ rw (bad, after) refl
        | inl (req, one, good) ↦
            rw (good, after)
              (elim (Bool-cases (is_pending req.status)) [
                | inr decided ↦ rw decided refl
                | inl waits ↦
                    rw waits
                      (elim (require_one-cases
                        (select (has_capability_id req.capability_id) s.capabilities) s) [
                          | inr (e, bad) ↦ rw (bad, after) refl
                          | inl (c, one_cap, found) ↦
                              rw (found, after)
                                (promote-Approves enterprise_id request_id decided_by req c s one
                                  (is_pending-true req.status waits) one_cap)
                        ])
              ])
      ]
