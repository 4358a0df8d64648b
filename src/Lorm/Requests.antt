-- ===== src/Lorm/Requests.antt =====
-- About create_promotion_request and reject_promotion of src/app/lorm/capability_service.py, and about
-- decided requests.
use smart_procurement_backen.Prelude.{
  ◌≡◌, refl, String, true, false, some, List, [], ◌∷◌, ◌++◌, arith, Bool-cases, inl, inr, ==_refl,
  ◌==◌, ◌≢◌, ap, ◌∙◌,
}
use smart_procurement_backen.Errors.{Result, ok, err, conflict, Result-cases}
use smart_procurement_backen.Table.{select}
use smart_procurement_backen.Table.Select.{select-All}
use smart_procurement_backen.Table.Update.{select-update_same}
use smart_procurement_backen.Models.Basic.{RowId, Time}
use smart_procurement_backen.Models.Lorm.{
  Origin, RequestStatus, pending, approved, rejected, Capability, PromotionRequest,
}
use smart_procurement_backen.Session.{Db, Session, after, require_one-cases, require_one-single}
use smart_procurement_backen.Lorm.{
  has_key, has_request_id, is_pending, decide, validate_target, get_capability,
  create_promotion_request, get_promotion_request, approve_promotion, reject_promotion,
}
use smart_procurement_backen.Lorm.Target.{IsAllowed, validate_target-ok}
use smart_procurement_backen.Lorm.Approve.{Approves, approve_promotion-Approves, is_pending-true}

-- What a rejection has done: only the decision of one pending request, or nothing.
abbrev pub Rejects : RowId → RowId → RowId → Session → Result PromotionRequest × Session → Type 0
Rejects enterprise_id request_id decided_by s (ok r', s') =
    (req : PromotionRequest) × (select (has_request_id enterprise_id request_id)
        s.promotion_requests
      ≡ req ∷ [])
    × (req.status ≡ pending)
    × (s'.db ≡ decide req.id rejected decided_by (s.clock s.ticks) s.db)
Rejects enterprise_id request_id decided_by s (err e, s') = s'.db ≡ s.db

-- A rejection decides the only request with the id, which was pending, and changes nothing else;
-- a call that raises changes no table.
pub reject_promotion-Rejects :
    (enterprise_id request_id decided_by : RowId) (s : Session)
    → Rejects enterprise_id request_id decided_by s
        (reject_promotion enterprise_id request_id decided_by s)
unfolding reject_promotion get_promotion_request
reject_promotion-Rejects enterprise_id request_id decided_by s =
    elim (require_one-cases (select (has_request_id enterprise_id request_id) s.promotion_requests)
      s) [
        | inr (e, bad) ↦ rw (bad, after) refl
        | inl (req, one, good) ↦
            rw (good, after)
              (elim (Bool-cases (is_pending req.status)) [
                | inr decided ↦ rw decided refl
                | inl waits ↦ rw waits (req, one, is_pending-true req.status waits, refl)
              ])
      ]

-- What a request has added: one pending human request for an allowed step of a capability of the
-- enterprise, or nothing.
abbrev pub Requests : RowId → String → Session → Result PromotionRequest × Session → Type 0
Requests enterprise_id key s (ok req, s') =
    (c : Capability) × (select (has_key enterprise_id key) s.capabilities ≡ c ∷ [])
    × (req.capability_id ≡ c.id)
    × (req.status ≡ pending)
    × (req.origin ≡ Origin.human)
    × IsAllowed c req.proposed_to_level
    × (s'.db ≡ record s.db { promotion_requests = s.promotion_requests ++ (req ∷ []) })
Requests enterprise_id key s (err e, s') = s'.db ≡ s.db

-- A request adds one pending row of human origin for the only capability with the key, for a
-- target that the capability allows, and changes nothing else; a call that raises changes no
-- table.
pub create_promotion_request-Requests :
    (enterprise_id : RowId) (key target rationale : String) (created_by : RowId) (s : Session)
    → Requests enterprise_id key s
        (create_promotion_request enterprise_id key target rationale created_by s)
unfolding create_promotion_request get_capability
create_promotion_request-Requests enterprise_id key target rationale created_by s =
    elim (require_one-cases (select (has_key enterprise_id key) s.capabilities) s) [
      | inr (e, bad) ↦ rw (bad, after) refl
      | inl (c, one, good) ↦
          rw (good, after)
            (elim (Result-cases (validate_target c target)) [
              | inr (e, bad) ↦ rw (bad, after) refl
              | inl (_, valid) ↦
                  rw (valid, after)
                    (let (l, named, a) = validate_target-ok c target valid in
                      rw (named, after) (c, one, refl, refl, refl, a, refl))
            ])
    ]

-- The row that a query by id returned has that id.
has_request_id-split :
    (enterprise_id request_id : RowId) (rows : List PromotionRequest) (req : PromotionRequest)
    → select (has_request_id enterprise_id request_id) rows ≡ req ∷ []
    → has_request_id enterprise_id request_id req ≡ true
has_request_id-split enterprise_id request_id rows req one =
    let found = select-All (has_request_id enterprise_id request_id) rows in (rw one at found).0

-- After a decision the same query returns the same request, decided.
pub select-decide :
    (enterprise_id request_id decided_by : RowId) (status : RequestStatus) (at : Time) (db : Db)
    (req : PromotionRequest)
    → select (has_request_id enterprise_id request_id) db.promotion_requests ≡ req ∷ []
    → select
        (has_request_id enterprise_id request_id)
        (decide req.id status decided_by at db).promotion_requests
      ≡ record req { status = status; decided_by = some decided_by; decided_at = some at } ∷ []
select-decide enterprise_id request_id decided_by status at db req one =
    rw
      (select-update_same (λ r. r.id == req.id)
        (λ r. record r { status = status; decided_by = some decided_by; decided_at = some at })
        (has_request_id enterprise_id request_id) (λ x. refl) db.promotion_requests)
      (rw (one, ==_refl req.id) refl)

not_pending : (status : RequestStatus) → status ≢ pending → is_pending status ≡ false
not_pending status h = ground arith

-- A request that is not pending can be neither approved nor rejected, and nothing is written.
pub decided-conflict :
    (enterprise_id request_id decided_by : RowId) (s : Session) (req : PromotionRequest)
    → select (has_request_id enterprise_id request_id) s.promotion_requests ≡ req ∷ []
    → req.status ≢ pending
    → (approve_promotion enterprise_id request_id decided_by s ≡ (err conflict, s))
      × (reject_promotion enterprise_id request_id decided_by s ≡ (err conflict, s))
unfolding approve_promotion reject_promotion get_promotion_request
decided-conflict enterprise_id request_id decided_by s req one decided = (
  rw (one, require_one-single req s, not_pending req.status decided) refl,
  rw (one, require_one-single req s, not_pending req.status decided) refl,
)

-- On the tables that an approval has left, approving or rejecting the same request again is
-- refused as a conflict and writes nothing.
pub approve_promotion-final :
    (enterprise_id request_id decided_by again_by : RowId) (s : Session) (c : Capability)
    → (approve_promotion enterprise_id request_id decided_by s).0 ≡ ok c
    → let s' = (approve_promotion enterprise_id request_id decided_by s).1 in
      (approve_promotion enterprise_id request_id again_by s' ≡ (err conflict, s'))
      × (reject_promotion enterprise_id request_id again_by s' ≡ (err conflict, s'))
approve_promotion-final enterprise_id request_id decided_by again_by s c done =
    go (approve_promotion enterprise_id request_id decided_by s)
      (approve_promotion-Approves enterprise_id request_id decided_by s) done
  where
    go :
        (r : Result Capability × Session)
        → Approves enterprise_id request_id decided_by s r
        → r.0 ≡ ok c
        → (approve_promotion enterprise_id request_id again_by r.1 ≡ (err conflict, r.1))
          × (reject_promotion enterprise_id request_id again_by r.1 ≡ (err conflict, r.1))
    go (ok c', s') (req, cap0, event, one, waits, one_cap, a, same, k, f, t, tr, ac, written) e =
        decided-conflict enterprise_id request_id again_by s'
          (record req {
            status = approved;
            decided_by = some decided_by;
            decided_at = some (s.clock s.ticks);
          })
          (ap (λ (d : Db). select (has_request_id enterprise_id request_id) d.promotion_requests)
              written
            ∙ select-decide enterprise_id request_id decided_by approved (s.clock s.ticks) s.db req
                one)
          (λ h. cc)
    go (err x, s') same e = cc
