-- ===== src/Lorm/History.antt =====
-- About sequences of calls of src/app/lorm/capability_service.py and the history they write.
use smart_procurement_backen.Prelude.{
  ℕ, ◌+◌, ◌≡◌, String, true, false, List, [], ◌∷◌, ◌++◌, arith, ==_iff, ==_refl, ◌==◌,
  if◌then◌else◌, All, All-both, length, length-append, ap, ◌∙◌,
}
use smart_procurement_backen.Errors.{Result, ok, err}
use smart_procurement_backen.Table.{select}
use smart_procurement_backen.Table.Select.{select-All, select-eq-one, select-append}
use smart_procurement_backen.Table.Update.{All-update}
use smart_procurement_backen.Models.Basic.{RowId, Time}
use smart_procurement_backen.Models.Lorm.{
  Level, l5, index, Capability, CapabilityLevelEvent, PromotionRequest, approved,
}
use smart_procurement_backen.Session.{Db, Session}
use smart_procurement_backen.Lorm.{
  has_capability_id, decide, set_level, create_promotion_request, approve_promotion,
  reject_promotion,
}
use smart_procurement_backen.Lorm.Target.{IsAllowed}
use smart_procurement_backen.Lorm.Approve.{Approves, approve_promotion-Approves}
use smart_procurement_backen.Lorm.Requests.{
  Rejects, reject_promotion-Rejects, Requests, create_promotion_request-Requests,
}

-- One call of the service, by anyone, for any enterprise, whether it succeeds or raises.
pub data Step (s : Session) : Session → Type 0 where
  create :
      (enterprise_id : RowId) (key target rationale : String) (created_by : RowId)
      → Step s (create_promotion_request enterprise_id key target rationale created_by s).1
  approve :
      (enterprise_id request_id decided_by : RowId)
      → Step s (approve_promotion enterprise_id request_id decided_by s).1
  reject :
      (enterprise_id request_id decided_by : RowId)
      → Step s (reject_promotion enterprise_id request_id decided_by s).1

pub data Reach (s : Session) : Session → Type 0 where
  here : Reach s s
  next : {t u : Session} → Reach s t → Step t u → Reach s u

-- How many level events of a capability are recorded.
abbrev pub recorded_changes : RowId → List CapabilityLevelEvent → ℕ
recorded_changes capability_id events =
    length (select (λ e. e.capability_id == capability_id) events)

-- `seed` is the level index that each capability was created with.
abbrev pub IsRecorded : (RowId → ℕ) → List CapabilityLevelEvent → Capability → Type 0
IsRecorded seed events c =
    (index c.level ≡ seed c.id + recorded_changes c.id events)
    × (c.level ≡ l5 → c.l5_allowed ≡ true)

abbrev pub IsConsistent : (RowId → ℕ) → Db → Type 0
IsConsistent seed db = All (IsRecorded seed db.level_events) db.capabilities

recorded_changes-snoc :
    (capability_id : RowId) (events : List CapabilityLevelEvent) (e : CapabilityLevelEvent)
    → recorded_changes capability_id (events ++ (e ∷ []))
      ≡ recorded_changes capability_id events + (if e.capability_id == capability_id then 1 else 0)
recorded_changes-snoc capability_id events e =
    rw (select-append (λ x. x.capability_id == capability_id) events (e ∷ [])) (
      rw
        (length-append (select (λ x. x.capability_id == capability_id) events)
          (select (λ x. x.capability_id == capability_id) (e ∷ [])))
        (ground arith))

raised_index :
    (l m n : Level) (a b : ℕ)
    → m ≡ n
    → index l ≡ index n + 1
    → index m ≡ a + b
    → index l ≡ a + (b + 1)
raised_index l m n a b e one k = omega (arith, ap index e)

module _ (seed : RowId → ℕ) where
  -- The promoted capability: one level and one event more.
  raised :
      (x c : Capability) (l : Level) (event : CapabilityLevelEvent)
      (events : List CapabilityLevelEvent)
      → x ≡ c
      → IsAllowed c l
      → event.capability_id ≡ c.id
      → IsRecorded seed events x
      → IsRecorded seed (events ++ (event ∷ [])) (record x { level = l })
  raised x c l event events e a own k =
      let id_eq : x.id ≡ c.id = ap (λ (y : Capability). y.id) e in
      let level_eq : x.level ≡ c.level = ap (λ (y : Capability). y.level) e in
      let flag_eq : x.l5_allowed ≡ c.l5_allowed = ap (λ (y : Capability). y.l5_allowed) e in
      (
        rw (recorded_changes-snoc x.id events event) (
            rw (own, id_eq, ==_refl c.id)
              (raised_index l x.level c.level (seed c.id) (recorded_changes c.id events) level_eq
                a.one_step (rw (id_eq) at k.0))),
        λ top. flag_eq ∙ a.capped top,
      )

  -- Any other capability: its level and its events stay.
  kept :
      (x c : Capability) (event : CapabilityLevelEvent) (events : List CapabilityLevelEvent)
      → (x.id == c.id) ≡ false
      → event.capability_id ≡ c.id
      → IsRecorded seed events x
      → IsRecorded seed (events ++ (event ∷ [])) x
  kept x c event events ne own k =
      (rw (recorded_changes-snoc x.id events event) (ground (arith, ==_iff x.id c.id)), k.1)

  promoted-IsConsistent :
      (req : PromotionRequest) (c : Capability) (event : CapabilityLevelEvent) (by : RowId)
      (at : Time) (db : Db)
      → select (has_capability_id req.capability_id) db.capabilities ≡ c ∷ []
      → IsAllowed c req.proposed_to_level
      → event.capability_id ≡ c.id
      → IsConsistent seed db
      → IsConsistent seed
          (record (decide req.id approved by at (set_level c.id req.proposed_to_level db)) {
            level_events = db.level_events ++ (event ∷ []);
          })
  promoted-IsConsistent req c event by at db one a e h =
      let own = rw one at (select-All (has_capability_id req.capability_id) db.capabilities) in
      All-update (has_capability_id c.id) (λ x. record x { level = req.proposed_to_level })
        (λ x.
          (has_capability_id req.capability_id x ≡ true → x ≡ c)
          × IsRecorded seed db.level_events x)
        (IsRecorded seed (db.level_events ++ (event ∷ [])))
        (λ x k m.
          raised x c req.proposed_to_level event db.level_events (k.0 (ground (arith, own.0))) a e
            k.1)
        (λ x k m. kept x c event db.level_events m e k.1) db.capabilities
        (All-both (λ x. has_capability_id req.capability_id x ≡ true → x ≡ c)
          (IsRecorded seed db.level_events) db.capabilities
          (select-eq-one (has_capability_id req.capability_id) c db.capabilities one) h)

  approved-IsConsistent :
      (enterprise_id request_id by : RowId) (s : Session) (r : Result Capability × Session)
      → Approves enterprise_id request_id by s r
      → IsConsistent seed s.db
      → IsConsistent seed r.1.db
  approved-IsConsistent enterprise_id request_id by s (ok c', s')
        (req, c, event, one, waits, one_cap, a, same, own, from, to, trigger, actor, written) h =
      rw written (promoted-IsConsistent req c event by (s.clock s.ticks) s.db one_cap a own h)
  approved-IsConsistent enterprise_id request_id by s (err e, s') same h = rw same h

  rejected-IsConsistent :
      (enterprise_id request_id by : RowId) (s : Session) (r : Result PromotionRequest × Session)
      → Rejects enterprise_id request_id by s r
      → IsConsistent seed s.db
      → IsConsistent seed r.1.db
  rejected-IsConsistent enterprise_id request_id by s (ok r', s') (req, one, waits, written) h =
      rw written h
  rejected-IsConsistent enterprise_id request_id by s (err e, s') same h = rw same h

  requested-IsConsistent :
      (enterprise_id : RowId) (key : String) (s : Session) (r : Result PromotionRequest × Session)
      → Requests enterprise_id key s r
      → IsConsistent seed s.db
      → IsConsistent seed r.1.db
  requested-IsConsistent enterprise_id key s (ok req, s') (c, one, own, waits, human, a, written)
        h =
      rw written h
  requested-IsConsistent enterprise_id key s (err e, s') same h = rw same h

  pub Step-IsConsistent :
      {s t : Session} → Step s t → IsConsistent seed s.db → IsConsistent seed t.db
  Step-IsConsistent {s} (create e k g r b) h =
      requested-IsConsistent e k s (create_promotion_request e k g r b s)
        (create_promotion_request-Requests e k g r b s) h
  Step-IsConsistent {s} (approve e q b) h =
      approved-IsConsistent e q b s (approve_promotion e q b s) (approve_promotion-Approves e q b s)
        h
  Step-IsConsistent {s} (reject e q b) h =
      rejected-IsConsistent e q b s (reject_promotion e q b s) (reject_promotion-Rejects e q b s) h

  -- From a database where each level is the seed level plus the recorded level changes and no capped
  -- capability is at L5, every sequence of calls leads to such a database.
  pub Reach-IsConsistent :
      {s t : Session} → Reach s t → IsConsistent seed s.db → IsConsistent seed t.db
  Reach-IsConsistent here h = h
  Reach-IsConsistent (next r st) h = Step-IsConsistent st (Reach-IsConsistent r h)
