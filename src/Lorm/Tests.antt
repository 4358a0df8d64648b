-- ===== src/Lorm/Tests.antt =====
-- The capability service at concrete inputs.
use smart_procurement_backen.Prelude.{◌≡◌, refl, true, none, [], ◌∷◌}
use smart_procurement_backen.Errors.{ok}
use smart_procurement_backen.Models.Lorm.{
  l3, l4, l5, index, level_of, level_name, Origin, pending, Capability, PromotionRequest,
}
use smart_procurement_backen.Session.{Session, require_one}
use smart_procurement_backen.Session.Sample.{empty_db, session_on}
use smart_procurement_backen.Lorm.{
  validate_target, check_step, approve_promotion, reject_promotion, get_promotion_request,
  get_capability_by_id, promote,
}
use smart_procurement_backen.Lorm.Approve.{Approves, approve_promotion-Approves}
use smart_procurement_backen.Lorm.History.{
  approve, reject, Reach, here, next, IsConsistent, Reach-IsConsistent,
}
use smart_procurement_backen.Lorm.Seed.{seed_capabilities, seed_loop}

abbrev buying : Capability
buying = record {
  id = 1;
  enterprise_id = 9;
  key = "proc.po.create";
  level = l3;
  l5_allowed = true;
  verification_tolerances = [];
  uncertainty_threshold = 300;
}

abbrev at_top : Capability
at_top = record buying { level = l5 }

abbrev request : PromotionRequest
request = record {
  id = 5;
  enterprise_id = 9;
  capability_id = 1;
  proposed_to_level = l4;
  rationale = "trusted";
  evidence = [];
  origin = Origin.human;
  status = pending;
  decided_by = none;
  decided_at = none;
}

abbrev start : Session
start =
    session_on (record empty_db { capabilities = buying ∷ []; promotion_requests = request ∷ [] })

approve_promotion-Approves_example : Approves 9 5 7 start (approve_promotion 9 5 7 start)
approve_promotion-Approves_example = approve_promotion-Approves 9 5 7 start

approved_now : (approve_promotion 9 5 7 start).0 ≡ ok (record buying { level = l4 })
unfolding approve_promotion get_promotion_request get_capability_by_id promote validate_target
    check_step index level_name level_of require_one
approved_now = refl

-- One approval, then a rejection that comes too late.
two_steps : Reach start (reject_promotion 9 5 8 (approve_promotion 9 5 7 start).1).1
two_steps = next (next here (approve 9 5 7)) (reject 9 5 8)

start-IsConsistent : IsConsistent (λ _. 3) start.db
unfolding index
start-IsConsistent = ((refl, λ e. refl), tt)

Reach-IsConsistent_example :
    IsConsistent (λ _. 3) (reject_promotion 9 5 8 (approve_promotion 9 5 7 start).1).1.db
Reach-IsConsistent_example = Reach-IsConsistent (λ _. 3) two_steps start-IsConsistent

-- Seven of the eight levels are missing beside "proc.po.create".
seeded_now : (seed_capabilities 9 start).0 ≡ ok 7
unfolding seed_capabilities seed_loop
seeded_now = refl
