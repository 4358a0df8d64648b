-- ===== src/Observability/Tests.antt =====
-- Gaps at concrete inputs.
use smart_procurement_backen.Prelude.{◌≡◌, refl, true, arith, List, [], ◌∷◌}
use smart_procurement_backen.Errors.{ok}
use smart_procurement_backen.Models.Observation.{source, source_ref, source_unavailable}
use smart_procurement_backen.Session.{Session}
use smart_procurement_backen.Session.Sample.{empty_db, session_on}
use smart_procurement_backen.Observability.{
  GapKey, open_gap, close_gap, count_open, has_open_for, current, existing_or_new, add_gap,
}
use smart_procurement_backen.Observability.Refined.{
  HasIds, Call, Refines, run_calls, run_calls-Refines,
}
use smart_procurement_backen.Observability.Unique.{IsUnique, Reach, Step, Reach-IsUnique}

abbrev key : GapKey
key = record {
  enterprise_id = 9;
  scope = source;
  scope_ref = source_ref 1;
  reason = source_unavailable;
}

abbrev start : Session
start = session_on empty_db

start-IsUnique : IsUnique start.gaps
start-IsUnique k = omega arith

two_calls : Reach start (close_gap key (open_gap key start).1).1
two_calls = Reach.next (Reach.next Reach.here (Step.opens key)) (Step.closes key)

Reach-IsUnique_example : IsUnique (close_gap key (open_gap key start).1).1.gaps
Reach-IsUnique_example = Reach-IsUnique two_calls start-IsUnique

opened_now : (has_open_for 9 source (source_ref 1) (open_gap key start).1).0 ≡ ok true
unfolding has_open_for open_gap current existing_or_new add_gap
opened_now = refl

counted_now : (count_open 9 (open_gap key start).1).0 ≡ ok 1
unfolding count_open open_gap current existing_or_new add_gap
counted_now = refl

-- The sample session draws ids upwards, and has no gap yet.
start-HasIds : HasIds start
start-HasIds = (λ id. omega arith, λ n above. refl, λ m n same. omega (arith, same))

twice : List Call
twice = Call.opens key ∷ Call.opens key ∷ Call.closes key ∷ []

run_calls-Refines_example : Refines twice start (run_calls twice start)
run_calls-Refines_example = run_calls-Refines twice start start-IsUnique start-HasIds
