-- ===== src/Risks/Tests.antt =====
-- Findings at concrete inputs.
use smart_procurement_backen.Prelude.{◌≡◌, refl, none, some, [], ◌∷◌, arith, length}
use smart_procurement_backen.Models.Analysis.{RiskType, Severity, SignalType, ObservationSignal}
use smart_procurement_backen.Session.{Session}
use smart_procurement_backen.Session.Sample.{empty_db, session_on}
use smart_procurement_backen.Jobs.{enqueue}
use smart_procurement_backen.Risks.{
  RiskCandidate, apply_candidate, find_or_create, find_non_terminal, found_or_new, link_if_any,
  link_new_evidence, add_links, maybe_enqueue_explanation, enqueue_explanation,
}
use smart_procurement_backen.Risks.Dismissal.{dismiss_risk}
use smart_procurement_backen.Risks.Unique.{IsDeduped, Reach, Step, Reach-IsDeduped}
use smart_procurement_backen.Prelude.Int.{pos}
use smart_procurement_backen.Models.Observation.{SkuAggregate}
use smart_procurement_backen.Risks.Rules.{
  evaluate_likely_shortage, evaluate_systematic_supplier_delay, sum_values,
}
use smart_procurement_backen.Risks.Thresholds.{Explains, likely_shortage-Explains}
use smart_procurement_backen.Risks.Samples.{Delays, supplier_delay-Delays}
use smart_procurement_backen.Risks.Detect.{detect_risks}
use smart_procurement_backen.Risks.Detected.{detect_risks-IsDeduped}
use smart_procurement_backen.Risks.Queued.{Awaits, apply_candidate-Awaits}
use smart_procurement_backen.Risks.Dismiss.{Dismisses, dismiss_risk-Dismisses}

abbrev shortage : RiskCandidate
shortage = record {
  risk_type = RiskType.likely_shortage;
  item_id = some 40;
  supplier_id = none;
  severity = Severity.high;
}

abbrev drop : ObservationSignal
drop = record {
  id = 60;
  enterprise_id = 9;
  data_source_id = 1;
  signal_type = SignalType.stock_change;
  item_id = some 40;
  supplier_id = none;
  payload = [];
  observed_at = 900;
  ingested_at = 900;
}

abbrev start : Session
start = session_on (record empty_db { signals = drop ∷ [] })

start-IsDeduped : IsDeduped start.findings
start-IsDeduped e c = omega arith

abbrev detected : Session
detected = (apply_candidate 9 shortage (some 40) none start).1

abbrev twice : Session
twice = (apply_candidate 9 shortage (some 40) none detected).1

-- Detected twice: one finding, one link, one job.
counted :
    length twice.findings ∷ length twice.signal_links ∷ length twice.jobs ∷ [] ≡ 1 ∷ 1 ∷ 1 ∷ []
unfolding apply_candidate find_or_create find_non_terminal found_or_new link_if_any
    link_new_evidence add_links maybe_enqueue_explanation enqueue_explanation enqueue
counted = refl

three_calls : Reach start (dismiss_risk 9 7 100 "known" twice).1
three_calls =
    Reach.next
      (Reach.next (Reach.next Reach.here (Step.apply 9 shortage (some 40) none))
        (Step.apply 9 shortage (some 40) none))
      (Step.dismiss 9 7 100 "known")

Reach-IsDeduped_example : IsDeduped (dismiss_risk 9 7 100 "known" twice).1.findings
Reach-IsDeduped_example = Reach-IsDeduped three_calls start-IsDeduped

dismiss_risk-Dismisses_example :
    Dismisses 9 7 100 "known" twice (dismiss_risk 9 7 100 "known" twice)
dismiss_risk-Dismisses_example = dismiss_risk-Dismisses 9 7 100 "known" twice

-- Two days of cover.
abbrev low_cover : SkuAggregate
low_cover = record {
  id = 70;
  enterprise_id = 9;
  item_id = 40;
  warehouse_id = none;
  avg_daily_consumption = some (pos 10_000);
  days_of_cover = some (pos 20_000);
  next_expected_delivery_at = none;
  last_price = none;
  price_trend = some (pos 2_500);
  avg_supplier_delay_days = none;
  computed_at = 900;
}

likely_shortage-Explains_example :
    Explains (pos 20_000) (pos 100_000) (evaluate_likely_shortage low_cover (some (pos 100_000)))
likely_shortage-Explains_example =
    likely_shortage-Explains low_cover (pos 20_000) (pos 100_000) refl

supplier_delay-Delays_example :
    Delays
      (sum_values (pos 9 ∷ pos 1 ∷ pos 5 ∷ []))
      3
      (evaluate_systematic_supplier_delay 50 (pos 9 ∷ pos 1 ∷ pos 5 ∷ []))
supplier_delay-Delays_example = supplier_delay-Delays 50 (pos 9 ∷ pos 1 ∷ pos 5 ∷ [])

abbrev watched : Session
watched = session_on (record empty_db { signals = drop ∷ []; aggregates = low_cover ∷ [] })

detect_risks-IsDeduped_example : IsDeduped (detect_risks 9 watched).1.findings
detect_risks-IsDeduped_example = detect_risks-IsDeduped 9 watched (λ _ _. omega arith)

apply_candidate-Awaits_example : Awaits (apply_candidate 9 shortage (some 40) none detected)
apply_candidate-Awaits_example = apply_candidate-Awaits 9 shortage (some 40) none detected
