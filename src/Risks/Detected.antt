-- ===== src/Risks/Detected.antt =====
-- About detect_risks of src/app/analysis/rules.py.
use smart_procurement_backen.Prelude.{Option, none, some, List, [], ◌∷◌, ◌++◌, ◌==◌, ◌+◌}
use smart_procurement_backen.Prelude.Int.{ℤ}
use smart_procurement_backen.Table.{select}
use smart_procurement_backen.Models.Basic.{RowId, Time}
use smart_procurement_backen.Models.Observation.{SkuAggregate}
use smart_procurement_backen.Models.Analysis.{RiskFinding}
use smart_procurement_backen.Session.{Db, Session, pure}
use smart_procurement_backen.Session.Keeps.{Keeps, after-Keeps}
use smart_procurement_backen.Risks.{RiskCandidate, apply_candidate}
use smart_procurement_backen.Risks.Rules.{
  evaluate_likely_shortage, evaluate_insufficient_until_next_delivery,
  evaluate_production_stop_risk, evaluate_price_anomaly, evaluate_systematic_supplier_delay,
  evaluate_quality_degradation,
}
use smart_procurement_backen.Risks.Detect.{
  latest_lead_time_days, production_demands, supplier_delay_samples, quality_samples, apply_found,
  detect_aggregate, detect_aggregates, detect_delays, detect_quality, detect_risks,
}
use smart_procurement_backen.Risks.Unique.{IsDeduped, applied-IsDeduped}

-- What every application of a candidate keeps, a detection keeps.
module _ (P : Db → Type 0) (e : RowId)
    (applies : (c : RiskCandidate) (item supplier : Option RowId)
      → Keeps P (apply_candidate e c item supplier)) where
  found-Keeps :
      (item supplier : Option RowId) (c : Option RiskCandidate) (fs : List RiskFinding)
      → Keeps P (apply_found e item supplier c fs)
  unfolding apply_found
  found-Keeps item supplier none fs s h = h
  found-Keeps item supplier (some c) fs s h =
      after-Keeps P (λ f. pure (fs ++ (f ∷ []))) (apply_candidate e c item supplier s)
        (applies c item supplier s h) (λ _ u k. k)

  aggregate-Keeps :
      (at : Time) (a : SkuAggregate) (fs : List RiskFinding) → Keeps P (detect_aggregate e at a fs)
  unfolding detect_aggregate
  aggregate-Keeps at a fs s h =
      let lead = latest_lead_time_days a.item_id s.entities in
      after-Keeps P _ (apply_found e (some a.item_id) none (evaluate_likely_shortage a lead) fs s)
        (found-Keeps (some a.item_id) none (evaluate_likely_shortage a lead) fs s h)
        (λ short u k.
          after-Keeps P _
            (apply_found e (some a.item_id) none (evaluate_insufficient_until_next_delivery a at)
              short u)
            (found-Keeps (some a.item_id) none (evaluate_insufficient_until_next_delivery a at)
              short u k)
            (λ late v m.
              let demands = production_demands a.item_id v.entities in
              after-Keeps P _
                (apply_found e (some a.item_id) none (evaluate_production_stop_risk a demands at)
                  late v)
                (found-Keeps (some a.item_id) none (evaluate_production_stop_risk a demands at) late
                  v m)
                (found-Keeps (some a.item_id) none (evaluate_price_anomaly a))))

  aggregates-Keeps :
      (at : Time) (rows : List SkuAggregate) (fs : List RiskFinding)
      → Keeps P (detect_aggregates e at rows fs)
  unfolding detect_aggregates
  aggregates-Keeps at [] fs s h = h
  aggregates-Keeps at (a ∷ rows) fs s h =
      after-Keeps P (detect_aggregates e at rows) (detect_aggregate e at a fs s)
        (aggregate-Keeps at a fs s h) (aggregates-Keeps at rows)

  delays-Keeps :
      (samples : List (RowId × List ℤ)) (fs : List RiskFinding)
      → Keeps P (detect_delays e samples fs)
  unfolding detect_delays
  delays-Keeps [] fs s h = h
  delays-Keeps ((supplier, values) ∷ rest) fs s h =
      after-Keeps P (detect_delays e rest)
        (apply_found e none (some supplier) (evaluate_systematic_supplier_delay supplier values) fs
          s)
        (found-Keeps none (some supplier) (evaluate_systematic_supplier_delay supplier values) fs s
          h)
        (delays-Keeps rest)

  quality-Keeps :
      (samples : List ((RowId × RowId) × List ℤ)) (fs : List RiskFinding)
      → Keeps P (detect_quality e samples fs)
  unfolding detect_quality
  quality-Keeps [] fs s h = h
  quality-Keeps (((item, supplier), values) ∷ rest) fs s h =
      after-Keeps P (detect_quality e rest)
        (apply_found e (some item) (some supplier)
          (evaluate_quality_degradation item supplier values) fs s)
        (found-Keeps (some item) (some supplier) (evaluate_quality_degradation item supplier values)
          fs s h)
        (quality-Keeps rest)

  pub detect_risks-Keeps : (s : Session) → P s.db → P (detect_risks e s).1.db
  unfolding detect_risks
  detect_risks-Keeps s h =
      let rows = select (λ (a : SkuAggregate). a.enterprise_id == e) s.aggregates in
      let begun : Session = record s { ticks = s.ticks + 1 } in
      after-Keeps P _ (detect_aggregates e (s.clock s.ticks) rows [] begun)
        (aggregates-Keeps (s.clock s.ticks) rows [] begun h)
        (λ found u k.
          after-Keeps P _ (detect_delays e (supplier_delay_samples e u.entities) found u)
            (delays-Keeps (supplier_delay_samples e u.entities) found u k)
            (λ late v m. quality-Keeps (quality_samples e v.entities) late v m))

-- If for each enterprise, type, item and supplier at most one finding is not terminal, this is so after
-- a detection, whether it returns or raises.
pub detect_risks-IsDeduped :
    (enterprise_id : RowId) (s : Session)
    → IsDeduped s.findings
    → IsDeduped (detect_risks enterprise_id s).1.findings
detect_risks-IsDeduped enterprise_id s h =
    detect_risks-Keeps (λ db. IsDeduped db.findings) enterprise_id (applied-IsDeduped enterprise_id)
      s h
