-- ===== src/Risks/Detect.antt =====
-- detect_risks of src/app/analysis/rules.py and the queries that it assembles its inputs by.
use smart_procurement_backen.Prelude.{
  ℕ, Bool, not, ◌&&◌, Option, none, some, List, [], ◌∷◌, ◌++◌, if◌then◌else◌, ◌==◌, is_none,
}
use smart_procurement_backen.Prelude.Int.{ℤ}
use smart_procurement_backen.Prelude.Decimal.{to_units}
use smart_procurement_backen.Table.{select}
use smart_procurement_backen.Models.Basic.{RowId, Time}
use smart_procurement_backen.Models.Observation.{SkuAggregate}
use smart_procurement_backen.Models.Analysis.{RiskFinding}
use smart_procurement_backen.Models.Domain.{Entity, entity_index, Cell, decimal, ref, EntityRow}
use smart_procurement_backen.Session.{Exec, pure, gets, ◌>>=◌, now}
use smart_procurement_backen.Sync.References.{value_of}
use smart_procurement_backen.Aggregates.Queries.{
  is_trusted, is_lost, is_text, day_in, time_in, newest_first, delay_of,
}
use smart_procurement_backen.Risks.{RiskCandidate, apply_candidate}
use smart_procurement_backen.Risks.Rules.{
  ProductionDemandSnapshot, evaluate_likely_shortage, evaluate_insufficient_until_next_delivery,
  evaluate_production_stop_risk, evaluate_price_anomaly, evaluate_systematic_supplier_delay,
  evaluate_quality_degradation,
}

-- A numeric column in ten-thousandths.
abbrev pub units_in : Option Cell → Option ℤ
units_in (some (decimal d)) = some (to_units d)
units_in _ = none

abbrev pub ref_in : Option Cell → Option RowId
ref_in (some (ref id)) = some id
ref_in _ = none

abbrev pub days_of_first : List EntityRow → Option ℤ
days_of_first [] = none
days_of_first (row ∷ rows) = units_in (value_of "days" row.cells)

-- _latest_lead_time_days
unfoldable pub latest_lead_time_days : RowId → List EntityRow → Option ℤ
latest_lead_time_days item_id rows = days_of_first (
    newest_first (λ row. time_in (value_of "as_of" row.cells))
      (select (is_trusted Entity.lead_time item_id) rows))

abbrev pub add_demand :
    RowId → Option ℕ → List ProductionDemandSnapshot → List ProductionDemandSnapshot
add_demand item_id none demands = demands
add_demand item_id (some need_by) demands =
    record { item_id = item_id; need_by = need_by } ∷ demands

unfoldable pub demands_of : RowId → List EntityRow → List ProductionDemandSnapshot
demands_of item_id [] = []
demands_of item_id (row ∷ rows) =
    add_demand item_id (day_in (value_of "need_by" row.cells)) (demands_of item_id rows)

-- _production_demands
unfoldable pub production_demands : RowId → List EntityRow → List ProductionDemandSnapshot
unfolding demands_of
production_demands item_id rows =
    demands_of item_id (select (is_trusted Entity.production_demand item_id) rows)

-- `by_key.setdefault(key, []).append(value)`
unfoldable pub add_sample {ℓ} :
    {K : Type ℓ} → (K → K → Bool) → K → ℤ → List (K × List ℤ) → List (K × List ℤ)
add_sample same key value [] = (key, value ∷ []) ∷ []
add_sample same key value ((k, values) ∷ rest) =
    if same k key
    then (k, values ++ (value ∷ [])) ∷ rest
    else (k, values) ∷ add_sample same key value rest

abbrev pub same_id : RowId → RowId → Bool
same_id a b = a == b

abbrev pub same_pair : RowId × RowId → RowId × RowId → Bool
same_pair (a, b) (c, d) = a == c && b == d

abbrev pub is_delay_row : RowId → EntityRow → Bool
is_delay_row enterprise_id row =
    entity_index row.entity == entity_index Entity.purchase_order
    && row.enterprise_id == enterprise_id
    && is_text "received" (value_of "status" row.cells)
    && not (is_lost row.observability)
    && not (is_none (ref_in (value_of "supplier_id" row.cells)))
    && not (is_none (time_in (value_of "expected_at" row.cells)))
    && not (is_none (time_in (value_of "received_at" row.cells)))

abbrev pub add_delay : Option RowId → ℤ → List (RowId × List ℤ) → List (RowId × List ℤ)
add_delay none days samples = samples
add_delay (some supplier) days samples = add_sample same_id supplier days samples

unfoldable pub group_delays : List EntityRow → List (RowId × List ℤ) → List (RowId × List ℤ)
group_delays [] samples = samples
group_delays (row ∷ rows) samples =
    group_delays rows (add_delay (ref_in (value_of "supplier_id" row.cells)) (delay_of row) samples)

-- _supplier_delay_samples
unfoldable pub supplier_delay_samples : RowId → List EntityRow → List (RowId × List ℤ)
supplier_delay_samples enterprise_id rows =
    group_delays (select (is_delay_row enterprise_id) rows) []

abbrev pub is_quality_row : RowId → EntityRow → Bool
is_quality_row enterprise_id row =
    entity_index row.entity == entity_index Entity.quality_record
    && row.enterprise_id == enterprise_id
    && not (is_lost row.observability)
    && not (is_none (ref_in (value_of "supplier_id" row.cells)))
    && not (is_none (units_in (value_of "defect_rate" row.cells)))

-- The query and the column `item_id` leave no None here.
abbrev pub add_rate :
    Option RowId
    → Option RowId
    → Option ℤ
    → List ((RowId × RowId) × List ℤ)
    → List ((RowId × RowId) × List ℤ)
add_rate (some item) (some supplier) (some rate) samples =
    add_sample same_pair (item, supplier) rate samples
add_rate _ _ _ samples = samples

unfoldable pub group_rates :
    List EntityRow → List ((RowId × RowId) × List ℤ) → List ((RowId × RowId) × List ℤ)
group_rates [] samples = samples
group_rates (row ∷ rows) samples = group_rates rows (
    add_rate (ref_in (value_of "item_id" row.cells)) (ref_in (value_of "supplier_id" row.cells))
      (units_in (value_of "defect_rate" row.cells)) samples)

-- _quality_samples
unfoldable pub quality_samples : RowId → List EntityRow → List ((RowId × RowId) × List ℤ)
quality_samples enterprise_id rows = group_rates (select (is_quality_row enterprise_id) rows) []

-- `if candidate is not None: findings.append(await _apply(...))`
unfoldable pub apply_found :
    RowId
    → Option RowId
    → Option RowId
    → Option RiskCandidate
    → List RiskFinding
    → Exec (List RiskFinding)
apply_found enterprise_id item_id supplier_id none findings = pure findings
apply_found enterprise_id item_id supplier_id (some c) findings =
    apply_candidate enterprise_id c item_id supplier_id >>= λ f. pure (findings ++ (f ∷ []))

-- The rules on one aggregate.
unfoldable pub detect_aggregate :
    RowId → Time → SkuAggregate → List RiskFinding → Exec (List RiskFinding)
detect_aggregate enterprise_id at a findings = do
  lead_time_days ← gets (λ db. latest_lead_time_days a.item_id db.entities)
  short ←
      apply_found enterprise_id (some a.item_id) none (evaluate_likely_shortage a lead_time_days)
        findings
  late ←
      apply_found enterprise_id (some a.item_id) none
        (evaluate_insufficient_until_next_delivery a at) short
  demands ← gets (λ db. production_demands a.item_id db.entities)
  stopped ←
      apply_found enterprise_id (some a.item_id) none (evaluate_production_stop_risk a demands at)
        late
  apply_found enterprise_id (some a.item_id) none (evaluate_price_anomaly a) stopped

unfoldable pub detect_aggregates :
    RowId → Time → List SkuAggregate → List RiskFinding → Exec (List RiskFinding)
detect_aggregates enterprise_id at [] findings = pure findings
detect_aggregates enterprise_id at (a ∷ rest) findings =
    detect_aggregate enterprise_id at a findings >>= detect_aggregates enterprise_id at rest

unfoldable pub detect_delays :
    RowId → List (RowId × List ℤ) → List RiskFinding → Exec (List RiskFinding)
detect_delays enterprise_id [] findings = pure findings
detect_delays enterprise_id ((supplier, samples) ∷ rest) findings =
    apply_found enterprise_id none (some supplier)
      (evaluate_systematic_supplier_delay supplier samples) findings
    >>= detect_delays enterprise_id rest

unfoldable pub detect_quality :
    RowId → List ((RowId × RowId) × List ℤ) → List RiskFinding → Exec (List RiskFinding)
detect_quality enterprise_id [] findings = pure findings
detect_quality enterprise_id (((item, supplier), samples) ∷ rest) findings =
    apply_found enterprise_id (some item) (some supplier)
      (evaluate_quality_degradation item supplier samples) findings
    >>= detect_quality enterprise_id rest

unfoldable pub detect_risks : RowId → Exec (List RiskFinding)
detect_risks enterprise_id = do
  at ← now
  aggregates ←
      gets (λ db. select (λ (a : SkuAggregate). a.enterprise_id == enterprise_id) db.aggregates)
  found ← detect_aggregates enterprise_id at aggregates []
  delays ← gets (λ db. supplier_delay_samples enterprise_id db.entities)
  late ← detect_delays enterprise_id delays found
  rates ← gets (λ db. quality_samples enterprise_id db.entities)
  detect_quality enterprise_id rates late
