-- ===== src/Risks/Rules.antt =====
-- The rules of src/app/analysis/rules.py, which need no database. A quantity is an integer of
-- ten-thousandths, as the columns hold it, and a ratio is compared as a fraction: at four decimal places
-- the 28 digits of the decimal context do not move a quotient across a threshold.
use smart_procurement_backen.Prelude.{
  ℕ, ◌+◌, ◌*◌, ◌/◌, Bool, ◌||◌, Option, none, some, List, [], ◌∷◌, if◌then◌else◌, ◌==◌, leb, ltb,
  length,
}
use smart_procurement_backen.Prelude.Int.{ℤ, pos, negsuc, pos_part, neg_part, leb_ℤ, ltb_ℤ, sub_ℕ}
use smart_procurement_backen.Prelude.Decimal.{days_between}
use smart_procurement_backen.Models.Basic.{RowId, Time}
use smart_procurement_backen.Models.Observation.{SkuAggregate}
use smart_procurement_backen.Models.Analysis.{RiskType, Severity}
use smart_procurement_backen.Risks.{RiskCandidate}

-- A fraction of a positive denominator.
pub record Ratio : Type 0 where
  pub numerator : ℤ
  pub denominator : ℤ

-- `ratio >= p / q`
abbrev pub ratio_ge : Ratio → ℕ → ℕ → Bool
ratio_ge r p q =
    leb (p * pos_part r.denominator + q * neg_part r.numerator)
      (q * pos_part r.numerator + p * neg_part r.denominator)

-- _severity_from_ratio, with the thresholds of `high` and `med` as fractions
unfoldable pub severity_from_ratio : Ratio → ℕ → ℕ → ℕ → ℕ → Severity
severity_from_ratio r high_p high_q med_p med_q =
    if ratio_ge r high_p high_q
    then Severity.high
    else if ratio_ge r med_p med_q
    then Severity.med
    else Severity.low

-- A number of days in ten-thousandths.
abbrev pub day_units : ℤ → ℤ
day_units (pos n) = pos (10_000 * n)
day_units (negsuc n) = negsuc (10_000 * n + 9_999)

abbrev pub candidate : RiskType → Option RowId → Option RowId → Severity → RiskCandidate
candidate risk_type item_id supplier_id severity = record {
  risk_type = risk_type;
  item_id = item_id;
  supplier_id = supplier_id;
  severity = severity;
}

-- `1 - days_of_cover / limit`
abbrev pub shortfall : ℤ → ℤ → Ratio
shortfall cover limit = record {
  numerator = sub_ℕ (pos_part limit + neg_part cover) (neg_part limit + pos_part cover);
  denominator = limit;
}

-- The common end of the three rules on `days_of_cover`, against a limit in ten-thousandths of a day.
unfoldable pub cover_candidate : RiskType → RowId → ℤ → ℤ → Option RiskCandidate
unfolding severity_from_ratio
cover_candidate risk_type item_id cover limit =
    if leb_ℤ limit (pos 0) || leb_ℤ limit cover
    then none
    else some (
        candidate risk_type (some item_id) none
          (severity_from_ratio (shortfall cover limit) 3 4 1 4))

-- `days_of_cover` against a limit, where both are known.
abbrev pub from_cover : RiskType → RowId → Option ℤ → Option ℤ → Option RiskCandidate
from_cover risk_type item_id (some cover) (some limit) =
    cover_candidate risk_type item_id cover limit
from_cover risk_type item_id _ _ = none

unfoldable pub evaluate_likely_shortage : SkuAggregate → Option ℤ → Option RiskCandidate
evaluate_likely_shortage a lead_time_days =
    from_cover RiskType.likely_shortage a.item_id a.days_of_cover lead_time_days

abbrev pub days_until : Option Time → Time → Option ℤ
days_until none now = none
days_until (some at) now = some (day_units (days_between at now))

unfoldable pub evaluate_insufficient_until_next_delivery :
    SkuAggregate → Time → Option RiskCandidate
evaluate_insufficient_until_next_delivery a now =
    from_cover RiskType.insufficient_until_next_delivery a.item_id a.days_of_cover
      (days_until a.next_expected_delivery_at now)

-- `need_by` is a date, by the number of its day.
pub record ProductionDemandSnapshot : Type 0 where
  pub item_id : RowId
  pub need_by : ℕ

abbrev pub sooner : ℤ → Option ℤ → Option ℤ
sooner days none = some days
sooner days (some least) = if ltb_ℤ days least then some days else some least

-- The loop over the demands.
unfoldable pub soonest : RowId → ℕ → List ProductionDemandSnapshot → Option ℤ → Option ℤ
soonest item_id today [] least = least
soonest item_id today (d ∷ ds) least =
    soonest item_id today ds
      (if d.item_id == item_id then sooner (sub_ℕ d.need_by today) least else least)

abbrev pub units_of : Option ℤ → Option ℤ
units_of none = none
units_of (some days) = some (day_units days)

unfoldable pub evaluate_production_stop_risk :
    SkuAggregate → List ProductionDemandSnapshot → Time → Option RiskCandidate
evaluate_production_stop_risk a demands now =
    from_cover RiskType.production_stop_risk a.item_id a.days_of_cover
      (units_of (soonest a.item_id (now / 86_400) demands none))

abbrev pub delay_threshold_days : ℕ
delay_threshold_days = 3

abbrev pub delay_min_samples : ℕ
delay_min_samples = 3

-- 0.10 and 0.05 in ten-thousandths
abbrev pub price_threshold : ℕ
price_threshold = 1_000

abbrev pub defect_threshold : ℕ
defect_threshold = 500

unfoldable pub sum_values : List ℤ → ℤ
sum_values [] = pos 0
sum_values (v ∷ vs) =
    sub_ℕ (pos_part v + pos_part (sum_values vs)) (neg_part v + neg_part (sum_values vs))

-- The mean of so many values over the threshold.
abbrev pub mean_ratio : ℤ → ℕ → ℕ → Ratio
mean_ratio total count threshold = record {
  numerator = total;
  denominator = pos (count * threshold);
}

-- `average > threshold`
abbrev pub mean_exceeds : ℤ → ℕ → ℕ → Bool
mean_exceeds total count threshold = ltb_ℤ (pos (count * threshold)) total

abbrev pub mean_candidate :
    RiskType → Option RowId → Option RowId → ℤ → ℕ → ℕ → Option RiskCandidate
mean_candidate risk_type item_id supplier_id total count threshold =
    if mean_exceeds total count threshold
    then some (
        candidate risk_type item_id supplier_id
          (severity_from_ratio (mean_ratio total count threshold) 2 1 3 2))
    else none

-- The samples are numbers of days.
unfoldable pub evaluate_systematic_supplier_delay : RowId → List ℤ → Option RiskCandidate
unfolding sum_values severity_from_ratio
evaluate_systematic_supplier_delay supplier_id samples =
    if ltb (length samples) delay_min_samples
    then none
    else mean_candidate RiskType.systematic_supplier_delay none (some supplier_id)
        (sum_values samples) (length samples) delay_threshold_days

abbrev pub magnitude : ℤ → ℕ
magnitude n = pos_part n + neg_part n

abbrev pub trend_candidate : RowId → Option ℤ → Option RiskCandidate
trend_candidate item_id none = none
trend_candidate item_id (some trend) =
    if ltb (magnitude trend) price_threshold
    then none
    else some (
        candidate RiskType.price_anomaly (some item_id) none (
          severity_from_ratio
            (record { numerator = pos (magnitude trend); denominator = pos price_threshold }) 2 1 3
            2))

unfoldable pub evaluate_price_anomaly : SkuAggregate → Option RiskCandidate
unfolding severity_from_ratio
evaluate_price_anomaly a = trend_candidate a.item_id a.price_trend

-- The samples are in ten-thousandths.
unfoldable pub evaluate_quality_degradation : RowId → RowId → List ℤ → Option RiskCandidate
unfolding sum_values severity_from_ratio
evaluate_quality_degradation item_id supplier_id [] = none
evaluate_quality_degradation item_id supplier_id (v ∷ vs) =
    mean_candidate RiskType.quality_degradation (some item_id) (some supplier_id)
      (sum_values (v ∷ vs)) (length (v ∷ vs)) defect_threshold
