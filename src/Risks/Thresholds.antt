-- ===== src/Risks/Thresholds.antt =====
-- About the thresholds of the rules in src/app/analysis/rules.py.
use smart_procurement_backen.Prelude.{
  ℕ, ◌+◌, ◌*◌, ◌≤◌, ◌<◌, ◌≡◌, ◌⊎◌, Option, none, some, arith, Bool-cases, inl, inr,
}
use smart_procurement_backen.Prelude.Int.{ℤ, pos, pos_part, neg_part, ◌≤ℤ◌, leb_ℤ}
use smart_procurement_backen.Models.Basic.{RowId}
use smart_procurement_backen.Models.Observation.{SkuAggregate}
use smart_procurement_backen.Models.Analysis.{RiskType, Severity}
use smart_procurement_backen.Risks.{RiskCandidate}
use smart_procurement_backen.Risks.Rules.{
  ratio_ge, severity_from_ratio, shortfall, cover_candidate, evaluate_likely_shortage,
}

-- k * a ≤ m * b, and the strict order, for integers.
abbrev pub AtMost : ℕ → ℤ → ℕ → ℤ → Type 0
AtMost k a m b = k * pos_part a + m * neg_part b ≤ m * pos_part b + k * neg_part a

abbrev pub Below : ℕ → ℤ → ℕ → ℤ → Type 0
Below k a m b = k * pos_part a + m * neg_part b < m * pos_part b + k * neg_part a

-- What a shortage is: a limit that is positive and not covered. At most a quarter covered is high, at
-- most three quarters is medium.
abbrev pub Band : ℤ → ℤ → Severity → Type 0
Band cover limit Severity.high = AtMost 4 cover 1 limit
Band cover limit Severity.med = Below 1 limit 4 cover × AtMost 4 cover 3 limit
Band cover limit Severity.low = Below 3 limit 4 cover

abbrev pub IsShort : ℤ → ℤ → Type 0
IsShort cover limit = Below 1 (pos 0) 1 limit × Below 1 cover 1 limit

abbrev pub Explains : ℤ → ℤ → Option RiskCandidate → Type 0
Explains cover limit none = AtMost 1 limit 1 (pos 0) ⊎ AtMost 1 limit 1 cover
Explains cover limit (some c) = IsShort cover limit × Band cover limit c.severity

cover_candidate-Explains :
    (y : RiskType) (item_id : RowId) (cover limit : ℤ)
    → Explains cover limit (cover_candidate y item_id cover limit)
unfolding cover_candidate severity_from_ratio
cover_candidate-Explains y item_id cover limit = elim (Bool-cases (leb_ℤ limit (pos 0))) [
  | inl none_left ↦ rw none_left (inl (ground arith))
  | inr some_left ↦ elim (Bool-cases (leb_ℤ limit cover)) [
    | inl enough ↦ rw (some_left, enough) (inr (ground arith))
    | inr short ↦
        rw (some_left, short)
          (elim (Bool-cases (ratio_ge (shortfall cover limit) 3 4)) [
            | inl high ↦ rw high (ground arith)
            | inr lower ↦ elim (Bool-cases (ratio_ge (shortfall cover limit) 1 4)) [
              | inl med ↦ rw (lower, med) (ground arith)
              | inr low ↦ rw (lower, low) (ground arith)
            ]
          ])
  ]
]

-- The severities in order.
abbrev pub rank : Severity → ℕ
rank Severity.low = 0
rank Severity.med = 1
rank Severity.high = 2

Band-rank :
    (c c' limit : ℤ) (high low : Severity)
    → c ≤ℤ c'
    → Below 1 (pos 0) 1 limit
    → Band c limit high
    → Band c' limit low
    → rank low ≤ rank high
Band-rank c c' limit Severity.high Severity.high h l p q = omega arith
Band-rank c c' limit Severity.high Severity.med h l p q = omega arith
Band-rank c c' limit Severity.high Severity.low h l p q = omega arith
Band-rank c c' limit Severity.med Severity.high h l p q = omega arith
Band-rank c c' limit Severity.med Severity.med h l p q = omega arith
Band-rank c c' limit Severity.med Severity.low h l p q = omega arith
Band-rank c c' limit Severity.low Severity.high h l p q = omega arith
Band-rank c c' limit Severity.low Severity.med h l p q = omega arith
Band-rank c c' limit Severity.low Severity.low h l p q = omega arith

-- Every rule that finds a shortage finds it at less cover, at least as severe.
abbrev pub Worse : Option RiskCandidate → RiskCandidate → Type 0
Worse none found = ⊥
Worse (some c) found = rank found.severity ≤ rank c.severity

Worse-of :
    (c c' limit : ℤ) (found : RiskCandidate) (r : Option RiskCandidate)
    → c ≤ℤ c'
    → Explains c' limit (some found)
    → Explains c limit r
    → Worse r found
Worse-of c c' limit found none h (short, band) (inl x) = absurd (omega arith)
Worse-of c c' limit found none h (short, band) (inr x) = absurd (omega arith)
Worse-of c c' limit found (some r) h (short, band) (short', band') =
    Band-rank c c' limit r.severity found.severity h short.0 band' band

-- Where the cover of an item is known, `likely_shortage` with a known lead time finds no risk exactly if
-- the lead time is not positive or is covered; otherwise the severity is high from a quarter covered
-- down, low above three quarters, and medium between.
pub likely_shortage-Explains :
    (a : SkuAggregate) (cover lead : ℤ)
    → a.days_of_cover ≡ some cover
    → Explains cover lead (evaluate_likely_shortage a (some lead))
unfolding evaluate_likely_shortage
likely_shortage-Explains a cover lead known =
    rw known (cover_candidate-Explains RiskType.likely_shortage a.item_id cover lead)

-- If `likely_shortage` finds a risk, it finds one at any smaller cover with the same lead time, and that
-- one is at least as severe.
pub likely_shortage_mono :
    (a b : SkuAggregate) (less more lead : ℤ) (found : RiskCandidate)
    → a.days_of_cover ≡ some less
    → b.days_of_cover ≡ some more
    → less ≤ℤ more
    → evaluate_likely_shortage b (some lead) ≡ some found
    → Worse (evaluate_likely_shortage a (some lead)) found
likely_shortage_mono a b less more lead found known known' h e =
    Worse-of less more lead found (evaluate_likely_shortage a (some lead)) h
      (rw e at (likely_shortage-Explains b more lead known'))
      (likely_shortage-Explains a less lead known)
