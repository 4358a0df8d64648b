-- ===== src/Risks/Samples.antt =====
-- About the samples that the rules of src/app/analysis/rules.py average.
use mathlib.Core.List.{Permᴰ, Perm}
use mathlib.Core.Logic.{∥∥₁_elim}
use native.Mathlib.Nat.{ℕ_set}
use smart_procurement_backen.Prelude.{
  ℕ, suc, ◌+◌, ◌*◌, ◌≤◌, ◌<◌, ◌≡◌, refl, ◌∙◌, ap, ◌⊎◌, Option, none, some, List, [], ◌∷◌, arith,
  Bool-cases, inl, inr, ltb, length,
}
use smart_procurement_backen.Prelude.Int.{ℤ, pos, pos_part, neg_part}
use smart_procurement_backen.Models.Basic.{RowId}
use smart_procurement_backen.Models.Analysis.{Severity}
use smart_procurement_backen.Risks.{RiskCandidate}
use smart_procurement_backen.Risks.Rules.{
  ratio_ge, severity_from_ratio, mean_ratio, mean_exceeds, sum_values,
  evaluate_systematic_supplier_delay, evaluate_quality_degradation,
}
use smart_procurement_backen.Risks.Thresholds.{AtMost, Below}

eq_of_parts : (a b : ℤ) → pos_part a + neg_part b ≡ pos_part b + neg_part a → a ≡ b
eq_of_parts a b h = ground arith

ℤ-set : IsSet ℤ
ℤ-set = hlevel ℕ_set

sum_parts :
    (v : ℤ) (vs : List ℤ)
    → pos_part (sum_values (v ∷ vs)) + neg_part v + neg_part (sum_values vs)
      ≡ neg_part (sum_values (v ∷ vs)) + pos_part v + pos_part (sum_values vs)
unfolding sum_values
sum_parts v vs = ground arith

-- The order in which the database returns the samples does not matter.
sum_values-perm : {vs ws : List ℤ} → Permᴰ vs ws → sum_values vs ≡ sum_values ws
sum_values-perm Permᴰ.nil = refl
sum_values-perm (Permᴰ.cons {a = a} {b = b} {l₁ = vs} {l₂ = ws} e p) =
    eq_of_parts (sum_values (a ∷ vs)) (sum_values (b ∷ ws)) (
      omega (
        arith,
        sum_parts a vs,
        sum_parts b ws,
        ap pos_part e,
        ap neg_part e,
        ap pos_part (sum_values-perm p),
        ap neg_part (sum_values-perm p),
      ))
sum_values-perm (Permᴰ.swap {a = a} {b = b} {a' = a'} {b' = b'} {l = vs} e f) =
    eq_of_parts (sum_values (a ∷ b ∷ vs)) (sum_values (a' ∷ b' ∷ vs)) (
      omega (
        arith,
        sum_parts a (b ∷ vs),
        sum_parts b vs,
        sum_parts a' (b' ∷ vs),
        sum_parts b' vs,
        ap pos_part e,
        ap neg_part e,
        ap pos_part f,
        ap neg_part f,
      ))
sum_values-perm (Permᴰ.trans p q) = sum_values-perm p ∙ sum_values-perm q

length-perm : {vs ws : List ℤ} → Permᴰ vs ws → length vs ≡ length ws
length-perm Permᴰ.nil = refl
length-perm (Permᴰ.cons e p) = ap suc (length-perm p)
length-perm (Permᴰ.swap e f) = refl
length-perm (Permᴰ.trans p q) = length-perm p ∙ length-perm q

quality_of_sum :
    (item_id supplier_id : RowId) (vs ws : List ℤ)
    → sum_values vs ≡ sum_values ws
    → length vs ≡ length ws
    → evaluate_quality_degradation item_id supplier_id vs
      ≡ evaluate_quality_degradation item_id supplier_id ws
unfolding evaluate_quality_degradation
quality_of_sum i j [] [] same long = refl
quality_of_sum i j [] (w ∷ ws) same long = absurd (omega (arith, long))
quality_of_sum i j (v ∷ vs) [] same long = absurd (omega (arith, long))
quality_of_sum i j (v ∷ vs) (w ∷ ws) same long = rw (same, long) refl

-- The two rules on samples give the same candidate for the same samples in any order.
pub samples-perm :
    (item_id supplier_id : RowId) {vs ws : List ℤ}
    → Perm vs ws
    → (evaluate_systematic_supplier_delay supplier_id vs
        ≡ evaluate_systematic_supplier_delay supplier_id ws)
      × (evaluate_quality_degradation item_id supplier_id vs
          ≡ evaluate_quality_degradation item_id supplier_id ws)
unfolding evaluate_systematic_supplier_delay
samples-perm item_id supplier_id {vs} {ws} p =
    let same : sum_values vs ≡ sum_values ws = ∥∥₁_elim p (ℤ-set _ _) sum_values-perm in
    let long : length vs ≡ length ws = ∥∥₁_elim p (ℕ_set _ _) length-perm in
    (rw (same, long) refl, quality_of_sum item_id supplier_id vs ws same long)

-- The mean of the samples is over the threshold, and how far.
abbrev pub MeanBand : ℤ → ℕ → ℕ → Severity → Type 0
MeanBand total count threshold Severity.high = AtMost (2 * threshold) (pos count) 1 total
MeanBand total count threshold Severity.med =
    AtMost (3 * threshold) (pos count) 2 total × Below 1 total (2 * threshold) (pos count)
MeanBand total count threshold Severity.low =
    Below threshold (pos count) 1 total × Below 2 total (3 * threshold) (pos count)

abbrev pub Delays : ℤ → ℕ → Option RiskCandidate → Type 0
Delays total count none = (count < 3) ⊎ AtMost 1 total 3 (pos count)
Delays total count (some c) =
    (3 ≤ count) × Below 3 (pos count) 1 total × MeanBand total count 3 c.severity

-- `systematic_supplier_delay` finds a risk exactly from three samples on with a mean of more than three
-- days; it is high from a mean of six days on, medium from four and a half, and low below.
pub supplier_delay-Delays :
    (supplier_id : RowId) (samples : List ℤ)
    → Delays
        (sum_values samples)
        (length samples)
        (evaluate_systematic_supplier_delay supplier_id samples)
unfolding evaluate_systematic_supplier_delay severity_from_ratio
supplier_delay-Delays supplier_id samples = elim (Bool-cases (ltb n 3)) [
  | inl few ↦ rw few (inl (ground arith))
  | inr enough ↦ elim (Bool-cases (mean_exceeds total n 3)) [
    | inr small ↦ rw (enough, small) (inr (ground arith))
    | inl large ↦
        rw (enough, large)
          (elim (Bool-cases (ratio_ge (mean_ratio total n 3) 2 1)) [
            | inl high ↦ rw high (ground arith)
            | inr lower ↦ elim (Bool-cases (ratio_ge (mean_ratio total n 3) 3 2)) [
              | inl med ↦ rw (lower, med) (ground arith)
              | inr low ↦ rw (lower, low) (ground arith)
            ]
          ])
  ]
]
  where
    n : ℕ
    n = length samples

    total : ℤ
    total = sum_values samples
