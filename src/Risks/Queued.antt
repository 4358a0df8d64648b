-- ===== src/Risks/Queued.antt =====
-- About the explanation jobs of src/app/analysis/rules.py.
use smart_procurement_backen.Prelude.{
  ◌≡◌, refl, Bool, true, false, ◌||◌, Option, List, [], ◌∷◌, ◌++◌, ==_refl, any, Bool-cases, inl,
  inr,
}
use smart_procurement_backen.Errors.{Result, ok, err}
use smart_procurement_backen.Models.Basic.{RowId}
use smart_procurement_backen.Models.Jobs.{Job}
use smart_procurement_backen.Models.Analysis.{RiskFinding}
use smart_procurement_backen.Session.{Session, after, pure}
use smart_procurement_backen.Jobs.{enqueue}
use smart_procurement_backen.Risks.{
  RiskCandidate, find_or_create, link_if_any, evidence_signal_types, is_ready, is_explanation_job,
  enqueue_explanation, maybe_enqueue_explanation, apply_candidate,
}

-- The finding is explained, or a job that will explain it is pending or running.
abbrev pub IsAwaited : RiskFinding → List Job → Type 0
IsAwaited f jobs = (is_ready f.ai_status || any (is_explanation_job f.id) jobs) ≡ true

abbrev pub Awaits : Result RiskFinding × Session → Type 0
Awaits (ok f, s) = IsAwaited f s.jobs
Awaits (err e, s) = Unit {0}

any-append : (p : Job → Bool) (xs ys : List Job) → any p ys ≡ true → any p (xs ++ ys) ≡ true
any-append p [] ys h = h
any-append p (x ∷ xs) ys h = elim (Bool-cases (p x)) [
  | inl e ↦ rw e refl
  | inr e ↦ rw e (any-append p xs ys h)
]

or_right : (a b : Bool) → b ≡ true → (a || b) ≡ true
or_right true b h = refl
or_right false b h = h

maybe_enqueue-Awaits :
    (f : RiskFinding) (s : Session)
    → let r = maybe_enqueue_explanation f s in (r.0 ≡ ok tt) × IsAwaited f r.1.jobs
unfolding maybe_enqueue_explanation enqueue_explanation enqueue
maybe_enqueue-Awaits f s =
    elim (Bool-cases (is_ready f.ai_status || any (is_explanation_job f.id) s.jobs)) [
      | inl skip ↦ rw skip (refl, skip)
      | inr new ↦ rw new (
        refl,
        or_right (is_ready f.ai_status) _
            (any-append (is_explanation_job f.id) s.jobs _ (rw (==_refl f.id) refl)),
      )
    ]

-- A finding that the application of a candidate returns is explained already, or a pending or running
-- job will explain it.
pub apply_candidate-Awaits :
    (enterprise_id : RowId) (c : RiskCandidate) (item_id supplier_id : Option RowId) (s : Session)
    → Awaits (apply_candidate enterprise_id c item_id supplier_id s)
unfolding apply_candidate
apply_candidate-Awaits enterprise_id c item_id supplier_id s =
    found (find_or_create enterprise_id c s)
  where
    queued :
        (f : RiskFinding) (r : Result (Unit {0}) × Session)
        → IsAwaited f r.1.jobs
        → Awaits (after (λ _. pure f) r)
    queued f (ok x, u) h = h
    queued f (err e, u) h = tt

    linked :
        (f : RiskFinding) (r : Result (Unit {0}) × Session)
        → Awaits (after (λ _. λ u. after (λ _. pure f) (maybe_enqueue_explanation f u)) r)
    linked f (err e, u) = tt
    linked f (ok x, u) = queued f (maybe_enqueue_explanation f u) (maybe_enqueue-Awaits f u).1

    found :
        (r : Result RiskFinding × Session)
        → Awaits (
            after
              (λ f. λ t.
                after
                  (λ _. λ u. after (λ _. pure f) (maybe_enqueue_explanation f u))
                  (link_if_any f item_id supplier_id (evidence_signal_types c.risk_type) t))
              r)
    found (err e, t) = tt
    found (ok f, t) =
        linked f (link_if_any f item_id supplier_id (evidence_signal_types c.risk_type) t)
