-- ===== src/Explain/Grounded.antt =====
-- About explain_risk of src/app/analysis/explain.py.
use mathlib.Core.Path.{subst}
use smart_procurement_backen.Prelude.{
  ℕ, ◌≡◌, ◌≢◌, refl, sym, ap, ◌⊎◌, String, true, Option, none, List, [], ◌∷◌, ◌++◌, ◌==◌, All,
}
use smart_procurement_backen.Errors.{Error, Result, ok, err, llm_unavailable}
use smart_procurement_backen.Table.{select, update}
use smart_procurement_backen.Table.Select.{select-All}
use smart_procurement_backen.Models.Basic.{RowId}
use smart_procurement_backen.Models.Analysis.{AiStatus, RiskFinding, EvidenceRef, Explanation}
use smart_procurement_backen.Models.Observation.{ObservabilityGap}
use smart_procurement_backen.Session.{Db, Session, after, pure, raise, ◌>>◌}
use smart_procurement_backen.Observability.{is_current, open_gap}
use smart_procurement_backen.Observability.Unique.{IsUnique}
use smart_procurement_backen.Observability.Idempotent.{open_gap-again, open_gap-db}
use smart_procurement_backen.Audit.{record_event}
use smart_procurement_backen.Ai.{Attempt, ai_gap}
use smart_procurement_backen.Ai.Attempts.{Generates}
use smart_procurement_backen.Risks.Dismissal.{has_finding_id}
use smart_procurement_backen.Explain.{
  RiskExplanation, diagnose_key, explanation_action, is_valid_ref, evidence_payloads,
  with_ai_status, set_ai_status, no_evidence, grounding_event, mark_unavailable, store_explanation,
  explained,
}

-- The findings, with the state of the explanation of one of them changed.
abbrev pub marked : RowId → AiStatus → List RiskFinding → List RiskFinding
marked finding_id status findings =
    update (λ (f : RiskFinding). f.id == finding_id) (with_ai_status status) findings

-- An explanation of the finding cites some evidence and no other, and is the only row added.
abbrev pub IsGrounded : RowId → List EvidenceRef → Db → Explanation → Db → Type 0
IsGrounded finding_id evidence before x db =
    (x.subject_id ≡ finding_id)
    × (x.data_used ≢ [])
    × All (λ d. is_valid_ref evidence d ≡ true) x.data_used
    × (db.explanations ≡ before.explanations ++ (x ∷ []))
    × (db.findings ≡ marked finding_id AiStatus.ready before.findings)

-- Without an explanation the gap of the capability is open, and the finding waits.
abbrev pub IsUnavailable : RowId → RowId → Db → Db → Type 0
IsUnavailable enterprise_id finding_id before db =
    (db.explanations ≡ before.explanations)
    × (db.findings ≡ marked finding_id AiStatus.unavailable before.findings)
    × ((g : ObservabilityGap) × (select (is_current (ai_gap enterprise_id diagnose_key)) db.gaps
          ≡ g ∷ []))

abbrev pub Grounds : RowId → RowId → List EvidenceRef → Db → Result Explanation × Session → Type 0
Grounds enterprise_id finding_id evidence before (ok x, s) =
    IsGrounded finding_id evidence before x s.db
Grounds enterprise_id finding_id evidence before (err e, s) =
    (e ≡ llm_unavailable) × IsUnavailable enterprise_id finding_id before s.db

-- The record of a failed grounding.
mark_unavailable-Opens :
    (i : RowId) (reason : String) (s : Session)
    → IsUnique s.gaps
    → let r = mark_unavailable i reason s in
      (r.0 ≡ ok tt)
      × ((g : ObservabilityGap) × (select (is_current (ai_gap i diagnose_key)) r.1.gaps ≡ g ∷ []))
      × (r.1.explanations ≡ s.explanations)
      × (r.1.findings ≡ s.findings)
unfolding mark_unavailable record_event
mark_unavailable-Opens i reason s h =
    let (g, returned, one, again) = open_gap-again (ai_gap i diagnose_key) s h in
    go (open_gap (ai_gap i diagnose_key) s) g returned one (open_gap-db (ai_gap i diagnose_key) s)
  where
    go :
        (r : Result ObservabilityGap × Session) (g : ObservabilityGap)
        → r.0 ≡ ok g
        → select (is_current (ai_gap i diagnose_key)) r.1.gaps ≡ g ∷ []
        → r.1.db ≡ record s.db { gaps = r.1.gaps }
        → let q = after (λ _. record_event (grounding_event i reason) >> pure tt) r in
          (q.0 ≡ ok tt)
          × ((g : ObservabilityGap) × (select (is_current (ai_gap i diagnose_key)) q.1.gaps
                ≡ g ∷ []))
          × (q.1.explanations ≡ s.explanations)
          × (q.1.findings ≡ s.findings)
    go (err e, t) g returned one same = cc
    go (ok x, t) g returned one same =
        (refl, (g, one), ap (λ (db : Db). db.explanations) same, ap (λ (db : Db). db.findings) same)

module _ (provider : Option String) (model : String) (i id : RowId)
    (evidence : List EvidenceRef) where
  store-Grounds :
      (parsed : RiskExplanation) (kept : List EvidenceRef) (s : Session)
      → IsUnique s.gaps
      → All (λ d. is_valid_ref evidence d ≡ true) kept
      → Grounds i id evidence s.db (store_explanation provider model i id parsed kept s)
  unfolding store_explanation set_ai_status
  store-Grounds parsed (d ∷ kept) s h valid = (refl, (λ e. cc), valid, refl, refl)
  store-Grounds parsed [] s h valid =
      go (mark_unavailable i no_evidence s) (mark_unavailable-Opens i no_evidence s h)
    where
      go :
          (r : Result (Unit {0}) × Session)
          → (r.0 ≡ ok tt)
            × ((g : ObservabilityGap) × (select (is_current (ai_gap i diagnose_key)) r.1.gaps
                  ≡ g ∷ []))
            × (r.1.explanations ≡ s.explanations)
            × (r.1.findings ≡ s.findings)
          → Grounds i id evidence s.db
              (after (λ _. set_ai_status id AiStatus.unavailable >> raise llm_unavailable) r)
      go (err e, t) (returned, opened, xs, fs) = cc
      go (ok x, t) (returned, opened, xs, fs) =
          (refl, (xs, ap (marked id AiStatus.unavailable) fs, opened))

  pub explained-Grounds :
      (generate : ℕ → Attempt RiskExplanation) (s : Session) (r : Result RiskExplanation × Session)
      → IsUnique s.gaps
      → Generates generate i diagnose_key none explanation_action 3 s r
      → Grounds i id evidence s.db (explained provider model i id evidence r)
  unfolding explained set_ai_status
  explained-Grounds generate s (ok parsed, t) h (first, same) =
      subst
        (λ (u : Session). Grounds i id evidence u.db (
          store_explanation provider model i id parsed
            (select (is_valid_ref evidence) parsed.data_used) t))
        same
        (store-Grounds parsed (select (is_valid_ref evidence) parsed.data_used) t
          (subst (λ (u : Session). IsUnique u.gaps) (sym same) h)
          (select-All (is_valid_ref evidence) parsed.data_used))
  explained-Grounds generate s (err e, t) h (g, row, failures, kind, one, y, z, same) =
      subst (λ x. Grounds i id evidence s.db (explained provider model i id evidence (err x, t)))
        (sym kind)
        (
          refl,
          (
            ap (λ (db : Db). db.explanations) same,
            ap (λ (db : Db). marked id AiStatus.unavailable db.findings) same,
            (g, one),
          ),
        )

-- Either the finding is missing and no table changes, or there is one and its explanation is grounded or
-- unavailable.
abbrev pub Explains :
    (RowId → String) → RowId → RowId → Session → Result Explanation × Session → Type 0
Explains id_text i id s r =
    ((e : Error) × (r ≡ (err e, s)))
    ⊎ ((f : RiskFinding) × (select (has_finding_id i id) s.findings ≡ f ∷ [])
        × Grounds i f.id (evidence_payloads id_text f s.db) s.db r)
