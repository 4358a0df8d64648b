-- ===== src/Handlers/Quiet.antt =====
-- About generate_explanation_handler of src/app/analysis/jobs.py under the worker.
use smart_procurement_backen.Prelude.{
  ℕ, ◌≡◌, refl, ◌⊎◌, inl, inr, String, none, some, List, [], ◌∷◌,
}
use smart_procurement_backen.Prelude.Dict.{get}
use smart_procurement_backen.Errors.{Error, Result, ok, err}
use smart_procurement_backen.Table.{select}
use smart_procurement_backen.Models.Basic.{RowId, uuid_text}
use smart_procurement_backen.Models.Jobs.{Job}
use smart_procurement_backen.Models.Analysis.{RiskFinding, EvidenceRef, Explanation}
use smart_procurement_backen.Session.{Db, Session, after, require_one-single}
use smart_procurement_backen.Jobs.{mark_done}
use smart_procurement_backen.Worker.{Handlers, JobHandler, Orm, find_handler, run_job}
use smart_procurement_backen.Worker.Outcome.{run_job-commit}
use smart_procurement_backen.Observability.Unique.{IsUnique}
use smart_procurement_backen.Ai.{Attempt, generate_structured}
use smart_procurement_backen.Ai.Attempts.{generate_structured-Generates}
use smart_procurement_backen.Risks.Dismissal.{get_finding, has_finding_id}
use smart_procurement_backen.Explain.{
  RiskExplanation, diagnose_key, explanation_action, evidence_payloads, explain_found, explain_risk,
}
use smart_procurement_backen.Explain.Grounded.{
  IsGrounded, IsUnavailable, Grounds, explained-Grounds,
}
use smart_procurement_backen.Handlers.{
  swallow, explain_quietly, generate_explanation_handler, registered,
}

-- An explanation was stored, or its absence was recorded.
abbrev pub IsSettled : RowId → RowId → List EvidenceRef → Db → Db → Type 0
IsSettled enterprise_id finding_id evidence before db =
    ((x : Explanation) × IsGrounded finding_id evidence before x db)
    ⊎ IsUnavailable enterprise_id finding_id before db

module _ (model : String) (id_text : RowId → String)
    (generate : RiskFinding → List EvidenceRef → ℕ → Attempt RiskExplanation) where
  settled :
      (i id : RowId) (evidence : List EvidenceRef) (before : Db) (r : Result Explanation × Session)
      → Grounds i id evidence before r
      → ((swallow r).0 ≡ ok tt) × IsSettled i id evidence before (swallow r).1.db
  settled i id evidence before (ok x, t) h = (refl, inl (x, h))
  settled i id evidence before (err e, t) (kind, h) = rw kind (refl, inr h)

  handler-settles :
      (job : Job) (i id : RowId) (f : RiskFinding) (s : Session)
      → IsUnique s.gaps
      → get "enterprise_id" job.payload ≡ some (uuid_text i)
      → get "risk_finding_id" job.payload ≡ some (uuid_text id)
      → select (has_finding_id i id) s.findings ≡ f ∷ []
      → let r = generate_explanation_handler model id_text generate job s in
        (r.0 ≡ ok tt) × IsSettled i f.id (evidence_payloads id_text f s.db) s.db r.1.db
  unfolding generate_explanation_handler explain_quietly explain_risk explain_found get_finding
  handler-settles job i id f s h enterprise finding one =
      rw (enterprise, finding, after)
        (rw (one, require_one-single f s, after)
          (settled i f.id evidence s.db _ (
            explained-Grounds none model i f.id evidence (generate f evidence) s
              (generate_structured (generate f evidence) i diagnose_key none explanation_action 3 s)
              h
              (generate_structured-Generates (generate f evidence) i diagnose_key none
                explanation_action 3 s h))))
    where
      evidence : List EvidenceRef
      evidence = evidence_payloads id_text f s.db

  kept :
      (i id : RowId) (evidence : List EvidenceRef) (before db : Db) (jobs : List Job)
      → IsSettled i id evidence before db
      → IsSettled i id evidence before (record db { jobs = jobs })
  kept i id evidence before db jobs (inl h) = inl h
  kept i id evidence before db jobs (inr h) = inr h

  -- Where at most one gap is open for each key and commits are accepted, a run by the worker of a job that
  -- names an enterprise and its only finding with that id leaves in the tables either a grounded
  -- explanation of the finding, marked ready, or no explanation, the finding marked unavailable and the
  -- gap of the capability open once: what was written before LLMUnavailable is not rolled back.
  pub run_explanation-settles :
      (orm : Orm) (repr : Error → String) (suggest observe recompute detect : JobHandler)
      (job : Job) (enterprise_id finding_id : RowId) (f : RiskFinding) (s : Session)
      → IsUnique s.gaps
      → ((db : Db) → orm.commit db ≡ ok tt)
      → job.kind ≡ "generate_explanation"
      → get "enterprise_id" job.payload ≡ some (uuid_text enterprise_id)
      → get "risk_finding_id" job.payload ≡ some (uuid_text finding_id)
      → select (has_finding_id enterprise_id finding_id) s.findings ≡ f ∷ []
      → IsSettled enterprise_id f.id
          (evidence_payloads id_text f s.db)
          s.db
          (run_job orm repr
            (registered suggest observe recompute detect
              (generate_explanation_handler model id_text generate))
            job
            s).1.db
  unfolding find_handler mark_done
  run_explanation-settles orm repr suggest observe recompute detect job i id f s h accepts kind
        enterprise finding one =
      go (generate_explanation_handler model id_text generate job s) refl
        (handler-settles job i id f s h enterprise finding one)
    where
      handlers : Handlers
      handlers =
          registered suggest observe recompute detect
            (generate_explanation_handler model id_text generate)

      evidence : List EvidenceRef
      evidence = evidence_payloads id_text f s.db

      found :
          find_handler job.kind handlers
          ≡ some (generate_explanation_handler model id_text generate)
      found = rw kind refl

      go :
          (r : Result (Unit {0}) × Session)
          → generate_explanation_handler model id_text generate job s ≡ r
          → (r.0 ≡ ok tt) × IsSettled i f.id evidence s.db r.1.db
          → IsSettled i f.id evidence s.db (run_job orm repr handlers job s).1.db
      go (err e, t) same (returned, h) = cc
      go (ok x, t) same (returned, h) =
          rw
            (run_job-commit orm repr handlers job
              (generate_explanation_handler model id_text generate) s t found same accepts)
            (kept i f.id evidence s.db t.db (mark_done job.id t).1.jobs h)
