-- ===== src/Handlers/Tests.antt =====
-- The handlers of the jobs at concrete inputs.
use smart_procurement_backen.Prelude.{refl, String, none, some, [], ◌∷◌, arith}
use smart_procurement_backen.Errors.{ok, err, missing_greenlet}
use smart_procurement_backen.Models.Basic.{Payload, uuid_text}
use smart_procurement_backen.Models.Jobs.{Job, JobStatus}
use smart_procurement_backen.Session.{pure}
use smart_procurement_backen.Session.Sample.{empty_db, session_on}
use smart_procurement_backen.Worker.{JobHandler, Orm, run_job}
use smart_procurement_backen.Sync.Sample as Sync
use smart_procurement_backen.Explain.Sample as Explain
use smart_procurement_backen.Explain.{evidence_payloads}
use smart_procurement_backen.Handlers.{
  recompute_aggregates_handler, observe_source_handler, generate_explanation_handler, registered,
}
use smart_procurement_backen.Handlers.Chain.{
  Detects, Reschedules, Follows, recompute_aggregates_handler-Follows,
  observe_source_handler-Follows,
}
use smart_procurement_backen.Handlers.Quiet.{IsSettled, run_explanation-settles}

abbrev job : String → Payload → Job
job kind payload = record {
  id = 30;
  enterprise_id = some 9;
  kind = kind;
  payload = payload;
  run_at = 900;
  status = JobStatus.running;
  attempts = 0;
  max_attempts = 5;
  locked_by = some "w";
  locked_at = some 900;
  last_error = none;
}

abbrev recompute : Job
recompute = job "recompute_aggregates" (("enterprise_id", uuid_text 9) ∷ [])

recompute_aggregates_handler-Follows_example :
    Follows
      (Detects 9)
      (session_on empty_db)
      (recompute_aggregates_handler (λ a b. a) recompute (session_on empty_db))
recompute_aggregates_handler-Follows_example =
    recompute_aggregates_handler-Follows (λ a b. a) recompute 9 (session_on empty_db) refl

abbrev observe : Job
observe =
    job "observe_source" (("enterprise_id", uuid_text 9) ∷ ("data_source_id", uuid_text 1) ∷ [])

observe_source_handler-Follows_example :
    Follows
      (Reschedules 9 1 observe.payload)
      Sync.start
      (observe_source_handler Sync.plain Sync.locked (Sync.answers Sync.two) observe Sync.start)
observe_source_handler-Follows_example =
    observe_source_handler-Follows Sync.plain Sync.locked (Sync.answers Sync.two) observe 9 1
      Sync.start (λ _. omega arith) refl refl

abbrev explain : Job
explain =
    job "generate_explanation"
      (("enterprise_id", uuid_text 9) ∷ ("risk_finding_id", uuid_text 80) ∷ [])

abbrev orm : Orm
orm = record { commit = λ db. ok tt; expired = λ j. err missing_greenlet }

abbrev idle : JobHandler
idle job = pure tt

run_explanation-settles_example :
    IsSettled 9 80
      (evidence_payloads Explain.id_text Explain.finding Explain.start.db)
      Explain.start.db
      (run_job orm
        (λ _. "")
        (registered idle idle idle idle
          (generate_explanation_handler "model" Explain.id_text Explain.answer))
        explain
        Explain.start).1.db
run_explanation-settles_example =
    run_explanation-settles "model" Explain.id_text Explain.answer orm (λ _. "") idle idle idle idle
      explain 9 80 Explain.finding Explain.start (λ _. omega arith) (λ _. refl) refl refl refl refl
