-- ===== src/Worker/Tests.antt =====
-- The worker at concrete inputs: a handler that writes and then raises, and one that returns.
use smart_procurement_backen.Prelude.{ℕ, ◌≡◌, refl, String, Bool, false, none, some, [], ◌∷◌, All}
use smart_procurement_backen.Errors.{Error, ok, err, upstream, missing_greenlet}
use smart_procurement_backen.Table.{select, order_by}
use smart_procurement_backen.Models.Jobs.{Job, pending, running}
use smart_procurement_backen.Session.{Session, raise, modify, ◌>>◌}
use smart_procurement_backen.Session.Sample.{empty_db, session_on}
use smart_procurement_backen.Jobs.{due_rows}
use smart_procurement_backen.Jobs.Claim.{id_in}
use smart_procurement_backen.Worker.{Handlers, JobHandler, Orm, find_handler, run_job, process_once}
use smart_procurement_backen.Worker.Outcome.{Ends, run_job-rollback}
use smart_procurement_backen.Worker.Batch.{Counts, process_once-Counts, process_once-strands}

abbrev job : Job
job = record {
  id = 3;
  enterprise_id = some 9;
  kind = "sync";
  payload = [];
  run_at = 900;
  status = pending;
  attempts = 0;
  max_attempts = 5;
  locked_by = none;
  locked_at = none;
  last_error = none;
}

abbrev start : Session
start = session_on (record empty_db { jobs = job ∷ record job { id = 4; kind = "explain" } ∷ [] })

abbrev forget_findings : JobHandler
forget_findings j = modify (λ db. record db { findings = [] })

abbrev failing : JobHandler
failing j = forget_findings j >> raise upstream

abbrev handlers : Handlers
handlers = ("sync", failing) ∷ ("explain", forget_findings) ∷ []

abbrev repr : Error → String
repr _ = "error"

-- Every commit is accepted, and an expired id cannot be read.
abbrev orm : Orm
orm = record { commit = λ db. ok tt; expired = λ j. err missing_greenlet }

abbrev unlocked : ℕ → Bool
unlocked _ = false

run_job-rollback_example :
    Ends (err missing_greenlet) start.db (run_job orm repr handlers job start)
run_job-rollback_example =
    run_job-rollback orm repr handlers job failing upstream start (unfold find_handler in refl) refl

process_once-Counts_example :
    Counts orm repr handlers 0 5 (process_once orm repr handlers unlocked "w" none 5 start).0
process_once-Counts_example = process_once-Counts orm repr handlers unlocked "w" none 5 start

process_once-strands_example :
    let rows = due_rows unlocked 1 (start.clock start.ticks) start.jobs in
    let (r, s') = process_once orm repr handlers unlocked "w" (some "explain") 1 start in
    (r ≡ ok 0)
    × All (λ j. j.status ≡ running) (select (λ j. id_in j.id rows) s'.jobs)
    × All (λ j. id_in j.id rows ≡ false) (due_rows unlocked 5 1001 s'.jobs)
process_once-strands_example =
    process_once-strands orm repr handlers unlocked unlocked "w" "explain" 1 5 1001 start refl
      (unfold due_rows order_by in (refl, tt))
