-- ===== src/Worker.antt =====
-- src/app/worker.py: claiming due jobs, running their handlers, and recording the outcome. Each job
-- begins at a commit, so the tables at its start are those that a rollback restores; so does a session
-- that is closed by an exception.
pub mod Outcome
pub mod Batch
mod Tests
use Prim.Native.String.{◌++◌ as str_append}
use smart_procurement_backen.Prelude.{
  ℕ, ◌+◌, String, Bool, true, false, not, Option, none, some, List, [], ◌∷◌, ◌++◌, if◌then◌else◌,
  str_eq,
}
use smart_procurement_backen.Errors.{Error, Result, ok, err}
use smart_procurement_backen.Table.{select}
use smart_procurement_backen.Models.Basic.{RowId}
use smart_procurement_backen.Models.Jobs.{Job}
use smart_procurement_backen.Session.{
  Db, Session, Exec, pure, raise, rollback_to, ◌>>=◌, ◌>>◌, after,
}
use smart_procurement_backen.Jobs.{has_job_id, claim_due, mark_done, mark_failed_or_retry}

abbrev pub JobHandler : Type 0
JobHandler = Job → Exec (Unit {0})

-- HANDLERS, with the latest registration first.
abbrev pub Handlers : Type 0
Handlers = List (String × JobHandler)

-- HANDLERS.get(kind)
unfoldable pub find_handler : String → Handlers → Option JobHandler
find_handler kind [] = none
find_handler kind ((k, handler) ∷ rest) =
    if str_eq k kind then some handler else find_handler kind rest

-- `session.get(Job, id)`: the row with that primary key.
abbrev pub first : List Job → Option Job
first [] = none
first (j ∷ js) = some j

unfoldable pub get_job : RowId → Db → Option Job
get_job id db = first (select (has_job_id id) db.jobs)

-- f"no handler for kind {job.kind!r}", for a kind that `repr` does not escape
unfoldable pub no_handler : String → String
no_handler kind = str_append (str_append "no handler for kind '" kind) "'"

-- `kind is not None and job.kind != kind`
abbrev pub skips : Option String → Job → Bool
skips none job = false
skips (some kind) job = not (str_eq job.kind kind)

-- What the code relies on in SQLAlchemy: whether a commit, with its flush, accepts the tables, and what
-- the id of a job reads as once a rollback has expired the object.
pub record Orm : Type 0 where
  pub commit : Db → Result (Unit {0})
  pub expired : Job → Result RowId

abbrev pub commit_or_close : Db → Session → Result (Unit {0}) → Result (Unit {0}) × Session
commit_or_close committed s (ok _) = (ok tt, s)
commit_or_close committed s (err e) = (err e, record s { db = committed })

-- `session.commit()`; an exception leaves the block that closes the session.
abbrev pub commit : Orm → Db → Exec (Unit {0})
commit orm committed s = commit_or_close committed s (orm.commit s.db)

-- `repr` is Python's, of an exception.
module _ (orm : Orm) (repr : Error → String) where
  -- The failure is recorded on the row as it is then, if it is still there.
  unfoldable pub record_failure : Db → Option Job → Error → Exec (Unit {0})
  record_failure committed none e = pure tt
  record_failure committed (some fresh) e =
      mark_failed_or_retry fresh (repr e) >> commit orm committed

  -- After the rollback, with what `job.id` reads as.
  unfoldable pub report_failure : Db → Error → Result RowId → Exec (Unit {0})
  report_failure committed e (err x) = raise x
  report_failure committed e (ok id) = record_failure committed (get_job id committed) e

  -- How `_run_job` goes on from the handler's result; `committed` are the tables it began with.
  unfoldable pub finish_job : Db → Job → Result (Unit {0}) × Session → Result (Unit {0}) × Session
  finish_job committed job (ok _, s') = (mark_done job.id >> commit orm committed) s'
  finish_job committed job (err e, s') =
      (rollback_to committed >> report_failure committed e (orm.expired job)) s'

  unfoldable pub run_handler : Option JobHandler → Job → Exec (Unit {0})
  unfolding finish_job
  run_handler none job = λ s. (mark_failed_or_retry job (no_handler job.kind) >> commit orm s.db) s
  run_handler (some handler) job = λ s. finish_job s.db job (handler job s)

  -- _run_job
  unfoldable pub run_job : Handlers → Job → Exec (Unit {0})
  unfolding run_handler
  run_job handlers job = run_handler (find_handler job.kind handlers) job

  unfoldable pub run_found : Handlers → Option Job → ℕ → Exec ℕ
  run_found handlers none processed = pure processed
  run_found handlers (some db_job) processed = run_job handlers db_job >> pure (processed + 1)

  unfoldable pub process_jobs : Handlers → Option String → List Job → ℕ → Exec ℕ
  process_jobs handlers kind [] processed = pure processed
  process_jobs handlers kind (job ∷ jobs) processed =
      if skips kind job
      then process_jobs handlers kind jobs processed
      else ((λ s. run_found handlers (get_job job.id s.db) processed s) >>= λ n.
          process_jobs handlers kind jobs n)

  unfoldable pub process_once : Handlers → (RowId → Bool) → String → Option String → ℕ → Exec ℕ
  process_once handlers locked worker_id kind limit = λ s.
      (do
        jobs ← claim_due locked worker_id limit
        commit orm s.db
        process_jobs handlers kind jobs 0)
        s
