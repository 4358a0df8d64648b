-- ===== src/Worker/Outcome.antt =====
-- About `_run_job` of src/app/worker.py.
use smart_procurement_backen.Prelude.{
  ℕ, ◌+◌, ◌≡◌, refl, String, true, not, Option, none, some, List, [], ◌∷◌, arith, Bool-cases,
  Option-cases, inl, inr, ◌⊎◌, leb, ◌==◌, sym, All,
}
use smart_procurement_backen.Errors.{Error, Result, ok, err}
use smart_procurement_backen.Table.{select, update}
use smart_procurement_backen.Table.Select.{select-All}
use smart_procurement_backen.Table.Update.{select-update_miss}
use smart_procurement_backen.Models.Basic.{RowId}
use smart_procurement_backen.Models.Jobs.{Job}
use smart_procurement_backen.Session.{Db, Session, Exec, after, ◌>>◌}
use smart_procurement_backen.Jobs.{has_job_id, mark_done, mark_failed_or_retry, failed_row}
use smart_procurement_backen.Worker.{
  Handlers, JobHandler, find_handler, get_job, first, Orm, commit, commit_or_close, record_failure,
  report_failure, finish_job, run_job, no_handler,
}

-- The failure of a job is recorded on its own row and nowhere else.
abbrev pub OnlyJob : RowId → Db → Db → Type 0
OnlyJob id before after_ =
    (after_ ≡ record before { jobs = after_.jobs })
    × (select (λ j. not (j.id == id)) after_.jobs ≡ select (λ j. not (j.id == id)) before.jobs)

others-update :
    (id : RowId) (f : Job → Job) (jobs : List Job)
    → ((j : Job) → (j.id == id) ≡ true → ((f j).id == id) ≡ true)
    → select (λ j. not (j.id == id)) (update (has_job_id id) f jobs)
      ≡ select (λ j. not (j.id == id)) jobs
others-update id f jobs h =
    select-update_miss (has_job_id id) f (λ j. not (j.id == id)) (λ j e. rw e refl)
      (λ j e. rw (h j e) refl) jobs

failed_row-id : (error : String) (at : ℕ) (job : Job) → (failed_row error at job).id ≡ job.id
unfolding failed_row
failed_row-id error at job = ground arith

mark_failed-OnlyJob :
    (job : Job) (error : String) (s : Session)
    → let (r, s') = mark_failed_or_retry job error s in (r ≡ ok tt) × OnlyJob job.id s.db s'.db
unfolding mark_failed_or_retry
mark_failed-OnlyJob job error s = elim (Bool-cases (leb job.max_attempts (job.attempts + 1))) [
  | inl last ↦ rw last (refl, (refl, others 0))
  | inr more ↦ rw more (refl, (refl, others (s.clock s.ticks)))
]
  where
    others :
        (at : ℕ)
        → select
            (λ j. not (j.id == job.id))
            (update (has_job_id job.id) (λ _. failed_row error at job) s.jobs)
          ≡ select (λ j. not (j.id == job.id)) s.jobs
    others at =
        others-update job.id (λ _. failed_row error at job) s.jobs
          (λ j e. rw (failed_row-id error at job) (ground arith))

get_job-id : (id : RowId) (db : Db) (j : Job) → get_job id db ≡ some j → j.id ≡ id
unfolding get_job
get_job-id id db j h =
    first-id (select (has_job_id id) db.jobs) (select-All (has_job_id id) db.jobs) h
  where
    first-id :
        (rows : List Job) → All (λ x. has_job_id id x ≡ true) rows → first rows ≡ some j → j.id ≡ id
    first-id [] a e = cc
    first-id (x ∷ rows) a e = ground (arith, a.0)

-- How a run ends whose handler raised. If the expired id cannot be read, the run raises that exception
-- and the tables are those before it. If it can, a run that returns has changed only rows of the job
-- table with that id, and one that raises nothing.
abbrev pub Ends : Result RowId → Db → Result (Unit {0}) × Session → Type 0
Ends (err x) before (r, s') = (r ≡ err x) × (s'.db ≡ before)
Ends (ok id) before (ok _, s') = OnlyJob id before s'.db
Ends (ok id) before (err e, s') = s'.db ≡ before

module _ (orm : Orm) (repr : Error → String) where
  -- The exceptions that a commit raises, or the reading of an expired id.
  abbrev pub IsDatabaseError : Error → Type 0
  IsDatabaseError e =
      ((db : Db) × (orm.commit db ≡ err e)) ⊎ ((job : Job) × (orm.expired job ≡ err e))

  abbrev pub Escapes : Result (Unit {0}) → Type 0
  Escapes (ok _) = Unit
  Escapes (err e) = IsDatabaseError e

  commit-Escapes :
      (committed : Db) (m : Exec (Unit {0})) (s : Session)
      → (m s).0 ≡ ok tt
      → Escapes ((m >> commit orm committed) s).0
  commit-Escapes committed m s h = go (m s) h
    where
      end :
          (t : Session) (c : Result (Unit {0}))
          → orm.commit t.db ≡ c
          → Escapes (commit_or_close committed t (orm.commit t.db)).0
      end t (ok x) e = rw e tt
      end t (err x) e = rw e (inl (t.db, e))

      go :
          (r : Result (Unit {0}) × Session)
          → r.0 ≡ ok tt
          → Escapes (after (λ _. commit orm committed) r).0
      go (ok x, t) e = end t (orm.commit t.db) refl
      go (err x, t) e = cc

  record_failure-Ends :
      (id : RowId) (fresh : Option Job) (e : Error) (s : Session)
      → ((j : Job) → fresh ≡ some j → j.id ≡ id)
      → Ends (ok id) s.db (record_failure orm repr s.db fresh e s)
  unfolding record_failure
  record_failure-Ends id none e s own = (refl, refl)
  record_failure-Ends id (some fresh) e s own =
      go (mark_failed_or_retry fresh (repr e) s) (mark_failed-OnlyJob fresh (repr e) s)
    where
      end :
          (t : Session) (c : Result (Unit {0}))
          → OnlyJob fresh.id s.db t.db
          → Ends (ok id) s.db (commit_or_close s.db t c)
      end t (ok x) only = rw (sym (own fresh refl)) only
      end t (err x) only = refl

      go :
          (r : Result (Unit {0}) × Session)
          → (r.0 ≡ ok tt) × OnlyJob fresh.id s.db r.1.db
          → Ends (ok id) s.db (after (λ _. commit orm s.db) r)
      go (ok x, t) (same, only) = end t (orm.commit t.db) only
      go (err x, t) (same, only) = cc

  -- Where the registered handler of the job raises, nothing that it wrote is left. If reading the id of
  -- the expired job raises, as under an asynchronous session, so does the run, and the tables are those
  -- before it. If it reads as an id, a run that returns has changed only rows of the job table with that
  -- id, and one that raises has changed no table.
  pub run_job-rollback :
      (handlers : Handlers) (job : Job) (handler : JobHandler) (e : Error) (s : Session)
      → find_handler job.kind handlers ≡ some handler
      → (handler job s).0 ≡ err e
      → Ends (orm.expired job) s.db (run_job orm repr handlers job s)
  unfolding run_job report_failure
  run_job-rollback handlers job handler e s found raised = rw found (finish (handler job s) raised)
    where
      reported :
          (x : Error) (t : Session) (id : Result RowId)
          → Ends id s.db (report_failure orm repr s.db x id (record t { db = s.db }))
      reported x t (err y) = (refl, refl)
      reported x t (ok id) =
          record_failure-Ends id (get_job id s.db) x (record t { db = s.db }) (get_job-id id s.db)

      finish :
          (r : Result (Unit {0}) × Session)
          → r.0 ≡ err e
          → Ends (orm.expired job) s.db (finish_job orm repr s.db job r)
      finish (ok x, t) h = cc
      finish (err x, t) h = reported x t (orm.expired job)

  -- Where the registered handler of the job returns and the commit is accepted, the run keeps all that
  -- it wrote and marks the job done.
  pub run_job-commit :
      (handlers : Handlers) (job : Job) (handler : JobHandler) (s s' : Session)
      → find_handler job.kind handlers ≡ some handler
      → handler job s ≡ (ok tt, s')
      → ((db : Db) → orm.commit db ≡ ok tt)
      → run_job orm repr handlers job s ≡ mark_done job.id s'
  unfolding run_job mark_done
  run_job-commit handlers job handler s s' found returned accepts =
      rw (found, returned) (rw (accepts (mark_done job.id s').1.db) refl)

  record_failure-Escapes :
      (committed : Db) (fresh : Option Job) (e : Error) (s : Session)
      → Escapes (record_failure orm repr committed fresh e s).0
  unfolding record_failure
  record_failure-Escapes committed none e s = tt
  record_failure-Escapes committed (some fresh) e s =
      commit-Escapes committed (mark_failed_or_retry fresh (repr e)) s
        (mark_failed-OnlyJob fresh (repr e) s).0

  -- Whatever the handlers do, a run raises only what a commit or the reading of an expired id raises.
  pub run_job-Escapes :
      (handlers : Handlers) (job : Job) (s : Session) → Escapes (run_job orm repr handlers job s).0
  unfolding run_job mark_done report_failure
  run_job-Escapes handlers job s = elim (Option-cases (find_handler job.kind handlers)) [
    | inl unknown ↦ rw unknown (
        commit-Escapes s.db (mark_failed_or_retry job (no_handler job.kind)) s
          (mark_failed-OnlyJob job (no_handler job.kind) s).0)
    | inr (handler, found) ↦ rw found (finish (handler job s))
  ]
    where
      reported :
          (x : Error) (t : Session) (id : Result RowId)
          → orm.expired job ≡ id
          → Escapes (report_failure orm repr s.db x id t).0
      reported x t (err y) e = inr (job, e)
      reported x t (ok id) e = record_failure-Escapes s.db (get_job id s.db) x t

      finish : (r : Result (Unit {0}) × Session) → Escapes (finish_job orm repr s.db job r).0
      finish (ok x, t) = commit-Escapes s.db (mark_done job.id) t refl
      finish (err x, t) = reported x (record t { db = s.db }) (orm.expired job) refl
