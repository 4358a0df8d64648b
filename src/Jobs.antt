-- ===== src/Jobs.antt =====
-- src/app/jobs/queue.py: the durable queue. A worker's claim takes the rows that no other
-- transaction has locked; which those are is an argument, as other sessions decide it.
pub mod Backoff
pub mod Claim
pub mod Retry
mod Tests
use smart_procurement_backen.Prelude.{
  ℕ, zero, suc, ◌+◌, ◌*◌, ◌^◌, min, String, Bool, true, false, not, ◌&&◌, Option, none, some, List,
  [], ◌∷◌, ◌++◌, map, if◌then◌else◌, ◌==◌, leb, take,
}
use smart_procurement_backen.Table.{select, update, order_by}
use smart_procurement_backen.Models.Basic.{RowId, Time, Payload}
use smart_procurement_backen.Models.Jobs.{Job, JobStatus, pending, running, done, failed}
use smart_procurement_backen.Session.{Db, Exec, pure, gets, modify, now, uuid4, ◌>>=◌, ◌>>◌}

abbrev pub backoff_base_seconds : ℕ
backoff_base_seconds = 5

abbrev pub backoff_cap_seconds : ℕ
backoff_cap_seconds = 3600

unfoldable pub backoff : ℕ → ℕ
backoff attempts = min (backoff_base_seconds * 2 ^ attempts) backoff_cap_seconds

-- `run_at or datetime.now(UTC)`
abbrev pub run_at_or_now : Option Time → Exec Time
run_at_or_now none = now
run_at_or_now (some t) = pure t

unfoldable pub enqueue : String → Payload → Option Time → Option RowId → ℕ → Exec Job
enqueue kind payload run_at enterprise_id max_attempts = do
  at ← run_at_or_now run_at
  id ← uuid4
  let job : Job = record {
    id = id;
    enterprise_id = enterprise_id;
    kind = kind;
    payload = payload;
    run_at = at;
    status = pending;
    attempts = 0;
    max_attempts = max_attempts;
    locked_by = none;
    locked_at = none;
    last_error = none;
  }
  modify (λ db. record db { jobs = db.jobs ++ (job ∷ []) })
  pure job

abbrev pub default_max_attempts : ℕ
default_max_attempts = 5

abbrev pub is_status_pending : JobStatus → Bool
is_status_pending pending = true
is_status_pending _ = false

-- The WHERE clause of the claim, and the rows that SKIP LOCKED passes over.
abbrev pub is_due : (RowId → Bool) → Time → Job → Bool
is_due locked at j = is_status_pending j.status && leb j.run_at at && not (locked j.id)

unfoldable pub due_rows : (RowId → Bool) → ℕ → Time → List Job → List Job
due_rows locked limit at jobs =
    take limit (order_by (λ j. j.run_at) (select (is_due locked at) jobs))

abbrev pub claimed : String → Time → Job → Job
claimed worker_id at j = record j {
  status = running;
  locked_by = some worker_id;
  locked_at = some at;
}

abbrev pub has_job_id : RowId → Job → Bool
has_job_id id j = j.id == id

-- `for job in rows: job.status = "running"; ...`
unfoldable pub claim_rows : String → Time → List Job → List Job → List Job
claim_rows worker_id at [] jobs = jobs
claim_rows worker_id at (row ∷ rows) jobs =
    claim_rows worker_id at rows (update (has_job_id row.id) (claimed worker_id at) jobs)

unfoldable pub claim_due : (RowId → Bool) → String → ℕ → Exec (List Job)
claim_due locked worker_id limit = do
  at ← now
  rows ← gets (λ db. due_rows locked limit at db.jobs)
  modify (λ db. record db { jobs = claim_rows worker_id at rows db.jobs })
  pure (map (claimed worker_id at) rows)

unfoldable pub mark_done : RowId → Exec (Unit {0})
mark_done job_id = modify (λ db. record db {
  jobs =
      update (has_job_id job_id)
        (λ j. record j { status = done; locked_by = none; locked_at = none }) db.jobs;
})

-- `error[:n]`
unfoldable pub prefix : ℕ → String → String
prefix zero s = ""
prefix (suc n) String.[] = ""
prefix (suc n) (String.◌∷◌ c s) = String.◌∷◌ c (prefix n s)

-- The row after a failure: given up, or due again after the backoff.
unfoldable pub failed_row : String → Time → Job → Job
failed_row error at job =
    let j : Job = record job {
      attempts = job.attempts + 1;
      last_error = some (prefix 2000 error);
      locked_by = none;
      locked_at = none;
    } in
    if leb j.max_attempts j.attempts
    then record j { status = failed }
    else record j { status = pending; run_at = at + backoff j.attempts }

-- The clock is read in the second branch only.
unfoldable pub mark_failed_or_retry : Job → String → Exec (Unit {0})
mark_failed_or_retry job error s =
    let write = λ (at : Time). modify (λ db. record db {
      jobs = update (has_job_id job.id) (λ _. failed_row error at job) db.jobs;
    }) in
    if leb job.max_attempts (job.attempts + 1) then write 0 s else (now >>= write) s

unfoldable pub reschedule_recurring : String → ℕ → Payload → Option RowId → Exec Job
unfolding enqueue
reschedule_recurring kind interval_seconds payload enterprise_id = do
  at ← now
  enqueue kind payload (some (at + interval_seconds)) enterprise_id default_max_attempts
