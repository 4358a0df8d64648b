-- ===== src/Jobs/Retry.antt =====
-- About mark_failed_or_retry of src/app/jobs/queue.py, as the row of a job sees it.
use smart_procurement_backen.Prelude.{
  ℕ, zero, suc, ◌+◌, ◌≤◌, ◌<◌, ◌≡◌, refl, String, none, arith, leb, if◌then◌else◌,
}
use smart_procurement_backen.Models.Basic.{Time}
use smart_procurement_backen.Models.Jobs.{Job, pending, failed}
use smart_procurement_backen.Jobs.{failed_row}
use smart_procurement_backen.Jobs.Backoff.{backoff_bounds}

-- The row after `n` failures in a row, at the times and with the errors given.
pub fail_times : ℕ → (ℕ → String) → (ℕ → Time) → Job → Job
fail_times zero errors times job = job
fail_times (suc n) errors times job =
    failed_row (errors n) (times n) (fail_times n errors times job)

failed_row-attempts :
    (error : String) (at : Time) (job : Job)
    → ((failed_row error at job).attempts ≡ job.attempts + 1)
      × ((failed_row error at job).max_attempts ≡ job.max_attempts)
unfolding failed_row
failed_row-attempts error at job = ground arith

failed_row-status :
    (error : String) (at : Time) (job : Job)
    → (failed_row error at job).status
      ≡ (if leb job.max_attempts (job.attempts + 1) then failed else pending)
unfolding failed_row
failed_row-status error at job = ground arith

fail_times-attempts :
    (n : ℕ) (errors : ℕ → String) (times : ℕ → Time) (job : Job)
    → ((fail_times n errors times job).attempts ≡ job.attempts + n)
      × ((fail_times n errors times job).max_attempts ≡ job.max_attempts)
unfolding fail_times
fail_times-attempts zero errors times job = (omega arith, refl)
fail_times-attempts (suc n) errors times job =
    let row = fail_times n errors times job in
    let counted = failed_row-attempts (errors n) (times n) row in
    let before = fail_times-attempts n errors times job in
    (omega (arith, counted.0, before.0), omega (arith, counted.1, before.1))

-- After n + 1 failures a job has n + 1 attempts more, and its last failure gave it up if that
-- reaches `max_attempts` and left it pending if not.
pub fail_times-status :
    (n : ℕ) (errors : ℕ → String) (times : ℕ → Time) (job : Job)
    → let row = fail_times (suc n) errors times job in
      (row.attempts ≡ job.attempts + suc n)
      × (row.status ≡ (if leb job.max_attempts (job.attempts + suc n) then failed else pending))
unfolding fail_times
fail_times-status n errors times job =
    let row = fail_times n errors times job in
    let before = fail_times-attempts n errors times job in
    let counted = failed_row-attempts (errors n) (times n) row in
    (
      omega (arith, counted.0, before.0),
      ground (arith, failed_row-status (errors n) (times n) row, before.0, before.1),
    )

-- A failure before the last attempt leaves the job pending, due again at least ten seconds and at
-- most an hour later, unlocked, and with its kind and payload.
pub failed_row-retry :
    (error : String) (at : Time) (job : Job)
    → job.attempts + 1 < job.max_attempts
    → let row = failed_row error at job in
      (row.status ≡ pending)
      × (at + 10 ≤ row.run_at)
      × (row.run_at ≤ at + 3600)
      × (row.locked_by ≡ none)
      × (row.kind ≡ job.kind)
      × (row.payload ≡ job.payload)
unfolding failed_row
failed_row-retry error at job h =
    let b = backoff_bounds (job.attempts + 1) (omega arith) in
    (
      ground arith,
      ground (arith, b.0),
      ground (arith, b.1),
      ground arith,
      ground arith,
      ground arith,
    )
