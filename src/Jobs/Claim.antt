-- ===== src/Jobs/Claim.antt =====
-- About claim_due of src/app/jobs/queue.py.
use smart_procurement_backen.Prelude.{
  ℕ, ◌≤◌, ◌≡◌, refl, String, Bool, true, false, not, ◌||◌, List, [], ◌∷◌, map, arith, ◌==◌, ==_iff,
  All, All-take, All-map, All-of, All-both, length, length-take-le, ◌∙◌,
}
use smart_procurement_backen.Errors.{ok}
use smart_procurement_backen.Table.{select, update, order_by}
use smart_procurement_backen.Table.Select.{select-All, select-All_if, All-select, order_by-All}
use smart_procurement_backen.Table.Update.{All-update, select-update_miss}
use smart_procurement_backen.Models.Basic.{RowId, Time}
use smart_procurement_backen.Models.Jobs.{Job, JobStatus, pending, running}
use smart_procurement_backen.Session.{Session}
use smart_procurement_backen.Jobs.{is_due, due_rows, claimed, has_job_id, claim_rows, claim_due}

abbrev pub id_in : RowId → List Job → Bool
id_in id [] = false
id_in id (j ∷ js) = j.id == id || id_in id js

-- What holds of every row of the table holds of every row that is due.
due_rows-keep {κ} :
    (P : Job → Type κ) (locked : RowId → Bool) (limit : ℕ) (at : Time) (jobs : List Job)
    → All P jobs
    → All P (due_rows locked limit at jobs)
unfolding due_rows
due_rows-keep P locked limit at jobs h =
    All-take P limit (order_by (λ j. j.run_at) (select (is_due locked at) jobs)) (
      order_by-All P (λ j. j.run_at) (select (is_due locked at) jobs)
        (All-select (is_due locked at) P jobs h))

pub due_rows-length :
    (locked : RowId → Bool) (limit : ℕ) (at : Time) (jobs : List Job)
    → length (due_rows locked limit at jobs) ≤ limit
unfolding due_rows
due_rows-length locked limit at jobs =
    length-take-le limit (order_by (λ j. j.run_at) (select (is_due locked at) jobs))

-- A claimed row was pending, due, and not locked by another transaction.
abbrev pub WasDue : (RowId → Bool) → Time → Job → Type 0
WasDue locked at j = (j.status ≡ pending) × (j.run_at ≤ at) × (locked j.id ≡ false)

is_due-WasDue :
    (locked : RowId → Bool) (at : Time) (j : Job) → is_due locked at j ≡ true → WasDue locked at j
is_due-WasDue locked at j h = (ground arith, ground arith, ground arith)

due_rows-WasDue :
    (locked : RowId → Bool) (limit : ℕ) (at : Time) (jobs : List Job)
    → All (WasDue locked at) (due_rows locked limit at jobs)
unfolding due_rows
due_rows-WasDue locked limit at jobs =
    All-take (WasDue locked at) limit (order_by (λ j. j.run_at) (select (is_due locked at) jobs)) (
      order_by-All (WasDue locked at) (λ j. j.run_at) (select (is_due locked at) jobs)
        (All-map (λ j. is_due locked at j ≡ true) (WasDue locked at) (is_due-WasDue locked at)
          (select (is_due locked at) jobs) (select-All (is_due locked at) jobs)))

module _ (worker_id : String) (at : Time) where
  -- The rows with a claimed id are running, those that were running already included.
  abbrev RunsIf : (RowId → Bool) → Job → Type 0
  RunsIf ids j = ids j.id ≡ true → j.status ≡ running

  claim_rows-RunsIf :
      (ids : RowId → Bool) (rows jobs : List Job)
      → All (RunsIf ids) jobs
      → All (RunsIf (λ id. ids id || id_in id rows)) (claim_rows worker_id at rows jobs)
  unfolding claim_rows
  claim_rows-RunsIf ids [] jobs h =
      All-map (RunsIf ids) (RunsIf (λ id. ids id || false)) (λ j k e. k (ground arith)) jobs h
  claim_rows-RunsIf ids (row ∷ rows) jobs h =
      All-map (RunsIf (λ id. (ids id || row.id == id) || id_in id rows))
        (RunsIf (λ id. ids id || (row.id == id || id_in id rows))) (λ j k e. k (ground arith))
        (claim_rows worker_id at rows (update (has_job_id row.id) (claimed worker_id at) jobs))
        (claim_rows-RunsIf (λ id. ids id || row.id == id) rows
          (update (has_job_id row.id) (claimed worker_id at) jobs)
          (All-update (has_job_id row.id) (claimed worker_id at) (RunsIf ids)
            (RunsIf (λ id. ids id || row.id == id)) (λ j k hit e. refl)
            (λ j k miss e. k (ground (arith, ==_iff j.id row.id))) jobs h))

  pub claim_rows-running :
      (rows jobs : List Job)
      → All (RunsIf (λ id. id_in id rows)) (claim_rows worker_id at rows jobs)
  claim_rows-running rows jobs =
      claim_rows-RunsIf (λ id. false) rows jobs (All-of (RunsIf (λ id. false)) (λ j e. cc) jobs)

  -- A query for other jobs does not see the claim.
  pub claim_rows-others :
      (q : Job → Bool) (rows jobs : List Job)
      → All (λ row. (j : Job) → (j.id == row.id) ≡ true → q j ≡ false) rows
      → select q (claim_rows worker_id at rows jobs) ≡ select q jobs
  unfolding claim_rows
  claim_rows-others q [] jobs h = refl
  claim_rows-others q (row ∷ rows) jobs h =
      claim_rows-others q rows (update (has_job_id row.id) (claimed worker_id at) jobs) h.1
      ∙ select-update_miss (has_job_id row.id) (claimed worker_id at) q (h.0)
          (λ j e. h.0 (claimed worker_id at j) e) jobs

id_in-All :
    (rows tail : List Job)
    → ((id : RowId) → id_in id tail ≡ true → id_in id rows ≡ true)
    → All (λ row. (j : Job) → (j.id == row.id) ≡ true → not (id_in j.id rows) ≡ false) tail
id_in-All rows [] h = tt
id_in-All rows (row ∷ tail) h = (
  λ j e.
      let found : id_in j.id rows ≡ true = h j.id (ground (arith, ==_iff j.id row.id)) in
      rw found refl,
  id_in-All rows tail (λ id e. h id (ground (arith))),
)

-- A claim returns at most `limit` jobs, each of which was pending, due and not locked by another
-- transaction; afterwards the rows with their ids are running, and every other row is as it was.
pub claim_due-Claims :
    (locked : RowId → Bool) (worker_id : String) (limit : ℕ) (s : Session)
    → let at = s.clock s.ticks in
      let rows = due_rows locked limit at s.jobs in
      let (r, s') = claim_due locked worker_id limit s in
      (r ≡ ok (map (claimed worker_id at) rows))
      × (length rows ≤ limit)
      × All (WasDue locked at) rows
      × All (λ j. j.status ≡ running) (select (λ j. id_in j.id rows) s'.jobs)
      × (select (λ j. not (id_in j.id rows)) s'.jobs ≡ select (λ j. not (id_in j.id rows)) s.jobs)
unfolding claim_due
claim_due-Claims locked worker_id limit s =
    let at = s.clock s.ticks in
    let rows = due_rows locked limit at s.jobs in
    (
      refl,
      due_rows-length locked limit at s.jobs,
      due_rows-WasDue locked limit at s.jobs,
      select-All_if (λ j. id_in j.id rows) (λ j. j.status ≡ running)
          (claim_rows worker_id at rows s.jobs) (claim_rows-running worker_id at rows s.jobs),
      claim_rows-others worker_id at (λ j. not (id_in j.id rows)) rows s.jobs
          (id_in-All rows rows (λ id e. e)),
    )

not_due : (ids : Bool) (st : JobStatus) → st ≡ pending → (ids ≡ true → st ≡ running) → ids ≡ false
not_due true st p h = cc (h refl)
not_due false st p h = refl

-- A claim on the tables that another claim has left returns none of the jobs that the first one
-- took, whatever its limit, its time and the locks it meets.
pub claim_due-disjoint :
    (locked locked' : RowId → Bool) (worker_id : String) (limit limit' : ℕ) (at' : Time)
    (s : Session)
    → let rows = due_rows locked limit (s.clock s.ticks) s.jobs in
      let s' = (claim_due locked worker_id limit s).1 in
      All (λ j. id_in j.id rows ≡ false) (due_rows locked' limit' at' s'.jobs)
unfolding claim_due
claim_due-disjoint locked locked' worker_id limit limit' at' s =
    let at = s.clock s.ticks in
    let rows = due_rows locked limit at s.jobs in
    let jobs = claim_rows worker_id at rows s.jobs in
    let again = due_rows locked' limit' at' jobs in
    All-map (λ j. WasDue locked' at' j × (id_in j.id rows ≡ true → j.status ≡ running))
      (λ j. id_in j.id rows ≡ false) (λ j k. not_due (id_in j.id rows) j.status k.0.0 k.1) again
      (All-both (WasDue locked' at') (λ j. id_in j.id rows ≡ true → j.status ≡ running) again
        (due_rows-WasDue locked' limit' at' jobs)
        (due_rows-keep (λ j. id_in j.id rows ≡ true → j.status ≡ running) locked' limit' at' jobs
          (claim_rows-running worker_id at rows s.jobs)))
