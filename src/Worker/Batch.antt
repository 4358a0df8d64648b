-- ===== src/Worker/Batch.antt =====
-- About process_once of src/app/worker.py.
use smart_procurement_backen.Prelude.{
  ℕ, suc, ◌+◌, ◌≤◌, ◌≡◌, refl, String, Bool, false, Option, none, some, List, [], ◌∷◌, map, arith,
  Bool-cases, inl, inr, str_eq, All, length, ap,
}
use smart_procurement_backen.Errors.{Error, Result, ok, err}
use smart_procurement_backen.Table.{select}
use smart_procurement_backen.Models.Basic.{RowId, Time}
use smart_procurement_backen.Models.Jobs.{Job, running}
use smart_procurement_backen.Session.{Session, pure, after}
use smart_procurement_backen.Jobs.{due_rows, claimed, claim_due}
use smart_procurement_backen.Jobs.Claim.{
  id_in, claim_due-Claims, claim_due-disjoint, due_rows-length,
}
use smart_procurement_backen.Worker.{
  Handlers, Orm, commit_or_close, skips, get_job, run_job, run_found, process_jobs, process_once,
}
use smart_procurement_backen.Worker.Outcome.{IsDatabaseError, Escapes, run_job-Escapes}

module _ (orm : Orm) (repr : Error → String) (handlers : Handlers) where
  -- A number between the two bounds, or an exception of the database.
  abbrev pub Counts : ℕ → ℕ → Result ℕ → Type 0
  Counts lo hi (ok n) = (lo ≤ n) × (n ≤ hi)
  Counts lo hi (err e) = IsDatabaseError orm repr e

  wider :
      (a b n : ℕ) (r : Result ℕ) → a ≤ b → b ≤ a + 1 → Counts b (b + n) r → Counts a (a + suc n) r
  wider a b n (ok m) lo hi c = omega arith
  wider a b n (err e) lo hi c = c

  -- One turn of the loop counts at most one job.
  run_found-Counts :
      (found : Option Job) (processed : ℕ) (s : Session)
      → Counts processed (processed + 1) (run_found orm repr handlers found processed s).0
  unfolding run_found
  run_found-Counts none processed s = omega arith
  run_found-Counts (some db_job) processed s =
      ran (run_job orm repr handlers db_job s) (run_job-Escapes orm repr handlers db_job s)
    where
      ran :
          (r : Result (Unit {0}) × Session)
          → Escapes orm repr r.0
          → Counts processed (processed + 1) (after (λ _. pure (processed + 1)) r).0
      ran (ok x, t) h = omega arith
      ran (err x, t) h = h

  process_jobs-Counts :
      (kind : Option String) (jobs : List Job) (processed : ℕ) (s : Session)
      → Counts processed
          (processed + length jobs)
          (process_jobs orm repr handlers kind jobs processed s).0
  unfolding process_jobs
  process_jobs-Counts kind [] processed s = omega arith
  process_jobs-Counts kind (job ∷ jobs) processed s = elim (Bool-cases (skips kind job)) [
    | inl other ↦ rw other (
        wider processed processed (length jobs)
          (process_jobs orm repr handlers kind jobs processed s).0 (omega arith) (omega arith)
          (process_jobs-Counts kind jobs processed s))
    | inr same ↦ rw same (
        go (run_found orm repr handlers (get_job job.id s.db) processed s)
          (run_found-Counts (get_job job.id s.db) processed s) (process_jobs-Counts kind jobs))
  ]
    where
      go :
          (r : Result ℕ × Session)
          → Counts processed (processed + 1) r.0
          → ((n : ℕ) (t : Session)
              → Counts n (n + length jobs) (process_jobs orm repr handlers kind jobs n t).0)
          → Counts processed
              (processed + suc (length jobs))
              (after (λ n. process_jobs orm repr handlers kind jobs n) r).0
      go (ok n, t) (lo, hi) later =
          wider processed n (length jobs) (process_jobs orm repr handlers kind jobs n t).0 lo hi
            (later n t)
      go (err x, t) h later = h

  length-map : (f : Job → Job) (js : List Job) → length (map f js) ≡ length js
  length-map f [] = refl
  length-map f (j ∷ js) = ap suc (length-map f js)

  Counts-le : (a b : ℕ) (r : Result ℕ) → a ≤ b → Counts 0 (0 + a) r → Counts 0 b r
  Counts-le a b (ok n) h c = omega arith
  Counts-le a b (err e) h c = c

  -- Whatever the handlers do, a poll reports at most `limit` jobs, or raises an exception that a commit
  -- or the reading of an expired id raises.
  pub process_once-Counts :
      (locked : RowId → Bool) (worker_id : String) (kind : Option String) (limit : ℕ) (s : Session)
      → Counts 0 limit (process_once orm repr handlers locked worker_id kind limit s).0
  unfolding process_once claim_due
  process_once-Counts locked worker_id kind limit s = go (orm.commit t.db) refl
    where
      at : Time
      at = s.clock s.ticks

      rows : List Job
      rows = due_rows locked limit at s.jobs

      t : Session
      t = (claim_due locked worker_id limit s).1

      go :
          (c : Result (Unit {0}))
          → orm.commit t.db ≡ c
          → Counts 0 limit
              (after
                (λ _. process_jobs orm repr handlers kind (map (claimed worker_id at) rows) 0)
                (commit_or_close s.db t c)).0
      go (err x) e = inl (t.db, e)
      go (ok x) e =
          Counts-le (length (map (claimed worker_id at) rows)) limit
            (process_jobs orm repr handlers kind (map (claimed worker_id at) rows) 0 t).0
            (omega (
              arith,
              length-map (claimed worker_id at) rows,
              due_rows-length locked limit at s.jobs,
            ))
            (process_jobs-Counts kind (map (claimed worker_id at) rows) 0 t)

  process_jobs-skip :
      (kind : String) (jobs : List Job) (processed : ℕ) (s : Session)
      → All (λ j. str_eq j.kind kind ≡ false) jobs
      → process_jobs orm repr handlers (some kind) jobs processed s ≡ (ok processed, s)
  unfolding process_jobs
  process_jobs-skip kind [] processed s h = refl
  process_jobs-skip kind (j ∷ jobs) processed s h =
      rw h.0 (process_jobs-skip kind jobs processed s h.1)

  All-claimed :
      (kind worker_id : String) (at : Time) (rows : List Job)
      → All (λ j. str_eq j.kind kind ≡ false) rows
      → All (λ j. str_eq j.kind kind ≡ false) (map (claimed worker_id at) rows)
  All-claimed kind worker_id at [] h = tt
  All-claimed kind worker_id at (j ∷ rows) h = (h.0, All-claimed kind worker_id at rows h.1)

  -- Where the commit of the claim is accepted: if all the jobs that a poll claims are of other kinds than
  -- its filter, it reports none and leaves them running, and a claim on the tables it left takes none of
  -- them.
  pub process_once-strands :
      (locked locked' : RowId → Bool) (worker_id kind : String) (limit limit' : ℕ) (at' : Time)
      (s : Session)
      → orm.commit (claim_due locked worker_id limit s).1.db ≡ ok tt
      → All (λ j. str_eq j.kind kind ≡ false) (due_rows locked limit (s.clock s.ticks) s.jobs)
      → let rows = due_rows locked limit (s.clock s.ticks) s.jobs in
        let (r, s') = process_once orm repr handlers locked worker_id (some kind) limit s in
        (r ≡ ok 0)
        × All (λ j. j.status ≡ running) (select (λ j. id_in j.id rows) s'.jobs)
        × All (λ j. id_in j.id rows ≡ false) (due_rows locked' limit' at' s'.jobs)
  unfolding process_once claim_due
  process_once-strands locked locked' worker_id kind limit limit' at' s accepted other =
      let at = s.clock s.ticks in
      let rows = due_rows locked limit at s.jobs in
      let t = (claim_due locked worker_id limit s).1 in
      let claims = claim_due-Claims locked worker_id limit s in
      rw accepted (
        rw
          (process_jobs-skip kind (map (claimed worker_id at) rows) 0 t
            (All-claimed kind worker_id at rows other))
          (refl, claims.3, claim_due-disjoint locked locked' worker_id limit limit' at' s))
