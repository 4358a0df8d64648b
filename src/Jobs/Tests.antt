-- ===== src/Jobs/Tests.antt =====
-- The queue at concrete inputs.
use smart_procurement_backen.Prelude.{
  ℕ, ◌≡◌, ◌≤◌, refl, Bool, false, not, none, some, [], ◌∷◌, map, arith, All, length,
}
use smart_procurement_backen.Errors.{ok}
use smart_procurement_backen.Table.{select, order_by}
use smart_procurement_backen.Models.Jobs.{Job, pending, running}
use smart_procurement_backen.Session.{Session}
use smart_procurement_backen.Session.Sample.{empty_db, session_on}
use smart_procurement_backen.Jobs.{backoff, claimed, due_rows, claim_due}
use smart_procurement_backen.Jobs.Backoff.{backoff_bounds}
use smart_procurement_backen.Jobs.Claim.{id_in, WasDue, claim_due-Claims, claim_due-disjoint}

abbrev sync_job : Job
sync_job = record {
  id = 3;
  enterprise_id = some 9;
  kind = "integration.observe_source";
  payload = [];
  run_at = 900;
  status = pending;
  attempts = 2;
  max_attempts = 5;
  locked_by = none;
  locked_at = none;
  last_error = none;
}

abbrev start : Session
start =
    session_on (record empty_db { jobs = sync_job ∷ record sync_job { id = 4; run_at = 800 } ∷ [] })

abbrev unlocked : ℕ → Bool
unlocked _ = false

-- The older of the two due jobs is taken.
claimed_now :
    (claim_due unlocked "w" 1 start).0
    ≡ ok (claimed "w" 1000 (record sync_job { id = 4; run_at = 800 }) ∷ [])
unfolding claim_due due_rows order_by
claimed_now = refl

delays : map backoff (0 ∷ 1 ∷ 2 ∷ 9 ∷ 10 ∷ []) ≡ 5 ∷ 10 ∷ 20 ∷ 2560 ∷ 3600 ∷ []
unfolding backoff
delays = refl

backoff_bounds_example : (10 ≤ backoff 3) × (backoff 3 ≤ 3600)
backoff_bounds_example = backoff_bounds 3 (omega arith)

claim_due-Claims_example :
    let at = start.clock start.ticks in
    let rows = due_rows unlocked 1 at start.jobs in
    let (r, s') = claim_due unlocked "w" 1 start in
    (r ≡ ok (map (claimed "w" at) rows))
    × (length rows ≤ 1)
    × All (WasDue unlocked at) rows
    × All (λ j. j.status ≡ running) (select (λ j. id_in j.id rows) s'.jobs)
    × (select (λ j. not (id_in j.id rows)) s'.jobs ≡ select (λ j. not (id_in j.id rows)) start.jobs)
claim_due-Claims_example = claim_due-Claims unlocked "w" 1 start

claim_due-disjoint_example :
    let rows = due_rows unlocked 1 (start.clock start.ticks) start.jobs in
    let s' = (claim_due unlocked "w" 1 start).1 in
    All (λ j. id_in j.id rows ≡ false) (due_rows unlocked 5 1001 s'.jobs)
claim_due-disjoint_example = claim_due-disjoint unlocked unlocked "w" 1 5 1001 start
