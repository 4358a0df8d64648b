-- ===== src/Handlers/Chain.antt =====
-- About the chain of jobs from src/app/integration/jobs.py to observation/jobs.py.
use mathlib.Core.Path.{subst}
use smart_procurement_backen.Prelude.{
  and_parts, ℕ, ◌+◌, ◌≡◌, refl, ap, String, true, false, Option, none, some, List, [], ◌∷◌, ◌++◌,
  ◌==◌, ==_iff, ==_refl, IsIn, length, Bool-cases, inl, inr,
}
use smart_procurement_backen.Prelude.Dict.{get}
use smart_procurement_backen.Prelude.Decimal.{Decimal}
use smart_procurement_backen.Errors.{Result, ok, err, Result-cases}
use smart_procurement_backen.Table.{select, update}
use smart_procurement_backen.Table.Select.{select-IsIn}
use smart_procurement_backen.Models.Basic.{RowId, Time, uuid_text, Payload}
use smart_procurement_backen.Models.Jobs.{Job, JobStatus}
use smart_procurement_backen.Models.Integration.{DataSource}
use smart_procurement_backen.Models.Observation.{SkuAggregate}
use smart_procurement_backen.Session.{Session, after, pure, ◌>>◌}
use smart_procurement_backen.Jobs.{enqueue, default_max_attempts, reschedule_recurring}
use smart_procurement_backen.Observability.Unique.{IsUnique}
use smart_procurement_backen.DataSources.{has_source_id}
use smart_procurement_backen.Mappings.{is_owned_source}
use smart_procurement_backen.Sync.Records.{Texts}
use smart_procurement_backen.DataSources.Connection.{Vault}
use smart_procurement_backen.Sync.Run.{Fetch, SyncResult, sync_source, reached}
use smart_procurement_backen.Sync.Outcome.{Syncs, sync_source-Syncs}
use smart_procurement_backen.Sync.Finish.{Chains}
use smart_procurement_backen.Aggregates.{recompute_aggregates}
use smart_procurement_backen.Aggregates.Frame.{recompute_aggregates-ignored}
use smart_procurement_backen.Handlers.{
  as_uuids, recompute_then_detect, recompute_aggregates_handler, first_source, sync_then_reschedule,
  reschedule_source, observe_source_handler,
}

-- A pending detection for the enterprise is appended.
abbrev pub Detects : RowId → Session → Session → Type 0
Detects enterprise_id s s' =
    (job : Job) × (s'.jobs ≡ s.jobs ++ (job ∷ []))
    × (job.kind ≡ "detect_risks")
    × (job.status ≡ JobStatus.pending)
    × (job.payload ≡ ("enterprise_id", uuid_text enterprise_id) ∷ [])

-- A handler that returns has done so much; one that raises has queued nothing.
abbrev pub Follows : (Session → Session → Type 0) → Session → Result (Unit {0}) × Session → Type 0
Follows Q s (ok _, s') = Q s s'
Follows Q s (err e, s') = s'.jobs ≡ s.jobs

-- The job that enqueue makes of a detection.
abbrev detection : RowId → RowId → Time → Job
detection enterprise_id id at = record {
  id = id;
  enterprise_id = some enterprise_id;
  kind = "detect_risks";
  payload = ("enterprise_id", uuid_text enterprise_id) ∷ [];
  run_at = at;
  status = JobStatus.pending;
  attempts = 0;
  max_attempts = default_max_attempts;
  locked_by = none;
  locked_at = none;
  last_error = none;
}

recompute-Follows :
    (divide : Decimal → Decimal → Decimal) (e : RowId) (ids : List RowId) (s : Session)
    → Follows (Detects e) s (recompute_then_detect divide e ids s)
unfolding recompute_then_detect enqueue
recompute-Follows divide e ids s =
    go (recompute_aggregates divide e ids s)
      (recompute_aggregates-ignored (λ db. db.jobs ≡ s.jobs) (λ db rows k. k) divide e ids s refl)
  where
    go :
        (r : Result (List SkuAggregate) × Session)
        → r.1.jobs ≡ s.jobs
        → Follows (Detects e) s (
            after
              (λ _.
                enqueue "detect_risks"
                  (("enterprise_id", uuid_text e) ∷ [])
                  none
                  (some e)
                  default_max_attempts
                >> pure tt)
              r)
    go (err x, t) same = same
    go (ok rows, t) same = (
      detection e (t.uuids t.drawn) (t.clock t.ticks),
      ap (λ js. js ++ (detection e (t.uuids t.drawn) (t.clock t.ticks) ∷ [])) same,
      refl,
      refl,
      refl,
    )

-- The handler of a recomputation, if it returns, has appended one pending detection of risks for the
-- enterprise that the payload names; if it raises, the jobs are as they were.
pub recompute_aggregates_handler-Follows :
    (divide : Decimal → Decimal → Decimal) (job : Job) (enterprise_id : RowId) (s : Session)
    → get "enterprise_id" job.payload ≡ some (uuid_text enterprise_id)
    → Follows (Detects enterprise_id) s (recompute_aggregates_handler divide job s)
unfolding recompute_aggregates_handler
recompute_aggregates_handler-Follows divide job enterprise_id s named =
    elim (Result-cases (as_uuids (get "item_ids" job.payload))) [
      | inl (ids, e) ↦ rw (named, e, after) (recompute-Follows divide enterprise_id ids s)
      | inr (x, e) ↦ rw (named, e, after) refl
    ]

-- The row that a synchronisation has rewritten is found again.
first_updated :
    (id : RowId) (a c : DataSource) (rows : List DataSource)
    → IsIn a rows
    → (a.id == id) ≡ true
    → (c.id == id) ≡ true
    → first_source (select (has_source_id id) (update (has_source_id id) (λ _. c) rows)) ≡ some c
first_updated id a c (x ∷ rows) member own new = elim (Bool-cases (x.id == id)) [
  | inl hit ↦ rw (hit, new) refl
  | inr miss ↦ rw (miss, miss) (first_updated id a c rows (tail member miss) own new)
]
  where
    tail : {y : DataSource} → IsIn a (y ∷ rows) → (y.id == id) ≡ false → IsIn a rows
    tail IsIn.here miss = cc
    tail (IsIn.there i) miss = i
first_updated id a c [] member own new = elim member [ ]

-- The recomputation that the added signals ask for is appended, and after it the next run of the only
-- source of the enterprise with the id, due the interval of that source after the last reading of the
-- clock.
abbrev pub Reschedules : RowId → RowId → Payload → Session → Session → Type 0
Reschedules enterprise_id data_source_id payload s s' =
    (ds : DataSource) × (signals : ℕ) × (queued : List Job) × (next : Job) × (tick : ℕ) × (select
        (is_owned_source enterprise_id data_source_id) s.data_sources
      ≡ ds ∷ [])
    × (length s'.signals ≡ length s.signals + signals)
    × Chains enterprise_id signals s.jobs queued
    × (s'.jobs ≡ queued ++ (next ∷ []))
    × (next.kind ≡ "observe_source")
    × (next.status ≡ JobStatus.pending)
    × (next.payload ≡ payload)
    × (s'.ticks ≡ tick + 1)
    × (next.run_at ≡ s'.clock tick + ds.observation_interval_seconds)

module _ (t : Texts) (vault : Vault)
    (fetch : DataSource → Option String → Option Time → Fetch) where
  sync-Follows :
      (e d : RowId) (payload : Payload) (s : Session)
      → IsUnique s.gaps
      → Follows (Reschedules e d payload) s (sync_then_reschedule t vault fetch e d payload s)
  unfolding sync_then_reschedule reschedule_source reschedule_recurring enqueue
  sync-Follows e d payload s h =
      go (sync_source t vault fetch e d none s) (sync_source-Syncs t e d vault fetch none s h)
    where
      go :
          (r : Result SyncResult × Session)
          → Syncs e d s r
          → Follows (Reschedules e d payload) s (
              after
                (λ _. λ s'.
                  reschedule_source e payload
                    (first_source (select (has_source_id d) s'.data_sources))
                    s')
                r)
      go (err x, u) same = same
      go (ok r, u) (counts, (ds, one, (chained, gone, (at, written)))) =
          let (member, own) = select-IsIn (is_owned_source e d) ds s.data_sources [] one in
          let id : (ds.id == d) ≡ true = (and_parts _ _ own).0 in
          let same : ds.id ≡ d = (==_iff ds.id d).0 id in
          let after_sync = reached ds r.fetched_at at in
          let found : first_source (select (has_source_id d) u.data_sources) ≡ some after_sync =
            subst (λ x. first_source (select (has_source_id x) u.data_sources) ≡ some after_sync)
              same
              (rw written (
                first_updated ds.id ds after_sync s.data_sources member (==_refl ds.id)
                  (==_refl ds.id))) in
          rw found (
            ds, r.signals_created, u.jobs, _, u.ticks, one, counts, chained, refl, refl, refl, refl,
            refl, refl,
          )

  -- Where at most one gap is open for each key: the handler of an observation, if it returns, is of the
  -- only source of the enterprise with the id; it has appended the recomputation that the signals it
  -- added ask for, if any, and then one pending observation with the same payload, due the interval of
  -- that source after the last reading of the clock. If it raises, the jobs are as they were.
  pub observe_source_handler-Follows :
      (job : Job) (enterprise_id data_source_id : RowId) (s : Session)
      → IsUnique s.gaps
      → get "enterprise_id" job.payload ≡ some (uuid_text enterprise_id)
      → get "data_source_id" job.payload ≡ some (uuid_text data_source_id)
      → Follows
          (Reschedules enterprise_id data_source_id job.payload)
          s
          (observe_source_handler t vault fetch job s)
  unfolding observe_source_handler
  observe_source_handler-Follows job enterprise_id data_source_id s h named source =
      rw (named, source, after) (sync-Follows enterprise_id data_source_id job.payload s h)
