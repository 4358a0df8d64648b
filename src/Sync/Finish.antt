-- ===== src/Sync/Finish.antt =====
-- About the end of sync_source of src/app/integration/sync.py: the gap, the job and the report.
use mathlib.Core.Path.{subst}
use smart_procurement_backen.Prelude.{
  ℕ, zero, suc, ◌+◌, ◌≡◌, refl, ◌∙◌, ap, List, [], ◌∷◌, ◌++◌, length,
}
use smart_procurement_backen.Errors.{Result, ok, err}
use smart_procurement_backen.Table.{select, update}
use smart_procurement_backen.Models.Basic.{RowId, Time, uuid_text, uuid_texts}
use smart_procurement_backen.Models.Jobs.{Job, JobStatus}
use smart_procurement_backen.Models.Integration.{DataSource}
use smart_procurement_backen.Session.{Db, Session, after, pure}
use smart_procurement_backen.Jobs.{enqueue}
use smart_procurement_backen.Observability.{GapKey, is_current, close_gap}
use smart_procurement_backen.Observability.Unique.{IsUnique}
use smart_procurement_backen.Observability.Idempotent.{close_gap-again, close_gap-db}
use smart_procurement_backen.DataSources.{has_source_id, save_source}
use smart_procurement_backen.DataSources.Connection.{source_gap}
use smart_procurement_backen.Sync.Run.{
  FetchBatch, SyncResult, Progress, reached, enqueue_recompute, finish_sync,
}

-- The key of the gap that a synchronisation opens and closes.
abbrev pub sync_gap : RowId → DataSource → GapKey
sync_gap enterprise_id ds = record (source_gap ds) { enterprise_id = enterprise_id }

-- No signal, no job; otherwise one pending recomputation of the enterprise is appended.
abbrev pub Chains : RowId → ℕ → List Job → List Job → Type 0
Chains enterprise_id zero before after_ = after_ ≡ before
Chains enterprise_id (suc n) before after_ =
    (job : Job) × (after_ ≡ before ++ (job ∷ []))
    × (job.kind ≡ "recompute_aggregates")
    × (job.status ≡ JobStatus.pending)
    × ((touched : List RowId) × (job.payload
          ≡ ("enterprise_id", uuid_text enterprise_id) ∷ ("item_ids", uuid_texts touched) ∷ []))

-- What finish_sync adds to a database.
abbrev pub Reports : RowId → DataSource → Time → ℕ → Db → Db → Type 0
Reports enterprise_id ds fetched_at signals before db =
    Chains enterprise_id signals before.jobs db.jobs
    × (select (is_current (sync_gap enterprise_id ds)) db.gaps ≡ [])
    × ((at : Time) × (db.data_sources
          ≡ update (has_source_id ds.id) (λ _. reached ds fetched_at at) before.data_sources))

enqueue_recompute-Chains :
    (i : RowId) (n : ℕ) (touched : List RowId) (s : Session)
    → let r = enqueue_recompute i n touched s in
      (r.0 ≡ ok tt)
      × Chains i n s.jobs r.1.jobs
      × (r.1.gaps ≡ s.gaps)
      × (r.1.data_sources ≡ s.data_sources)
      × (r.1.signals ≡ s.signals)
unfolding enqueue_recompute enqueue
enqueue_recompute-Chains i zero touched s = (refl, refl, refl, refl, refl)
enqueue_recompute-Chains i (suc n) touched s =
    (refl, (_, refl, refl, refl, (touched, refl)), refl, refl, refl)

abbrev pub Finished :
    RowId → DataSource → FetchBatch → Progress → Db → Result SyncResult × Session → Type 0
Finished i ds batch p before (ok r, s) =
    (r.signals_created ≡ p.signals_created)
    × (r.fetched_at ≡ batch.fetched_at)
    × Reports i ds batch.fetched_at p.signals_created before s.db
    × (s.signals ≡ before.signals)
Finished i ds batch p before (err e, s) = ⊥

pub finish_sync-Finished :
    (i : RowId) (ds : DataSource) (batch : FetchBatch) (p : Progress) (s : Session)
    → IsUnique s.gaps
    → Finished i ds batch p s.db (finish_sync i ds batch p s)
unfolding finish_sync
finish_sync-Finished i ds batch p s h =
    let t : Session = record s {
      db = save_source (reached ds batch.fetched_at (s.clock s.ticks)) s.db;
      ticks = s.ticks + 1;
    } in
    let (returned, gone, again) = close_gap-again (sync_gap i ds) t h in
    go (close_gap (sync_gap i ds) t) returned gone (close_gap-db (sync_gap i ds) t)
  where
    go :
        (r : Result (Unit {0}) × Session)
        → r.0 ≡ ok tt
        → select (is_current (sync_gap i ds)) r.1.gaps ≡ []
        → r.1.db ≡ record (save_source (reached ds batch.fetched_at (s.clock s.ticks)) s.db) {
          gaps = r.1.gaps;
        }
        → Finished i ds batch p s.db (
            after
              (λ _. λ s'.
                after
                  (λ _. pure (record {
                    fetched_at = batch.fetched_at;
                    records_seen = length batch.records;
                    upserts = p.upserts;
                    signals_created = p.signals_created;
                  }))
                  (enqueue_recompute i p.signals_created p.touched s'))
              r)
    go (err e, u) returned gone same = cc
    go (ok x, u) returned gone same =
        next (enqueue_recompute i p.signals_created p.touched u)
          (enqueue_recompute-Chains i p.signals_created p.touched u)
      where
        next :
            (q : Result (Unit {0}) × Session)
            → (q.0 ≡ ok tt)
              × Chains i p.signals_created u.jobs q.1.jobs
              × (q.1.gaps ≡ u.gaps)
              × (q.1.data_sources ≡ u.data_sources)
              × (q.1.signals ≡ u.signals)
            → Finished i ds batch p s.db (
                after
                  (λ _. pure (record {
                    fetched_at = batch.fetched_at;
                    records_seen = length batch.records;
                    upserts = p.upserts;
                    signals_created = p.signals_created;
                  }))
                  q)
        next (err e, v) (returned', chained, gaps, sources, signals) = cc
        next (ok y, v) (returned', chained, gaps, sources, signals) = (
          refl,
          refl,
          (
            subst (λ js. Chains i p.signals_created js v.jobs) (ap (λ (db : Db). db.jobs) same)
                chained,
            rw gaps gone,
            (s.clock s.ticks, sources ∙ ap (λ (db : Db). db.data_sources) same),
          ),
          signals ∙ ap (λ (db : Db). db.signals) same,
        )
