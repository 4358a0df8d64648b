-- ===== src/Sync/Outcome.antt =====
-- About the outcome of sync_source in src/app/integration/sync.py.
use mathlib.Core.Path.{subst}
use smart_procurement_backen.Prelude.{
  ◌+◌, ◌≡◌, refl, sym, ◌∙◌, ap, String, Option, List, [], ◌∷◌, length, arith, ◌==◌, ◌&&◌,
}
use smart_procurement_backen.Errors.{Result, ok, err, upstream}
use smart_procurement_backen.Table.{select, update}
use smart_procurement_backen.Models.Basic.{RowId, Time}
use smart_procurement_backen.Models.Integration.{DataSource, FieldMapping}
use smart_procurement_backen.Models.Observation.{ObservabilityGap}
use smart_procurement_backen.Session.{Db, Session, after, raise}
use smart_procurement_backen.Observability.{is_current, open_gap}
use smart_procurement_backen.Observability.Unique.{IsUnique}
use smart_procurement_backen.Observability.Idempotent.{open_gap-again, open_gap-db}
use smart_procurement_backen.Mappings.{is_owned_source, is_confirmed, confirmed_mappings}
use smart_procurement_backen.DataSources.{has_source_id, save_source}
use smart_procurement_backen.DataSources.Connection.{Vault, load_credential}
use smart_procurement_backen.DataSources.Check.{load_credential-keeps}
use smart_procurement_backen.Sync.Records.{Texts}
use smart_procurement_backen.Sync.Specs.{entity_order}
use smart_procurement_backen.Sync.Run.{
  FetchBatch, Fetch, refused, fetched, SyncResult, Progress, start, unreachable, reached,
  sync_entities, finish_sync, sync_batch, sync_fetched, sync_owned, sync_source,
}
use smart_procurement_backen.Sync.Frame.{sync_entities-Keeps, upsert-ignored}
use smart_procurement_backen.Sync.Signals.{Counts, sync_entities-Counts}
use smart_procurement_backen.Sync.Finish.{sync_gap, Reports, Finished, finish_sync-Finished}

-- A call that returns is of the only source of the enterprise with the id; its report counts the
-- signals it added, and is followed up. One that raises has queued nothing.
abbrev pub Syncs : RowId → RowId → Session → Result SyncResult × Session → Type 0
Syncs i d s (ok r, s') =
    (length s'.signals ≡ length s.signals + r.signals_created)
    × ((ds : DataSource) × (select (is_owned_source i d) s.data_sources ≡ ds ∷ [])
        × Reports i ds r.fetched_at r.signals_created s.db s'.db)
Syncs i d s (err e, s') = s'.jobs ≡ s.jobs

-- The tables that the loops leave alone.
abbrev Same : Db → Db → Type 0
Same before db =
    (db.jobs ≡ before.jobs) × (db.gaps ≡ before.gaps) × (db.data_sources ≡ before.data_sources)

module _ (t : Texts) (i d : RowId) where
  Finished-Syncs :
      (ds : DataSource) (batch : FetchBatch) (p : Progress) (s u : Session)
      (r : Result SyncResult × Session)
      → select (is_owned_source i d) s.data_sources ≡ ds ∷ []
      → Same s.db u.db
      → length u.signals + 0 ≡ length s.signals + p.signals_created
      → Finished i ds batch p u.db r
      → Syncs i d s r
  Finished-Syncs ds batch p s u (err e, v) one same counts h = absurd h
  Finished-Syncs ds batch p s u (ok r, v) one (jobs, gaps, sources) counts
        (signals, at, (chained, gone, (when, written)), added) =
      (
        omega (arith, ap length added, counts, signals),
        (
          ds,
          one,
          (
            rw (signals, sym jobs) chained,
            gone,
            (
              when,
              rw at (
                  written
                  ∙ ap (update (has_source_id ds.id) (λ _. reached ds batch.fetched_at when))
                      sources),
            ),
          ),
        ),
      )

  sync_batch-Syncs :
      (ds : DataSource) (batch : FetchBatch) (s : Session)
      → IsUnique s.gaps
      → select (is_owned_source i d) s.data_sources ≡ ds ∷ []
      → Syncs i d s (sync_batch t i ds batch s)
  unfolding sync_batch confirmed_mappings
  sync_batch-Syncs ds batch s h one =
      go (sync_entities t i ds.id batch confirmed entity_order start s)
        (sync_entities-Keeps t (Same s.db) (upsert-ignored t (Same s.db) (λ db es ss k. k)) i ds.id
          batch confirmed entity_order start s (refl, refl, refl))
        (sync_entities-Counts t i ds.id batch confirmed entity_order start s)
    where
      confirmed : List FieldMapping
      confirmed = select (λ m. m.data_source_id == ds.id && is_confirmed m.status) s.mappings

      go :
          (r : Result Progress × Session)
          → Same s.db r.1.db
          → Counts (length s.signals) 0 r
          → Syncs i d s (after (finish_sync i ds batch) r)
      go (err e, u) same counts = same.0
      go (ok p, u) same counts =
          Finished-Syncs ds batch p s u (finish_sync i ds batch p u) one same counts
            (finish_sync-Finished i ds batch p u (subst IsUnique (sym same.1) h))

  -- A failed fetch is recorded and raised.
  abbrev pub Records : DataSource → String → Session → Result SyncResult × Session → Type 0
  Records ds detail s r =
      (r.0 ≡ err upstream)
      × ((g : ObservabilityGap) × (select (is_current (sync_gap i ds)) r.1.gaps ≡ g ∷ []))
      × (r.1.data_sources
          ≡ update (has_source_id ds.id) (λ _. unreachable ds detail (s.clock s.ticks))
              s.data_sources)
      × (r.1.entities ≡ s.entities)
      × (r.1.signals ≡ s.signals)
      × (r.1.jobs ≡ s.jobs)

  refused-Records :
      (ds : DataSource) (detail : String) (s : Session)
      → IsUnique s.gaps
      → Records ds detail s (sync_fetched t i ds (refused detail) s)
  unfolding sync_fetched
  refused-Records ds detail s h =
      let u : Session = record s {
        db = save_source (unreachable ds detail (s.clock s.ticks)) s.db;
        ticks = s.ticks + 1;
      } in
      let (g, returned, one, again) = open_gap-again (sync_gap i ds) u h in
      go (open_gap (sync_gap i ds) u) g returned one (open_gap-db (sync_gap i ds) u)
    where
      go :
          (r : Result ObservabilityGap × Session) (g : ObservabilityGap)
          → r.0 ≡ ok g
          → select (is_current (sync_gap i ds)) r.1.gaps ≡ g ∷ []
          → r.1.db ≡ record (save_source (unreachable ds detail (s.clock s.ticks)) s.db) {
            gaps = r.1.gaps;
          }
          → Records ds detail s (after (λ _. raise upstream) r)
      go (err e, v) g returned one same = cc
      go (ok x, v) g returned one same = (
        refl,
        (g, one),
        ap (λ (db : Db). db.data_sources) same,
        ap (λ (db : Db). db.entities) same,
        ap (λ (db : Db). db.signals) same,
        ap (λ (db : Db). db.jobs) same,
      )

  module _ (vault : Vault) (fetch : DataSource → Option String → Option Time → Fetch)
      (since : Option Time) where
    -- Where at most one gap is open for each key: a synchronisation that returns is of the one source of
    -- the enterprise with that id. The signals in the table are then more by the number that it
    -- reports; the source is available with no gap of its own open; and one pending recomputation for
    -- the enterprise is appended to the jobs if that number is positive, none otherwise. One that
    -- raises leaves the jobs as they were.
    pub sync_source-Syncs :
        (s : Session) → IsUnique s.gaps → Syncs i d s (sync_source t vault fetch i d since s)
    unfolding sync_source sync_owned sync_fetched
    sync_source-Syncs s h = go (select (is_owned_source i d) s.data_sources) refl
      where
        fetched-Syncs :
            (ds : DataSource) (f : Fetch)
            → select (is_owned_source i d) s.data_sources ≡ ds ∷ []
            → Syncs i d s (sync_fetched t i ds f s)
        fetched-Syncs ds (fetched batch) one = sync_batch-Syncs ds batch s h one
        fetched-Syncs ds (refused detail) one =
            let r = refused-Records ds detail s h in
            failed (sync_fetched t i ds (refused detail) s) r.0 r.5
          where
            failed :
                (r : Result SyncResult × Session)
                → r.0 ≡ err upstream
                → r.1.jobs ≡ s.jobs
                → Syncs i d s r
            failed (ok x, v) bad same = cc
            failed (err e, v) bad same = same

        loaded :
            (ds : DataSource) (r : Result (Option String) × Session)
            → select (is_owned_source i d) s.data_sources ≡ ds ∷ []
            → r.1 ≡ s
            → Syncs i d s (after (λ credential. sync_fetched t i ds (fetch ds credential since)) r)
        loaded ds (err e, v) one same = ap (λ (x : Session). x.jobs) same
        loaded ds (ok credential, v) one same =
            subst (λ x. Syncs i d s (sync_fetched t i ds (fetch ds credential since) x)) (sym same)
              (fetched-Syncs ds (fetch ds credential since) one)

        go :
            (rows : List DataSource)
            → select (is_owned_source i d) s.data_sources ≡ rows
            → Syncs i d s (sync_source t vault fetch i d since s)
        go [] one = rw (one, after) refl
        go (ds ∷ ds' ∷ rows) one = rw (one, after) refl
        go (ds ∷ []) one =
            rw (one, after)
              (loaded ds (load_credential vault ds.credential_ref s) one
                (load_credential-keeps vault ds.credential_ref s))

    -- Where at most one gap is open for each key and the connector of the only such source refuses, the
    -- call raises UpstreamError; the session it leaves has the source unavailable with the error and its
    -- gap open exactly once, and the canonical rows, the signals and the jobs as they were.
    pub sync_source-refused :
        (s : Session) (ds : DataSource) (credential : Option String) (detail : String)
        → IsUnique s.gaps
        → select (is_owned_source i d) s.data_sources ≡ ds ∷ []
        → load_credential vault ds.credential_ref s ≡ (ok credential, s)
        → fetch ds credential since ≡ refused detail
        → Records ds detail s (sync_source t vault fetch i d since s)
    unfolding sync_source sync_owned
    sync_source-refused s ds credential detail h one loaded fails =
        rw (one, after) (rw (loaded, after) (rw fails (refused-Records ds detail s h)))
