-- ===== src/Sync/Identity.antt =====
-- About the canonical rows that a call of sync_source in src/app/integration/sync.py leaves.
use mathlib.Core.Path.{subst}
use smart_procurement_backen.Prelude.{
  ◌+◌, ◌≡◌, refl, sym, ℕ, zero, suc, String, Option, List, [], ◌∷◌,
}
use smart_procurement_backen.Table.{select}
use smart_procurement_backen.Models.Basic.{RowId, Time}
use smart_procurement_backen.Models.Integration.{DataSource}
use smart_procurement_backen.Session.{Session, after}
use smart_procurement_backen.Session.Keeps.{Keeps, after-Keeps}
use smart_procurement_backen.Jobs.{enqueue}
use smart_procurement_backen.Observability.{open_gap, close_gap}
use smart_procurement_backen.Observability.Idempotent.{open_gap-db, close_gap-db}
use smart_procurement_backen.Mappings.{is_owned_source, confirmed_mappings}
use smart_procurement_backen.DataSources.{save_source}
use smart_procurement_backen.DataSources.Connection.{Vault, load_credential}
use smart_procurement_backen.DataSources.Check.{load_credential-keeps}
use smart_procurement_backen.Sync.Records.{Texts}
use smart_procurement_backen.Sync.Specs.{entity_order}
use smart_procurement_backen.Sync.Run.{
  FetchBatch, Fetch, refused, fetched, Progress, start, unreachable, reached, sync_entities,
  enqueue_recompute, finish_sync, sync_batch, sync_fetched, sync_owned, sync_source,
}
use smart_procurement_backen.Sync.Unique.{HasKeys, upsert-Keeps}
use smart_procurement_backen.Sync.Keyed.{IsKeyed}
use smart_procurement_backen.Sync.Frame.{sync_entities-Keeps}
use smart_procurement_backen.Sync.Finish.{sync_gap}

recompute-Keeps :
    (i : RowId) (n : ℕ) (touched : List RowId) → Keeps HasKeys (enqueue_recompute i n touched)
unfolding enqueue_recompute enqueue
recompute-Keeps i zero touched s h = h
recompute-Keeps i (suc n) touched s h = h

finish_sync-Keeps :
    (i : RowId) (ds : DataSource) (batch : FetchBatch) (p : Progress)
    → Keeps HasKeys (finish_sync i ds batch p)
unfolding finish_sync
finish_sync-Keeps i ds batch p s h =
    let u : Session = record s {
      db = save_source (reached ds batch.fetched_at (s.clock s.ticks)) s.db;
      ticks = s.ticks + 1;
    } in
    after-Keeps HasKeys _ (close_gap (sync_gap i ds) u)
      (subst HasKeys (sym (close_gap-db (sync_gap i ds) u)) h)
      (λ _ v k.
        after-Keeps HasKeys _ (enqueue_recompute i p.signals_created p.touched v)
          (recompute-Keeps i p.signals_created p.touched v k) (λ _ w m. m))

module _ (t : Texts) (i d : RowId) where
  sync_fetched-Keeps : (ds : DataSource) (f : Fetch) → Keeps HasKeys (sync_fetched t i ds f)
  unfolding sync_fetched sync_batch confirmed_mappings
  sync_fetched-Keeps ds (refused detail) s h =
      let u : Session = record s {
        db = save_source (unreachable ds detail (s.clock s.ticks)) s.db;
        ticks = s.ticks + 1;
      } in
      after-Keeps HasKeys _ (open_gap (sync_gap i ds) u)
        (subst HasKeys (sym (open_gap-db (sync_gap i ds) u)) h) (λ _ v k. k)
  sync_fetched-Keeps ds (fetched batch) s h =
      after-Keeps HasKeys (finish_sync i ds batch)
        (sync_entities t i ds.id batch _ entity_order start s)
        (sync_entities-Keeps t HasKeys (upsert-Keeps t) i ds.id batch _ entity_order start s h)
        (finish_sync-Keeps i ds batch)

  -- If there is at most one canonical row for each enterprise, entity and identity, this is so after a
  -- synchronisation, whether it returns or raises.
  pub sync_source-IsKeyed :
      (vault : Vault) (fetch : DataSource → Option String → Option Time → Fetch)
      (since : Option Time) (s : Session)
      → IsKeyed s.entities
      → IsKeyed (sync_source t vault fetch i d since s).1.entities
  unfolding sync_source sync_owned
  sync_source-IsKeyed vault fetch since s h = go (select (is_owned_source i d) s.data_sources) refl
    where
      go :
          (rows : List DataSource)
          → select (is_owned_source i d) s.data_sources ≡ rows
          → IsKeyed (sync_source t vault fetch i d since s).1.entities
      go [] one = rw (one, after) h
      go (ds ∷ ds' ∷ rows) one = rw (one, after) h
      go (ds ∷ []) one =
          rw (one, after)
            (after-Keeps HasKeys (λ credential. sync_fetched t i ds (fetch ds credential since))
              (load_credential vault ds.credential_ref s)
              (subst (λ (x : Session). HasKeys x.db)
                (sym (load_credential-keeps vault ds.credential_ref s)) h)
              (λ credential. sync_fetched-Keeps ds (fetch ds credential since)))
