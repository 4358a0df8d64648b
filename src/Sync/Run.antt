-- ===== src/Sync/Run.antt =====
-- sync_source of src/app/integration/sync.py. What the connector is built from and fetches is an
-- argument.
use smart_procurement_backen.Prelude.{
  sorted_texts, ℕ, zero, suc, ◌+◌, String, Bool, true, false, Option, none, some, List, [], ◌∷◌,
  ◌++◌, map, if◌then◌else◌, ◌==◌, str_eq, any, length,
}
use smart_procurement_backen.Prelude.Dict.{get, put}
use smart_procurement_backen.Errors.{upstream}
use smart_procurement_backen.Table.{select, scalar_one_or_none}
use smart_procurement_backen.Models.Basic.{RowId, Time, uuid_text, uuid_texts}
use smart_procurement_backen.Models.Integration.{DataSource, Health, FieldMapping}
use smart_procurement_backen.Models.Analysis.{ObservationSignal}
use smart_procurement_backen.Models.Domain.{Entity, entity_key, Provenance}
use smart_procurement_backen.Session.{Exec, pure, raise, lift, ◌>>=◌, ◌>>◌, modify, now}
use smart_procurement_backen.Jobs.{enqueue, default_max_attempts}
use smart_procurement_backen.Observability.{open_gap, close_gap}
use smart_procurement_backen.Mappings.{is_owned_source, confirmed_mappings}
use smart_procurement_backen.DataSources.{save_source}
use smart_procurement_backen.DataSources.Connection.{Vault, source_gap, load_credential}
use smart_procurement_backen.Sync.Records.{Texts, Record, join_texts, mappings_for, extract}
use smart_procurement_backen.Sync.Specs.{
  Attr, given, linked, Resolved, EntitySpec, spec_of, required_identity, entity_order,
}
use smart_procurement_backen.Sync.Upsert.{upsert}
use smart_procurement_backen.Sync.References.{Cache, Resolution, resolve_refs}

pub record FetchBatch : Type 0 where
  pub records : List Record
  pub fetched_at : Time

-- What building a connector and fetching brings: a batch, or the text of a ConnectorError.
pub data Fetch : Type 0 where
  refused : String → Fetch
  fetched : FetchBatch → Fetch

pub record SyncResult : Type 0 where
  pub fetched_at : Time
  pub records_seen : ℕ
  pub upserts : List (String × ℕ)
  pub signals_created : ℕ

-- The variables of the loops.
pub record Progress : Type 0 where
  pub upserts : List (String × ℕ)
  pub signals_created : ℕ
  pub cache : Cache
  pub touched : List RowId

abbrev pub start : Progress
start = record { upserts = []; signals_created = 0; cache = []; touched = [] }

abbrev pub or_zero : Option ℕ → ℕ
or_zero none = 0
or_zero (some n) = n

-- `touched_item_ids.add`: a set in the order of its first additions.
abbrev pub add_touched : Option RowId → List RowId → List RowId
add_touched none ids = ids
add_touched (some id) ids = if any (λ x. x == id) ids then ids else ids ++ (id ∷ [])

abbrev pub count_upsert : Entity → Progress → Progress
count_upsert e p = record p {
  upserts = put (entity_key e) (or_zero (get (entity_key e) p.upserts) + 1) p.upserts;
}

abbrev pub count_signal : Option ObservationSignal → Progress → Progress
count_signal none p = p
count_signal (some signal) p = record p {
  signals_created = p.signals_created + 1;
  touched = add_touched signal.item_id p.touched;
}

-- `k not in resolved or resolved[k] in (None, "")`
abbrev pub is_missing : Option Attr → Bool
is_missing none = true
is_missing (some (given s)) = str_eq s ""
is_missing (some (linked id)) = false

abbrev pub lacks_identity : EntitySpec → Resolved → Bool
lacks_identity sp resolved = any (λ k. is_missing (get k resolved)) (required_identity sp)

abbrev pub provenance_of : RowId → List FieldMapping → Time → Provenance
provenance_of data_source_id mappings fetched_at = record {
  data_source_id = data_source_id;
  source_field_path =
      join_texts (sorted_texts (map (λ (m : FieldMapping). m.source_field_path) mappings));
  fetched_at = fetched_at;
}

-- The source as a failed and as a successful fetch leave it.
abbrev pub unreachable : DataSource → String → Time → DataSource
unreachable ds detail at = record ds {
  health = Health.unavailable;
  last_error = some detail;
  last_check_at = some at;
}

abbrev pub reached : DataSource → Time → Time → DataSource
reached ds fetched_at at = record ds {
  health = Health.available;
  last_error = none;
  last_success_at = some fetched_at;
  last_check_at = some at;
}

-- `if result.signals_created:`
unfoldable pub enqueue_recompute : RowId → ℕ → List RowId → Exec (Unit {0})
enqueue_recompute enterprise_id zero touched = pure tt
enqueue_recompute enterprise_id (suc n) touched =
    enqueue "recompute_aggregates"
      (("enterprise_id", uuid_text enterprise_id) ∷ ("item_ids", uuid_texts touched) ∷ []) none
      (some enterprise_id) default_max_attempts
    >> pure tt

unfoldable pub finish_sync : RowId → DataSource → FetchBatch → Progress → Exec SyncResult
finish_sync enterprise_id ds batch p = do
  at ← now
  modify (save_source (reached ds batch.fetched_at at))
  close_gap (record (source_gap ds) { enterprise_id = enterprise_id })
  enqueue_recompute enterprise_id p.signals_created p.touched
  pure (record {
    fetched_at = batch.fetched_at;
    records_seen = length batch.records;
    upserts = p.upserts;
    signals_created = p.signals_created;
  })

module _ (t : Texts) where
  unfoldable pub sync_resolved : RowId → Entity → Provenance → Progress → Resolution → Exec Progress
  sync_resolved enterprise_id e provenance p (none, cache) = pure (record p { cache = cache })
  sync_resolved enterprise_id e provenance p (some resolved, cache) =
      if lacks_identity (spec_of e) resolved
      then pure (record p { cache = cache })
      else (upsert t enterprise_id e resolved provenance >>= λ signal.
          pure (count_signal signal (count_upsert e (record p { cache = cache }))))

  -- `if not attrs: continue`
  unfoldable pub sync_attrs : RowId → Entity → Provenance → Progress → Resolved → Exec Progress
  sync_attrs enterprise_id e provenance p [] = pure p
  sync_attrs enterprise_id e provenance p (a ∷ attrs) =
      resolve_refs enterprise_id (spec_of e) (a ∷ attrs) p.cache
      >>= sync_resolved enterprise_id e provenance p

  unfoldable pub sync_records :
      RowId → Entity → Provenance → List FieldMapping → List Record → Progress → Exec Progress
  sync_records enterprise_id e provenance mappings [] p = pure p
  sync_records enterprise_id e provenance mappings (r ∷ rs) p =
      sync_attrs enterprise_id e provenance p (extract t r mappings [])
      >>= sync_records enterprise_id e provenance mappings rs

  -- `if not mappings: continue`
  unfoldable pub sync_entity :
      RowId → RowId → FetchBatch → Entity → List FieldMapping → Progress → Exec Progress
  sync_entity enterprise_id data_source_id batch e [] p = pure p
  sync_entity enterprise_id data_source_id batch e (m ∷ ms) p =
      sync_records enterprise_id e (provenance_of data_source_id (m ∷ ms) batch.fetched_at) (m ∷ ms)
        batch.records p

  unfoldable pub sync_entities :
      RowId → RowId → FetchBatch → List FieldMapping → List Entity → Progress → Exec Progress
  sync_entities enterprise_id data_source_id batch confirmed [] p = pure p
  sync_entities enterprise_id data_source_id batch confirmed (e ∷ es) p =
      sync_entity enterprise_id data_source_id batch e (mappings_for e confirmed) p
      >>= sync_entities enterprise_id data_source_id batch confirmed es

  unfoldable pub sync_batch : RowId → DataSource → FetchBatch → Exec SyncResult
  sync_batch enterprise_id ds batch = do
    confirmed ← confirmed_mappings ds.id
    p ← sync_entities enterprise_id ds.id batch confirmed entity_order start
    finish_sync enterprise_id ds batch p

  unfoldable pub sync_fetched : RowId → DataSource → Fetch → Exec SyncResult
  sync_fetched enterprise_id ds (refused detail) = do
    at ← now
    modify (save_source (unreachable ds detail at))
    open_gap (record (source_gap ds) { enterprise_id = enterprise_id })
    raise upstream
  sync_fetched enterprise_id ds (fetched batch) = sync_batch enterprise_id ds batch

  module _ (vault : Vault) (fetch : DataSource → Option String → Option Time → Fetch) where
    -- The credential is read before the connector is built; reading it is load_credential.
    unfoldable pub sync_owned : RowId → Option Time → Option DataSource → Exec SyncResult
    sync_owned enterprise_id since none = raise upstream
    sync_owned enterprise_id since (some ds) = do
      credential ← load_credential vault ds.credential_ref
      sync_fetched enterprise_id ds (fetch ds credential since)

    unfoldable pub sync_source : RowId → RowId → Option Time → Exec SyncResult
    sync_source enterprise_id data_source_id since s =
        (lift (
              scalar_one_or_none
                (select (is_owned_source enterprise_id data_source_id) s.data_sources))
            >>= sync_owned enterprise_id since)
          s
