-- ===== src/Sync/Frame.antt =====
-- About what the loops of sync_source in src/app/integration/sync.py leave alone.
use mathlib.Core.Path.{subst}
use smart_procurement_backen.Prelude.{
  ◌≡◌, refl, sym, String, false, Option, none, some, List, [], ◌∷◌, str_eq, any, Bool-cases,
  Option-cases, inl, inr,
}
use smart_procurement_backen.Prelude.Dict.{get}
use smart_procurement_backen.Table.{select}
use smart_procurement_backen.Models.Basic.{RowId, Time}
use smart_procurement_backen.Models.Integration.{FieldMapping}
use smart_procurement_backen.Models.Domain.{
  Entity, Cells, Cell, columns_of, same_value, Provenance, EntityRow,
}
use smart_procurement_backen.Models.Analysis.{SignalType, ObservationSignal}
use smart_procurement_backen.Session.{Db, Session, after, pure}
use smart_procurement_backen.Session.Keeps.{Keeps, after-Keeps, >>=-Keeps}
use smart_procurement_backen.Sync.Records.{Texts, Record, mappings_for, extract}
use smart_procurement_backen.Sync.Specs.{Attr, given, linked, Resolved, spec_of, signal_watch}
use smart_procurement_backen.Sync.Upsert.{
  add_signal, diff_value, diff_watched, diff_signal, upsert_found, coerced_of, upsert,
}
use smart_procurement_backen.Sync.Rows.{
  is_raw, is_existing, with_defaults, updated, find_existing, insert_row, row_error, has_unknown,
  update_row,
}
use smart_procurement_backen.Sync.References.{Resolution, resolve_refs, value_of}
use smart_procurement_backen.Sync.Run.{
  FetchBatch, Progress, lacks_identity, sync_resolved, sync_attrs, sync_records, sync_entity,
  sync_entities,
}
use smart_procurement_backen.Sync.Reads.{resolve_refs-reads}

-- What each upsert keeps, the loops keep.
module _ (t : Texts) (P : Db → Type 0)
    (upserts : (i : RowId) (e : Entity) (resolved : Resolved) (p : Provenance)
      → Keeps P (upsert t i e resolved p)) where
  sync_resolved-Keeps :
      (i : RowId) (e : Entity) (v : Provenance) (p : Progress) (r : Resolution)
      → Keeps P (sync_resolved t i e v p r)
  unfolding sync_resolved
  sync_resolved-Keeps i e v p (none, cache) s h = h
  sync_resolved-Keeps i e v p (some resolved, cache) s h =
      elim (Bool-cases (lacks_identity (spec_of e) resolved)) [
        | inl lacks ↦ rw lacks h
        | inr has ↦
            rw has (
              after-Keeps P _ (upsert t i e resolved v s) (upserts i e resolved v s h)
                (λ _ s' k. k))
      ]

  sync_attrs-Keeps :
      (i : RowId) (e : Entity) (v : Provenance) (p : Progress) (attrs : Resolved)
      → Keeps P (sync_attrs t i e v p attrs)
  unfolding sync_attrs
  sync_attrs-Keeps i e v p [] s h = h
  sync_attrs-Keeps i e v p (a ∷ attrs) s h =
      after-Keeps P (sync_resolved t i e v p) (resolve_refs i (spec_of e) (a ∷ attrs) p.cache s)
        (subst (λ (x : Session). P x.db)
          (sym (resolve_refs-reads i (spec_of e) (a ∷ attrs) p.cache s)) h)
        (sync_resolved-Keeps i e v p)

  sync_records-Keeps :
      (i : RowId) (e : Entity) (v : Provenance) (ms : List FieldMapping) (records : List Record)
      (p : Progress)
      → Keeps P (sync_records t i e v ms records p)
  unfolding sync_records
  sync_records-Keeps i e v ms [] p s h = h
  sync_records-Keeps i e v ms (r ∷ rs) p s h =
      after-Keeps P (sync_records t i e v ms rs) (sync_attrs t i e v p (extract t r ms []) s)
        (sync_attrs-Keeps i e v p (extract t r ms []) s h) (sync_records-Keeps i e v ms rs)

  sync_entity-Keeps :
      (i d : RowId) (batch : FetchBatch) (e : Entity) (ms : List FieldMapping) (p : Progress)
      → Keeps P (sync_entity t i d batch e ms p)
  unfolding sync_entity
  sync_entity-Keeps i d batch e [] p s h = h
  sync_entity-Keeps i d batch e (m ∷ ms) p s h =
      sync_records-Keeps i e _ (m ∷ ms) batch.records p s h

  pub sync_entities-Keeps :
      (i d : RowId) (batch : FetchBatch) (confirmed : List FieldMapping) (es : List Entity)
      (p : Progress)
      → Keeps P (sync_entities t i d batch confirmed es p)
  unfolding sync_entities
  sync_entities-Keeps i d batch confirmed [] p s h = h
  sync_entities-Keeps i d batch confirmed (e ∷ es) p s h =
      after-Keeps P (sync_entities t i d batch confirmed es)
        (sync_entity t i d batch e (mappings_for e confirmed) p s)
        (sync_entity-Keeps i d batch e (mappings_for e confirmed) p s h)
        (sync_entities-Keeps i d batch confirmed es)

-- A property that reads neither the canonical rows nor the signals.
abbrev pub IgnoresRows : (Db → Type 0) → Type 0
IgnoresRows P =
    (db : Db) (es : List EntityRow) (ss : List ObservationSignal)
    → P db
    → P (record db { entities = es; signals = ss })

module _ (t : Texts) (P : Db → Type 0) (ignores : IgnoresRows P) where
  diff_value-Keeps :
      (i : RowId) (e : Entity) (attr : String) (y : SignalType) (row : EntityRow)
      (new : Option (Option Cell)) (resolved : Resolved) (d : RowId) (at : Time)
      → Keeps P (diff_value t i e attr y row new resolved d at)
  unfolding diff_value add_signal
  diff_value-Keeps i e attr y row none resolved d at s h = h
  diff_value-Keeps i e attr y row (some new) resolved d at s h =
      elim (Bool-cases (same_value (value_of attr row.cells) new)) [
        | inl same ↦ rw same h
        | inr other ↦ rw other (go (get "item_id" resolved) (get "supplier_id" resolved) refl refl)
      ]
    where
      go :
          (item supplier : Option Attr)
          → get "item_id" resolved ≡ item
          → get "supplier_id" resolved ≡ supplier
          → P (add_signal t i e attr y (value_of attr row.cells) new resolved d at s).1.db
      go (some (given x)) supplier p q = rw (p, after) h
      go none (some (given x)) p q = rw (p, q, after) h
      go none none p q = rw (p, q, after) (ignores s.db _ _ h)
      go none (some (linked x)) p q = rw (p, q, after) (ignores s.db _ _ h)
      go (some (linked z)) (some (given x)) p q = rw (p, q, after) h
      go (some (linked z)) none p q = rw (p, q, after) (ignores s.db _ _ h)
      go (some (linked z)) (some (linked x)) p q = rw (p, q, after) (ignores s.db _ _ h)

  diff_signal-Keeps :
      (i : RowId) (e : Entity) (row : EntityRow) (a : Cells) (resolved : Resolved) (d : RowId)
      (at : Time)
      → Keeps P (diff_signal t i e row a resolved d at)
  unfolding diff_signal diff_watched
  diff_signal-Keeps i e row a resolved d at s h = go (signal_watch e)
    where
      go : (w : Option (String × SignalType)) → P (diff_watched t i e w row a resolved d at s).1.db
      go none = h
      go (some (attr, y)) = diff_value-Keeps i e attr y row (get attr a) resolved d at s h

  insert_row-Keeps :
      (i : RowId) (e : Entity) (a : Cells) (v : Provenance) → Keeps P (insert_row i e a v)
  unfolding insert_row
  insert_row-Keeps i e a v s h = elim (Bool-cases (has_unknown (columns_of e) a)) [
    | inl bad ↦ rw bad h
    | inr good ↦
        rw good (elim (Option-cases (row_error (columns_of e) (with_defaults (columns_of e) a))) [
          | inr (x, wrong) ↦ rw (wrong, after) h
          | inl fine ↦ rw (fine, after) (ignores s.db _ _ h)
        ])
  ]

  update_row-Keeps :
      (e : Entity) (a : Cells) (v : Provenance) (row : EntityRow) → Keeps P (update_row e a v row)
  unfolding update_row
  update_row-Keeps e a v row s h =
      elim (Bool-cases (any (λ (entry : String × Option Cell). str_eq entry.0 "enterprise_id") a)) [
        | inl bad ↦ rw bad h
        | inr good ↦
            rw good (elim (Option-cases (row_error (columns_of e) (updated a v row).cells)) [
              | inr (x, wrong) ↦ rw (wrong, after) h
              | inl fine ↦ rw (fine, after) (ignores s.db _ _ h)
            ])
      ]

  -- An upsert writes canonical rows and signals only.
  pub upsert-ignored :
      (i : RowId) (e : Entity) (resolved : Resolved) (v : Provenance)
      → Keeps P (upsert t i e resolved v)
  unfolding upsert upsert_found find_existing
  upsert-ignored i e resolved v s h =
      elim (Bool-cases (any (λ c. is_raw (value_of c a)) (spec_of e).identity)) [
        | inl bad ↦ rw (bad, after) h
        | inr good ↦ go (select (is_existing i e a) s.entities) refl good
      ]
    where
      a : Cells
      a = coerced_of t e resolved

      go :
          (rows : List EntityRow)
          → select (is_existing i e a) s.entities ≡ rows
          → any (λ c. is_raw (value_of c a)) (spec_of e).identity ≡ false
          → P (upsert t i e resolved v s).1.db
      go [] one good =
          rw (good, one, after)
            (after-Keeps P (λ _. pure none) (insert_row i e a v s) (insert_row-Keeps i e a v s h)
              (λ _ s' k. k))
      go (row ∷ row' ∷ rows) one good = rw (good, one, after) h
      go (row ∷ []) one good =
          rw (good, one, after)
            (after-Keeps P _ (diff_signal t i e row a resolved v.data_source_id v.fetched_at s)
              (diff_signal-Keeps i e row a resolved v.data_source_id v.fetched_at s h)
              (λ signal.
                >>=-Keeps P (update_row e a v row) (λ _. pure signal) (update_row-Keeps e a v row)
                  (λ _ s' k. k)))
