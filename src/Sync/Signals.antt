-- ===== src/Sync/Signals.antt =====
-- About the count of signals in src/app/integration/sync.py.
use mathlib.Core.Path.{subst}
use smart_procurement_backen.Prelude.{
  ℕ, ◌+◌, ◌≡◌, refl, String, false, Option, none, some, List, [], ◌∷◌, str_eq, any, arith, length,
  length-append, Bool-cases, Option-cases, inl, inr,
}
use smart_procurement_backen.Prelude.Dict.{get}
use smart_procurement_backen.Errors.{Result, ok, err}
use smart_procurement_backen.Table.{select}
use smart_procurement_backen.Models.Basic.{RowId, Time}
use smart_procurement_backen.Models.Integration.{FieldMapping}
use smart_procurement_backen.Models.Domain.{
  Entity, Cells, Cell, columns_of, same_value, Provenance, EntityRow,
}
use smart_procurement_backen.Models.Analysis.{SignalType, ObservationSignal}
use smart_procurement_backen.Session.{Session, Exec, after, pure, ◌>>=◌}
use smart_procurement_backen.Sync.Records.{Texts, Record, mappings_for, extract}
use smart_procurement_backen.Sync.Specs.{Attr, given, linked, Resolved, spec_of, signal_watch}
use smart_procurement_backen.Sync.Upsert.{
  add_signal, diff_value, diff_watched, diff_signal, upsert_found, coerced_of, upsert,
}
use smart_procurement_backen.Sync.Rows.{
  is_raw, is_existing, with_defaults, updated, find_existing, insert_row, row_error, has_unknown,
  update_row,
}
use smart_procurement_backen.Sync.References.{Resolution, resolve_refs, value_of}
use smart_procurement_backen.Sync.Run.{
  FetchBatch, Progress, lacks_identity, count_signal, count_upsert, sync_resolved, sync_attrs,
  sync_records, sync_entity, sync_entities,
}
use smart_procurement_backen.Sync.Reads.{resolve_refs-reads}

-- A signal is in the table exactly if it is returned; `n` signals were there before.
abbrev Counted : ℕ → Result (Option ObservationSignal) × Session → Type 0
Counted n (ok none, s) = length s.signals ≡ n
Counted n (ok (some signal), s) = length s.signals ≡ n + 1
Counted n (err e, s) = Unit {0}

-- The counter advances with the table; `n` and `k` were their values before.
abbrev pub Counts : ℕ → ℕ → Result Progress × Session → Type 0
Counts n k (ok p, s) = length s.signals + k ≡ n + p.signals_created
Counts n k (err e, s) = Unit {0}

update_row-Counted :
    (e : Entity) (a : Cells) (v : Provenance) (row : EntityRow) (n : ℕ)
    (r : Result (Option ObservationSignal) × Session)
    → Counted n r
    → Counted n (after (λ signal. update_row e a v row >>= λ _. pure signal) r)
unfolding update_row
update_row-Counted e a v row n (err x, s) h = tt
update_row-Counted e a v row n (ok signal, s) h =
    elim (Bool-cases (any (λ (entry : String × Option Cell). str_eq entry.0 "enterprise_id") a)) [
      | inl bad ↦ rw (bad, after) tt
      | inr good ↦ rw good (elim (Option-cases (row_error (columns_of e) (updated a v row).cells)) [
        | inr (x, wrong) ↦ rw (wrong, after) tt
        | inl fine ↦ rw (fine, after) (same signal h _)
      ])
    ]
  where
    same :
        (found : Option ObservationSignal)
        → Counted n (ok found, s)
        → (es : List EntityRow)
        → Counted n (ok found, record s { db = record s.db { entities = es } })
    same none k es = k
    same (some x) k es = k

module _ (t : Texts) where
  diff_value-Counted :
      (i : RowId) (e : Entity) (attr : String) (y : SignalType) (row : EntityRow)
      (new : Option (Option Cell)) (resolved : Resolved) (d : RowId) (at : Time) (s : Session)
      → Counted (length s.signals) (diff_value t i e attr y row new resolved d at s)
  unfolding diff_value add_signal
  diff_value-Counted i e attr y row none resolved d at s = refl
  diff_value-Counted i e attr y row (some new) resolved d at s =
      elim (Bool-cases (same_value (value_of attr row.cells) new)) [
        | inl same ↦ rw same refl
        | inr other ↦ rw other (go (get "item_id" resolved) (get "supplier_id" resolved) refl refl)
      ]
    where
      go :
          (item supplier : Option Attr)
          → get "item_id" resolved ≡ item
          → get "supplier_id" resolved ≡ supplier
          → Counted
              (length s.signals)
              (add_signal t i e attr y (value_of attr row.cells) new resolved d at s)
      go (some (given x)) supplier p q = rw (p, after) tt
      go none (some (given x)) p q = rw (p, q, after) tt
      go none none p q = rw (p, q, after) (length-append s.signals _)
      go none (some (linked x)) p q = rw (p, q, after) (length-append s.signals _)
      go (some (linked z)) (some (given x)) p q = rw (p, q, after) tt
      go (some (linked z)) none p q = rw (p, q, after) (length-append s.signals _)
      go (some (linked z)) (some (linked x)) p q = rw (p, q, after) (length-append s.signals _)

  diff_signal-Counted :
      (i : RowId) (e : Entity) (row : EntityRow) (a : Cells) (resolved : Resolved) (d : RowId)
      (at : Time) (s : Session)
      → Counted (length s.signals) (diff_signal t i e row a resolved d at s)
  unfolding diff_signal diff_watched
  diff_signal-Counted i e row a resolved d at s = go (signal_watch e)
    where
      go :
          (w : Option (String × SignalType))
          → Counted (length s.signals) (diff_watched t i e w row a resolved d at s)
      go none = refl
      go (some (attr, y)) = diff_value-Counted i e attr y row (get attr a) resolved d at s

  insert_row-Counted :
      (i : RowId) (e : Entity) (a : Cells) (v : Provenance) (s : Session)
      → Counted (length s.signals) (after (λ _. pure none) (insert_row i e a v s))
  unfolding insert_row
  insert_row-Counted i e a v s = elim (Bool-cases (has_unknown (columns_of e) a)) [
    | inl bad ↦ rw (bad, after) tt
    | inr good ↦
        rw good (elim (Option-cases (row_error (columns_of e) (with_defaults (columns_of e) a))) [
          | inr (x, wrong) ↦ rw (wrong, after) tt
          | inl fine ↦ rw (fine, after) refl
        ])
  ]

  -- An upsert adds the signal that it returns, and no other.
  upsert-Counted :
      (i : RowId) (e : Entity) (resolved : Resolved) (v : Provenance) (s : Session)
      → Counted (length s.signals) (upsert t i e resolved v s)
  unfolding upsert upsert_found find_existing
  upsert-Counted i e resolved v s =
      elim (Bool-cases (any (λ c. is_raw (value_of c a)) (spec_of e).identity)) [
        | inl bad ↦ rw (bad, after) tt
        | inr good ↦ go (select (is_existing i e a) s.entities) refl good
      ]
    where
      a : Cells
      a = coerced_of t e resolved

      go :
          (rows : List EntityRow)
          → select (is_existing i e a) s.entities ≡ rows
          → any (λ c. is_raw (value_of c a)) (spec_of e).identity ≡ false
          → Counted (length s.signals) (upsert t i e resolved v s)
      go [] one good = rw (good, one, after) (insert_row-Counted i e a v s)
      go (row ∷ row' ∷ rows) one good = rw (good, one, after) tt
      go (row ∷ []) one good =
          rw (good, one, after)
            (update_row-Counted e a v row (length s.signals)
              (diff_signal t i e row a resolved v.data_source_id v.fetched_at s)
              (diff_signal-Counted i e row a resolved v.data_source_id v.fetched_at s))

  -- The loops add up what the upserts return.
  after-Counts :
      (f : Progress → Exec Progress) (n k : ℕ) (r : Result Progress × Session)
      → Counts n k r
      → ((p : Progress) (s : Session) → Counts (length s.signals) p.signals_created (f p s))
      → Counts n k (after f r)
  after-Counts f n k (err e, s) h keeps = tt
  after-Counts f n k (ok p, s) h keeps = go (f p s) (keeps p s)
    where
      go :
          (r : Result Progress × Session)
          → Counts (length s.signals) p.signals_created r
          → Counts n k r
      go (err e, s') g = tt
      go (ok p', s') g = omega (arith, h, g)

  sync_resolved-Counts :
      (i : RowId) (e : Entity) (v : Provenance) (p : Progress) (r : Resolution) (s : Session)
      → Counts (length s.signals) p.signals_created (sync_resolved t i e v p r s)
  unfolding sync_resolved
  sync_resolved-Counts i e v p (none, cache) s = refl
  sync_resolved-Counts i e v p (some resolved, cache) s =
      elim (Bool-cases (lacks_identity (spec_of e) resolved)) [
        | inl lacks ↦ rw lacks refl
        | inr has ↦ rw has (go (upsert t i e resolved v s) (upsert-Counted i e resolved v s))
      ]
    where
      go :
          (r : Result (Option ObservationSignal) × Session)
          → Counted (length s.signals) r
          → Counts (length s.signals) p.signals_created (
              after
                (λ signal. pure (count_signal signal (count_upsert e (record p { cache = cache }))))
                r)
      go (err x, s') h = tt
      go (ok none, s') h = omega (arith, h)
      go (ok (some signal), s') h = omega (arith, h)

  sync_attrs-Counts :
      (i : RowId) (e : Entity) (v : Provenance) (p : Progress) (attrs : Resolved) (s : Session)
      → Counts (length s.signals) p.signals_created (sync_attrs t i e v p attrs s)
  unfolding sync_attrs
  sync_attrs-Counts i e v p [] s = refl
  sync_attrs-Counts i e v p (a ∷ attrs) s =
      go (resolve_refs i (spec_of e) (a ∷ attrs) p.cache s)
        (resolve_refs-reads i (spec_of e) (a ∷ attrs) p.cache s)
    where
      go :
          (r : Result Resolution × Session)
          → r.1 ≡ s
          → Counts (length s.signals) p.signals_created (after (sync_resolved t i e v p) r)
      go (err x, s') same = tt
      go (ok found, s') same =
          subst
            (λ (x : Session).
              Counts (length x.signals) p.signals_created (sync_resolved t i e v p found s'))
            same (sync_resolved-Counts i e v p found s')

  sync_records-Counts :
      (i : RowId) (e : Entity) (v : Provenance) (ms : List FieldMapping) (records : List Record)
      (p : Progress) (s : Session)
      → Counts (length s.signals) p.signals_created (sync_records t i e v ms records p s)
  unfolding sync_records
  sync_records-Counts i e v ms [] p s = refl
  sync_records-Counts i e v ms (r ∷ rs) p s =
      after-Counts (sync_records t i e v ms rs) (length s.signals) p.signals_created
        (sync_attrs t i e v p (extract t r ms []) s)
        (sync_attrs-Counts i e v p (extract t r ms []) s) (sync_records-Counts i e v ms rs)

  sync_entity-Counts :
      (i d : RowId) (batch : FetchBatch) (e : Entity) (ms : List FieldMapping) (p : Progress)
      (s : Session)
      → Counts (length s.signals) p.signals_created (sync_entity t i d batch e ms p s)
  unfolding sync_entity
  sync_entity-Counts i d batch e [] p s = refl
  sync_entity-Counts i d batch e (m ∷ ms) p s = sync_records-Counts i e _ (m ∷ ms) batch.records p s

  pub sync_entities-Counts :
      (i d : RowId) (batch : FetchBatch) (confirmed : List FieldMapping) (es : List Entity)
      (p : Progress) (s : Session)
      → Counts (length s.signals) p.signals_created (sync_entities t i d batch confirmed es p s)
  unfolding sync_entities
  sync_entities-Counts i d batch confirmed [] p s = refl
  sync_entities-Counts i d batch confirmed (e ∷ es) p s =
      after-Counts (sync_entities t i d batch confirmed es) (length s.signals) p.signals_created
        (sync_entity t i d batch e (mappings_for e confirmed) p s)
        (sync_entity-Counts i d batch e (mappings_for e confirmed) p s)
        (sync_entities-Counts i d batch confirmed es)
