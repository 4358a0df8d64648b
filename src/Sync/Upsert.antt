-- ===== src/Sync/Upsert.antt =====
-- src/app/integration/sync.py: inserting or updating a canonical row with the signal of a change.
use smart_procurement_backen.Prelude.{String, Option, none, some, [], ◌∷◌, ◌++◌, if◌then◌else◌}
use smart_procurement_backen.Prelude.Dict.{get}
use smart_procurement_backen.Errors.{data_error}
use smart_procurement_backen.Models.Basic.{RowId, Time, Json, null, text}
use smart_procurement_backen.Models.Analysis.{SignalType, ObservationSignal}
use smart_procurement_backen.Models.Domain.{
  Entity, entity_key, Cell, same_value, columns_of, Cells, Provenance, EntityRow,
}
use smart_procurement_backen.Session.{Exec, pure, raise, ◌>>=◌, ◌>>◌, modify, now, uuid4}
use smart_procurement_backen.Sync.Records.{Texts, coerce_all, set_defaults}
use smart_procurement_backen.Sync.Specs.{Attr, given, linked, Resolved, spec_of, signal_watch}
use smart_procurement_backen.Sync.References.{value_of}
use smart_procurement_backen.Sync.Rows.{find_existing, insert_row, update_row}

-- The id of a signal: a text there is refused by the type of the column.
abbrev pub signal_ref : Option Attr → Exec (Option RowId)
signal_ref none = pure none
signal_ref (some (linked id)) = pure (some id)
signal_ref (some (given s)) = raise data_error

abbrev pub json_or_null : Option String → Json
json_or_null none = null
json_or_null (some s) = text s

module _ (t : Texts) where
  abbrev pub str_or_none : Option Cell → Option String
  str_or_none none = none
  str_or_none (some c) = some (t.cell_str c)

  unfoldable pub add_signal :
      RowId
      → Entity
      → String
      → SignalType
      → Option Cell
      → Option Cell
      → Resolved
      → RowId
      → Time
      → Exec (Option ObservationSignal)
  add_signal enterprise_id e attr signal_type old new resolved data_source_id observed_at = do
    item_id ← signal_ref (get "item_id" resolved)
    supplier_id ← signal_ref (get "supplier_id" resolved)
    at ← now
    id ← uuid4
    let signal : ObservationSignal = record {
      id = id;
      enterprise_id = enterprise_id;
      data_source_id = data_source_id;
      signal_type = signal_type;
      item_id = item_id;
      supplier_id = supplier_id;
      payload =
          ("entity", text (entity_key e))
          ∷ ("attribute", text attr)
          ∷ ("old", json_or_null (str_or_none old))
          ∷ ("new", json_or_null (str_or_none new))
          ∷ [];
      observed_at = observed_at;
      ingested_at = at;
    }
    modify (λ db. record db { signals = db.signals ++ (signal ∷ []) })
    pure (some signal)

  -- `attr` is in `coerced`, with this value, or not.
  unfoldable pub diff_value :
      RowId
      → Entity
      → String
      → SignalType
      → EntityRow
      → Option (Option Cell)
      → Resolved
      → RowId
      → Time
      → Exec (Option ObservationSignal)
  diff_value enterprise_id e attr signal_type row none resolved data_source_id observed_at =
      pure none
  diff_value enterprise_id e attr signal_type row (some new) resolved data_source_id observed_at =
      if same_value (value_of attr row.cells) new
      then pure none
      else add_signal enterprise_id e attr signal_type (value_of attr row.cells) new resolved
          data_source_id observed_at

  unfoldable pub diff_watched :
      RowId
      → Entity
      → Option (String × SignalType)
      → EntityRow
      → Cells
      → Resolved
      → RowId
      → Time
      → Exec (Option ObservationSignal)
  diff_watched enterprise_id e none row coerced resolved data_source_id observed_at = pure none
  diff_watched enterprise_id e (some (attr, signal_type)) row coerced resolved data_source_id
        observed_at =
      diff_value enterprise_id e attr signal_type row (get attr coerced) resolved data_source_id
        observed_at

  -- _diff_signal
  unfoldable pub diff_signal :
      RowId → Entity → EntityRow → Cells → Resolved → RowId → Time → Exec (Option ObservationSignal)
  diff_signal enterprise_id e row coerced resolved data_source_id observed_at =
      diff_watched enterprise_id e (signal_watch e) row coerced resolved data_source_id observed_at

  unfoldable pub upsert_found :
      RowId
      → Entity
      → Cells
      → Resolved
      → Provenance
      → Option EntityRow
      → Exec (Option ObservationSignal)
  upsert_found enterprise_id e coerced resolved provenance none =
      insert_row enterprise_id e coerced provenance >> pure none
  upsert_found enterprise_id e coerced resolved provenance (some row) = do
    signal ←
        diff_signal enterprise_id e row coerced resolved provenance.data_source_id
          provenance.fetched_at
    update_row e coerced provenance row
    pure signal

  -- `coerced`
  unfoldable pub coerced_of : Entity → Resolved → Cells
  coerced_of e resolved =
      set_defaults (spec_of e).identity (coerce_all t (columns_of e) resolved [])

  -- _upsert; the first value that it returns is always True.
  unfoldable pub upsert : RowId → Entity → Resolved → Provenance → Exec (Option ObservationSignal)
  upsert enterprise_id e resolved provenance = do
    existing ← find_existing enterprise_id e (coerced_of e resolved)
    upsert_found enterprise_id e (coerced_of e resolved) resolved provenance existing
