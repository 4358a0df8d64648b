-- ===== src/SourceFields.antt =====
-- describe_and_store of src/app/integration/service.py: storing the fields that a connector discovers.
-- What the connector answers is an argument. The flush refuses two rows of one source with one path;
-- the rows are returned by their ids.
pub mod Totals
pub mod Counts
pub mod Stored
mod Tests
use smart_procurement_backen.Prelude.{
  String, Bool, true, false, ◌&&◌, ◌||◌, Option, none, some, List, [], ◌∷◌, ◌++◌, if◌then◌else◌,
  ◌==◌, str_eq, any,
}
use smart_procurement_backen.Errors.{upstream, integrity_error}
use smart_procurement_backen.Table.{select, update}
use smart_procurement_backen.Models.Basic.{RowId}
use smart_procurement_backen.Models.Integration.{DataSource, SourceField}
use smart_procurement_backen.Session.{Exec, pure, raise, ◌>>=◌, ◌>>◌, modify, uuid4}
use smart_procurement_backen.DataSources.{get_data_source}
use smart_procurement_backen.DataSources.Connection.{Vault, load_credential}

-- SourceField of src/app/integration/connectors/base.py
pub record Discovered : Type 0 where
  pub path : String
  pub inferred_type : String
  pub sample_values : List String

-- What building the connector and asking it brings: a ConnectorError, or the fields.
pub data Description : Type 0 where
  refused : Description
  described : List Discovered → Description

abbrev pub has_path : RowId → String → SourceField → Bool
has_path source path f = f.data_source_id == source && str_eq f.path path

abbrev pub is_of_source : RowId → SourceField → Bool
is_of_source source f = f.data_source_id == source

abbrev pub or_field : Option SourceField → Option SourceField → Option SourceField
or_field none b = b
or_field (some a) b = some a

-- `existing.get(path)`
abbrev pub find_path : String → List SourceField → Option SourceField
find_path path [] = none
find_path path (f ∷ fs) = or_field (find_path path fs) (if str_eq f.path path then some f else none)

abbrev pub has_field_id : RowId → SourceField → Bool
has_field_id id f = f.id == id

abbrev pub described_as : Discovered → SourceField → SourceField
described_as field f = record f {
  inferred_type = field.inferred_type;
  sample_values = field.sample_values;
}

abbrev pub new_field : RowId → Discovered → RowId → SourceField
new_field source field id = record {
  id = id;
  data_source_id = source;
  path = field.path;
  inferred_type = field.inferred_type;
  sample_values = field.sample_values;
}

unfoldable pub store_field : RowId → Discovered → Option SourceField → Exec RowId
store_field source field none = do
  id ← uuid4
  modify (λ db. record db { source_fields = db.source_fields ++ (new_field source field id ∷ []) })
  pure id
store_field source field (some row) = do
  modify (λ db. record db {
    source_fields = update (has_field_id row.id) (described_as field) db.source_fields;
  })
  pure row.id

unfoldable pub store_fields : RowId → List SourceField → List Discovered → Exec (List RowId)
store_fields source existing [] = pure []
store_fields source existing (field ∷ fields) = do
  id ← store_field source field (find_path field.path existing)
  ids ← store_fields source existing fields
  pure (id ∷ ids)

-- uq_source_field_source_path
abbrev pub has_duplicate : List SourceField → Bool
has_duplicate [] = false
has_duplicate (f ∷ fs) = any (has_path f.data_source_id f.path) fs || has_duplicate fs

unfoldable pub flush_fields : List RowId → Exec (List RowId)
flush_fields ids s = (if has_duplicate s.source_fields then raise integrity_error else pure ids) s

unfoldable pub store_described : RowId → Description → Exec (List RowId)
store_described source Description.refused = raise upstream
store_described source (Description.described fields) = λ s.
    (store_fields source (select (is_of_source source) s.source_fields) fields >>= flush_fields) s

module _ (vault : Vault) (describe : DataSource → Option String → Description) where
  unfoldable pub describe_and_store : RowId → RowId → Exec (List RowId)
  describe_and_store enterprise_id data_source_id = do
    ds ← get_data_source enterprise_id data_source_id
    credential ← load_credential vault ds.credential_ref
    store_described ds.id (describe ds credential)
