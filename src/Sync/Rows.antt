-- ===== src/Sync/Rows.antt =====
-- Finding and writing the row of a record (src/app/integration/sync.py). A flush raises where
-- the row breaks a constraint of src/app/domain/models.py.
use smart_procurement_backen.Prelude.{
  String, Bool, true, false, not, ◌&&◌, ◌||◌, Option, none, some, List, [], ◌∷◌, ◌++◌,
  if◌then◌else◌, ◌==◌, str_eq, any,
}
use smart_procurement_backen.Prelude.Dict.{put}
use smart_procurement_backen.Errors.{Error, err, type_error, data_error, integrity_error}
use smart_procurement_backen.Table.{select, update, scalar_one_or_none}
use smart_procurement_backen.Models.Basic.{RowId}
use smart_procurement_backen.Models.Domain.{
  Entity, entity_index, Cell, words, ref, day, instant, raw, Column, columns_of, Cells, fits,
  Observability, Provenance, EntityRow,
}
use smart_procurement_backen.Session.{Exec, pure, raise, ◌>>=◌, ◌>>◌, modify, uuid4}
use smart_procurement_backen.Sync.Specs.{spec_of}
use smart_procurement_backen.Sync.References.{text_among, value_of}

-- The comparison of an identity column with a value; no identity column is numeric or Boolean.
abbrev pub same_key : Option Cell → Option Cell → Bool
same_key none none = true
same_key (some (words a)) (some (words b)) = str_eq a b
same_key (some (ref a)) (some (ref b)) = a == b
same_key (some (day a)) (some (day b)) = a == b
same_key (some (instant a)) (some (instant b)) = a == b
same_key _ _ = false

abbrev pub same_identity : List String → Cells → Cells → Bool
same_identity [] coerced cells = true
same_identity (c ∷ cs) coerced cells =
    same_key (value_of c cells) (value_of c coerced) && same_identity cs coerced cells

-- `conds`
abbrev pub is_existing : RowId → Entity → Cells → EntityRow → Bool
is_existing enterprise_id e coerced row =
    row.enterprise_id == enterprise_id
    && entity_index row.entity == entity_index e
    && same_identity (spec_of e).identity coerced row.cells

-- A text where an id is compared is refused by the type of the column.
abbrev pub is_raw : Option Cell → Bool
is_raw (some (raw s)) = true
is_raw _ = false

unfoldable pub find_existing : RowId → Entity → Cells → Exec (Option EntityRow)
find_existing enterprise_id e coerced s =
    if any (λ c. is_raw (value_of c coerced)) (spec_of e).identity
    then (err data_error, s)
    else (scalar_one_or_none (select (is_existing enterprise_id e coerced) s.entities), s)

-- What the flush of a row raises.
abbrev pub column_error : Column → Option Cell → Option Error
column_error c none = if c.nullable then none else some integrity_error
column_error c (some v) = if fits c.column_type v then none else some data_error

abbrev pub or_error : Option Error → Option Error → Option Error
or_error none other = other
or_error (some e) other = some e

unfoldable pub row_error : List Column → Cells → Option Error
row_error [] cells = none
row_error (c ∷ cs) cells = or_error (column_error c (value_of c.name cells)) (row_error cs cells)

abbrev pub raise_if : Option Error → Exec (Unit {0})
raise_if none = pure tt
raise_if (some e) = raise e

abbrev pub is_column : List Column → String → Bool
is_column columns key = any (λ (c : Column). str_eq c.name key) columns

abbrev pub has_unknown : List Column → Cells → Bool
has_unknown columns cells =
    any (λ (entry : String × Option Cell). not (is_column columns entry.0)) cells

-- A value of None is left to the default.
abbrev pub or_default : Option Cell → Option Cell → Option Cell
or_default none default = default
or_default (some v) default = some v

abbrev pub with_defaults : List Column → Cells → Cells
with_defaults [] coerced = []
with_defaults (c ∷ cs) coerced =
    (c.name, or_default (value_of c.name coerced) c.default) ∷ with_defaults cs coerced

abbrev pub new_row : RowId → Entity → Cells → Provenance → RowId → EntityRow
new_row enterprise_id e coerced provenance id = record {
  id = id;
  enterprise_id = enterprise_id;
  entity = e;
  cells = with_defaults (columns_of e) coerced;
  provenance = provenance;
  observability = Observability.fresh;
}

unfoldable pub insert_row : RowId → Entity → Cells → Provenance → Exec (Unit {0})
insert_row enterprise_id e coerced provenance =
    if has_unknown (columns_of e) coerced then raise type_error else (do
      id ← uuid4
      raise_if (row_error (columns_of e) (with_defaults (columns_of e) coerced))
      modify (λ db. record db {
        entities = db.entities ++ (new_row enterprise_id e coerced provenance id ∷ []);
      }))

-- `setattr` of every value but those of the identity; one that is no column is not stored.
abbrev pub assign_all : List String → List Column → Cells → Cells → Cells
assign_all identity columns [] cells = cells
assign_all identity columns ((key, value) ∷ rest) cells =
    assign_all identity columns rest (
      if text_among key identity || not (is_column columns key) then cells else put key value cells)

-- The specification and the columns are those of the row's own class.
abbrev pub updated : Cells → Provenance → EntityRow → EntityRow
updated coerced provenance row = record row {
  cells = assign_all (spec_of row.entity).identity (columns_of row.entity) coerced row.cells;
  provenance = provenance;
  observability = Observability.fresh;
}

abbrev pub has_row_id : RowId → EntityRow → Bool
has_row_id id row = row.id == id

unfoldable pub update_row : Entity → Cells → Provenance → EntityRow → Exec (Unit {0})
update_row e coerced provenance row =
    if any (λ (entry : String × Option Cell). str_eq entry.0 "enterprise_id") coerced
    then raise data_error
    else (raise_if (row_error (columns_of e) (updated coerced provenance row).cells)
        >> modify (λ db. record db {
          entities = update (has_row_id row.id) (updated coerced provenance) db.entities;
        }))
