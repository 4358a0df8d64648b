-- ===== src/DomainMap.antt =====
-- src/app/domain/map_service.py: the references that the lists of rows of the domain map show. What the
-- f-string of a label makes is an argument.
pub mod Rows
pub mod Sources
pub mod Groups
pub mod Loaded
pub mod Isolated
pub mod Overview
pub mod Counted
mod Tests
use smart_procurement_backen.Prelude.{
  ℕ, ◌+◌, String, Bool, true, false, not, ◌&&◌, Option, none, some, List, [], ◌∷◌, ◌++◌, map,
  if◌then◌else◌, ◌==◌, str_eq, any, length,
}
use smart_procurement_backen.Prelude.Int.{ℤ}
use smart_procurement_backen.Errors.{Result, ok, err, not_found}
use smart_procurement_backen.Table.{select}
use smart_procurement_backen.Models.Basic.{RowId, Time}
use smart_procurement_backen.Models.Integration.{DataSource}
use smart_procurement_backen.Models.Domain.{
  Entity, entity_index, entity_key, Cell, words, ref, Column, columns_of, Cells, Observability,
  fresh, stale, lost, Provenance, EntityRow,
}
use smart_procurement_backen.Session.{Exec}
use smart_procurement_backen.Sync.References.{value_of}
use smart_procurement_backen.Pagination.{is_empty, paginate}

-- The keys of ENTITY_MODELS, in their order.
abbrev pub entities : List Entity
entities =
    Entity.item ∷ Entity.warehouse ∷ Entity.supplier ∷ Entity.stock_level ∷ Entity.item_supplier
    ∷ Entity.price ∷ Entity.lead_time ∷ Entity.purchase_order ∷ Entity.consumption
    ∷ Entity.production_demand ∷ Entity.quality_record ∷ []

-- ENTITY_MODELS.get
abbrev pub find_entity : String → List Entity → Option Entity
find_entity key [] = none
find_entity key (e ∷ es) = if str_eq (entity_key e) key then some e else find_entity key es

-- `_resolve_model`; the argument replaces the dashes.
unfoldable pub resolve_model : (String → String) → String → Result Entity
resolve_model underscored entity = elim (find_entity (underscored entity) entities) [
  | none ↦ err not_found
  | some e ↦ ok e
]

-- The table that a foreign key points at, if it is of a class worth a label.
abbrev pub fk_target : String → Option Entity
fk_target name =
    if str_eq name "item_id"
    then some Entity.item
    else if str_eq name "supplier_id"
    then some Entity.supplier
    else if str_eq name "warehouse_id"
    then some Entity.warehouse
    else none

-- _referenceable_fk_columns
abbrev pub referenceable_fk_columns : List Column → List (String × Entity)
referenceable_fk_columns [] = []
referenceable_fk_columns (c ∷ cs) = elim (fk_target c.name) [
  | none ↦ referenceable_fk_columns cs
  | some target ↦ (c.name, target) ∷ referenceable_fk_columns cs
]

-- What `_reference_payload` returns; the natural key stands there as `sku` or `code`.
pub record Reference : Type 0 where
  pub entity : Entity
  pub id : RowId
  pub label : String
  pub natural_key : String
  pub name : String

abbrev pub text_in : Option Cell → String
text_in (some (words s)) = s
text_in _ = ""

abbrev pub key_column : Entity → String
key_column Entity.item = "sku"
key_column _ = "code"

-- The f-string of a key and a name.
abbrev pub label_of : (String → String → String) → String → String → String
label_of dashed key name = if is_empty name then key else dashed key name

abbrev pub reference_payload : (String → String → String) → Entity → EntityRow → Reference
reference_payload dashed entity obj =
    let key = text_in (value_of (key_column entity) obj.cells) in
    let name = text_in (value_of "name" obj.cells) in
    record {
      entity = entity;
      id = obj.id;
      label = label_of dashed key name;
      natural_key = key;
      name = name;
    }

abbrev pub id_in : Option Cell → Option RowId
id_in (some (ref id)) = some id
id_in _ = none

abbrev pub add_id : Option RowId → List RowId → List RowId
add_id none ids = ids
add_id (some id) ids = id ∷ ids

abbrev pub same_entity : Entity → Entity → Bool
same_entity a b = entity_index a == entity_index b

-- `ids_by_entity[target]`: of one row, and of all.
abbrev pub row_ids : Entity → List (String × Entity) → EntityRow → List RowId → List RowId
row_ids target [] row ids = ids
row_ids target ((name, t) ∷ cols) row ids =
    row_ids target cols row
      (if same_entity t target then add_id (id_in (value_of name row.cells)) ids else ids)

abbrev pub ids_by_entity : Entity → List (String × Entity) → List EntityRow → List RowId
ids_by_entity target cols [] = []
ids_by_entity target cols (row ∷ rows) = row_ids target cols row (ids_by_entity target cols rows)

abbrev pub is_wanted : RowId → Entity → List RowId → EntityRow → Bool
is_wanted enterprise_id target ids row =
    same_entity row.entity target
    && row.enterprise_id == enterprise_id
    && any (λ id. row.id == id) ids

abbrev pub or_else : Option EntityRow → Option EntityRow → Option EntityRow
or_else none b = b
or_else (some a) b = some a

-- `loaded[target]`
abbrev pub load :
    RowId → List (String × Entity) → List EntityRow → List EntityRow → Entity → List EntityRow
load enterprise_id cols rows table target =
    select (is_wanted enterprise_id target (ids_by_entity target cols rows)) table

-- `loaded[target].get(id)`; of two rows with one id the dict keeps the later.
abbrev pub find_row : RowId → List EntityRow → Option EntityRow
find_row id [] = none
find_row id (row ∷ rows) = or_else (find_row id rows) (if row.id == id then some row else none)

abbrev pub look_up : Option RowId → List EntityRow → Option EntityRow
look_up none rows = none
look_up (some id) rows = find_row id rows
