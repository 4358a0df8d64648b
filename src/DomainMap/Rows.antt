-- ===== src/DomainMap/Rows.antt =====
-- domain_entity_rows of src/app/domain/map_service.py: the rows of a page with their references and the
-- names of their sources. A row is shown as the row that it was made of, without the conversion of its
-- values to JSON. The order by the time of creation, the text of a label, and what `str` and `int` make of
-- a cursor are arguments.
use smart_procurement_backen.Prelude.{
  ℕ, String, Bool, not, ◌&&◌, Option, none, some, List, [], ◌∷◌, map, if◌then◌else◌, ◌==◌, any,
}
use smart_procurement_backen.Prelude.Int.{ℤ}
use smart_procurement_backen.Errors.{Result, ok, err}
use smart_procurement_backen.Table.{select}
use smart_procurement_backen.Models.Basic.{RowId, Time}
use smart_procurement_backen.Models.Integration.{DataSource}
use smart_procurement_backen.Models.Domain.{Entity, columns_of, Provenance, EntityRow}
use smart_procurement_backen.Session.{Exec}
use smart_procurement_backen.Sync.References.{value_of}
use smart_procurement_backen.Pagination.{is_empty, paginate}
use smart_procurement_backen.DomainMap.{
  resolve_model, referenceable_fk_columns, Reference, reference_payload, id_in, same_entity, load,
  look_up,
}

-- The provenance that a row of a list shows.
pub record ShownProvenance : Type 0 where
  pub data_source_id : RowId
  pub data_source_name : Option String
  pub source_fields : List String
  pub fetched_at : Time

pub record ShownRow : Type 0 where
  pub row : EntityRow
  pub references : List (String × Reference)
  pub provenance : ShownProvenance

abbrev pub is_named : RowId → List RowId → DataSource → Bool
is_named enterprise_id ids ds = ds.enterprise_id == enterprise_id && any (λ id. ds.id == id) ids

-- `names.get(id)`
abbrev pub or_name : Option String → Option String → Option String
or_name none b = b
or_name (some a) b = some a

abbrev pub name_in : RowId → List DataSource → Option String
name_in id [] = none
name_in id (ds ∷ rows) = or_name (name_in id rows) (if ds.id == id then some ds.name else none)

-- get_source_names of src/app/integration/service.py
unfoldable pub get_source_names : RowId → List RowId → List DataSource → List DataSource
get_source_names enterprise_id ids sources = select (is_named enterprise_id ids) sources

module _ (dashed : String → String → String) (split : String → List String)
    (strip : String → String) where
  abbrev pub add_reference :
      String → Entity → Option EntityRow → List (String × Reference) → List (String × Reference)
  add_reference name target none refs = refs
  add_reference name target (some obj) refs = (name, reference_payload dashed target obj) ∷ refs

  -- The references of one row, from the rows loaded for each class.
  abbrev pub references_of :
      (Entity → List EntityRow) → List (String × Entity) → EntityRow → List (String × Reference)
  references_of loaded [] row = []
  references_of loaded ((name, target) ∷ cols) row =
      add_reference name target (look_up (id_in (value_of name row.cells)) (loaded target))
        (references_of loaded cols row)

  abbrev pub shown_provenance : List DataSource → Provenance → ShownProvenance
  shown_provenance names p = record {
    data_source_id = p.data_source_id;
    data_source_name = name_in p.data_source_id names;
    source_fields = select (λ f. not (is_empty f)) (map strip (split p.source_field_path));
    fetched_at = p.fetched_at;
  }

  -- The rest of domain_entity_rows, for the rows of a page.
  abbrev pub show_row :
      (Entity → List EntityRow) → List (String × Entity) → List DataSource → EntityRow → ShownRow
  show_row loaded cols names row = record {
    row = row;
    references = references_of loaded cols row;
    provenance = shown_provenance names row.provenance;
  }

  -- _attach_references and _attach_provenance
  unfoldable pub show_rows :
      RowId → Entity → List EntityRow → List EntityRow → List DataSource → List ShownRow
  show_rows enterprise_id entity table rows sources =
      let cols = referenceable_fk_columns (columns_of entity) in
      let wanted = map (λ (r : EntityRow). r.provenance.data_source_id) rows in
      map
        (show_row (load enterprise_id cols rows table) cols
          (get_source_names enterprise_id wanted sources))
        rows

  module _ (underscored : String → String) (str : ℕ → String) (int : String → Option ℤ)
      (order : List EntityRow → List EntityRow) where
    abbrev pub is_listed : RowId → Entity → EntityRow → Bool
    is_listed enterprise_id entity row =
        same_entity row.entity entity && row.enterprise_id == enterprise_id

    unfoldable pub entity_rows :
        RowId → Option ℤ → Option String → Result Entity → Exec (List ShownRow × Option String)
    entity_rows enterprise_id limit cursor (err e) s = (err e, s)
    entity_rows enterprise_id limit cursor (ok entity) s =
        let listed = order (select (is_listed enterprise_id entity) s.entities) in
        let page = paginate str int listed limit cursor in
        (ok (show_rows enterprise_id entity s.entities page.0 s.data_sources, page.1), s)

    unfoldable pub domain_entity_rows :
        RowId → String → Option ℤ → Option String → Exec (List ShownRow × Option String)
    domain_entity_rows enterprise_id name limit cursor =
        entity_rows enterprise_id limit cursor (resolve_model underscored name)
