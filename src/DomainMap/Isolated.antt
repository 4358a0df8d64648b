-- ===== src/DomainMap/Isolated.antt =====
-- About the enterprise that rows, references and names of src/app/domain/map_service.py are of.
use mathlib.Core.Path.{subst}
use smart_procurement_backen.Prelude.{
  and_parts, ℕ, ◌≡◌, refl, sym, ap, ◌∙◌, String, true, Option, none, some, List, [], ◌∷◌, map, ◌==◌,
  ==_iff, IsIn, All, All-take, All-map, drop, take,
}
use smart_procurement_backen.Prelude.Int.{ℤ}
use smart_procurement_backen.Errors.{Result, ok, err}
use smart_procurement_backen.Table.{select}
use smart_procurement_backen.Table.Select.{select-All_if}
use smart_procurement_backen.Models.Basic.{RowId}
use smart_procurement_backen.Models.Domain.{Entity, ref, columns_of, EntityRow}
use smart_procurement_backen.Session.{Session}
use smart_procurement_backen.Sync.References.{value_of}
use smart_procurement_backen.Sync.Keyed.{entity_index-eq}
use smart_procurement_backen.Pagination.{clamp_limit, decode_cursor, paginate}
use smart_procurement_backen.DomainMap.{
  same_entity, Reference, load, id_in, look_up, referenceable_fk_columns, resolve_model,
}
use smart_procurement_backen.DomainMap.Rows.{
  ShownRow, get_source_names, add_reference, references_of, show_row, show_rows, is_listed,
  entity_rows, domain_entity_rows,
}
use smart_procurement_backen.DomainMap.Loaded.{
  All-IsIn, IsOwned, load-IsOwned, find_row-All, IsReference, id_in-ref, name_in-All, sources-All,
  IsShown, IsIn-All, All-drop,
}

module _ (dashed : String → String → String) (split : String → List String)
    (strip : String → String) where
  references_of-All :
      (e : RowId) (table : List EntityRow) (loaded : Entity → List EntityRow)
      → ((target : Entity) → All (IsOwned e target table) (loaded target))
      → (row : EntityRow) (cols : List (String × Entity))
      → All (IsReference e table row) (references_of dashed split strip loaded cols row)
  references_of-All e table loaded owned row [] = tt
  references_of-All e table loaded owned row ((name, target) ∷ cols) =
      added (id_in (value_of name row.cells))
        (look_up (id_in (value_of name row.cells)) (loaded target)) refl refl
        (references_of-All e table loaded owned row cols)
    where
      rest : List (String × Reference)
      rest = references_of dashed split strip loaded cols row

      added :
          (v : Option RowId) (o : Option EntityRow)
          → id_in (value_of name row.cells) ≡ v
          → look_up v (loaded target) ≡ o
          → All (IsReference e table row) rest
          → All (IsReference e table row) (add_reference dashed split strip name target o rest)
      added v none held same later = later
      added none (some m) held same later = cc
      added (some id) (some m) held same later =
          let (own, has) =
            find_row-All (IsOwned e target table) id (loaded target) m (owned target) same in
          (
            (
              id_in-ref (value_of name row.cells) id held ∙ ap (λ x. some (ref x)) (sym has),
              (m, own, refl),
            ),
            later,
          )

  IsShown-All :
      (e : RowId) (entity : Entity) (s : Session) (loaded : Entity → List EntityRow)
      (cols : List (String × Entity)) (ids : List RowId)
      → ((target : Entity) → All (IsOwned e target s.entities) (loaded target))
      → (rows : List EntityRow) → All (IsOwned e entity s.entities) rows
      → All (IsShown e entity s) (
          map
            (show_row dashed split strip loaded cols (get_source_names e ids s.data_sources))
            rows)
  IsShown-All e entity s loaded cols ids owned [] h = tt
  IsShown-All e entity s loaded cols ids owned (row ∷ rows) h = (
    (
      h.0,
      references_of-All e s.entities loaded owned row cols,
      λ n same.
          let (ds, (i, own), id, name) =
            name_in-All (λ ds. IsIn ds s.data_sources × (ds.enterprise_id ≡ e))
              row.provenance.data_source_id (get_source_names e ids s.data_sources) n
              (sources-All e ids s.data_sources) same in
          (ds, i, own, id, name),
    ),
    IsShown-All e entity s loaded cols ids owned rows h.1,
  )

  module _ (underscored : String → String) (str : ℕ → String) (int : String → Option ℤ)
      (order : List EntityRow → List EntityRow)
      (orders : (rows : List EntityRow) → All (λ row. IsIn row rows) (order rows)) where
    listed-IsOwned :
        (e : RowId) (entity : Entity) (table : List EntityRow)
        → All
            (IsOwned e entity table)
            (order (select (is_listed dashed split strip underscored str int order e entity) table))
    listed-IsOwned e entity table =
        All-map (λ row. IsIn row listed) (IsOwned e entity table)
          (λ row i. IsIn-All (IsOwned e entity table) row listed owned i) (order listed)
          (orders listed)
      where
        listed : List EntityRow
        listed = select (is_listed dashed split strip underscored str int order e entity) table

        owned : All (IsOwned e entity table) listed
        owned =
            select-All_if (is_listed dashed split strip underscored str int order e entity)
              (IsOwned e entity table) table
              (All-map (λ row. IsIn row table)
                (λ row.
                  is_listed dashed split strip underscored str int order e entity row ≡ true
                  → IsOwned e entity table row)
                (λ row i h.
                  let (class, own) =
                    and_parts (same_entity row.entity entity) (row.enterprise_id == e) h in
                  (i, entity_index-eq row.entity entity class, (==_iff row.enterprise_id e).0 own))
                table (All-IsIn table))

    -- What a list of the domain map may show.
    abbrev pub Shows :
        RowId → String → Session → Result (List ShownRow × Option String) × Session → Type 0
    Shows enterprise_id name s r =
        (r.1 ≡ s)
        × ((rows : List ShownRow) (next : Option String)
            → r.0 ≡ ok (rows, next)
            → (entity : Entity) × (resolve_model underscored name ≡ ok entity)
              × All (IsShown enterprise_id entity s) rows)

    -- Where the order of the database only orders: a page of rows changes nothing, and each row on it
    -- is of the enterprise and of the entity asked for; a reference that it shows under a column is to
    -- a row of the same enterprise with the id in that column, and a source name is that of the source
    -- of the same enterprise that the row came from.
    pub domain_entity_rows-Shows :
        (enterprise_id : RowId) (name : String) (limit : Option ℤ) (cursor : Option String)
        (s : Session)
        → Shows enterprise_id name s (
            domain_entity_rows dashed split strip underscored str int order enterprise_id name limit
              cursor s)
    unfolding domain_entity_rows entity_rows show_rows paginate
    domain_entity_rows-Shows e name limit cursor s = go (resolve_model underscored name) refl
      where
        page :
            (x : Entity)
            → All (IsShown e x s) (
                show_rows dashed split strip e x s.entities
                  (paginate str int
                    (order (
                      select
                        (is_listed dashed split strip underscored str int order e x)
                        s.entities))
                    limit
                    cursor).0
                  s.data_sources)
        page x =
            IsShown-All e x s (load e (referenceable_fk_columns (columns_of x)) rows s.entities)
              (referenceable_fk_columns (columns_of x))
              (map (λ (r : EntityRow). r.provenance.data_source_id) rows)
              (λ target.
                load-IsOwned e (referenceable_fk_columns (columns_of x)) rows s.entities target)
              rows
              (All-take (IsOwned e x s.entities) (clamp_limit limit)
                (drop (decode_cursor str int cursor) listed)
                (All-drop (IsOwned e x s.entities) (decode_cursor str int cursor) listed
                  (listed-IsOwned e x s.entities)))
          where
            listed : List EntityRow
            listed =
                order
                  (select (is_listed dashed split strip underscored str int order e x) s.entities)

            rows : List EntityRow
            rows = take (clamp_limit limit) (drop (decode_cursor str int cursor) listed)

        go :
            (m : Result Entity)
            → resolve_model underscored name ≡ m
            → Shows e name s
                (entity_rows dashed split strip underscored str int order e limit cursor m s)
        go (err x) same = (refl, λ rows next bad. cc)
        go (ok entity) same = (
          refl,
          λ rows next good. (
            entity,
            same,
            subst (λ (x : List ShownRow). All (IsShown e entity s) x) (cc good) (page entity),
          ),
        )
