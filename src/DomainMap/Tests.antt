-- ===== src/DomainMap/Tests.antt =====
-- A list of the domain map at a concrete input.
use smart_procurement_backen.Prelude.{
  ℕ, ◌≡◌, refl, Bool, false, not, ◌&&◌, ◌||◌, any, String, Option, none, some, List, [], ◌∷◌,
  if◌then◌else◌, str_eq,
}
use smart_procurement_backen.Prelude.Int.{ℤ, pos}
use smart_procurement_backen.Prelude.Decimal.{whole}
use smart_procurement_backen.Models.Basic.{RowId}
use smart_procurement_backen.Models.Domain.{
  columns_of, Entity, Cells, words, decimal, ref, Observability, EntityRow,
}
use smart_procurement_backen.Session.{Session}
use smart_procurement_backen.Session.Sample.{empty_db, session_on}
use smart_procurement_backen.DomainMap.Rows.{domain_entity_rows}
use smart_procurement_backen.DomainMap.{
  entities, find_entity, same_entity, referenceable_fk_columns,
}
use smart_procurement_backen.DomainMap.Overview.{Relationship, relationships, domain_map}
use smart_procurement_backen.DomainMap.Counted.{Shows as Shows_counts, domain_map-Shows}
use smart_procurement_backen.DomainMap.Isolated.{Shows, domain_entity_rows-Shows}
use smart_procurement_backen.DomainMap.Loaded.{All-IsIn}

abbrev row : RowId → RowId → Entity → Cells → EntityRow
row id enterprise_id e cells = record {
  id = id;
  enterprise_id = enterprise_id;
  entity = e;
  cells = cells;
  provenance = record { data_source_id = 1; source_field_path = "sku"; fetched_at = 500 };
  observability = Observability.fresh;
}

-- An item of each of two enterprises, and stock of the first one.
abbrev start : Session
start = session_on (record empty_db {
  entities =
      row 1 9 Entity.item (("sku", some (words "B-1")) ∷ ("name", some (words "Bolt")) ∷ [])
      ∷ row 2 8 Entity.item (("sku", some (words "N-1")) ∷ [])
      ∷ row 3 9 Entity.stock_level
          (("item_id", some (ref 1)) ∷ ("quantity", some (decimal (whole (pos 60)))) ∷ [])
      ∷ [];
})

abbrev dashed : String → String → String
dashed key name = name

abbrev split : String → List String
split s = s ∷ []

abbrev same : String → String
same s = s

abbrev underscored : String → String
underscored s = if str_eq s "stock-level" then "stock_level" else s

abbrev str : ℕ → String
str n = "next"

abbrev int : String → Option ℤ
int s = none

abbrev order : List EntityRow → List EntityRow
order rows = rows

domain_entity_rows-Shows_example :
    Shows dashed split same underscored str int order
      (λ rows. All-IsIn rows)
      9
      "stock-level"
      start
      (domain_entity_rows dashed split same underscored str int order 9 "stock-level" none none
        start)
domain_entity_rows-Shows_example =
    domain_entity_rows-Shows dashed split same underscored str int order (λ rows. All-IsIn rows) 9
      "stock-level" none none start

-- Each edge of the static graph runs along a foreign key, or through a table with both.
abbrev links : Entity → String → Entity → Bool
links e via target =
    any (λ (c : String × Entity). str_eq c.0 via && same_entity c.1 target)
      (referenceable_fk_columns (columns_of e))

abbrev through : Relationship → Option Entity → Bool
through r none = false
through r (some e) =
    any (λ (c : String × Entity). same_entity c.1 r.source)
      (referenceable_fk_columns (columns_of e))
    && any (λ (c : String × Entity). same_entity c.1 r.target)
        (referenceable_fk_columns (columns_of e))

abbrev is_sound : Relationship → Bool
is_sound r = links r.source r.via r.target || through r (find_entity r.via entities)

relationships_sound : any (λ r. not (is_sound r)) relationships ≡ false
relationships_sound = refl

domain_map-Shows_example : Shows_counts str 9 start (domain_map str 9 start)
domain_map-Shows_example = domain_map-Shows str 9 start
