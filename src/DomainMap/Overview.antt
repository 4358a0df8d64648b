-- ===== src/DomainMap/Overview.antt =====
-- domain_map of src/app/domain/map_service.py. The dict that a GROUP BY fills is a list of its entries;
-- the text of the id of a source is an argument.
use smart_procurement_backen.Prelude.{
  sorted_texts, ℕ, ◌+◌, String, Bool, not, ◌&&◌, List, [], ◌∷◌, map, if◌then◌else◌, ◌==◌,
}
use smart_procurement_backen.Errors.{ok}
use smart_procurement_backen.Table.{select}
use smart_procurement_backen.Models.Basic.{RowId}
use smart_procurement_backen.Models.Domain.{Entity, Observability, EntityRow}
use smart_procurement_backen.Session.{Exec}
use smart_procurement_backen.Pagination.{is_empty}
use smart_procurement_backen.DomainMap.{entities, same_entity}

-- The static graph of the map; `via` names a column or an entity.
pub record Relationship : Type 0 where
  pub source : Entity
  pub target : Entity
  pub via : String
  pub kind : String

abbrev relationship : Entity → Entity → String → String → Relationship
relationship source target via kind = record {
  source = source;
  target = target;
  via = via;
  kind = kind;
}

-- _RELATIONSHIPS
abbrev pub relationships : List Relationship
relationships =
    relationship Entity.item Entity.supplier "item_supplier" "approved-supplier"
    ∷ relationship Entity.stock_level Entity.item "item_id" "belongs-to"
    ∷ relationship Entity.stock_level Entity.warehouse "warehouse_id" "located-in"
    ∷ relationship Entity.price Entity.item "item_id" "priced"
    ∷ relationship Entity.price Entity.supplier "supplier_id" "quoted-by"
    ∷ relationship Entity.lead_time Entity.supplier "supplier_id" "quoted-by"
    ∷ relationship Entity.purchase_order Entity.item "item_id" "orders"
    ∷ relationship Entity.purchase_order Entity.supplier "supplier_id" "ordered-from"
    ∷ relationship Entity.consumption Entity.item "item_id" "consumes"
    ∷ relationship Entity.production_demand Entity.item "item_id" "requires"
    ∷ relationship Entity.quality_record Entity.supplier "supplier_id" "rates"
    ∷ []

abbrev state_index : Observability → ℕ
state_index Observability.fresh = 0
state_index Observability.stale = 1
state_index Observability.lost = 2

abbrev pub same_state : Observability → Observability → Bool
same_state a b = state_index a == state_index b

-- `count(*)` of the groups, one row more of one state.
abbrev pub count_state : Observability → List (Observability × ℕ) → List (Observability × ℕ)
count_state o [] = (o, 1) ∷ []
count_state o ((state, n) ∷ groups) =
    let rest = count_state o groups in
    if same_state state o then (state, n + 1) ∷ groups else (state, n) ∷ rest

abbrev pub group_states : List EntityRow → List (Observability × ℕ)
group_states [] = []
group_states (row ∷ rows) = count_state row.observability (group_states rows)

-- `sum(obs_counts.values())`
abbrev pub sum_counts : List (Observability × ℕ) → ℕ
sum_counts [] = 0
sum_counts ((_, n) ∷ groups) = n + sum_counts groups

pub record Summary : Type 0 where
  pub entity : Entity
  pub count : ℕ
  pub observability : List (Observability × ℕ)
  pub sources : List String

pub record Overview : Type 0 where
  pub entities : List Summary
  pub relationships : List Relationship

-- A row of an entity's table that is of the enterprise.
abbrev pub is_counted : RowId → Entity → EntityRow → Bool
is_counted enterprise_id entity row =
    same_entity row.entity entity && row.enterprise_id == enterprise_id

module _ (str : RowId → String) where
  abbrev pub source_ids : List EntityRow → List String
  source_ids rows = sorted_texts (
      select (λ s. not (is_empty s))
        (map (λ (row : EntityRow). str row.provenance.data_source_id) rows))

  -- The body of the loop.
  abbrev pub summary : RowId → List EntityRow → Entity → Summary
  summary enterprise_id table entity =
      let rows = select (is_counted enterprise_id entity) table in
      let obs_counts = group_states rows in
      record {
        entity = entity;
        count = sum_counts obs_counts;
        observability = obs_counts;
        sources = source_ids rows;
      }

  unfoldable pub domain_map : RowId → Exec Overview
  domain_map enterprise_id s = (
    ok (record {
      entities = map (summary enterprise_id s.entities) entities;
      relationships = relationships;
    }),
    s,
  )
