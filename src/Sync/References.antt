-- ===== src/Sync/References.antt =====
-- Resolving the references of a record (src/app/integration/sync.py).
use smart_procurement_backen.Prelude.{
  String, Bool, false, not, ◌&&◌, Option, none, some, List, [], ◌∷◌, if◌then◌else◌, ◌==◌, str_eq,
  any,
}
use Prim.Native.String.{◌++◌ as str_append}
use smart_procurement_backen.Prelude.Dict.{get, put}
use smart_procurement_backen.Table.{select, scalar_one_or_none}
use smart_procurement_backen.Models.Basic.{RowId}
use smart_procurement_backen.Models.Domain.{
  Entity, entity_index, entity_key, Cell, words, Cells, EntityRow,
}
use smart_procurement_backen.Session.{Exec, pure, lift, ◌>>=◌}
use smart_procurement_backen.Sync.Specs.{
  Attr, given, linked, Resolved, Reference, EntitySpec, required_identity,
}

abbrev pub text_among : String → List String → Bool
text_among s xs = any (λ x. str_eq x s) xs

-- `getattr(row, name)`: None where the column has no value.
abbrev pub flat : Option (Option Cell) → Option Cell
flat none = none
flat (some v) = v

abbrev pub value_of : String → Cells → Option Cell
value_of name cells = flat (get name cells)

-- The ids of masters that were looked up, by the entity and the natural key.
pub record Cached : Type 0 where
  pub target : Entity
  pub key : String
  pub id : RowId

abbrev pub Cache : Type 0
Cache = List Cached

abbrev pub find_cached : Entity → String → Cache → Option RowId
find_cached e key [] = none
find_cached e key (c ∷ cs) =
    if entity_index c.target == entity_index e && str_eq c.key key
    then some c.id
    else find_cached e key cs

abbrev pub fk_column : Entity → String
fk_column e = str_append (entity_key e) "_id"

-- `raw in (None, "")`
abbrev pub raw_text : Option Attr → Option String
raw_text (some (given s)) = if str_eq s "" then none else some s
raw_text _ = none

abbrev pub is_words : String → Option Cell → Bool
is_words s (some (words w)) = str_eq w s
is_words s _ = false

abbrev pub is_master : RowId → Reference → String → EntityRow → Bool
is_master enterprise_id r key row =
    row.enterprise_id == enterprise_id
    && entity_index row.entity == entity_index r.target
    && is_words key (value_of r.nat_key row.cells)

abbrev pub Resolution : Type 0
Resolution = Option Resolved × Cache

-- A reference whose master is known, or not.
unfoldable pub resolve_found :
    EntitySpec
    → Reference
    → String
    → Resolved
    → Cache
    → (Resolved → Cache → Exec Resolution)
    → Option EntityRow
    → Exec Resolution
resolve_found sp r key resolved cache next none =
    if text_among (fk_column r.target) (required_identity sp)
    then pure (none, cache)
    else next resolved cache
resolve_found sp r key resolved cache next (some row) =
    next (put (fk_column r.target) (linked row.id) resolved)
      (record { target = r.target; key = key; id = row.id } ∷ cache)

unfoldable pub resolve_uncached :
    RowId
    → EntitySpec
    → Reference
    → String
    → Resolved
    → Cache
    → (Resolved → Cache → Exec Resolution)
    → Option RowId
    → Exec Resolution
resolve_uncached enterprise_id sp r key resolved cache next (some id) =
    next (put (fk_column r.target) (linked id) resolved) cache
resolve_uncached enterprise_id sp r key resolved cache next none = λ s.
    (lift (scalar_one_or_none (select (is_master enterprise_id r key) s.entities))
        >>= resolve_found sp r key resolved cache next)
      s

unfoldable pub resolve_one :
    RowId
    → EntitySpec
    → Reference
    → Option String
    → Resolved
    → Cache
    → (Resolved → Cache → Exec Resolution)
    → Exec Resolution
resolve_one enterprise_id sp r none resolved cache next = next resolved cache
resolve_one enterprise_id sp r (some key) resolved cache next =
    resolve_uncached enterprise_id sp r key resolved cache next (find_cached r.target key cache)

unfoldable pub resolve_each :
    RowId → EntitySpec → List Reference → Resolved → Resolved → Cache → Exec Resolution
resolve_each enterprise_id sp [] attrs resolved cache = pure (some resolved, cache)
resolve_each enterprise_id sp (r ∷ rs) attrs resolved cache =
    resolve_one enterprise_id sp r (raw_text (get r.in_attr attrs)) resolved cache
      (resolve_each enterprise_id sp rs attrs)

abbrev pub is_not_ref : EntitySpec → String × Attr → Bool
is_not_ref sp (key, value) = not (any (λ (r : Reference). str_eq r.in_attr key) sp.refs)

-- _resolve_refs
unfoldable pub resolve_refs : RowId → EntitySpec → Resolved → Cache → Exec Resolution
resolve_refs enterprise_id sp attrs cache =
    resolve_each enterprise_id sp sp.refs attrs (select (is_not_ref sp) attrs) cache
