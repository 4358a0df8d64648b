-- ===== src/Sync/Specs.antt =====
-- How a record of each entity is read (the specifications of src/app/integration/sync.py).
use smart_procurement_backen.Prelude.{String, not, Option, none, some, List, [], ◌∷◌, str_eq}
use smart_procurement_backen.Table.{select}
use smart_procurement_backen.Models.Basic.{RowId}
use smart_procurement_backen.Models.Analysis.{SignalType}
use smart_procurement_backen.Models.Domain.{Entity}

-- A value of `attrs` or `resolved`: a text, or the id that stands for one.
pub data Attr : Type 0 where
  given : String → Attr
  linked : RowId → Attr

abbrev pub Resolved : Type 0
Resolved = List (String × Attr)

-- _SIGNAL_WATCH
abbrev pub signal_watch : Entity → Option (String × SignalType)
signal_watch Entity.stock_level = some ("quantity", SignalType.stock_change)
signal_watch Entity.price = some ("unit_price", SignalType.price_change)
signal_watch Entity.lead_time = some ("days", SignalType.lead_time_change)
signal_watch Entity.quality_record = some ("defect_rate", SignalType.quality_issue)
signal_watch Entity.production_demand = some ("quantity", SignalType.demand_change)
signal_watch _ = none

-- A reference: the attribute of the record, the master it names, and the key it names it by.
pub record Reference : Type 0 where
  pub in_attr : String
  pub target : Entity
  pub nat_key : String

pub record EntitySpec : Type 0 where
  pub identity : List String
  pub refs : List Reference

-- _ENTITY_ORDER
abbrev pub entity_order : List Entity
entity_order =
    Entity.item ∷ Entity.warehouse ∷ Entity.supplier ∷ Entity.item_supplier ∷ Entity.stock_level
    ∷ Entity.price ∷ Entity.lead_time ∷ Entity.consumption ∷ Entity.production_demand
    ∷ Entity.quality_record ∷ Entity.purchase_order ∷ []

-- _ITEM_REF, _SUP_REF, _WH_REF
abbrev pub item_ref : Reference
item_ref = record { in_attr = "item_sku"; target = Entity.item; nat_key = "sku" }

abbrev pub sup_ref : Reference
sup_ref = record { in_attr = "supplier_code"; target = Entity.supplier; nat_key = "code" }

abbrev pub wh_ref : Reference
wh_ref = record { in_attr = "warehouse_code"; target = Entity.warehouse; nat_key = "code" }

abbrev pub spec : List String → List Reference → EntitySpec
spec identity refs = record { identity = identity; refs = refs }

-- _SPECS
abbrev pub spec_of : Entity → EntitySpec
spec_of Entity.item = spec ("sku" ∷ []) []
spec_of Entity.warehouse = spec ("code" ∷ []) []
spec_of Entity.supplier = spec ("code" ∷ []) []
spec_of Entity.item_supplier = spec ("item_id" ∷ "supplier_id" ∷ []) (item_ref ∷ sup_ref ∷ [])
spec_of Entity.stock_level = spec ("item_id" ∷ "warehouse_id" ∷ []) (item_ref ∷ wh_ref ∷ [])
spec_of Entity.price = spec ("item_id" ∷ "supplier_id" ∷ []) (item_ref ∷ sup_ref ∷ [])
spec_of Entity.lead_time = spec ("item_id" ∷ "supplier_id" ∷ []) (item_ref ∷ sup_ref ∷ [])
spec_of Entity.consumption = spec ("item_id" ∷ "warehouse_id" ∷ []) (item_ref ∷ wh_ref ∷ [])
spec_of Entity.production_demand = spec ("item_id" ∷ "need_by" ∷ []) (item_ref ∷ [])
spec_of Entity.quality_record =
    spec ("item_id" ∷ "supplier_id" ∷ "as_of" ∷ []) (item_ref ∷ sup_ref ∷ [])
spec_of Entity.purchase_order = spec ("external_ref" ∷ []) (item_ref ∷ sup_ref ∷ [])

-- _required_identity
abbrev pub required_identity : EntitySpec → List String
required_identity sp = select (λ c. not (str_eq c "warehouse_id")) sp.identity
