-- ===== src/Models/Domain.antt =====
-- src/app/domain/models.py: the canonical entities. The synchronisation reads and writes their
-- columns by name, so a row holds its columns under their names.
use smart_procurement_backen.Prelude.{
  ℕ, suc, ◌+◌, ◌*◌, ◌/◌, ◌^◌, String, Bool, true, false, Option, none, some, List, [], ◌∷◌, ◌==◌,
  ltb, str_eq, any,
}
use smart_procurement_backen.Prelude.Int.{pos_part, neg_part}
use smart_procurement_backen.Prelude.Decimal.{Decimal, decimal_zero, same_decimal}
use smart_procurement_backen.Models.Basic.{RowId, Time}

-- The keys of ENTITY_MODELS.
pub data Entity : Type 0 where
  item warehouse supplier stock_level item_supplier price lead_time purchase_order : Entity
  consumption production_demand quality_record : Entity

-- The position in ENTITY_MODELS, and the key.
abbrev pub entity_index : Entity → ℕ
entity_index Entity.item = 0
entity_index Entity.warehouse = 1
entity_index Entity.supplier = 2
entity_index Entity.stock_level = 3
entity_index Entity.item_supplier = 4
entity_index Entity.price = 5
entity_index Entity.lead_time = 6
entity_index Entity.purchase_order = 7
entity_index Entity.consumption = 8
entity_index Entity.production_demand = 9
entity_index Entity.quality_record = 10

abbrev pub entity_key : Entity → String
entity_key Entity.item = "item"
entity_key Entity.warehouse = "warehouse"
entity_key Entity.supplier = "supplier"
entity_key Entity.stock_level = "stock_level"
entity_key Entity.item_supplier = "item_supplier"
entity_key Entity.price = "price"
entity_key Entity.lead_time = "lead_time"
entity_key Entity.purchase_order = "purchase_order"
entity_key Entity.consumption = "consumption"
entity_key Entity.production_demand = "production_demand"
entity_key Entity.quality_record = "quality_record"

-- What a column holds; `day` counts days, and `raw` is a text that stands where an id is wanted.
pub data Cell : Type 0 where
  words : String → Cell
  decimal : Decimal → Cell
  ref : RowId → Cell
  day : ℕ → Cell
  instant : Time → Cell
  flag : Bool → Cell
  raw : String → Cell

abbrev pub same_flag : Bool → Bool → Bool
same_flag true true = true
same_flag false false = true
same_flag _ _ = false

abbrev pub same_cell : Cell → Cell → Bool
same_cell (words a) (words b) = str_eq a b
same_cell (decimal a) (decimal b) = same_decimal a b
same_cell (ref a) (ref b) = a == b
same_cell (day a) (day b) = a == b
same_cell (instant a) (instant b) = a == b
same_cell (flag a) (flag b) = same_flag a b
same_cell (raw a) (raw b) = str_eq a b
same_cell _ _ = false

-- `a == b` in Python, and `col.is_(None)` or `col == val` in a query.
abbrev pub same_value : Option Cell → Option Cell → Bool
same_value none none = true
same_value (some a) (some b) = same_cell a b
same_value _ _ = false

pub data ColumnType : Type 0 where
  string_type numeric_type boolean_type date_type datetime_type uuid_type : ColumnType
  short_type : ℕ → ColumnType
  choice_type : List String → ColumnType

-- A column: whether NULL is allowed, and the default of an insert without it.
pub record Column : Type 0 where
  pub name : String
  pub column_type : ColumnType
  pub nullable : Bool
  pub default : Option Cell

abbrev pub col : String → ColumnType → Column
col name t = record { name = name; column_type = t; nullable = false; default = none }

abbrev pub nullable_col : String → ColumnType → Column
nullable_col name t = record { name = name; column_type = t; nullable = true; default = none }

abbrev pub default_col : String → ColumnType → Cell → Column
default_col name t d = record { name = name; column_type = t; nullable = false; default = some d }

-- PO_STATUSES, PO_ORIGINS
abbrev pub po_statuses : List String
po_statuses = "open" ∷ "received" ∷ "cancelled" ∷ []

abbrev pub po_origins : List String
po_origins = "external" ∷ "smart_procurement" ∷ []

abbrev pub quantity_col : String → Column
quantity_col name = default_col name numeric_type (decimal decimal_zero)

-- The columns of each class, without those that the mixins add.
abbrev pub columns_of : Entity → List Column
columns_of Entity.item =
    col "sku" string_type
    ∷ default_col "name" string_type (words "")
    ∷ nullable_col "category" string_type
    ∷ nullable_col "unit" string_type
    ∷ default_col "is_active" boolean_type (flag true)
    ∷ []
columns_of Entity.warehouse =
    col "code" string_type
    ∷ default_col "name" string_type (words "")
    ∷ nullable_col "location" string_type
    ∷ []
columns_of Entity.supplier =
    col "code" string_type
    ∷ default_col "name" string_type (words "")
    ∷ default_col "is_approved" boolean_type (flag false)
    ∷ default_col "notes" string_type (words "")
    ∷ []
columns_of Entity.stock_level =
    col "item_id" uuid_type
    ∷ nullable_col "warehouse_id" uuid_type
    ∷ quantity_col "quantity"
    ∷ nullable_col "min_quantity" numeric_type
    ∷ nullable_col "as_of" datetime_type
    ∷ []
columns_of Entity.item_supplier =
    col "item_id" uuid_type
    ∷ col "supplier_id" uuid_type
    ∷ default_col "preferred" boolean_type (flag false)
    ∷ []
columns_of Entity.price =
    col "item_id" uuid_type
    ∷ col "supplier_id" uuid_type
    ∷ quantity_col "unit_price"
    ∷ nullable_col "currency" (short_type 3)
    ∷ nullable_col "valid_from" date_type
    ∷ nullable_col "valid_to" date_type
    ∷ []
columns_of Entity.lead_time =
    col "item_id" uuid_type
    ∷ col "supplier_id" uuid_type
    ∷ quantity_col "days"
    ∷ nullable_col "as_of" datetime_type
    ∷ []
columns_of Entity.purchase_order =
    col "external_ref" string_type
    ∷ nullable_col "item_id" uuid_type
    ∷ nullable_col "supplier_id" uuid_type
    ∷ quantity_col "quantity"
    ∷ nullable_col "unit_price" numeric_type
    ∷ default_col "status" (choice_type po_statuses) (words "open")
    ∷ nullable_col "ordered_at" datetime_type
    ∷ nullable_col "expected_at" datetime_type
    ∷ nullable_col "received_at" datetime_type
    ∷ nullable_col "received_quantity" numeric_type
    ∷ default_col "origin" (choice_type po_origins) (words "external")
    ∷ nullable_col "procurement_action_id" uuid_type
    ∷ []
columns_of Entity.consumption =
    col "item_id" uuid_type
    ∷ nullable_col "warehouse_id" uuid_type
    ∷ quantity_col "quantity"
    ∷ nullable_col "period_start" date_type
    ∷ nullable_col "period_end" date_type
    ∷ []
columns_of Entity.production_demand =
    col "item_id" uuid_type
    ∷ quantity_col "quantity"
    ∷ nullable_col "need_by" date_type
    ∷ nullable_col "source_ref" string_type
    ∷ []
columns_of Entity.quality_record =
    col "item_id" uuid_type
    ∷ nullable_col "supplier_id" uuid_type
    ∷ nullable_col "defect_rate" numeric_type
    ∷ default_col "note" string_type (words "")
    ∷ nullable_col "as_of" datetime_type
    ∷ []

-- OBSERVABILITY_STATES
pub data Observability : Type 0 where
  fresh stale lost : Observability

pub record Provenance : Type 0 where
  pub data_source_id : RowId
  pub source_field_path : String
  pub fetched_at : Time

-- The values of columns by name; a name that is not there has none.
abbrev pub Cells : Type 0
Cells = List (String × Option Cell)

-- `Numeric(18, 4)`: rounded to four places, half away from zero, it has at most eighteen digits.
abbrev pub fits_numeric : Decimal → Bool
fits_numeric d =
    ltb
      ((20_000 * (pos_part d.coefficient + neg_part d.coefficient) + 10 ^ d.places)
        / (2 * 10 ^ d.places))
      1_000_000_000_000_000_000

abbrev pub characters : String → ℕ
characters String.[] = 0
characters (String.◌∷◌ c s) = suc (characters s)

-- The value is one that the type of the column takes.
abbrev pub fits : ColumnType → Cell → Bool
fits string_type (words s) = true
fits (short_type n) (words s) = ltb (characters s) (suc n)
fits (choice_type choices) (words s) = any (λ c. str_eq c s) choices
fits numeric_type (decimal d) = fits_numeric d
fits boolean_type (flag b) = true
fits date_type (day n) = true
fits datetime_type (instant t) = true
fits uuid_type (ref id) = true
fits _ _ = false

pub record EntityRow : Type 0 where
  pub id : RowId
  pub enterprise_id : RowId
  pub entity : Entity
  pub cells : Cells
  pub provenance : Provenance
  pub observability : Observability
