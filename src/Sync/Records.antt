-- ===== src/Sync/Records.antt =====
-- The tables and the normalisation helpers of src/app/integration/sync.py. A value of a record is held
-- by its `str`, as all that is read of it but whether it is None. What the standard library makes of a
-- text is an argument.
use Prim.Native.String.{◌++◌ as str_append}
use smart_procurement_backen.Prelude.{
  ℕ, ◌*◌, String, Bool, true, false, not, ◌||◌, Option, none, some, List, [], ◌∷◌, if◌then◌else◌,
  ◌==◌, str_eq, any, is_none,
}
use smart_procurement_backen.Prelude.Dict.{get, put}
use smart_procurement_backen.Prelude.Decimal.{Decimal}
use smart_procurement_backen.Table.{select}
use smart_procurement_backen.Models.Basic.{
  Time, Json, null, text, number, boolean, number_text, uuid_text, uuid_texts, Payload,
}
use smart_procurement_backen.Models.Integration.{FieldMapping}
use smart_procurement_backen.Models.Domain.{
  Entity, entity_key, Cell, words, decimal, ref, day, instant, flag, raw, ColumnType, numeric_type,
  boolean_type, date_type, datetime_type, Column, Cells,
}
use smart_procurement_backen.Sync.Specs.{Attr, Resolved, given, linked}

-- `datetime.fromisoformat`: the date that the text shows, and the instant, in UTC if it names no zone.
pub record Moment : Type 0 where
  pub date : ℕ
  pub at : Time

-- What is used of the standard library on texts; `strptime` takes the format first.
pub record Texts : Type 0 where
  pub strip : String → String
  pub upper : String → String
  pub lower : String → String
  pub replace_z : String → String
  pub json_str : Json → String
  pub decimal_of : String → Option Decimal
  pub decimal_str : Decimal → String
  pub cell_str : Cell → String
  pub times : Decimal → Decimal → Decimal
  pub strptime : String → String → Option ℕ
  pub fromisoformat : String → Option Moment

abbrev pub Record : Type 0
Record = List (String × Option String)

-- The truth value of `transform.get(key)`.
abbrev pub is_truthy : Option Json → Bool
is_truthy none = false
is_truthy (some null) = false
is_truthy (some (text s)) = not (str_eq s "")
is_truthy (some (number n)) = not (n == 0)
is_truthy (some (boolean b)) = b
is_truthy (some (number_text s)) = not (str_eq s "0.0" || str_eq s "-0.0")
is_truthy (some (uuid_text id)) = true
is_truthy (some (uuid_texts [])) = false
is_truthy (some (uuid_texts (x ∷ xs))) = true

-- The column's type, by the key of the column.
abbrev pub type_in : String → List Column → Option ColumnType
type_in key [] = none
type_in key (c ∷ cs) = if str_eq c.name key then some c.column_type else type_in key cs

-- `key.endswith(suffix)`
unfoldable pub ends_with : String → String → Bool
ends_with suffix String.[] = str_eq suffix ""
ends_with suffix (String.◌∷◌ c s) = str_eq suffix (String.◌∷◌ c s) || ends_with suffix s

-- `",".join(...)`
abbrev pub join_texts : List String → String
join_texts [] = ""
join_texts (x ∷ []) = x
join_texts (x ∷ y ∷ xs) = str_append x (str_append "," (join_texts (y ∷ xs)))

-- `grouped.get(entity)`
unfoldable pub mappings_for : Entity → List FieldMapping → List FieldMapping
mappings_for e ms = select (λ m. str_eq m.canonical_entity (entity_key e)) ms

module _ (t : Texts) where
  abbrev pub trimmed : Payload → String → String
  trimmed transform s = if is_truthy (get "trim" transform) then t.strip s else s

  abbrev pub uppered : Payload → String → String
  uppered transform s = if is_truthy (get "upper" transform) then t.upper s else s

  abbrev pub lowered : Payload → String → String
  lowered transform s = if is_truthy (get "lower" transform) then t.lower s else s

  -- The product, or the text where either factor is no number.
  abbrev pub multiplied : Option Decimal → Option Decimal → String → String
  multiplied (some a) (some b) s = t.decimal_str (t.times a b)
  multiplied _ _ s = s

  abbrev pub scaled : Option Json → String → String
  scaled none s = s
  scaled (some null) s = s
  scaled (some mult) s = multiplied (t.decimal_of s) (t.decimal_of (t.json_str mult)) s

  -- _apply_transform, of a value that is not None
  unfoldable pub apply_transform : Payload → String → String
  apply_transform transform value =
      scaled (get "multiply" transform)
        (lowered transform (uppered transform (trimmed transform value)))

  abbrev pub transformed : Option Payload → String → String
  transformed none value = value
  transformed (some transform) value = apply_transform transform value

  -- `value in (None, "")` is skipped.
  abbrev pub assign : String → String → Resolved → Resolved
  assign key value out = if str_eq value "" then out else put key (given value) out

  abbrev pub extract_one : FieldMapping → Option (Option String) → Resolved → Resolved
  extract_one m none out = out
  extract_one m (some none) out = out
  extract_one m (some (some value)) out =
      assign m.canonical_attribute (transformed m.transform value) out

  -- _extract
  unfoldable pub extract : Record → List FieldMapping → Resolved → Resolved
  extract record_ [] out = out
  extract record_ (m ∷ ms) out =
      extract record_ ms (extract_one m (get m.source_field_path record_) out)

  abbrev pub or_date : Option ℕ → Option ℕ → Option ℕ
  or_date none other = other
  or_date (some d) other = some d

  abbrev pub moment_date : Option Moment → Option ℕ
  moment_date none = none
  moment_date (some m) = some m.date

  -- _parse_date
  unfoldable pub parse_date : String → Option ℕ
  parse_date s = or_date (t.strptime "%Y-%m-%d" s) (
      or_date (t.strptime "%d.%m.%Y" s)
        (or_date (t.strptime "%Y/%m/%d" s) (moment_date (t.fromisoformat s))))

  abbrev pub midnight : Option ℕ → Option Time
  midnight none = none
  midnight (some d) = some (d * 86_400)

  abbrev pub moment_or_midnight : Option Moment → Option ℕ → Option Time
  moment_or_midnight (some m) d = some m.at
  moment_or_midnight none d = midnight d

  -- _parse_datetime
  unfoldable pub parse_datetime : String → Option Time
  parse_datetime s = moment_or_midnight (t.fromisoformat (t.replace_z s)) (parse_date s)

  abbrev pub true_texts : List String
  true_texts = "1" ∷ "true" ∷ "yes" ∷ "y" ∷ "t" ∷ []

  abbrev pub cell_of {ℓ} : {A : Type ℓ} → (A → Cell) → Option A → Option Cell
  cell_of f none = none
  cell_of f (some a) = some (f a)

  -- _coerce, of a text
  unfoldable pub coerce : ColumnType → String → Option Cell
  coerce numeric_type s = cell_of decimal (t.decimal_of s)
  coerce boolean_type s = some (flag (any (λ w. str_eq w (t.lower (t.strip s))) true_texts))
  coerce date_type s = cell_of day (parse_date s)
  coerce datetime_type s = cell_of instant (parse_datetime s)
  coerce _ s = some (words s)

  abbrev pub id_cell : Attr → Option Cell
  id_cell (given s) = some (raw s)
  id_cell (linked id) = some (ref id)

  -- `str(value)` of an id is not asked for: an id stands under a key that ends in `_id`.
  abbrev pub coerce_attr : ColumnType → Attr → Option Cell
  coerce_attr c (given s) = coerce c s
  coerce_attr c (linked id) = some (ref id)

  abbrev pub put_typed : String → Attr → Option ColumnType → Cells → Cells
  put_typed key value none cells = cells
  put_typed key value (some c) cells = put key (coerce_attr c value) cells

  -- The loop of _upsert over `resolved.items()`.
  unfoldable pub coerce_all : List Column → Resolved → Cells → Cells
  coerce_all columns [] cells = cells
  coerce_all columns ((key, value) ∷ rest) cells = coerce_all columns rest (
      if ends_with "_id" key
      then put key (id_cell value) cells
      else put_typed key value (type_in key columns) cells)

-- `coerced.setdefault(id_col, None)`
unfoldable pub set_defaults : List String → Cells → Cells
set_defaults [] cells = cells
set_defaults (c ∷ cs) cells =
    set_defaults cs (if is_none (get c cells) then put c none cells else cells)
