-- ===== src/Models/Basic.antt =====
-- What every model is built from: ids, times, decimals and JSON values.
use smart_procurement_backen.Prelude.{ℕ, String, Bool, List}

-- A uuid.
abbrev pub RowId : Type 0
RowId = ℕ

-- A timestamp, in seconds; the first is the start of the first day that `date` has.
abbrev pub Time : Type 0
Time = ℕ

-- The values of a JSON object: texts, numbers, Booleans, the text of a uuid, and lists of those. A
-- number that is not a natural one is held as `str` writes it.
pub data Json : Type 0 where
  null : Json
  text : String → Json
  number : ℕ → Json
  boolean : Bool → Json
  number_text : String → Json
  uuid_text : RowId → Json
  uuid_texts : List RowId → Json

abbrev pub Payload : Type 0
Payload = List (String × Json)
