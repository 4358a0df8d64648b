-- ===== src/Pagination.antt =====
-- src/app/core/pagination.py: pages of a query by an offset cursor. `str` and `int` of the standard
-- library are arguments; an `int` that raises ValueError has no value.
pub mod Walk
mod Tests
use smart_procurement_backen.Prelude.{
  ℕ, zero, suc, ◌+◌, String, Bool, true, false, Option, none, some, List, if◌then◌else◌, ltb, leb,
  length, take, drop, min,
}
use smart_procurement_backen.Prelude.Int.{ℤ, pos, negsuc}

abbrev pub default_limit : ℕ
default_limit = 50

abbrev pub max_limit : ℕ
max_limit = 200

-- `max(offset, 0)`, and 0 for a text that is no number.
abbrev pub offset_or_zero : Option ℤ → ℕ
offset_or_zero none = 0
offset_or_zero (some (pos n)) = n
offset_or_zero (some (negsuc n)) = 0

abbrev pub clamp_limit : Option ℤ → ℕ
clamp_limit none = default_limit
clamp_limit (some (negsuc n)) = default_limit
clamp_limit (some (pos n)) = if ltb n 1 then default_limit else min n max_limit

-- `not s`
abbrev pub is_empty : String → Bool
is_empty String.[] = true
is_empty (String.◌∷◌ c s) = false

module _ (str : ℕ → String) (int : String → Option ℤ) where
  abbrev pub decode_cursor : Option String → ℕ
  decode_cursor none = 0
  decode_cursor (some cursor) = if is_empty cursor then 0 else offset_or_zero (int cursor)

  -- The rows are those of the statement, in its order.
  unfoldable pub paginate {ℓ} :
      {A : Type ℓ} → List A → Option ℤ → Option String → List A × Option String
  paginate rows limit cursor =
      let lim = clamp_limit limit in
      let offset = decode_cursor cursor in
      (
        take lim (drop offset rows),
        if ltb (offset + lim) (length rows) then some (str (offset + lim)) else none,
      )
