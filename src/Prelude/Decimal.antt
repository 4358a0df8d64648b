-- ===== src/Prelude/Decimal.antt =====
-- Python's `Decimal`, without its infinities and NaN, and the integers of ten-thousandths that a
-- column of type NUMERIC(18, 4) holds.
use Prim.Native.Nat.{ℕ, ◌+◌, ◌-◌, ◌*◌, ◌/◌, ◌^◌}
use mathlib.Core.Bool.{Bool}
use smart_procurement_backen.Prelude.Tests.{◌==◌, if◌then◌else◌, ltb}
use smart_procurement_backen.Prelude.Int.{
  ℤ, pos, negsuc, pos_part, neg_part, sub_ℕ, ◌+ℤ◌, ◌-ℤ◌, ◌*ℤ◌,
}

-- A `Decimal`: the coefficient over ten to the number of places.
pub record Decimal : Type 0 where
  pub coefficient : ℤ
  pub places : ℕ

abbrev pub decimal_zero : Decimal
decimal_zero = record { coefficient = pos 0; places = 0 }

-- `a == b`
abbrev pub same_decimal : Decimal → Decimal → Bool
same_decimal a b =
    pos_part a.coefficient * 10 ^ b.places + neg_part b.coefficient * 10 ^ a.places
    == pos_part b.coefficient * 10 ^ a.places + neg_part a.coefficient * 10 ^ b.places

unfoldable pub add_decimal : Decimal → Decimal → Decimal
unfolding ◌+ℤ◌ ◌*ℤ◌
add_decimal a b = record {
  coefficient = a.coefficient *ℤ pos (10 ^ b.places) +ℤ b.coefficient *ℤ pos (10 ^ a.places);
  places = a.places + b.places;
}

unfoldable pub sub_decimal : Decimal → Decimal → Decimal
unfolding ◌-ℤ◌ ◌*ℤ◌
sub_decimal a b = record {
  coefficient = a.coefficient *ℤ pos (10 ^ b.places) -ℤ b.coefficient *ℤ pos (10 ^ a.places);
  places = a.places + b.places;
}

-- A whole number of days, or of anything else.
abbrev pub whole : ℤ → Decimal
whole n = record { coefficient = n; places = 0 }

-- The value of a column that holds so many ten-thousandths.
abbrev pub of_units : ℤ → Decimal
of_units n = record { coefficient = n; places = 4 }

abbrev pub round_half_up : ℕ → ℕ → ℕ
round_half_up n places = (20_000 * n + 10 ^ places) / (2 * 10 ^ places)

-- What NUMERIC(18, 4) makes of a value: the nearest ten-thousandth, a half away from zero.
abbrev pub to_units : Decimal → ℤ
to_units d =
    sub_ℕ (round_half_up (pos_part d.coefficient) d.places)
      (round_half_up (neg_part d.coefficient) d.places)

-- `(a - b).days` of two instants: whole days, rounded down.
abbrev pub days_between : ℕ → ℕ → ℤ
days_between a b = if ltb a b then negsuc ((b - a - 1) / 86_400) else pos ((a - b) / 86_400)
