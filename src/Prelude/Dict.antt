-- ===== src/Prelude/Dict.antt =====
-- A `dict` with texts as keys, in the order of insertion.
use Prim.Native.String.{String}
use mathlib.Core.Path.{◌≡◌, refl}
use mathlib.Core.Bool.{false}
use mathlib.Core.Option.{Option, none, some}
use mathlib.Core.List.{List, [], ◌∷◌}
use native.Mathlib.Omega.{arith}
use text.Mathlib.Text.{◌==◌ as str_eq}
use text.Mathlib.TextEquality.{eq_iff}
use smart_procurement_backen.Prelude.Tests.{if◌then◌else◌}

module _ {ℓ} {V : Type ℓ} where
  -- `d.get(key)`
  abbrev pub get : String → List (String × V) → Option V
  get key [] = none
  get key ((k, v) ∷ rest) = if str_eq k key then some v else get key rest

  -- `d[key] = value`
  abbrev pub put : String → V → List (String × V) → List (String × V)
  put key value [] = (key, value) ∷ []
  put key value ((k, v) ∷ rest) =
      if str_eq k key then (k, value) ∷ rest else (k, v) ∷ put key value rest

  -- An assignment to another key leaves the value.
  pub get-put_ne :
      (key other : String) (value : V) (d : List (String × V))
      → str_eq key other ≡ false
      → get other (put key value d) ≡ get other d
  get-put_ne key other value [] h = rw h refl
  get-put_ne key other value ((k, v) ∷ rest) h =
      ground
        (arith, eq_iff k key, eq_iff k other, eq_iff key other, get-put_ne key other value rest h)

  pub get-put_self :
      (key : String) (value : V) (d : List (String × V)) → get key (put key value d) ≡ some value
  get-put_self key value [] = ground (arith, eq_iff key key)
  get-put_self key value ((k, v) ∷ rest) = ground (arith, eq_iff k key, get-put_self key value rest)
