-- ===== src/Pagination/Tests.antt =====
-- Pages at concrete inputs.
use smart_procurement_backen.Prelude.{
  ℕ, zero, suc, ◌≡◌, refl, ap, String, Option, none, some, List, [], ◌∷◌,
}
use smart_procurement_backen.Prelude.Int.{ℤ, pos}
use smart_procurement_backen.Pagination.{paginate}
use smart_procurement_backen.Pagination.Walk.{Reads, walk, walk-all}

-- A notation of numbers by strokes: one more than the number.
abbrev strokes : ℕ → String
strokes zero = "|"
strokes (suc n) = String.◌∷◌ "|" (strokes n)

abbrev count : String → ℕ
count String.[] = 0
count (String.◌∷◌ c s) = suc (count s)

abbrev read : String → Option ℤ
read String.[] = none
read (String.◌∷◌ c s) = some (pos (count s))

count-strokes : (n : ℕ) → count (strokes n) ≡ suc n
count-strokes zero = refl
count-strokes (suc n) = ap suc (count-strokes n)

strokes-Reads : Reads strokes read
strokes-Reads zero = (refl, refl)
strokes-Reads (suc n) = (refl, ap (λ k. some (pos k)) (count-strokes n))

abbrev five : List ℕ
five = 10 ∷ 11 ∷ 12 ∷ 13 ∷ 14 ∷ []

abbrev three : List ℕ
three = 10 ∷ 11 ∷ 12 ∷ []

second_page : paginate strokes read five (some (pos 2)) (some "|||") ≡ (12 ∷ 13 ∷ [], some "|||||")
unfolding paginate
second_page = refl

walk-all_example : walk strokes read three (some (pos 2)) 4 none ≡ three
walk-all_example = walk-all strokes read three (some (pos 2)) strokes-Reads
