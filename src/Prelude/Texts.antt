-- ===== src/Prelude/Texts.antt =====
-- Sorted texts, in the order of the text library.
use Prim.Native.String.{String, compare as compare_text}
use Prim.Native.Nat.{Ordering}
use text.Mathlib.TextEquality.{path_by_compare}
use mathlib.Core.Path.{◌≡◌, refl, ap, ◌∙◌}
use mathlib.Core.Bool.{Bool, true, false, ◌||◌}
use mathlib.Core.List.{List, [], ◌∷◌}
use smart_procurement_backen.Prelude.Lists.{any}

-- `sorted({...})`
abbrev pub insert_text : String → List String → List String
insert_text s [] = s ∷ []
insert_text s (x ∷ xs) = elim (compare_text s x) [
  | Ordering.lt ↦ s ∷ x ∷ xs
  | Ordering.eq ↦ x ∷ xs
  | Ordering.gt ↦ x ∷ insert_text s xs
]

abbrev pub sorted_texts : List String → List String
sorted_texts [] = []
sorted_texts (x ∷ xs) = insert_text x (sorted_texts xs)

-- `sorted([...])`, which keeps what is there twice.
abbrev pub place_text : String → List String → List String
place_text s [] = s ∷ []
place_text s (x ∷ xs) = elim (compare_text s x) [
  | Ordering.lt ↦ s ∷ x ∷ xs
  | Ordering.eq ↦ s ∷ x ∷ xs
  | Ordering.gt ↦ x ∷ place_text s xs
]

abbrev pub ordered_texts : List String → List String
ordered_texts [] = []
ordered_texts (x ∷ xs) = place_text x (ordered_texts xs)

-- The elements of a sorted set of texts.
any-insert_text :
    (p : String → Bool) (s : String) (xs : List String)
    → any p (insert_text s xs) ≡ (p s || any p xs)
any-insert_text p s [] = refl
any-insert_text p s (x ∷ xs) = go (any-insert_text p s xs) (compare_text s x) refl
  where
    swap : (a b c : Bool) → (a || (b || c)) ≡ (b || (a || c))
    swap true true c = refl
    swap true false c = refl
    swap false b c = refl

    twice : (a c : Bool) → (a || c) ≡ (a || (a || c))
    twice true c = refl
    twice false c = refl

    go :
        any p (insert_text s xs) ≡ (p s || any p xs)
        → (o : Ordering) → compare_text s x ≡ o
        → any p (insert_text s (x ∷ xs)) ≡ (p s || any p (x ∷ xs))
    go ih Ordering.lt e = rw (insert_text, e) refl
    go ih Ordering.eq e = rw (insert_text, e, ap p (path_by_compare s x e)) (twice (p x) (any p xs))
    go ih Ordering.gt e = rw (insert_text, e, ih) (swap (p x) (p s) (any p xs))

pub any-sorted_texts : (p : String → Bool) (xs : List String) → any p (sorted_texts xs) ≡ any p xs
any-sorted_texts p [] = refl
any-sorted_texts p (x ∷ xs) =
    any-insert_text p x (sorted_texts xs) ∙ ap (λ b. p x || b) (any-sorted_texts p xs)
