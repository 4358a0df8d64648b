-- ===== src/SourceFields/Totals.antt =====
-- What storing the fields that a connector discovers adds in all (src/app/integration/service.py).
use smart_procurement_backen.Prelude.{
  ℕ, ◌≡◌, refl, sym, ap, ◌∙◌, String, true, false, ◌&&◌, Option, none, some, List, [], ◌∷◌,
  if◌then◌else◌, ◌==◌, str_eq, eq_iff, any, Bool-cases, inl, inr, arith, is_none,
}
use smart_procurement_backen.Models.Basic.{RowId}
use smart_procurement_backen.Models.Integration.{SourceField}
use smart_procurement_backen.SourceFields.{Discovered, find_path}
use smart_procurement_backen.SourceFields.Counts.{names, IsDistinct, fresh, total}

fresh-other :
    (source : RowId) (field : Discovered) (found : Option SourceField) (d : RowId) (p : String)
    → str_eq field.path p ≡ false
    → fresh source field found d p ≡ 0
fresh-other source field none d p other = elim (Bool-cases (source == d)) [
  | inl e ↦ rw (e, other) refl
  | inr e ↦ rw e refl
]
fresh-other source field (some row) d p other = refl

fresh-own :
    (source : RowId) (field : Discovered) (found : Option SourceField) (d : RowId) (p : String)
    → str_eq field.path p ≡ true
    → fresh source field found d p ≡ (if source == d && is_none found then 1 else 0)
fresh-own source field none d p own = elim (Bool-cases (source == d)) [
  | inl e ↦ rw (e, own) refl
  | inr e ↦ rw e refl
]
fresh-own source field (some row) d p own = elim (Bool-cases (source == d)) [
  | inl e ↦ rw e refl
  | inr e ↦ rw e refl
]

-- One for a path of the source that is discovered and that no row has.
abbrev pub is_new : RowId → List SourceField → List Discovered → RowId → String → ℕ
is_new source existing fields d p =
    if (source == d && any (names p) fields) && is_none (find_path p existing) then 1 else 0

is_new-other :
    (source : RowId) (existing : List SourceField) (field : Discovered) (fields : List Discovered)
    (d : RowId) (p : String)
    → str_eq field.path p ≡ false
    → is_new source existing (field ∷ fields) d p ≡ is_new source existing fields d p
is_new-other source existing field fields d p other = rw other refl

is_new-own :
    (source : RowId) (existing : List SourceField) (field : Discovered) (fields : List Discovered)
    (d : RowId) (p : String)
    → str_eq field.path p ≡ true
    → is_new source existing (field ∷ fields) d p
      ≡ (if source == d && is_none (find_path p existing) then 1 else 0)
is_new-own source existing field fields d p own = elim (Bool-cases (source == d)) [
  | inl e ↦ rw (own, e) refl
  | inr e ↦ rw (own, e) refl
]

is_new-absent :
    (source : RowId) (existing : List SourceField) (fields : List Discovered) (d : RowId)
    (p : String)
    → any (names p) fields ≡ false
    → is_new source existing fields d p ≡ 0
is_new-absent source existing fields d p none_ = elim (Bool-cases (source == d)) [
  | inl e ↦ rw (none_, e) refl
  | inr e ↦ rw (none_, e) refl
]

pub total-is_new :
    (source : RowId) (existing : List SourceField) (fields : List Discovered) (d : RowId)
    (p : String)
    → IsDistinct fields
    → total source existing fields d p ≡ is_new source existing fields d p
total-is_new source existing [] d p h = sym (is_new-absent source existing [] d p refl)
total-is_new source existing (field ∷ fields) d p (apart, h) =
    let ih = total-is_new source existing fields d p h in
    let found = find_path field.path existing in
    elim (Bool-cases (str_eq field.path p)) [
      | inr other ↦ omega (
        arith,
        ih,
        fresh-other source field found d p other,
        is_new-other source existing field fields d p other,
      )
      | inl own ↦
          let same = (eq_iff field.path p).0 own in
          let later : any (names p) fields ≡ false =
            ap (λ x. any (names x) fields) (sym same) ∙ apart in
          let first : fresh source field found d p
              ≡ (if source == d && is_none (find_path p existing) then 1 else 0) =
            fresh-own source field found d p own
            ∙ ap (λ x. if source == d && is_none (find_path x existing) then 1 else 0) same in
          omega (
            arith,
            ih,
            first,
            is_new-absent source existing fields d p later,
            is_new-own source existing field fields d p own,
          )
    ]
