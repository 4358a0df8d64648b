-- ===== src/Sync/Keyed.antt =====
-- About the identity of the rows that src/app/integration/sync.py writes.
use smart_procurement_backen.Prelude.{
  and_parts, ◌≤◌, ◌≡◌, refl, sym, ◌∙◌, ap, String, true, false, Option, none, some, List, [], ◌∷◌,
  ◌==◌, ==_iff, str_eq, eq_iff, arith, Bool-cases, inl, inr, length, All,
}
use smart_procurement_backen.Prelude.Dict.{put, get-put_ne}
use smart_procurement_backen.Table.{select}
use smart_procurement_backen.Models.Basic.{RowId}
use smart_procurement_backen.Models.Domain.{
  Entity, entity_index, Cell, words, ref, day, instant, Column, columns_of, Cells, EntityRow,
}
use smart_procurement_backen.Sync.Specs.{spec_of}
use smart_procurement_backen.Sync.Rows.{
  same_key, same_identity, is_existing, is_column, or_default, with_defaults, assign_all,
}
use smart_procurement_backen.Sync.References.{text_among, value_of, flat}

-- For each enterprise, entity and identity there is at most one row.
abbrev pub IsKeyed : List EntityRow → Type 0
IsKeyed rows =
    (enterprise_id : RowId) (e : Entity) (coerced : Cells)
    → length (select (is_existing enterprise_id e coerced) rows) ≤ 1

pub same_key-eq : (a b : Option Cell) → same_key a b ≡ true → a ≡ b
same_key-eq none none h = refl
same_key-eq (some (words a)) (some (words b)) h = ap (λ x. some (words x)) ((eq_iff a b).0 h)
same_key-eq (some (ref a)) (some (ref b)) h = ap (λ x. some (ref x)) ((==_iff a b).0 h)
same_key-eq (some (day a)) (some (day b)) h = ap (λ x. some (day x)) ((==_iff a b).0 h)
same_key-eq (some (instant a)) (some (instant b)) h = ap (λ x. some (instant x)) ((==_iff a b).0 h)
same_key-eq _ _ h = cc

pub entity_index-eq : (a b : Entity) → (entity_index a == entity_index b) ≡ true → a ≡ b
entity_index-eq a b h = ground arith

-- The columns of one list agree in two dicts.
abbrev pub Agree : List String → Cells → Cells → Type 0
Agree cs a b = All (λ c. value_of c a ≡ value_of c b) cs

pub same_identity-Agree :
    (cs : List String) (coerced cells : Cells)
    → same_identity cs coerced cells ≡ true
    → Agree cs cells coerced
same_identity-Agree [] coerced cells h = tt
same_identity-Agree (c ∷ cs) coerced cells h =
    let (here, rest) =
      and_parts (same_key (value_of c cells) (value_of c coerced)) (same_identity cs coerced cells)
        h in
    (
      same_key-eq (value_of c cells) (value_of c coerced) here,
      same_identity-Agree cs coerced cells rest,
    )

-- Dicts that agree select the same rows.
pub same_identity-coerced :
    (cs : List String) (a b cells : Cells)
    → Agree cs a b
    → same_identity cs a cells ≡ same_identity cs b cells
same_identity-coerced [] a b cells h = refl
same_identity-coerced (c ∷ cs) a b cells h = rw (h.0, same_identity-coerced cs a b cells h.1) refl

-- Rows that agree are selected alike.
pub same_identity-cells :
    (cs : List String) (coerced a b : Cells)
    → Agree cs a b
    → same_identity cs coerced a ≡ same_identity cs coerced b
same_identity-cells [] coerced a b h = refl
same_identity-cells (c ∷ cs) coerced a b h = rw (h.0, same_identity-cells cs coerced a b h.1) refl

pub Agree-join :
    (cs : List String) (row a b : Cells) → Agree cs row a → Agree cs row b → Agree cs a b
Agree-join [] row a b h k = tt
Agree-join (c ∷ cs) row a b h k = (sym h.0 ∙ k.0, Agree-join cs row a b h.1 k.1)

pub or_default-none : (v : Option Cell) → or_default v none ≡ v
or_default-none none = refl
or_default-none (some v) = refl

-- No identity column has a default, so a new row has the identity that was looked for.
pub with_defaults-Agree :
    (e : Entity) (coerced : Cells)
    → Agree (spec_of e).identity (with_defaults (columns_of e) coerced) coerced
with_defaults-Agree Entity.item coerced = (or_default-none (value_of "sku" coerced), tt)
with_defaults-Agree Entity.warehouse coerced = (or_default-none (value_of "code" coerced), tt)
with_defaults-Agree Entity.supplier coerced = (or_default-none (value_of "code" coerced), tt)
with_defaults-Agree Entity.item_supplier coerced = (
  or_default-none (value_of "item_id" coerced),
  (or_default-none (value_of "supplier_id" coerced), tt),
)
with_defaults-Agree Entity.stock_level coerced = (
  or_default-none (value_of "item_id" coerced),
  (or_default-none (value_of "warehouse_id" coerced), tt),
)
with_defaults-Agree Entity.price coerced = (
  or_default-none (value_of "item_id" coerced),
  (or_default-none (value_of "supplier_id" coerced), tt),
)
with_defaults-Agree Entity.lead_time coerced = (
  or_default-none (value_of "item_id" coerced),
  (or_default-none (value_of "supplier_id" coerced), tt),
)
with_defaults-Agree Entity.consumption coerced = (
  or_default-none (value_of "item_id" coerced),
  (or_default-none (value_of "warehouse_id" coerced), tt),
)
with_defaults-Agree Entity.production_demand coerced = (
  or_default-none (value_of "item_id" coerced),
  (or_default-none (value_of "need_by" coerced), tt),
)
with_defaults-Agree Entity.quality_record coerced = (
  or_default-none (value_of "item_id" coerced),
  (
    or_default-none (value_of "supplier_id" coerced),
    (or_default-none (value_of "as_of" coerced), tt),
  ),
)
with_defaults-Agree Entity.purchase_order coerced =
    (or_default-none (value_of "external_ref" coerced), tt)

not_among :
    (key c : String) (cs : List String)
    → text_among key cs ≡ false
    → text_among c cs ≡ true
    → str_eq key c ≡ false
not_among key c cs out h = elim (Bool-cases (str_eq key c)) [
  | inr other ↦ other
  | inl same ↦ let e : key ≡ c = (eq_iff key c).0 same in cc (ap (λ x. text_among x cs) e)
]

-- An update leaves every identity column.
assign_all-value :
    (c : String) (identity : List String) (columns : List Column) (coerced cells : Cells)
    → text_among c identity ≡ true
    → value_of c (assign_all identity columns coerced cells) ≡ value_of c cells
assign_all-value c identity columns [] cells h = refl
assign_all-value c identity columns ((key, value) ∷ rest) cells h =
    elim (Bool-cases (text_among key identity)) [
      | inl own ↦ rw own (assign_all-value c identity columns rest cells h)
      | inr other ↦ elim (Bool-cases (is_column columns key)) [
        | inr no_column ↦ rw (other, no_column) (assign_all-value c identity columns rest cells h)
        | inl column ↦
            rw (other, column)
              (assign_all-value c identity columns rest (put key value cells) h
                ∙ ap flat (get-put_ne key c value cells (not_among key c identity other h)))
      ]
    ]

pub assign_all-Agree :
    (cs identity : List String) (columns : List Column) (coerced cells : Cells)
    → All (λ c. text_among c identity ≡ true) cs
    → Agree cs (assign_all identity columns coerced cells) cells
assign_all-Agree [] identity columns coerced cells h = tt
assign_all-Agree (c ∷ cs) identity columns coerced cells h = (
  assign_all-value c identity columns coerced cells h.0,
  assign_all-Agree cs identity columns coerced cells h.1,
)

pub identity-All :
    (e : Entity) → All (λ c. text_among c (spec_of e).identity ≡ true) (spec_of e).identity
identity-All Entity.item = (refl, tt)
identity-All Entity.warehouse = (refl, tt)
identity-All Entity.supplier = (refl, tt)
identity-All Entity.item_supplier = (refl, (refl, tt))
identity-All Entity.stock_level = (refl, (refl, tt))
identity-All Entity.price = (refl, (refl, tt))
identity-All Entity.lead_time = (refl, (refl, tt))
identity-All Entity.consumption = (refl, (refl, tt))
identity-All Entity.production_demand = (refl, (refl, tt))
identity-All Entity.quality_record = (refl, (refl, (refl, tt)))
identity-All Entity.purchase_order = (refl, tt)
