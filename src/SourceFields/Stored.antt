-- ===== src/SourceFields/Stored.antt =====
-- About the rows that describe_and_store of src/app/integration/service.py leaves.
use smart_procurement_backen.Prelude.{
  and_parts, ℕ, ◌+◌, ◌≤◌, ◌≡◌, refl, ap, ◌∙◌, String, Bool, true, false, ◌&&◌, Option, none, some,
  List, [], ◌∷◌, if◌then◌else◌, ◌==◌, ==_iff, str_eq, any, Bool-cases, inl, inr, ◌⊎◌, arith, length,
  is_none,
}
use smart_procurement_backen.Errors.{Result, ok, err}
use smart_procurement_backen.Table.{select}
use smart_procurement_backen.Models.Basic.{RowId}
use smart_procurement_backen.Models.Integration.{DataSource, SourceField}
use smart_procurement_backen.Session.{Session, after, require_one-single}
use smart_procurement_backen.Mappings.{is_owned_source}
use smart_procurement_backen.DataSources.{get_data_source}
use smart_procurement_backen.DataSources.Connection.{Vault, load_credential}
use smart_procurement_backen.SourceFields.{
  Discovered, Description, is_of_source, or_field, find_path, store_fields, flush_fields,
  store_described, describe_and_store,
}
use smart_procurement_backen.SourceFields.Counts.{
  count, IsUnique, names, IsDistinct, IsUnique-flush, total, Stores, store_fields-Stores,
}
use smart_procurement_backen.SourceFields.Totals.{is_new, total-is_new}

or_field-present : (a b : Option SourceField) → is_none a ≡ false → is_none (or_field a b) ≡ false
or_field-present none b h = cc
or_field-present (some x) b h = refl

-- What the dict of the rows of the source has.
find_path-count :
    (source : RowId) (p : String) (fs : List SourceField)
    → ((find_path p (select (is_of_source source) fs) ≡ none) × (count source p fs ≡ 0))
      ⊎ ((is_none (find_path p (select (is_of_source source) fs)) ≡ false)
          × (1 ≤ count source p fs))
find_path-count source p [] = inl (refl, refl)
find_path-count source p (f ∷ fs) = elim (Bool-cases (f.data_source_id == source)) [
  | inr e ↦ rw e (find_path-count source p fs)
  | inl e ↦ elim (find_path-count source p fs) [
    | inl (absent, zero_) ↦ elim (Bool-cases (str_eq f.path p)) [
      | inl t ↦ rw (e, t, absent) (inr (refl, omega arith))
      | inr t ↦ rw (e, t, absent) (inl (refl, zero_))
    ]
    | inr (present, some_) ↦
        let more =
          or_field-present (find_path p (select (is_of_source source) fs))
            (if str_eq f.path p then some f else none) present in
        rw e (
          inr (
            more,
            elim (Bool-cases (str_eq f.path p)) [
              | inl t ↦ rw t (omega (arith, some_))
              | inr t ↦ rw t some_
            ],
          ))
  ]
]

counted :
    (source : RowId) (fields : List Discovered) (fs : List SourceField) (d : RowId) (p : String)
    → count d p fs ≤ 1
    → count d p fs + is_new source (select (is_of_source source) fs) fields d p
      ≡ (if source == d && any (names p) fields then 1 else count d p fs)
counted source fields fs d p h = elim (Bool-cases (source == d && any (names p) fields)) [
  | inr off ↦ rw off (omega arith)
  | inl on ↦
      let same = (==_iff source d).0 (and_parts (source == d) (any (names p) fields) on).0 in
      let here = ap (λ x. count x p fs) same in
      elim (find_path-count source p fs) [
        | inl (absent, zero_) ↦ rw (on, absent) (omega (arith, here, zero_))
        | inr (present, some_) ↦ rw (on, present) (omega (arith, here, some_, h))
      ]
]

-- As many ids as fields; a path that was discovered for the source has one row, any other as many as
-- before; and no path has two.
abbrev pub Describes : RowId → List Discovered → Session → Result (List RowId) × Session → Type 0
Describes source fields s (ok ids, t) =
    (length ids ≡ length fields)
    × ((d : RowId) (p : String)
        → count d p t.source_fields
          ≡ (if source == d && any (names p) fields then 1 else count d p s.source_fields))
Describes source fields s (err e, t) = ⊥

if-le-one : (b : Bool) (n : ℕ) → n ≤ 1 → (if b then 1 else n) ≤ 1
if-le-one true n h = omega arith
if-le-one false n h = h

store_described-Describes :
    (source : RowId) (fields : List Discovered) (s : Session)
    → IsUnique s.source_fields
    → IsDistinct fields
    → Describes source fields s (store_described source (Description.described fields) s)
unfolding store_described flush_fields
store_described-Describes source fields s unique distinct =
    go (store_fields source existing fields s) (store_fields-Stores source existing fields s)
  where
    existing : List SourceField
    existing = select (is_of_source source) s.source_fields

    go :
        (r : Result (List RowId) × Session)
        → Stores (length fields) (total source existing fields) s r
        → Describes source fields s (after flush_fields r)
    go (err e, t) h = h
    go (ok ids, t) (n, h) =
        let counts : (d : RowId) (p : String)
            → count d p t.source_fields
              ≡ (if source == d && any (names p) fields then 1 else count d p s.source_fields) =
          λ d p.
            h d p
            ∙ ap (λ k. count d p s.source_fields + k)
                (total-is_new source existing fields d p distinct)
            ∙ counted source fields s.source_fields d p (unique d p) in
        let fine = IsUnique-flush t.source_fields (λ d p. rw (counts d p) (
          if-le-one (source == d && any (names p) fields) (count d p s.source_fields)
            (unique d p))) in
        rw fine (n, counts)

module _ (vault : Vault) (describe : DataSource → Option String → Description) where
  -- Where a source has at most one row for a path, the connector of the only such source is described by
  -- fields of distinct paths and its credential loads: the call returns as many rows as fields; then each
  -- discovered path has exactly one row of the source, and every other path and source as many as before.
  pub describe_and_store-Describes :
      (enterprise_id data_source_id : RowId) (ds : DataSource) (credential : Option String)
      (fields : List Discovered) (s : Session)
      → IsUnique s.source_fields
      → IsDistinct fields
      → select (is_owned_source enterprise_id data_source_id) s.data_sources ≡ ds ∷ []
      → load_credential vault ds.credential_ref s ≡ (ok credential, s)
      → describe ds credential ≡ Description.described fields
      → Describes ds.id fields s (describe_and_store vault describe enterprise_id data_source_id s)
  unfolding describe_and_store get_data_source
  describe_and_store-Describes e i ds credential fields s unique distinct one loaded answers =
      rw (one, require_one-single ds s, after)
        (rw (loaded, after) (rw answers (store_described-Describes ds.id fields s unique distinct)))
