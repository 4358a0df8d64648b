-- ===== src/SourceFields/Counts.antt =====
-- How many rows describe_and_store of src/app/integration/service.py stores for a path.
use smart_procurement_backen.Prelude.{
  ℕ, suc, ◌+◌, ◌≤◌, ◌≡◌, refl, ap, String, Bool, true, false, ◌&&◌, Option, none, some, List, [],
  ◌∷◌, if◌then◌else◌, ◌==◌, ==_refl, str_eq, eq_iff, any, Bool-cases, inl, inr, arith, length,
  length-append,
}
use smart_procurement_backen.Errors.{Result, ok, err}
use smart_procurement_backen.Table.{select}
use smart_procurement_backen.Table.Select.{select-append}
use smart_procurement_backen.Table.Update.{length-select-update_same}
use smart_procurement_backen.Models.Basic.{RowId}
use smart_procurement_backen.Models.Integration.{SourceField}
use smart_procurement_backen.Session.{Session, after, pure, ◌>>=◌}
use smart_procurement_backen.SourceFields.{
  Discovered, has_path, find_path, has_field_id, described_as, new_field, store_field, store_fields,
  has_duplicate,
}

-- How many rows a source has for a path.
abbrev pub count : RowId → String → List SourceField → ℕ
count source path fs = length (select (has_path source path) fs)

abbrev pub IsUnique : List SourceField → Type 0
IsUnique fs = (source : RowId) (path : String) → count source path fs ≤ 1

abbrev pub names : String → Discovered → Bool
names path field = str_eq field.path path

abbrev pub IsDistinct : List Discovered → Type 0
IsDistinct [] = Unit
IsDistinct (field ∷ fields) = (any (names field.path) fields ≡ false) × IsDistinct fields

-- Uniqueness, and the test of the flush.
member-count :
    (source : RowId) (path : String) (fs : List SourceField)
    → any (has_path source path) fs ≡ true
    → 1 ≤ count source path fs
member-count source path [] h = cc
member-count source path (f ∷ fs) h = elim (Bool-cases (has_path source path f)) [
  | inl e ↦ rw e (omega arith)
  | inr e ↦ rw e (member-count source path fs (rw e at h))
]

has_path_self : (f : SourceField) → has_path f.data_source_id f.path f ≡ true
has_path_self f = rw (==_refl f.data_source_id, (eq_iff f.path f.path).1 refl) refl

tail-IsUnique : (f : SourceField) (fs : List SourceField) → IsUnique (f ∷ fs) → IsUnique fs
tail-IsUnique f fs h source path = elim (Bool-cases (has_path source path f)) [
  | inl e ↦ let k = rw e at (h source path) in omega (arith, k)
  | inr e ↦ rw e at (h source path)
]

pub IsUnique-flush : (fs : List SourceField) → IsUnique fs → has_duplicate fs ≡ false
IsUnique-flush [] h = refl
IsUnique-flush (f ∷ fs) h = elim (Bool-cases (any (has_path f.data_source_id f.path) fs)) [
  | inr e ↦ rw e (IsUnique-flush fs (tail-IsUnique f fs h))
  | inl e ↦
      let more = member-count f.data_source_id f.path fs e in
      let k = rw (has_path_self f) at (h f.data_source_id f.path) in absurd (omega (arith, more, k))
]

-- The rows that storing a field adds for a source and a path.
abbrev pub fresh : RowId → Discovered → Option SourceField → RowId → String → ℕ
fresh source field none d p = if source == d && str_eq field.path p then 1 else 0
fresh source field (some row) d p = 0

abbrev pub total : RowId → List SourceField → List Discovered → RowId → String → ℕ
total source existing [] d p = 0
total source existing (field ∷ fields) d p =
    fresh source field (find_path field.path existing) d p + total source existing fields d p

-- What storing adds, and that it returns.
abbrev Adds : (RowId → String → ℕ) → Session → Result RowId × Session → Type 0
Adds more s (ok a, t) =
    (d : RowId) (p : String) → count d p t.source_fields ≡ count d p s.source_fields + more d p
Adds more s (err e, t) = ⊥

new_field-count :
    (source : RowId) (field : Discovered) (id : RowId) (d : RowId) (p : String)
    → count d p (new_field source field id ∷ []) ≡ fresh source field none d p
new_field-count source field id d p = elim (Bool-cases (source == d && str_eq field.path p)) [
  | inl e ↦ rw e refl
  | inr e ↦ rw e refl
]

store_field-Adds :
    (source : RowId) (field : Discovered) (found : Option SourceField) (s : Session)
    → Adds (fresh source field found) s (store_field source field found s)
unfolding store_field
store_field-Adds source field none s = λ d p.
    rw
      (select-append (has_path d p) s.source_fields (new_field source field (s.uuids s.drawn) ∷ []))
      (omega (
        arith,
        length-append (select (has_path d p) s.source_fields)
            (select (has_path d p) (new_field source field (s.uuids s.drawn) ∷ [])),
        new_field-count source field (s.uuids s.drawn) d p,
      ))
store_field-Adds source field (some row) s = λ d p. omega (
  arith,
  length-select-update_same (has_field_id row.id) (described_as field) (has_path d p)
      (λ x hit. refl) s.source_fields,
)

-- The loop: as many ids as fields, and the rows added one by one.
abbrev pub Stores : ℕ → (RowId → String → ℕ) → Session → Result (List RowId) × Session → Type 0
Stores n more s (ok ids, t) =
    (length ids ≡ n)
    × ((d : RowId) (p : String) → count d p t.source_fields ≡ count d p s.source_fields + more d p)
Stores n more s (err e, t) = ⊥

pub store_fields-Stores :
    (source : RowId) (existing : List SourceField) (fields : List Discovered) (s : Session)
    → Stores
        (length fields)
        (total source existing fields)
        s
        (store_fields source existing fields s)
unfolding store_fields
store_fields-Stores source existing [] s = (refl, λ d p. omega arith)
store_fields-Stores source existing (field ∷ fields) s =
    first (store_field source field (find_path field.path existing) s)
      (store_field-Adds source field (find_path field.path existing) s)
      (store_fields-Stores source existing fields)
  where
    rest :
        (id : RowId) (t : Session) (r : Result (List RowId) × Session)
        → Adds (fresh source field (find_path field.path existing)) s (ok id, t)
        → Stores (length fields) (total source existing fields) t r
        → Stores
            (suc (length fields))
            (total source existing (field ∷ fields))
            s
            (after (λ ids. pure (id ∷ ids)) r)
    rest id t (err e, u) h k = k
    rest id t (ok ids, u) h (n, k) = (ap suc n, λ d p. omega (arith, h d p, k d p))

    first :
        (r : Result RowId × Session)
        → Adds (fresh source field (find_path field.path existing)) s r
        → ((t : Session)
            → Stores
                (length fields)
                (total source existing fields)
                t
                (store_fields source existing fields t))
        → Stores
            (suc (length fields))
            (total source existing (field ∷ fields))
            s
            (after (λ id. store_fields source existing fields >>= λ ids. pure (id ∷ ids)) r)
    first (err e, t) h later = h
    first (ok id, t) h later = rest id t (store_fields source existing fields t) h (later t)
