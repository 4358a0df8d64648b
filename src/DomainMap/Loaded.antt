-- ===== src/DomainMap/Loaded.antt =====
-- About the rows that src/app/domain/map_service.py loads for references and for the names of sources.
use mathlib.Core.Path.{subst}
use smart_procurement_backen.Prelude.{
  and_parts, ℕ, ◌≡◌, refl, sym, ap, ◌∙◌, if◌then◌else◌, String, true, ◌&&◌, Option, none, some,
  List, [], ◌∷◌, ◌==◌, ==_iff, any, Bool-cases, inl, inr, IsIn, All, All-map, drop, zero, suc,
}
use smart_procurement_backen.Table.Select.{select-All_if}
use smart_procurement_backen.Models.Basic.{RowId}
use smart_procurement_backen.Models.Integration.{DataSource}
use smart_procurement_backen.Models.Domain.{Entity, Cell, ref, EntityRow}
use smart_procurement_backen.Session.{Session}
use smart_procurement_backen.Sync.References.{value_of}
use smart_procurement_backen.Sync.Keyed.{entity_index-eq}
use smart_procurement_backen.DomainMap.{
  same_entity, Reference, or_else, find_row, is_wanted, ids_by_entity, load, id_in,
}
use smart_procurement_backen.DomainMap.Rows.{ShownRow, is_named, name_in, or_name, get_source_names}

pub All-IsIn {ℓ} : {A : Type ℓ} (xs : List A) → All (λ x. IsIn x xs) xs
All-IsIn [] = tt
All-IsIn (x ∷ xs) = (
  IsIn.here,
  All-map (λ y. IsIn y xs) (λ y. IsIn y (x ∷ xs)) (λ y i. IsIn.there i) xs (All-IsIn xs),
)

-- A row of the table, of the class and of the enterprise.
abbrev pub IsOwned : RowId → Entity → List EntityRow → EntityRow → Type 0
IsOwned enterprise_id entity table row =
    IsIn row table × (row.entity ≡ entity) × (row.enterprise_id ≡ enterprise_id)

wanted-IsOwned :
    (e : RowId) (target : Entity) (ids : List RowId) (table : List EntityRow) (row : EntityRow)
    → IsIn row table
    → is_wanted e target ids row ≡ true
    → IsOwned e target table row
wanted-IsOwned e target ids table row i h =
    let (owns, listed) =
      and_parts (same_entity row.entity target && row.enterprise_id == e)
        (any (λ id. row.id == id) ids) h in
    let (class, own) = and_parts (same_entity row.entity target) (row.enterprise_id == e) owns in
    (i, entity_index-eq row.entity target class, (==_iff row.enterprise_id e).0 own)

pub load-IsOwned :
    (e : RowId) (cols : List (String × Entity)) (rows table : List EntityRow) (target : Entity)
    → All (IsOwned e target table) (load e cols rows table target)
load-IsOwned e cols rows table target =
    select-All_if (is_wanted e target ids) (IsOwned e target table) table (
      All-map (λ row. IsIn row table)
        (λ row. is_wanted e target ids row ≡ true → IsOwned e target table row)
        (λ row i. wanted-IsOwned e target ids table row i) table (All-IsIn table))
  where
    ids : List RowId
    ids = ids_by_entity target cols rows

-- What is found has the id.
pub find_row-All :
    (P : EntityRow → Type 0) (id : RowId) (rows : List EntityRow) (m : EntityRow)
    → All P rows
    → find_row id rows ≡ some m
    → P m × (m.id ≡ id)
find_row-All P id [] m h e = cc
find_row-All P id (row ∷ rows) m h e = go (find_row id rows) refl (find_row-All P id rows m h.1) e
  where
    go :
        (found : Option EntityRow)
        → find_row id rows ≡ found
        → (find_row id rows ≡ some m → P m × (m.id ≡ id))
        → or_else found (if row.id == id then some row else none) ≡ some m
        → P m × (m.id ≡ id)
    go (some x) same later e' = later (same ∙ e')
    go none same later e' = elim (Bool-cases (row.id == id)) [
      | inr t ↦ cc (rw t at e')
      | inl t ↦
          let same_row : row ≡ m = cc (rw t at e') in
          (
            subst P same_row h.0,
            sym (ap (λ (x : EntityRow). x.id) same_row) ∙ (==_iff row.id id).0 t,
          )
    ]

-- A reference under a column: of a row of the enterprise with the id that the column holds.
abbrev pub IsReference : RowId → List EntityRow → EntityRow → String × Reference → Type 0
IsReference enterprise_id table row (name, r) =
    (value_of name row.cells ≡ some (ref r.id))
    × ((m : EntityRow) × IsOwned enterprise_id r.entity table m × (m.id ≡ r.id))

pub id_in-ref : (v : Option Cell) (id : RowId) → id_in v ≡ some id → v ≡ some (ref id)
id_in-ref (some (ref x)) id e = cc
id_in-ref none id e = cc
id_in-ref (some _) id e = cc

-- A name that is found is the one of a source with the id.
pub name_in-All :
    (P : DataSource → Type 0) (id : RowId) (sources : List DataSource) (n : String)
    → All P sources
    → name_in id sources ≡ some n
    → (ds : DataSource) × P ds × (ds.id ≡ id) × (ds.name ≡ n)
name_in-All P id [] n h e = cc
name_in-All P id (ds ∷ sources) n h e =
    go (name_in id sources) refl (name_in-All P id sources n h.1) e
  where
    go :
        (found : Option String)
        → name_in id sources ≡ found
        → (name_in id sources ≡ some n
            → (ds' : DataSource) × P ds' × (ds'.id ≡ id) × (ds'.name ≡ n))
        → or_name found (if ds.id == id then some ds.name else none) ≡ some n
        → (ds' : DataSource) × P ds' × (ds'.id ≡ id) × (ds'.name ≡ n)
    go (some x) same later e' = later (same ∙ e')
    go none same later e' = elim (Bool-cases (ds.id == id)) [
      | inr t ↦ cc (rw t at e')
      | inl t ↦ (ds, h.0, (==_iff ds.id id).0 t, cc (rw t at e'))
    ]

-- A source name: of a source of the enterprise with the id that the provenance of the row has.
abbrev pub IsNamed : RowId → List DataSource → ShownRow → Type 0
IsNamed enterprise_id sources shown =
    (n : String)
    → shown.provenance.data_source_name ≡ some n
    → (ds : DataSource) × IsIn ds sources
      × (ds.enterprise_id ≡ enterprise_id)
      × (ds.id ≡ shown.row.provenance.data_source_id)
      × (ds.name ≡ n)

pub sources-All :
    (e : RowId) (ids : List RowId) (sources : List DataSource)
    → All (λ ds. IsIn ds sources × (ds.enterprise_id ≡ e)) (get_source_names e ids sources)
unfolding get_source_names
sources-All e ids sources =
    select-All_if (is_named e ids) (λ ds. IsIn ds sources × (ds.enterprise_id ≡ e)) sources
      (All-map (λ ds. IsIn ds sources)
        (λ ds. is_named e ids ds ≡ true → IsIn ds sources × (ds.enterprise_id ≡ e))
        (λ ds i h.
          let (own, listed) = and_parts (ds.enterprise_id == e) (any (λ id. ds.id == id) ids) h in
          (i, (==_iff ds.enterprise_id e).0 own))
        sources (All-IsIn sources))

-- A row as it is shown.
abbrev pub IsShown : RowId → Entity → Session → ShownRow → Type 0
IsShown enterprise_id entity s shown =
    IsOwned enterprise_id entity s.entities shown.row
    × All (IsReference enterprise_id s.entities shown.row) shown.references
    × IsNamed enterprise_id s.data_sources shown

pub IsIn-All {ℓ κ} :
    {A : Type ℓ} (P : A → Type κ) (a : A) (xs : List A) → All P xs → IsIn a xs → P a
IsIn-All P a [] h i = elim i [ ]
IsIn-All P a (_ ∷ xs) h IsIn.here = h.0
IsIn-All P a (x ∷ xs) h (IsIn.there i) = IsIn-All P a xs h.1 i

pub All-drop {ℓ κ} :
    {A : Type ℓ} (P : A → Type κ) (n : ℕ) (xs : List A) → All P xs → All P (drop n xs)
All-drop P zero xs h = h
All-drop P (suc n) [] h = h
All-drop P (suc n) (x ∷ xs) h = All-drop P n xs h.1
