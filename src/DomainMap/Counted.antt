-- ===== src/DomainMap/Counted.antt =====
-- About the numbers and sources that domain_map of src/app/domain/map_service.py shows.
use smart_procurement_backen.Prelude.{
  any-sorted_texts, ℕ, ◌+◌, ◌≡◌, refl, ap, ◌∙◌, String, Bool, true, false, not, ◌&&◌, List, [], ◌∷◌,
  map, if◌then◌else◌, ◌==◌, str_eq, any, length, All, Bool-cases, inl, inr, arith,
}
use smart_procurement_backen.Errors.{Result, ok, err}
use smart_procurement_backen.Table.{select}
use smart_procurement_backen.Models.Basic.{RowId}
use smart_procurement_backen.Models.Domain.{Entity, Observability, EntityRow}
use smart_procurement_backen.Session.{Session}
use smart_procurement_backen.Pagination.{is_empty}
use smart_procurement_backen.DomainMap.{entities, same_entity}
use smart_procurement_backen.DomainMap.Overview.{
  same_state, Summary, Overview, is_counted, summary, domain_map,
}
use smart_procurement_backen.DomainMap.Groups.{number, sum-group_states, number-group_states}
use smart_procurement_backen.DomainMap.Sources.{any-nonempty, any-map}

abbrev pub is_owned : RowId → EntityRow → Bool
is_owned enterprise_id row = row.enterprise_id == enterprise_id

-- The counts of a row and of a table in the tables of several entities.
abbrev share : List Entity → Entity → Bool → ℕ
share [] class own = 0
share (x ∷ xs) class own = (if same_entity class x && own then 1 else 0) + share xs class own

abbrev shares : RowId → List Entity → List EntityRow → ℕ
shares e [] rows = 0
shares e (x ∷ xs) rows = length (select (is_counted e x) rows) + shares e xs rows

shares-nil : (e : RowId) (xs : List Entity) → shares e xs [] ≡ 0
shares-nil e [] = refl
shares-nil e (x ∷ xs) = omega (arith, shares-nil e xs)

shares-cons :
    (e : RowId) (xs : List Entity) (row : EntityRow) (rows : List EntityRow)
    → shares e xs (row ∷ rows) ≡ share xs row.entity (is_owned e row) + shares e xs rows
shares-cons e [] row rows = refl
shares-cons e (x ∷ xs) row rows = elim (Bool-cases (is_counted e x row)) [
  | inl h ↦ rw h (omega (arith, shares-cons e xs row rows))
  | inr h ↦ rw h (omega (arith, shares-cons e xs row rows))
]

-- A row is in the table of one entity.
share-once : (class : Entity) (own : Bool) → share entities class own ≡ (if own then 1 else 0)
share-once class true = ground arith
share-once class false = ground arith

shares-all :
    (e : RowId) (rows : List EntityRow) → shares e entities rows ≡ length (select (is_owned e) rows)
shares-all e [] = shares-nil e entities
shares-all e (row ∷ rows) = shares-cons e entities row rows ∙ elim (Bool-cases (is_owned e row)) [
  | inl h ↦
      let k = rw h at (share-once row.entity (is_owned e row)) in
      rw h (omega (arith, k, shares-all e rows))
  | inr h ↦
      let k = rw h at (share-once row.entity (is_owned e row)) in
      rw h (omega (arith, k, shares-all e rows))
]

abbrev pub total : List Summary → ℕ
total [] = 0
total (x ∷ xs) = x.count + total xs

-- What the entry of an entity shows: how many of the enterprise's rows there are in its table, in all
-- and in each state, and which texts of sources they have.
module _ (str : RowId → String) where
  abbrev pub is_from : String → EntityRow → Bool
  is_from x row = str_eq x (str row.provenance.data_source_id)

  abbrev pub Summarises : RowId → List EntityRow → Summary → Type 0
  Summarises enterprise_id table x =
      let rows = select (is_counted enterprise_id x.entity) table in
      (x.count ≡ length rows)
      × ((o : Observability)
          → number o x.observability
            ≡ length (select (λ (row : EntityRow). same_state row.observability o) rows))
      × ((text : String)
          → any (str_eq text) x.sources ≡ (not (is_empty text) && any (is_from text) rows))

  summary-Summarises :
      (e : RowId) (table : List EntityRow) (x : Entity) → Summarises e table (summary str e table x)
  summary-Summarises e table x = (
    sum-group_states (select (is_counted e x) table),
    λ o. number-group_states o (select (is_counted e x) table),
    λ text.
        any-sorted_texts (str_eq text) _
        ∙ any-nonempty text _
        ∙ ap (λ b. not (is_empty text) && b)
            (any-map (λ (row : EntityRow). str row.provenance.data_source_id) (str_eq text)
              (select (is_counted e x) table)),
  )

  summaries-Summarises :
      (e : RowId) (table : List EntityRow) (xs : List Entity)
      → All (Summarises e table) (map (summary str e table) xs)
  summaries-Summarises e table [] = tt
  summaries-Summarises e table (x ∷ xs) =
      (summary-Summarises e table x, summaries-Summarises e table xs)

  total-summaries :
      (e : RowId) (table : List EntityRow) (xs : List Entity)
      → total (map (summary str e table) xs) ≡ shares e xs table
  total-summaries e table [] = refl
  total-summaries e table (x ∷ xs) =
      omega (arith, sum-group_states (select (is_counted e x) table), total-summaries e table xs)

  -- One entry for each entity, in the order of the registry, and all rows of the enterprise counted.
  abbrev pub Shows : RowId → Session → Result Overview × Session → Type 0
  Shows enterprise_id s (ok o, t) =
      (t ≡ s)
      × (map (λ (x : Summary). x.entity) o.entities ≡ entities)
      × All (Summarises enterprise_id s.entities) o.entities
      × (total o.entities ≡ length (select (is_owned enterprise_id) s.entities))
  Shows enterprise_id s (err e, t) = ⊥

  -- The map changes nothing. It has one entry for each entity, which counts the rows of its table that
  -- are of the enterprise, in all and by state, and lists the texts, but for the empty one, of the
  -- sources that these rows came from. The counts of the entries add up to the rows of the enterprise.
  pub domain_map-Shows :
      (enterprise_id : RowId) (s : Session) → Shows enterprise_id s (domain_map str enterprise_id s)
  unfolding domain_map
  domain_map-Shows e s = (
    refl,
    refl,
    summaries-Summarises e s.entities entities,
    total-summaries e s.entities entities ∙ shares-all e s.entities,
  )
