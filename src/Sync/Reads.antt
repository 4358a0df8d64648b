-- ===== src/Sync/Reads.antt =====
-- About the references that src/app/integration/sync.py resolves: resolving only reads.
use smart_procurement_backen.Prelude.{
  ◌≡◌, refl, String, Option, none, some, List, [], ◌∷◌, Bool-cases, inl, inr,
}
use smart_procurement_backen.Prelude.Dict.{get}
use smart_procurement_backen.Table.{select}
use smart_procurement_backen.Models.Basic.{RowId}
use smart_procurement_backen.Models.Domain.{EntityRow}
use smart_procurement_backen.Session.{Session, Exec, after}
use smart_procurement_backen.Sync.Specs.{Resolved, Reference, EntitySpec, required_identity}
use smart_procurement_backen.Sync.References.{
  Cache, Resolution, raw_text, find_cached, text_among, fk_column, is_master, resolve_found,
  resolve_uncached, resolve_one, resolve_each, resolve_refs,
}

-- Resolving references only reads.
abbrev Reads : (Resolved → Cache → Exec Resolution) → Type 0
Reads next = (resolved : Resolved) (cache : Cache) (s : Session) → (next resolved cache s).1 ≡ s

resolve_found-Reads :
    (sp : EntitySpec) (r : Reference) (key : String) (resolved : Resolved) (cache : Cache)
    (next : Resolved → Cache → Exec Resolution) (found : Option EntityRow) (s : Session)
    → Reads next
    → (resolve_found sp r key resolved cache next found s).1 ≡ s
unfolding resolve_found
resolve_found-Reads sp r key resolved cache next (some row) s h = h _ _ s
resolve_found-Reads sp r key resolved cache next none s h =
    elim (Bool-cases (text_among (fk_column r.target) (required_identity sp))) [
      | inl needed ↦ rw needed refl
      | inr optional ↦ rw optional (h resolved cache s)
    ]

resolve_one-Reads :
    (i : RowId) (sp : EntitySpec) (r : Reference) (raw : Option String)
    (next : Resolved → Cache → Exec Resolution)
    → Reads next
    → Reads (λ resolved cache. resolve_one i sp r raw resolved cache next)
unfolding resolve_one resolve_uncached
resolve_one-Reads i sp r none next h resolved cache s = h resolved cache s
resolve_one-Reads i sp r (some key) next h resolved cache s =
    go (find_cached r.target key cache) (select (is_master i r key) s.entities) refl
  where
    go :
        (cached : Option RowId) (rows : List EntityRow)
        → select (is_master i r key) s.entities ≡ rows
        → (resolve_uncached i sp r key resolved cache next cached s).1 ≡ s
    go (some id) rows e = h _ _ s
    go none [] e = rw (e, after) (resolve_found-Reads sp r key resolved cache next none s h)
    go none (row ∷ []) e =
        rw (e, after) (resolve_found-Reads sp r key resolved cache next (some row) s h)
    go none (row ∷ row' ∷ rows) e = rw (e, after) refl

resolve_each-Reads :
    (i : RowId) (sp : EntitySpec) (refs : List Reference) (attrs : Resolved)
    → Reads (resolve_each i sp refs attrs)
unfolding resolve_each
resolve_each-Reads i sp [] attrs resolved cache s = refl
resolve_each-Reads i sp (r ∷ refs) attrs resolved cache s =
    resolve_one-Reads i sp r (raw_text (get r.in_attr attrs)) (resolve_each i sp refs attrs)
      (resolve_each-Reads i sp refs attrs) resolved cache s

pub resolve_refs-reads :
    (i : RowId) (sp : EntitySpec) (attrs : Resolved) (cache : Cache) (s : Session)
    → (resolve_refs i sp attrs cache s).1 ≡ s
unfolding resolve_refs
resolve_refs-reads i sp attrs cache s = resolve_each-Reads i sp sp.refs attrs _ cache s
