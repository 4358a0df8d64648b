-- ===== src/Observability/Idempotent.antt =====
-- About single and repeated calls of open and close of src/app/observation/observability.py.
use smart_procurement_backen.Prelude.{
  ◌+◌, ◌≡◌, refl, ap, true, false, List, [], ◌∷◌, ◌++◌, ◌==◌, ==_refl, eq_iff, arith, Bool-cases,
  inl, inr,
}
use smart_procurement_backen.Errors.{ok}
use smart_procurement_backen.Table.{select, update}
use smart_procurement_backen.Table.Select.{select-append, select-none, select-eq-one}
use smart_procurement_backen.Table.Update.{All-update}
use smart_procurement_backen.Models.Basic.{RowId, Time}
use smart_procurement_backen.Models.Observation.{
  Scope, ScopeRef, source_ref, key_ref, GapReason, ObservabilityGap,
}
use smart_procurement_backen.Session.{Session, after}
use smart_procurement_backen.Observability.{
  GapKey, is_current, current, new_gap, add_gap, existing_or_new, open_gap, closed, has_gap_id,
  close_found, close_gap, same_scope, same_scope_ref, same_reason,
}
use smart_procurement_backen.Observability.Unique.{IsUnique, closed-off}

pub same_ref_refl : (a : ScopeRef) → same_scope_ref a a ≡ true
same_ref_refl (source_ref a) = ==_refl a
same_ref_refl (key_ref a) = (eq_iff a a).1 refl

pub same_scope_refl : (a : Scope) → same_scope a a ≡ true
same_scope_refl a = ground arith

pub same_reason_refl : (a : GapReason) → same_reason a a ≡ true
same_reason_refl a = ground arith

pub new_gap-current : (k : GapKey) (id : RowId) (at : Time) → is_current k (new_gap k id at) ≡ true
new_gap-current k id at =
    rw
      (
        ==_refl k.enterprise_id,
        same_scope_refl k.scope,
        same_ref_refl k.scope_ref,
        same_reason_refl k.reason,
      )
      refl

pub open_gap-some :
    (k : GapKey) (g : ObservabilityGap) (s : Session)
    → select (is_current k) s.gaps ≡ g ∷ []
    → open_gap k s ≡ (ok g, s)
unfolding open_gap current existing_or_new
open_gap-some k g s e = rw (e, after) refl

-- The session once a new gap was added.
abbrev pub with_gap : ObservabilityGap → Session → Session
with_gap g s = record s {
  db = record s.db { gaps = s.gaps ++ (g ∷ []) };
  ticks = s.ticks + 1;
  drawn = s.drawn + 1;
}

pub open_gap-none :
    (k : GapKey) (s : Session)
    → select (is_current k) s.gaps ≡ []
    → let g = new_gap k (s.uuids s.drawn) (s.clock s.ticks) in open_gap k s ≡ (ok g, with_gap g s)
unfolding open_gap current existing_or_new add_gap
open_gap-none k s e = rw (e, after) refl

-- The session once a gap was closed.
abbrev pub without_gap : ObservabilityGap → Session → Session
without_gap g s = record s {
  db = record s.db { gaps = update (has_gap_id g.id) (λ _. closed (s.clock s.ticks) g) s.gaps };
  ticks = s.ticks + 1;
}

pub close_gap-some :
    (k : GapKey) (g : ObservabilityGap) (s : Session)
    → select (is_current k) s.gaps ≡ g ∷ []
    → close_gap k s ≡ (ok tt, without_gap g s)
unfolding close_gap current close_found
close_gap-some k g s e = rw (e, after) refl

pub close_gap-none :
    (k : GapKey) (s : Session) → select (is_current k) s.gaps ≡ [] → close_gap k s ≡ (ok tt, s)
unfolding close_gap current close_found
close_gap-none k s e = rw (e, after) refl

pub too_many :
    (k : GapKey) (gaps : List ObservabilityGap) (g g' : ObservabilityGap)
    (gs : List ObservabilityGap)
    → IsUnique gaps
    → select (is_current k) gaps ≡ g ∷ g' ∷ gs
    → ⊥
too_many k gaps g g' gs h e = absurd (omega (arith, rw e at (h k)))

-- Where at most one gap is open for each key, opening returns the gap that is then open for the key,
-- and opening again returns the same one and changes nothing.
pub open_gap-again :
    (k : GapKey) (s : Session)
    → IsUnique s.gaps
    → let s' = (open_gap k s).1 in
      (g : ObservabilityGap) × ((open_gap k s).0 ≡ ok g)
      × (select (is_current k) s'.gaps ≡ g ∷ [])
      × (open_gap k s' ≡ (ok g, s'))
open_gap-again k s h = go (select (is_current k) s.gaps) refl
  where
    go :
        (rows : List ObservabilityGap)
        → select (is_current k) s.gaps ≡ rows
        → let s' = (open_gap k s).1 in
          (g : ObservabilityGap) × ((open_gap k s).0 ≡ ok g)
          × (select (is_current k) s'.gaps ≡ g ∷ [])
          × (open_gap k s' ≡ (ok g, s'))
    go [] e =
        let g = new_gap k (s.uuids s.drawn) (s.clock s.ticks) in
        let t = with_gap g s in
        let one : select (is_current k) t.gaps ≡ g ∷ [] =
          rw (select-append (is_current k) s.gaps (g ∷ []))
            (rw (e, new_gap-current k (s.uuids s.drawn) (s.clock s.ticks)) refl) in
        rw (open_gap-none k s e) (g, refl, one, open_gap-some k g t one)
    go (g ∷ []) e = rw (open_gap-some k g s e) (g, refl, e, open_gap-some k g s e)
    go (g ∷ g' ∷ gs) e = absurd (too_many k s.gaps g g' gs h e)

-- Once the only current row is closed, none is current.
pub closed-nil :
    (k : GapKey) (g : ObservabilityGap) (at : Time) (gaps : List ObservabilityGap)
    → select (is_current k) gaps ≡ g ∷ []
    → select (is_current k) (update (has_gap_id g.id) (λ _. closed at g) gaps) ≡ []
closed-nil k g at gaps one =
    select-none (is_current k) (update (has_gap_id g.id) (λ _. closed at g) gaps) (
      All-update (has_gap_id g.id) (λ _. closed at g) (λ x. is_current k x ≡ true → x ≡ g)
        (λ x. is_current k x ≡ false) (λ x only hit. closed-off k at g)
        (λ x only miss. elim (Bool-cases (is_current k x)) [
          | inl e ↦ absurd (other_id x (only e) miss)
          | inr e ↦ e
        ])
        gaps (select-eq-one (is_current k) g gaps one))
  where
    other_id : (x : ObservabilityGap) → x ≡ g → (x.id == g.id) ≡ false → ⊥
    other_id x same miss =
        let own : x.id ≡ g.id = ap (λ (y : ObservabilityGap). y.id) same in
        ground (arith, own, miss)

-- Where at most one gap is open for each key, closing returns and leaves none open for the key, and
-- closing again changes nothing.
pub close_gap-again :
    (k : GapKey) (s : Session)
    → IsUnique s.gaps
    → let s' = (close_gap k s).1 in
      ((close_gap k s).0 ≡ ok tt)
      × (select (is_current k) s'.gaps ≡ [])
      × (close_gap k s' ≡ (ok tt, s'))
close_gap-again k s h = go (select (is_current k) s.gaps) refl
  where
    go :
        (rows : List ObservabilityGap)
        → select (is_current k) s.gaps ≡ rows
        → let s' = (close_gap k s).1 in
          ((close_gap k s).0 ≡ ok tt)
          × (select (is_current k) s'.gaps ≡ [])
          × (close_gap k s' ≡ (ok tt, s'))
    go [] e = rw (close_gap-none k s e) (refl, e, close_gap-none k s e)
    go (g ∷ []) e =
        let gone = closed-nil k g (s.clock s.ticks) s.gaps e in
        rw (close_gap-some k g s e) (refl, gone, close_gap-none k (without_gap g s) gone)
    go (g ∷ g' ∷ gs) e = absurd (too_many k s.gaps g g' gs h e)

-- Opening touches no other table.
pub open_gap-db :
    (k : GapKey) (s : Session) → (open_gap k s).1.db ≡ record s.db { gaps = (open_gap k s).1.gaps }
unfolding open_gap current existing_or_new add_gap
open_gap-db k s = go (select (is_current k) s.gaps) refl
  where
    go :
        (rows : List ObservabilityGap)
        → select (is_current k) s.gaps ≡ rows
        → (open_gap k s).1.db ≡ record s.db { gaps = (open_gap k s).1.gaps }
    go [] e = rw (e, after) refl
    go (g ∷ []) e = rw (e, after) refl
    go (g ∷ g' ∷ gs) e = rw (e, after) refl

-- Closing touches no other table.
pub close_gap-db :
    (k : GapKey) (s : Session)
    → (close_gap k s).1.db ≡ record s.db { gaps = (close_gap k s).1.gaps }
unfolding close_gap current close_found
close_gap-db k s = go (select (is_current k) s.gaps) refl
  where
    go :
        (rows : List ObservabilityGap)
        → select (is_current k) s.gaps ≡ rows
        → (close_gap k s).1.db ≡ record s.db { gaps = (close_gap k s).1.gaps }
    go [] e = rw (e, after) refl
    go (g ∷ []) e = rw (e, after) refl
    go (g ∷ g' ∷ gs) e = rw (e, after) refl
