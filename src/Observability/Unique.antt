-- ===== src/Observability/Unique.antt =====
-- About sequences of calls of src/app/observation/observability.py.
use smart_procurement_backen.Prelude.{
  ℕ, ◌≤◌, ◌≡◌, refl, sym, ap, Bool, true, false, ◌&&◌, List, [], ◌∷◌, ◌++◌, ◌==◌, ==_iff, eq_iff,
  arith, Bool-cases, inl, inr, length, length-append, is_none,
}
use smart_procurement_backen.Table.{select}
use smart_procurement_backen.Table.Update.{length-select-update}
use smart_procurement_backen.Table.Select.{select-append}
use smart_procurement_backen.Models.Basic.{RowId, Time}
use smart_procurement_backen.Models.Observation.{
  Scope, GapReason, ScopeRef, source_ref, key_ref, ObservabilityGap,
}
use smart_procurement_backen.Session.{Session, after}
use smart_procurement_backen.Observability.{
  same_scope, same_scope_ref, same_reason, GapKey, is_current, current, new_gap, add_gap,
  existing_or_new, open_gap, closed, has_gap_id, close_found, close_gap,
}

same_scope-eq : (a b : Scope) → same_scope a b ≡ true → a ≡ b
same_scope-eq a b h = ground arith

same_reason-eq : (a b : GapReason) → same_reason a b ≡ true → a ≡ b
same_reason-eq a b h = ground arith

same_scope_ref-eq : (a b : ScopeRef) → same_scope_ref a b ≡ true → a ≡ b
same_scope_ref-eq (source_ref a) (source_ref b) h = ap source_ref ((==_iff a b).0 h)
same_scope_ref-eq (source_ref a) (key_ref b) h = cc
same_scope_ref-eq (key_ref a) (source_ref b) h = cc
same_scope_ref-eq (key_ref a) (key_ref b) h = ap key_ref ((eq_iff a b).0 h)

four-true :
    (a b c d e : Bool)
    → (a && b && c && d && e) ≡ true
    → (a ≡ true) × (b ≡ true) × (c ≡ true) × (d ≡ true)
four-true true true true true e h = (refl, refl, refl, refl)
four-true true true true false e h = cc
four-true true true false d e h = cc
four-true true false c d e h = cc
four-true false b c d e h = cc

last-false : (a b c d : Bool) → (a && b && c && d && false) ≡ false
last-false true true true true = refl
last-false true true true false = refl
last-false true true false d = refl
last-false true false c d = refl
last-false false b c d = refl

abbrev pub key_of : ObservabilityGap → GapKey
key_of g = record {
  enterprise_id = g.enterprise_id;
  scope = g.scope;
  scope_ref = g.scope_ref;
  reason = g.reason;
}

pub current-key_of : (k : GapKey) (g : ObservabilityGap) → is_current k g ≡ true → k ≡ key_of g
current-key_of k g h =
    let (a, b, c, d) =
      four-true (g.enterprise_id == k.enterprise_id) (same_scope g.scope k.scope)
        (same_scope_ref g.scope_ref k.scope_ref) (same_reason g.reason k.reason)
        (is_none g.closed_at) h in
    let p = (==_iff g.enterprise_id k.enterprise_id).0 a in
    let q = same_scope-eq g.scope k.scope b in
    let r = same_scope_ref-eq g.scope_ref k.scope_ref c in
    let t = same_reason-eq g.reason k.reason d in
    sym (λ i. record { enterprise_id = p i; scope = q i; scope_ref = r i; reason = t i })

-- A new gap is current for its own key only.
pub new_gap-key : (k k' : GapKey) (id at : ℕ) → is_current k' (new_gap k id at) ≡ true → k ≡ k'
new_gap-key k k' id at h = sym (current-key_of k' (new_gap k id at) h)

abbrev pub IsUnique : List ObservabilityGap → Type 0
IsUnique gaps = (k : GapKey) → length (select (is_current k) gaps) ≤ 1

added-IsUnique :
    (k : GapKey) (id : RowId) (at : Time) (gaps : List ObservabilityGap)
    → select (is_current k) gaps ≡ []
    → IsUnique gaps
    → IsUnique (gaps ++ (new_gap k id at ∷ []))
added-IsUnique k id at gaps absent h k' =
    rw (select-append (is_current k') gaps (new_gap k id at ∷ []))
      (elim (Bool-cases (is_current k' (new_gap k id at))) [
        | inl own ↦
            let none_left : select (is_current k') gaps ≡ [] =
              rw (sym (new_gap-key k k' id at own)) absent in
            rw (none_left, own) (omega arith)
        | inr other ↦
            rw other (rw (length-append (select (is_current k') gaps) []) (omega (arith, h k')))
      ])

pub closed-off :
    (k : GapKey) (at : Time) (g : ObservabilityGap) → is_current k (closed at g) ≡ false
closed-off k at g =
    last-false (g.enterprise_id == k.enterprise_id) (same_scope g.scope k.scope)
      (same_scope_ref g.scope_ref k.scope_ref) (same_reason g.reason k.reason)

-- One call.
pub data Step (s : Session) : Session → Type 0 where
  opens : (k : GapKey) → Step s (open_gap k s).1
  closes : (k : GapKey) → Step s (close_gap k s).1

pub data Reach (s : Session) : Session → Type 0 where
  here : Reach s s
  next : {t u : Session} → Reach s t → Step t u → Reach s u

pub opened-IsUnique : (k : GapKey) (s : Session) → IsUnique s.gaps → IsUnique (open_gap k s).1.gaps
unfolding open_gap current existing_or_new add_gap
opened-IsUnique k s h = go (select (is_current k) s.gaps) refl
  where
    go :
        (rows : List ObservabilityGap)
        → select (is_current k) s.gaps ≡ rows
        → IsUnique (open_gap k s).1.gaps
    go [] e = rw (e, after) (added-IsUnique k (s.uuids s.drawn) (s.clock s.ticks) s.gaps e h)
    go (g ∷ []) e = rw (e, after) h
    go (g ∷ g' ∷ gs) e = rw (e, after) h

pub closed-IsUnique : (k : GapKey) (s : Session) → IsUnique s.gaps → IsUnique (close_gap k s).1.gaps
unfolding close_gap current close_found
closed-IsUnique k s h = go (select (is_current k) s.gaps) refl
  where
    go :
        (rows : List ObservabilityGap)
        → select (is_current k) s.gaps ≡ rows
        → IsUnique (close_gap k s).1.gaps
    go [] e = rw (e, after) h
    go (g ∷ []) e =
        rw (e, after)
          (λ k'. omega (
            arith,
            h k',
            length-select-update (has_gap_id g.id) (λ _. closed (s.clock s.ticks) g) (is_current k')
                (λ _. closed-off k' (s.clock s.ticks) g) s.gaps,
          ))
    go (g ∷ g' ∷ gs) e = rw (e, after) h

Step-IsUnique : {s t : Session} → Step s t → IsUnique s.gaps → IsUnique t.gaps
Step-IsUnique {s} (opens k) h = opened-IsUnique k s h
Step-IsUnique {s} (closes k) h = closed-IsUnique k s h

-- If at most one gap is open for each key, this is so after any sequence of calls.
pub Reach-IsUnique : {s t : Session} → Reach s t → IsUnique s.gaps → IsUnique t.gaps
Reach-IsUnique here h = h
Reach-IsUnique (next r st) h = Step-IsUnique st (Reach-IsUnique r h)
