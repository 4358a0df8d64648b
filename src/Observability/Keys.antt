-- ===== src/Observability/Keys.antt =====
-- The keys with an open gap in src/app/observation/observability.py.
use smart_procurement_backen.Prelude.{
  ◌≤◌, ◌≡◌, refl, sym, ap, ◌∙◌, Bool, true, false, not, ◌&&◌, ◌||◌, List, [], ◌∷◌, ◌++◌, ◌==◌,
  ==_refl, Bool-cases, inl, inr, length, All-map,
}
use smart_procurement_backen.Table.{select, update}
use smart_procurement_backen.Table.Select.{select-append, select-only, select-eq-one, select-IsIn}
use smart_procurement_backen.Table.Update.{select-update_absent}
use smart_procurement_backen.Models.Basic.{RowId, Time}
use smart_procurement_backen.Models.Observation.{ObservabilityGap}
use smart_procurement_backen.Observability.{
  same_scope, same_scope_ref, same_reason, GapKey, is_current, new_gap, closed, has_gap_id, is_any,
}
use smart_procurement_backen.Observability.Unique.{current-key_of, new_gap-key, closed-off}
use smart_procurement_backen.Observability.Idempotent.{
  same_ref_refl, same_scope_refl, same_reason_refl, closed-nil,
}

-- The keys of which a gap is open.
abbrev pub KeySet : Type 0
KeySet = GapKey → Bool

abbrev pub open_keys : List ObservabilityGap → KeySet
open_keys gaps k = is_any (select (is_current k) gaps)

abbrev pub same_key : GapKey → GapKey → Bool
same_key a b =
    a.enterprise_id == b.enterprise_id
    && same_scope a.scope b.scope
    && same_scope_ref a.scope_ref b.scope_ref
    && same_reason a.reason b.reason

abbrev pub insert : GapKey → KeySet → KeySet
insert k set k' = same_key k k' || set k'

abbrev pub delete : GapKey → KeySet → KeySet
delete k set k' = not (same_key k k') && set k'

same_key_refl : (k : GapKey) → same_key k k ≡ true
same_key_refl k =
    rw
      (
        ==_refl k.enterprise_id,
        same_scope_refl k.scope,
        same_ref_refl k.scope_ref,
        same_reason_refl k.reason,
      )
      refl

four-last : (a b c d : Bool) → (a && b && c && d) ≡ true → (a && b && c && d && true) ≡ true
four-last true true true true h = refl
four-last true true true false h = cc
four-last true true false d h = cc
four-last true false c d h = cc
four-last false b c d h = cc

pub same_key-eq : (a b : GapKey) → same_key a b ≡ true → a ≡ b
same_key-eq a b h = new_gap-key a b 0 0 (
    four-last (a.enterprise_id == b.enterprise_id) (same_scope a.scope b.scope)
      (same_scope_ref a.scope_ref b.scope_ref) (same_reason a.reason b.reason) h)

-- A gap is current for one key.
other-current :
    (k k' : GapKey) (g : ObservabilityGap)
    → is_current k g ≡ true
    → same_key k k' ≡ false
    → is_current k' g ≡ false
other-current k k' g own other = elim (Bool-cases (is_current k' g)) [
  | inr e ↦ e
  | inl e ↦
      let same : k ≡ k' = current-key_of k g own ∙ sym (current-key_of k' g e) in
      cc (sym other ∙ ap (same_key k) (sym same) ∙ same_key_refl k)
]

is_any-last : (gs : List ObservabilityGap) (g : ObservabilityGap) → is_any (gs ++ (g ∷ [])) ≡ true
is_any-last [] g = refl
is_any-last (x ∷ gs) g = refl

is_any-nil : (gs : List ObservabilityGap) → is_any (gs ++ []) ≡ is_any gs
is_any-nil [] = refl
is_any-nil (x ∷ gs) = refl

-- The keys after a new gap.
pub added-keys :
    (k k' : GapKey) (id : RowId) (at : Time) (gaps : List ObservabilityGap)
    → open_keys (gaps ++ (new_gap k id at ∷ [])) k' ≡ insert k (open_keys gaps) k'
added-keys k k' id at gaps =
    rw (select-append (is_current k') gaps (new_gap k id at ∷ []))
      (elim (Bool-cases (same_key k k')) [
        | inl e ↦ rw e (is_any-last (select (is_current k') gaps) (new_gap k id at))
        | inr e ↦ rw e (is_any-nil (select (is_current k') gaps))
      ])

-- The keys after the only gap of a key is closed, its id being its own.
pub closed-keys :
    (k k' : GapKey) (g : ObservabilityGap) (at : Time) (gaps : List ObservabilityGap)
    → select (is_current k) gaps ≡ g ∷ []
    → length (select (has_gap_id g.id) gaps) ≤ 1
    → open_keys (update (has_gap_id g.id) (λ _. closed at g) gaps) k' ≡ delete k (open_keys gaps) k'
closed-keys k k' g at gaps one own = elim (Bool-cases (same_key k k')) [
  | inl e ↦ rw (e, sym (same_key-eq k k' e)) (ap is_any (closed-nil k g at gaps one))
  | inr e ↦
      let (found, is) = select-IsIn (is_current k) g gaps [] one in
      let only =
        select-eq-one (has_gap_id g.id) g gaps
          (select-only (has_gap_id g.id) g gaps found (==_refl g.id) own) in
      rw e (
        ap is_any (
          select-update_absent (has_gap_id g.id) (λ _. closed at g) (is_current k')
            (λ _. closed-off k' at g) gaps
            (All-map (λ x. has_gap_id g.id x ≡ true → x ≡ g)
              (λ x. has_gap_id g.id x ≡ true → is_current k' x ≡ false)
              (λ x same hit. ap (is_current k') (same hit) ∙ other-current k k' g is e) gaps only)))
]
