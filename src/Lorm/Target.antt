-- ===== src/Lorm/Target.antt =====
-- About `_validate_target` of src/app/lorm/capability_service.py.
use smart_procurement_backen.Prelude.{
  ◌+◌, ◌<◌, ◌≡◌, ◌≢◌, sym, ◌∙◌, str_eq, Bool-cases, refl, String, Bool, true, false, Option, none,
  some, arith, eq_iff, Option-cases, inl, inr,
}
use smart_procurement_backen.Errors.{ok, err, index_error}
use smart_procurement_backen.Models.Lorm.{
  Level, l0, l1, l2, l3, l4, l5, index, level_at, level_of, level_name, Capability,
}
use smart_procurement_backen.Lorm.{validate_target, check_step, refuse_step}

-- The target is one step above the level of the capability, and is not a forbidden L5.
pub record IsAllowed (cap : Capability) (target : Level) : Type 0 where
  pub one_step : index target ≡ index cap.level + 1
  pub capped : target ≡ l5 → cap.l5_allowed ≡ true

pub level_of-level_name : (l : Level) → level_of (level_name l) ≡ some l
unfolding level_of level_name
level_of-level_name l0 = refl
level_of-level_name l1 = refl
level_of-level_name l2 = refl
level_of-level_name l3 = refl
level_of-level_name l4 = refl
level_of-level_name l5 = refl

-- The text "L5" names L5, and no other text does.
abbrev is_l5 : Level → Bool
is_l5 l5 = true
is_l5 _ = false

level_of-other : (t : String) → str_eq t "L5" ≡ false → level_of t ≢ some l5
unfolding level_of
level_of-other t e = ground arith

level_of-L5 : (t : String) → t ≡ "L5" → level_of t ≡ some l5
unfolding level_of
level_of-L5 t e = rw e refl

not_l5 : (l : Level) → l ≢ l5 → is_l5 l ≡ false
not_l5 l h = ground arith

l5_text : (t : String) (l : Level) → level_of t ≡ some l → str_eq t "L5" ≡ is_l5 l
l5_text t l h = elim (Bool-cases (str_eq t "L5")) [
  | inl e ↦ cc (e, level_of-L5 t ((eq_iff t "L5").0 e), h)
  | inr e ↦ e ∙ sym (not_l5 l (λ k. level_of-other t e (cc)))
]

refuse_step-ne-ok : (o : Option Level) → refuse_step o ≢ ok tt
unfolding refuse_step
refuse_step-ne-ok none h = cc
refuse_step-ne-ok (some l) h = cc

check_step-ok :
    (c : Capability) (l : Level) (target : String)
    → level_of target ≡ some l
    → check_step c l target ≡ ok tt
    → IsAllowed c l
unfolding check_step
check_step-ok c l target named h = record {
  one_step = ground (arith, refuse_step-ne-ok (level_at (index c.level + 1)));
  capped =
      λ e. ground (arith, l5_text target l named, refuse_step-ne-ok (level_at (index c.level + 1)));
}

-- A target that is let through names a level, one step up, and not an L5 that is not allowed.
pub validate_target-ok :
    (c : Capability) (target : String)
    → validate_target c target ≡ ok tt
    → (l : Level) × (level_of target ≡ some l) × IsAllowed c l
unfolding validate_target
validate_target-ok c target h = elim (Option-cases (level_of target)) [
  | inl e ↦ cc (rw (e, validate_target) at h)
  | inr (l, e) ↦ (l, e, check_step-ok c l target e (rw (e, validate_target) at h))
]

check_step-allowed :
    (c : Capability) (l : Level) (target : String)
    → level_of target ≡ some l
    → IsAllowed c l
    → check_step c l target ≡ ok tt
unfolding check_step
check_step-allowed c l target named a = ground (arith, l5_text target l named)

-- Every allowed step is let through.
pub validate_target-allowed :
    (c : Capability) (target : String) (l : Level)
    → level_of target ≡ some l
    → IsAllowed c l
    → validate_target c target ≡ ok tt
unfolding validate_target
validate_target-allowed c target l e a = rw (e, validate_target) (check_step-allowed c l target e a)

index-lt : (l : Level) → index l < 6
unfolding index
index-lt l = ground arith

level_at-top : level_at (index l5 + 1) ≡ none
unfolding level_at index
level_at-top = refl

index-top : index l5 ≡ 5
unfolding index
index-top = refl

refuse-top : refuse_step (level_at (index l5 + 1)) ≡ err index_error
unfolding refuse_step
refuse-top = rw level_at-top refl

check_step-at_top :
    (c : Capability) (l : Level) (target : String)
    → c.level ≡ l5
    → check_step c l target ≡ err index_error
unfolding check_step
check_step-at_top c l target top =
    rw (top, check_step) (ground (arith, refuse-top, index-lt l, index-top))

-- For a capability at L5 every level is refused by an IndexError.
pub validate_target-at_top :
    (c : Capability) (target : String) (l : Level)
    → c.level ≡ l5
    → level_of target ≡ some l
    → validate_target c target ≡ err index_error
unfolding validate_target
validate_target-at_top c target l top e = rw (e, validate_target) (check_step-at_top c l target top)
