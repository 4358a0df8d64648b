-- ===== src/Observability/Refined.antt =====
-- Sequences of calls of src/app/observation/observability.py against operations on a set of keys.
use mathlib.Core.Path.{subst}
use smart_procurement_backen.Prelude.{
  ℕ, ◌≤◌, ◌≡◌, refl, sym, ap, ◌∙◌, true, List, [], ◌∷◌, ◌==◌, ==_iff, arith, Bool-cases, inl, inr,
  length, length-append,
}
use smart_procurement_backen.Errors.{Result, ok, err}
use smart_procurement_backen.Table.{select}
use smart_procurement_backen.Table.Select.{select-append}
use smart_procurement_backen.Table.Update.{length-select-update_same}
use smart_procurement_backen.Models.Basic.{RowId}
use smart_procurement_backen.Models.Observation.{ObservabilityGap}
use smart_procurement_backen.Session.{Session, Exec, after, pure, ◌>>◌}
use smart_procurement_backen.Observability.{
  GapKey, is_current, new_gap, open_gap, closed, has_gap_id, close_gap,
}
use smart_procurement_backen.Observability.Unique.{IsUnique, opened-IsUnique, closed-IsUnique}
use smart_procurement_backen.Observability.Idempotent.{
  open_gap-some, open_gap-none, close_gap-some, close_gap-none, with_gap, without_gap, too_many,
}
use smart_procurement_backen.Observability.Keys.{
  KeySet, open_keys, same_key, insert, delete, same_key-eq, added-keys, closed-keys,
}

-- The primary key: no two gaps have one id, and no id that is still to be drawn is taken.
abbrev pub HasIds : Session → Type 0
HasIds s =
    ((id : RowId) → length (select (has_gap_id id) s.gaps) ≤ 1)
    × ((n : ℕ) → s.drawn ≤ n → length (select (has_gap_id (s.uuids n)) s.gaps) ≡ 0)
    × ((m n : ℕ) → s.uuids m ≡ s.uuids n → m ≡ n)

-- A call of the service, and what it does to the set.
pub data Call : Type 0 where
  opens closes : GapKey → Call

abbrev pub make : Call → Exec (Unit {0})
make (opens k) = open_gap k >> pure tt
make (closes k) = close_gap k

abbrev pub run_calls : List Call → Exec (Unit {0})
run_calls [] = pure tt
run_calls (c ∷ cs) = make c >> run_calls cs

abbrev pub apply : Call → KeySet → KeySet
apply (opens k) = insert k
apply (closes k) = delete k

abbrev pub apply_all : List Call → KeySet → KeySet
apply_all [] set = set
apply_all (c ∷ cs) set = apply_all cs (apply c set)

with_gap-HasIds :
    (k : GapKey) (s : Session)
    → HasIds s
    → HasIds (with_gap (new_gap k (s.uuids s.drawn) (s.clock s.ticks)) s)
with_gap-HasIds k s (one, unused, injective) = (
  λ id.
      rw (select-append (has_gap_id id) s.gaps (g ∷ []))
        (elim (Bool-cases (s.uuids s.drawn == id)) [
          | inl e ↦
              let taken = unused s.drawn (omega arith) in
              let same = (==_iff (s.uuids s.drawn) id).0 e in
              rw (e, length-append (select (has_gap_id id) s.gaps) (g ∷ []), sym same, taken)
                (omega arith)
          | inr e ↦ rw (e, length-append (select (has_gap_id id) s.gaps) []) (omega (arith, one id))
        ]),
  λ n above.
      rw (select-append (has_gap_id (s.uuids n)) s.gaps (g ∷ []))
        (elim (Bool-cases (s.uuids s.drawn == s.uuids n)) [
          | inl e ↦
              let same = injective s.drawn n ((==_iff (s.uuids s.drawn) (s.uuids n)).0 e) in
              absurd (omega (arith, above, same))
          | inr e ↦
              rw (e, length-append (select (has_gap_id (s.uuids n)) s.gaps) [])
                (omega (arith, unused n (omega (arith, above))))
        ]),
  injective,
)
  where
    g : ObservabilityGap
    g = new_gap k (s.uuids s.drawn) (s.clock s.ticks)

same_id :
    (i : RowId) (g x : ObservabilityGap) → has_gap_id g.id x ≡ true → (g.id == i) ≡ (x.id == i)
same_id i g x e = ap (λ y. y == i) (sym ((==_iff x.id g.id).0 e))

without_gap-HasIds : (g : ObservabilityGap) (s : Session) → HasIds s → HasIds (without_gap g s)
without_gap-HasIds g s (one, unused, injective) =
    (λ id. omega (arith, same id, one id), λ n above. same (s.uuids n) ∙ unused n above, injective)
  where
    same :
        (id : RowId)
        → length (select (has_gap_id id) (without_gap g s).gaps)
          ≡ length (select (has_gap_id id) s.gaps)
    same id =
        length-select-update_same (has_gap_id g.id) (λ _. closed (s.clock s.ticks) g)
          (has_gap_id id) (λ x e. same_id id g x e) s.gaps

-- What one call keeps and does.
abbrev Simulates : Call → Session → Result (Unit {0}) × Session → Type 0
Simulates c s r =
    (r.0 ≡ ok tt)
    × IsUnique r.1.gaps
    × HasIds r.1
    × (open_keys r.1.gaps ≡ apply c (open_keys s.gaps))

opens-Simulates :
    (k : GapKey) (s : Session)
    → IsUnique s.gaps
    → HasIds s
    → (rows : List ObservabilityGap) → select (is_current k) s.gaps ≡ rows
    → Simulates (opens k) s (make (opens k) s)
opens-Simulates k s h ids [] e =
    let unique : IsUnique (with_gap (new_gap k (s.uuids s.drawn) (s.clock s.ticks)) s).gaps =
      subst (λ (r : Result ObservabilityGap × Session). IsUnique r.1.gaps) (open_gap-none k s e)
        (opened-IsUnique k s h) in
    rw (open_gap-none k s e, after)
      (
        refl,
        unique,
        with_gap-HasIds k s ids,
        λ i k'. added-keys k k' (s.uuids s.drawn) (s.clock s.ticks) s.gaps i,
      )
opens-Simulates k s h ids (g ∷ []) e =
    rw (open_gap-some k g s e, after) (refl, h, ids, λ i k'. present k' i)
  where
    present : (k' : GapKey) → open_keys s.gaps k' ≡ insert k (open_keys s.gaps) k'
    present k' = elim (Bool-cases (same_key k k')) [
      | inl t ↦ rw (t, sym (same_key-eq k k' t), e) refl
      | inr t ↦ rw t refl
    ]
opens-Simulates k s h ids (g ∷ g' ∷ gs) e = absurd (too_many k s.gaps g g' gs h e)

closes-Simulates :
    (k : GapKey) (s : Session)
    → IsUnique s.gaps
    → HasIds s
    → (rows : List ObservabilityGap) → select (is_current k) s.gaps ≡ rows
    → Simulates (closes k) s (make (closes k) s)
closes-Simulates k s h ids [] e = rw (close_gap-none k s e) (refl, h, ids, λ i k'. missing k' i)
  where
    missing : (k' : GapKey) → open_keys s.gaps k' ≡ delete k (open_keys s.gaps) k'
    missing k' = elim (Bool-cases (same_key k k')) [
      | inl t ↦ rw (t, sym (same_key-eq k k' t), e) refl
      | inr t ↦ rw t refl
    ]
closes-Simulates k s h ids (g ∷ []) e =
    let unique : IsUnique (without_gap g s).gaps =
      subst (λ (r : Result (Unit {0}) × Session). IsUnique r.1.gaps) (close_gap-some k g s e)
        (closed-IsUnique k s h) in
    rw (close_gap-some k g s e) (
      refl,
      unique,
      without_gap-HasIds g s ids,
      λ i k'. closed-keys k k' g (s.clock s.ticks) s.gaps e (ids.0 g.id) i,
    )
closes-Simulates k s h ids (g ∷ g' ∷ gs) e = absurd (too_many k s.gaps g g' gs h e)

make-Simulates : (c : Call) (s : Session) → IsUnique s.gaps → HasIds s → Simulates c s (make c s)
make-Simulates (opens k) s h ids = opens-Simulates k s h ids (select (is_current k) s.gaps) refl
make-Simulates (closes k) s h ids = closes-Simulates k s h ids (select (is_current k) s.gaps) refl

-- The calls return, and the set is the one that their operations make of the set before.
abbrev pub Refines : List Call → Session → Result (Unit {0}) × Session → Type 0
Refines cs s r = (r.0 ≡ ok tt) × (open_keys r.1.gaps ≡ apply_all cs (open_keys s.gaps))

-- Where at most one gap is open for each key and the ids of the gaps are unique and never drawn twice:
-- every sequence of calls returns, and the keys with an open gap afterwards are those that the same
-- insertions into and deletions from the set of the keys open before leave.
pub run_calls-Refines :
    (cs : List Call) (s : Session) → IsUnique s.gaps → HasIds s → Refines cs s (run_calls cs s)
run_calls-Refines [] s h ids = (refl, refl)
run_calls-Refines (c ∷ cs) s h ids = go (make c s) (make-Simulates c s h ids) (run_calls-Refines cs)
  where
    go :
        (r : Result (Unit {0}) × Session)
        → Simulates c s r
        → ((t : Session) → IsUnique t.gaps → HasIds t → Refines cs t (run_calls cs t))
        → Refines (c ∷ cs) s (after (λ _. run_calls cs) r)
    go (err e, t) (returned, unique, ids', keys) later = cc
    go (ok x, t) (returned, unique, ids', keys) later =
        let (fine, refined) = later t unique ids' in (fine, refined ∙ ap (apply_all cs) keys)
