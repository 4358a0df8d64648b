-- ===== src/Observability.antt =====
-- src/app/observation/observability.py: opening and closing of observability gaps. The assertions on
-- the scope and the reason hold by the types of the arguments.
pub mod Unique
pub mod Idempotent
mod Keys
pub mod Refined
mod Tests
use smart_procurement_backen.Prelude.{
  ℕ, String, Bool, true, false, ◌&&◌, Option, none, some, List, [], ◌∷◌, ◌++◌, ◌==◌, str_eq,
  is_none, length,
}
use smart_procurement_backen.Table.{select, scalar_one_or_none, update}
use smart_procurement_backen.Models.Basic.{RowId, Time}
use smart_procurement_backen.Models.Observation.{
  Scope, source, entity, capability, GapReason, source_unavailable, stale_data, ai_unavailable,
  ScopeRef, source_ref, key_ref, ObservabilityGap,
}
use smart_procurement_backen.Session.{
  Db, Session, Exec, pure, gets, lift, ◌>>=◌, ◌>>◌, modify, now, uuid4,
}

abbrev pub same_scope : Scope → Scope → Bool
same_scope source source = true
same_scope entity entity = true
same_scope capability capability = true
same_scope _ _ = false

abbrev pub same_scope_ref : ScopeRef → ScopeRef → Bool
same_scope_ref (source_ref a) (source_ref b) = a == b
same_scope_ref (key_ref a) (key_ref b) = str_eq a b
same_scope_ref _ _ = false

abbrev pub same_reason : GapReason → GapReason → Bool
same_reason source_unavailable source_unavailable = true
same_reason stale_data stale_data = true
same_reason ai_unavailable ai_unavailable = true
same_reason _ _ = false

-- What is open or closed: the arguments of `open` and `close`.
pub record GapKey : Type 0 where
  pub enterprise_id : RowId
  pub scope : Scope
  pub scope_ref : ScopeRef
  pub reason : GapReason

-- The WHERE clause of `_current`.
abbrev pub is_current : GapKey → ObservabilityGap → Bool
is_current k g =
    g.enterprise_id == k.enterprise_id
    && same_scope g.scope k.scope
    && same_scope_ref g.scope_ref k.scope_ref
    && same_reason g.reason k.reason
    && is_none g.closed_at

-- _current
unfoldable pub current : GapKey → Exec (Option ObservabilityGap)
current k s = lift (scalar_one_or_none (select (is_current k) s.gaps)) s

abbrev pub new_gap : GapKey → RowId → Time → ObservabilityGap
new_gap k id at = record {
  id = id;
  enterprise_id = k.enterprise_id;
  scope = k.scope;
  scope_ref = k.scope_ref;
  reason = k.reason;
  opened_at = at;
  closed_at = none;
}

unfoldable pub add_gap : GapKey → Exec ObservabilityGap
add_gap k = do
  at ← now
  id ← uuid4
  modify (λ db. record db { gaps = db.gaps ++ (new_gap k id at ∷ []) })
  pure (new_gap k id at)

unfoldable pub existing_or_new : GapKey → Option ObservabilityGap → Exec ObservabilityGap
existing_or_new k none = add_gap k
existing_or_new k (some g) = pure g

-- ObservabilityService.open
unfoldable pub open_gap : GapKey → Exec ObservabilityGap
open_gap k = current k >>= existing_or_new k

abbrev pub closed : Time → ObservabilityGap → ObservabilityGap
closed at g = record g { closed_at = some at }

abbrev pub has_gap_id : RowId → ObservabilityGap → Bool
has_gap_id id g = g.id == id

unfoldable pub close_found : Option ObservabilityGap → Exec (Unit {0})
close_found none = pure tt
close_found (some g) = do
  at ← now
  modify (λ db. record db { gaps = update (has_gap_id g.id) (λ _. closed at g) db.gaps })

-- ObservabilityService.close
unfoldable pub close_gap : GapKey → Exec (Unit {0})
close_gap k = current k >>= close_found

abbrev pub is_open_of : RowId → ObservabilityGap → Bool
is_open_of enterprise_id g = g.enterprise_id == enterprise_id && is_none g.closed_at

unfoldable pub count_open : RowId → Exec ℕ
count_open enterprise_id = gets (λ db. length (select (is_open_of enterprise_id) db.gaps))

abbrev pub is_open_for : RowId → Scope → ScopeRef → ObservabilityGap → Bool
is_open_for enterprise_id scope ref g =
    g.enterprise_id == enterprise_id
    && same_scope g.scope scope
    && same_scope_ref g.scope_ref ref
    && is_none g.closed_at

-- `.first() is not None`
abbrev pub is_any : List ObservabilityGap → Bool
is_any [] = false
is_any (g ∷ gs) = true

unfoldable pub has_open_for : RowId → Scope → ScopeRef → Exec Bool
has_open_for enterprise_id scope ref =
    gets (λ db. is_any (select (is_open_for enterprise_id scope ref) db.gaps))
