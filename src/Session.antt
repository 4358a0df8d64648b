-- ===== src/Session.antt =====
-- A database session (src/app/core/db.py) and what a service function does with it. A call returns
-- its value or the exception it raised, and the session it left: what was written before an
-- exception stays written until the caller rolls back.

pub mod Sample
pub mod Keeps
use smart_procurement_backen.Prelude.{
  [], ◌∷◌, ◌≡◌, refl, ◌⊎◌, inl, inr, ℕ, ◌+◌, Option, none, some, List,
}
use smart_procurement_backen.Errors.{Error, Result, ok, err, not_found, multiple_results}
use smart_procurement_backen.Table.{scalar_one_or_none}
use smart_procurement_backen.Models.Basic.{RowId, Time}
use smart_procurement_backen.Models.Lorm.{Capability, CapabilityLevelEvent, PromotionRequest}
use smart_procurement_backen.Models.Jobs.{Job}
use smart_procurement_backen.Models.Observation.{ObservabilityGap, SkuAggregate}
use smart_procurement_backen.Models.Integration.{
  DataSource, SourceField, FieldMapping, MappingChangeEvent,
}
use smart_procurement_backen.Models.Identity.{
  User, Role, Permission, RolePermission, UserRole, RefreshToken,
}
use smart_procurement_backen.Models.Audit.{AuditRecord}
use smart_procurement_backen.Models.Domain.{EntityRow}
use smart_procurement_backen.Models.Enterprise.{Enterprise}
use smart_procurement_backen.Models.Secret.{Secret}
use smart_procurement_backen.Models.Analysis.{
  RiskFinding, RiskSignalLink, ObservationSignal, Explanation,
}

-- The tables, rows in order of insertion.
pub record Db : Type 0 where
  pub capabilities : List Capability
  pub level_events : List CapabilityLevelEvent
  pub promotion_requests : List PromotionRequest
  pub jobs : List Job
  pub gaps : List ObservabilityGap
  pub data_sources : List DataSource
  pub source_fields : List SourceField
  pub mappings : List FieldMapping
  pub mapping_events : List MappingChangeEvent
  pub users : List User
  pub roles : List Role
  pub permissions : List Permission
  pub role_permissions : List RolePermission
  pub user_roles : List UserRole
  pub refresh_tokens : List RefreshToken
  pub audit_records : List AuditRecord
  pub findings : List RiskFinding
  pub signal_links : List RiskSignalLink
  pub signals : List ObservationSignal
  pub secrets : List Secret
  pub entities : List EntityRow
  pub aggregates : List SkuAggregate
  pub explanations : List Explanation
  pub enterprises : List Enterprise

-- The tables as the transaction sees them, and what the outside supplies: the n-th reading of
-- `datetime.now(UTC)` and the n-th `uuid4()`, with how many of each have been taken.
pub record Session : Type 0 where
  pub db : Db
  pub open db use *
  pub clock : ℕ → Time
  pub ticks : ℕ
  pub uuids : ℕ → RowId
  pub drawn : ℕ

abbrev pub Exec : Type 0 → Type 0
Exec A = Session → Result A × Session

module _ {A : Type 0} where
  abbrev pub pure : A → Exec A
  pure a s = (ok a, s)

  abbrev pub raise : Error → Exec A
  raise e s = (err e, s)

  abbrev pub gets : (Db → A) → Exec A
  gets f s = (ok (f s.db), s)

  abbrev pub lift : Result A → Exec A
  lift r s = (r, s)

  abbrev pub or_raise : Error → Option A → Exec A
  or_raise e none = raise e
  or_raise e (some a) = pure a

-- What follows a call: the continuation if it returned, nothing if it raised.
abbrev pub after : {A B : Type 0} → (A → Exec B) → Result A × Session → Result B × Session
after f (ok a, s) = f a s
after f (err e, s) = (err e, s)

infixl 5 ◌>>=◌ ◌>>◌
abbrev pub ◌>>=◌ : {A B : Type 0} → Exec A → (A → Exec B) → Exec B
◌>>=◌ m f s = after f (m s)

abbrev pub ◌>>◌ : {A B : Type 0} → Exec A → Exec B → Exec B
m >> k = m >>= λ _. k

abbrev pub modify : (Db → Db) → Exec (Unit {0})
modify f s = (ok tt, record s { db = f s.db })

-- datetime.now(UTC)
abbrev pub now : Exec Time
now s = (ok (s.clock s.ticks), record s { ticks = s.ticks + 1 })

-- uuid.uuid4(), the default of every primary key
abbrev pub uuid4 : Exec RowId
uuid4 s = (ok (s.uuids s.drawn), record s { drawn = s.drawn + 1 })

-- session.rollback(): the tables of the last commit; time and uuids are not given back.
abbrev pub rollback_to : Db → Exec (Unit {0})
rollback_to committed s = (ok tt, record s { db = committed })

module _ {A : Type 0} where
  -- `scalar_one_or_none()`, then NotFoundError if there is no row.
  unfoldable pub require_one : List A → Exec A
  require_one rows = do row ← lift (scalar_one_or_none rows); or_raise not_found row

  -- The only row is returned; otherwise an exception is. The session stays as it is.
  pub require_one-cases :
      (rows : List A) (s : Session)
      → ((a : A) × (rows ≡ a ∷ []) × (require_one rows s ≡ (ok a, s)))
        ⊎ ((e : Error) × (require_one rows s ≡ (err e, s)))
  unfolding require_one
  require_one-cases [] s = inr (not_found, refl)
  require_one-cases (x ∷ []) s = inl (x, refl, refl)
  require_one-cases (x ∷ y ∷ rows) s = inr (multiple_results, refl)

  pub require_one-single : (a : A) (s : Session) → require_one (a ∷ []) s ≡ (ok a, s)
  unfolding require_one
  require_one-single a s = refl
