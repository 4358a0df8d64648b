-- ===== src/DataSources/Check.antt =====
-- About check_connection of src/app/integration/service.py.
use mathlib.Core.Path.{subst}
use smart_procurement_backen.Prelude.{
  ◌+◌, ◌≡◌, refl, sym, ap, String, Option, none, some, List, [], ◌∷◌, Option-cases, inl, inr,
}
use smart_procurement_backen.Errors.{Result, ok, err, Result-cases}
use smart_procurement_backen.Table.{select, update}
use smart_procurement_backen.Models.Basic.{RowId}
use smart_procurement_backen.Models.Integration.{DataSource, Health}
use smart_procurement_backen.Models.Observation.{ObservabilityGap}
use smart_procurement_backen.Models.Secret.{Secret}
use smart_procurement_backen.Session.{Db, Session, after, pure, require_one-cases}
use smart_procurement_backen.Observability.{is_current, open_gap, close_gap}
use smart_procurement_backen.Observability.Unique.{IsUnique}
use smart_procurement_backen.Observability.Idempotent.{
  open_gap-again, close_gap-again, open_gap-db, close_gap-db,
}
use smart_procurement_backen.Mappings.{is_owned_source}
use smart_procurement_backen.DataSources.{has_source_id, save_source, get_data_source}
use smart_procurement_backen.DataSources.Connection.{
  Vault, has_secret_id, ConnectionCheck, Probe, source_gap, record_check, probed, get_secret,
  load_credential, check_connection,
}

-- The source as a check leaves it.
abbrev pub checked : ConnectionCheck → Health → Option String → DataSource → DataSource
checked check health last_error ds = record ds {
  last_check_at = some check.checked_at;
  health = health;
  last_error = last_error;
}

-- An available source has no open gap and no error; any other is marked unavailable, with the detail
-- of the check, and its gap is open.
abbrev pub Agrees : DataSource → ConnectionCheck → Health → List DataSource → Db → Type 0
Agrees ds check Health.available sources db =
    (select (is_current (source_gap ds)) db.gaps ≡ [])
    × (db.data_sources
        ≡ update (has_source_id ds.id) (λ _. checked check Health.available none ds) sources)
Agrees ds check _ sources db =
    (g : ObservabilityGap) × (select (is_current (source_gap ds)) db.gaps ≡ g ∷ [])
    × (db.data_sources
        ≡ update (has_source_id ds.id) (λ _. checked check Health.unavailable check.detail ds)
            sources)

available-Agrees :
    (ds : DataSource) (check : ConnectionCheck) (s : Session)
    → IsUnique s.gaps
    → let r = record_check ds check Health.available s in
      (r.0 ≡ ok check) × Agrees ds check Health.available s.data_sources r.1.db
unfolding record_check
available-Agrees ds check s h =
    let t : Session = record s { db = save_source (checked check Health.available none ds) s.db } in
    let (returned, gone, again) = close_gap-again (source_gap ds) t h in
    go (close_gap (source_gap ds) t) returned gone
      (ap (λ (db : Db). db.data_sources) (close_gap-db (source_gap ds) t))
  where
    go :
        (r : Result (Unit {0}) × Session)
        → r.0 ≡ ok tt
        → select (is_current (source_gap ds)) r.1.gaps ≡ []
        → r.1.data_sources
          ≡ update
              (has_source_id ds.id)
              (λ _. checked check Health.available none ds)
              s.data_sources
        → let r' = after (λ _. pure check) r in
          (r'.0 ≡ ok check) × Agrees ds check Health.available s.data_sources r'.1.db
    go (ok x, t) returned gone same = (refl, (gone, same))
    go (err e, t) returned gone same = cc

-- The two other reports have the same effect.
abbrev Unreachable : DataSource → ConnectionCheck → List DataSource → Db → Type 0
Unreachable ds check sources db =
    (g : ObservabilityGap) × (select (is_current (source_gap ds)) db.gaps ≡ g ∷ [])
    × (db.data_sources
        ≡ update (has_source_id ds.id) (λ _. checked check Health.unavailable check.detail ds)
            sources)

unavailable-Agrees :
    (ds : DataSource) (check : ConnectionCheck) (s : Session)
    → IsUnique s.gaps
    → let r = record_check ds check Health.unavailable s in
      (r.0 ≡ ok check) × Unreachable ds check s.data_sources r.1.db
unfolding record_check
unavailable-Agrees ds check s h =
    let t : Session = record s {
      db = save_source (checked check Health.unavailable check.detail ds) s.db;
    } in
    let (g, returned, one, again) = open_gap-again (source_gap ds) t h in
    go (open_gap (source_gap ds) t) g returned one
      (ap (λ (db : Db). db.data_sources) (open_gap-db (source_gap ds) t))
  where
    go :
        (r : Result ObservabilityGap × Session) (g : ObservabilityGap)
        → r.0 ≡ ok g
        → select (is_current (source_gap ds)) r.1.gaps ≡ g ∷ []
        → r.1.data_sources
          ≡ update
              (has_source_id ds.id)
              (λ _. checked check Health.unavailable check.detail ds)
              s.data_sources
        → let r' = after (λ _. pure check) r in
          (r'.0 ≡ ok check) × Unreachable ds check s.data_sources r'.1.db
    go (ok x, t) g returned one same = (refl, (g, one, same))
    go (err e, t) g returned one same = cc

record_check-Agrees :
    (ds : DataSource) (check : ConnectionCheck) (health : Health) (s : Session)
    → IsUnique s.gaps
    → let r = record_check ds check health s in
      (r.0 ≡ ok check) × Agrees ds check health s.data_sources r.1.db
unfolding record_check
record_check-Agrees ds check Health.available s h = available-Agrees ds check s h
record_check-Agrees ds check Health.unavailable s h = unavailable-Agrees ds check s h
record_check-Agrees ds check Health.stale s h = unavailable-Agrees ds check s h

-- Reading a credential writes nothing.
pub load_credential-keeps :
    (vault : Vault) (ref : Option RowId) (s : Session) → (load_credential vault ref s).1 ≡ s
unfolding load_credential get_secret
load_credential-keeps vault none s = refl
load_credential-keeps vault (some ref) s = go (select (has_secret_id ref) s.secrets) refl
  where
    go :
        (rows : List Secret)
        → select (has_secret_id ref) s.secrets ≡ rows
        → (load_credential vault (some ref) s).1 ≡ s
    go [] e = rw (e, after) refl
    go (row ∷ row' ∷ rows) e = rw (e, after) refl
    go (row ∷ []) e =
        rw (e, after)
          (elim (Option-cases vault.decrypt) [
            | inl missing ↦ rw (missing, after) refl
            | inr (plain, found) ↦
                rw (found, after)
                  (elim (Result-cases (plain row.ciphertext)) [
                    | inl (raw, read) ↦ rw (read, after) refl
                    | inr (raised, failed) ↦ rw (failed, after) refl
                  ])
          ])

module _ (vault : Vault) (probe : DataSource → Option String → Probe)
    (enterprise_id data_source_id : RowId) where
  -- A check that returns is of the only source of the enterprise with the id, and health and gap
  -- agree; one that raises has changed no table.
  abbrev pub Checks : Session → Result ConnectionCheck × Session → Type 0
  Checks s (ok check, s') =
      (ds : DataSource) × (select (is_owned_source enterprise_id data_source_id) s.data_sources
        ≡ ds ∷ [])
      × Agrees ds check check.health s.data_sources s'.db
  Checks s (err e, s') = s'.db ≡ s.db

  agreed-Checks :
      (ds : DataSource) (check : ConnectionCheck) (s : Session)
      (r : Result ConnectionCheck × Session)
      → select (is_owned_source enterprise_id data_source_id) s.data_sources ≡ ds ∷ []
      → (r.0 ≡ ok check) × Agrees ds check check.health s.data_sources r.1.db
      → Checks s r
  agreed-Checks ds check s (ok c, t) one (returned, agrees) =
      let same : c ≡ check = cc returned in
      (
        ds,
        one,
        subst (λ (x : ConnectionCheck). Agrees ds x x.health s.data_sources t.db) (sym same) agrees,
      )
  agreed-Checks ds check s (err e, t) one (returned, agrees) = cc

  probed-Checks :
      (ds : DataSource) (p : Probe) (s : Session)
      → IsUnique s.gaps
      → select (is_owned_source enterprise_id data_source_id) s.data_sources ≡ ds ∷ []
      → Checks s (probed ds p s)
  unfolding probed
  probed-Checks ds Probe.not_built s h one = refl
  probed-Checks ds (Probe.raised detail) s h one =
      let check : ConnectionCheck = record {
        health = Health.unavailable;
        detail = some detail;
        checked_at = s.clock s.ticks;
      } in
      let t : Session = record s { ticks = s.ticks + 1 } in
      agreed-Checks ds check s (record_check ds check Health.unavailable t) one
        (record_check-Agrees ds check Health.unavailable t h)
  probed-Checks ds (Probe.answered check) s h one =
      agreed-Checks ds check s (record_check ds check check.health s) one
        (record_check-Agrees ds check check.health s h)

  loaded-Checks :
      (ds : DataSource) (s : Session) (r : Result (Option String) × Session)
      → IsUnique s.gaps
      → select (is_owned_source enterprise_id data_source_id) s.data_sources ≡ ds ∷ []
      → r.1 ≡ s
      → Checks s (after (λ credential. probed ds (probe ds credential)) r)
  loaded-Checks ds s (ok credential, t) h one same =
      subst (λ x. Checks s (probed ds (probe ds credential) x)) (sym same)
        (probed-Checks ds (probe ds credential) s h one)
  loaded-Checks ds s (err e, t) h one same = ap (λ (x : Session). x.db) same

  -- Where at most one gap is open for each key, a check leaves the health of the source and its gap in
  -- agreement, or raises and changes no table.
  pub check_connection-Checks :
      (s : Session)
      → IsUnique s.gaps
      → Checks s (check_connection vault probe enterprise_id data_source_id s)
  unfolding check_connection get_data_source
  check_connection-Checks s h =
      elim (require_one-cases (select (is_owned_source enterprise_id data_source_id) s.data_sources)
        s) [
          | inr (e, bad) ↦ rw (bad, after) refl
          | inl (ds, one, good) ↦
              rw (good, after)
                (loaded-Checks ds s (load_credential vault ds.credential_ref s) h one
                  (load_credential-keeps vault ds.credential_ref s))
        ]
