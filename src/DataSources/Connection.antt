-- ===== src/DataSources/Connection.antt =====
-- Checking the connection of a source (src/app/integration/service.py), with the credential read from
-- the store (src/app/core/secrets.py). Decryption and what a connector answers are arguments.
use smart_procurement_backen.Prelude.{String, Bool, Option, none, some, ◌==◌}
use smart_procurement_backen.Errors.{Result, app_error, upstream}
use smart_procurement_backen.Table.{select, scalar_one_or_none}
use smart_procurement_backen.Models.Basic.{RowId, Time}
use smart_procurement_backen.Models.Integration.{DataSource, Health}
use smart_procurement_backen.Models.Observation.{source, source_ref, source_unavailable}
use smart_procurement_backen.Models.Secret.{Secret}
use smart_procurement_backen.Session.{Exec, pure, raise, lift, or_raise, ◌>>=◌, ◌>>◌, modify, now}
use smart_procurement_backen.Observability.{GapKey, open_gap, close_gap}
use smart_procurement_backen.DataSources.{get_data_source, save_source}

abbrev pub has_secret_id : RowId → Secret → Bool
has_secret_id id s = s.id == id

-- A connection check as the connector reports it; ConnectionCheck.
pub record ConnectionCheck : Type 0 where
  pub health : Health
  pub detail : Option String
  pub checked_at : Time

-- What becomes of a connector: it cannot be built, its test raises ConnectorError, or it answers.
pub data Probe : Type 0 where
  not_built : Probe
  raised : String → Probe
  answered : ConnectionCheck → Probe

abbrev pub source_gap : DataSource → GapKey
source_gap ds = record {
  enterprise_id = ds.enterprise_id;
  scope = source;
  scope_ref = source_ref ds.id;
  reason = source_unavailable;
}

-- The state of the source after a check, and its gap.
unfoldable pub record_check : DataSource → ConnectionCheck → Health → Exec ConnectionCheck
record_check ds check Health.available = do
  modify (
      save_source (record ds {
        last_check_at = some check.checked_at;
        health = Health.available;
        last_error = none;
      }))
  close_gap (source_gap ds)
  pure check
record_check ds check _ = do
  modify (
      save_source (record ds {
        last_check_at = some check.checked_at;
        health = Health.unavailable;
        last_error = check.detail;
      }))
  open_gap (source_gap ds)
  pure check

unfoldable pub probed : DataSource → Probe → Exec ConnectionCheck
probed ds Probe.not_built = raise upstream
probed ds (Probe.raised detail) = do
  at ← now
  record_check ds (record { health = Health.unavailable; detail = some detail; checked_at = at })
      Health.unavailable
probed ds (Probe.answered check) = record_check ds check check.health

-- Decryption, `none` when FERNET_KEY is not configured, and `json.loads`: the text of a dict, `none`
-- for any other value. Both may raise.
pub record Vault : Type 0 where
  pub decrypt : Option (String → Result String)
  pub loads : String → Result (Option String)

module _ (vault : Vault) where
  unfoldable pub get_secret : RowId → Exec String
  get_secret secret_id s =
      (do
        found ← lift (scalar_one_or_none (select (has_secret_id secret_id) s.secrets))
        row ← or_raise (app_error "not_found" 404) found
        plain ← or_raise (app_error "config_error" 500) vault.decrypt
        lift (plain row.ciphertext))
        s

  unfoldable pub load_credential : Option RowId → Exec (Option String)
  load_credential none = pure none
  load_credential (some ref) = get_secret ref >>= λ raw. lift (vault.loads raw)

  -- `probe` builds a connector with the source and the text of its credential, and tests it.
  unfoldable pub check_connection :
      (DataSource → Option String → Probe) → RowId → RowId → Exec ConnectionCheck
  check_connection probe enterprise_id data_source_id = do
    ds ← get_data_source enterprise_id data_source_id
    credential ← load_credential ds.credential_ref
    probed ds (probe ds credential)
