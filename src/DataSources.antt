-- ===== src/DataSources.antt =====
-- src/app/integration/service.py and core/secrets.py: connecting a data source and changing it.
-- Encryption and `json.dumps` are arguments.
pub mod Safe
pub mod Connection
pub mod Config
pub mod Check
mod Tests
use smart_procurement_backen.Prelude.{
  ℕ, zero, String, Bool, true, false, not, ◌&&◌, Option, none, some, List, [], ◌∷◌, ◌++◌,
  if◌then◌else◌, ◌==◌, str_eq,
}
use smart_procurement_backen.Errors.{
  Result, ok, err, app_error, domain_rule, bad_kind, bad_connector_type, upload_not_file, upstream,
}
use smart_procurement_backen.Table.{select, scalar_one_or_none, update}
use smart_procurement_backen.Models.Basic.{RowId, Time, Json, text, Payload}
use smart_procurement_backen.Models.Integration.{DataSource, Health}
use smart_procurement_backen.Models.Observation.{source, source_ref, source_unavailable}
use smart_procurement_backen.Models.Secret.{Secret}
use smart_procurement_backen.Session.{
  Db, Session, Exec, pure, raise, lift, or_raise, require_one, ◌>>=◌, ◌>>◌, modify, now, uuid4,
}
use smart_procurement_backen.Observability.{GapKey, open_gap, close_gap}
use smart_procurement_backen.Mappings.{text_in, is_owned_source, or_old}

-- SOURCE_KINDS
abbrev pub source_kinds : List String
source_kinds = "erp" ∷ "mes" ∷ "wms" ∷ "db" ∷ "api" ∷ "file" ∷ "other" ∷ []

-- CONNECTOR_TYPES
abbrev pub connector_types : List String
connector_types = "rest" ∷ "file" ∷ "sql" ∷ []

-- _SECRET_KEYS_IN_CONFIG
abbrev pub secret_keys : List String
secret_keys = "credential" ∷ "password" ∷ "token" ∷ "secret" ∷ "api_key" ∷ []

abbrev pub default_interval : ℕ
default_interval = 900

abbrev pub is_safe : String × Json → Bool
is_safe (key, value) = not (text_in key secret_keys)

-- `{k: v for k, v in config.items() if k not in _SECRET_KEYS_IN_CONFIG}`
abbrev pub safe_config : Payload → Payload
safe_config config = select is_safe config

-- `d[key] = value`
unfoldable pub set_key : String → Json → Payload → Payload
set_key key value [] = (key, value) ∷ []
set_key key value ((k, v) ∷ rest) =
    if str_eq k key then (k, value) ∷ rest else (k, v) ∷ set_key key value rest

-- `d.update(entries)`
unfoldable pub set_keys : Payload → Payload → Payload
set_keys [] config = config
set_keys ((key, value) ∷ entries) config = set_keys entries (set_key key value config)

unfoldable pub get_data_source : RowId → RowId → Exec DataSource
get_data_source enterprise_id data_source_id s =
    require_one (select (is_owned_source enterprise_id data_source_id) s.data_sources) s

abbrev pub has_source_id : RowId → DataSource → Bool
has_source_id id ds = ds.id == id

abbrev pub save_source : DataSource → Db → Db
save_source ds db = record db {
  data_sources = update (has_source_id ds.id) (λ _. ds) db.data_sources;
}

-- `value or default`, for the interval
abbrev pub interval_or_default : Option ℕ → ℕ
interval_or_default none = default_interval
interval_or_default (some n) = if n == 0 then default_interval else n

-- The configuration after an update: the safe entries are merged in.
abbrev pub merged : Option Payload → Payload → Payload
merged none old = old
merged (some config) old = set_keys (safe_config config) old

-- `encrypt` is `none` when FERNET_KEY is not configured.
module _ (encrypt : Option (String → String)) (dumps : Payload → String) where
  unfoldable pub put_secret : RowId → String → String → Option RowId → Exec RowId
  put_secret enterprise_id purpose plaintext created_by = do
    cipher ← or_raise (app_error "config_error" 500) encrypt
    id ← uuid4
    let row : Secret = record {
      id = id;
      enterprise_id = enterprise_id;
      purpose = purpose;
      ciphertext = cipher plaintext;
      created_by = created_by;
    }
    modify (λ db. record db { secrets = db.secrets ++ (row ∷ []) })
    pure id

  -- The reference of a given credential; without one, what it was.
  unfoldable pub store_credential :
      RowId → Option Payload → Option RowId → Option RowId → Exec (Option RowId)
  store_credential enterprise_id none created_by old = pure old
  store_credential enterprise_id (some []) created_by old = pure old
  store_credential enterprise_id (some (x ∷ xs)) created_by old = do
    id ← put_secret enterprise_id "source_credential" (dumps (x ∷ xs)) created_by
    pure (some id)

  unfoldable pub add_data_source :
      RowId
      → String
      → String
      → String
      → Payload
      → Option Payload
      → Option RowId
      → Option ℕ
      → Exec DataSource
  add_data_source enterprise_id name kind connector_type config credential created_by interval = do
    ref ← store_credential enterprise_id credential created_by none
    id ← uuid4
    let ds : DataSource = record {
      id = id;
      enterprise_id = enterprise_id;
      name = name;
      kind = kind;
      connector_type = connector_type;
      config = safe_config config;
      credential_ref = ref;
      observation_interval_seconds = interval_or_default interval;
      health = Health.unavailable;
      last_success_at = none;
      last_check_at = none;
      last_error = none;
    }
    modify (λ db. record db { data_sources = db.data_sources ++ (ds ∷ []) })
    pure ds

  unfoldable pub create_data_source :
      RowId
      → String
      → String
      → String
      → Payload
      → Option Payload
      → Option RowId
      → Option ℕ
      → Exec DataSource
  create_data_source enterprise_id name kind connector_type config credential created_by interval =
      if not (text_in kind source_kinds)
      then raise (domain_rule bad_kind)
      else if not (text_in connector_type connector_types)
      then raise (domain_rule bad_connector_type)
      else add_data_source enterprise_id name kind connector_type config credential created_by
          interval

  unfoldable pub update_data_source :
      RowId
      → RowId
      → Option String
      → Option Payload
      → Option ℕ
      → Option Payload
      → Option RowId
      → Exec DataSource
  update_data_source enterprise_id data_source_id name config interval credential created_by = do
    ds ← get_data_source enterprise_id data_source_id
    ref ← store_credential enterprise_id credential created_by ds.credential_ref
    let ds' : DataSource = record ds {
      name = or_old name ds.name;
      config = merged config ds.config;
      observation_interval_seconds = or_old interval ds.observation_interval_seconds;
      credential_ref = ref;
    }
    modify (save_source ds')
    pure ds'

unfoldable pub upload_file_content : RowId → RowId → String → Exec DataSource
upload_file_content enterprise_id data_source_id content = do
  ds ← get_data_source enterprise_id data_source_id
  let ds' : DataSource = record ds { config = set_key "content" (text content) ds.config }
  if str_eq ds.connector_type "file"
      then modify (save_source ds') >> pure ds'
      else raise (domain_rule upload_not_file)
