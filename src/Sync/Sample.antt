-- ===== src/Sync/Sample.antt =====
-- The ground of the tests: a source, its mappings, and what its connector answers.
use smart_procurement_backen.Prelude.{
  String, Option, none, some, List, [], ◌∷◌, str_eq, if◌then◌else◌,
}
use smart_procurement_backen.Prelude.Int.{pos}
use smart_procurement_backen.Prelude.Decimal.{Decimal, whole}
use smart_procurement_backen.Errors.{Result, ok}
use smart_procurement_backen.Models.Basic.{RowId, Time}
use smart_procurement_backen.Models.Integration.{DataSource, Health, FieldMapping, MappingStatus}
use smart_procurement_backen.Session.{Session}
use smart_procurement_backen.Session.Sample.{empty_db, session_on}
use smart_procurement_backen.DataSources.Connection.{Vault}
use smart_procurement_backen.Sync.Records.{Texts, Record}
use smart_procurement_backen.Sync.Run.{Fetch, refused, fetched, SyncResult, sync_source}

-- Numbers from 0 to 9, and nothing of dates.
abbrev pub digit : String → Option Decimal
digit s =
    if str_eq s "5"
    then some (whole (pos 5))
    else if str_eq s "7"
    then some (whole (pos 7))
    else none

abbrev pub plain : Texts
plain = record {
  strip = λ s. s;
  upper = λ s. s;
  lower = λ s. s;
  replace_z = λ s. s;
  json_str = λ _. "";
  decimal_of = digit;
  decimal_str = λ _. "";
  cell_str = λ _. "";
  times = λ a b. a;
  strptime = λ _ _. none;
  fromisoformat = λ _. none;
}

abbrev pub wms : DataSource
wms = record {
  id = 1;
  enterprise_id = 9;
  name = "WMS";
  kind = "wms";
  connector_type = "file";
  config = [];
  credential_ref = none;
  observation_interval_seconds = 900;
  health = Health.unavailable;
  last_success_at = none;
  last_check_at = none;
  last_error = none;
}

abbrev pub mapping : RowId → String → String → String → FieldMapping
mapping id path entity attribute = record {
  id = id;
  data_source_id = 1;
  source_field_path = path;
  canonical_entity = entity;
  canonical_attribute = attribute;
  transform = none;
  status = MappingStatus.confirmed;
  ai_confidence = none;
  confirmed_by = none;
  confirmed_at = none;
}

abbrev pub start : Session
start = session_on (record empty_db {
  data_sources = wms ∷ [];
  mappings =
      mapping 2 "article" "item" "sku"
      ∷ mapping 3 "article" "stock_level" "item_sku"
      ∷ mapping 4 "stock" "stock_level" "quantity"
      ∷ [];
})

abbrev pub bolts : String → Record
bolts quantity = ("article", some "B-1") ∷ ("stock", some quantity) ∷ []

abbrev pub answers : List Record → DataSource → Option String → Option Time → Fetch
answers records ds credential since = fetched (record { records = records; fetched_at = 500 })

abbrev pub refuses : DataSource → Option String → Option Time → Fetch
refuses ds credential since = refused "timed out"

-- No key, and no JSON that is a dict.
abbrev pub locked : Vault
locked = record { decrypt = none; loads = λ _. ok none }

abbrev pub run : List Record → Session → Result SyncResult × Session
run records s = sync_source plain locked (answers records) 9 1 none s

-- The first record is a baseline; the second changes the stock.
abbrev pub two : List Record
two = bolts "5" ∷ bolts "7" ∷ []

abbrev pub done : Session
done = (run two start).1
