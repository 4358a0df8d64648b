-- ===== src/DataSources/Tests.antt =====
-- Data sources at concrete inputs.
use smart_procurement_backen.Prelude.{◌≡◌, refl, String, Option, none, some, [], ◌∷◌, arith}
use smart_procurement_backen.Errors.{err, app_error}
use smart_procurement_backen.Models.Basic.{text, Payload}
use smart_procurement_backen.Models.Integration.{DataSource, Health}
use smart_procurement_backen.Session.{Session}
use smart_procurement_backen.Session.Sample.{empty_db, session_on}
use smart_procurement_backen.Observability.Unique.{IsUnique}
use smart_procurement_backen.DataSources.{
  safe_config, create_data_source, add_data_source, upload_file_content, store_credential,
  put_secret,
}
use smart_procurement_backen.DataSources.Connection.{Probe, check_connection}
use smart_procurement_backen.Sync.Sample.{locked}
use smart_procurement_backen.DataSources.Config.{Reach, Step, Reach-IsClean}
use smart_procurement_backen.DataSources.Safe.{IsClean}
use smart_procurement_backen.DataSources.Check.{Checks, check_connection-Checks}
use smart_procurement_backen.Mappings.{text_in}

abbrev start : Session
start = session_on empty_db

abbrev no_key : Option (String → String)
no_key = none

abbrev dumps : Payload → String
dumps _ = "{}"

abbrev sent : Payload
sent = ("url", text "http://x") ∷ ("token", text "t0p") ∷ []

kept : safe_config sent ≡ ("url", text "http://x") ∷ []
unfolding text_in
kept = refl

abbrev created : Session
created = (create_data_source no_key dumps 9 "Files" "file" "file" sent none none none start).1

two_calls : Reach no_key dumps start (upload_file_content 9 100 "a;b" created).1
two_calls =
    Reach.next (Reach.next Reach.here (Step.create 9 "Files" "file" "file" sent none none none))
      (Step.upload 9 100 "a;b")

Reach-IsClean_example : IsClean (upload_file_content 9 100 "a;b" created).1.db
Reach-IsClean_example = Reach-IsClean no_key dumps two_calls tt

-- A credential cannot be stored without a key.
no_key_refused :
    (create_data_source no_key dumps 9 "Files" "file" "file" [] (some sent) none none start).0
    ≡ err (app_error "config_error" 500)
unfolding create_data_source add_data_source store_credential put_secret text_in
no_key_refused = refl

abbrev erp : DataSource
erp = record {
  id = 1;
  enterprise_id = 9;
  name = "ERP";
  kind = "erp";
  connector_type = "rest";
  config = [];
  credential_ref = none;
  observation_interval_seconds = 900;
  health = Health.available;
  last_success_at = none;
  last_check_at = none;
  last_error = none;
}

abbrev with_source : Session
with_source = session_on (record empty_db { data_sources = erp ∷ [] })

with_source-IsUnique : IsUnique with_source.gaps
with_source-IsUnique k = omega arith

abbrev refusing : DataSource → Option String → Probe
refusing ds credential = Probe.raised "connection refused"

check_connection-Checks_example :
    Checks locked refusing 9 1 with_source (check_connection locked refusing 9 1 with_source)
check_connection-Checks_example =
    check_connection-Checks locked refusing 9 1 with_source with_source-IsUnique
