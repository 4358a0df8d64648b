-- ===== src/SourceFields/Tests.antt =====
-- Fields at a concrete input.
use smart_procurement_backen.Prelude.{
  ◌≡◌, refl, String, Option, none, List, [], ◌∷◌, arith, Bool-cases, inl, inr, str_eq, ◌&&◌, ◌==◌,
}
use smart_procurement_backen.Errors.{ok, err, upstream}
use smart_procurement_backen.Models.Integration.{DataSource, SourceField, Health}
use smart_procurement_backen.Session.{Session, require_one}
use smart_procurement_backen.Session.Sample.{empty_db, session_on}
use smart_procurement_backen.DataSources.{get_data_source}
use smart_procurement_backen.DataSources.Connection.{load_credential}
use smart_procurement_backen.Sync.Sample.{locked}
use smart_procurement_backen.SourceFields.{
  Discovered, Description, describe_and_store, store_described, store_fields, store_field,
  flush_fields,
}
use smart_procurement_backen.SourceFields.Stored.{Describes, describe_and_store-Describes}
use smart_procurement_backen.SourceFields.Counts.{IsUnique}

abbrev erp : DataSource
erp = record {
  id = 1;
  enterprise_id = 9;
  name = "ERP";
  kind = "erp";
  connector_type = "rest";
  config = [];
  credential_ref = none;
  observation_interval_seconds = 900;
  health = Health.available;
  last_success_at = none;
  last_check_at = none;
  last_error = none;
}

abbrev sku : SourceField
sku = record {
  id = 5;
  data_source_id = 1;
  path = "sku";
  inferred_type = "number";
  sample_values = [];
}

abbrev start : Session
start = session_on (record empty_db { data_sources = erp ∷ []; source_fields = sku ∷ [] })

abbrev found : List Discovered
found =
    record { path = "sku"; inferred_type = "string"; sample_values = "B-1" ∷ [] }
    ∷ record { path = "qty"; inferred_type = "number"; sample_values = "60" ∷ [] }
    ∷ []

abbrev answers : DataSource → Option String → Description
answers ds credential = Description.described found

start-IsUnique : IsUnique start.source_fields
start-IsUnique d p = elim (Bool-cases (1 == d && str_eq "sku" p)) [
  | inl e ↦ rw e (omega arith)
  | inr e ↦ rw e (omega arith)
]

-- The known field keeps its id.
stored_now : (describe_and_store locked answers 9 1 start).0 ≡ ok (5 ∷ 100 ∷ [])
unfolding describe_and_store get_data_source require_one load_credential store_described
    store_fields store_field flush_fields
stored_now = refl

refused_now : (describe_and_store locked (λ ds c. Description.refused) 9 1 start).0 ≡ err upstream
unfolding describe_and_store get_data_source require_one load_credential store_described
refused_now = refl

describe_and_store-Describes_example :
    Describes 1 found start (describe_and_store locked answers 9 1 start)
describe_and_store-Describes_example =
    describe_and_store-Describes locked answers 9 1 erp none found start start-IsUnique
      (refl, (refl, tt)) refl (unfold load_credential in refl) refl
