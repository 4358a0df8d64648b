-- ===== src/Enterprises/Tests.antt =====
-- Settings at a concrete input.
use smart_procurement_backen.Prelude.{◌≡◌, refl, String, none, some, [], ◌∷◌}
use smart_procurement_backen.Errors.{err, domain_rule, bad_adapter}
use smart_procurement_backen.Mappings.{text_in}
use smart_procurement_backen.Models.Enterprise.{Enterprise}
use smart_procurement_backen.Session.{Session, require_one}
use smart_procurement_backen.Session.Sample.{empty_db, session_on}
use smart_procurement_backen.Enterprises.{
  update_enterprise, get_enterprise, set_currency, set_adapter, save,
}
use smart_procurement_backen.Enterprises.Supported.{Supports, update_enterprise-Supports}

abbrev plant : Enterprise
plant = record {
  id = 9;
  name = "Plant";
  base_currency = "USD";
  active_execution_adapter = "simulated";
  settings = [];
}

abbrev start : Session
start = session_on (record empty_db { enterprises = plant ∷ [] })

abbrev upper : String → String
upper s = "EUR"

bad_adapter_refused :
    (update_enterprise upper 9 (some "eur") (some "sap") none start).0
    ≡ err (domain_rule bad_adapter)
unfolding update_enterprise get_enterprise require_one set_currency set_adapter save text_in
bad_adapter_refused = refl

update_enterprise-Supports_example :
    Supports (update_enterprise upper 9 (some "eur") (some "generic_rest") none start)
update_enterprise-Supports_example =
    update_enterprise-Supports upper 9 (some "eur") (some "generic_rest") none start
      (unfold text_in in (refl, tt))
