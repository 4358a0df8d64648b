-- ===== src/Suggestions/Tests.antt =====
-- Suggestions at a concrete input: one of a known field, twice, and one of a field that is not there.
use smart_procurement_backen.Prelude.{ℕ, ◌≡◌, refl, none, List, [], ◌∷◌, arith, length}
use smart_procurement_backen.Models.Integration.{DataSource, Health, SourceField}
use smart_procurement_backen.Session.{Session, require_one}
use smart_procurement_backen.Session.Sample.{empty_db, session_on}
use smart_procurement_backen.Observability.Unique.{IsUnique}
use smart_procurement_backen.Mappings.{text_in, add_event}
use smart_procurement_backen.DataSources.{get_data_source}
use smart_procurement_backen.Ai.{Attempt, valid, generate_structured, attempt_loop, fail_safe}
use smart_procurement_backen.Suggestions.{
  Suggestion, suggest_mappings_for_source, suggest_for_fields, store_suggestions, suggestion_loop,
  add_suggestion,
}
use smart_procurement_backen.Suggestions.Known.{Suggests, suggest_mappings-Suggests}

abbrev erp : DataSource
erp = record {
  id = 1;
  enterprise_id = 9;
  name = "ERP";
  kind = "erp";
  connector_type = "rest";
  config = [];
  credential_ref = none;
  observation_interval_seconds = 900;
  health = Health.available;
  last_success_at = none;
  last_check_at = none;
  last_error = none;
}

abbrev number_field : SourceField
number_field = record {
  id = 70;
  data_source_id = 1;
  path = "matnr";
  inferred_type = "string";
  sample_values = [];
}

abbrev start : Session
start = session_on (record empty_db { data_sources = erp ∷ []; source_fields = number_field ∷ [] })

start-IsUnique : IsUnique start.gaps
start-IsUnique k = omega arith

abbrev sku : Suggestion
sku = record {
  source_field_path = "matnr";
  canonical_entity = "item";
  canonical_attribute = "sku";
  transform = none;
  confidence = 900;
}

abbrev answer : ℕ → Attempt (List Suggestion)
answer _ = valid (sku ∷ sku ∷ record sku { source_field_path = "lifnr" } ∷ [])

one_created : length (suggest_mappings_for_source answer 9 1 none start).1.mappings ≡ 1
unfolding suggest_mappings_for_source get_data_source require_one suggest_for_fields
    generate_structured attempt_loop fail_safe store_suggestions suggestion_loop add_suggestion
    add_event text_in
one_created = refl

suggest_mappings-Suggests_example :
    Suggests answer 9 none 1 start (suggest_mappings_for_source answer 9 1 none start)
suggest_mappings-Suggests_example = suggest_mappings-Suggests answer 9 none 1 start start-IsUnique
