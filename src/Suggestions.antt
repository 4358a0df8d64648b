-- ===== src/Suggestions.antt =====
-- src/app/integration/mapping_ai.py: mappings that a model suggests. The model's answer to each attempt
-- is an argument; a confidence is what `round(confidence, 3)` gives, in thousandths.
pub mod Known
mod Tests
use smart_procurement_backen.Prelude.{
  ℕ, String, Bool, true, false, not, ◌&&◌, ◌||◌, Option, none, some, List, [], ◌∷◌, ◌++◌, map,
  if◌then◌else◌, ◌==◌, str_eq, any,
}
use smart_procurement_backen.Errors.{domain_rule, not_introspected}
use smart_procurement_backen.Table.{select}
use smart_procurement_backen.Models.Basic.{RowId, Payload}
use smart_procurement_backen.Models.Integration.{
  DataSource, SourceField, FieldMapping, MappingStatus, MappingAction,
}
use smart_procurement_backen.Session.{
  Db, Session, Exec, pure, raise, gets, ◌>>=◌, ◌>>◌, modify, uuid4,
}
use smart_procurement_backen.Mappings.{text_in, add_event}
use smart_procurement_backen.DataSources.{get_data_source}
use smart_procurement_backen.Ai.{Attempt, generate_structured}

-- ai/schemas.py: MappingSuggestion
pub record Suggestion : Type 0 where
  pub source_field_path : String
  pub canonical_entity : String
  pub canonical_attribute : String
  pub transform : Option Payload
  pub confidence : ℕ

abbrev pub Key : Type 0
Key = String × String × String

abbrev pub suggestion_key : Suggestion → Key
suggestion_key s = (s.source_field_path, s.canonical_entity, s.canonical_attribute)

abbrev pub mapping_key : FieldMapping → Key
mapping_key m = (m.source_field_path, m.canonical_entity, m.canonical_attribute)

abbrev pub same_key : Key → Key → Bool
same_key (p, e, a) (p', e', a') = str_eq p p' && str_eq e e' && str_eq a a'

-- `key in seen`
abbrev pub key_among : Key → List Key → Bool
key_among key seen = any (same_key key) seen

abbrev pub suggested_mapping : RowId → Suggestion → RowId → FieldMapping
suggested_mapping data_source_id s id = record {
  id = id;
  data_source_id = data_source_id;
  source_field_path = s.source_field_path;
  canonical_entity = s.canonical_entity;
  canonical_attribute = s.canonical_attribute;
  transform = s.transform;
  status = MappingStatus.suggested;
  ai_confidence = some s.confidence;
  confirmed_by = none;
  confirmed_at = none;
}

unfoldable pub add_suggestion : RowId → Suggestion → Exec FieldMapping
add_suggestion data_source_id s = do
  id ← uuid4
  modify
      (λ db. record db { mappings = db.mappings ++ (suggested_mapping data_source_id s id ∷ []) })
  add_event (suggested_mapping data_source_id s id) MappingAction.suggested none none
  pure (suggested_mapping data_source_id s id)

-- The two `continue`s of the loop.
abbrev pub is_skipped : List String → List Key → Suggestion → Bool
is_skipped known seen s =
    not (text_in s.source_field_path known) || key_among (suggestion_key s) seen

-- The loop, with the mappings that it creates.
unfoldable pub suggestion_loop :
    RowId → List String → List Key → List Suggestion → Exec (List FieldMapping)
suggestion_loop data_source_id known seen [] = pure []
suggestion_loop data_source_id known seen (s ∷ suggestions) =
    if is_skipped known seen s
    then suggestion_loop data_source_id known seen suggestions
    else (add_suggestion data_source_id s >>= λ m.
        suggestion_loop data_source_id known (suggestion_key s ∷ seen) suggestions >>= λ created.
        pure (m ∷ created))

abbrev pub field_paths : List SourceField → List String
field_paths fields = map (λ (f : SourceField). f.path) fields

-- The mappings of the source, and the suggestions that are new to it.
unfoldable pub store_suggestions : RowId → List String → List Suggestion → Exec (List FieldMapping)
store_suggestions data_source_id known suggestions s =
    suggestion_loop data_source_id known
      (map mapping_key (select (λ m. m.data_source_id == data_source_id) s.mappings)) suggestions s

unfoldable pub suggest_for_fields :
    (ℕ → Attempt (List Suggestion))
    → RowId
    → RowId
    → Option RowId
    → List SourceField
    → Exec (List FieldMapping)
suggest_for_fields generate enterprise_id data_source_id correlation_id [] =
    raise (domain_rule not_introspected)
suggest_for_fields generate enterprise_id data_source_id correlation_id (f ∷ fields) =
    generate_structured generate enterprise_id "proc.inventory.observe" correlation_id
      "generate_structured:MappingSuggestionSet" 3
    >>= store_suggestions data_source_id (field_paths (f ∷ fields))

unfoldable pub suggest_mappings_for_source :
    (ℕ → Attempt (List Suggestion)) → RowId → RowId → Option RowId → Exec (List FieldMapping)
suggest_mappings_for_source generate enterprise_id data_source_id correlation_id = do
  ds ← get_data_source enterprise_id data_source_id
  fields ← gets (λ db. select (λ f. f.data_source_id == ds.id) db.source_fields)
  suggest_for_fields generate enterprise_id ds.id correlation_id fields
