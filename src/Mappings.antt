-- ===== src/Mappings.antt =====
-- src/app/integration/mapping_service.py: the lifecycle of a field mapping. Every change of a mapping
-- appends an event with the mapping before and after it. `session.flush()` writes a loaded mapping
-- over the row with its id.
pub mod Created
pub mod Applied
pub mod BulkConfirm
pub mod Recorded
pub mod Changes
pub mod Trace
pub mod Bulk
pub mod History
mod Tests
use smart_procurement_backen.Prelude.{
  ℕ, String, Bool, true, false, not, ◌&&◌, ◌||◌, Option, none, some, List, [], ◌∷◌, ◌++◌,
  if◌then◌else◌, ◌==◌, str_eq,
}
use smart_procurement_backen.Errors.{conflict, domain_rule, bad_entity}
use smart_procurement_backen.Table.{select, update}
use smart_procurement_backen.Models.Basic.{RowId, Time, Payload}
use smart_procurement_backen.Models.Integration.{
  DataSource, FieldMapping, Snapshot, MappingChangeEvent, MappingStatus, MappingAction,
}
use smart_procurement_backen.Session.{
  Db, Session, Exec, pure, raise, gets, require_one, ◌>>=◌, ◌>>◌, modify, now, uuid4,
}

abbrev pub snapshot : FieldMapping → Snapshot
snapshot m = record {
  source_field_path = m.source_field_path;
  canonical_entity = m.canonical_entity;
  canonical_attribute = m.canonical_attribute;
  transform = m.transform;
  status = m.status;
  ai_confidence = m.ai_confidence;
}

abbrev pub is_owned_source : RowId → RowId → DataSource → Bool
is_owned_source enterprise_id data_source_id ds =
    ds.id == data_source_id && ds.enterprise_id == enterprise_id

unfoldable pub owned_source : RowId → RowId → Exec DataSource
owned_source enterprise_id data_source_id s =
    require_one (select (is_owned_source enterprise_id data_source_id) s.data_sources) s

-- The join with the data sources, whose id is their primary key: some row of the enterprise has it.
abbrev pub has_source : RowId → RowId → List DataSource → Bool
has_source enterprise_id data_source_id [] = false
has_source enterprise_id data_source_id (ds ∷ sources) =
    is_owned_source enterprise_id data_source_id ds
    || has_source enterprise_id data_source_id sources

abbrev pub is_owned_mapping : RowId → RowId → List DataSource → FieldMapping → Bool
is_owned_mapping enterprise_id mapping_id sources m =
    m.id == mapping_id && has_source enterprise_id m.data_source_id sources

unfoldable pub get_mapping : RowId → RowId → Exec FieldMapping
get_mapping enterprise_id mapping_id s =
    require_one (select (is_owned_mapping enterprise_id mapping_id s.data_sources) s.mappings) s

abbrev pub is_confirmed : MappingStatus → Bool
is_confirmed MappingStatus.confirmed = true
is_confirmed _ = false

unfoldable pub confirmed_mappings : RowId → Exec (List FieldMapping)
confirmed_mappings data_source_id =
    gets
      (λ db. select (λ m. m.data_source_id == data_source_id && is_confirmed m.status) db.mappings)

abbrev pub has_mapping_id : RowId → FieldMapping → Bool
has_mapping_id id m = m.id == id

abbrev pub save_mapping : FieldMapping → Db → Db
save_mapping m db = record db { mappings = update (has_mapping_id m.id) (λ _. m) db.mappings }

-- `session.add(_event(mapping, action, ...)); await session.flush()`
unfoldable pub add_event :
    FieldMapping → MappingAction → Option RowId → Option Snapshot → Exec (Unit {0})
add_event m action actor_id before = do
  at ← now
  id ← uuid4
  let event : MappingChangeEvent = record {
    id = id;
    field_mapping_id = m.id;
    action = action;
    actor_id = actor_id;
    before = before;
    after = some (snapshot m);
    at = at;
  }
  modify (λ db. record db { mapping_events = db.mapping_events ++ (event ∷ []) })

abbrev pub canonical_entities : List String
canonical_entities =
    "item" ∷ "warehouse" ∷ "stock_level" ∷ "supplier" ∷ "item_supplier" ∷ "price" ∷ "lead_time"
    ∷ "purchase_order" ∷ "consumption" ∷ "production_demand" ∷ "quality_record" ∷ []

-- `text in texts`
unfoldable pub text_in : String → List String → Bool
text_in t [] = false
text_in t (x ∷ xs) = str_eq t x || text_in t xs

unfoldable pub create_mapping :
    RowId → RowId → String → String → String → Option Payload → Option RowId → Exec FieldMapping
create_mapping enterprise_id data_source_id path entity attribute transform actor_id = do
  owned_source enterprise_id data_source_id
  if text_in entity canonical_entities
      then (do
        id ← uuid4
        let m : FieldMapping = record {
          id = id;
          data_source_id = data_source_id;
          source_field_path = path;
          canonical_entity = entity;
          canonical_attribute = attribute;
          transform = transform;
          status = MappingStatus.suggested;
          ai_confidence = none;
          confirmed_by = none;
          confirmed_at = none;
        }
        modify (λ db. record db { mappings = db.mappings ++ (m ∷ []) })
        add_event m MappingAction.suggested actor_id none
        pure m)
      else raise (domain_rule bad_entity)

abbrev pub as_confirmed : RowId → Time → FieldMapping → FieldMapping
as_confirmed actor_id at m = record m {
  status = MappingStatus.confirmed;
  confirmed_by = some actor_id;
  confirmed_at = some at;
}

-- _apply_confirm, with the mapping as it is afterwards
unfoldable pub apply_confirm : FieldMapping → RowId → Exec FieldMapping
apply_confirm m actor_id = do
  at ← now
  let m' : FieldMapping = as_confirmed actor_id at m
  modify (save_mapping m')
  add_event m' MappingAction.confirmed (some actor_id) (some (snapshot m))
  pure m'

abbrev pub is_retired : MappingStatus → Bool
is_retired MappingStatus.retired = true
is_retired _ = false

unfoldable pub confirm_mapping : RowId → RowId → RowId → Exec FieldMapping
confirm_mapping enterprise_id mapping_id actor_id = do
  m ← get_mapping enterprise_id mapping_id
  if is_retired m.status then raise conflict else apply_confirm m actor_id

abbrev pub as_rejected : FieldMapping → FieldMapping
as_rejected m = record m {
  status = MappingStatus.rejected;
  confirmed_by = none;
  confirmed_at = none;
}

-- What `reject_mapping`, `retire_mapping` and `edit_mapping` share: the change of the loaded mapping,
-- and its event.
unfoldable pub change :
    (FieldMapping → FieldMapping) → MappingAction → RowId → FieldMapping → Exec FieldMapping
change f action actor_id m = do
  modify (save_mapping (f m))
  add_event (f m) action (some actor_id) (some (snapshot m))
  pure (f m)

unfoldable pub reject_mapping : RowId → RowId → RowId → Exec FieldMapping
reject_mapping enterprise_id mapping_id actor_id =
    get_mapping enterprise_id mapping_id >>= change as_rejected MappingAction.rejected actor_id

abbrev pub as_retired : FieldMapping → FieldMapping
as_retired m = record m { status = MappingStatus.retired }

unfoldable pub retire_mapping : RowId → RowId → RowId → Exec FieldMapping
retire_mapping enterprise_id mapping_id actor_id =
    get_mapping enterprise_id mapping_id >>= change as_retired MappingAction.retired actor_id

-- `x if x is not None else old`
abbrev pub or_old {ℓ} : {A : Type ℓ} → Option A → A → A
or_old none old = old
or_old (some x) old = x

-- The arguments that were given; an unset `transform` is not the same as one set to None.
pub record Edit : Type 0 where
  pub canonical_entity : Option String
  pub canonical_attribute : Option String
  pub transform : Option (Option Payload)

abbrev pub as_edited : Edit → FieldMapping → FieldMapping
as_edited e m = record m {
  canonical_entity = or_old e.canonical_entity m.canonical_entity;
  canonical_attribute = or_old e.canonical_attribute m.canonical_attribute;
  transform = or_old e.transform m.transform;
}

abbrev pub is_valid_entity : Option String → Bool
is_valid_entity none = true
is_valid_entity (some entity) = text_in entity canonical_entities

unfoldable pub edit_mapping : RowId → RowId → RowId → Edit → Exec FieldMapping
edit_mapping enterprise_id mapping_id actor_id e = do
  m ← get_mapping enterprise_id mapping_id
  if is_valid_entity e.canonical_entity
      then change (as_edited e) MappingAction.edited actor_id m
      else raise (domain_rule bad_entity)
