-- ===== src/Mappings/Tests.antt =====
-- The lifecycle at concrete inputs.
use smart_procurement_backen.Prelude.{◌≡◌, refl, none, some, [], ◌∷◌}
use smart_procurement_backen.Errors.{ok, err, conflict}
use smart_procurement_backen.Table.{select}
use smart_procurement_backen.Models.Integration.{
  DataSource, Health, FieldMapping, MappingChangeEvent, MappingStatus, MappingAction,
}
use smart_procurement_backen.Session.{Session, require_one}
use smart_procurement_backen.Session.Sample.{empty_db, session_on}
use smart_procurement_backen.Mappings.{
  snapshot, as_retired, create_mapping, confirm_mapping, retire_mapping, change, get_mapping,
  owned_source, apply_confirm, add_event,
}
use smart_procurement_backen.Mappings.BulkConfirm.{
  is_candidate, dedupe, confirm_mappings_bulk, FailReason, confirm_loop, confirm_one,
}
use smart_procurement_backen.Mappings.Applied.{Applies}
use smart_procurement_backen.Mappings.Changes.{Changes, retire_mapping-Changes}
use smart_procurement_backen.Mappings.Trace.{Creates, HasHistory, IsChain, create_mapping-Creates}
use smart_procurement_backen.Mappings.Bulk.{
  IsDistinct, Reports, empty_result, confirm_mappings_bulk-Reports,
}
use smart_procurement_backen.Mappings.History.{Reach, Step, Reach-HasHistory}

abbrev erp : DataSource
erp = record {
  id = 1;
  enterprise_id = 9;
  name = "ERP";
  kind = "erp";
  connector_type = "rest";
  config = [];
  credential_ref = none;
  observation_interval_seconds = 900;
  health = Health.available;
  last_success_at = none;
  last_check_at = none;
  last_error = none;
}

abbrev sku : FieldMapping
sku = record {
  id = 20;
  data_source_id = 1;
  source_field_path = "matnr";
  canonical_entity = "item";
  canonical_attribute = "sku";
  transform = none;
  status = MappingStatus.suggested;
  ai_confidence = some 900;
  confirmed_by = none;
  confirmed_at = none;
}

abbrev first_event : MappingChangeEvent
first_event = record {
  id = 30;
  field_mapping_id = 20;
  action = MappingAction.suggested;
  actor_id = none;
  before = none;
  after = some (snapshot sku);
  at = 900;
}

abbrev start : Session
start = session_on (record empty_db {
  data_sources = erp ∷ [];
  mappings = sku ∷ [];
  mapping_events = first_event ∷ [];
})

start-HasHistory : HasHistory start.db
start-HasHistory = (IsChain.extend first_event IsChain.start refl, ((refl, tt), tt))

retire_mapping-Changes_example :
    Changes 9 20 MappingAction.retired 7 (λ _. as_retired) start (retire_mapping 9 20 7 start)
retire_mapping-Changes_example = retire_mapping-Changes 9 20 7 start

create_mapping-Creates_example :
    Creates 9 1 "name1" "supplier" "name" none
      (some 7)
      start
      (create_mapping 9 1 "name1" "supplier" "name" none (some 7) start)
create_mapping-Creates_example =
    create_mapping-Creates 9 1 "name1" "supplier" "name" none (some 7) start

-- A retired mapping is refused.
retired_refused : (confirm_mapping 9 20 7 (retire_mapping 9 20 7 start).1).0 ≡ err conflict
unfolding confirm_mapping retire_mapping get_mapping require_one change add_event
retired_refused = refl

confirm_mappings_bulk-Reports_example :
    let requested = dedupe (20 ∷ 21 ∷ 20 ∷ []) in
    let candidates = select (is_candidate 9 1 requested start.data_sources) start.mappings in
    IsDistinct requested
    × Reports candidates requested
        (empty_result 1 requested)
        (confirm_mappings_bulk 9 1 (20 ∷ 21 ∷ 20 ∷ []) 7 start).0
    × Applies candidates 7 requested start (confirm_mappings_bulk 9 1 (20 ∷ 21 ∷ 20 ∷ []) 7 start).1
confirm_mappings_bulk-Reports_example =
    confirm_mappings_bulk-Reports 9 1 7 (20 ∷ 21 ∷ 20 ∷ []) erp start refl

bulk_now :
    (confirm_mappings_bulk 9 1 (20 ∷ 21 ∷ 20 ∷ []) 7 start).0
    ≡ ok (record {
      data_source_id = 1;
      requested = 20 ∷ 21 ∷ [];
      confirmed = 20 ∷ [];
      failed = (21, FailReason.not_found_for_source) ∷ [];
    })
unfolding confirm_mappings_bulk owned_source require_one dedupe confirm_loop confirm_one
    apply_confirm add_event
bulk_now = refl

-- Created, confirmed in bulk, and retired.
abbrev created : Session
created = (create_mapping 9 1 "name1" "supplier" "name" none (some 7) start).1

abbrev confirmed : Session
confirmed = (confirm_mappings_bulk 9 1 (20 ∷ []) 7 created).1

three_calls : Reach start (retire_mapping 9 20 7 confirmed).1
three_calls =
    Reach.next
      (Reach.next
        (Reach.next Reach.here
          (Step.create 9 1 "name1" "supplier" "name" none (some 7) ((refl, tt), (refl, tt))))
        (Step.bulk 9 1 (20 ∷ []) 7))
      (Step.retire 9 20 7)

Reach-HasHistory_example : HasHistory (retire_mapping 9 20 7 confirmed).1.db
Reach-HasHistory_example = Reach-HasHistory three_calls start-HasHistory
