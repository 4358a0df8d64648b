-- ===== src/Mappings/History.antt =====
-- About sequences of calls of src/app/integration/mapping_service.py, bulk confirmation included.
use smart_procurement_backen.Prelude.{refl, String, Option, List}
use smart_procurement_backen.Models.Basic.{RowId, Payload}
use smart_procurement_backen.Models.Integration.{MappingAction}
use smart_procurement_backen.Session.{Session}
use smart_procurement_backen.Mappings.{
  create_mapping, as_confirmed, confirm_mapping, as_rejected, reject_mapping, as_retired,
  retire_mapping, Edit, as_edited, edit_mapping,
}
use smart_procurement_backen.Mappings.BulkConfirm.{confirm_mappings_bulk}
use smart_procurement_backen.Mappings.Changes.{
  confirm_mapping-Changes, reject_mapping-Changes, retire_mapping-Changes, edit_mapping-Changes,
}
use smart_procurement_backen.Mappings.Trace.{
  HasHistory, Changes-HasHistory, confirmed-KeepsTrace, create_mapping-Creates,
}
use smart_procurement_backen.Mappings.Recorded.{bulk-HasHistory}
use smart_procurement_backen.Mappings.Created.{IsFresh, Creates-HasHistory}

-- One call, whether it succeeds or raises.
pub data Step (s : Session) : Session → Type 0 where
  create :
      (enterprise_id data_source_id : RowId) (path entity attribute : String)
      (transform : Option Payload) (actor_id : Option RowId)
      → IsFresh (s.uuids s.drawn) s.db
      → Step s
          (create_mapping enterprise_id data_source_id path entity attribute transform actor_id s).1
  confirm :
      (enterprise_id mapping_id actor_id : RowId)
      → Step s (confirm_mapping enterprise_id mapping_id actor_id s).1
  reject :
      (enterprise_id mapping_id actor_id : RowId)
      → Step s (reject_mapping enterprise_id mapping_id actor_id s).1
  retire :
      (enterprise_id mapping_id actor_id : RowId)
      → Step s (retire_mapping enterprise_id mapping_id actor_id s).1
  edit :
      (enterprise_id mapping_id actor_id : RowId) (changes : Edit)
      → Step s (edit_mapping enterprise_id mapping_id actor_id changes s).1
  bulk :
      (enterprise_id data_source_id : RowId) (mapping_ids : List RowId) (actor_id : RowId)
      → Step s (confirm_mappings_bulk enterprise_id data_source_id mapping_ids actor_id s).1

pub data Reach (s : Session) : Session → Type 0 where
  here : Reach s s
  next : {t u : Session} → Reach s t → Step t u → Reach s u

Step-HasHistory : {s t : Session} → Step s t → HasHistory s.db → HasHistory t.db
Step-HasHistory {s} (create e d p n a x by fresh) h =
    Creates-HasHistory e d p n a x by s (create_mapping e d p n a x by s) fresh
      (create_mapping-Creates e d p n a x by s) h
Step-HasHistory {s} (confirm e i by) h =
    Changes-HasHistory e i by MappingAction.confirmed (as_confirmed by) s (confirm_mapping e i by s)
      (confirmed-KeepsTrace by) (confirm_mapping-Changes e i by s) h
Step-HasHistory {s} (reject e i by) h =
    Changes-HasHistory e i by MappingAction.rejected (λ _. as_rejected) s (reject_mapping e i by s)
      (λ at m k. (refl, tt)) (reject_mapping-Changes e i by s) h
Step-HasHistory {s} (retire e i by) h =
    Changes-HasHistory e i by MappingAction.retired (λ _. as_retired) s (retire_mapping e i by s)
      (λ at m k. (refl, tt)) (retire_mapping-Changes e i by s) h
Step-HasHistory {s} (edit e i by changes) h =
    Changes-HasHistory e i by MappingAction.edited (λ _. as_edited changes) s
      (edit_mapping e i by changes s) (λ at m k. (refl, k)) (edit_mapping-Changes e i by changes s)
      h
Step-HasHistory {s} (bulk e d ids by) h = bulk-HasHistory e d ids by s h

-- If every mapping's last event shows it as it is, every event starts where the one before ended, and
-- every confirmed mapping names who confirmed it and when, then this is so after any sequence of
-- calls, as long as created mappings get ids that no row has.
pub Reach-HasHistory : {s t : Session} → Reach s t → HasHistory s.db → HasHistory t.db
Reach-HasHistory here h = h
Reach-HasHistory (next r st) h = Step-HasHistory st (Reach-HasHistory r h)
