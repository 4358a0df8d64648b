-- ===== src/Mappings/BulkConfirm.antt =====
-- confirm_mappings_bulk of src/app/integration/mapping_service.py.
use smart_procurement_backen.Prelude.{
  Bool, true, false, not, ◌&&◌, ◌||◌, Option, none, some, List, [], ◌∷◌, ◌++◌, if◌then◌else◌, ◌==◌,
}
use smart_procurement_backen.Table.{select}
use smart_procurement_backen.Models.Basic.{RowId}
use smart_procurement_backen.Models.Integration.{DataSource, FieldMapping, MappingStatus}
use smart_procurement_backen.Session.{Exec, pure, gets, ◌>>=◌, ◌>>◌}
use smart_procurement_backen.Mappings.{owned_source, has_source, has_mapping_id, apply_confirm}

-- list(dict.fromkeys(ids)): the first occurrence of each, in order.
unfoldable pub dedupe : List RowId → List RowId
dedupe [] = []
dedupe (id ∷ ids) = id ∷ select (λ x. not (x == id)) (dedupe ids)

-- `id in ids`
abbrev pub among : RowId → List RowId → Bool
among id [] = false
among id (x ∷ xs) = x == id || among id xs

abbrev pub is_candidate : RowId → RowId → List RowId → List DataSource → FieldMapping → Bool
is_candidate enterprise_id data_source_id requested sources m =
    among m.id requested
    && m.data_source_id == data_source_id
    && has_source enterprise_id m.data_source_id sources

-- `candidates.get(mid)`
abbrev pub find_mapping : RowId → List FieldMapping → Option FieldMapping
find_mapping id [] = none
find_mapping id (m ∷ ms) = if has_mapping_id id m then some m else find_mapping id ms

pub data FailReason : Type 0 where
  not_found_for_source : FailReason
  wrong_status : MappingStatus → FailReason

pub record BulkConfirmResult : Type 0 where
  pub data_source_id : RowId
  pub requested : List RowId
  pub confirmed : List RowId
  pub failed : List (RowId × FailReason)

abbrev pub is_suggested : MappingStatus → Bool
is_suggested MappingStatus.suggested = true
is_suggested _ = false

abbrev pub with_failure : RowId → FailReason → BulkConfirmResult → BulkConfirmResult
with_failure mid reason r = record r { failed = r.failed ++ ((mid, reason) ∷ []) }

-- The body of the loop.
unfoldable pub confirm_one :
    Option FieldMapping → RowId → RowId → BulkConfirmResult → Exec BulkConfirmResult
confirm_one none actor_id mid r = pure (with_failure mid not_found_for_source r)
confirm_one (some m) actor_id mid r =
    if is_suggested m.status
    then (apply_confirm m actor_id >> pure (record r { confirmed = r.confirmed ++ (mid ∷ []) }))
    else pure (with_failure mid (wrong_status m.status) r)

unfoldable pub confirm_loop :
    List FieldMapping → RowId → List RowId → BulkConfirmResult → Exec BulkConfirmResult
confirm_loop candidates actor_id [] r = pure r
confirm_loop candidates actor_id (mid ∷ ids) r =
    confirm_one (find_mapping mid candidates) actor_id mid r >>= λ r'.
    confirm_loop candidates actor_id ids r'

unfoldable pub confirm_mappings_bulk : RowId → RowId → List RowId → RowId → Exec BulkConfirmResult
confirm_mappings_bulk enterprise_id data_source_id mapping_ids actor_id = do
  owned_source enterprise_id data_source_id
  let requested = dedupe mapping_ids
  candidates ← gets (λ db.
      select (is_candidate enterprise_id data_source_id requested db.data_sources) db.mappings)
  confirm_loop candidates actor_id requested (record {
    data_source_id = data_source_id;
    requested = requested;
    confirmed = [];
    failed = [];
  })
