-- ===== src/Mappings/Changes.antt =====
-- About the single calls of src/app/integration/mapping_service.py that rewrite a mapping.
use smart_procurement_backen.Prelude.{◌+◌, ◌≡◌, refl, some, [], ◌∷◌, ◌++◌, Bool-cases, inl, inr}
use smart_procurement_backen.Errors.{Result, ok, err}
use smart_procurement_backen.Table.{select, update}
use smart_procurement_backen.Models.Basic.{RowId, Time}
use smart_procurement_backen.Models.Integration.{FieldMapping, MappingChangeEvent, MappingAction}
use smart_procurement_backen.Session.{Session, after, require_one-cases}
use smart_procurement_backen.Mappings.{
  snapshot, is_owned_mapping, get_mapping, has_mapping_id, add_event, as_confirmed, apply_confirm,
  is_retired, confirm_mapping, as_rejected, change, reject_mapping, as_retired, retire_mapping,
  Edit, as_edited, is_valid_entity, edit_mapping,
}

-- A successful call has rewritten the only owned mapping with the id, as `f` says for the time of the
-- call, and appended one event with the mapping before and after. A failed call changed no table.
abbrev pub Changes :
    RowId
    → RowId
    → MappingAction
    → RowId
    → (Time → FieldMapping → FieldMapping)
    → Session
    → Result FieldMapping × Session
    → Type 0
Changes enterprise_id mapping_id action actor_id f s (ok m', s') =
    (m : FieldMapping) × (event : MappingChangeEvent) × (select
        (is_owned_mapping enterprise_id mapping_id s.data_sources) s.mappings
      ≡ m ∷ [])
    × (m' ≡ f (s.clock s.ticks) m)
    × (event.field_mapping_id ≡ m'.id)
    × (event.action ≡ action)
    × (event.actor_id ≡ some actor_id)
    × (event.before ≡ some (snapshot m))
    × (event.after ≡ some (snapshot m'))
    × (s'.db ≡ record s.db {
      mappings = update (has_mapping_id m'.id) (λ _. m') s.mappings;
      mapping_events = s.mapping_events ++ (event ∷ []);
    })
Changes enterprise_id mapping_id action actor_id f s (err e, s') = s'.db ≡ s.db

module _ (enterprise_id mapping_id actor_id : RowId) where
  apply_confirm-Changes :
      (m : FieldMapping) (s : Session)
      → select (is_owned_mapping enterprise_id mapping_id s.data_sources) s.mappings ≡ m ∷ []
      → Changes enterprise_id mapping_id MappingAction.confirmed actor_id
          (as_confirmed actor_id)
          s
          (apply_confirm m actor_id s)
  unfolding apply_confirm add_event
  apply_confirm-Changes m s one = (
    m,
    record {
      id = s.uuids s.drawn;
      field_mapping_id = m.id;
      action = MappingAction.confirmed;
      actor_id = some actor_id;
      before = some (snapshot m);
      after = some (snapshot (as_confirmed actor_id (s.clock s.ticks) m));
      at = s.clock (s.ticks + 1);
    },
    one,
    refl,
    refl,
    refl,
    refl,
    refl,
    refl,
    refl,
  )

  -- A confirmation rewrites the only owned mapping with the id as confirmed by the actor at the
  -- time of the call, and adds one event with the mapping before and after; a call that raises
  -- changes no table.
  pub confirm_mapping-Changes :
      (s : Session)
      → Changes enterprise_id mapping_id MappingAction.confirmed actor_id
          (as_confirmed actor_id)
          s
          (confirm_mapping enterprise_id mapping_id actor_id s)
  unfolding confirm_mapping get_mapping
  confirm_mapping-Changes s =
      elim (require_one-cases
        (select (is_owned_mapping enterprise_id mapping_id s.data_sources) s.mappings) s) [
          | inr (e, bad) ↦ rw (bad, after) refl
          | inl (m, one, good) ↦
              rw (good, after)
                (elim (Bool-cases (is_retired m.status)) [
                  | inl over ↦ rw over refl
                  | inr more ↦ rw more (apply_confirm-Changes m s one)
                ])
        ]

  change-Changes :
      (f : FieldMapping → FieldMapping) (action : MappingAction) (m : FieldMapping) (s : Session)
      → select (is_owned_mapping enterprise_id mapping_id s.data_sources) s.mappings ≡ m ∷ []
      → Changes enterprise_id mapping_id action actor_id (λ _. f) s (change f action actor_id m s)
  unfolding change add_event
  change-Changes f action m s one = (
    m,
    record {
      id = s.uuids s.drawn;
      field_mapping_id = (f m).id;
      action = action;
      actor_id = some actor_id;
      before = some (snapshot m);
      after = some (snapshot (f m));
      at = s.clock s.ticks;
    },
    one,
    refl,
    refl,
    refl,
    refl,
    refl,
    refl,
    refl,
  )

  pub reject_mapping-Changes :
      (s : Session)
      → Changes enterprise_id mapping_id MappingAction.rejected actor_id
          (λ _. as_rejected)
          s
          (reject_mapping enterprise_id mapping_id actor_id s)
  unfolding reject_mapping get_mapping
  reject_mapping-Changes s =
      elim (require_one-cases
        (select (is_owned_mapping enterprise_id mapping_id s.data_sources) s.mappings) s) [
          | inr (e, bad) ↦ rw (bad, after) refl
          | inl (m, one, good) ↦
              rw (good, after) (change-Changes as_rejected MappingAction.rejected m s one)
        ]

  pub retire_mapping-Changes :
      (s : Session)
      → Changes enterprise_id mapping_id MappingAction.retired actor_id
          (λ _. as_retired)
          s
          (retire_mapping enterprise_id mapping_id actor_id s)
  unfolding retire_mapping get_mapping
  retire_mapping-Changes s =
      elim (require_one-cases
        (select (is_owned_mapping enterprise_id mapping_id s.data_sources) s.mappings) s) [
          | inr (e, bad) ↦ rw (bad, after) refl
          | inl (m, one, good) ↦
              rw (good, after) (change-Changes as_retired MappingAction.retired m s one)
        ]

  -- An edit checks the entity before it assigns anything.
  pub edit_mapping-Changes :
      (edit : Edit) (s : Session)
      → Changes enterprise_id mapping_id MappingAction.edited actor_id
          (λ _. as_edited edit)
          s
          (edit_mapping enterprise_id mapping_id actor_id edit s)
  unfolding edit_mapping get_mapping
  edit_mapping-Changes edit s =
      elim (require_one-cases
        (select (is_owned_mapping enterprise_id mapping_id s.data_sources) s.mappings) s) [
          | inr (e, bad) ↦ rw (bad, after) refl
          | inl (m, one, good) ↦
              rw (good, after)
                (elim (Bool-cases (is_valid_entity edit.canonical_entity)) [
                  | inr bad ↦ rw bad refl
                  | inl fine ↦
                      rw fine (change-Changes (as_edited edit) MappingAction.edited m s one)
                ])
        ]
