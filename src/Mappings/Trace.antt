-- ===== src/Mappings/Trace.antt =====
-- About the change history that the functions of src/app/integration/mapping_service.py write: when a
-- history fits its mappings, and one change of it.
use smart_procurement_backen.Prelude.{
  ℕ, ◌+◌, ◌≡◌, refl, sym, ◌∙◌, String, true, false, Option, none, some, List, [], ◌∷◌, ◌++◌,
  if◌then◌else◌, ◌==◌, ==_refl, arith, Bool-cases, inl, inr, All,
}
use smart_procurement_backen.Errors.{Result, ok, err}
use smart_procurement_backen.Table.{select, update}
use smart_procurement_backen.Table.Select.{All-select}
use smart_procurement_backen.Table.Update.{All-update}
use smart_procurement_backen.Models.Basic.{RowId, Time, Payload}
use smart_procurement_backen.Models.Integration.{
  FieldMapping, Snapshot, MappingChangeEvent, MappingStatus, MappingAction,
}
use smart_procurement_backen.Session.{Db, Session, after, require_one-cases}
use smart_procurement_backen.Mappings.{
  snapshot, is_owned_mapping, is_owned_source, owned_source, has_mapping_id, add_event, text_in,
  canonical_entities, create_mapping, as_confirmed,
}
use smart_procurement_backen.Mappings.Changes.{Changes}

-- What a mapping looked like after its last event, for a list of events and what it was before them.
abbrev pub last_after : RowId → Option Snapshot → List MappingChangeEvent → Option Snapshot
last_after id before [] = before
last_after id before (e ∷ events) =
    last_after id (if e.field_mapping_id == id then e.after else before) events

-- Each event's `before` is the `after` of the mapping's event before it.
pub data IsChain : List MappingChangeEvent → Type 0 where
  start : IsChain []
  extend :
      {events : List MappingChangeEvent} (e : MappingChangeEvent)
      → IsChain events
      → e.before ≡ last_after e.field_mapping_id none events
      → IsChain (events ++ (e ∷ []))

-- A confirmed mapping has somebody who confirmed it, and when.
abbrev pub HasConfirmer : MappingStatus → Option RowId → Option Time → Type 0
HasConfirmer MappingStatus.confirmed none at = ⊥
HasConfirmer MappingStatus.confirmed (some by) none = ⊥
HasConfirmer _ _ _ = Unit

abbrev pub IsTraced : List MappingChangeEvent → FieldMapping → Type 0
IsTraced events m =
    (last_after m.id none events ≡ some (snapshot m))
    × HasConfirmer m.status m.confirmed_by m.confirmed_at

abbrev pub HasHistory : Db → Type 0
HasHistory db = IsChain db.mapping_events × All (IsTraced db.mapping_events) db.mappings

last_after-append :
    (id : RowId) (before : Option Snapshot) (events : List MappingChangeEvent)
    (e : MappingChangeEvent)
    → last_after id before (events ++ (e ∷ []))
      ≡ (if e.field_mapping_id == id then e.after else last_after id before events)
last_after-append id before [] e = refl
last_after-append id before (x ∷ events) e =
    last_after-append id (if x.field_mapping_id == id then x.after else before) events e

-- An event of another mapping leaves a trace as it is; a mapping's own event sets it.
pub other-IsTraced :
    (events : List MappingChangeEvent) (e : MappingChangeEvent) (m : FieldMapping)
    → (e.field_mapping_id == m.id) ≡ false
    → IsTraced events m
    → IsTraced (events ++ (e ∷ [])) m
other-IsTraced events e m other h = (last_after-append m.id none events e ∙ rw other h.0, h.1)

pub own-IsTraced :
    (events : List MappingChangeEvent) (e : MappingChangeEvent) (m : FieldMapping)
    → e.field_mapping_id ≡ m.id
    → e.after ≡ some (snapshot m)
    → HasConfirmer m.status m.confirmed_by m.confirmed_at
    → IsTraced (events ++ (e ∷ [])) m
own-IsTraced events e m own shown h =
    (last_after-append m.id none events e ∙ rw (own, ==_refl m.id) shown, h)

not_same : (a b c : ℕ) → a ≡ c → (b == c) ≡ false → (a == b) ≡ false
not_same a b c e h = ground arith

-- One change of a loaded mapping, with its event.
pub changed-HasHistory :
    (db : Db) (m m' : FieldMapping) (e : MappingChangeEvent)
    → m'.id ≡ m.id
    → HasConfirmer m'.status m'.confirmed_by m'.confirmed_at
    → e.field_mapping_id ≡ m'.id
    → e.before ≡ some (snapshot m)
    → e.after ≡ some (snapshot m')
    → IsTraced db.mapping_events m
    → HasHistory db
    → HasHistory (record db {
      mappings = update (has_mapping_id m'.id) (λ _. m') db.mappings;
      mapping_events = db.mapping_events ++ (e ∷ []);
    })
changed-HasHistory db m m' e same confirmer own before shown traced (chain, all) = (
  extend e chain (before ∙ sym (rw (own, same) traced.0)),
  All-update (has_mapping_id m'.id) (λ _. m') (IsTraced db.mapping_events)
      (IsTraced (db.mapping_events ++ (e ∷ [])))
      (λ x h hit. own-IsTraced db.mapping_events e m' own shown confirmer)
      (λ x h miss.
        other-IsTraced db.mapping_events e x (not_same e.field_mapping_id x.id m'.id own miss) h)
      db.mappings all,
)

-- A function on mappings that keeps ids and confirmers.
abbrev pub KeepsTrace : (Time → FieldMapping → FieldMapping) → Type 0
KeepsTrace f =
    (at : Time) (m : FieldMapping)
    → HasConfirmer m.status m.confirmed_by m.confirmed_at
    → ((f at m).id ≡ m.id)
      × HasConfirmer (f at m).status (f at m).confirmed_by (f at m).confirmed_at

pub Changes-HasHistory :
    (enterprise_id mapping_id actor_id : RowId) (action : MappingAction)
    (f : Time → FieldMapping → FieldMapping) (s : Session) (r : Result FieldMapping × Session)
    → KeepsTrace f
    → Changes enterprise_id mapping_id action actor_id f s r
    → HasHistory s.db
    → HasHistory r.1.db
Changes-HasHistory enterprise_id mapping_id actor_id action f s (ok m', s') keeps
      (m, e, one, made, own, act, actor, before, shown, written) h =
    let traced : All (IsTraced s.mapping_events) (m ∷ []) = rw one at (
      All-select (is_owned_mapping enterprise_id mapping_id s.data_sources)
        (IsTraced s.mapping_events) s.mappings h.1) in
    let kept = keeps (s.clock s.ticks) m traced.0.1 in
    rw written
      (changed-HasHistory s.db m m' e (rw made kept.0) (rw made kept.1) own before shown traced.0 h)
Changes-HasHistory enterprise_id mapping_id actor_id action f s (err e, s') keeps same h = rw same h

pub confirmed-KeepsTrace : (actor_id : RowId) → KeepsTrace (as_confirmed actor_id)
confirmed-KeepsTrace actor_id at m h = (refl, tt)

-- A mapping that is created under an id that no row has.
module _ (enterprise_id data_source_id : RowId) (path entity attribute : String)
    (transform : Option Payload) (actor_id : Option RowId) where
  -- A new mapping is suggested and has one event, or no table is changed.
  abbrev pub Creates : Session → Result FieldMapping × Session → Type 0
  Creates s (ok m, s') =
      (event : MappingChangeEvent) × (m.id ≡ s.uuids s.drawn)
      × (m.status ≡ MappingStatus.suggested)
      × (text_in m.canonical_entity canonical_entities ≡ true)
      × (event.field_mapping_id ≡ m.id)
      × (event.before ≡ none)
      × (event.after ≡ some (snapshot m))
      × (s'.db ≡ record s.db {
        mappings = s.mappings ++ (m ∷ []);
        mapping_events = s.mapping_events ++ (event ∷ []);
      })
  Creates s (err e, s') = s'.db ≡ s.db

  pub create_mapping-Creates :
      (s : Session)
      → Creates s
          (create_mapping enterprise_id data_source_id path entity attribute transform actor_id s)
  unfolding create_mapping owned_source add_event
  create_mapping-Creates s =
      elim (require_one-cases (select (is_owned_source enterprise_id data_source_id) s.data_sources)
        s) [
          | inr (e, bad) ↦ rw (bad, after) refl
          | inl (ds, one, good) ↦
              rw (good, after)
                (elim (Bool-cases (text_in entity canonical_entities)) [
                  | inr bad ↦ rw bad refl
                  | inl known ↦ rw known (
                    record {
                      id = s.uuids (s.drawn + 1);
                      field_mapping_id = s.uuids s.drawn;
                      action = MappingAction.suggested;
                      actor_id = actor_id;
                      before = none;
                      after = some (record {
                        source_field_path = path;
                        canonical_entity = entity;
                        canonical_attribute = attribute;
                        transform = transform;
                        status = MappingStatus.suggested;
                        ai_confidence = none;
                      });
                      at = s.clock s.ticks;
                    },
                    refl,
                    refl,
                    known,
                    refl,
                    refl,
                    refl,
                    refl,
                  )
                ])
        ]
