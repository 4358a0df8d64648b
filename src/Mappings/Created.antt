-- ===== src/Mappings/Created.antt =====
-- About the mappings that src/app/integration/mapping_service.py creates, and their first event.
use smart_procurement_backen.Prelude.{
  ℕ, ◌≡◌, refl, sym, ◌∙◌, String, false, Option, none, some, List, [], ◌∷◌, ◌++◌, ◌==◌, arith, All,
  All-append, All-map, All-both,
}
use smart_procurement_backen.Errors.{Result, ok, err}
use smart_procurement_backen.Models.Basic.{RowId, Payload}
use smart_procurement_backen.Models.Integration.{
  FieldMapping, Snapshot, MappingChangeEvent, MappingStatus,
}
use smart_procurement_backen.Session.{Db, Session}
use smart_procurement_backen.Mappings.{snapshot}
use smart_procurement_backen.Mappings.Trace.{
  last_after, IsChain, IsTraced, HasHistory, other-IsTraced, own-IsTraced, Creates,
}

-- The primary key has not been given out: no mapping has it, and no event refers to it.
abbrev pub IsFresh : RowId → Db → Type 0
IsFresh id db =
    All (λ m. (m.id == id) ≡ false) db.mappings
    × All (λ e. (e.field_mapping_id == id) ≡ false) db.mapping_events

last_after-fresh :
    (id : RowId) (before : Option Snapshot) (events : List MappingChangeEvent)
    → All (λ e. (e.field_mapping_id == id) ≡ false) events
    → last_after id before events ≡ before
last_after-fresh id before [] h = refl
last_after-fresh id before (e ∷ events) h = rw h.0 (last_after-fresh id before events h.1)

pub other_way : (a b c : ℕ) → a ≡ c → (b == c) ≡ false → (a == b) ≡ false
other_way a b c e h = ground arith

-- A new mapping with its first event.
created-HasHistory :
    (db : Db) (m : FieldMapping) (e : MappingChangeEvent)
    → IsFresh m.id db
    → m.status ≡ MappingStatus.suggested
    → e.field_mapping_id ≡ m.id
    → e.before ≡ none
    → e.after ≡ some (snapshot m)
    → HasHistory db
    → HasHistory (record db {
      mappings = db.mappings ++ (m ∷ []);
      mapping_events = db.mapping_events ++ (e ∷ []);
    })
created-HasHistory db m e (unused, unseen) new own before shown (chain, all) = (
  IsChain.extend e chain
      (before ∙ sym (rw own (last_after-fresh m.id none db.mapping_events unseen))),
  All-append (IsTraced (db.mapping_events ++ (e ∷ []))) db.mappings (m ∷ [])
      (All-map (λ x. IsTraced db.mapping_events x × ((x.id == m.id) ≡ false))
        (IsTraced (db.mapping_events ++ (e ∷ [])))
        (λ x h.
          other-IsTraced db.mapping_events e x (other_way e.field_mapping_id x.id m.id own h.1) h.0)
        db.mappings
        (All-both (IsTraced db.mapping_events) (λ x. (x.id == m.id) ≡ false) db.mappings all
          unused))
      (own-IsTraced db.mapping_events e m own shown (rw new tt), tt),
)

pub Creates-HasHistory :
    (enterprise_id data_source_id : RowId) (path entity attribute : String)
    (transform : Option Payload) (actor_id : Option RowId) (s : Session)
    (r : Result FieldMapping × Session)
    → IsFresh (s.uuids s.drawn) s.db
    → Creates enterprise_id data_source_id path entity attribute transform actor_id s r
    → HasHistory s.db
    → HasHistory r.1.db
Creates-HasHistory ent ds path entity attribute transform actor_id s (ok m, s') fresh
      (e, id, new, known, own, before, shown, written) h =
    rw written (created-HasHistory s.db m e (rw id fresh) new own before shown h)
Creates-HasHistory ent ds path entity attribute transform actor_id s (err e, s') fresh same h =
    rw same h
