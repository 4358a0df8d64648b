-- ===== src/Mappings/Recorded.antt =====
-- About the events that the operations of src/app/integration/mapping_service.py record.
use mathlib.Core.Path.{subst}
use smart_procurement_backen.Prelude.{
  ◌+◌, ◌≡◌, refl, sym, ◌∙◌, ap, true, false, some, List, [], ◌∷◌, ◌++◌, ◌==◌, ==_iff, ==_refl,
  arith, Bool-cases, Option-cases, inl, inr, All, All-map,
}
use smart_procurement_backen.Table.{select}
use smart_procurement_backen.Table.Select.{All-select}
use smart_procurement_backen.Models.Basic.{RowId}
use smart_procurement_backen.Models.Integration.{FieldMapping, MappingChangeEvent, MappingAction}
use smart_procurement_backen.Session.{Session, after, require_one-cases}
use smart_procurement_backen.Mappings.{
  snapshot, is_owned_source, owned_source, has_mapping_id, as_confirmed, add_event, apply_confirm,
}
use smart_procurement_backen.Mappings.BulkConfirm.{
  with_failure, FailReason, among, find_mapping, is_suggested, is_candidate, dedupe,
  BulkConfirmResult, confirm_one, confirm_loop, confirm_mappings_bulk,
}
use smart_procurement_backen.Mappings.Trace.{
  IsTraced, HasHistory, other-IsTraced, changed-HasHistory,
}
use smart_procurement_backen.Mappings.Bulk.{IsDistinct, dedupe-IsDistinct, empty_result}
use smart_procurement_backen.Mappings.Created.{other_way}

-- The candidates whose ids are still to come are as they were loaded.
abbrev AreLoaded : List FieldMapping → List RowId → List MappingChangeEvent → Type 0
AreLoaded candidates ids events = All (λ m. among m.id ids ≡ true → IsTraced events m) candidates

find_mapping-found {κ} :
    (Q : FieldMapping → Type κ) (mid : RowId) (candidates : List FieldMapping) (m : FieldMapping)
    → All Q candidates
    → find_mapping mid candidates ≡ some m
    → Q m × (m.id ≡ mid)
find_mapping-found Q mid [] m h found = cc
find_mapping-found Q mid (x ∷ xs) m h found = elim (Bool-cases (has_mapping_id mid x)) [
  | inl e ↦
      let same : x ≡ m = cc (rw e at found) in
      (subst Q same h.0, sym (ap (λ (y : FieldMapping). y.id) same) ∙ (==_iff x.id mid).0 e)
  | inr e ↦ find_mapping-found Q mid xs m h.1 (rw e at found)
]

among-other :
    (a b : RowId) (ids : List RowId)
    → All (λ y. (y == a) ≡ false) ids
    → among b ids ≡ true
    → (b == a) ≡ false
among-other a b [] h e = cc
among-other a b (x ∷ ids) h e = elim (Bool-cases (x == b)) [
  | inl same ↦ rw (sym ((==_iff x b).0 same)) h.0
  | inr other ↦ among-other a b ids h.1 (rw other at e)
]

among-tail : (b x : RowId) (ids : List RowId) → among b ids ≡ true → among b (x ∷ ids) ≡ true
among-tail b x ids e = rw e (ground arith)

-- The event of a confirmation.
abbrev confirm_event : RowId → FieldMapping → Session → MappingChangeEvent
confirm_event actor_id m s = record {
  id = s.uuids s.drawn;
  field_mapping_id = m.id;
  action = MappingAction.confirmed;
  actor_id = some actor_id;
  before = some (snapshot m);
  after = some (snapshot (as_confirmed actor_id (s.clock s.ticks) m));
  at = s.clock (s.ticks + 1);
}

-- One confirmation of the loop: the tables stay consistent, and the candidates to come as loaded.
confirmed-HasHistory :
    (actor_id : RowId) (m : FieldMapping) (s : Session)
    → IsTraced s.mapping_events m
    → HasHistory s.db
    → HasHistory (apply_confirm m actor_id s).1.db
unfolding apply_confirm add_event
confirmed-HasHistory actor_id m s traced h =
    changed-HasHistory s.db m (as_confirmed actor_id (s.clock s.ticks) m)
      (confirm_event actor_id m s) refl tt refl refl refl traced h

skipped-AreLoaded :
    (candidates : List FieldMapping) (mid : RowId) (ids : List RowId)
    (events : List MappingChangeEvent)
    → AreLoaded candidates (mid ∷ ids) events
    → AreLoaded candidates ids events
skipped-AreLoaded candidates mid ids events h =
    All-map (λ m. among m.id (mid ∷ ids) ≡ true → IsTraced events m)
      (λ m. among m.id ids ≡ true → IsTraced events m) (λ m k e. k (among-tail m.id mid ids e))
      candidates h

confirmed-AreLoaded :
    (actor_id mid : RowId) (ids : List RowId) (m : FieldMapping) (candidates : List FieldMapping)
    (s : Session)
    → m.id ≡ mid
    → All (λ y. (y == mid) ≡ false) ids
    → AreLoaded candidates (mid ∷ ids) s.mapping_events
    → AreLoaded candidates ids (apply_confirm m actor_id s).1.mapping_events
unfolding apply_confirm add_event
confirmed-AreLoaded actor_id mid ids m candidates s own distinct h =
    All-map (λ x. among x.id (mid ∷ ids) ≡ true → IsTraced s.mapping_events x)
      (λ x.
        among x.id ids ≡ true → IsTraced (s.mapping_events ++ (confirm_event actor_id m s ∷ [])) x)
      (λ x k e.
        other-IsTraced s.mapping_events (confirm_event actor_id m s) x
          (other_way m.id x.id mid own (among-other mid x.id ids distinct e))
          (k (among-tail x.id mid ids e)))
      candidates h

confirm_loop-HasHistory :
    (candidates : List FieldMapping) (actor_id : RowId) (ids : List RowId) (r : BulkConfirmResult)
    (s : Session)
    → IsDistinct ids
    → AreLoaded candidates ids s.mapping_events
    → HasHistory s.db
    → HasHistory (confirm_loop candidates actor_id ids r s).1.db
unfolding confirm_loop confirm_one apply_confirm add_event
confirm_loop-HasHistory candidates actor_id [] r s d l h = h
confirm_loop-HasHistory candidates actor_id (mid ∷ ids) r s d l h =
    elim (Option-cases (find_mapping mid candidates)) [
      | inl unknown ↦
          rw (unknown, after)
            (confirm_loop-HasHistory candidates actor_id ids
              (with_failure mid FailReason.not_found_for_source r) s d.1
              (skipped-AreLoaded candidates mid ids s.mapping_events l) h)
      | inr (m, found) ↦ rw found (elim (Bool-cases (is_suggested m.status)) [
        | inr other ↦
            rw (other, after)
              (confirm_loop-HasHistory candidates actor_id ids
                (with_failure mid (FailReason.wrong_status m.status) r) s d.1
                (skipped-AreLoaded candidates mid ids s.mapping_events l) h)
        | inl open_ ↦ rw open_ (
            let (k, own) =
              find_mapping-found (λ x. among x.id (mid ∷ ids) ≡ true → IsTraced s.mapping_events x)
                mid candidates m l found in
            let s' = (apply_confirm m actor_id s).1 in
            confirm_loop-HasHistory candidates actor_id ids
              (record r { confirmed = r.confirmed ++ (mid ∷ []) }) s' d.1
              (confirmed-AreLoaded actor_id mid ids m candidates s own d.0 l)
              (confirmed-HasHistory actor_id m s (k (rw (own, ==_refl mid) refl)) h))
      ])
    ]

pub bulk-HasHistory :
    (enterprise_id data_source_id : RowId) (mapping_ids : List RowId) (actor_id : RowId)
    (s : Session)
    → HasHistory s.db
    → HasHistory (confirm_mappings_bulk enterprise_id data_source_id mapping_ids actor_id s).1.db
unfolding confirm_mappings_bulk owned_source
bulk-HasHistory enterprise_id data_source_id mapping_ids actor_id s h =
    elim (require_one-cases (select (is_owned_source enterprise_id data_source_id) s.data_sources)
      s) [
        | inr (e, bad) ↦ rw (bad, after) h
        | inl (ds, one, good) ↦
            rw (good, after)
              (let requested = dedupe mapping_ids in
                let candidates =
                  select (is_candidate enterprise_id data_source_id requested s.data_sources)
                    s.mappings in
                confirm_loop-HasHistory candidates actor_id requested
                  (empty_result data_source_id requested) s (dedupe-IsDistinct mapping_ids)
                  (All-map (IsTraced s.mapping_events)
                    (λ m. among m.id requested ≡ true → IsTraced s.mapping_events m) (λ m k e. k)
                    candidates
                    (All-select (is_candidate enterprise_id data_source_id requested s.data_sources)
                      (IsTraced s.mapping_events) s.mappings h.1))
                  h)
      ]
