-- ===== src/Mappings/Applied.antt =====
-- About confirm_mappings_bulk of src/app/integration/mapping_service.py, the rows and events it writes.
use mathlib.Core.List.{append-nil, append_assoc}
use mathlib.Core.Path.{subst}
use smart_procurement_backen.Prelude.{
  suc, ◌≡◌, refl, sym, ◌∙◌, ap, Bool, true, false, ◌&&◌, ◌||◌, none, some, List, [], ◌∷◌, ◌++◌, map,
  ◌==◌, ==_iff, Bool-cases, Option-cases, inl, inr, All, length,
}
use smart_procurement_backen.Table.{select, update}
use smart_procurement_backen.Table.Update.{select-update_miss}
use smart_procurement_backen.Models.Basic.{RowId}
use smart_procurement_backen.Models.Integration.{FieldMapping, MappingStatus, MappingChangeEvent}
use smart_procurement_backen.Session.{Session, after}
use smart_procurement_backen.Mappings.{has_mapping_id, as_confirmed, add_event, apply_confirm}
use smart_procurement_backen.Mappings.BulkConfirm.{
  among, find_mapping, FailReason, BulkConfirmResult, is_suggested, with_failure, confirm_one,
  confirm_loop,
}

-- A mapping of the source is there for the id, and it is suggested.
abbrev pub is_eligible : List FieldMapping → RowId → Bool
is_eligible candidates mid = elim (find_mapping mid candidates) [
  | none ↦ false
  | some m ↦ is_suggested m.status
]

abbrev pub IsConfirmedBy : RowId → FieldMapping → Type 0
IsConfirmedBy actor_id m = (m.status ≡ MappingStatus.confirmed) × (m.confirmed_by ≡ some actor_id)

-- The rows of an id before and after: all confirmed by the user, or as they were.
abbrev pub Confirms : RowId → Bool → List FieldMapping → List FieldMapping → Type 0
Confirms actor_id true before rows =
    All (IsConfirmedBy actor_id) rows × (length rows ≡ length before)
Confirms actor_id false before rows = rows ≡ before

abbrev pub mapping_ids_of : List MappingChangeEvent → List RowId
mapping_ids_of events = map (λ (e : MappingChangeEvent). e.field_mapping_id) events

-- The rows of the eligible ids of a list are confirmed, those of other ids stay as they were, and one
-- event is added for each eligible id, in the order of the list.
abbrev pub Applies : List FieldMapping → RowId → List RowId → Session → Session → Type 0
Applies candidates actor_id ids s s' =
    ((id : RowId)
      → Confirms actor_id (among id ids && is_eligible candidates id)
          (select (has_mapping_id id) s.mappings) (select (has_mapping_id id) s'.mappings))
    × (mapping_ids_of s'.mapping_events
        ≡ mapping_ids_of s.mapping_events ++ select (is_eligible candidates) ids)

-- A written row stands at its id as often as there were rows.
written-confirmed :
    (actor_id : RowId) (m : FieldMapping) (id : RowId) (rows : List FieldMapping)
    → IsConfirmedBy actor_id m
    → (m.id == id) ≡ true
    → Confirms actor_id true
        (select (has_mapping_id id) rows)
        (select (has_mapping_id id) (update (has_mapping_id id) (λ _. m) rows))
written-confirmed actor_id m id [] c own = (tt, refl)
written-confirmed actor_id m id (x ∷ rows) c own =
    let (all, same) = written-confirmed actor_id m id rows c own in
    elim (Bool-cases (x.id == id)) [
      | inl hit ↦ rw (hit, own) ((c, all), ap suc same)
      | inr miss ↦ rw (miss, miss) (all, same)
    ]

-- What was confirmed before stays so.
then-confirmed :
    (actor_id : RowId) (b : Bool) (before middle rows : List FieldMapping)
    → Confirms actor_id true before middle
    → Confirms actor_id b middle rows
    → Confirms actor_id true before rows
then-confirmed actor_id true before middle rows (all, same) (all', same') = (all', same' ∙ same)
then-confirmed actor_id false before middle rows (all, same) h = rw h (all, same)

find_mapping-id :
    (mid : RowId) (candidates : List FieldMapping) (m : FieldMapping)
    → find_mapping mid candidates ≡ some m
    → m.id ≡ mid
find_mapping-id mid [] m h = cc
find_mapping-id mid (x ∷ xs) m h = elim (Bool-cases (has_mapping_id mid x)) [
  | inl e ↦
      let same : x ≡ m = cc (rw e at h) in
      sym (ap (λ (y : FieldMapping). y.id) same) ∙ (==_iff x.id mid).0 e
  | inr e ↦ find_mapping-id mid xs m (rw e at h)
]

pub map-append {ℓ} :
    {A B : Type ℓ} (f : A → B) (xs ys : List A) → map f (xs ++ ys) ≡ map f xs ++ map f ys
map-append f [] ys = refl
map-append f (x ∷ xs) ys = ap (λ t. f x ∷ t) (map-append f xs ys)

-- An id that is not eligible adds nothing to the test.
test-skipped : (x y c : Bool) → (x ≡ true → c ≡ false) → (y && c) ≡ ((x || y) && c)
test-skipped true true c h = refl
test-skipped true false c h = sym (h refl)
test-skipped false y c h = refl

test-confirmed : (x y c : Bool) → x ≡ true → c ≡ true → true ≡ ((x || y) && c)
test-confirmed true y c h h' = sym h'
test-confirmed false y c h h' = cc

skipped-Applies :
    (candidates : List FieldMapping) (actor_id mid : RowId) (ids : List RowId) (s s' : Session)
    → is_eligible candidates mid ≡ false
    → Applies candidates actor_id ids s s'
    → Applies candidates actor_id (mid ∷ ids) s s'
skipped-Applies candidates actor_id mid ids s s' none_ (rows, events) = (
  λ id.
      subst
        (λ b.
          Confirms actor_id b (select (has_mapping_id id) s.mappings)
            (select (has_mapping_id id) s'.mappings))
        (test-skipped (mid == id) (among id ids) (is_eligible candidates id)
          (λ same. ap (is_eligible candidates) (sym ((==_iff mid id).0 same)) ∙ none_))
        (rows id),
  rw none_ events,
)

module _ (candidates : List FieldMapping) (actor_id mid : RowId) (ids : List RowId)
    (m : FieldMapping) (s s' : Session) (on : is_eligible candidates mid ≡ true)
    (own : m.id ≡ mid) where
  abbrev written : List FieldMapping
  written = update (has_mapping_id m.id) (λ _. as_confirmed actor_id (s.clock s.ticks) m) s.mappings

  own-Confirms :
      (id : RowId) (b : Bool)
      → mid ≡ id
      → Confirms actor_id b
          (select (has_mapping_id id) written)
          (select (has_mapping_id id) s'.mappings)
      → Confirms actor_id true
          (select (has_mapping_id id) s.mappings)
          (select (has_mapping_id id) s'.mappings)
  own-Confirms id b same h =
      then-confirmed actor_id b (select (has_mapping_id id) s.mappings)
        (select (has_mapping_id id) written) (select (has_mapping_id id) s'.mappings)
        (subst
          (λ k. Confirms actor_id true (select (has_mapping_id id) s.mappings) (
            select (has_mapping_id id) (
              update (has_mapping_id k) (λ _. as_confirmed actor_id (s.clock s.ticks) m)
                s.mappings)))
          (sym (own ∙ same))
          (written-confirmed actor_id (as_confirmed actor_id (s.clock s.ticks) m) id s.mappings
            (refl, refl) ((==_iff m.id id).1 (own ∙ same))))
        h

  other-rows :
      (id : RowId)
      → (mid == id) ≡ false
      → select (has_mapping_id id) written ≡ select (has_mapping_id id) s.mappings
  other-rows id other =
      select-update_miss (has_mapping_id m.id) (λ _. as_confirmed actor_id (s.clock s.ticks) m)
        (has_mapping_id id) (λ x hit. rw ((==_iff x.id m.id).0 hit ∙ own) other)
        (λ x hit. rw own other) s.mappings

  confirmed-Applies :
      Applies candidates actor_id ids (apply_confirm m actor_id s).1 s'
      → Applies candidates actor_id (mid ∷ ids) s s'
  unfolding apply_confirm add_event
  confirmed-Applies (rows, events) = (
    λ id. elim (Bool-cases (mid == id)) [
      | inl same ↦
          let is : mid ≡ id = (==_iff mid id).0 same in
          subst
            (λ b.
              Confirms actor_id b (select (has_mapping_id id) s.mappings)
                (select (has_mapping_id id) s'.mappings))
            (test-confirmed (mid == id) (among id ids) (is_eligible candidates id) same
              (sym (ap (is_eligible candidates) is) ∙ on))
            (own-Confirms id (among id ids && is_eligible candidates id) is (rows id))
      | inr other ↦ rw other (
          subst
            (λ before.
              Confirms actor_id (among id ids && is_eligible candidates id) before
                (select (has_mapping_id id) s'.mappings))
            (other-rows id other) (rows id))
    ],
    rw on (
        events
        ∙ ap (λ t. t ++ select (is_eligible candidates) ids)
            (map-append (λ (e : MappingChangeEvent). e.field_mapping_id) s.mapping_events _)
        ∙ append_assoc (mapping_ids_of s.mapping_events) (m.id ∷ [])
            (select (is_eligible candidates) ids)
        ∙ ap (λ k. mapping_ids_of s.mapping_events ++ (k ∷ select (is_eligible candidates) ids))
            own),
  )

pub confirm_loop-Applies :
    (candidates : List FieldMapping) (actor_id : RowId) (ids : List RowId) (r : BulkConfirmResult)
    (s : Session)
    → Applies candidates actor_id ids s (confirm_loop candidates actor_id ids r s).1
unfolding confirm_loop confirm_one apply_confirm add_event
confirm_loop-Applies candidates actor_id [] r s =
    ((λ id. refl), sym (append-nil (mapping_ids_of s.mapping_events)))
confirm_loop-Applies candidates actor_id (mid ∷ ids) r s =
    elim (Option-cases (find_mapping mid candidates)) [
      | inl unknown ↦
          rw (unknown, after)
            (skipped-Applies candidates actor_id mid ids s
              (confirm_loop candidates actor_id ids
                (with_failure mid FailReason.not_found_for_source r) s).1
              (rw (unknown, is_eligible) refl)
              (confirm_loop-Applies candidates actor_id ids
                (with_failure mid FailReason.not_found_for_source r) s))
      | inr (m, found) ↦ rw found (elim (Bool-cases (is_suggested m.status)) [
        | inr other ↦
            rw (other, after)
              (skipped-Applies candidates actor_id mid ids s
                (confirm_loop candidates actor_id ids
                  (with_failure mid (FailReason.wrong_status m.status) r) s).1
                (rw (found, is_eligible) other)
                (confirm_loop-Applies candidates actor_id ids
                  (with_failure mid (FailReason.wrong_status m.status) r) s))
        | inl open_ ↦
            rw (open_, after)
              (let r' : BulkConfirmResult = record r { confirmed = r.confirmed ++ (mid ∷ []) } in
                let s' = (apply_confirm m actor_id s).1 in
                confirmed-Applies candidates actor_id mid ids m s
                  (confirm_loop candidates actor_id ids r' s').1 (rw (found, is_eligible) open_)
                  (find_mapping-id mid candidates m found)
                  (confirm_loop-Applies candidates actor_id ids r' s'))
      ])
    ]
