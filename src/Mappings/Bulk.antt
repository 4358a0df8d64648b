-- ===== src/Mappings/Bulk.antt =====
-- About confirm_mappings_bulk of src/app/integration/mapping_service.py.
use mathlib.Core.List.{append-nil, append_assoc}
use smart_procurement_backen.Prelude.{
  ◌≡◌, refl, sym, ◌∙◌, ap, Bool, true, false, not, List, [], ◌∷◌, ◌++◌, map, ◌==◌, Bool-cases,
  Option-cases, inl, inr, All, All-map,
}
use smart_procurement_backen.Errors.{Result, ok, err}
use smart_procurement_backen.Table.{select}
use smart_procurement_backen.Table.Select.{select-All, All-select}
use smart_procurement_backen.Models.Basic.{RowId}
use smart_procurement_backen.Models.Integration.{DataSource, FieldMapping}
use smart_procurement_backen.Session.{Session, after, require_one-single}
use smart_procurement_backen.Mappings.{is_owned_source, owned_source, add_event, apply_confirm}
use smart_procurement_backen.Mappings.Applied.{
  is_eligible, map-append, Applies, confirm_loop-Applies,
}
use smart_procurement_backen.Mappings.BulkConfirm.{
  dedupe, is_candidate, find_mapping, FailReason, BulkConfirmResult, is_suggested, with_failure,
  confirm_one, confirm_loop, confirm_mappings_bulk,
}

-- No id occurs twice.
abbrev pub IsDistinct : List RowId → Type 0
IsDistinct [] = Unit
IsDistinct (x ∷ xs) = All (λ y. (y == x) ≡ false) xs × IsDistinct xs

not-true : (b : Bool) → not b ≡ true → b ≡ false
not-true true h = cc
not-true false h = refl

select-IsDistinct : (p : RowId → Bool) (xs : List RowId) → IsDistinct xs → IsDistinct (select p xs)
select-IsDistinct p [] h = tt
select-IsDistinct p (x ∷ xs) h = elim (Bool-cases (p x)) [
  | inl e ↦ rw e (All-select p (λ y. (y == x) ≡ false) xs h.0, select-IsDistinct p xs h.1)
  | inr e ↦ rw e (select-IsDistinct p xs h.1)
]

pub dedupe-IsDistinct : (ids : List RowId) → IsDistinct (dedupe ids)
unfolding dedupe
dedupe-IsDistinct [] = tt
dedupe-IsDistinct (x ∷ xs) = (
  All-map (λ y. not (y == x) ≡ true) (λ y. (y == x) ≡ false) (λ y. not-true (y == x))
      (select (λ y. not (y == x)) (dedupe xs)) (select-All (λ y. not (y == x)) (dedupe xs)),
  select-IsDistinct (λ y. not (y == x)) (dedupe xs) (dedupe-IsDistinct xs),
)

-- The report names every requested id once: those of eligible mappings as confirmed, the others as
-- failed.
abbrev pub Reports :
    List FieldMapping → List RowId → BulkConfirmResult → Result BulkConfirmResult → Type 0
Reports candidates ids r (ok r') =
    (r'.data_source_id ≡ r.data_source_id)
    × (r'.requested ≡ r.requested)
    × (r'.confirmed ≡ r.confirmed ++ select (is_eligible candidates) ids)
    × (map (λ f. f.0) r'.failed
        ≡ map (λ f. f.0) r.failed ++ select (λ mid. not (is_eligible candidates mid)) ids)
Reports candidates ids r (err e) = ⊥

-- One id more in front.
confirmed-Reports :
    (candidates : List FieldMapping) (mid : RowId) (ids : List RowId) (r : BulkConfirmResult)
    (x : Result BulkConfirmResult)
    → is_eligible candidates mid ≡ true
    → Reports candidates ids (record r { confirmed = r.confirmed ++ (mid ∷ []) }) x
    → Reports candidates (mid ∷ ids) r x
confirmed-Reports candidates mid ids r (ok r') e h =
    rw e (
      h.0,
      h.1,
      h.2 ∙ append_assoc r.confirmed (mid ∷ []) (select (is_eligible candidates) ids),
      h.3,
    )
confirmed-Reports candidates mid ids r (err x) e h = h

failed-Reports :
    (candidates : List FieldMapping) (mid : RowId) (reason : FailReason) (ids : List RowId)
    (r : BulkConfirmResult) (x : Result BulkConfirmResult)
    → is_eligible candidates mid ≡ false
    → Reports candidates ids (record r { failed = r.failed ++ ((mid, reason) ∷ []) }) x
    → Reports candidates (mid ∷ ids) r x
failed-Reports candidates mid reason ids r (ok r') e h =
    let others = select (λ y. not (is_eligible candidates y)) ids in
    rw e (
      h.0,
      h.1,
      h.2,
      h.3
          ∙ ap (λ t. t ++ others)
              (map-append (λ (f : RowId × FailReason). f.0) r.failed ((mid, reason) ∷ []))
          ∙ append_assoc (map (λ f. f.0) r.failed) (mid ∷ []) others,
    )
failed-Reports candidates mid reason ids r (err x) e h = h

confirm_loop-Reports :
    (candidates : List FieldMapping) (actor_id : RowId) (ids : List RowId) (r : BulkConfirmResult)
    (s : Session)
    → Reports candidates ids r (confirm_loop candidates actor_id ids r s).0
unfolding confirm_loop confirm_one apply_confirm add_event
confirm_loop-Reports candidates actor_id [] r s =
    (refl, refl, sym (append-nil r.confirmed), sym (append-nil (map (λ f. f.0) r.failed)))
confirm_loop-Reports candidates actor_id (mid ∷ ids) r s =
    elim (Option-cases (find_mapping mid candidates)) [
      | inl unknown ↦
          rw (unknown, after)
            (failed-Reports candidates mid FailReason.not_found_for_source ids r
              (confirm_loop candidates actor_id ids
                (with_failure mid FailReason.not_found_for_source r) s).0
              (rw (unknown, is_eligible) refl)
              (confirm_loop-Reports candidates actor_id ids
                (with_failure mid FailReason.not_found_for_source r) s))
      | inr (m, found) ↦ rw found (elim (Bool-cases (is_suggested m.status)) [
        | inr other ↦
            rw (other, after)
              (failed-Reports candidates mid (FailReason.wrong_status m.status) ids r
                (confirm_loop candidates actor_id ids
                  (with_failure mid (FailReason.wrong_status m.status) r) s).0
                (rw (found, is_eligible) other)
                (confirm_loop-Reports candidates actor_id ids
                  (with_failure mid (FailReason.wrong_status m.status) r) s))
        | inl open_ ↦
            rw (open_, after)
              (let r' : BulkConfirmResult = record r { confirmed = r.confirmed ++ (mid ∷ []) } in
                let s' = (apply_confirm m actor_id s).1 in
                confirmed-Reports candidates mid ids r
                  (confirm_loop candidates actor_id ids r' s').0 (rw (found, is_eligible) open_)
                  (confirm_loop-Reports candidates actor_id ids r' s'))
      ])
    ]

abbrev pub empty_result : RowId → List RowId → BulkConfirmResult
empty_result data_source_id requested = record {
  data_source_id = data_source_id;
  requested = requested;
  confirmed = [];
  failed = [];
}

-- For a source of the enterprise the call returns. Its report names no id twice, the requested ids of the
-- source whose mapping is suggested as confirmed and each other one as failed. In the table the mappings
-- with the former ids are then confirmed by the user, those with any other id are as they were, and one
-- event is added for each confirmed id, in the order of the report.
pub confirm_mappings_bulk-Reports :
    (enterprise_id data_source_id actor_id : RowId) (mapping_ids : List RowId) (ds : DataSource)
    (s : Session)
    → select (is_owned_source enterprise_id data_source_id) s.data_sources ≡ ds ∷ []
    → let requested = dedupe mapping_ids in
      let candidates =
        select (is_candidate enterprise_id data_source_id requested s.data_sources) s.mappings in
      IsDistinct requested
      × Reports candidates requested
          (empty_result data_source_id requested)
          (confirm_mappings_bulk enterprise_id data_source_id mapping_ids actor_id s).0
      × Applies candidates actor_id requested s
          (confirm_mappings_bulk enterprise_id data_source_id mapping_ids actor_id s).1
unfolding confirm_mappings_bulk owned_source
confirm_mappings_bulk-Reports enterprise_id data_source_id actor_id mapping_ids ds s one =
    let requested = dedupe mapping_ids in
    let candidates =
      select (is_candidate enterprise_id data_source_id requested s.data_sources) s.mappings in
    (
      dedupe-IsDistinct mapping_ids,
      rw (one, require_one-single ds s)
          (confirm_loop-Reports candidates actor_id requested
            (empty_result data_source_id requested) s),
      rw (one, require_one-single ds s)
          (confirm_loop-Applies candidates actor_id requested
            (empty_result data_source_id requested) s),
    )
