-- ===== src/Suggestions/Known.antt =====
-- About suggest_mappings_for_source of src/app/integration/mapping_ai.py.
use mathlib.Core.Path.{subst}
use mathlib.Core.List.{append-nil, append_assoc}
use smart_procurement_backen.Prelude.{
  ℕ, ◌≡◌, refl, sym, ap, ◌∙◌, String, Bool, true, false, not, ◌||◌, Option, none, List, [], ◌∷◌,
  ◌++◌, map, ◌==◌, Bool-cases, inl, inr, All,
}
use smart_procurement_backen.Errors.{Result, ok, err}
use smart_procurement_backen.Table.{select}
use smart_procurement_backen.Models.Basic.{RowId}
use smart_procurement_backen.Models.Integration.{
  DataSource, SourceField, FieldMapping, MappingStatus,
}
use smart_procurement_backen.Session.{Db, Session, after, pure, require_one-cases}
use smart_procurement_backen.Mappings.{text_in, add_event, is_owned_source}
use smart_procurement_backen.Observability.Unique.{IsUnique}
use smart_procurement_backen.DataSources.{get_data_source}
use smart_procurement_backen.Ai.{Attempt, generate_structured}
use smart_procurement_backen.Ai.Attempts.{Generates, generate_structured-Generates}
use smart_procurement_backen.Suggestions.{
  Suggestion, Key, suggestion_key, mapping_key, key_among, suggested_mapping, add_suggestion,
  is_skipped, suggestion_loop, field_paths, store_suggestions, suggest_for_fields,
  suggest_mappings_for_source,
}

-- A mapping that only a human can make count: suggested, confirmed by nobody, of a known field.
abbrev pub IsProposal : RowId → List String → FieldMapping → Type 0
IsProposal data_source_id known m =
    (text_in m.source_field_path known ≡ true)
    × (m.data_source_id ≡ data_source_id)
    × (m.status ≡ MappingStatus.suggested)
    × (m.confirmed_by ≡ none)

-- No key is among those seen before it.
abbrev pub AreNew : List Key → List FieldMapping → Type 0
AreNew seen [] = Unit
AreNew seen (m ∷ ms) = (key_among (mapping_key m) seen ≡ false) × AreNew (mapping_key m ∷ seen) ms

-- The mappings that a call appended to the table.
abbrev pub Proposes :
    RowId
    → List String
    → List Key
    → List FieldMapping
    → Result (List FieldMapping) × Session
    → Type 0
Proposes data_source_id known seen before (ok created, s') =
    (s'.mappings ≡ before ++ created)
    × All (IsProposal data_source_id known) created
    × AreNew seen created
Proposes data_source_id known seen before (err e, s') = s'.mappings ≡ before

not_skipped : (a b : Bool) → (not a || b) ≡ false → (a ≡ true) × (b ≡ false)
not_skipped true b h = (refl, h)
not_skipped false b h = cc

-- One mapping more in front.
extended :
    (data_source_id : RowId) (known : List String) (seen : List Key) (before : List FieldMapping)
    (m : FieldMapping) (r : Result (List FieldMapping) × Session)
    → IsProposal data_source_id known m
    → key_among (mapping_key m) seen ≡ false
    → ((created : List FieldMapping) × (r.0 ≡ ok created))
    → Proposes data_source_id known (mapping_key m ∷ seen) (before ++ (m ∷ [])) r
    → let r' = after (λ created. pure (m ∷ created)) r in
      ((created : List FieldMapping) × (r'.0 ≡ ok created))
      × Proposes data_source_id known seen before r'
extended data_source_id known seen before m (ok created, t) proposal new returned
      (same, all, others) =
    (
      (m ∷ created, refl),
      (same ∙ append_assoc before (m ∷ []) created, (proposal, all), (new, others)),
    )
extended data_source_id known seen before m (err e, t) proposal new (created, returned) same = cc

suggestion_loop-Proposes :
    (data_source_id : RowId) (known : List String) (suggestions : List Suggestion) (seen : List Key)
    (s : Session)
    → let r = suggestion_loop data_source_id known seen suggestions s in
      ((created : List FieldMapping) × (r.0 ≡ ok created))
      × Proposes data_source_id known seen s.mappings r
unfolding suggestion_loop add_suggestion add_event
suggestion_loop-Proposes data_source_id known [] seen s =
    (([], refl), (sym (append-nil s.mappings), tt, tt))
suggestion_loop-Proposes data_source_id known (x ∷ xs) seen s =
    elim (Bool-cases (is_skipped known seen x)) [
      | inl skip ↦ rw skip (suggestion_loop-Proposes data_source_id known xs seen s)
      | inr new ↦
          let (is_known, unseen) =
            not_skipped (text_in x.source_field_path known) (key_among (suggestion_key x) seen)
              new in
          let m = suggested_mapping data_source_id x (s.uuids s.drawn) in
          let t = (add_suggestion data_source_id x s).1 in
          let (returned, rest) =
            suggestion_loop-Proposes data_source_id known xs (suggestion_key x ∷ seen) t in
          rw new (
            extended data_source_id known seen s.mappings m
              (suggestion_loop data_source_id known (suggestion_key x ∷ seen) xs t)
              (is_known, refl, refl, refl) unseen returned rest)
    ]

-- The keys of the mappings that the source has.
abbrev pub keys_of : RowId → Session → List Key
keys_of data_source_id s =
    map mapping_key (select (λ m. m.data_source_id == data_source_id) s.mappings)

module _ (generate : ℕ → Attempt (List Suggestion)) (enterprise_id : RowId)
    (correlation_id : Option RowId) where
  stored-Proposes :
      (data_source_id : RowId) (known : List String) (s : Session)
      (r : Result (List Suggestion) × Session)
      → Generates generate enterprise_id "proc.inventory.observe" correlation_id
          "generate_structured:MappingSuggestionSet" 3 s r
      → Proposes data_source_id known
          (keys_of data_source_id s)
          s.mappings
          (after (store_suggestions data_source_id known) r)
  unfolding store_suggestions
  stored-Proposes data_source_id known s (ok suggestions, t) (first, same) =
      subst
        (λ x.
          Proposes data_source_id known (keys_of data_source_id s) s.mappings
            (store_suggestions data_source_id known suggestions x))
        (sym same)
        (suggestion_loop-Proposes data_source_id known suggestions (keys_of data_source_id s) s).1
  stored-Proposes data_source_id known s (err e, t)
        (g, row, failures, unavailable, open_now, kind, capability, written) =
      ap (λ (db : Db). db.mappings) written

  for_fields-Proposes :
      (data_source_id : RowId) (fields : List SourceField) (s : Session)
      → IsUnique s.gaps
      → Proposes data_source_id
          (field_paths fields)
          (keys_of data_source_id s)
          s.mappings
          (suggest_for_fields generate enterprise_id data_source_id correlation_id fields s)
  unfolding suggest_for_fields
  for_fields-Proposes data_source_id [] s h = refl
  for_fields-Proposes data_source_id (f ∷ fields) s h =
      stored-Proposes data_source_id (field_paths (f ∷ fields)) s
        (generate_structured generate enterprise_id "proc.inventory.observe" correlation_id
          "generate_structured:MappingSuggestionSet" 3 s)
        (generate_structured-Generates generate enterprise_id "proc.inventory.observe"
          correlation_id "generate_structured:MappingSuggestionSet" 3 s h)

  -- The fields of the source that a call is about.
  abbrev pub paths_of : RowId → Session → List String
  paths_of data_source_id s =
      field_paths (select (λ f. f.data_source_id == data_source_id) s.source_fields)

  -- A call that returns is about the only source of the enterprise with the id.
  abbrev pub Suggests : RowId → Session → Result (List FieldMapping) × Session → Type 0
  Suggests data_source_id s (ok created, s') =
      (ds : DataSource) × (select (is_owned_source enterprise_id data_source_id) s.data_sources
        ≡ ds ∷ [])
      × Proposes ds.id (paths_of ds.id s) (keys_of ds.id s) s.mappings (ok created, s')
  Suggests data_source_id s (err e, s') = s'.mappings ≡ s.mappings

  proposed-Suggests :
      (data_source_id : RowId) (ds : DataSource) (s : Session)
      (r : Result (List FieldMapping) × Session)
      → select (is_owned_source enterprise_id data_source_id) s.data_sources ≡ ds ∷ []
      → Proposes ds.id (paths_of ds.id s) (keys_of ds.id s) s.mappings r
      → Suggests data_source_id s r
  proposed-Suggests data_source_id ds s (ok created, t) one h = (ds, one, h)
  proposed-Suggests data_source_id ds s (err e, t) one h = h

  -- Whatever the model answers, the only mappings that appear are suggested ones of fields that the
  -- source has, each with a key that neither an earlier mapping of the source nor an earlier
  -- suggestion has, and no mapping is changed, where at most one gap is open for each key.
  pub suggest_mappings-Suggests :
      (data_source_id : RowId) (s : Session)
      → IsUnique s.gaps
      → Suggests data_source_id s
          (suggest_mappings_for_source generate enterprise_id data_source_id correlation_id s)
  unfolding suggest_mappings_for_source get_data_source
  suggest_mappings-Suggests data_source_id s h =
      elim (require_one-cases (select (is_owned_source enterprise_id data_source_id) s.data_sources)
        s) [
          | inr (e, bad) ↦ rw (bad, after) refl
          | inl (ds, one, good) ↦
              rw (good, after)
                (let fields =
                    select (λ (f : SourceField). f.data_source_id == ds.id) s.source_fields in
                  proposed-Suggests data_source_id ds s
                    (suggest_for_fields generate enterprise_id ds.id correlation_id fields s) one
                    (for_fields-Proposes ds.id fields s h))
        ]
