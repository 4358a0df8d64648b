-- ===== src/Handlers.antt =====
-- The job handlers of src/app/integration/jobs.py, observation/jobs.py and analysis/jobs.py, which the
-- worker finds by the kind of a job.
pub mod Chain
pub mod Quiet
mod Tests
use smart_procurement_backen.Prelude.{ℕ, String, Option, none, some, List, [], ◌∷◌, ◌==◌}
use smart_procurement_backen.Prelude.Dict.{get}
use smart_procurement_backen.Prelude.Decimal.{Decimal}
use smart_procurement_backen.Errors.{
  Error, Result, ok, err, key_error, value_error, llm_unavailable,
}
use smart_procurement_backen.Table.{select}
use smart_procurement_backen.Models.Basic.{
  RowId, Time, Json, null, text, number, boolean, number_text, uuid_text, uuid_texts, Payload,
}
use smart_procurement_backen.Models.Jobs.{Job}
use smart_procurement_backen.Models.Integration.{DataSource, SourceField, FieldMapping}
use smart_procurement_backen.Models.Analysis.{RiskFinding, EvidenceRef, Explanation}
use smart_procurement_backen.Session.{Db, Session, Exec, pure, gets, lift, ◌>>=◌, ◌>>◌}
use smart_procurement_backen.Jobs.{enqueue, reschedule_recurring, default_max_attempts}
use smart_procurement_backen.Worker.{JobHandler, Handlers}
use smart_procurement_backen.DataSources.{has_source_id}
use smart_procurement_backen.Ai.{Attempt}
use smart_procurement_backen.Suggestions.{Suggestion, suggest_mappings_for_source}
use smart_procurement_backen.Sync.Records.{Texts}
use smart_procurement_backen.DataSources.Connection.{Vault}
use smart_procurement_backen.Sync.Run.{Fetch, sync_source}
use smart_procurement_backen.Aggregates.{recompute_aggregates}
use smart_procurement_backen.Risks.Detect.{detect_risks}
use smart_procurement_backen.Explain.{RiskExplanation, explain_risk}

-- `uuid.UUID(payload[key])`: a value that is no text of a uuid is refused.
abbrev pub as_uuid : Option Json → Result RowId
as_uuid none = err key_error
as_uuid (some (uuid_text id)) = ok id
as_uuid (some other) = err value_error

-- `payload.get("item_ids", [])`, with its elements as ids
abbrev pub as_uuids : Option Json → Result (List RowId)
as_uuids none = ok []
as_uuids (some (uuid_texts ids)) = ok ids
as_uuids (some other) = err value_error

-- The recomputation, and the detection that follows it.
unfoldable pub recompute_then_detect :
    (Decimal → Decimal → Decimal) → RowId → List RowId → Exec (Unit {0})
recompute_then_detect divide enterprise_id item_ids = do
  recompute_aggregates divide enterprise_id item_ids
  enqueue "detect_risks" (("enterprise_id", uuid_text enterprise_id) ∷ []) none (some enterprise_id)
      default_max_attempts
  pure tt

unfoldable pub recompute_aggregates_handler : (Decimal → Decimal → Decimal) → JobHandler
recompute_aggregates_handler divide job = do
  enterprise_id ← lift (as_uuid (get "enterprise_id" job.payload))
  item_ids ← lift (as_uuids (get "item_ids" job.payload))
  recompute_then_detect divide enterprise_id item_ids

unfoldable pub detect_risks_handler : JobHandler
detect_risks_handler job = do
  enterprise_id ← lift (as_uuid (get "enterprise_id" job.payload))
  detect_risks enterprise_id
  pure tt

-- `except LLMUnavailable: pass`
abbrev pub swallow : Result Explanation × Session → Result (Unit {0}) × Session
swallow (ok x, s) = (ok tt, s)
swallow (err llm_unavailable, s) = (ok tt, s)
swallow (err e, s) = (err e, s)

-- The handler passes no provider; the settings give the model.
module _ (anthropic_model : String) (id_text : RowId → String)
    (generate : RiskFinding → List EvidenceRef → ℕ → Attempt RiskExplanation) where
  unfoldable pub explain_quietly : RowId → RowId → Exec (Unit {0})
  explain_quietly enterprise_id risk_finding_id = λ s.
      swallow (explain_risk none anthropic_model id_text generate enterprise_id risk_finding_id s)

  unfoldable pub generate_explanation_handler : JobHandler
  generate_explanation_handler job = do
    enterprise_id ← lift (as_uuid (get "enterprise_id" job.payload))
    risk_finding_id ← lift (as_uuid (get "risk_finding_id" job.payload))
    explain_quietly enterprise_id risk_finding_id

-- `session.get(DataSource, data_source_id)`
abbrev pub first_source : List DataSource → Option DataSource
first_source [] = none
first_source (ds ∷ rest) = some ds

-- `if ds is not None:`
unfoldable pub reschedule_source : RowId → Payload → Option DataSource → Exec (Unit {0})
reschedule_source enterprise_id payload none = pure tt
reschedule_source enterprise_id payload (some ds) =
    reschedule_recurring "observe_source" ds.observation_interval_seconds payload
      (some enterprise_id)
    >> pure tt

module _ (t : Texts) (vault : Vault)
    (fetch : DataSource → Option String → Option Time → Fetch) where
  -- The synchronisation, and the next run.
  unfoldable pub sync_then_reschedule : RowId → RowId → Payload → Exec (Unit {0})
  sync_then_reschedule enterprise_id data_source_id payload = do
    sync_source t vault fetch enterprise_id data_source_id none
    ds ← gets (λ db. first_source (select (has_source_id data_source_id) db.data_sources))
    reschedule_source enterprise_id payload ds

  unfoldable pub observe_source_handler : JobHandler
  observe_source_handler job = do
    enterprise_id ← lift (as_uuid (get "enterprise_id" job.payload))
    data_source_id ← lift (as_uuid (get "data_source_id" job.payload))
    sync_then_reschedule enterprise_id data_source_id job.payload

unfoldable pub suggest_mapping_handler : (ℕ → Attempt (List Suggestion)) → JobHandler
suggest_mapping_handler suggest job = do
  enterprise_id ← lift (as_uuid (get "enterprise_id" job.payload))
  data_source_id ← lift (as_uuid (get "data_source_id" job.payload))
  suggest_mappings_for_source suggest enterprise_id data_source_id none
  pure tt

-- The registrations of the three modules.
abbrev pub registered : JobHandler → JobHandler → JobHandler → JobHandler → JobHandler → Handlers
registered suggest observe recompute detect explain =
    ("suggest_mapping", suggest)
    ∷ ("observe_source", observe)
    ∷ ("recompute_aggregates", recompute)
    ∷ ("detect_risks", detect)
    ∷ ("generate_explanation", explain)
    ∷ []
