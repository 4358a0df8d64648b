-- ===== src/Ai.antt =====
-- src/app/ai/structured.py: typed output of a model, with a fail-safe path. What an attempt brings (the
-- provider's answer, its JSON decoded and validated) is an argument, for each attempt; the pauses
-- between attempts are left out.
pub mod Attempts
mod Tests
use smart_procurement_backen.Prelude.{
  ℕ, zero, suc, ◌+◌, String, Bool, true, false, Option, none, some, List, [], ◌∷◌,
}
use smart_procurement_backen.Errors.{Result, ok, err, llm_unavailable}
use smart_procurement_backen.Models.Basic.{RowId, Payload, text, number}
use smart_procurement_backen.Models.Audit.{ai_unavailable, not_applicable}
use smart_procurement_backen.Models.Observation.{Scope, key_ref, GapReason}
use smart_procurement_backen.Session.{Exec, pure, raise, ◌>>=◌, ◌>>◌}
use smart_procurement_backen.Observability.{GapKey, open_gap}
use smart_procurement_backen.Audit.{AuditEvent, record_event}

-- A valid output, or the text of `last_error`: a provider raises nothing but LLMUnavailable, and its
-- answer is decoded and validated or an attempt fails.
pub data Attempt (A : Type 0) : Type 0 where
  valid : A → Attempt A
  failed : String → Attempt A

-- How the loop ends: an output, or the last error.
pub data Outcome (A : Type 0) : Type 0 where
  output : A → Outcome A
  exhausted : String → Outcome A

abbrev pub ai_gap : RowId → String → GapKey
ai_gap enterprise_id capability_key = record {
  enterprise_id = enterprise_id;
  scope = Scope.capability;
  scope_ref = key_ref capability_key;
  reason = GapReason.ai_unavailable;
}

abbrev pub ai_event : RowId → String → Option RowId → String → String → ℕ → AuditEvent
ai_event enterprise_id capability_key correlation_id action last_error attempts = record {
  enterprise_id = enterprise_id;
  event_type = ai_unavailable;
  correlation_id = correlation_id;
  capability_id = none;
  capability_key = some capability_key;
  lorm_level = none;
  decision = none;
  evidence_ref = none;
  authorizer = none;
  action = some action;
  params = none;
  procurement_action_id = none;
  outcome = some (("error", text last_error) ∷ ("attempts", number attempts) ∷ []);
  verified = not_applicable;
}

module _ {A : Type 0} where
  abbrev pub after_attempt : Attempt A → (String → Outcome A) → Outcome A
  after_attempt (valid a) next = output a
  after_attempt (failed e) next = next e

  -- `attempts` more attempts, from the n-th on.
  unfoldable pub attempt_loop : (ℕ → Attempt A) → ℕ → ℕ → String → Outcome A
  attempt_loop generate zero n last_error = exhausted last_error
  attempt_loop generate (suc attempts) n last_error =
      after_attempt (generate n) (attempt_loop generate attempts (n + 1))

  -- The fail-safe path.
  unfoldable pub fail_safe : RowId → String → Option RowId → String → ℕ → Outcome A → Exec A
  fail_safe enterprise_id capability_key correlation_id action attempts (output a) = pure a
  fail_safe enterprise_id capability_key correlation_id action attempts (exhausted last_error) = do
    open_gap (ai_gap enterprise_id capability_key)
    record_event (ai_event enterprise_id capability_key correlation_id action last_error attempts)
    raise llm_unavailable

  unfoldable pub generate_structured :
      (ℕ → Attempt A) → RowId → String → Option RowId → String → ℕ → Exec A
  generate_structured generate enterprise_id capability_key correlation_id action attempts =
      fail_safe enterprise_id capability_key correlation_id action attempts
        (attempt_loop generate attempts 0 "unknown")
