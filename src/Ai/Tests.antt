-- ===== src/Ai/Tests.antt =====
-- The fail-safe path at concrete inputs: a third attempt that is valid, and none.
use smart_procurement_backen.Prelude.{ℕ, ◌≡◌, refl, none, if◌then◌else◌, leb, arith}
use smart_procurement_backen.Errors.{ok, err, llm_unavailable}
use smart_procurement_backen.Session.{Session}
use smart_procurement_backen.Session.Sample.{empty_db, session_on}
use smart_procurement_backen.Observability.{open_gap, current, existing_or_new, add_gap}
use smart_procurement_backen.Observability.Unique.{IsUnique}
use smart_procurement_backen.Audit.{record_event}
use smart_procurement_backen.Ai.{
  Attempt, valid, failed, attempt_loop, fail_safe, generate_structured,
}
use smart_procurement_backen.Ai.Attempts.{Generates, generate_structured-Generates}

abbrev start : Session
start = session_on empty_db

start-IsUnique : IsUnique start.gaps
start-IsUnique k = omega arith

abbrev third_time : ℕ → Attempt ℕ
third_time n = if leb 2 n then valid 42 else failed "timeout"

abbrev never : ℕ → Attempt ℕ
never _ = failed "timeout"

returned : (generate_structured third_time 9 "proc.risk.diagnose" none "explain" 3 start).0 ≡ ok 42
unfolding generate_structured attempt_loop fail_safe
returned = refl

raised :
    (generate_structured never 9 "proc.risk.diagnose" none "explain" 3 start).0
    ≡ err llm_unavailable
unfolding generate_structured attempt_loop fail_safe open_gap current existing_or_new add_gap
    record_event
raised = refl

generate_structured-Generates_example :
    Generates never 9 "proc.risk.diagnose" none "explain" 3 start
      (generate_structured never 9 "proc.risk.diagnose" none "explain" 3 start)
generate_structured-Generates_example =
    generate_structured-Generates never 9 "proc.risk.diagnose" none "explain" 3 start start-IsUnique
