-- ===== src/Ai/Attempts.antt =====
-- About generate_structured of src/app/ai/structured.py.
use smart_procurement_backen.Prelude.{
  ℕ, zero, suc, ◌+◌, ◌<◌, ◌≡◌, refl, ap, String, Option, some, [], ◌∷◌, ◌++◌, arith,
}
use smart_procurement_backen.Errors.{Result, ok, err, llm_unavailable}
use smart_procurement_backen.Table.{select}
use smart_procurement_backen.Models.Basic.{RowId}
use smart_procurement_backen.Models.Audit.{AuditRecord, ai_unavailable}
use smart_procurement_backen.Models.Observation.{ObservabilityGap}
use smart_procurement_backen.Session.{Db, Session, after, raise, ◌>>◌}
use smart_procurement_backen.Observability.{is_current, open_gap}
use smart_procurement_backen.Observability.Unique.{IsUnique}
use smart_procurement_backen.Observability.Idempotent.{open_gap-again, open_gap-db}
use smart_procurement_backen.Audit.{record_event, audit_row}
use smart_procurement_backen.Ai.{
  Attempt, valid, failed, Outcome, output, exhausted, after_attempt, attempt_loop, ai_gap, ai_event,
  fail_safe, generate_structured,
}

module _ {A : Type 0} (generate : ℕ → Attempt A) where
  abbrev pub IsFailed : Attempt A → Type 0
  IsFailed (valid a) = ⊥
  IsFailed (failed e) = Unit

  -- The `count` attempts from the n-th on all failed.
  abbrev pub AllFailed : ℕ → ℕ → Type 0
  AllFailed n zero = Unit
  AllFailed n (suc count) = IsFailed (generate n) × AllFailed (n + 1) count

  -- An output comes from the first attempt that is valid.
  abbrev pub First : ℕ → ℕ → Outcome A → Type 0
  First attempts n (output a) =
      (k : ℕ) × (k < attempts) × AllFailed n k × (generate (n + k) ≡ valid a)
  First attempts n (exhausted e) = AllFailed n attempts

  later :
      (attempts n : ℕ) (o : Outcome A)
      → IsFailed (generate n)
      → First attempts (n + 1) o
      → First (suc attempts) n o
  later attempts n (output a) bad (k, below, failures, good) =
      (suc k, omega arith, (bad, failures), rw (shifted n k) good)
    where
      shifted : (m j : ℕ) → m + suc j ≡ (m + 1) + j
      shifted m j = omega arith
  later attempts n (exhausted e) bad failures = (bad, failures)

  at_zero : (m : ℕ) → m + 0 ≡ m
  at_zero m = omega arith

  attempt-First :
      (attempts n : ℕ) (x : Attempt A)
      → generate n ≡ x
      → ((e : String) → First attempts (n + 1) (attempt_loop generate attempts (n + 1) e))
      → First (suc attempts) n (after_attempt x (attempt_loop generate attempts (n + 1)))
  attempt-First attempts n (valid a) e rest = (0, omega arith, tt, rw (at_zero n) e)
  attempt-First attempts n (failed x) e rest =
      later attempts n (attempt_loop generate attempts (n + 1) x) (rw e tt) (rest x)

  pub attempt_loop-First :
      (attempts n : ℕ) (last_error : String)
      → First attempts n (attempt_loop generate attempts n last_error)
  unfolding attempt_loop
  attempt_loop-First zero n last_error = tt
  attempt_loop-First (suc attempts) n last_error =
      attempt-First attempts n (generate n) refl (attempt_loop-First attempts (n + 1))

  module _ (enterprise_id : RowId) (capability_key : String) (correlation_id : Option RowId)
      (action : String) (attempts : ℕ) where
    -- An output is that of the first valid attempt, and nothing was written. A failure means that
    -- every attempt failed; then the gap of the capability is open, and one record is added.
    abbrev pub Generates : Session → Result A × Session → Type 0
    Generates s (ok a, s') = First attempts 0 (output a) × (s' ≡ s)
    Generates s (err e, s') =
        (g : ObservabilityGap) × (row : AuditRecord) × AllFailed 0 attempts
        × (e ≡ llm_unavailable)
        × (select (is_current (ai_gap enterprise_id capability_key)) s'.gaps ≡ g ∷ [])
        × (row.event_type ≡ ai_unavailable)
        × (row.capability_key ≡ some capability_key)
        × (s'.db ≡ record s.db { gaps = s'.gaps; audit_records = s.audit_records ++ (row ∷ []) })

    fail_safe-Generates :
        (o : Outcome A) (s : Session)
        → IsUnique s.gaps
        → First attempts 0 o
        → Generates s (fail_safe enterprise_id capability_key correlation_id action attempts o s)
    unfolding fail_safe record_event
    fail_safe-Generates (output a) s h first = (first, refl)
    fail_safe-Generates (exhausted e) s h first =
        let k = ai_gap enterprise_id capability_key in
        let (g, opened, current_, again) = open_gap-again k s h in
        go (open_gap k s) g opened current_ (open_gap-db k s)
      where
        go :
            (r : Result ObservabilityGap × Session) (g : ObservabilityGap)
            → r.0 ≡ ok g
            → select (is_current (ai_gap enterprise_id capability_key)) r.1.gaps ≡ g ∷ []
            → r.1.db ≡ record s.db { gaps = r.1.gaps }
            → Generates s (
                after
                  (λ _.
                    record_event
                      (ai_event enterprise_id capability_key correlation_id action e attempts)
                    >> raise llm_unavailable)
                  r)
        go (ok x, t) g opened current_ same =
            let row =
              audit_row (ai_event enterprise_id capability_key correlation_id action e attempts)
                (t.uuids t.drawn) (t.clock t.ticks) in
            (
              g,
              row,
              first,
              refl,
              current_,
              refl,
              refl,
              ap (λ (db : Db). record db { audit_records = db.audit_records ++ (row ∷ []) }) same,
            )
        go (err x, t) g opened current_ same = cc

    -- Where at most one gap is open for each key, the output of the first valid attempt is returned
    -- and nothing is written; if no attempt is valid, the call raises LLMUnavailable, the gap of the
    -- capability is open, and the trail has one record more.
    pub generate_structured-Generates :
        (s : Session)
        → IsUnique s.gaps
        → Generates s (
            generate_structured generate enterprise_id capability_key correlation_id action attempts
              s)
    unfolding generate_structured
    generate_structured-Generates s h =
        fail_safe-Generates (attempt_loop generate attempts 0 "unknown") s h
          (attempt_loop-First attempts 0 "unknown")
