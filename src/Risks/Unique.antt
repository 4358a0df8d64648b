-- ===== src/Risks/Unique.antt =====
-- About the deduplication of findings in src/app/analysis/rules.py.
use smart_procurement_backen.Prelude.{
  ◌≤◌, ◌≡◌, refl, sym, String, Bool, true, false, ◌&&◌, Option, List, [], ◌∷◌, ◌++◌, ◌==◌, ==_iff,
  same_ref, same_ref_iff, ◌||◌, any, arith, Bool-cases, inl, inr, length, length-append,
}
use smart_procurement_backen.Errors.{Result, ok, err}
use smart_procurement_backen.Table.{select}
use smart_procurement_backen.Table.Select.{select-append}
use smart_procurement_backen.Table.Update.{length-select-update}
use smart_procurement_backen.Models.Basic.{RowId, Time}
use smart_procurement_backen.Models.Analysis.{RiskType, SignalType, RiskFinding, ObservationSignal}
use smart_procurement_backen.Session.{Session, Exec, after, require_one-cases}
use smart_procurement_backen.Jobs.{enqueue}
use smart_procurement_backen.Audit.{record_event}
use smart_procurement_backen.Risks.{
  RiskCandidate, risk_index, is_terminal, is_same_risk, find_non_terminal, new_finding,
  found_or_new, find_or_create, add_links, link_new_evidence, link_if_any, is_new_evidence,
  evidence_signal_types, is_ready, is_explanation_job, enqueue_explanation,
  maybe_enqueue_explanation, apply_candidate,
}
use smart_procurement_backen.Risks.Dismissal.{
  has_finding_id, get_finding, as_dismissed, dismiss_risk,
}

abbrev pub IsDeduped : List RiskFinding → Type 0
IsDeduped findings =
    (enterprise_id : RowId) (c : RiskCandidate)
    → length (select (is_same_risk enterprise_id c) findings) ≤ 1

risk_index-eq : (a b : RiskType) → (risk_index a == risk_index b) ≡ true → a ≡ b
risk_index-eq a b h = ground arith

four-true :
    (a b c d e : Bool)
    → (a && b && c && d && e) ≡ true
    → (a ≡ true) × (b ≡ true) × (c ≡ true) × (d ≡ true)
four-true true true true true e h = (refl, refl, refl, refl)
four-true true true true false e h = cc
four-true true true false d e h = cc
four-true true false c d e h = cc
four-true false b c d e h = cc

last-false : (a b c d : Bool) → (a && b && c && d && false) ≡ false
last-false true true true true = refl
last-false true true true false = refl
last-false true true false d = refl
last-false true false c d = refl
last-false false b c d = refl

-- The query for another candidate with the same key selects the same rows.
select-key :
    (e e' : RowId) (c c' : RiskCandidate) (rows : List RiskFinding)
    → e ≡ e'
    → c.risk_type ≡ c'.risk_type
    → c.item_id ≡ c'.item_id
    → c.supplier_id ≡ c'.supplier_id
    → select (is_same_risk e' c') rows ≡ select (is_same_risk e c) rows
select-key e e' c c' rows p q r t = rw (sym p, sym q, sym r, sym t) refl

added-IsDeduped :
    (e : RowId) (c : RiskCandidate) (id : RowId) (at : Time) (rows : List RiskFinding)
    → select (is_same_risk e c) rows ≡ []
    → IsDeduped rows
    → IsDeduped (rows ++ (new_finding e c id at ∷ []))
added-IsDeduped e c id at rows absent h e' c' =
    rw (select-append (is_same_risk e' c') rows (new_finding e c id at ∷ []))
      (elim (Bool-cases (is_same_risk e' c' (new_finding e c id at))) [
        | inl own ↦
            let (p, q, r, t) =
              four-true (e == e') (risk_index c.risk_type == risk_index c'.risk_type)
                (same_ref c.item_id c'.item_id) (same_ref c.supplier_id c'.supplier_id) true own in
            rw
              (select-key e e' c c' rows ((==_iff e e').0 p)
                (risk_index-eq c.risk_type c'.risk_type q) ((same_ref_iff c.item_id c'.item_id).0 r)
                ((same_ref_iff c.supplier_id c'.supplier_id).0 t))
              (rw (absent, own) (omega arith))
        | inr other ↦
            rw other
              (rw (length-append (select (is_same_risk e' c') rows) []) (omega (arith, h e' c')))
      ])

dismissed-off :
    (e : RowId) (c : RiskCandidate) (reason : String) (by : RowId) (at : Time) (f : RiskFinding)
    → is_same_risk e c (as_dismissed reason by at f) ≡ false
dismissed-off e c reason by at f =
    last-false (f.enterprise_id == e) (risk_index f.risk_type == risk_index c.risk_type)
      (same_ref f.item_id c.item_id) (same_ref f.supplier_id c.supplier_id)

-- A call followed by another.
after-IsDeduped :
    {A B : Type 0} (f : A → Exec B) (r : Result A × Session)
    → IsDeduped r.1.findings
    → ((a : A) (s : Session) → IsDeduped s.findings → IsDeduped (f a s).1.findings)
    → IsDeduped (after f r).1.findings
after-IsDeduped f (ok a, s) h keeps = keeps a s h
after-IsDeduped f (err e, s) h keeps = h

found-IsDeduped :
    (e : RowId) (c : RiskCandidate) (s : Session)
    → IsDeduped s.findings
    → IsDeduped (find_or_create e c s).1.findings
unfolding find_or_create find_non_terminal found_or_new
found-IsDeduped e c s h = go (select (is_same_risk e c) s.findings) refl
  where
    go :
        (rows : List RiskFinding)
        → select (is_same_risk e c) s.findings ≡ rows
        → IsDeduped (find_or_create e c s).1.findings
    go [] one =
        rw (one, after) (added-IsDeduped e c (s.uuids s.drawn) (s.clock s.ticks) s.findings one h)
    go (f ∷ []) one = rw (one, after) h
    go (f ∷ f' ∷ fs) one = rw (one, after) h

-- Evidence and jobs are in other tables.
add_links-IsDeduped :
    (id : RowId) (signals : List ObservationSignal) (s : Session)
    → IsDeduped s.findings
    → IsDeduped (add_links id signals s).1.findings
unfolding add_links
add_links-IsDeduped id [] s h = h
add_links-IsDeduped id (x ∷ signals) s h = add_links-IsDeduped id signals _ h

link_if_any-IsDeduped :
    (f : RiskFinding) (item_id supplier_id : Option RowId) (types : List SignalType) (s : Session)
    → IsDeduped s.findings
    → IsDeduped (link_if_any f item_id supplier_id types s).1.findings
unfolding link_if_any link_new_evidence
link_if_any-IsDeduped f item_id supplier_id [] s h = h
link_if_any-IsDeduped f item_id supplier_id (t ∷ types) s h =
    add_links-IsDeduped f.id
      (select (is_new_evidence f (t ∷ types) item_id supplier_id s.signal_links) s.signals) s h

maybe_enqueue-IsDeduped :
    (f : RiskFinding) (s : Session)
    → IsDeduped s.findings
    → IsDeduped (maybe_enqueue_explanation f s).1.findings
unfolding maybe_enqueue_explanation enqueue_explanation enqueue
maybe_enqueue-IsDeduped f s h =
    elim (Bool-cases (is_ready f.ai_status || any (is_explanation_job f.id) s.jobs)) [
      | inl skip ↦ rw skip h
      | inr new ↦ rw new h
    ]

pub applied-IsDeduped :
    (e : RowId) (c : RiskCandidate) (item_id supplier_id : Option RowId) (s : Session)
    → IsDeduped s.findings
    → IsDeduped (apply_candidate e c item_id supplier_id s).1.findings
unfolding apply_candidate
applied-IsDeduped e c item_id supplier_id s h =
    after-IsDeduped _ (find_or_create e c s) (found-IsDeduped e c s h) (λ f t k.
      after-IsDeduped _ (link_if_any f item_id supplier_id (evidence_signal_types c.risk_type) t)
        (link_if_any-IsDeduped f item_id supplier_id (evidence_signal_types c.risk_type) t k)
        (λ _ u m.
          after-IsDeduped _ (maybe_enqueue_explanation f u) (maybe_enqueue-IsDeduped f u m)
            (λ _ v n. n)))

dismissed-IsDeduped :
    (enterprise_id user_id risk_id : RowId) (reason : String) (s : Session)
    → IsDeduped s.findings
    → IsDeduped (dismiss_risk enterprise_id user_id risk_id reason s).1.findings
unfolding dismiss_risk get_finding record_event
dismissed-IsDeduped enterprise_id user_id risk_id reason s h =
    elim (require_one-cases (select (has_finding_id enterprise_id risk_id) s.findings) s) [
      | inr (e, bad) ↦ rw (bad, after) h
      | inl (f, one, good) ↦
          rw (good, after)
            (elim (Bool-cases (is_terminal f.status)) [
              | inl over ↦ rw over h
              | inr open_ ↦ rw open_ (λ e c. omega (
                arith,
                h e c,
                length-select-update (λ x. x.id == f.id)
                    (as_dismissed reason user_id (s.clock s.ticks)) (is_same_risk e c)
                    (dismissed-off e c reason user_id (s.clock s.ticks)) s.findings,
              ))
            ])
    ]

-- One detection of a candidate, or one dismissal.
pub data Step (s : Session) : Session → Type 0 where
  apply :
      (enterprise_id : RowId) (c : RiskCandidate) (item_id supplier_id : Option RowId)
      → Step s (apply_candidate enterprise_id c item_id supplier_id s).1
  dismiss :
      (enterprise_id user_id risk_id : RowId) (reason : String)
      → Step s (dismiss_risk enterprise_id user_id risk_id reason s).1

pub data Reach (s : Session) : Session → Type 0 where
  here : Reach s s
  next : {t u : Session} → Reach s t → Step t u → Reach s u

Step-IsDeduped : {s t : Session} → Step s t → IsDeduped s.findings → IsDeduped t.findings
Step-IsDeduped {s} (apply e c i p) h = applied-IsDeduped e c i p s h
Step-IsDeduped {s} (dismiss e u r reason) h = dismissed-IsDeduped e u r reason s h

-- If for each enterprise, type, item and supplier at most one finding is not terminal, this is so
-- after any sequence of candidates applied and findings dismissed.
pub Reach-IsDeduped : {s t : Session} → Reach s t → IsDeduped s.findings → IsDeduped t.findings
Reach-IsDeduped here h = h
Reach-IsDeduped (next r st) h = Step-IsDeduped st (Reach-IsDeduped r h)
