-- ===== src/Audit/Complete.antt =====
-- About record of src/app/audit/recorder.py, and sequences of its calls.
use mathlib.Core.List.{append-nil, append_assoc}
use smart_procurement_backen.Prelude.{
  ◌≡◌, refl, sym, true, false, not, ◌&&◌, List, [], ◌∷◌, ◌++◌, Bool-cases, inl, inr, All,
  All-append,
}
use smart_procurement_backen.Errors.{Result, ok, err, audit_integrity}
use smart_procurement_backen.Models.Audit.{AuditRecord}
use smart_procurement_backen.Session.{Session}
use smart_procurement_backen.Audit.{
  AuditEvent, is_action_event, has_required, is_incomplete, record_event,
}

-- A record of an action has all five fields.
abbrev pub IsComplete : AuditRecord → Type 0
IsComplete r =
    (is_action_event r.event_type
      && not (has_required r.capability_key r.lorm_level r.authorizer r.action r.evidence_ref))
    ≡ false

-- A call appends one complete record with the event's fields and changes nothing else, or refuses an
-- incomplete event and changes nothing.
abbrev pub Records : AuditEvent → Session → Result AuditRecord × Session → Type 0
Records e s (ok r, s') =
    (is_incomplete e ≡ false)
    × (r.event_type ≡ e.event_type)
    × (r.enterprise_id ≡ e.enterprise_id)
    × (r.at ≡ s.clock s.ticks)
    × IsComplete r
    × (s'.db ≡ record s.db { audit_records = s.audit_records ++ (r ∷ []) })
Records e s (err x, s') = (is_incomplete e ≡ true) × (x ≡ audit_integrity) × (s' ≡ s)

-- A call appends one complete record for the event and changes no other table, or refuses an
-- incomplete event and writes nothing.
pub record_event-Records : (e : AuditEvent) (s : Session) → Records e s (record_event e s)
unfolding record_event
record_event-Records e s = elim (Bool-cases (is_incomplete e)) [
  | inl bad ↦ rw bad (bad, refl, refl)
  | inr fine ↦ rw fine (fine, refl, refl, refl, fine, refl)
]

-- The events of a sequence of calls, in order.
pub data Reach (s : Session) : Session → Type 0 where
  here : Reach s s
  next : {t : Session} → Reach s t → (e : AuditEvent) → Reach s (record_event e t).1

-- What the trail was before is its beginning, and what was added is complete.
abbrev pub Extends : List AuditRecord → List AuditRecord → Type 0
Extends before after_ =
    (added : List AuditRecord) × (after_ ≡ before ++ added) × All IsComplete added

Records-Extends :
    (before : List AuditRecord) (e : AuditEvent) (s : Session) (r : Result AuditRecord × Session)
    → Records e s r
    → Extends before s.audit_records
    → Extends before r.1.audit_records
Records-Extends before e s (ok r, s') (fine, kind, ent, at, complete, written) (added, same, all) =
    rw written (
      added ++ (r ∷ []),
      rw same (append_assoc before added (r ∷ [])),
      All-append IsComplete added (r ∷ []) all (complete, tt),
    )
Records-Extends before e s (err x, s') (bad, kind, same) h = rw same h

-- After any sequence of calls the trail begins with what it was, and every record that was added to
-- it is complete.
pub Reach-Extends : {s t : Session} → Reach s t → Extends s.audit_records t.audit_records
Reach-Extends {s} here = ([], sym (append-nil s.audit_records), tt)
Reach-Extends {s} (next {t} r e) =
    Records-Extends s.audit_records e t (record_event e t) (record_event-Records e t)
      (Reach-Extends r)
