-- ===== src/Cases/Events/Numbered.antt =====
-- case_management/application/run_service.py: the numbers of the events and of the audit records.
use unknown_file_threat_agen.Cases.EventKinds.{audit_action}
use unknown_file_threat_agen.Cases.Events.{
  RunServiceConfig, Refs, given, refused, file_audit, file_event, audit, audit_emission,
  write_emission, record_emission, move_stage, emit, with_run, input_refs_of, node_of,
}
use unknown_file_threat_agen.Cases.RuntimeStore.{
  InvestigationRun, Entry, EventBody, AuditBody, Artifact, RuntimeStore, Error, Outcome, fine,
  raise, ◌>>◌, get_run, create_run, update_run, next_sequence, is_taken, put_artifact,
  append_operational_event, append_audit_event,
}
use unknown_file_threat_agen.Cases.RuntimeStore.Numbering.{IsNumbered, IsNumbered-append}
use unknown_file_threat_agen.Shared.Json.{Json, Fields}
use unknown_file_threat_agen.Prelude.{
  String, ◌≡◌, refl, ◌⊎◌, inl, inr, Bool, not, ◌&&◌, Option, none, some, ◌==◌, Bool-cases,
  Option-cases, is_some,
}

-- The events of every run, and its audit records, are numbered 1, 2, 3, ... without a gap.
pub record IsLedger (store : RuntimeStore) : Type 0 where
  pub events : IsNumbered store.events
  pub audits : IsNumbered store.audits

-- An operation leaves a ledger, also where it raises.
pub record Leaves (o : Outcome) : Type 0 where
  pub ledger : IsLedger o.store

pub Leaves-fine : (s : RuntimeStore) → IsLedger s → Leaves (fine s)
Leaves-fine s l = record { ledger = l }

pub Leaves-raise : (e : Error) (s : RuntimeStore) → IsLedger s → Leaves (raise e s)
Leaves-raise e s l = record { ledger = l }

>>-ledger :
    (error : Option Error) (s : RuntimeStore) (next : RuntimeStore → Outcome)
    → IsLedger s
    → Leaves (next s)
    → Leaves (record { error = error; store = s } >> next)
unfolding ◌>>◌
>>-ledger none s next l k = k
>>-ledger (some e) s next l k = record { ledger = l }

pub Leaves->> :
    (o : Outcome) (next : RuntimeStore → Outcome)
    → Leaves o
    → ((s : RuntimeStore) → IsLedger s → Leaves (next s))
    → Leaves (o >> next)
Leaves->> o next l k = >>-ledger o.error o.store next l.ledger (k o.store l.ledger)

pub Leaves-with_run :
    (config : RunServiceConfig) (run_id : String) (s : RuntimeStore)
    (next : InvestigationRun → Outcome)
    → IsLedger s
    → ((run : InvestigationRun) → Leaves (next run))
    → Leaves (with_run config run_id s next)
unfolding with_run
Leaves-with_run config run_id s next l k = elim (Option-cases (get_run config.tenant_id run_id s)) [
  | inl missing ↦ rw (missing, with_run) (record { ledger = l })
  | inr (run, found) ↦ rw (found, with_run) (k run)
]

pub Leaves-create_run :
    (run : InvestigationRun) (d p : String) (s : RuntimeStore)
    → IsLedger s
    → Leaves (create_run run d p s)
unfolding create_run
Leaves-create_run run d p s l = elim (Bool-cases (is_some (get_run run.tenant_id run.run_id s))) [
  | inl h ↦ rw h (record { ledger = l })
  | inr h ↦ rw h (record { ledger = record { events = l.events; audits = l.audits } })
]

pub Leaves-update_run :
    (run : InvestigationRun) (s : RuntimeStore) → IsLedger s → Leaves (update_run run s)
unfolding update_run
Leaves-update_run run s l = elim (Bool-cases (is_some (get_run run.tenant_id run.run_id s))) [
  | inl h ↦ rw h (record { ledger = record { events = l.events; audits = l.audits } })
  | inr h ↦ rw h (record { ledger = l })
]

pub Leaves-put_artifact : (a : Artifact) (s : RuntimeStore) → IsLedger s → Leaves (put_artifact a s)
unfolding put_artifact
Leaves-put_artifact a s l = elim (Bool-cases (is_some (get_run a.tenant_id a.run_id s))) [
  | inl h ↦ rw h (record { ledger = record { events = l.events; audits = l.audits } })
  | inr h ↦ rw h (record { ledger = l })
]

Leaves-append_audit_event :
    (e : Entry) (body : AuditBody) (s : RuntimeStore)
    → e.sequence ≡ next_sequence e.tenant_id e.run_id s.audits
    → IsLedger s
    → Leaves (append_audit_event e body s)
unfolding append_audit_event
Leaves-append_audit_event e body s next l =
    elim (Bool-cases (is_some (get_run e.tenant_id e.run_id s) && not (is_taken e s.audits))) [
      | inl h ↦ rw h (record {
        ledger = record {
          events = l.events;
          audits = IsNumbered-append s.audits e body next l.audits;
        };
      })
      | inr h ↦ rw h (record { ledger = l })
    ]

Leaves-append_operational_event :
    (e : Entry) (body : EventBody) (s : RuntimeStore)
    → e.sequence ≡ next_sequence e.tenant_id e.run_id s.events
    → IsLedger s
    → Leaves (append_operational_event e body s)
unfolding append_operational_event
Leaves-append_operational_event e body s next l =
    elim (Bool-cases (is_some (get_run e.tenant_id e.run_id s) && not (is_taken e s.events))) [
      | inl h ↦ rw h (record {
        ledger = record {
          events = IsNumbered-append s.events e body next l.events;
          audits = l.audits;
        };
      })
      | inr h ↦ rw h (record { ledger = l })
    ]

Refs-cases : (r : Refs) → ((v : Json) × (r ≡ given v)) ⊎ ((e : Error) × (r ≡ refused e))
Refs-cases (given v) = inl (v, refl)
Refs-cases (refused e) = inr (e, refl)

module _ (accepts_event : Entry → EventBody → Bool) (accepts_audit : Entry → AuditBody → Bool)
    (config : RunServiceConfig) where
  Leaves-file_audit :
      (e : Entry) (body : AuditBody) (s : RuntimeStore)
      → e.sequence ≡ next_sequence e.tenant_id e.run_id s.audits
      → IsLedger s
      → Leaves (file_audit accepts_event accepts_audit config e body s)
  unfolding file_audit
  Leaves-file_audit e body s next l = elim (Bool-cases (accepts_audit e body)) [
    | inl h ↦ rw h (Leaves-append_audit_event e body s next l)
    | inr h ↦ rw h (Leaves-raise _ s l)
  ]

  Leaves-file_event :
      (e : Entry) (body : EventBody) (s : RuntimeStore)
      → e.sequence ≡ next_sequence e.tenant_id e.run_id s.events
      → IsLedger s
      → Leaves (file_event accepts_event accepts_audit config e body s)
  unfolding file_event
  Leaves-file_event e body s next l = elim (Bool-cases (accepts_event e body)) [
    | inl h ↦ rw h (Leaves-append_operational_event e body s next l)
    | inr h ↦ rw h (Leaves-raise _ s l)
  ]

  pub Leaves-audit :
      (run_id case_id action kind : String) (ref refs : Json) (summary : String) (scope : Json)
      (s : RuntimeStore)
      → IsLedger s
      → Leaves (
          audit accepts_event accepts_audit config run_id case_id action kind ref refs summary scope
            s)
  unfolding audit
  Leaves-audit run_id case_id action kind ref refs summary scope s l =
      Leaves-file_audit _ _ s refl l

  Leaves-audit_emission :
      (run_id case_id kind message : String) (details : Fields) (s : RuntimeStore)
      → IsLedger s
      → Leaves
          (audit_emission accepts_event accepts_audit config run_id case_id kind message details s)
  unfolding audit_emission
  Leaves-audit_emission run_id case_id kind message details s l =
      elim (Option-cases (audit_action kind)) [
        | inl unaudited ↦ rw (unaudited, audit_emission) (Leaves-fine s l)
        | inr (action, audited) ↦ elim (Refs-cases (input_refs_of details)) [
          | inl (v, refs) ↦ rw (audited, refs, audit_emission) (Leaves-audit _ _ _ _ _ _ _ _ s l)
          | inr (e, refs) ↦ rw (audited, refs, audit_emission) (Leaves-raise e s l)
        ]
      ]

  Leaves-write_emission :
      (run : InvestigationRun) (stage kind message : String) (safe : Fields) (node : Json)
      (s : RuntimeStore)
      → IsLedger s
      → Leaves
          (write_emission accepts_event accepts_audit config run stage kind message safe node s)
  unfolding write_emission
  Leaves-write_emission run stage kind message safe node s l =
      Leaves->> _ _ (Leaves-file_event _ _ s refl l) (Leaves-audit_emission _ _ _ _ _)

  Leaves-record_emission :
      (run : InvestigationRun) (stage kind message : String) (safe : Fields) (s : RuntimeStore)
      → IsLedger s
      → Leaves (record_emission accepts_event accepts_audit config run stage kind message safe s)
  unfolding record_emission
  Leaves-record_emission run stage kind message safe s l =
      elim (Option-cases (node_of kind stage safe)) [
        | inl unhashable ↦ rw (unhashable, record_emission) (Leaves-raise _ s l)
        | inr (node, found) ↦
            rw (found, record_emission) (Leaves-write_emission run stage kind message safe node s l)
      ]

  Leaves-move_stage :
      (run : InvestigationRun) (stage : String) (s : RuntimeStore)
      → IsLedger s
      → Leaves (move_stage accepts_event accepts_audit config run stage s)
  unfolding move_stage
  Leaves-move_stage run stage s l = elim (Bool-cases (stage == run.stage)) [
    | inl h ↦ rw h (Leaves-fine s l)
    | inr h ↦ rw h (Leaves-update_run _ s l)
  ]

  -- An emission leaves the events and the audit records of every run numbered without a gap, whatever
  -- its kind and details are, also where it raises.
  pub emit-Leaves :
      (run_id kind message : String) (details : Fields) (s : RuntimeStore)
      → IsLedger s
      → Leaves (emit accepts_event accepts_audit config run_id kind message details s)
  unfolding emit
  emit-Leaves run_id kind message details s l =
      Leaves-with_run config run_id s _ l
        (λ run. Leaves->> _ _ (Leaves-move_stage _ _ s l) (Leaves-record_emission _ _ _ _ _))
