-- ===== src/Cases/RunService/Approval.antt =====
-- case_management/application/run_service.py: what `complete_after_approval` does to the run.
use unknown_file_threat_agen.Cases.Events.{RunServiceConfig, file_audit, audit, with_run}
use unknown_file_threat_agen.Cases.RuntimeStore.{
  completed, InvestigationRun, Entry, EventBody, AuditBody, RuntimeStore, Error, value_error,
  Outcome, raise, ◌>>◌, get_run, get_row, update_run, append_audit_event, is_taken,
}
use unknown_file_threat_agen.Cases.RuntimeStore.Rows.{get_run-own, get_run-update_run}
use unknown_file_threat_agen.Cases.RunService.{Description, is_awaiting, complete_after_approval}
use unknown_file_threat_agen.Shared.Json.{Json}
use unknown_file_threat_agen.Prelude.{
  ℕ, String, ◌≡◌, refl, ◌∙◌, ◌⊎◌, inl, inr, Bool, true, false, not, ◌&&◌, Option, some, Bool-cases,
  Option-cases, is_some,
}

append_audit_event-runs :
    (e : Entry) (body : AuditBody) (s : RuntimeStore)
    → (append_audit_event e body s).store.runs ≡ s.runs
unfolding append_audit_event
append_audit_event-runs e body s =
    elim (Bool-cases (is_some (get_run e.tenant_id e.run_id s) && not (is_taken e s.audits))) [
      | inl h ↦ rw h refl
      | inr h ↦ rw h refl
    ]

>>-runs :
    (o : Outcome) (next : RuntimeStore → Outcome)
    → ((s : RuntimeStore) → (next s).store.runs ≡ s.runs)
    → (o >> next).store.runs ≡ o.store.runs
unfolding ◌>>◌
>>-runs o next k = elim (Option-cases o.error) [
  | inl quiet ↦ rw (quiet, ◌>>◌) (k o.store)
  | inr (e, raised) ↦ rw (raised, ◌>>◌) refl
]

get_run-runs :
    (tenant run_id : String) (s s' : RuntimeStore)
    → s'.runs ≡ s.runs
    → get_run tenant run_id s' ≡ get_run tenant run_id s
unfolding get_run get_row
get_run-runs tenant run_id s s' e = rw e refl

module _ (accepts_event : Entry → EventBody → Bool) (accepts_audit : Entry → AuditBody → Bool)
    (describe : Error → Description) (config : RunServiceConfig) where
  file_audit-runs :
      (e : Entry) (body : AuditBody) (s : RuntimeStore)
      → (file_audit accepts_event accepts_audit config e body s).store.runs ≡ s.runs
  unfolding file_audit
  file_audit-runs e body s = elim (Bool-cases (accepts_audit e body)) [
    | inl h ↦ rw h (append_audit_event-runs e body s)
    | inr h ↦ rw h refl
  ]

  audit-runs :
      (run_id case_id action kind : String) (ref refs : Json) (summary : String) (scope : Json)
      (s : RuntimeStore)
      → (audit accepts_event accepts_audit config run_id case_id action kind ref refs summary scope
          s).store.runs
        ≡ s.runs
  unfolding audit
  audit-runs run_id case_id action kind ref refs summary scope s = file_audit-runs _ _ s

  -- the row after an update and its audit record, also if the record is refused
  audited_run :
      (tenant key : String) (run : InvestigationRun) (run_id case_id action kind : String)
      (ref refs : Json) (summary : String) (scope : Json) (s : RuntimeStore)
      → run.tenant_id ≡ tenant
      → run.run_id ≡ key
      → is_some (get_run tenant key s) ≡ true
      → get_run tenant key
          (update_run run s
            >> audit accepts_event accepts_audit config run_id case_id action kind ref refs summary
                scope).store
        ≡ some run
  audited_run tenant key run run_id case_id action kind ref refs summary scope s t k h =
      get_run-runs tenant key (update_run run s).store _ (
        >>-runs (update_run run s) _ (audit-runs run_id case_id action kind ref refs summary scope))
      ∙ rw (← t, ← k) (get_run-update_run run s (rw (t, k) h))

  -- A decision closes a run exactly when the run awaits it: otherwise `ValueError` is raised and the
  -- store is as before; if it does, the run is read back completed, in stage `advised`, with the time
  -- of the decision and all else as before, also if its audit record is refused.
  pub complete_after_approval_lem :
      (now : ℕ) (run_id decided_by : String) (approved : Bool) (comment : Option String)
      (s : RuntimeStore) (run : InvestigationRun)
      → get_run config.tenant_id run_id s ≡ some run
      → ((is_awaiting run.status ≡ false)
          × (complete_after_approval accepts_event accepts_audit describe config now run_id
                decided_by approved comment s
              ≡ raise value_error s))
        ⊎ ((is_awaiting run.status ≡ true)
            × (get_run config.tenant_id run_id
                  (complete_after_approval accepts_event accepts_audit describe config now run_id
                    decided_by approved comment s).store
                ≡ some (record run {
                  status = completed;
                  stage = "advised";
                  completed_at = some now;
                })))
  unfolding complete_after_approval with_run
  complete_after_approval_lem now run_id decided_by approved comment s run found =
      let own = get_run-own config.tenant_id run_id s run found in
      elim (Bool-cases (is_awaiting run.status)) [
        | inr h ↦ inl (h, rw (found, with_run, h) refl)
        | inl h ↦ inr (
          h,
          rw (found, with_run, h)
              (audited_run config.tenant_id run_id _ _ _ _ _ _ _ _ _ s own.0 own.1 (rw found refl)),
        )
      ]
