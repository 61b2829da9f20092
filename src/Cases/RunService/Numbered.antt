-- ===== src/Cases/RunService/Numbered.antt =====
-- case_management/application/run_service.py: the numbers of the events and of the audit records in
-- every store that the service can reach.
use unknown_file_threat_agen.Cases.Events.{RunServiceConfig, audit, emit}
use unknown_file_threat_agen.Cases.Events.Numbered.{
  IsLedger, Leaves, Leaves-fine, Leaves-raise, Leaves->>, Leaves-with_run, Leaves-create_run,
  Leaves-update_run, Leaves-put_artifact, Leaves-audit, emit-Leaves,
}
use unknown_file_threat_agen.Cases.ApprovalService.{Decision, Resumption, port_result, decide}
use unknown_file_threat_agen.Cases.RuntimeStore.{
  InvestigationRun, RunRow, Entry, EventBody, AuditBody, RuntimeStore, Error, execution_error, fine,
  ◌>>◌, update_run, put_artifact, list_runs,
}
use unknown_file_threat_agen.Cases.RuntimeStore.Numbering.{IsNumbered-nil}
use unknown_file_threat_agen.Cases.RunService.{
  RunSource, reference_dataset, alert_json, RunExecutionRequest, RunExecutionOutcome, Emission,
  Execution, Description, keep_alert, launch, fail, emit_all, put_artifacts, await_approval,
  complete_run, conclude, run_port, execute_locked, recover_row, recover_rows, recover_orphans,
  complete_after_approval, is_interrupted, is_awaiting,
}
use unknown_file_threat_agen.Shared.Json.{Json, Fields}
use unknown_file_threat_agen.Prelude.{
  none, some, ℕ, String, inl, inr, Bool, Option, List, [], ◌∷◌, Bool-cases, Option-cases, Sum-cases,
}

module _ (accepts_event : Entry → EventBody → Bool) (accepts_audit : Entry → AuditBody → Bool)
    (describe : Error → Description) (config : RunServiceConfig) where
  Leaves-keep_alert :
      (request : RunExecutionRequest) (s : RuntimeStore)
      → IsLedger s
      → Leaves (keep_alert accepts_event accepts_audit describe config request s)
  unfolding keep_alert
  Leaves-keep_alert request s l = by_source request.source
    where
      by_source :
          (source : RunSource)
          → Leaves (elim source [
            | reference_dataset ↦ fine s
            | alert_json ↦
                put_artifact
                  (record {
                    tenant_id = config.tenant_id;
                    run_id = request.run_id;
                    artifact_type = "alert_payload";
                    payload = request.alert;
                  })
                  s
          ])
      by_source reference_dataset = Leaves-fine s l
      by_source alert_json = Leaves-put_artifact _ s l

  Leaves-launch :
      (now : ℕ) (request : RunExecutionRequest) (s : RuntimeStore)
      → IsLedger s
      → Leaves (launch accepts_event accepts_audit describe config now request s)
  unfolding launch
  Leaves-launch now request s l =
      Leaves->> _ _ (Leaves->> _ _ (Leaves-create_run _ _ _ s l) (Leaves-keep_alert request))
        (Leaves-audit accepts_event accepts_audit config _ _ _ _ _ _ _ _)

  -- an update of the row, and the audit record of it
  Leaves-audited :
      (run : InvestigationRun) (run_id case_id action kind : String) (ref refs : Json)
      (summary : String) (scope : Json) (s : RuntimeStore)
      → IsLedger s
      → Leaves (
          update_run run s
          >> audit accepts_event accepts_audit config run_id case_id action kind ref refs summary
              scope)
  Leaves-audited run run_id case_id action kind ref refs summary scope s l =
      Leaves->> _ _ (Leaves-update_run run s l)
        (Leaves-audit accepts_event accepts_audit config _ _ _ _ _ _ _ _)

  Leaves-fail :
      (now : ℕ) (run_id : String) (error : Error) (s : RuntimeStore)
      → IsLedger s
      → Leaves (fail accepts_event accepts_audit describe config now run_id error s)
  unfolding fail
  Leaves-fail now run_id error s l = Leaves-with_run config run_id s _ l (λ run.
      Leaves->> _ _ (Leaves-audited _ _ _ _ _ _ _ _ _ s l)
        (emit-Leaves accepts_event accepts_audit config _ _ _ _))

  Leaves-emit_all :
      (run_id : String) (es : List Emission) (s : RuntimeStore)
      → IsLedger s
      → Leaves (emit_all accepts_event accepts_audit describe config run_id es s)
  unfolding emit_all
  Leaves-emit_all run_id [] s l = Leaves-fine s l
  Leaves-emit_all run_id (e ∷ es) s l =
      Leaves->> _ _ (emit-Leaves accepts_event accepts_audit config _ _ _ _ s l)
        (Leaves-emit_all run_id es)

  Leaves-put_artifacts :
      (run_id : String) (artifacts : List (String × Json)) (s : RuntimeStore)
      → IsLedger s
      → Leaves (put_artifacts accepts_event accepts_audit describe config run_id artifacts s)
  unfolding put_artifacts
  Leaves-put_artifacts run_id [] s l = Leaves-fine s l
  Leaves-put_artifacts run_id (a ∷ rest) s l =
      Leaves->> _ _ (Leaves-put_artifact _ s l) (Leaves-put_artifacts run_id rest)

  Leaves-conclude :
      (now : ℕ) (run_id : String) (outcome : RunExecutionOutcome) (s : RuntimeStore)
      → IsLedger s
      → Leaves (conclude accepts_event accepts_audit describe config now run_id outcome s)
  unfolding conclude await_approval complete_run
  Leaves-conclude now run_id outcome s l =
      Leaves->> _ _ (Leaves-put_artifacts run_id outcome.artifacts s l) (λ s m.
        elim (Bool-cases outcome.pending_approval) [
          | inl pending ↦
              rw pending
                (Leaves-with_run config run_id s _ m (λ run. Leaves-audited _ _ _ _ _ _ _ _ _ s m))
          | inr published ↦ rw published (
              Leaves-with_run config run_id s _ m (λ run.
                Leaves->> _ _ (Leaves-audited _ _ _ _ _ _ _ _ _ s m)
                  (emit-Leaves accepts_event accepts_audit config _ _ _ _)))
        ])

  Leaves-run_port :
      (now : ℕ) (run_id : String) (execution : Execution) (s : RuntimeStore)
      → IsLedger s
      → Leaves (run_port accepts_event accepts_audit describe config now run_id execution s)
  unfolding run_port
  Leaves-run_port now run_id execution s l =
      let emitted =
        emit_all accepts_event accepts_audit describe config run_id execution.emissions s in
      let kept = (Leaves-emit_all run_id execution.emissions s l).ledger in
      elim (Option-cases emitted.error) [
        | inr (e, raised) ↦ rw (raised, run_port) (Leaves-fail now run_id e emitted.store kept)
        | inl quiet ↦ elim (Sum-cases execution.result) [
          | inl (n, r) ↦
              rw (quiet, r, run_port)
                (Leaves-fail now run_id (execution_error n) emitted.store kept)
          | inr (o, r) ↦ rw (quiet, r, run_port) (Leaves-conclude now run_id o emitted.store kept)
        ]
      ]

  Leaves-execute_locked :
      (now : ℕ) (run_id : String) (execution : Execution) (s : RuntimeStore)
      → IsLedger s
      → Leaves (execute_locked accepts_event accepts_audit describe config now run_id execution s)
  unfolding execute_locked
  Leaves-execute_locked now run_id execution s l = Leaves-with_run config run_id s _ l (λ run.
      Leaves->> _ _
        (Leaves->> _ _ (Leaves-update_run _ s l)
          (emit-Leaves accepts_event accepts_audit config _ _ _ _))
        (Leaves-run_port now run_id execution))

  Leaves-recover_row :
      (now : ℕ) (row : RunRow) (s : RuntimeStore)
      → IsLedger s
      → Leaves (recover_row accepts_event accepts_audit describe config now row s)
  unfolding recover_row
  Leaves-recover_row now row s l = elim (Bool-cases (is_interrupted row.run.status)) [
    | inl h ↦ rw h (Leaves-audited _ _ _ _ _ _ _ _ _ s l)
    | inr h ↦ rw h (Leaves-fine s l)
  ]

  Leaves-recover_rows :
      (now : ℕ) (rows : List RunRow) (s : RuntimeStore)
      → IsLedger s
      → Leaves (recover_rows accepts_event accepts_audit describe config now rows s)
  unfolding recover_rows
  Leaves-recover_rows now [] s l = Leaves-fine s l
  Leaves-recover_rows now (row ∷ rows) s l =
      Leaves->> _ _ (Leaves-recover_row now row s l) (Leaves-recover_rows now rows)

  Leaves-complete_after_approval :
      (now : ℕ) (run_id decided_by : String) (approved : Bool) (comment : Option String)
      (s : RuntimeStore)
      → IsLedger s
      → Leaves (
          complete_after_approval accepts_event accepts_audit describe config now run_id decided_by
            approved comment s)
  unfolding complete_after_approval
  Leaves-complete_after_approval now run_id decided_by approved comment s l =
      Leaves-with_run config run_id s _ l (λ run. elim (Bool-cases (is_awaiting run.status)) [
        | inl h ↦ rw h (Leaves-audited _ _ _ _ _ _ _ _ _ s l)
        | inr h ↦ rw h (Leaves-raise _ s l)
      ])

  Leaves-port_result :
      (raised : Option String) (s : RuntimeStore) → IsLedger s → Leaves (port_result raised s)
  unfolding port_result
  Leaves-port_result none s l = Leaves-fine s l
  Leaves-port_result (some name) s l = Leaves-raise _ s l

  Leaves-decide :
      (now : ℕ) (run_id : String) (decision : Decision) (decided_by : String)
      (comment : Option String) (resumption : Resumption) (s : RuntimeStore)
      → IsLedger s
      → Leaves (
          decide accepts_event accepts_audit describe config now run_id decision decided_by comment
            resumption s)
  unfolding decide
  Leaves-decide now run_id decision decided_by comment resumption s l =
      Leaves-with_run config run_id s _ l (λ run. elim (Bool-cases (is_awaiting run.status)) [
        | inl h ↦ rw h (
            Leaves->> _ _
              (Leaves->> _ _ (Leaves-emit_all run_id _ s l) (Leaves-port_result resumption.raised))
              (Leaves-complete_after_approval now run_id decided_by _ comment))
        | inr h ↦ rw h (Leaves-raise _ s l)
      ])

  -- one call of the service; an exception does not undo what was written before it
  pub data ServiceStep : RuntimeStore → RuntimeStore → Type 0 where
    launches :
        (now : ℕ) (request : RunExecutionRequest) (s : RuntimeStore)
        → ServiceStep s (launch accepts_event accepts_audit describe config now request s).store
    executes :
        (now : ℕ) (run_id : String) (execution : Execution) (s : RuntimeStore)
        → ServiceStep s
            (execute_locked accepts_event accepts_audit describe config now run_id execution
              s).store
    emits :
        (run_id kind message : String) (details : Fields) (s : RuntimeStore)
        → ServiceStep s
            (emit accepts_event accepts_audit config run_id kind message details s).store
    decides :
        (now : ℕ) (run_id : String) (decision : Decision) (decided_by : String)
        (comment : Option String) (resumption : Resumption) (s : RuntimeStore)
        → ServiceStep s
            (decide accepts_event accepts_audit describe config now run_id decision decided_by
              comment resumption s).store
    recovers :
        (now : ℕ) (s : RuntimeStore)
        → ServiceStep s (recover_orphans accepts_event accepts_audit describe config now s).store

  -- the stores that calls reach from the empty one
  pub data Reachable : RuntimeStore → Type 0 where
    empty : Reachable (record { runs = []; events = []; audits = []; artifacts = [] })
    after : {s s' : RuntimeStore} → Reachable s → ServiceStep s s' → Reachable s'

  step-IsLedger : {s s' : RuntimeStore} → ServiceStep s s' → IsLedger s → IsLedger s'
  unfolding recover_orphans
  step-IsLedger (launches now request s) l = (Leaves-launch now request s l).ledger
  step-IsLedger (executes now run_id execution s) l =
      (Leaves-execute_locked now run_id execution s l).ledger
  step-IsLedger (emits run_id kind message details s) l =
      (emit-Leaves accepts_event accepts_audit config run_id kind message details s l).ledger
  step-IsLedger (decides now run_id decision decided_by comment resumption s) l =
      (Leaves-decide now run_id decision decided_by comment resumption s l).ledger
  step-IsLedger (recovers now s) l =
      (Leaves-recover_rows now (list_runs config.tenant_id s) s l).ledger

  -- In every store that calls of the service reach, whatever the execution port does and wherever an
  -- exception ends a call, the events of each run are numbered 1, 2, 3, ... in the order in which they
  -- were written, and so are its audit records.
  pub Reachable-IsLedger : (s : RuntimeStore) → Reachable s → IsLedger s
  Reachable-IsLedger s r = go r
    where
      go : {s : RuntimeStore} → Reachable s → IsLedger s
      go empty = record { events = IsNumbered-nil _; audits = IsNumbered-nil _ }
      go (after r step) = step-IsLedger step (go r)
