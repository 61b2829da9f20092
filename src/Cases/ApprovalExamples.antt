-- ===== src/Cases/ApprovalExamples.antt =====
-- A decision on a concrete run.
use unknown_file_threat_agen.Cases.Events.{RunServiceConfig}
use unknown_file_threat_agen.Cases.RuntimeStore.{
  awaiting_approval, completed, InvestigationRun, Entry, EventBody, AuditBody, RuntimeStore, Error,
  value_error, raise, get_run, get_row,
}
use unknown_file_threat_agen.Cases.RunService.{Description, is_awaiting, complete_after_approval}
use unknown_file_threat_agen.Cases.RunService.Approval.{complete_after_approval_lem}
use unknown_file_threat_agen.Prelude.{◌≡◌, refl, ◌⊎◌, Bool, true, false, none, some, [], ◌∷◌}

abbrev any_event : Entry → EventBody → Bool
any_event e b = true

abbrev no_audit : Entry → AuditBody → Bool
no_audit e b = false

abbrev told : Error → Description
told e = record { message = "m"; representation = "r"; traceback = "t" }

abbrev service : RunServiceConfig
service = record {
  tenant_id = "t";
  judgment_provider = "p";
  judgment_model = "m";
  response_provider = "p";
  response_model = "m";
}

abbrev waiting : InvestigationRun
waiting = record {
  tenant_id = "t";
  case_id = "c";
  run_id = "r";
  status = awaiting_approval;
  stage = "approval";
  graph_thread_id = none;
  started_at = some 1;
  completed_at = none;
  report_id = none;
  error_type = none;
}

abbrev desk : RuntimeStore
desk = record {
  runs = record { run = waiting; dataset_id = ""; profile_id = "" } ∷ [];
  events = [];
  audits = [];
  artifacts = [];
}

found : get_run "t" "r" desk ≡ some waiting
unfolding get_run get_row
found = refl

complete_after_approval_lem_example :
    ((is_awaiting waiting.status ≡ false)
      × (complete_after_approval any_event no_audit told service 9 "r" "alice" true none desk
          ≡ raise value_error desk))
    ⊎ ((is_awaiting waiting.status ≡ true)
        × (get_run "t" "r"
              (complete_after_approval any_event no_audit told service 9 "r" "alice" true none
                desk).store
            ≡ some
                (record waiting { status = completed; stage = "advised"; completed_at = some 9 })))
complete_after_approval_lem_example =
    complete_after_approval_lem any_event no_audit told service 9 "r" "alice" true none desk waiting
      found
