-- ===== src/Cases/RunExamples.antt =====
-- The run service at a concrete run.
use unknown_file_threat_agen.Cases.Events.{RunServiceConfig}
use unknown_file_threat_agen.Cases.Events.Numbered.{IsLedger}
use unknown_file_threat_agen.Cases.Redaction.{redact_details}
use unknown_file_threat_agen.Cases.Redaction.Clean.{is_clean, redact_details_lem}
use unknown_file_threat_agen.Cases.RuntimeStore.{Entry, EventBody, AuditBody, RuntimeStore, Error}
use unknown_file_threat_agen.Cases.RunService.{
  alert_json, RunExecutionRequest, Execution, Description, launch, execute_locked,
}
use unknown_file_threat_agen.Cases.RunService.Numbered.{
  launches, executes, Reachable, empty, after, Reachable-IsLedger,
}
use unknown_file_threat_agen.Prelude.Int.{pos}
use unknown_file_threat_agen.Shared.Json.{key, num, str, obj, Fields, end, field}
use unknown_file_threat_agen.Prelude.{◌≡◌, inr, Bool, true, false, some, [], ◌∷◌}

abbrev any_event : Entry → EventBody → Bool
any_event e b = true

abbrev any_audit : Entry → AuditBody → Bool
any_audit e b = true

abbrev told : Error → Description
told e = record { message = "m"; representation = "r"; traceback = "t" }

abbrev service : RunServiceConfig
service = record {
  tenant_id = "t";
  judgment_provider = "p";
  judgment_model = "m";
  response_provider = "p";
  response_model = "m";
}

abbrev alert : RunExecutionRequest
alert = record {
  case_id = "c";
  run_id = "r";
  source = alert_json;
  dataset_id = "";
  profile_id = "";
  alert = obj end;
}

abbrev investigates : Execution
investigates = record {
  emissions =
      record { kind = "tool"; message = "queried"; details = field (key "query_id") (str "q1") end }
      ∷ [];
  result = inr (record {
    report_id = some "rep";
    result_summary = "";
    artifacts = [];
    pending_approval = false;
  });
}

abbrev no_rows : RuntimeStore
no_rows = record { runs = []; events = []; audits = []; artifacts = [] }

launched : RuntimeStore
launched = (launch any_event any_audit told service 1 alert no_rows).store

executed : RuntimeStore
executed = (execute_locked any_event any_audit told service 2 "r" investigates launched).store

executed-Reachable : Reachable any_event any_audit told service executed
unfolding executed launched
executed-Reachable = after (after empty (launches 1 alert no_rows)) (executes 2 "r" investigates _)

Reachable-IsLedger_example : IsLedger executed
Reachable-IsLedger_example =
    Reachable-IsLedger any_event any_audit told service executed executed-Reachable

is_numbered : IsLedger executed
is_numbered = Reachable-IsLedger any_event any_audit told service executed executed-Reachable

abbrev details : Fields
details = field (key "API-Key") (str "x") (field (key "count") (num (pos 2)) end)

redact_details_lem_example :
    (is_clean (redact_details (obj details)) ≡ true)
    × (redact_details (redact_details (obj details)) ≡ redact_details (obj details))
redact_details_lem_example = redact_details_lem (obj details)
