-- ===== src/Cases/ApprovalService.antt =====
-- case_management/application/approval_service.py: the decision on a run that awaits approval. The port
-- that resumes the paused graph is a parameter like that of the execution: what it does in one call is
-- the list of its emissions, and the class of an exception if it raises one.
pub mod Pending
use unknown_file_threat_agen.Cases.Events.{RunServiceConfig, merge, with_run}
use unknown_file_threat_agen.Cases.RuntimeStore.{
  Entry, EventBody, AuditBody, RuntimeStore, Error, value_error, execution_error, Outcome, fine,
  raise, ◌>>◌,
}
use unknown_file_threat_agen.Cases.RunService.{
  Description, Emission, is_awaiting, emit_all, complete_after_approval,
}
use unknown_file_threat_agen.Shared.Json.{key, str, end, field}
use unknown_file_threat_agen.Prelude.{
  ℕ, String, Bool, true, false, Option, none, some, List, map, if◌then◌else◌,
}

-- contracts/workbench.py
pub data Decision : Type 0 where
  accept edit respond ignore : Decision

-- `decision.decision`
abbrev pub decision_name : Decision → String
decision_name accept = "accept"
decision_name edit = "edit"
decision_name respond = "respond"
decision_name ignore = "ignore"

-- `decision.decision in ("accept", "edit")`
abbrev pub is_approval : Decision → Bool
is_approval accept = true
is_approval edit = true
is_approval respond = false
is_approval ignore = false

-- `{"approval_kind": "response", "decision": ..., **details}`
unfoldable pub tagged : Decision → Emission → Emission
tagged decision e = record e {
  details =
      merge
        (field (key "approval_kind") (str "response")
          (field (key "decision") (str (decision_name decision)) end))
        e.details;
}

pub record Resumption : Type 0 where
  pub emissions : List Emission
  pub raised : Option String

unfoldable pub port_result : Option String → RuntimeStore → Outcome
port_result none store = fine store
port_result (some name) store = raise (execution_error name) store

module _ (accepts_event : Entry → EventBody → Bool) (accepts_audit : Entry → AuditBody → Bool)
    (describe : Error → Description) (config : RunServiceConfig) where
  -- `ApprovalService.decide`
  unfoldable pub decide :
      ℕ → String → Decision → String → Option String → Resumption → RuntimeStore → Outcome
  decide now run_id decision decided_by comment resumption store =
      with_run config run_id store (λ run.
        if is_awaiting run.status
        then emit_all accepts_event accepts_audit describe config run_id
            (map (tagged decision) resumption.emissions) store
          >> port_result resumption.raised
          >> complete_after_approval accepts_event accepts_audit describe config now run_id
              decided_by (is_approval decision) comment
        else raise value_error store)
