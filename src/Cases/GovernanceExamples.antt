-- ===== src/Cases/GovernanceExamples.antt =====
-- A case whose response graph asks for an approval, and the decision on it.
use unknown_file_threat_agen.Shared.Json.{Json, bool, str, obj, end, field, key}
use unknown_file_threat_agen.Contracts.{suspicious, unknown}
use unknown_file_threat_agen.Judgment.Examples.{state}
use unknown_file_threat_agen.Response.Examples.{review}
use unknown_file_threat_agen.Response.Graph.{ResponsePlan, approval_required}
use unknown_file_threat_agen.Response.GraphExamples
use unknown_file_threat_agen.Cases.Governance.{
  CasePorts, CaseGraphState, awaiting_response_approval, approval_route, start, raised,
}
use unknown_file_threat_agen.Cases.Governance.Decision.{decide}
use unknown_file_threat_agen.Cases.Governance.Approved.{Stops}
use unknown_file_threat_agen.Cases.Governance.Started.{MayFail, start-Stops}
use unknown_file_threat_agen.Cases.Governance.Resumed.{IsResumed, decide-IsResumed}
use unknown_file_threat_agen.Prelude.{◌≡◌, refl, ◌⊎◌, false, none, some, [], ◌∷◌}

abbrev ports : CasePorts
ports = record {
  judge = λ s. some (
    record s {
      verdict = some (record {
        level = suspicious;
        threat_type = unknown;
        summary = "unclear";
        supporting_refs = "a1" ∷ [];
        contradicting_refs = [];
        limitations = [];
      });
    },
    none,
  );
  response_graph = some (GraphExamples.ports, 3);
  recursion_limit = 1000;
  read_plan = λ v. none;
  text_of = λ v. "analyst";
}

start-Stops_example :
    ((start ports state ≡ raised) × MayFail ports state) ⊎ Stops (start ports state)
start-Stops_example = start-Stops ports state

abbrev plan : ResponsePlan
plan = record {
  status = approval_required;
  actions = review ∷ [];
  missing_context = [];
  residual_risk = [];
  limitations = [];
}

abbrev case_state : CaseGraphState
case_state = record {
  lifecycle_status = awaiting_response_approval;
  investigation = state;
  published = none;
  judgment_result = none;
  investigation_report = none;
  response_plan = some plan;
  approval_status = none;
  route = approval_route;
}

abbrev denial : Json
denial = obj (field (key "approved") (bool false) (field (key "approved_by") (str "analyst") end))

decide-IsResumed_example :
    IsResumed ports case_state plan denial (decide ports case_state case_state.response_plan denial)
decide-IsResumed_example = decide-IsResumed ports case_state plan denial refl
