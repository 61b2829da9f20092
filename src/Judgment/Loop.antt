-- ===== src/Judgment/Loop.antt =====
-- judgment/application/graph.py, `JudgmentGraph`: the nodes and the edges of the graph. The planner, the
-- knowledge service and the composer of reports are parameters that may raise.
pub mod Execution
pub mod Flow
pub mod Budgeted
pub mod Halting
pub mod Kept
pub mod Confined
use unknown_file_threat_agen.Contracts.{
  call_denied, ToolCall, DataToolRequest, InvestigationAction, finish_request, data_tool_request,
  InvestigationState, InvestigationToolLedger, KnowledgeItem, KnowledgeConsultationStatus,
}
use unknown_file_threat_agen.Cases.BoundaryPolicy.{BoundaryDenied}
use unknown_file_threat_agen.Judgment.Gateway.{Failure, append_trace}
use unknown_file_threat_agen.Judgment.Policy.{validate_action}
use unknown_file_threat_agen.Judgment.Grounding.{ReportDraft}
use unknown_file_threat_agen.Judgment.Repair.{Composer}
use unknown_file_threat_agen.Judgment.Assembly.Flow.{JudgmentComposer}
use unknown_file_threat_agen.Shared.Json.{Json, null, str, obj, end, field, key}
use unknown_file_threat_agen.Prelude.{
  ◌+◌, String, ◌⊎◌, inl, inr, Bool, true, false, Option, none, some, List, [], ◌∷◌, ◌++◌, ltb,
  if◌then◌else◌,
}

-- `KnowledgeConsultationResult`
pub record ConsultationResult : Type 0 where
  pub consultation_id : String
  pub query_id : String
  pub intent : String
  pub status : KnowledgeConsultationStatus
  pub items : List KnowledgeItem
  pub limitations : List String

-- the composer of the reports: its first draft and its rejudgments
pub record ReportComposer : Type 0 where
  pub pipeline : Option JudgmentComposer
  pub compose_draft : InvestigationState → Option ReportDraft
  pub rejudge : Composer

abbrev pub Invoke : Type 0
Invoke = DataToolRequest → InvestigationToolLedger → InvestigationToolLedger × Option Failure

-- the attributes of a `JudgmentGraph`: the planner's actions, unless it raises; the gateway, if there is
-- one; the knowledge service on the baseline consultation, or the text of its exception; the composer, if
-- there is one; the text of a boundary denial
pub record Runtime : Type 0 where
  pub plan : InvestigationState → Option (List InvestigationAction)
  pub data_tool_gateway : Option Invoke
  pub consult_investigation : InvestigationState → String ⊎ ConsultationResult
  pub report_composer : Option ReportComposer
  pub denial_message : BoundaryDenied → String

pub data Route : Type 0 where
  plan execute finish retry validate end_route : Route

-- `JudgmentGraphState`
pub record JudgmentGraphState : Type 0 where
  pub investigation : InvestigationState
  pub action : Option InvestigationAction
  pub pending_actions : List InvestigationAction
  pub route : Route

-- what a node may raise
pub data NodeError : Type 0 where
  planner_raised composer_raised no_action not_a_data_tool recursion_limit_reached : NodeError

abbrev pub graph_state :
    InvestigationState
    → Option InvestigationAction
    → List InvestigationAction
    → Route
    → JudgmentGraphState
graph_state investigation action pending_actions route = record {
  investigation = investigation;
  action = action;
  pending_actions = pending_actions;
  route = route;
}

-- `state.budget.iterations_used += 1`
unfoldable pub count_iteration : InvestigationState → InvestigationState
count_iteration state = record state {
  budget = record state.budget { iterations_used = state.budget.iterations_used + 1 };
}

-- `_prepare_iteration`: a finished investigation ends, an exhausted budget finishes
unfoldable pub open_iteration : Bool → InvestigationState → JudgmentGraphState
open_iteration true state = graph_state state none [] end_route
open_iteration false state =
    let next = count_iteration state in
    if ltb next.budget.max_iterations next.budget.iterations_used
    then graph_state next none [] finish
    else graph_state next none [] plan

unfoldable pub prepare_iteration : JudgmentGraphState → JudgmentGraphState
prepare_iteration g = open_iteration g.investigation.finished g.investigation

-- the actions of a turn; an empty plan is a request to finish
unfoldable pub turn : InvestigationState → List InvestigationAction → JudgmentGraphState
turn state [] = graph_state state (some (finish_request "模型未产生任何调查动作，结束调查")) [] plan
turn state (current ∷ pending) = graph_state state (some current) pending plan

-- `_plan_action`
unfoldable pub plan_action : Runtime → JudgmentGraphState → NodeError ⊎ JudgmentGraphState
plan_action runtime g = elim (runtime.plan g.investigation) [
  | none ↦ inl planner_raised
  | some actions ↦ inr (turn g.investigation actions)
]

-- `_next_action`
unfoldable pub next_action : InvestigationState → List InvestigationAction → JudgmentGraphState
next_action state [] = graph_state state none [] retry
next_action state (next ∷ rest) = graph_state state (some next) rest validate

unfoldable pub append_call : ToolCall → InvestigationState → InvestigationState
append_call call state = record state { tool_calls = state.tool_calls ++ (call ∷ []) }

abbrev optional : Option String → Json
optional none = null
optional (some s) = str s

-- `action.model_dump(mode="json", exclude={"action_type", "tool_name", "objective"})` of a request
unfoldable pub dump_request : DataToolRequest → Json
dump_request request = obj (
    field (key "arguments") (obj request.arguments) (
      field (key "tool_call_id") (optional request.tool_call_id)
        (field (key "model_message") request.model_message end)))

unfoldable pub tool_error : DataToolRequest → Json → InvestigationState → InvestigationState
tool_error request result state = record state {
  tool_ledger =
      append_trace request.tool_name (obj request.arguments) "ToolError" result request.tool_call_id
        request.model_message state.tool_ledger;
}

abbrev pub error_result : String → String → Json
error_result error_type message =
    obj (field (key "error_type") (str error_type) (field (key "error_message") (str message) end))

-- `_record_rejected`
unfoldable pub record_rejected :
    InvestigationAction → String → InvestigationState → InvestigationState
record_rejected (finish_request objective) error state =
    append_call
      (record {
        tool_name = "finish_request";
        action_type = "finish_request";
        status = call_denied;
        objective = objective;
        parameters = obj end;
        error = some error;
      })
      state
record_rejected (data_tool_request request) error state =
    tool_error request (error_result "PolicyError" error) (
      append_call
        (record {
          tool_name = request.tool_name;
          action_type = "data_tool_request";
          status = call_denied;
          objective = request.objective;
          parameters = dump_request request;
          error = some error;
        })
        state)

-- the route of an admitted action
unfoldable pub admitted :
    InvestigationState → InvestigationAction → List InvestigationAction → JudgmentGraphState
admitted state (finish_request objective) pending =
    graph_state state (some (finish_request objective)) pending finish
admitted state (data_tool_request request) pending =
    graph_state state (some (data_tool_request request)) pending execute

-- `_validate_action`
unfoldable pub judge_action :
    InvestigationState → InvestigationAction → List InvestigationAction → JudgmentGraphState
judge_action state action pending = elim (validate_action action state) [
  | some error ↦ next_action (record_rejected action error state) pending
  | none ↦ admitted state action pending
]

unfoldable pub validate_node : JudgmentGraphState → NodeError ⊎ JudgmentGraphState
validate_node g = elim g.action [
  | none ↦ inl no_action
  | some action ↦ inr (judge_action g.investigation action g.pending_actions)
]
