-- ===== src/Judgment/Loop/Execution.antt =====
-- judgment/application/graph.py: `_execute_action` with its handlers of exceptions.
use Prim.Native.String.{◌++◌ as append}
use unknown_file_threat_agen.Contracts.{
  CallStatus, call_success, call_denied, call_error, DataToolRequest, finish_request,
  data_tool_request, InvestigationState,
}
use unknown_file_threat_agen.Cases.BoundaryPolicy.{
  Code, single_host_required, host_out_of_scope, time_out_of_scope, domain_out_of_scope,
  entity_not_authorized, reference_not_authorized,
}
use unknown_file_threat_agen.Judgment.Gateway.{
  Failure, boundary_violation, policy_error, other_error,
}
use unknown_file_threat_agen.Judgment.Loop.{
  Runtime, NodeError, not_a_data_tool, JudgmentGraphState, append_call, tool_error, error_result,
  record_rejected, next_action,
}
use unknown_file_threat_agen.Shared.Json.{str, obj, end, field, key}
use unknown_file_threat_agen.Prelude.{
  ◌+◌, String, ◌⊎◌, inl, inr, Option, none, some, leb, if◌then◌else◌,
}

-- the value of `BoundaryErrorCode`
unfoldable pub code_text : Code → String
code_text single_host_required = "single_host_required"
code_text host_out_of_scope = "host_out_of_scope"
code_text time_out_of_scope = "time_out_of_scope"
code_text domain_out_of_scope = "domain_out_of_scope"
code_text entity_not_authorized = "entity_not_authorized"
code_text reference_not_authorized = "reference_not_authorized"

-- the call of the gateway with its handlers of exceptions: the status and the error of the call, and
-- the state
unfoldable pub handle_failure :
    Runtime
    → DataToolRequest
    → InvestigationState
    → Option Failure
    → CallStatus × Option String × InvestigationState
handle_failure runtime request state none = (call_success, none, state)
handle_failure runtime request state (some (boundary_violation d)) =
    let code = code_text d.code in
    let message = runtime.denial_message d in
    (
      call_denied,
      some (append code (append ": " message)),
      tool_error request
          (obj (
            field (key "error_type") (str "BoundaryDenied") (
              field (key "error_code") (str code) (field (key "error_message") (str message) end))))
          state,
    )
handle_failure runtime request state (some (policy_error message)) =
    (call_denied, some message, state)
handle_failure runtime request state (some (other_error name message)) = (
  call_error,
  some (append name (append ": " message)),
  tool_error request (error_result name message) state,
)

-- the call of the gateway, or the `PolicyError` when there is none
unfoldable pub call_gateway :
    Runtime → DataToolRequest → InvestigationState → CallStatus × Option String × InvestigationState
call_gateway runtime request state = elim runtime.data_tool_gateway [
  | none ↦ (call_denied, some "LLM data-tool gateway is not configured", state)
  | some invoke ↦
      let (ledger, failure) = invoke request state.tool_ledger in
      handle_failure runtime request (record state { tool_ledger = ledger }) failure
]

-- `state.budget.tool_calls_used += 1; state.tool_calls.append(call)`
unfoldable pub count_call :
    DataToolRequest → CallStatus × Option String × InvestigationState → InvestigationState
count_call request (status, error, state) =
    append_call
      (record {
        tool_name = request.tool_name;
        action_type = "data_tool_request";
        status = status;
        objective = request.objective;
        parameters = obj request.arguments;
        error = error;
      })
      (record state {
        budget = record state.budget { tool_calls_used = state.budget.tool_calls_used + 1 };
      })

-- `_execute_action`
unfoldable pub execute_request : Runtime → InvestigationState → DataToolRequest → InvestigationState
execute_request runtime state request =
    if leb state.budget.max_tool_calls state.budget.tool_calls_used
    then record_rejected (data_tool_request request) "Tool-call budget exhausted" state
    else count_call request (call_gateway runtime request state)

unfoldable pub execute_action : Runtime → JudgmentGraphState → NodeError ⊎ JudgmentGraphState
execute_action runtime g = elim g.action [
  | none ↦ inl not_a_data_tool
  | some (finish_request objective) ↦ inl not_a_data_tool
  | some (data_tool_request request) ↦
      inr (next_action (execute_request runtime g.investigation request) g.pending_actions)
]
