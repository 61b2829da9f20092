-- ===== src/Judgment/Loop/Budgeted.antt =====
-- judgment/application/graph.py: the budget of a run of the graph.
use unknown_file_threat_agen.Contracts.{
  DataToolRequest, InvestigationAction, finish_request, data_tool_request, InvestigationState,
}
use unknown_file_threat_agen.Judgment.Gateway.{
  Failure, boundary_violation, policy_error, other_error,
}
use unknown_file_threat_agen.Judgment.Loop.{Runtime, append_call, tool_error, record_rejected}
use unknown_file_threat_agen.Judgment.Loop.Execution.{
  handle_failure, call_gateway, count_call, execute_request,
}
use unknown_file_threat_agen.Prelude.{
  ◌+◌, String, ◌≡◌, refl, inl, inr, Option, none, some, leb, if◌then◌else◌, Bool-cases,
  Option-cases,
}

pub budget-record_rejected :
    (action : InvestigationAction) (error : String) (state : InvestigationState)
    → (record_rejected action error state).budget ≡ state.budget
unfolding record_rejected tool_error append_call
budget-record_rejected (finish_request objective) error state = refl
budget-record_rejected (data_tool_request request) error state = refl

budget-handle_failure :
    (runtime : Runtime) (request : DataToolRequest) (state : InvestigationState)
    (failure : Option Failure)
    → (handle_failure runtime request state failure).2.budget ≡ state.budget
unfolding handle_failure tool_error
budget-handle_failure runtime request state none = refl
budget-handle_failure runtime request state (some (boundary_violation d)) = refl
budget-handle_failure runtime request state (some (policy_error m)) = refl
budget-handle_failure runtime request state (some (other_error n m)) = refl

pub budget-call_gateway :
    (runtime : Runtime) (request : DataToolRequest) (state : InvestigationState)
    → (call_gateway runtime request state).2.budget ≡ state.budget
unfolding call_gateway
budget-call_gateway runtime request state = elim (Option-cases runtime.data_tool_gateway) [
  | inl e ↦ rw (e, call_gateway) refl
  | inr (invoke, e) ↦ rw (e, call_gateway) (budget-handle_failure runtime request _ _)
]

-- The budget after the execution node: within the limit, one more call is counted; at the limit the
-- request is rejected and nothing is.
pub budget-execute_request :
    (runtime : Runtime) (state : InvestigationState) (request : DataToolRequest)
    → (execute_request runtime state request).budget ≡ (
        if leb state.budget.max_tool_calls state.budget.tool_calls_used
        then state.budget
        else record state.budget { tool_calls_used = state.budget.tool_calls_used + 1 })
unfolding execute_request count_call append_call
budget-execute_request runtime state request =
    elim (Bool-cases (leb state.budget.max_tool_calls state.budget.tool_calls_used)) [
      | inl e ↦ rw e (budget-record_rejected (data_tool_request request) _ state)
      | inr e ↦ rw (e, budget-call_gateway runtime request state) refl
    ]
