-- ===== src/Judgment/Loop/Confined.antt =====
-- judgment/application/graph.py with the gateway: runs under the single-host policy.
use unknown_file_threat_agen.Contracts.{
  DataToolRequest, InvestigationAction, finish_request, data_tool_request, InvestigationState,
}
use unknown_file_threat_agen.Cases.BoundaryPolicy.{
  Stamp, Arguments, Identity, ToolRuntimeContext, ToolResult,
}
use unknown_file_threat_agen.Judgment.Gateway.{
  Failure, boundary_violation, policy_error, other_error, Boundary, Tools, invoke,
}
use unknown_file_threat_agen.Judgment.Gateway.Committed.{
  single_host, append_trace-IsConfined, invoke-IsConfined,
}
use unknown_file_threat_agen.Judgment.Gateway.Recorded.{IsConfined}
use unknown_file_threat_agen.Judgment.Loop.{
  ConsultationResult, Runtime, Invoke, count_iteration, tool_error, append_call, record_rejected,
}
use unknown_file_threat_agen.Judgment.Loop.Execution.{
  handle_failure, call_gateway, count_call, execute_request,
}
use unknown_file_threat_agen.Judgment.Loop.Flow.{
  run_knowledge_baseline, finished_with, expose, steps, start, append_consultation,
}
use unknown_file_threat_agen.Judgment.Loop.Kept.{Holds, run-Holds}
use unknown_file_threat_agen.Shared.Json.{Fields}
use unknown_file_threat_agen.Prelude.{
  ℕ, String, ◌⊎◌, inl, inr, Option, none, some, leb, Bool-cases, Sum-cases,
}

abbrev failure_of : Failure ⊎ ToolResult → Option Failure
failure_of (inl failure) = some failure
failure_of (inr result) = none

-- the gateway as the graph calls it
unfoldable pub gateway : (String → String) → Boundary → Tools → Invoke
gateway fold boundary tools request ledger =
    let (after, answer) =
      invoke fold boundary tools request.tool_name request.arguments request.tool_call_id
        request.model_message ledger in
    (after, failure_of answer)

module _ (context : ToolRuntimeContext) where
  record_rejected-IsConfined :
      (action : InvestigationAction) (error : String) (s : InvestigationState)
      → IsConfined context s.tool_ledger
      → IsConfined context (record_rejected action error s).tool_ledger
  unfolding record_rejected tool_error append_call
  record_rejected-IsConfined (finish_request o) error s c = c
  record_rejected-IsConfined (data_tool_request r) error s c =
      append_trace-IsConfined _ _ _ _ _ _ _ c

  handle_failure-IsConfined :
      (runtime : Runtime) (request : DataToolRequest) (s : InvestigationState)
      (failure : Option Failure)
      → IsConfined context s.tool_ledger
      → IsConfined context (handle_failure runtime request s failure).2.tool_ledger
  unfolding handle_failure tool_error
  handle_failure-IsConfined runtime request s none c = c
  handle_failure-IsConfined runtime request s (some (boundary_violation d)) c =
      append_trace-IsConfined _ _ _ _ _ _ _ c
  handle_failure-IsConfined runtime request s (some (policy_error m)) c = c
  handle_failure-IsConfined runtime request s (some (other_error n m)) c =
      append_trace-IsConfined _ _ _ _ _ _ _ c

  run_knowledge_baseline-IsConfined :
      (consult : InvestigationState → String ⊎ ConsultationResult) (s : InvestigationState)
      → IsConfined context s.tool_ledger
      → IsConfined context (run_knowledge_baseline consult s).tool_ledger
  unfolding run_knowledge_baseline append_consultation
  run_knowledge_baseline-IsConfined consult s c = elim (Sum-cases (consult s)) [
    | inl (x, e) ↦
        rw (e, run_knowledge_baseline)
          (record {
            results = c.results;
            timelines = c.timelines;
            backed = c.backed;
            traced = c.traced;
          })
    | inr (r, e) ↦
        rw (e, run_knowledge_baseline)
          (record {
            results = c.results;
            timelines = c.timelines;
            backed = c.backed;
            traced = c.traced;
          })
  ]

module _ (fold : String → String) (from_iso : String → Option Stamp) (read : Fields → Arguments)
    (policy : Identity) (context : ToolRuntimeContext) (tools : Tools) (runtime : Runtime) where
  -- the graph with the gateway
  abbrev pub guarded : Runtime
  guarded = record runtime {
    data_tool_gateway = some (gateway fold (single_host from_iso read policy context) tools);
  }

  execute_request-IsConfined :
      (s : InvestigationState) (request : DataToolRequest)
      → IsConfined context s.tool_ledger
      → IsConfined context (execute_request guarded s request).tool_ledger
  unfolding execute_request count_call append_call call_gateway gateway
  execute_request-IsConfined s request c =
      elim (Bool-cases (leb s.budget.max_tool_calls s.budget.tool_calls_used)) [
        | inl e ↦ rw e (record_rejected-IsConfined context (data_tool_request request) _ s c)
        | inr e ↦ rw e (
            handle_failure-IsConfined context guarded request _ _ (
              invoke-IsConfined fold from_iso read policy context tools request.tool_name
                request.tool_call_id request.model_message s.tool_ledger c request.arguments))
      ]

  -- At every point of a run whose tool calls pass the gateway with the single-host policy, and which
  -- starts with a confined ledger, the ledger is confined: whatever the planner asks for and the tools
  -- answer or raise, also in the middle of a recording, it holds no activity that names a host outside the scope or lies
  -- outside its window, authorises only references to activities that it holds, and numbers its traces without a gap.
  pub run-IsConfined :
      (s : InvestigationState)
      → IsConfined context s.tool_ledger
      → (fuel : ℕ) → Holds (λ t. IsConfined context t.tool_ledger) (steps guarded fuel (start s))
  unfolding count_iteration expose finished_with
  run-IsConfined s c =
      run-Holds guarded _
        (record {
          iteration = λ t d. d;
          rejection = λ t d a error. record_rejected-IsConfined context a error t d;
          execution = λ t d request. execute_request-IsConfined t request d;
          baseline =
              λ t d. run_knowledge_baseline-IsConfined context runtime.consult_investigation t d;
          publication = λ t d report. d;
          closing = λ t d. d;
        })
        s c
