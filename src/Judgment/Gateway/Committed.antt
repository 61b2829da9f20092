-- ===== src/Judgment/Gateway/Committed.antt =====
-- judgment/adapters/investigation_tools.py with boundary_policy.py: the ledger of calls under the single-host policy.
use unknown_file_threat_agen.Contracts.{InvestigationToolLedger}
use unknown_file_threat_agen.Cases.BoundaryPolicy.{
  Check, pass, denied, identity_error, Stamp, Arguments, Identity, ToolRuntimeContext, ToolResult,
  authorize_call, validate_result,
}
use unknown_file_threat_agen.Cases.BoundaryPolicy.Validated.{IsValidResult, validate_result_iff}
use unknown_file_threat_agen.Judgment.Gateway.{
  Recorded, announced, traced, after_record, Failure, Boundary, Tools, record_result, append_trace,
  commit, settle, invoke_normalized, invoke, if_passed, normalize_fields, result_type, tool_names,
}
use unknown_file_threat_agen.Shared.Json.{Json, Fields, obj}
use unknown_file_threat_agen.Prelude.{
  none, some, String, ◌≡◌, refl, ◌⊎◌, inl, inr, Option, Bool-cases, mem,
}
use unknown_file_threat_agen.Judgment.Gateway.Recorded.{
  IsConfined, append_trace-IsTraced, record_result-IsConfined,
}

-- the single-host policy as the boundary of a run; `read` reads the arguments that it looks at
unfoldable pub single_host :
    (String → Option Stamp) → (Fields → Arguments) → Identity → ToolRuntimeContext → Boundary
single_host from_iso read policy context = record {
  authorize_call =
      λ ledger tool arguments. authorize_call from_iso policy context ledger tool (read arguments);
  validate_result = validate_result context;
}

pub append_trace-IsConfined :
    {context : ToolRuntimeContext} (tool : String) (arguments : Json) (kind : String)
    (result : Json) (tool_call_id : Option String) (model_message : Json)
    (ledger : InvestigationToolLedger)
    → IsConfined context ledger
    → IsConfined context (append_trace tool arguments kind result tool_call_id model_message ledger)
unfolding append_trace
append_trace-IsConfined tool arguments kind result tool_call_id model_message ledger c = record {
  results = c.results;
  timelines = c.timelines;
  backed = c.backed;
  traced =
      append_trace-IsTraced tool arguments kind result tool_call_id model_message ledger c.traced;
}

module _ (fold : String → String) (from_iso : String → Option Stamp) (read : Fields → Arguments)
    (policy : Identity) (context : ToolRuntimeContext) (tools : Tools) (tool : String)
    (tool_call_id : Option String) (model_message : Json) (ledger : InvestigationToolLedger)
    (c : IsConfined context ledger) where
  module _ (arguments : Fields) (result : ToolResult) where
    traced-IsConfined :
        (dumped : Failure ⊎ Json) (next : InvestigationToolLedger)
        → IsConfined context next
        → IsConfined context
            (traced tools tool arguments tool_call_id model_message result dumped next).0
    unfolding traced announced
    traced-IsConfined (inl failure) next kept = kept
    traced-IsConfined (inr j) next kept = by_event (tools.emit tool arguments result)
      where
        with_trace : IsConfined context (
            append_trace tool
              (obj arguments)
              (result_type result)
              j
              tool_call_id
              model_message
              next)
        with_trace =
            append_trace-IsConfined tool (obj arguments) (result_type result) j tool_call_id
              model_message next kept

        by_event :
            (event : Option Failure)
            → IsConfined context
                (announced tools tool arguments tool_call_id model_message result event (
                  append_trace tool
                    (obj arguments)
                    (result_type result)
                    j
                    tool_call_id
                    model_message
                    next)).0
        by_event none = with_trace
        by_event (some failure) = with_trace

    after_record-IsConfined :
        (recorded : Recorded)
        → IsConfined context recorded.0
        → IsConfined context
            (after_record tools tool arguments tool_call_id model_message result recorded).0
    unfolding after_record
    after_record-IsConfined (next, none) kept = traced-IsConfined _ next kept
    after_record-IsConfined (next, some failure) kept = kept

  commit-IsConfined :
      (arguments : Fields) (result : ToolResult)
      → IsValidResult context ledger result
      → IsConfined context (commit tools tool arguments tool_call_id model_message result ledger).0
  unfolding commit
  commit-IsConfined arguments result v =
      after_record-IsConfined arguments result (record_result tools result ledger)
        (record_result-IsConfined context tools result ledger v c)

  settle-IsConfined :
      (arguments : Fields) (answer : Failure ⊎ ToolResult)
      → IsConfined context
          (settle fold
            (single_host from_iso read policy context)
            tools
            tool
            arguments
            tool_call_id
            model_message
            ledger
            answer).0
  unfolding settle single_host
  settle-IsConfined arguments (inl f) = c
  settle-IsConfined arguments (inr result) =
      by_check (validate_result context ledger tool result) refl
    where
      by_check :
          (check : Check)
          → validate_result context ledger tool result ≡ check
          → IsConfined context
              (if_passed tools check ledger
                (commit tools tool arguments tool_call_id model_message result ledger)).0
      by_check pass e =
          commit-IsConfined arguments result ((validate_result_iff context ledger tool result).0 e)
      by_check (denied d) e = c
      by_check identity_error e = c

  -- A call through the gateway, whether it returns or raises, with the single-host policy as its boundary and any tools behind it,
  -- keeps the ledger confined: its query results have the identity of the run, their activities and
  -- those of its timelines name no host outside the scope and lie within its window, every authorised activity
  -- reference is that of an activity in the ledger, and the traces are numbered from 1 without a gap.
  pub invoke-IsConfined :
      (arguments : Fields)
      → IsConfined context
          (invoke fold
            (single_host from_iso read policy context)
            tools
            tool
            arguments
            tool_call_id
            model_message
            ledger).0
  unfolding invoke invoke_normalized single_host
  invoke-IsConfined arguments =
      let normal = normalize_fields fold arguments in
      let answer = settle-IsConfined normal (tools.handle ledger tool normal) in
      elim (Bool-cases (mem tool tool_names)) [
        | inl known ↦
            rw known
              (by_check (authorize_call from_iso policy context ledger tool (read normal)) _ answer)
        | inr unknown ↦ rw unknown c
      ]
    where
      by_check :
          (check : Check) (reply : InvestigationToolLedger × (Failure ⊎ ToolResult))
          → IsConfined context reply.0
          → IsConfined context (if_passed tools check ledger reply).0
      by_check pass reply h = h
      by_check (denied d) reply h = c
      by_check identity_error reply h = c
