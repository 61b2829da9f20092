-- ===== src/Judgment/Gateway/Atomic.antt =====
-- judgment/adapters/investigation_tools.py: the ledger after a call of `invoke`, on every branch.
use unknown_file_threat_agen.Contracts.{InvestigationToolLedger}
use unknown_file_threat_agen.Cases.BoundaryPolicy.{pass, ToolResult}
use unknown_file_threat_agen.Judgment.Gateway.{
  Failure, Boundary, Tools, record_result, Reply, normalize_fields, tool_names,
}
use unknown_file_threat_agen.Shared.Json.{Json, Fields}
use unknown_file_threat_agen.Prelude.{
  none, ◌+◌, String, ◌≡◌, ◌⊎◌, inl, inr, true, Option, length, mem,
}

-- A call that got to its commit: the tool is one of the gateway's, and with the normalised arguments it was
-- authorised, its handler gave the result, and the result was validated, all against the ledger before.
abbrev pub WasChecked :
    (String → String)
    → Boundary
    → Tools
    → String
    → Fields
    → InvestigationToolLedger
    → ToolResult
    → Type 0
WasChecked fold boundary tools tool arguments before result =
    (mem tool tool_names ≡ true)
    × (boundary.authorize_call before tool (normalize_fields fold arguments) ≡ pass)
    × (tools.handle before tool (normalize_fields fold arguments) ≡ inr result)
    × (boundary.validate_result before tool result ≡ pass)

-- what the failed commit of a result leaves: the ledger that `record_result` gives, without a trace or with one
abbrev pub IsStopped :
    Tools → ToolResult → InvestigationToolLedger → InvestigationToolLedger → Type 0
IsStopped tools result before after =
    ((after ≡ (record_result tools result before).0) × (after.traces ≡ before.traces))
    ⊎ (((record_result tools result before).1 ≡ none)
        × (length after.traces ≡ length before.traces + 1))

-- what a call came to
abbrev pub IsGuarded :
    (String → String)
    → Boundary
    → Tools
    → String
    → Fields
    → InvestigationToolLedger
    → InvestigationToolLedger
    → Failure ⊎ ToolResult
    → Type 0
IsGuarded fold boundary tools tool arguments before after (inl failure) =
    (after ≡ before)
    ⊎ ((result : ToolResult) × WasChecked fold boundary tools tool arguments before result
        × IsStopped tools result before after)
IsGuarded fold boundary tools tool arguments before after (inr result) =
    WasChecked fold boundary tools tool arguments before result
    × ((record_result tools result before).1 ≡ none)
    × (length after.traces ≡ length before.traces + 1)

module _ (fold : String → String) (boundary : Boundary) (tools : Tools) (tool : String)
    (arguments : Fields) (tool_call_id : Option String) (model_message : Json)
    (ledger : InvestigationToolLedger) where
  abbrev Guarded : Reply → Type 0
  Guarded reply = IsGuarded fold boundary tools tool arguments ledger reply.0 reply.1
