-- ===== src/Judgment/Policy.antt =====
-- judgment/application/policy.py: which action of the planner may run.
use unknown_file_threat_agen.Contracts.{
  InvestigationAction, finish_request, data_tool_request, InvestigationState,
}
use Prim.Native.String.{◌++◌ as append}
use unknown_file_threat_agen.Prelude.{
  String, Option, none, some, List, [], ◌∷◌, leb, if◌then◌else◌, mem,
}

-- `DATA_TOOL_NAMES`
unfoldable pub data_tool_names : List String
data_tool_names =
    "query_process_activities" ∷ "query_network_activities" ∷ "query_socket_activities"
    ∷ "query_file_activities" ∷ "query_service_activities" ∷ "query_package_activities"
    ∷ "query_asset_activities" ∷ "explore_entity" ∷ "get_raw_records" ∷ "calculate_activity_metrics"
    ∷ []

-- `validate_action`: the text of the `PolicyError`, if one is raised
unfoldable pub validate_action : InvestigationAction → InvestigationState → Option String
validate_action (finish_request objective) state = none
validate_action (data_tool_request request) state =
    if leb state.budget.max_iterations state.budget.iterations_used
    then some "Iteration budget exhausted"
    else if mem request.tool_name data_tool_names
    then none
    else some (append "Unknown LLM data tool: " request.tool_name)
