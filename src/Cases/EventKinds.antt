-- ===== src/Cases/EventKinds.antt =====
-- case_management/application/run_service.py: the tables that give the type, the stage, the node and
-- the audit action of an event from its kind.
use unknown_file_threat_agen.Shared.Json.{Json, str, arr, obj}
use unknown_file_threat_agen.Prelude.{
  String, Option, none, some, List, [], ◌∷◌, ◌==◌, if◌then◌else◌, or_else,
}

-- a table of texts, asked by `get`
table : String → List (String × String) → Option String
table k [] = none
table k ((j, v) ∷ rows) = if k == j then some v else table k rows

-- `_EVENT_TYPE.get(kind, "run")`
unfoldable pub event_type : String → String
unfolding table
event_type kind =
    or_else
      (table kind (
        ("thinking", "model")
        ∷ ("decision", "model")
        ∷ ("repair", "validation")
        ∷ ("validation", "validation")
        ∷ ("report", "model")
        ∷ ("response", "model")
        ∷ ("tool", "tool")
        ∷ ("evidence", "tool")
        ∷ ("round", "tool")
        ∷ ("graph", "graph")
        ∷ ("verdict", "graph")
        ∷ ("result", "run")
        ∷ ("complete", "run")
        ∷ ("approval", "run")
        ∷ ("run", "run")
        ∷ ("error", "error")
        ∷ ("model_input", "model")
        ∷ ("model_output", "model")
        ∷ ("tool_message", "model")
        ∷ ("tool_error", "tool")
        ∷ []))
      "run"

-- `_STAGE_BY_KIND.get(kind)`
unfoldable pub stage_by_kind : String → Option String
unfolding table
stage_by_kind kind = table kind (
    ("run", "initializing")
    ∷ ("graph", "investigating")
    ∷ ("thinking", "investigating")
    ∷ ("decision", "investigating")
    ∷ ("tool", "investigating")
    ∷ ("evidence", "investigating")
    ∷ ("round", "investigating")
    ∷ ("verdict", "judgment")
    ∷ ("report", "reporting")
    ∷ ("response", "response_advisory")
    ∷ ("approval", "approval")
    ∷ ("result", "publishing")
    ∷ ("complete", "published")
    ∷ [])

-- `_NODE_BY_KIND.get(kind, "")`
unfoldable pub node_by_kind : String → String
unfolding table
node_by_kind kind =
    or_else
      (table kind (
        ("run", "intake")
        ∷ ("graph", "intake")
        ∷ ("decision", "plan")
        ∷ ("tool_message", "validate")
        ∷ ("tool", "execute")
        ∷ ("tool_error", "execute")
        ∷ ("round", "execute")
        ∷ ("report", "compose")
        ∷ ("validation", "gate")
        ∷ ("verdict", "gate")
        ∷ ("response", "advise")
        ∷ ("result", "done")
        ∷ ("complete", "done")
        ∷ ("error", "error")
        ∷ []))
      ""

-- `_PHASE_TO_NODE.get(phase, "")`: a list or a dict is no key, which raises
unfoldable pub phase_to_node : Option Json → Option String
unfolding table
phase_to_node (some (str s)) = some (
    or_else
      (table s (
        ("judgment_planning", "plan")
        ∷ ("judgment_report", "compose")
        ∷ ("response_advisory", "advise")
        ∷ []))
      "")
phase_to_node (some (arr xs)) = none
phase_to_node (some (obj fs)) = none
phase_to_node _ = some ""

-- the kinds that are audited, with their action
unfoldable pub audit_action : String → Option String
unfolding table
audit_action kind = table kind (
    ("tool", "tool_invoked")
    ∷ ("report", "report_published")
    ∷ ("approval", "approval_decided")
    ∷ ("knowledge", "knowledge_consulted")
    ∷ [])
