-- ===== src/Judgment/Gateway.antt =====
-- judgment/adapters/investigation_tools.py: the gateway between the model's tool calls and the data.
-- Every call passes the boundary twice; the tools themselves, with the lookup of identities, the dump of a
-- result and the event sink, each of which may raise, are a parameter.
pub mod Recorded
pub mod Committed
pub mod Atomic
use Prim.Native.String.{◌++◌ as append}
use unknown_file_threat_agen.Contracts.{Activity, InvestigationToolLedger}
use unknown_file_threat_agen.Cases.BoundaryPolicy.{
  Check, pass, denied, identity_error, BoundaryDenied, ToolResult, query, exploration, raw_records,
  metrics, unchecked,
}
use unknown_file_threat_agen.Shared.Json.{
  Json, null, bool, num, str, arr, obj, Items, nil, cons, Fields, end, field,
}
use unknown_file_threat_agen.Prelude.{
  or_else, ◌+◌, String, ◌⊎◌, inl, inr, Bool, true, false, Option, none, some, List, [], ◌∷◌, ◌++◌,
  map, if◌then◌else◌, length, concat_map, mem, sorted_set,
}

-- `_NULL_LIKE`
abbrev null_tokens : List String
null_tokens = "" ∷ "null" ∷ "none" ∷ "undefined" ∷ "nan" ∷ []

unfoldable pub is_null : Json → Bool
is_null null = true
is_null _ = false

-- `fold s` is `s.strip().lower()`
module _ (fold : String → String) where
  unfoldable pub normalize_text : String → Json
  normalize_text s = if mem (fold s) null_tokens then null else str s

  -- `_normalize_null_values`
  unfoldable mutual
    pub normalize_null_values : Json → Json
    normalize_null_values null = null
    normalize_null_values (bool b) = bool b
    normalize_null_values (num n) = num n
    normalize_null_values (str s) = normalize_text s
    normalize_null_values (arr xs) = arr (normalize_items xs)
    normalize_null_values (obj fs) = obj (normalize_fields fs)

    pub normalize_items : Items → Items
    normalize_items nil = nil
    normalize_items (cons x xs) =
        let v = normalize_null_values x in
        let rest = normalize_items xs in if is_null v then rest else cons v rest

    pub normalize_fields : Fields → Fields
    normalize_fields end = end
    normalize_fields (field k x fs) =
        let v = normalize_null_values x in
        let rest = normalize_fields fs in if is_null v then rest else field k v rest

-- `InvestigationToolGateway.tool_names`
unfoldable pub tool_names : List String
tool_names =
    "query_process_activities" ∷ "query_network_activities" ∷ "query_socket_activities"
    ∷ "query_file_activities" ∷ "query_service_activities" ∷ "query_package_activities"
    ∷ "query_asset_activities" ∷ "query_authentication_activities" ∷ "explore_entity"
    ∷ "get_raw_records" ∷ "calculate_activity_metrics" ∷ []

-- what a call may raise: a violation of the boundary, a `PolicyError` or a `KeyError` with its text,
-- or another exception with its type's name and its text
pub data Failure : Type 0 where
  boundary_violation : BoundaryDenied → Failure
  policy_error : String → Failure
  other_error : String → String → Failure

-- `InvestigationBoundaryPort` for the context of a run
pub record Boundary : Type 0 where
  pub authorize_call : InvestigationToolLedger → String → Fields → Check
  pub validate_result : InvestigationToolLedger → String → ToolResult → Check

-- the data tools of a run: their handlers, the references of the aliases of an identity, those of the
-- endpoints of a relation, which `resolve_entity` looks up, `model_dump` of a result, the event of a call
-- with its details, and the event of a denial; these give the exception that they raise, if any
pub record Tools : Type 0 where
  pub handle : InvestigationToolLedger → String → Fields → Failure ⊎ ToolResult
  pub identity_refs : String → List String
  pub endpoint_refs : String → Failure ⊎ List String
  pub dump : ToolResult → Failure ⊎ Json
  pub emit : String → Fields → ToolResult → Option Failure
  pub emit_denial : BoundaryDenied → Option Failure

-- `extend_activities` of `_record_result`
unfoldable pub entity_refs : Activity → List String
entity_refs a = a.subject_refs ++ (a.actor_refs ++ a.target_refs)

unfoldable pub extend_activities : List Activity → InvestigationToolLedger → InvestigationToolLedger
extend_activities activities ledger = record ledger {
  authorized_entity_refs =
      sorted_set (ledger.authorized_entity_refs ++ concat_map entity_refs activities);
  authorized_activity_refs =
      sorted_set (ledger.authorized_activity_refs ++ map (λ a. a.activity_id) activities);
}

unfoldable pub extend_entities : List String → InvestigationToolLedger → InvestigationToolLedger
extend_entities refs ledger = record ledger {
  authorized_entity_refs = sorted_set (ledger.authorized_entity_refs ++ refs);
}

-- the first exception, or all references
unfoldable pub add_refs : Failure ⊎ List String → Failure ⊎ List String → Failure ⊎ List String
add_refs (inl failure) rest = inl failure
add_refs (inr refs) (inl failure) = inl failure
add_refs (inr refs) (inr more) = inr (refs ++ more)

-- a ledger, and the exception that stopped the work on it
abbrev pub Recorded : Type 0
Recorded = InvestigationToolLedger × Option Failure

module _ (tools : Tools) where
  unfoldable pub all_endpoint_refs : List String → Failure ⊎ List String
  unfolding add_refs
  all_endpoint_refs [] = inr []
  all_endpoint_refs (relation ∷ rest) =
      add_refs (tools.endpoint_refs relation) (all_endpoint_refs rest)

  -- the end of an exploration: the references are written only if all endpoints were looked up
  unfoldable pub record_entities :
      List String → InvestigationToolLedger → Failure ⊎ List String → Recorded
  record_entities own ledger (inl failure) = (ledger, some failure)
  record_entities own ledger (inr refs) = (extend_entities (own ++ refs) ledger, none)

  -- `_record_result`: the handler of a tool fixes the type of its result
  unfoldable pub record_result : ToolResult → InvestigationToolLedger → Recorded
  record_result (query r) ledger = (
    extend_activities r.activities
        (record ledger { query_results = ledger.query_results ++ (r ∷ []) }),
    none,
  )
  record_result (exploration r) ledger =
      record_entities (elim r.identity [ none ↦ [] | some i ↦ i ∷ tools.identity_refs i ])
        (extend_activities r.timeline
          (record ledger { entity_results = ledger.entity_results ++ (r ∷ []) }))
        (all_endpoint_refs (r.resolved_relations ++ r.candidate_relations))
  record_result (raw_records refs) ledger =
      (record ledger { raw_record_results = ledger.raw_record_results ++ (refs ∷ []) }, none)
  record_result (metrics refs) ledger =
      (record ledger { metric_results = ledger.metric_results ++ (refs ∷ []) }, none)
  record_result unchecked ledger = (ledger, none)

unfoldable pub result_type : ToolResult → String
result_type (query r) = "ActivityQueryResult"
result_type (exploration r) = "EntityExplorationResult"
result_type (raw_records refs) = "RawRecordResult"
result_type (metrics refs) = "ActivityMetricResult"
result_type unchecked = "object"

-- `ledger.traces.append(InvestigationToolTrace(sequence=len(ledger.traces) + 1, …))`
unfoldable pub append_trace :
    String
    → Json
    → String
    → Json
    → Option String
    → Json
    → InvestigationToolLedger
    → InvestigationToolLedger
append_trace tool arguments kind result tool_call_id model_message ledger = record ledger {
  traces =
      ledger.traces
      ++ (record {
        sequence = length ledger.traces + 1;
        tool_name = tool;
        arguments = arguments;
        result_type = kind;
        result = result;
        tool_call_id = tool_call_id;
        model_message = model_message;
      }
          ∷ []);
}

abbrev pub Reply : Type 0
Reply = InvestigationToolLedger × (Failure ⊎ ToolResult)

-- what is raised for a failure of the guarded part of a call: a violation is announced first
unfoldable pub reraised : Tools → Failure → Failure
reraised tools (boundary_violation d) = or_else (tools.emit_denial d) (boundary_violation d)
reraised tools (policy_error message) = policy_error message
reraised tools (other_error name message) = other_error name message

-- a check of the boundary, then the rest of the call; a wiring bug is a `ValueError`,
-- whose text is left out
abbrev pub if_passed : Tools → Check → InvestigationToolLedger → Reply → Reply
if_passed tools pass ledger rest = rest
if_passed tools (denied d) ledger rest = (ledger, inl (reraised tools (boundary_violation d)))
if_passed tools identity_error ledger rest = (ledger, inl (other_error "ValueError" ""))

module _ (tools : Tools) (tool : String) (arguments : Fields) (tool_call_id : Option String)
    (model_message : Json) (result : ToolResult) where
  -- the reply after the event of the call
  unfoldable pub announced : Option Failure → InvestigationToolLedger → Reply
  announced none ledger = (ledger, inr result)
  announced (some failure) ledger = (ledger, inl failure)

  -- the trace of the call, once its result is dumped, and the event
  unfoldable pub traced : Failure ⊎ Json → InvestigationToolLedger → Reply
  traced (inl failure) ledger = (ledger, inl failure)
  traced (inr dumped) ledger = announced (tools.emit tool arguments result) (
      append_trace tool (obj arguments) (result_type result) dumped tool_call_id model_message
        ledger)

  unfoldable pub after_record : Recorded → Reply
  after_record (ledger, none) = traced (tools.dump result) ledger
  after_record (ledger, some failure) = (ledger, inl failure)

  -- `_record_result`, the trace and the event of a call; what was written before an exception stays
  unfoldable pub commit : InvestigationToolLedger → Reply
  commit ledger = after_record (record_result tools result ledger)

module _ (fold : String → String) (boundary : Boundary) (tools : Tools) where
  -- the part of `invoke` after the handler
  unfoldable pub settle :
      String
      → Fields
      → Option String
      → Json
      → InvestigationToolLedger
      → Failure ⊎ ToolResult
      → Reply
  settle tool arguments tool_call_id model_message ledger (inl failure) =
      (ledger, inl (reraised tools failure))
  settle tool arguments tool_call_id model_message ledger (inr result) =
      if_passed tools (boundary.validate_result ledger tool result) ledger
        (commit tools tool arguments tool_call_id model_message result ledger)

  unfoldable pub invoke_normalized :
      String → Fields → Option String → Json → InvestigationToolLedger → Reply
  invoke_normalized tool arguments tool_call_id model_message ledger =
      if_passed tools (boundary.authorize_call ledger tool arguments) ledger (
        settle tool arguments tool_call_id model_message ledger
          (tools.handle ledger tool arguments))

  -- `invoke`; the quotes that `str` of a `KeyError` adds are left out
  unfoldable pub invoke : String → Fields → Option String → Json → InvestigationToolLedger → Reply
  invoke tool arguments tool_call_id model_message ledger =
      if mem tool tool_names
      then invoke_normalized tool (normalize_fields fold arguments) tool_call_id model_message
          ledger
      else (ledger, inl (policy_error (append "Unknown investigation data tool: " tool)))
