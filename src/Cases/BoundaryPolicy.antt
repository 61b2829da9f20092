-- ===== src/Cases/BoundaryPolicy.antt =====
-- case_management/application/boundary_policy.py: authorisation of tool calls against a single alert
-- host. A check passes or raises; the messages of the source are not modelled, its codes and
-- identifiers are.
pub mod Authorized
pub mod Validated
use mathlib.Core.Option
use unknown_file_threat_agen.Contracts.{
  Activity, ActivityQueryResult, EntityExplorationResult, InvestigationToolLedger, Scope,
}
use unknown_file_threat_agen.Prelude.{
  ℕ, String, Bool, true, false, not, ◌&&◌, ◌||◌, Option, none, some, List, [], ◌∷◌, map, ◌==◌, ltb,
  eqb, if◌then◌else◌, length, is_nil, or_else, mem, diff, sorted_set,
}

pub data Code : Type 0 where
  single_host_required host_out_of_scope time_out_of_scope domain_out_of_scope : Code
  entity_not_authorized reference_not_authorized : Code

pub record BoundaryDenied : Type 0 where
  pub code : Code
  pub tool_name : String
  pub host_refs : List String
  pub reference_ids : List String

-- `BoundaryViolationError` with its rejection, or `ValueError` for a wiring bug
pub data Check : Type 0 where
  pass : Check
  denied : BoundaryDenied → Check
  identity_error : Check

infixr 5 ◌>>◌
abbrev pub ◌>>◌ : Check → Check → Check
pass >> k = k
denied d >> k = denied d
identity_error >> k = identity_error

abbrev pub deny_if : Bool → BoundaryDenied → Check
deny_if true d = denied d
deny_if false d = pass

abbrev pub identity_if : Bool → Check
identity_if true = pass
identity_if false = identity_error

-- `_TOOL_SCOPE_DOMAIN`
unfoldable pub tool_scope_domain : String → Option String
tool_scope_domain tool =
    if tool == "query_process_activities"
    then some "process"
    else if tool == "query_network_activities"
    then some "network"
    else if tool == "query_socket_activities"
    then some "network"
    else if tool == "query_file_activities"
    then some "file"
    else if tool == "query_service_activities"
    then some "persistence"
    else if tool == "query_package_activities"
    then some "reputation"
    else if tool == "query_asset_activities"
    then some "reputation"
    else none

-- `tool_name in _REFERENCE_TOOLS`; both entries name the field `activity_refs`
unfoldable pub is_reference_tool : String → Bool
is_reference_tool tool = tool == "get_raw_records" || tool == "calculate_activity_metrics"

-- A datetime with a zone, as its UTC instant, or without one, as the instant of its UTC reading.
pub data Stamp : Type 0 where
  aware naive : ℕ → Stamp

pub data TimeArgument : Type 0 where
  stamp : Stamp → TimeArgument
  text : String → TimeArgument
  other : TimeArgument

unfoldable pub as_utc : Stamp → ℕ
as_utc (aware t) = t
as_utc (naive t) = t

-- `_as_datetime`, over `datetime.fromisoformat` with its `Z` replaced
unfoldable pub as_datetime : (String → Option Stamp) → TimeArgument → Option ℕ
unfolding as_utc
as_datetime from_iso (stamp s) = some (as_utc s)
as_datetime from_iso (text s) = Option.map as_utc (from_iso s)
as_datetime from_iso other = none

-- the arguments that the policy reads; a missing list is empty, a missing text is ""
pub record Arguments : Type 0 where
  pub host_refs : List String
  pub start_time : TimeArgument
  pub end_time : TimeArgument
  pub entity_ref : String
  pub activity_refs : List String

pub record Identity : Type 0 where
  pub tenant_id : String
  pub case_id : String
  pub run_id : String

pub record ToolRuntimeContext : Type 0 where
  pub identity : Identity
  pub scope : Scope

unfoldable pub same_identity : Identity → Identity → Bool
same_identity a b = a.tenant_id == b.tenant_id && (a.case_id == b.case_id && a.run_id == b.run_id)

-- `a is not None and bound is not None and a < bound`
unfoldable pub earlier : Option ℕ → Option ℕ → Bool
earlier (some a) (some b) = ltb a b
earlier _ _ = false

-- `domain is not None and domain not in allowed_domains`
unfoldable pub domain_refused : Option String → Scope → Bool
domain_refused none scope = false
domain_refused (some domain) scope = not (mem domain scope.allowed_domains)

-- the test of `explore_entity`
unfoldable pub entity_refused : String → Arguments → InvestigationToolLedger → Bool
entity_refused tool arguments ledger =
    tool == "explore_entity"
    && (not (arguments.entity_ref == "")
        && not (mem arguments.entity_ref ledger.authorized_entity_refs))

module _ (from_iso : String → Option Stamp) where
  unfoldable pub check_time_window : ToolRuntimeContext → String → Arguments → Check
  unfolding as_datetime earlier
  check_time_window context tool arguments =
      let start = as_datetime from_iso arguments.start_time in
      let end = as_datetime from_iso arguments.end_time in
      let refusal : BoundaryDenied = record {
        code = time_out_of_scope;
        tool_name = tool;
        host_refs = [];
        reference_ids = [];
      } in
      deny_if (earlier start context.scope.start_time) refusal
      >> deny_if (earlier context.scope.end_time end) refusal

  -- `authorize_call`
  unfoldable pub authorize_call :
      Identity → ToolRuntimeContext → InvestigationToolLedger → String → Arguments → Check
  unfolding check_time_window same_identity diff sorted_set
  authorize_call policy context ledger tool arguments =
      let hosts = context.scope.host_ids in
      let unauthorized_hosts = sorted_set (diff arguments.host_refs hosts) in
      let unauthorized =
        sorted_set (diff arguments.activity_refs ledger.authorized_activity_refs) in
      identity_if (same_identity context.identity policy)
      >> deny_if (not (eqb (length hosts) 1)) (record {
        code = single_host_required;
        tool_name = tool;
        host_refs = hosts;
        reference_ids = [];
      })
      >> deny_if (domain_refused (tool_scope_domain tool) context.scope) (record {
        code = domain_out_of_scope;
        tool_name = tool;
        host_refs = [];
        reference_ids = [];
      })
      >> deny_if (not (is_nil unauthorized_hosts)) (record {
        code = host_out_of_scope;
        tool_name = tool;
        host_refs = unauthorized_hosts;
        reference_ids = [];
      })
      >> check_time_window context tool arguments
      >> deny_if (entity_refused tool arguments ledger) (record {
        code = entity_not_authorized;
        tool_name = tool;
        host_refs = [];
        reference_ids = arguments.entity_ref ∷ [];
      })
      >> deny_if (is_reference_tool tool && not (is_nil unauthorized)) (record {
        code = reference_not_authorized;
        tool_name = tool;
        host_refs = [];
        reference_ids = unauthorized;
      })

-- what a tool may return; raw records and metrics are known by the activities that they cite
pub data ToolResult : Type 0 where
  query : ActivityQueryResult → ToolResult
  exploration : EntityExplorationResult → ToolResult
  raw_records metrics : List String → ToolResult
  unchecked : ToolResult

-- `host is not None and host not in host_ids`
unfoldable pub foreign_host : Option String → List String → Bool
foreign_host none hosts = false
foreign_host (some host) hosts = not (mem host hosts)

unfoldable pub refused_activity : Code → String → List String → Activity → BoundaryDenied
refused_activity code tool hosts activity = record {
  code = code;
  tool_name = tool;
  host_refs = hosts;
  reference_ids = activity.activity_id ∷ [];
}

-- the body of the loop of `_check_activities`
unfoldable pub check_activity : Scope → String → Activity → Check
unfolding foreign_host earlier refused_activity
check_activity scope tool activity =
    deny_if (foreign_host activity.host_ref scope.host_ids)
      (refused_activity host_out_of_scope tool (or_else activity.host_ref "" ∷ []) activity)
    >> deny_if (earlier (some activity.observed_at) scope.start_time)
        (refused_activity time_out_of_scope tool [] activity)
    >> deny_if (earlier scope.end_time (some activity.observed_at))
        (refused_activity time_out_of_scope tool [] activity)

-- `_check_activities`
unfoldable pub check_activities : Scope → String → List Activity → Check
check_activities scope tool [] = pass
check_activities scope tool (activity ∷ rest) =
    check_activity scope tool activity >> check_activities scope tool rest

-- `_check_result_identity`
unfoldable pub check_result_identity : Identity → ActivityQueryResult → Check
unfolding same_identity
check_result_identity identity result = identity_if (
    same_identity
      (record { tenant_id = result.tenant_id; case_id = result.case_id; run_id = result.run_id })
      identity)

unfoldable pub check_references : InvestigationToolLedger → String → List String → Check
unfolding diff sorted_set
check_references ledger tool refs =
    let unauthorized = sorted_set (diff refs ledger.authorized_activity_refs) in
    deny_if (not (is_nil unauthorized)) (record {
      code = reference_not_authorized;
      tool_name = tool;
      host_refs = [];
      reference_ids = unauthorized;
    })

unfoldable pub validate_result :
    ToolRuntimeContext → InvestigationToolLedger → String → ToolResult → Check
unfolding check_result_identity check_references
validate_result context ledger tool (query result) =
    check_result_identity context.identity result
    >> check_activities context.scope tool result.activities
validate_result context ledger tool (exploration result) =
    check_activities context.scope tool result.timeline
validate_result context ledger tool (raw_records refs) = check_references ledger tool refs
validate_result context ledger tool (metrics refs) = check_references ledger tool refs
validate_result context ledger tool unchecked = pass
