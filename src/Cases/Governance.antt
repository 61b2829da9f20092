-- ===== src/Cases/Governance.antt =====
-- case_management/application/graph.py, `CaseGraph`, with contract_builders.py: the lifecycle of a case from the
-- judgment to the decision on the response plan. The judgment subgraph is a parameter (`none` is an exception), and
-- so are pydantic's reading of an edited plan and `str` of a value. The response subgraph is `advise`. The checkpointer
-- is the configuration `waiting`, which holds the state at the interrupt; execution contexts are left out.
pub mod Decision
pub mod Approved
pub mod Started
pub mod Resumed
use unknown_file_threat_agen.Shared.Json.{Json}
use unknown_file_threat_agen.Contracts.{
  EvidenceReference, ActivityQueryResult, InvestigationState, CandidateVerdict, PublicationStatus,
  grounded,
}
use unknown_file_threat_agen.Judgment.Publication.{Publication}
use unknown_file_threat_agen.Response.Policy.{JudgmentResult}
use unknown_file_threat_agen.Response.Graph.{
  PlanStatus, approval_required, ResponsePlan, ResponsePorts,
}
use unknown_file_threat_agen.Response.Graph.Flow.{advise}
use unknown_file_threat_agen.Prelude.{
  ℕ, zero, suc, String, Bool, true, false, Option, none, some, map, if◌then◌else◌, concat_map,
  sorted_set,
}

pub data LifecycleStatus : Type 0 where
  investigating judged awaiting_response_approval advised : LifecycleStatus

pub data CaseRoute : Type 0 where
  judged_route response_route approval_route complete : CaseRoute

pub record CaseGraphState : Type 0 where
  pub lifecycle_status : LifecycleStatus
  pub investigation : InvestigationState
  pub published : Option Publication
  pub judgment_result : Option JudgmentResult
  pub investigation_report : Option Publication
  pub response_plan : Option ResponsePlan
  pub approval_status : Option String
  pub route : CaseRoute

-- the judgment subgraph gives the investigation and the report on it
pub record CasePorts : Type 0 where
  pub judge : InvestigationState → Option (InvestigationState × Option Publication)
  pub response_graph : Option (ResponsePorts × ℕ)
  pub recursion_limit : ℕ
  pub read_plan : Json → Option ResponsePlan
  pub text_of : Json → String

unfoldable pub status_of : Option Publication → PublicationStatus
status_of none = grounded
status_of (some p) = p.publication_status

-- `build_judgment_result`; without a verdict it raises
unfoldable pub judgment_of :
    InvestigationState → Option Publication → Option CandidateVerdict → Option JudgmentResult
unfolding status_of
judgment_of state report none = none
judgment_of state report (some verdict) = some (record {
  evidence_refs = sorted_set (
      concat_map
        (λ (r : ActivityQueryResult).
          map (λ (ref : EvidenceReference). ref.evidence_id) r.evidence_references)
        state.tool_ledger.query_results);
  asserted_host_refs = state.scope.host_ids;
  limitations = verdict.limitations;
  verdict = verdict;
  publication_status = status_of report;
})

unfoldable pub build_judgment_result :
    InvestigationState → Option Publication → Option JudgmentResult
unfolding judgment_of
build_judgment_result state report = judgment_of state report state.verdict

pub data CaseNode : Type 0 where
  run_judgment route_after_judgment publish_judgment run_response_advisory : CaseNode
  route_after_response approve_response : CaseNode

-- `waiting` is the graph at its interrupt
pub data CaseConfig : Type 0 where
  at : CaseNode → CaseGraphState → CaseConfig
  waiting : CaseGraphState → CaseConfig
  ended : CaseGraphState → CaseConfig
  raised : CaseConfig

unfoldable pub after_judge :
    CaseGraphState → Option (InvestigationState × Option Publication) → CaseConfig
after_judge s none = raised
after_judge s (some (state, report)) =
    at route_after_judgment (record s { investigation = state; published = report })

-- `_publish_judgment` and its edges
unfoldable pub after_publication : Bool → CaseGraphState → Option JudgmentResult → CaseConfig
after_publication has_response s none = raised
after_publication has_response s (some result) =
    let next = record s {
      judgment_result = some result;
      investigation_report = s.published;
      lifecycle_status = judged;
      route = if has_response then response_route else complete;
    } in
    if has_response then at run_response_advisory next else ended next

-- what the subgraph's answer does to the case; an exception in it leaves the case graph
unfoldable pub after_advice : CaseGraphState → Option ResponsePlan → CaseConfig
after_advice s none = raised
after_advice s (some plan) = at route_after_response (record s { response_plan = some plan })

-- the subgraph writes the plan (its own value of `route` is overwritten by the next node), reads the verdict of the
-- judgment and runs under the recursion limit of the case graph; without a response graph the node only sets the route
unfoldable pub with_plan :
    ℕ → CaseGraphState → Option (ResponsePorts × ℕ) → Option JudgmentResult → CaseConfig
unfolding after_advice
with_plan recursion_limit s none judgment =
    at route_after_response (record s { lifecycle_status = judged; route = complete })
with_plan recursion_limit s (some (ports, limit)) none = raised
with_plan recursion_limit s (some (ports, limit)) (some judgment) =
    after_advice s (advise ports recursion_limit limit judgment)

unfoldable pub is_approval_required : PlanStatus → Bool
is_approval_required approval_required = true
is_approval_required _ = false

-- `_route_after_response` and its edges
unfoldable pub after_response : CaseGraphState → Option ResponsePlan → CaseConfig
unfolding is_approval_required
after_response s none = ended (record s { lifecycle_status = judged; route = complete })
after_response s (some plan) =
    if is_approval_required plan.status
    then at approve_response
        (record s { lifecycle_status = awaiting_response_approval; route = approval_route })
    else ended (record s { lifecycle_status = advised; route = complete })

-- `_approve_response` up to its interrupt
unfoldable pub interrupt : CaseGraphState → Option ResponsePlan → CaseConfig
interrupt s none = raised
interrupt s (some plan) = waiting s

unfoldable pub has_response : Option (ResponsePorts × ℕ) → Bool
has_response none = false
has_response (some g) = true

module _ (ports : CasePorts) where
  unfoldable pub visit : CaseNode → CaseGraphState → CaseConfig
  unfolding after_judge after_publication with_plan after_response interrupt has_response
      build_judgment_result
  visit run_judgment s = after_judge s (ports.judge s.investigation)
  visit route_after_judgment s =
      at publish_judgment (record s { lifecycle_status = judged; route = judged_route })
  visit publish_judgment s =
      after_publication (has_response ports.response_graph) s
        (build_judgment_result s.investigation s.published)
  visit run_response_advisory s =
      with_plan ports.recursion_limit s ports.response_graph s.judgment_result
  visit route_after_response s = after_response s s.response_plan
  visit approve_response s = interrupt s s.response_plan

  -- a run of at most this many nodes; one that needs more raises a `GraphRecursionError`
  unfoldable pub steps : ℕ → CaseConfig → CaseConfig
  unfolding visit
  steps recursion_limit (waiting s) = waiting s
  steps recursion_limit (ended s) = ended s
  steps recursion_limit raised = raised
  steps zero (at node s) = raised
  steps (suc recursion_limit) (at node s) = steps recursion_limit (visit node s)

  -- `start` with a recursion limit, and with that of the graph
  unfoldable pub start_with : ℕ → InvestigationState → CaseConfig
  unfolding steps
  start_with recursion_limit state = steps recursion_limit (
      at run_judgment (record {
        lifecycle_status = investigating;
        investigation = state;
        published = none;
        judgment_result = none;
        investigation_report = none;
        response_plan = none;
        approval_status = none;
        route = judged_route;
      }))

  unfoldable pub start : InvestigationState → CaseConfig
  unfolding start_with
  start state = start_with ports.recursion_limit state
