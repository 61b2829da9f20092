-- ===== src/Judgment/Loop/Flow.antt =====
-- judgment/application/graph.py, `JudgmentGraph`: the closing nodes, the edges, and a run of the graph.
use unknown_file_threat_agen.Contracts.{
  InvestigationState, KnowledgeItem, KnowledgeConsultationRecord, KnowledgeConsultationStatus.error,
}
use Prim.Native.String.{◌++◌ as append}
use unknown_file_threat_agen.Judgment.Loop.{
  ConsultationResult, Runtime, plan, execute, finish, validate, end_route, JudgmentGraphState,
  NodeError, recursion_limit_reached, composer_raised, graph_state, prepare_iteration, plan_action,
  validate_node,
}
use unknown_file_threat_agen.Judgment.Loop.Execution.{execute_action}
use unknown_file_threat_agen.Judgment.Publication.{Publication}
use unknown_file_threat_agen.Judgment.Assembly.Flow.{publish_with_pipeline}
use unknown_file_threat_agen.Prelude.{
  ℕ, zero, suc, String, ◌⊎◌, inl, inr, true, none, some, [], ◌∷◌, ◌++◌, map,
}

-- `knowledge_item_ref`
unfoldable pub knowledge_item_ref : KnowledgeItem → String
knowledge_item_ref item =
    append item.knowledge_id (append "@" (append item.version (append "#" item.chunk_id)))

-- `record_consultation`
unfoldable pub record_consultation : ConsultationResult → String → KnowledgeConsultationRecord
record_consultation result entry = record {
  consultation_id = result.consultation_id;
  query_id = result.query_id;
  entry = entry;
  intent = result.intent;
  status = result.status;
  item_refs = map knowledge_item_ref result.items;
  limitations = result.limitations;
}

unfoldable pub append_consultation :
    KnowledgeConsultationRecord → InvestigationState → InvestigationState
append_consultation r state = record state {
  tool_ledger = record state.tool_ledger {
    knowledge_consultations = state.tool_ledger.knowledge_consultations ++ (r ∷ []);
  };
}

-- `run_knowledge_baseline`; the exception is known by its type's name and its text
unfoldable pub run_knowledge_baseline :
    (InvestigationState → String ⊎ ConsultationResult) → InvestigationState → InvestigationState
run_knowledge_baseline consult state = elim (consult state) [
  | inl exception ↦
      append_consultation
        (record {
          consultation_id = "kcon-baseline-failed";
          query_id = "kquery-baseline-failed";
          entry = "baseline";
          intent = "investigation_guidance";
          status = error;
          item_refs = [];
          limitations = append "基线知识检索执行失败：" exception ∷ [];
        })
        state
  | inr result ↦ record (append_consultation (record_consultation result "baseline") state) {
    knowledge_guidance = result.items;
  }
]

-- `_retrieve_knowledge_baseline`
unfoldable pub retrieve_knowledge_baseline : Runtime → JudgmentGraphState → JudgmentGraphState
retrieve_knowledge_baseline runtime g =
    graph_state (run_knowledge_baseline runtime.consult_investigation g.investigation) none
      g.pending_actions finish

unfoldable pub finished_with : InvestigationState → InvestigationState
finished_with state = record state { finished = true }

-- what a published report leaves on the state
unfoldable pub expose : Publication → InvestigationState → InvestigationState
expose p state = record state {
  budget = record state.budget { report_rejudgments_used = p.report_rejudgments_used };
  report_validation_errors = p.report_validation_errors;
  verdict = some p.report.verdict;
}

-- `_evaluate_verdict`
unfoldable pub evaluate_verdict : Runtime → JudgmentGraphState → NodeError ⊎ JudgmentGraphState
evaluate_verdict runtime g = elim runtime.report_composer [
  | none ↦ inr (graph_state (finished_with g.investigation) none g.pending_actions end_route)
  | some composer ↦
      elim (publish_with_pipeline composer.pipeline composer.compose_draft composer.rejudge
        g.investigation) [
          | none ↦ inl composer_raised
          | some p ↦ inr (
              graph_state (finished_with (expose p g.investigation)) none g.pending_actions
                end_route)
        ]
]

pub data Node : Type 0 where
  prepare_node plan_node validate_action_node execute_node baseline_node verdict_node : Node

pub data Config : Type 0 where
  at : Node → JudgmentGraphState → Config
  ended : InvestigationState → Config
  raised : NodeError → Config

-- the conditional edges; a route that has no edge does not occur
unfoldable pub after_prepare : JudgmentGraphState → Config
after_prepare g = elim g.route [
  | plan ↦ at plan_node g
  | finish ↦ at baseline_node g
  | _ ↦ ended g.investigation
]

unfoldable pub after_validate : JudgmentGraphState → Config
after_validate g = elim g.route [
  | execute ↦ at execute_node g
  | finish ↦ at baseline_node g
  | validate ↦ at validate_action_node g
  | _ ↦ at prepare_node g
]

unfoldable pub after_execute : JudgmentGraphState → Config
after_execute g = elim g.route [
  | validate ↦ at validate_action_node g
  | end_route ↦ ended g.investigation
  | _ ↦ at prepare_node g
]

abbrev unless_raised : NodeError ⊎ JudgmentGraphState → (JudgmentGraphState → Config) → Config
unless_raised (inl e) edge = raised e
unless_raised (inr g) edge = edge g

-- one node and the edge that is taken after it
unfoldable pub visit : Runtime → Node → JudgmentGraphState → Config
visit runtime prepare_node g = after_prepare (prepare_iteration g)
visit runtime plan_node g = unless_raised (plan_action runtime g) (at validate_action_node)
visit runtime validate_action_node g = unless_raised (validate_node g) after_validate
visit runtime execute_node g = unless_raised (execute_action runtime g) after_execute
visit runtime baseline_node g = at verdict_node (retrieve_knowledge_baseline runtime g)
visit runtime verdict_node g =
    unless_raised (evaluate_verdict runtime g) (λ h. ended h.investigation)

unfoldable pub step : Runtime → Config → Config
step runtime (at node g) = visit runtime node g
step runtime (ended state) = ended state
step runtime (raised e) = raised e

-- `fuel` nodes of a run
unfoldable pub steps : Runtime → ℕ → Config → Config
steps runtime zero c = c
steps runtime (suc fuel) c = steps runtime fuel (step runtime c)

-- the graph before its first node
unfoldable pub start : InvestigationState → Config
start state = at prepare_node (graph_state state none [] plan)

-- LangGraph's limit on the number of nodes: a run that needs more raises a `GraphRecursionError`
unfoldable pub limited : Config → Config
limited (at node g) = raised recursion_limit_reached
limited (ended state) = ended state
limited (raised e) = raised e

-- `run`
unfoldable pub run : Runtime → ℕ → InvestigationState → Config
run runtime recursion_limit state = limited (steps runtime recursion_limit (start state))
