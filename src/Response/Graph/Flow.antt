-- ===== src/Response/Graph/Flow.antt =====
-- response_advisory/application/graph.py, `ResponseGraph`: the edges, the run, and the number of nodes that it needs.
use unknown_file_threat_agen.Response.Policy.{JudgmentResult}
use unknown_file_threat_agen.Prelude.{◌-◌, ℕ, zero, suc, false, Option, none, some, []}
use unknown_file_threat_agen.Response.Graph.{
  ResponseContext, ResponseGraphState, ResponsePlan, ResponsePorts, Route, finalize_plan,
  initialize_response, load_response_context, propose_actions, repair, validate_plan,
}

pub data ResponseNode : Type 0 where
  initialize_node load_node propose_node validate_node finalize_node : ResponseNode

-- `raised` is an exception that leaves the graph
pub data ResponseConfig : Type 0 where
  at : ResponseNode → ResponseGraphState → ResponseConfig
  ended : ResponseGraphState → ResponseConfig
  raised : ResponseConfig

-- the conditional edge; a route that has no edge does not occur
unfoldable pub after_validate : Route → ResponseGraphState → ResponseConfig
after_validate repair s = at propose_node s
after_validate _ s = at finalize_node s

unfoldable pub after_load : Option ResponseGraphState → ResponseConfig
after_load none = raised
after_load (some s) = at propose_node s

module _ (ports : ResponsePorts) where
  unfoldable pub visit : ResponseNode → ResponseGraphState → ResponseConfig
  unfolding after_validate after_load
  visit initialize_node s = at load_node (initialize_response ports s)
  visit load_node s = after_load (load_response_context ports s)
  visit propose_node s = at validate_node (propose_actions ports s)
  visit validate_node s = after_validate (validate_plan s).route (validate_plan s)
  visit finalize_node s = ended (finalize_plan s)

  -- a run of at most this many nodes; one that needs more raises a `GraphRecursionError`
  unfoldable pub steps : ℕ → ResponseConfig → ResponseConfig
  unfolding visit
  steps recursion_limit (ended s) = ended s
  steps recursion_limit raised = raised
  steps zero (at node s) = raised
  steps (suc recursion_limit) (at node s) = steps recursion_limit (visit node s)

  -- the state that `run` starts from, with the context that the port answered
  unfoldable pub initial : JudgmentResult → ℕ → ResponseContext → ResponseGraphState
  initial judgment max_iterations context = record {
    judgment_result = judgment;
    knowledge_result = none;
    response_context = some context;
    proposal = none;
    validation_errors = [];
    iterations = 0;
    max_iterations = max_iterations;
    planner_failed = false;
    response_plan = none;
    route = repair;
  }

  unfoldable pub run_from : ℕ → JudgmentResult → ℕ → Option ResponseContext → ResponseConfig
  unfolding steps initial
  run_from recursion_limit judgment max_iterations none = raised
  run_from recursion_limit judgment max_iterations (some context) =
      steps recursion_limit (at initialize_node (initial judgment max_iterations context))

  unfoldable pub run : ℕ → JudgmentResult → ℕ → ResponseConfig
  unfolding run_from
  run recursion_limit judgment max_iterations =
      run_from recursion_limit judgment max_iterations (ports.load judgment)

-- the nodes of the loop with this many proposals that may still be made after the next, and of a run
unfoldable pub loop_fuel : ℕ → ℕ
loop_fuel zero = 3
loop_fuel (suc left) = suc (suc (loop_fuel left))

unfoldable pub enough_fuel : ℕ → ℕ
unfolding loop_fuel
enough_fuel max_iterations = suc (suc (loop_fuel (max_iterations - 1)))

unfoldable pub final_plan : ResponseConfig → Option ResponsePlan
final_plan (ended s) = s.response_plan
final_plan _ = none

-- `ResponseGraph.run`; `none` is an exception
unfoldable pub advise : ResponsePorts → ℕ → ℕ → JudgmentResult → Option ResponsePlan
unfolding run final_plan
advise ports recursion_limit max_iterations judgment =
    final_plan (run ports recursion_limit judgment max_iterations)
