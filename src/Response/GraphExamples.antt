-- ===== src/Response/GraphExamples.antt =====
-- The response graph with a planner that proposes nothing at first and an action after it sees an error.
use unknown_file_threat_agen.Response.Examples.{judgment, review}
use unknown_file_threat_agen.Response.Graph.{
  ResponseProposal, ResponseGraphState, PlanError, ResponsePorts,
}
use unknown_file_threat_agen.Response.Graph.Flow.{raised, run, ended}
use unknown_file_threat_agen.Response.Graph.Safe.{MayRaise, run-IsAdvised}
use unknown_file_threat_agen.Response.Graph.Plans.{IsAdvised}
use unknown_file_threat_agen.Prelude.{◌⊎◌, ◌≡◌, inl, inr, some, List, [], ◌∷◌}

abbrev proposal_after : List PlanError → ResponseProposal
proposal_after [] = record { actions = []; missing_context = []; residual_risk = [] }
proposal_after (e ∷ errors) = record {
  actions = review ∷ [];
  missing_context = [];
  residual_risk = "partial" ∷ [];
}

abbrev pub ports : ResponsePorts
ports = record {
  propose = λ j knowledge errors context. inr (some (proposal_after errors));
  consult_response = λ request. inl "no service";
  load = λ j. some (record { asset_context = []; missing_context = "owner" ∷ [] });
  text_of = λ v. "v";
}

run-IsAdvised_example :
    ((run ports 50 judgment 3 ≡ raised) × MayRaise ports judgment 3 50)
    ⊎ ((s : ResponseGraphState) × (run ports 50 judgment 3 ≡ ended s) × IsAdvised judgment 3 s)
run-IsAdvised_example = run-IsAdvised ports judgment 3 50
