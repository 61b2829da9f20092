-- ===== src/Response/Graph.antt =====
-- response_advisory/application/graph.py, `ResponseGraph`: the state and a function per node; Flow has the edges. The
-- planner, the knowledge service and the context port are parameters; `inl` is the text of an exception, and `none` an
-- exception of the context port.
pub mod Flow
pub mod Plans
pub mod Safe
use mathlib.Core.Option
use Prim.Native.String.{◌++◌ as append}
use unknown_file_threat_agen.Shared.Json.{Json, bool, num, str}
use unknown_file_threat_agen.Contracts.{
  error, ThreatType, backdoor_c2, data_exfiltration, ransomware, other, unknown,
}
use unknown_file_threat_agen.Judgment.Loop.{ConsultationResult}
use unknown_file_threat_agen.Response.Policy.{
  ResponseAction, JudgmentResult, ProposalError, needs_approval, validate_response_proposal,
}
use unknown_file_threat_agen.Prelude.{
  ℕ, zero, suc, ◌+◌, ◌-◌, String, ◌⊎◌, inl, inr, Bool, true, false, not, ◌&&◌, Option, none, some,
  List, [], ◌∷◌, ◌++◌, map, ltb, if◌then◌else◌, filter_by, any, is_nil, dedup,
}

-- contracts/response_context.py
pub record ResponseContext : Type 0 where
  pub asset_context : List (String × Json)
  pub missing_context : List String

-- response_advisory/domain/models.py
pub record ResponseProposal : Type 0 where
  pub actions : List ResponseAction
  pub missing_context : List String
  pub residual_risk : List String

-- contracts/response.py
pub data PlanStatus : Type 0 where
  recommended approval_required insufficient_context rejected : PlanStatus

-- an entry of `validation_errors`
pub data PlanError : Type 0 where
  policy_error : ProposalError → PlanError
  no_proposal : PlanError
  planner_raised : String → PlanError

pub record ResponsePlan : Type 0 where
  pub status : PlanStatus
  pub actions : List ResponseAction
  pub missing_context : List String
  pub residual_risk : List String
  pub limitations : List PlanError

-- `KnowledgeConsultation` with its context
pub record Consultation : Type 0 where
  pub verdict_summary : String
  pub asset_constraints : List String

pub data Route : Type 0 where
  repair finalize end_route : Route

pub record ResponseGraphState : Type 0 where
  pub judgment_result : JudgmentResult
  pub knowledge_result : Option ConsultationResult
  pub response_context : Option ResponseContext
  pub proposal : Option ResponseProposal
  pub validation_errors : List PlanError
  pub iterations : ℕ
  pub max_iterations : ℕ
  pub planner_failed : Bool
  pub response_plan : Option ResponsePlan
  pub route : Route

-- what the graph calls; `text_of` is an f-string of a value
pub record ResponsePorts : Type 0 where
  pub propose :
      JudgmentResult
      → Option ConsultationResult
      → List PlanError
      → Option ResponseContext
      → String ⊎ Option ResponseProposal
  pub consult_response : Consultation → String ⊎ ConsultationResult
  pub load : JudgmentResult → Option ResponseContext
  pub text_of : Json → String

unfoldable pub threat_name : ThreatType → String
threat_name backdoor_c2 = "backdoor_c2"
threat_name data_exfiltration = "data_exfiltration"
threat_name ransomware = "ransomware"
threat_name other = "other"
threat_name unknown = "unknown"

-- `isinstance(value, (str, int, float, bool))`
unfoldable pub is_scalar : Json → Bool
is_scalar (str s) = true
is_scalar (num n) = true
is_scalar (bool b) = true
is_scalar _ = false

-- `xs[:n]`
unfoldable pub first {ℓ} : {A : Type ℓ} → ℕ → List A → List A
first zero xs = []
first (suc n) [] = []
first (suc n) (x ∷ xs) = x ∷ first n xs

-- `_asset_constraints`
unfoldable pub asset_constraints : (Json → String) → Option ResponseContext → List String
unfolding is_scalar first
asset_constraints text_of none = []
asset_constraints text_of (some context) = first 8 (
    map (λ (e : String × Json). append e.0 (append "=" (text_of e.1)))
      (filter_by (λ (e : String × Json). is_scalar e.1) context.asset_context))

-- the result that stands for a failed consultation
unfoldable pub failed_consultation : String → ConsultationResult
failed_consultation raised = record {
  consultation_id = "kcon-response-failed";
  query_id = "kquery-response-failed";
  intent = "response_policy_reference";
  status = error;
  items = [];
  limitations = append "处置知识检索执行失败：" raised ∷ [];
}

unfoldable pub consulted : String ⊎ ConsultationResult → ConsultationResult
unfolding failed_consultation
consulted (inl raised) = failed_consultation raised
consulted (inr result) = result

module _ (ports : ResponsePorts) where
  -- `_initialize_response`, at a state that has all its keys
  unfoldable pub initialize_response : ResponseGraphState → ResponseGraphState
  initialize_response s = record s { route = repair }

  -- the state of `_load_response_context` after the context port answered
  unfoldable pub loaded : ResponseGraphState → ResponseContext → ResponseGraphState
  unfolding threat_name asset_constraints consulted
  loaded s given =
      let context = some given in
      let verdict = s.judgment_result.verdict in
      let request : Consultation = record {
        verdict_summary = append (threat_name verdict.threat_type) (append ": " verdict.summary);
        asset_constraints = asset_constraints ports.text_of context;
      } in
      record s {
        knowledge_result = some (consulted (ports.consult_response request));
        response_context = context;
      }

  -- `_load_response_context`; an exception of the context port is not caught
  unfoldable pub load_response_context : ResponseGraphState → Option ResponseGraphState
  unfolding loaded
  load_response_context s = Option.map (loaded s) (ports.load s.judgment_result)

  -- what the answer of the planner does to the state
  unfoldable pub proposed :
      ResponseGraphState → String ⊎ Option ResponseProposal → ResponseGraphState
  proposed s (inl raised) = record s {
    proposal = none;
    planner_failed = true;
    validation_errors = planner_raised raised ∷ [];
    iterations = s.iterations + 1;
  }
  proposed s (inr proposal) = record s { proposal = proposal; iterations = s.iterations + 1 }

  -- `_propose_actions`
  unfoldable pub propose_actions : ResponseGraphState → ResponseGraphState
  unfolding proposed
  propose_actions s =
      proposed s
        (ports.propose s.judgment_result s.knowledge_result s.validation_errors s.response_context)

-- the errors of a proposal
unfoldable pub plan_errors : JudgmentResult → Option ResponseProposal → List PlanError
plan_errors judgment none = no_proposal ∷ []
plan_errors judgment (some proposal) =
    map policy_error (validate_response_proposal judgment proposal.actions)

-- `_validate_plan`
unfoldable pub validate_plan : ResponseGraphState → ResponseGraphState
unfolding plan_errors
validate_plan s =
    let errors = plan_errors s.judgment_result s.proposal in
    if s.planner_failed
    then record s { route = finalize }
    else if not (is_nil errors) && ltb s.iterations s.max_iterations
    then record s { validation_errors = errors; route = repair }
    else record s { validation_errors = errors; route = finalize }

-- `state.get("proposal") or ResponseProposal()`
unfoldable pub proposal_or_empty : Option ResponseProposal → ResponseProposal
proposal_or_empty none = record { actions = []; missing_context = []; residual_risk = [] }
proposal_or_empty (some p) = p

unfoldable pub context_gaps : Option ResponseContext → List String
context_gaps none = []
context_gaps (some context) = context.missing_context

unfoldable pub plan_status : List PlanError → List ResponseAction → PlanStatus
plan_status errors actions =
    if not (is_nil errors)
    then insufficient_context
    else if any (λ (a : ResponseAction). needs_approval a.approval_class) actions
    then approval_required
    else recommended

unfoldable pub plan_of : ResponseProposal → List PlanError → Option ResponseContext → ResponsePlan
unfolding plan_status context_gaps
plan_of proposal errors context =
    let actions = if is_nil errors then proposal.actions else [] in
    record {
      status = plan_status errors actions;
      actions = actions;
      missing_context = dedup (
          proposal.missing_context
          ++ context_gaps context
          ++ (if is_nil errors
              then []
              else "A policy-valid response plan could not be produced" ∷ []));
      residual_risk = proposal.residual_risk;
      limitations = errors;
    }

-- `_finalize_plan`
unfoldable pub finalize_plan : ResponseGraphState → ResponseGraphState
unfolding plan_of proposal_or_empty
finalize_plan s = record s {
  response_plan =
      some (plan_of (proposal_or_empty s.proposal) s.validation_errors s.response_context);
  route = end_route;
}
