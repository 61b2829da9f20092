-- ===== src/Response/Graph/Plans.antt =====
-- response_advisory/application/graph.py: the plans of the final node, and what a proposal does to the state.
use unknown_file_threat_agen.Response.Policy.{
  ResponseAction, JudgmentResult, needs_approval, validate_response_proposal,
}
use unknown_file_threat_agen.Response.Graph.{
  ResponseProposal, recommended, approval_required, insufficient_context, PlanError, policy_error,
  ResponsePlan, ResponseGraphState, ResponsePorts, plan_errors, proposed, propose_actions,
  proposal_or_empty, plan_status, plan_of,
}
use unknown_file_threat_agen.Response.Graph.Flow.{loop_fuel}
use unknown_file_threat_agen.Prelude.{
  ℕ, zero, suc, ◌+◌, ◌≤◌, max, String, ◌≡◌, refl, sym, ◌∙◌, ◌⊎◌, inl, inr, Bool, true, false,
  Option, none, some, List, [], ◌∷◌, map, arith, Bool-cases, any, is_nil,
}

abbrev pub any_approval : List ResponseAction → Bool
any_approval actions = any (λ (a : ResponseAction). needs_approval a.approval_class) actions

-- a plan without actions, which says why, or a plan with the actions of a proposal that the policy accepts
abbrev pub IsSafePlan : JudgmentResult → ResponsePlan → Type 0
IsSafePlan judgment p =
    ((p.status ≡ insufficient_context) × (p.actions ≡ []) × (is_nil p.limitations ≡ false))
    ⊎ ((is_nil p.limitations ≡ true)
        × (is_nil (validate_response_proposal judgment p.actions) ≡ true)
        × (((p.status ≡ approval_required) × (any_approval p.actions ≡ true))
            ⊎ ((p.status ≡ recommended) × (any_approval p.actions ≡ false))))

-- what the final node may assume
abbrev pub IsJudged : JudgmentResult → Option ResponseProposal → List PlanError → Type 0
IsJudged judgment proposal errors =
    is_nil errors ≡ true
    → is_nil (validate_response_proposal judgment (proposal_or_empty proposal).actions) ≡ true

is_nil-map {ℓ κ} :
    {A : Type ℓ} {B : Type κ} (f : A → B) (xs : List A) → is_nil (map f xs) ≡ is_nil xs
is_nil-map f [] = refl
is_nil-map f (x ∷ xs) = refl

pub plan_errors-IsJudged :
    (judgment : JudgmentResult) (proposal : Option ResponseProposal)
    → IsJudged judgment proposal (plan_errors judgment proposal)
unfolding plan_errors proposal_or_empty
plan_errors-IsJudged judgment none h = cc
plan_errors-IsJudged judgment (some p) h =
    sym (is_nil-map policy_error (validate_response_proposal judgment p.actions)) ∙ h

pub plan_of-IsSafePlan :
    (judgment : JudgmentResult) (s : ResponseGraphState)
    → IsJudged judgment s.proposal s.validation_errors
    → IsSafePlan judgment
        (plan_of (proposal_or_empty s.proposal) s.validation_errors s.response_context)
unfolding plan_of plan_status
plan_of-IsSafePlan judgment s h =
    let actions = (proposal_or_empty s.proposal).actions in
    elim (Bool-cases (is_nil s.validation_errors)) [
      | inr faulty ↦ rw faulty (inl (refl, refl, refl))
      | inl clean ↦ elim (Bool-cases (any_approval actions)) [
        | inl approved ↦ rw (clean, approved) (inr (refl, h clean, inl (refl, refl)))
        | inr free ↦ rw (clean, free) (inr (refl, h clean, inr (refl, refl)))
      ]
    ]

-- how a run ends
abbrev pub IsAdvised : JudgmentResult → ℕ → ResponseGraphState → Type 0
IsAdvised judgment max_iterations s =
    (p : ResponsePlan) × (s.response_plan ≡ some p)
    × IsSafePlan judgment p
    × (1 ≤ s.iterations)
    × (s.iterations ≤ max 1 max_iterations)

pub loop_fuel_pos : (left : ℕ) → 1 ≤ loop_fuel left
unfolding loop_fuel
loop_fuel_pos zero = omega arith
loop_fuel_pos (suc left) = omega (arith, loop_fuel_pos left)

-- what a proposal leaves alone, and that a failure leaves an error
proposed_lem :
    (ports : ResponsePorts) (s : ResponseGraphState) (answer : String ⊎ Option ResponseProposal)
    → ((proposed ports s answer).judgment_result ≡ s.judgment_result)
      × ((proposed ports s answer).max_iterations ≡ s.max_iterations)
      × ((proposed ports s answer).iterations ≡ s.iterations + 1)
      × (s.planner_failed ≡ false
          → (proposed ports s answer).planner_failed ≡ true
          → is_nil (proposed ports s answer).validation_errors ≡ false)
unfolding proposed
proposed_lem ports s (inl exception) = (refl, refl, refl, λ h k. refl)
proposed_lem ports s (inr proposal) = (refl, refl, refl, λ h k. cc)

pub propose_actions_lem :
    (ports : ResponsePorts) (s : ResponseGraphState)
    → ((propose_actions ports s).judgment_result ≡ s.judgment_result)
      × ((propose_actions ports s).max_iterations ≡ s.max_iterations)
      × ((propose_actions ports s).iterations ≡ s.iterations + 1)
      × (s.planner_failed ≡ false
          → (propose_actions ports s).planner_failed ≡ true
          → is_nil (propose_actions ports s).validation_errors ≡ false)
unfolding propose_actions
propose_actions_lem ports s =
    proposed_lem ports s
      (ports.propose s.judgment_result s.knowledge_result s.validation_errors s.response_context)
