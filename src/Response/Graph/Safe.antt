-- ===== src/Response/Graph/Safe.antt =====
-- response_advisory/application/graph.py: the runs of the response graph and the plans they end with.
use mathlib.Core.Path.{subst}
use unknown_file_threat_agen.Response.Policy.{JudgmentResult}
use unknown_file_threat_agen.Response.Graph.{
  loaded, ResponseContext, ResponsePlan, ResponseGraphState, ResponsePorts, repair, finalize,
  plan_errors, validate_plan, propose_actions, proposal_or_empty, plan_of, finalize_plan,
  initialize_response, load_response_context,
}
use unknown_file_threat_agen.Response.Graph.Flow.{
  raised, after_load, run_from, ResponseConfig, at, ended, initialize_node, load_node, propose_node,
  validate_node, finalize_node, ResponseNode, after_validate, visit, steps, initial, run, loop_fuel,
  enough_fuel, final_plan, advise,
}
use unknown_file_threat_agen.Prelude.{
  lt-or-le, ◌-◌, ◌<◌, Option-cases, ltb, ℕ, zero, suc, ◌+◌, ◌≤◌, ◌<◌, max, ◌≡◌, refl, ap, ◌∙◌, ◌⊎◌,
  inl, inr, true, false, not, ◌&&◌, none, some, arith, ltb, if_elim, is_nil,
}
use unknown_file_threat_agen.Response.Graph.Plans.{
  IsSafePlan, IsJudged, IsAdvised, plan_of-IsSafePlan, plan_errors-IsJudged, propose_actions_lem,
  loop_fuel_pos,
}

module _ (ports : ResponsePorts) (judgment : JudgmentResult) (limit : ℕ) where
  abbrev pub Ends : ℕ → ResponseConfig → Type 0
  Ends fuel c =
      (s : ResponseGraphState) × (steps ports fuel c ≡ ended s) × IsAdvised judgment limit s

  Ends-visit :
      (n : ℕ) (node : ResponseNode) (s : ResponseGraphState)
      → Ends n (visit ports node s)
      → Ends (suc n) (at node s)
  unfolding steps
  Ends-visit n node s h = h

  Ends-finalize :
      (n : ℕ) (s : ResponseGraphState)
      → 1 ≤ n
      → IsJudged judgment s.proposal s.validation_errors
      → 1 ≤ s.iterations
      → s.iterations ≤ max 1 limit
      → Ends n (at finalize_node s)
  unfolding steps visit finalize_plan
  Ends-finalize zero s some_fuel h low high = absurd (omega arith)
  Ends-finalize (suc n) s some_fuel h low high = (
    finalize_plan s,
    refl,
    (
      plan_of (proposal_or_empty s.proposal) s.validation_errors s.response_context,
      refl,
      plan_of-IsSafePlan judgment s h,
      low,
      high,
    ),
  )

  -- what every state of the run keeps
  abbrev IsRun : ResponseGraphState → Type 0
  IsRun s = (s.judgment_result ≡ judgment) × (s.max_iterations ≡ limit)

  -- the node after a proposal, with the rest of the loop where it goes back
  Ends-validate :
      (n : ℕ) (s : ResponseGraphState)
      → 1 ≤ n
      → IsRun s
      → (s.planner_failed ≡ true → is_nil s.validation_errors ≡ false)
      → 1 ≤ s.iterations
      → s.iterations ≤ max 1 limit
      → ((t : ResponseGraphState)
          → IsRun t
          → t.planner_failed ≡ false
          → t.iterations ≡ s.iterations
          → s.iterations < limit
          → Ends n (at propose_node t))
      → Ends (suc n) (at validate_node s)
  unfolding visit validate_plan after_validate
  Ends-validate n s some_fuel r f low high again =
      let errors = plan_errors s.judgment_result s.proposal in
      let judged =
        subst (λ j. IsJudged j s.proposal errors) r.0
          (plan_errors-IsJudged s.judgment_result s.proposal) in
      Ends-visit n validate_node s (
        if_elim (λ t. Ends n (after_validate t.route t)) s.planner_failed
          (λ failed.
            Ends-finalize n (record s { route = finalize }) some_fuel (λ h. let n = f failed in cc)
              low high)
          (λ fine.
            if_elim (λ t. Ends n (after_validate t.route t))
              (not (is_nil errors) && ltb s.iterations s.max_iterations)
              (λ back.
                again (record s { validation_errors = errors; route = repair }) r fine refl
                  (ground (arith, back, r.1)))
              (λ done.
                Ends-finalize n (record s { validation_errors = errors; route = finalize })
                  some_fuel judged low high)))

  -- the loop, with the number of proposals that may still be made
  Ends-propose :
      (left : ℕ) (s : ResponseGraphState)
      → IsRun s
      → s.planner_failed ≡ false
      → s.iterations + 1 ≤ max 1 limit
      → limit ≤ s.iterations + 1 + left
      → Ends (loop_fuel left) (at propose_node s)
  unfolding visit loop_fuel
  Ends-propose zero s r fine low enough =
      let p = propose_actions_lem ports s in
      let next = propose_actions ports s in
      Ends-visit 2 propose_node s (
        Ends-validate 1 next (omega arith) (p.0 ∙ r.0, p.1 ∙ r.1) (p.3 fine) (omega (arith, p.2))
          (omega (arith, p.2, low))
          (λ t q g i below. absurd (omega (arith, p.2, i, below, enough))))
  Ends-propose (suc left) s r fine low enough =
      let p = propose_actions_lem ports s in
      let next = propose_actions ports s in
      Ends-visit (suc (loop_fuel left)) propose_node s (
        Ends-validate (loop_fuel left) next (loop_fuel_pos left) (p.0 ∙ r.0, p.1 ∙ r.1) (p.3 fine)
          (omega (arith, p.2)) (omega (arith, p.2, low))
          (λ t q g i below.
            Ends-propose left t q g (omega (arith, p.2, i, below)) (omega (arith, p.2, i, enough))))

  -- the run with as many nodes as it may need
  Ends-run :
      (context : ResponseContext)
      → ports.load judgment ≡ some context
      → Ends (enough_fuel limit) (at initialize_node (initial ports judgment limit context))
  unfolding enough_fuel initial initialize_response load_response_context loaded visit after_load
  Ends-run context e =
      let s0 = initialize_response ports (initial ports judgment limit context) in
      let s1 = loaded ports s0 context in
      let low : s1.iterations + 1 ≤ max 1 limit = omega arith in
      let enough : limit ≤ s1.iterations + 1 + (limit - 1) = omega arith in
      Ends-visit (suc (loop_fuel (limit - 1))) initialize_node
        (initial ports judgment limit context)
        (Ends-visit (loop_fuel (limit - 1)) load_node s0
          (rw e (Ends-propose (limit - 1) s1 (refl, refl) refl low enough)))

  -- why a run raises: the context port does, or the recursion limit is below the nodes that may be needed
  abbrev pub MayRaise : ℕ → Type 0
  MayRaise recursion_limit = (ports.load judgment ≡ none) ⊎ (recursion_limit < enough_fuel limit)

  steps-longer :
      (m n : ℕ) (c : ResponseConfig) (s : ResponseGraphState)
      → m ≤ n
      → steps ports m c ≡ ended s
      → steps ports n c ≡ ended s
  unfolding steps
  steps-longer m n (ended t) s h e = e
  steps-longer m n raised s h e = cc
  steps-longer zero n (at node t) s h e = cc
  steps-longer (suc m) zero (at node t) s h e = absurd (omega (arith, h))
  steps-longer (suc m) (suc n) (at node t) s h e =
      steps-longer m n (visit ports node t) s (omega (arith, h)) e

  steps-shorter :
      (m n : ℕ) (c : ResponseConfig) (s : ResponseGraphState)
      → m ≤ n
      → steps ports n c ≡ ended s
      → (steps ports m c ≡ raised) ⊎ (steps ports m c ≡ ended s)
  unfolding steps
  steps-shorter m n (ended t) s h e = inr e
  steps-shorter m n raised s h e = inl refl
  steps-shorter zero n (at node t) s h e = inl refl
  steps-shorter (suc m) zero (at node t) s h e = absurd (omega (arith, h))
  steps-shorter (suc m) (suc n) (at node t) s h e =
      steps-shorter m n (visit ports node t) s (omega (arith, h)) e

  -- Whatever the planner proposes or raises and whatever the knowledge service answers: the response graph raises, or it
  -- ends with a plan. It raises only if the context port does, or if the recursion limit is below
  -- `enough_fuel limit`, which is twice the limit of proposals, or twice one if that is 0, and three. Either the plan
  -- has no action, says `insufficient_context` and gives the errors, or its actions are accepted by the policy and it
  -- asks for approval exactly when one of them needs it. The planner is called at least once, and not more often than the
  -- limit, or once if that is 0.
  pub run-IsAdvised :
      (recursion_limit : ℕ)
      → ((run ports recursion_limit judgment limit ≡ raised) × MayRaise recursion_limit)
        ⊎ ((s : ResponseGraphState) × (run ports recursion_limit judgment limit ≡ ended s)
            × IsAdvised judgment limit s)
  unfolding run run_from
  run-IsAdvised recursion_limit = elim (Option-cases (ports.load judgment)) [
    | inl e ↦ inl (ap (run_from ports recursion_limit judgment limit) e, inl e)
    | inr (context, e) ↦
        let (s, done, advised) = Ends-run context e in
        let same = ap (run_from ports recursion_limit judgment limit) e in
        let first = at initialize_node (initial ports judgment limit context) in
        elim (lt-or-le recursion_limit (enough_fuel limit)) [
          | inl short ↦
              elim (steps-shorter recursion_limit (enough_fuel limit) first s (omega (arith, short))
                done) [
                  | inl over ↦ inl (same ∙ over, inr short)
                  | inr within ↦ inr (s, same ∙ within, advised)
                ]
          | inr long ↦ inr (
            s,
            same ∙ steps-longer (enough_fuel limit) recursion_limit first s long done,
            advised,
          )
        ]
  ]

-- the plan that `run` of the source returns
pub advise_lem :
    (ports : ResponsePorts) (recursion_limit limit : ℕ) (judgment : JudgmentResult)
    → ((advise ports recursion_limit limit judgment ≡ none)
        × MayRaise ports judgment limit recursion_limit)
      ⊎ ((p : ResponsePlan) × (advise ports recursion_limit limit judgment ≡ some p)
          × IsSafePlan judgment p)
unfolding advise final_plan
advise_lem ports recursion_limit limit judgment =
    elim (run-IsAdvised ports judgment limit recursion_limit) [
      | inl (over, why) ↦ inl (ap final_plan over, why)
      | inr (s, e, (p, f, safe, low, high)) ↦ inr (p, ap final_plan e ∙ f, safe)
    ]
