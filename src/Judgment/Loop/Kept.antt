-- ===== src/Judgment/Loop/Kept.antt =====
-- judgment/application/graph.py: predicates of the state over the nodes and over a run.
use unknown_file_threat_agen.Contracts.{
  DataToolRequest, InvestigationAction, finish_request, data_tool_request, InvestigationState,
}
use unknown_file_threat_agen.Judgment.Policy.{validate_action}
use unknown_file_threat_agen.Judgment.Publication.{Publication}
use unknown_file_threat_agen.Judgment.Assembly.Flow.{publish_with_pipeline}
use unknown_file_threat_agen.Judgment.Loop.{
  ConsultationResult, Runtime, JudgmentGraphState, prepare_iteration, open_iteration,
  count_iteration, plan_action, turn, next_action, record_rejected, judge_action, admitted,
  validate_node,
}
use unknown_file_threat_agen.Judgment.Loop.Execution.{execute_request, execute_action}
use unknown_file_threat_agen.Judgment.Loop.Budgeted.{budget-record_rejected, budget-execute_request}
use unknown_file_threat_agen.Judgment.Loop.Flow.{
  run_knowledge_baseline, retrieve_knowledge_baseline, finished_with, expose, evaluate_verdict,
  Node, prepare_node, plan_node, validate_action_node, execute_node, baseline_node, verdict_node,
  Config, at, ended, raised, after_prepare, after_validate, after_execute, visit, step, steps,
  start, append_consultation,
}
use unknown_file_threat_agen.Prelude.{
  Sum-cases, ℕ, zero, suc, ◌≤◌, String, ◌≡◌, refl, ◌⊎◌, inl, inr, Bool, true, false, Option, none,
  some, List, [], ◌∷◌, arith, ltb, leb, Bool-cases, Option-cases,
}

-- a predicate on the investigation of a configuration
abbrev pub Holds : (InvestigationState → Type 0) → Config → Type 0
Holds P (at node g) = P g.investigation
Holds P (ended state) = P state
Holds P (raised e) = Unit

-- a predicate that every change of the investigation keeps
pub record IsKept (runtime : Runtime) (P : InvestigationState → Type 0) : Type 0 where
  pub iteration : (s : InvestigationState) → P s → P (count_iteration s)
  pub rejection :
      (s : InvestigationState)
      → P s
      → (a : InvestigationAction) (error : String) → P (record_rejected a error s)
  pub execution :
      (s : InvestigationState) → P s → (r : DataToolRequest) → P (execute_request runtime s r)
  pub baseline :
      (s : InvestigationState) → P s → P (run_knowledge_baseline runtime.consult_investigation s)
  pub publication : (s : InvestigationState) → P s → (p : Publication) → P (expose p s)
  pub closing : (s : InvestigationState) → P s → P (finished_with s)

module _ (runtime : Runtime) (P : InvestigationState → Type 0) (kept : IsKept runtime P) where
  Holds-prepare :
      (finished : Bool) (s : InvestigationState)
      → P s
      → Holds P (after_prepare (open_iteration finished s))
  unfolding open_iteration after_prepare
  Holds-prepare true s p = p
  Holds-prepare false s p =
      elim (Bool-cases (
        ltb (count_iteration s).budget.max_iterations (count_iteration s).budget.iterations_used)) [
          | inl e ↦ rw e (kept.iteration s p)
          | inr e ↦ rw e (kept.iteration s p)
        ]

  Holds-next :
      (s : InvestigationState) (pending : List InvestigationAction)
      → P s
      → Holds P (after_validate (next_action s pending))
  unfolding next_action after_validate
  Holds-next s [] p = p
  Holds-next s (a ∷ pending) p = p

  Holds-next-execute :
      (s : InvestigationState) (pending : List InvestigationAction)
      → P s
      → Holds P (after_execute (next_action s pending))
  unfolding next_action after_execute
  Holds-next-execute s [] p = p
  Holds-next-execute s (a ∷ pending) p = p

  Holds-admitted :
      (s : InvestigationState) (action : InvestigationAction) (pending : List InvestigationAction)
      → P s
      → Holds P (after_validate (admitted s action pending))
  unfolding admitted after_validate
  Holds-admitted s (finish_request o) pending p = p
  Holds-admitted s (data_tool_request r) pending p = p

  Holds-judged :
      (s : InvestigationState) (action : InvestigationAction) (pending : List InvestigationAction)
      → P s
      → Holds P (after_validate (judge_action s action pending))
  unfolding judge_action
  Holds-judged s action pending p = elim (Option-cases (validate_action action s)) [
    | inl e ↦ rw (e, judge_action) (Holds-admitted s action pending p)
    | inr (error, e) ↦ rw (e, judge_action) (Holds-next _ pending (kept.rejection s p action error))
  ]

  Holds-turn :
      (s : InvestigationState) (actions : List InvestigationAction)
      → P s
      → P (turn s actions).investigation
  unfolding turn
  Holds-turn s [] p = p
  Holds-turn s (a ∷ actions) p = p

  Holds-visit :
      (node : Node) (g : JudgmentGraphState) → P g.investigation → Holds P (visit runtime node g)
  unfolding visit prepare_iteration plan_action validate_node execute_action
      retrieve_knowledge_baseline evaluate_verdict
  Holds-visit prepare_node g p = Holds-prepare _ g.investigation p
  Holds-visit plan_node g p = elim (Option-cases (runtime.plan g.investigation)) [
    | inl e ↦ rw (e, plan_action) tt
    | inr (actions, e) ↦ rw (e, plan_action) (Holds-turn g.investigation actions p)
  ]
  Holds-visit validate_action_node g p = elim (Option-cases g.action) [
    | inl e ↦ rw (e, validate_node) tt
    | inr (action, e) ↦
        rw (e, validate_node) (Holds-judged g.investigation action g.pending_actions p)
  ]
  Holds-visit execute_node g p = by_action g.action
    where
      by_action :
          (action : Option InvestigationAction)
          → Holds P (visit runtime execute_node (record g { action = action }))
      by_action none = tt
      by_action (some (finish_request o)) = tt
      by_action (some (data_tool_request r)) =
          Holds-next-execute _ g.pending_actions (kept.execution g.investigation p r)
  Holds-visit baseline_node g p = kept.baseline g.investigation p
  Holds-visit verdict_node g p = elim (Option-cases runtime.report_composer) [
    | inl e ↦ rw (e, evaluate_verdict) (kept.closing g.investigation p)
    | inr (composer, e) ↦
        elim (Option-cases (
          publish_with_pipeline composer.pipeline composer.compose_draft composer.rejudge
            g.investigation)) [
              | inl f ↦ rw (e, f, evaluate_verdict) tt
              | inr (report, f) ↦
                  rw (e, f, evaluate_verdict)
                    (kept.closing _ (kept.publication g.investigation p report))
            ]
  ]

  Holds-steps : (fuel : ℕ) (c : Config) → Holds P c → Holds P (steps runtime fuel c)
  unfolding steps step
  Holds-steps zero c h = h
  Holds-steps (suc fuel) (at node g) h =
      Holds-steps fuel (visit runtime node g) (Holds-visit node g h)
  Holds-steps (suc fuel) (ended state) h = Holds-steps fuel (ended state) h
  Holds-steps (suc fuel) (raised e) h = Holds-steps fuel (raised e) h

  -- a run keeps what every node keeps
  pub run-Holds :
      (s : InvestigationState) → P s → (fuel : ℕ) → Holds P (steps runtime fuel (start s))
  unfolding start
  run-Holds s p fuel = Holds-steps fuel (start s) p

budget-run_knowledge_baseline :
    (consult : InvestigationState → String ⊎ ConsultationResult) (s : InvestigationState)
    → (run_knowledge_baseline consult s).budget ≡ s.budget
unfolding run_knowledge_baseline append_consultation
budget-run_knowledge_baseline consult s = elim (Sum-cases (consult s)) [
  | inl (x, e) ↦ rw (e, run_knowledge_baseline) refl
  | inr (r, e) ↦ rw (e, run_knowledge_baseline) refl
]

-- The tool-call budget is not exceeded at any point of a run that starts within it.
pub tool_calls_used-le :
    (runtime : Runtime) (s : InvestigationState)
    → s.budget.tool_calls_used ≤ s.budget.max_tool_calls
    → (fuel : ℕ)
    → Holds
        (λ t. (t.budget.tool_calls_used ≤ t.budget.max_tool_calls))
        (steps runtime fuel (start s))
unfolding count_iteration expose finished_with
tool_calls_used-le runtime s within =
    run-Holds runtime _
      (record {
        iteration = λ s p. p;
        rejection = λ s p a error. rw (budget-record_rejected a error s) p;
        execution = λ s p r.
            rw (budget-execute_request runtime s r)
              (elim (Bool-cases (leb s.budget.max_tool_calls s.budget.tool_calls_used)) [
                | inl e ↦ rw e p
                | inr e ↦ rw e (ground arith)
              ]);
        baseline = λ s p. rw (budget-run_knowledge_baseline runtime.consult_investigation s) p;
        publication = λ s p report. p;
        closing = λ s p. p;
      })
      s within
