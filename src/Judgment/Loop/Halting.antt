-- ===== src/Judgment/Loop/Halting.antt =====
-- judgment/application/graph.py: the number of nodes of a run of the graph.
use unknown_file_threat_agen.Contracts.{InvestigationAction, InvestigationState}
use unknown_file_threat_agen.Judgment.Loop.{
  Runtime, planner_raised, recursion_limit_reached, composer_raised, no_action, not_a_data_tool,
  next_action,
}
use unknown_file_threat_agen.Judgment.Loop.Flow.{Config, at, ended, raised, after_validate, steps}
use unknown_file_threat_agen.Prelude.{◌⊎◌, ℕ, ◌≡◌, true, List}

-- how a run may end: with a finished investigation, or with an exception of the planner or the composer
abbrev pub IsOutcome : Config → Type 0
IsOutcome (at node g) = ⊥
IsOutcome (ended state) = state.finished ≡ true
IsOutcome (raised planner_raised) = Unit
IsOutcome (raised composer_raised) = Unit
IsOutcome (raised no_action) = ⊥
IsOutcome (raised not_a_data_tool) = ⊥
IsOutcome (raised recursion_limit_reached) = ⊥

module _ (runtime : Runtime) where
  abbrev pub Halts : Config → Type 0
  Halts c = (fuel : ℕ) × IsOutcome (steps runtime fuel c)

  -- the iterations of a state are those of another
  abbrev SameIterations : InvestigationState → InvestigationState → Type 0
  SameIterations s t =
      (t.budget.max_iterations ≡ s.budget.max_iterations)
      × (t.budget.iterations_used ≡ s.budget.iterations_used)

  -- the rest of a turn halts after any action that keeps the iterations
  abbrev Continues : InvestigationState → List InvestigationAction → Type 0
  Continues s pending =
      (t : InvestigationState) → SameIterations s t → Halts (after_validate (next_action t pending))

  -- how a run under a limit ends
  abbrev pub IsLimited : Config → Type 0
  IsLimited c = IsOutcome c ⊎ (c ≡ raised recursion_limit_reached)
