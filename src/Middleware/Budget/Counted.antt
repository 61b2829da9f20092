-- ===== src/Middleware/Budget/Counted.antt =====
-- agent_middleware/budget.py: what the counters bound.
use unknown_file_threat_agen.Middleware.Budget.{
  Dimension, BudgetState, BudgetUsage, Limits, parallel_max, usage_from_state, reached,
  allow_model_call, allow_tool_call, count_answer, exhausted, answered, wrap_model_call,
  wrap_tool_call, ModelRun, run_model, tool_step,
}
use unknown_file_threat_agen.Prelude.{
  ℕ, zero, suc, ◌+◌, ◌≤◌, ◌<◌, ◌≡◌, refl, ap, ◌∙◌, ◌⊎◌, inl, inr, false, Option, none, some, List,
  [], ◌∷◌, arith, Option-cases, length, or_else,
}

-- What a run of model calls promises: every answer is counted, the counter stays within its limit, and
-- only a budget ends the run before its last call, by the dimension that forbids the next one.
pub record IsCounted (limits : Limits) (state : BudgetState) (calls : ℕ) (r : ModelRun)
    : Type 0 where
  pub counted :
      or_else r.state.budget_model_calls 0 ≡ or_else state.budget_model_calls 0 + r.answers
  pub within :
      (limit : ℕ)
      → limits.max_model_calls ≡ some limit
      → or_else state.budget_model_calls 0 ≤ limit
      → or_else r.state.budget_model_calls 0 ≤ limit
  pub ended : r.stopped ≡ none → r.answers ≡ calls
  pub stopped_by :
      (d : Dimension)
      → r.stopped ≡ some d
      → allow_model_call limits (usage_from_state r.state) ≡ some d

allowed-reached :
    (limits : Limits) (usage : BudgetUsage)
    → allow_model_call limits usage ≡ none
    → reached limits.max_model_calls usage.model_calls ≡ false
unfolding allow_model_call
allowed-reached limits usage h = ground (arith, h)

wrap_model_call-cases :
    (limits : Limits) (state : BudgetState) (tokens : ℕ)
    → ((d : Dimension) × (allow_model_call limits (usage_from_state state) ≡ some d)
        × (wrap_model_call limits state tokens ≡ exhausted d))
      ⊎ ((next : BudgetState) × (wrap_model_call limits state tokens ≡ answered next)
          × (reached limits.max_model_calls (or_else state.budget_model_calls 0) ≡ false)
          × (or_else next.budget_model_calls 0 ≡ or_else state.budget_model_calls 0 + 1))
unfolding wrap_model_call usage_from_state parallel_max count_answer
wrap_model_call-cases limits state tokens =
    elim (Option-cases (allow_model_call limits (usage_from_state state))) [
      | inr (d, stopped) ↦ inl (d, stopped, rw (stopped, wrap_model_call) refl)
      | inl allowed ↦ inr (
        count_answer state tokens,
        rw (allowed, wrap_model_call) refl,
        allowed-reached limits (usage_from_state state) allowed,
        omega arith,
      )
    ]

reached-lt :
    (o : Option ℕ) (used limit : ℕ) → o ≡ some limit → reached o used ≡ false → used < limit
unfolding reached
reached-lt o used limit e h = ground (arith, h, e)

-- Whatever the answers cost, a run of model calls counts every answer, never counts past the limit of
-- model calls, makes all its calls unless a budget stops it, and then is stopped by the dimension
-- that the policy reports for the final counters.
pub run_model-IsCounted :
    (limits : Limits) (state : BudgetState) (responses : List ℕ)
    → IsCounted limits state (length responses) (run_model limits state responses)
unfolding run_model
run_model-IsCounted limits state [] = record {
  counted = omega arith;
  within = λ limit e h. h;
  ended = λ h. refl;
  stopped_by = λ d h. cc;
}
run_model-IsCounted limits state (t ∷ rest) = elim (wrap_model_call-cases limits state t) [
  | inl (d, stopped, call) ↦
      rw (call, run_model)
        (record {
          counted = omega arith;
          within = λ limit e h. h;
          ended = λ h. cc;
          stopped_by = λ x h. stopped ∙ h;
        })
  | inr (next, call, free, counts) ↦
      let again = run_model-IsCounted limits next rest in
      rw (call, run_model)
        (record {
          counted = omega (arith, again.counted, counts);
          within = λ limit e h. again.within limit e (
              omega (
                arith,
                counts,
                reached-lt limits.max_model_calls (or_else state.budget_model_calls 0) limit e free,
              ));
          ended = λ h. ap suc (again.ended h);
          stopped_by = again.stopped_by;
        })
]

wrap_tool_call-allowed :
    (limits : Limits) (usage : BudgetUsage)
    → allow_tool_call limits usage ≡ none
    → wrap_tool_call limits usage ≡ inr (usage.tool_calls + 1)
unfolding wrap_tool_call
wrap_tool_call-allowed limits usage allowed = rw (allowed, wrap_tool_call) refl

-- the step adds one to the counter that was read, however many tools run
tool_step-merged :
    (limits : Limits) (read : BudgetUsage) (n : ℕ) (state : BudgetState)
    → allow_tool_call limits read ≡ none
    → or_else state.budget_tool_calls 0 ≤ read.tool_calls + 1
    → ((tool_step limits read (suc n) state).executed ≡ suc n)
      × (or_else (tool_step limits read (suc n) state).state.budget_tool_calls 0
          ≡ read.tool_calls + 1)
unfolding tool_step parallel_max
tool_step-merged limits read zero state allowed h =
    rw (wrap_tool_call-allowed limits read allowed, tool_step) (refl, omega (arith, h))
tool_step-merged limits read (suc n) state allowed h =
    let again =
      tool_step-merged limits read n
        (record state {
          budget_tool_calls = some (parallel_max state.budget_tool_calls (read.tool_calls + 1));
        })
        allowed (omega (arith, h)) in
    rw (wrap_tool_call-allowed limits read allowed, tool_step) (ap suc again.0, again.1)

-- Parallel tool calls are counted as one: if the budget admits a call, a step with any number of
-- calls, at least one, runs all of them and raises the counter by one. The limit of tool calls does
-- not bound the tools that run.
pub tool_step_undercounts :
    (limits : Limits) (state : BudgetState) (others : ℕ)
    → allow_tool_call limits (usage_from_state state) ≡ none
    → ((tool_step limits (usage_from_state state) (suc others) state).executed ≡ suc others)
      × (or_else
            (tool_step limits (usage_from_state state) (suc others) state).state.budget_tool_calls
            0
          ≡ or_else state.budget_tool_calls 0 + 1)
unfolding usage_from_state
tool_step_undercounts limits state others allowed =
    tool_step-merged limits (usage_from_state state) others state allowed (omega arith)
