-- ===== src/Middleware/Budget.antt =====
-- agent_middleware/budget.py: the budgets of a run. The counters live in the agent's state, whose
-- reducer merges the updates of the calls of one step. The handlers are the model and the tools: a
-- model's answer is known by its tokens. The messages of a denial are left out.
pub mod Counted
use unknown_file_threat_agen.Prelude.{
  ℕ, zero, suc, ◌+◌, max, ◌⊎◌, inl, inr, Bool, false, Option, none, some, List, [], ◌∷◌, leb,
  if◌then◌else◌, or_else,
}

pub data Dimension : Type 0 where
  model_call_limit tool_call_limit token_limit : Dimension

-- a counter that the state does not hold counts as 0
pub record BudgetState : Type 0 where
  pub budget_model_calls : Option ℕ
  pub budget_tool_calls : Option ℕ
  pub budget_total_tokens : Option ℕ

pub record BudgetUsage : Type 0 where
  pub model_calls : ℕ
  pub tool_calls : ℕ
  pub total_tokens : ℕ

-- `LimitsBudgetPolicy`; `none` is unlimited
pub record Limits : Type 0 where
  pub max_model_calls : Option ℕ
  pub max_tool_calls : Option ℕ
  pub max_total_tokens : Option ℕ

-- `_parallel_max`
unfoldable pub parallel_max : Option ℕ → ℕ → ℕ
parallel_max current incoming = max (or_else current 0) incoming

-- `_usage_from_state`
unfoldable pub usage_from_state : BudgetState → BudgetUsage
usage_from_state state = record {
  model_calls = or_else state.budget_model_calls 0;
  tool_calls = or_else state.budget_tool_calls 0;
  total_tokens = or_else state.budget_total_tokens 0;
}

-- `limit is not None and used >= limit`
unfoldable pub reached : Option ℕ → ℕ → Bool
reached none used = false
reached (some limit) used = leb limit used

-- `allow_model_call` and `allow_tool_call`: the dimension of the `BudgetExhausted` that is raised
unfoldable pub allow_model_call : Limits → BudgetUsage → Option Dimension
allow_model_call limits usage =
    if reached limits.max_model_calls usage.model_calls
    then some model_call_limit
    else if reached limits.max_total_tokens usage.total_tokens
    then some token_limit
    else none

unfoldable pub allow_tool_call : Limits → BudgetUsage → Option Dimension
allow_tool_call limits usage =
    if reached limits.max_tool_calls usage.tool_calls then some tool_call_limit else none

pub data ModelCall : Type 0 where
  exhausted : Dimension → ModelCall
  answered : BudgetState → ModelCall

-- the update of an answered call, merged into the state
unfoldable pub count_answer : BudgetState → ℕ → BudgetState
count_answer state tokens =
    let usage = usage_from_state state in
    record state {
      budget_model_calls = some (parallel_max state.budget_model_calls (usage.model_calls + 1));
      budget_total_tokens =
          some (parallel_max state.budget_total_tokens (usage.total_tokens + tokens));
    }

-- `wrap_model_call`, with the reducer applied to its update
unfoldable pub wrap_model_call : Limits → BudgetState → ℕ → ModelCall
wrap_model_call limits state tokens = elim (allow_model_call limits (usage_from_state state)) [
  | some d ↦ exhausted d
  | none ↦ answered (count_answer state tokens)
]

-- `wrap_tool_call`: a denial, or the update of the counter after the tool has run
unfoldable pub wrap_tool_call : Limits → BudgetUsage → Dimension ⊎ ℕ
wrap_tool_call limits usage = elim (allow_tool_call limits usage) [
  | some d ↦ inl d
  | none ↦ inr (usage.tool_calls + 1)
]

-- the calls of the model in a run, until the budget stops it: how many were answered, the state, and
-- the dimension that stopped it
pub record ModelRun : Type 0 where
  pub answers : ℕ
  pub state : BudgetState
  pub stopped : Option Dimension

unfoldable pub run_model : Limits → BudgetState → List ℕ → ModelRun
run_model limits state [] = record { answers = 0; state = state; stopped = none }
run_model limits state (tokens ∷ rest) = elim (wrap_model_call limits state tokens) [
  | exhausted d ↦ record { answers = 0; state = state; stopped = some d }
  | answered next ↦
      let later = run_model limits next rest in
      record { answers = suc later.answers; state = later.state; stopped = later.stopped }
]

-- One step with a number of parallel tool calls: every call reads the state before the step, and the
-- reducer merges the updates. The result is the number of tools that ran and the state.
pub record ToolStep : Type 0 where
  pub executed : ℕ
  pub state : BudgetState

unfoldable pub tool_step : Limits → BudgetUsage → ℕ → BudgetState → ToolStep
tool_step limits read zero state = record { executed = 0; state = state }
tool_step limits read (suc n) state = elim (wrap_tool_call limits read) [
  | inl d ↦ tool_step limits read n state
  | inr update ↦
      let later =
        tool_step limits read n (record state {
          budget_tool_calls = some (parallel_max state.budget_tool_calls update);
        }) in
      record { executed = suc later.executed; state = later.state }
]
