-- ===== src/Middleware/Examples.antt =====
-- The middleware at concrete limits and messages.
use unknown_file_threat_agen.Middleware.Budget.{
  BudgetState, Limits, usage_from_state, allow_tool_call, reached, run_model, tool_step,
}
use unknown_file_threat_agen.Middleware.Budget.Counted.{
  IsCounted, run_model-IsCounted, tool_step_undercounts,
}
use unknown_file_threat_agen.Shared.Json.{Json, null, str, obj, end, field, key, find}
use unknown_file_threat_agen.Middleware.Messages.{Message, ai_message, tool_message, text, blocks}
use unknown_file_threat_agen.Middleware.Boundary.{
  BoundaryRejection, Raised, rejection, ToolBoundary, CallContext,
}
use unknown_file_threat_agen.Middleware.Boundary
use unknown_file_threat_agen.Middleware.Boundary.FailClosed.{IsSeen, wrap_tool_call_lem}
use unknown_file_threat_agen.Middleware.Compaction.{
  Reducer, artifact_fields, single, reduced_result,
}
use unknown_file_threat_agen.Middleware.Compaction.Recoverable.{
  IsFresh, IsRecoverable, messages_of, reduced_result-IsRecoverable,
}
use unknown_file_threat_agen.Middleware.Hygiene.{Texts, needs_cleaning, before_model}
use unknown_file_threat_agen.Middleware.Hygiene.Clean.{IsRebuilt, before_model_lem}
use unknown_file_threat_agen.Prelude.{
  ℕ, suc, String, ◌≡◌, refl, ◌↔◌, ◌⊎◌, inl, inr, true, false, none, some, List, [], ◌∷◌, any,
  or_else, Pairwise,
}

abbrev limits : Limits
limits = record { max_model_calls = some 2; max_tool_calls = some 1; max_total_tokens = some 100 }

abbrev fresh : BudgetState
fresh = record { budget_model_calls = none; budget_tool_calls = none; budget_total_tokens = none }

run_model-IsCounted_example : IsCounted limits fresh 3 (run_model limits fresh (10 ∷ 20 ∷ 30 ∷ []))
run_model-IsCounted_example = run_model-IsCounted limits fresh (10 ∷ 20 ∷ 30 ∷ [])

admitted : allow_tool_call limits (usage_from_state fresh) ≡ none
unfolding allow_tool_call usage_from_state reached
admitted = refl

tool_step_undercounts_example :
    ((tool_step limits (usage_from_state fresh) 3 fresh).executed ≡ 3)
    × (or_else (tool_step limits (usage_from_state fresh) 3 fresh).state.budget_tool_calls 0 ≡ 1)
tool_step_undercounts_example = tool_step_undercounts limits fresh 2 admitted

abbrev payload : Json
payload = obj (field (key "rows") (str "many") end)

abbrev tool_result : Message
tool_result = record {
  kind = tool_message;
  id = some "m1";
  content = text "rows";
  tool_call_id = "c1";
  name = some "query";
  status = "success";
  artifact = null;
}

abbrev reducer : Reducer
reducer = record {
  loads = λ s. some payload;
  dumps = λ j. "brief";
  reduce = λ tool j. some (obj end);
}

not_downsized : IsFresh tool_result
unfolding find artifact_fields
not_downsized = refl

reduced_result-IsRecoverable_example :
    Pairwise IsRecoverable
      (tool_result ∷ [])
      (messages_of (reduced_result reducer "query" "c1" (single tool_result)))
reduced_result-IsRecoverable_example =
    reduced_result-IsRecoverable reducer "query" "c1" (single tool_result) (not_downsized, tt)

abbrev streamed : Message
streamed = record {
  kind = ai_message;
  id = none;
  content = blocks (obj (field (key "partial_json") null (field (key "input") null end)) ∷ []);
  tool_call_id = "";
  name = none;
  status = "";
  artifact = null;
}

abbrev texts : Texts
texts = record { loads = λ s. none; is_blank = λ s. false }

abbrev identifier : ℕ → String
identifier n = "new"

before_model_lem_example :
    ((before_model texts identifier (streamed ∷ tool_result ∷ []) ≡ none)
      × (any needs_cleaning (streamed ∷ tool_result ∷ []) ≡ false))
    ⊎ ((any needs_cleaning (streamed ∷ tool_result ∷ []) ≡ true)
        × ((after : List Message) × (before_model texts identifier (streamed ∷ tool_result ∷ [])
              ≡ some after)
            × Pairwise IsRebuilt (streamed ∷ tool_result ∷ []) after
            × (before_model texts identifier after ≡ none)))
before_model_lem_example = before_model_lem texts identifier (streamed ∷ tool_result ∷ [])

abbrev out_of_scope : BoundaryRejection
out_of_scope = record {
  code = "host_out_of_scope";
  tool_name = "query";
  message = "another host";
  resource_refs = "h2" ∷ [];
}

-- every call may run, and every result is rejected; the ledger counts the calls of the policy
abbrev strict : ToolBoundary ℕ
strict = record {
  authorize = λ tool arguments n. (suc n, none);
  validate = λ tool m n. (suc n, inl (rejection out_of_scope));
}

abbrev query_call : CallContext
query_call = record { tool_name = "query"; call_id = "c1"; arguments = null }

abbrev in_brief : Json → String
in_brief j = "denied"

wrap_tool_call_lem_example :
    (let intercepted =
        Boundary.wrap_tool_call in_brief strict query_call (inr (single tool_result)) 0 in
      ((intercepted.executed ≡ true) ↔ ((strict.authorize "query" null 0).1 ≡ none))
      × IsSeen in_brief strict query_call (inr (single tool_result)) intercepted.answer)
wrap_tool_call_lem_example =
    wrap_tool_call_lem in_brief strict query_call (inr (single tool_result)) 0
