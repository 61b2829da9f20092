-- ===== src/Judgment/LoopExamples.antt =====
-- The judgment graph and its gateway at a concrete runtime.
use unknown_file_threat_agen.Cases.BoundaryPolicy.{
  Stamp, other, Arguments, Identity, ToolRuntimeContext, raw_records,
}
use unknown_file_threat_agen.Contracts.{DataToolRequest, data_tool_request, InvestigationState}
use unknown_file_threat_agen.Judgment.Gateway.{Tools}
use unknown_file_threat_agen.Judgment.Gateway.Recorded.{IsConfined}
use unknown_file_threat_agen.Judgment.Loop.{Runtime}
use unknown_file_threat_agen.Judgment.Loop.Confined.{guarded, run-IsConfined}
use unknown_file_threat_agen.Judgment.Loop.Flow.{steps, start}
use unknown_file_threat_agen.Judgment.Loop.Kept.{Holds, tool_calls_used-le}
use unknown_file_threat_agen.Shared.Json.{null, Fields, end}
use unknown_file_threat_agen.Prelude.{
  ◌≤◌, String, inl, inr, false, Option, none, some, [], ◌∷◌, arith, mem,
}

abbrev identity : Identity
identity = record { tenant_id = "t"; case_id = "c"; run_id = "r" }

abbrev state : InvestigationState
state = record {
  scope = record {
    host_ids = "h1" ∷ [];
    allowed_domains = "network" ∷ [];
    start_time = some 10;
    end_time = some 20;
  };
  budget = record {
    max_iterations = 2;
    max_tool_calls = 1;
    iterations_used = 0;
    tool_calls_used = 0;
    max_report_rejudgments = 2;
    report_rejudgments_used = 0;
  };
  tool_calls = [];
  verdict = none;
  tool_ledger = record {
    query_results = [];
    entity_results = [];
    raw_record_results = [];
    metric_results = [];
    traces = [];
    knowledge_consultations = [];
    authorized_activity_refs = [];
    authorized_entity_refs = [];
  };
  knowledge_guidance = [];
  report_validation_errors = [];
  finished = false;
}

abbrev context : ToolRuntimeContext
context = record { identity = identity; scope = state.scope }

abbrev fold : String → String
fold s = s

abbrev no_iso : String → Option Stamp
no_iso s = none

abbrev read : Fields → Arguments
read fields = record {
  host_refs = "h1" ∷ [];
  start_time = other;
  end_time = other;
  entity_ref = "";
  activity_refs = [];
}

abbrev tools : Tools
tools = record {
  handle = λ ledger tool arguments. inr (raw_records []);
  identity_refs = λ i. [];
  endpoint_refs = λ r. inr [];
  dump = λ r. inr null;
  emit = λ tool arguments r. none;
  emit_denial = λ d. none;
}

abbrev request : DataToolRequest
request = record {
  tool_name = "get_raw_records";
  objective = "read the records";
  arguments = end;
  tool_call_id = some "c1";
  model_message = null;
}

abbrev runtime : Runtime
runtime = record {
  plan = λ s. some (data_tool_request request ∷ []);
  data_tool_gateway = none;
  consult_investigation = λ s. inl "TimeoutError";
  report_composer = none;
  denial_message = λ d. "";
}

nothing-IsConfined : IsConfined context state.tool_ledger
unfolding mem
nothing-IsConfined = record {
  results = tt;
  timelines = tt;
  backed = λ a m. ground arith;
  traced = tt;
}

tool_calls_used-le_example :
    Holds
      (λ t. (t.budget.tool_calls_used ≤ t.budget.max_tool_calls))
      (steps runtime 9 (start state))
tool_calls_used-le_example = tool_calls_used-le runtime state (omega arith) 9

run-IsConfined_example :
    Holds
      (λ t. IsConfined context t.tool_ledger)
      (steps (guarded fold no_iso read identity context tools runtime) 9 (start state))
run-IsConfined_example =
    run-IsConfined fold no_iso read identity context tools runtime state nothing-IsConfined 9
