-- ===== src/Cases/Examples.antt =====
-- The boundary policy at concrete calls.
use unknown_file_threat_agen.Cases.BoundaryPolicy.{
  pass, denied, single_host_required, BoundaryDenied, Stamp, other, Arguments, Identity,
  ToolRuntimeContext, authorize_call, same_identity, query, validate_result,
}
use unknown_file_threat_agen.Cases.BoundaryPolicy.Validated.{IsValidResult, validate_result_iff}
use unknown_file_threat_agen.Contracts.{
  Scope, InvestigationToolLedger, network, ActivityQueryResult,
}
use unknown_file_threat_agen.Prelude.{String, ◌≡◌, refl, ◌↔◌, Option, none, some, [], ◌∷◌}

abbrev no_iso : String → Option Stamp
no_iso s = none

abbrev run_identity : Identity
run_identity = record { tenant_id = "t"; case_id = "c"; run_id = "r" }

abbrev one_host : Scope
one_host = record {
  host_ids = "h1" ∷ [];
  allowed_domains = "network" ∷ [];
  start_time = some 10;
  end_time = some 20;
}

abbrev two_hosts : Scope
two_hosts = record one_host { host_ids = "h1" ∷ "h2" ∷ [] }

abbrev context : ToolRuntimeContext
context = record { identity = run_identity; scope = one_host }

abbrev wide_context : ToolRuntimeContext
wide_context = record { identity = run_identity; scope = two_hosts }

abbrev ledger : InvestigationToolLedger
ledger = record {
  query_results = [];
  entity_results = [];
  raw_record_results = [];
  metric_results = [];
  traces = [];
  knowledge_consultations = [];
  authorized_activity_refs = "a1" ∷ [];
  authorized_entity_refs = "e1" ∷ [];
}

abbrev arguments : Arguments
arguments = record {
  host_refs = "h1" ∷ [];
  start_time = other;
  end_time = other;
  entity_ref = "";
  activity_refs = [];
}

abbrev result : ActivityQueryResult
result = record {
  tenant_id = "t";
  case_id = "c";
  run_id = "r";
  query_id = "q1";
  activities =
      record {
        activity_id = "a1";
        activity_type = network;
        operation = some "connect";
        host_ref = some "h1";
        observed_at = 15;
        subject_refs = "e1" ∷ [];
        actor_refs = [];
        target_refs = [];
      }
      ∷ [];
  evidence_references = record { evidence_id = "v1"; activity_ref = "a1" } ∷ [];
}

abbrev refusal : BoundaryDenied
refusal = record {
  code = single_host_required;
  tool_name = "query_network_activities";
  host_refs = "h1" ∷ "h2" ∷ [];
  reference_ids = [];
}

refused :
    authorize_call no_iso run_identity wide_context ledger "query_network_activities" arguments
    ≡ denied refusal
unfolding authorize_call same_identity
refused = refl

validate_result_iff_example :
    (validate_result context ledger "query_network_activities" (query result) ≡ pass)
    ↔ IsValidResult context ledger (query result)
validate_result_iff_example =
    validate_result_iff context ledger "query_network_activities" (query result)
