-- ===== src/Judgment/Examples.antt =====
-- The judgment's checks and flow at a concrete state.
use unknown_file_threat_agen.Contracts.{
  Activity, file, InvestigationState, CandidateVerdict, confirmed_malicious, ransomware, fallback,
}
use unknown_file_threat_agen.Prelude.Dict.{lookup, insert}
use unknown_file_threat_agen.Judgment.EvidenceGate.{
  resolve_cited_activity, gate_verdict, required_capabilities, cited_capabilities,
}
use unknown_file_threat_agen.Judgment.EvidenceGate.Floor.{Covers, gate_verdict_sound}
use unknown_file_threat_agen.Judgment.Grounding.{
  ReportDraft, ReportValidationIssue, unknown_evidence_ref, validate, check_cited_refs, check_refs,
  authorized_evidence_refs, statements, check_verdict_support, check_statement_support,
  check_query_boundaries, issue_unless_nil, executed_query_ids, check_scope_assertions,
  check_relations,
}
use unknown_file_threat_agen.Judgment.Repair.{Composer, evaluate}
use unknown_file_threat_agen.Judgment.Repair.Bounds.{IsSound, evaluate-IsSound}
use unknown_file_threat_agen.Judgment.Publication.{
  Publication, gate_draft, publish_investigation_report,
}
use unknown_file_threat_agen.Judgment.Publication.Published.{
  validate-gate_draft, IsTrustworthy, publish_investigation_report-IsTrustworthy,
}
use unknown_file_threat_agen.Prelude.{
  ◌≤◌, String, ◌≡◌, refl, ◌↔◌, true, false, Option, none, some, [], ◌∷◌, is_nil, mem, diff,
  sorted_set,
}

abbrev pub written : Activity
written = record {
  activity_id = "a1";
  activity_type = file;
  operation = some "write";
  host_ref = some "h1";
  observed_at = 15;
  subject_refs = "e1" ∷ [];
  actor_refs = [];
  target_refs = [];
}

abbrev pub state : InvestigationState
state = record {
  scope = record {
    host_ids = "h1" ∷ [];
    allowed_domains = "network" ∷ [];
    start_time = some 10;
    end_time = some 20;
  };
  budget = record {
    max_iterations = 3;
    max_tool_calls = 2;
    iterations_used = 0;
    tool_calls_used = 0;
    max_report_rejudgments = 2;
    report_rejudgments_used = 0;
  };
  tool_calls = [];
  verdict = none;
  knowledge_guidance = [];
  report_validation_errors = [];
  finished = false;
  tool_ledger = record {
    query_results =
        record {
          tenant_id = "t";
          case_id = "c";
          run_id = "r";
          query_id = "q1";
          activities = written ∷ [];
          evidence_references = record { evidence_id = "v1"; activity_ref = "a1" } ∷ [];
        }
        ∷ [];
    entity_results = [];
    raw_record_results = [];
    metric_results = [];
    traces = [];
    knowledge_consultations = [];
    authorized_activity_refs = "a1" ∷ [];
    authorized_entity_refs = [];
  };
}

abbrev verdict : CandidateVerdict
verdict = record {
  level = confirmed_malicious;
  threat_type = ransomware;
  summary = "files were encrypted";
  supporting_refs = "a1" ∷ [];
  contradicting_refs = [];
  limitations = [];
}

abbrev pub draft : ReportDraft
draft = record {
  verdict = verdict;
  threat_scenarios = [];
  executive_summary = "files were encrypted";
  current_situation = [];
  affected_scope = [];
  key_evidence = [];
  counter_evidence = [];
  unresolved_questions = [];
  supporting_evidence_refs = "a1" ∷ [];
  query_boundary_refs = "q1" ∷ [];
  asserted_host_refs = "h1" ∷ [];
  asserted_start = none;
  asserted_end = none;
  confirmed_relation_refs = [];
  limitations = [];
}

abbrev pub no_rejudge : Composer
no_rejudge s d issues attempt = none

abbrev pub composes : InvestigationState → Option ReportDraft
composes s = some draft

abbrev pub issue : ReportValidationIssue
issue = record { code = unknown_evidence_ref; location = "verdict"; invalid_refs = "x" ∷ [] }

found : resolve_cited_activity state "a1" ≡ some written
unfolding resolve_cited_activity lookup insert
found = refl

confirmed : (gate_verdict state verdict).level ≡ confirmed_malicious
unfolding gate_verdict sorted_set diff required_capabilities cited_capabilities lookup insert
confirmed = refl

gate_verdict_sound_example :
    (gate_verdict state verdict ≡ verdict)
    × ((c : String)
        → mem c (required_capabilities verdict.threat_type) ≡ true
        → Covers state verdict c)
gate_verdict_sound_example = gate_verdict_sound state verdict confirmed

evaluate-IsSound_example : IsSound state 0 2 (evaluate no_rejudge state draft 2)
evaluate-IsSound_example = evaluate-IsSound no_rejudge state draft 2

clean : is_nil (validate state draft) ≡ true
unfolding validate check_cited_refs check_refs authorized_evidence_refs statements
    check_verdict_support check_statement_support check_query_boundaries issue_unless_nil sorted_set
    executed_query_ids check_scope_assertions check_relations
clean = refl

validate-gate_draft_example : is_nil (validate state (gate_draft state draft)) ≡ true
validate-gate_draft_example = validate-gate_draft state draft clean

publish_investigation_report-IsTrustworthy_example :
    (p : Publication) × (publish_investigation_report composes no_rejudge state 2 ≡ some p)
    × IsTrustworthy state p
    × (p.report_rejudgments_used ≤ 2)
    × ((p.publication_status ≡ fallback) ↔ ((evaluate no_rejudge state draft 2).exhausted ≡ true))
publish_investigation_report-IsTrustworthy_example =
    publish_investigation_report-IsTrustworthy composes no_rejudge state 2 draft refl
