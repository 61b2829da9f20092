-- ===== src/Judgment/Publication.antt =====
-- judgment/application/graph.py, `publish_investigation_report`, and the fallback builder and the
-- publisher of reporting.py. A composer may fail: `compose_draft` then raises out of the flow.
pub mod Published
use Prim.Native.String.{◌++◌ as append}
use unknown_file_threat_agen.Contracts.{
  InvestigationState, insufficient_evidence, unknown, PublicationStatus, grounded, fallback,
}
use unknown_file_threat_agen.Judgment.EvidenceGate.{gate_verdict}
use unknown_file_threat_agen.Judgment.Grounding.{
  ReportValidationIssue, ReportDraft, executed_query_ids, validate,
}
use unknown_file_threat_agen.Judgment.Repair.{
  code_name, issue_codes, RepairOutcome, Composer, evaluate,
}
use unknown_file_threat_agen.Prelude.{
  ℕ, String, Option, none, some, List, [], ◌∷◌, map, if◌then◌else◌, is_nil, sorted_set,
}

-- `FALLBACK_SUMMARY`
abbrev pub fallback_summary : String
fallback_summary =
    "本次调查未能发布可追溯的正式研判报告：报告引用与结论的接地校验未在预算内通过。系统不保留任何原结论或事实断言，当前唯一可信状态是证据不足。请重新生成报告或补充调查后重新研判。"

-- `DeterministicFallbackBuilder.build_draft`
unfoldable pub build_fallback : InvestigationState → List ReportValidationIssue → ReportDraft
build_fallback state issues = record {
  verdict = record {
    level = insufficient_evidence;
    threat_type = unknown;
    summary = fallback_summary;
    supporting_refs = [];
    contradicting_refs = [];
    limitations = "report_grounding_failed" ∷ [];
  };
  threat_scenarios = [];
  executive_summary = fallback_summary;
  current_situation = [];
  affected_scope = [];
  key_evidence = [];
  counter_evidence = [];
  unresolved_questions = "报告接地校验未通过，需要重新生成报告或补充调查数据后重新研判" ∷ [];
  supporting_evidence_refs = [];
  query_boundary_refs = sorted_set (executed_query_ids state);
  asserted_host_refs = state.scope.host_ids;
  asserted_start = state.scope.start_time;
  asserted_end = state.scope.end_time;
  confirmed_relation_refs = [];
  limitations =
      "report_grounding_failed"
      ∷ map (λ code. append "validation_issue:" code) (issue_codes issues);
}

-- what is published and what the state then records; the report copies the draft's fields
pub record Publication : Type 0 where
  pub report : ReportDraft
  pub publication_status : PublicationStatus
  pub report_validation_errors : List String
  pub report_rejudgments_used : ℕ

-- `f"{issue.code}@{issue.location}"`
unfoldable pub validation_error : ReportValidationIssue → String
validation_error issue = append (code_name issue.code) (append "@" issue.location)

-- `draft.model_copy(update={"verdict": gated_verdict})`
unfoldable pub gate_draft : InvestigationState → ReportDraft → ReportDraft
gate_draft state draft = record draft { verdict = gate_verdict state draft.verdict }

-- the gate and the final validation, for an outcome without issues
unfoldable pub finish :
    InvestigationState → RepairOutcome → ReportDraft × List ReportValidationIssue
finish state outcome =
    if is_nil outcome.issues
    then (gate_draft state outcome.draft, validate state (gate_draft state outcome.draft))
    else (outcome.draft, outcome.issues)

unfoldable pub publish_outcome : InvestigationState → RepairOutcome → Publication
publish_outcome state outcome =
    let (draft, issues) = finish state outcome in
    if is_nil issues
    then record {
      report = draft;
      publication_status = grounded;
      report_validation_errors = [];
      report_rejudgments_used = outcome.rejudgments_used;
    }
    else record {
      report = build_fallback state issues;
      publication_status = fallback;
      report_validation_errors = map validation_error issues;
      report_rejudgments_used = outcome.rejudgments_used;
    }

-- the flow of a composer without the assembled pipeline
unfoldable pub publish_investigation_report :
    (InvestigationState → Option ReportDraft)
    → Composer
    → InvestigationState
    → ℕ
    → Option Publication
publish_investigation_report compose_draft rejudge state max_report_rejudgments =
    elim (compose_draft state) [
      | none ↦ none
      | some draft ↦
          some (publish_outcome state (evaluate rejudge state draft max_report_rejudgments))
    ]
