-- ===== src/Judgment/Repair.antt =====
-- judgment/application/report_repair.py: the bounded loop of rejudgments. The composer is a call of
-- the language model: it is a parameter, and `none` is an exception that it raises.
pub mod Bounds
use unknown_file_threat_agen.Contracts.{InvestigationState}
use unknown_file_threat_agen.Judgment.Grounding.{
  IssueCode, unknown_evidence_ref, evidence_ref_out_of_scope, statement_without_support,
  verdict_without_support, query_boundary_not_executed, host_assertion_out_of_scope,
  time_assertion_out_of_scope, relation_not_confirmed, ReportValidationIssue, ReportDraft, validate,
}
use unknown_file_threat_agen.Prelude.{
  ℕ, zero, suc, ◌+◌, String, Bool, true, false, not, Option, none, some, List, [], ◌∷◌, ◌++◌, map,
  is_nil, sorted_set,
}

unfoldable pub code_name : IssueCode → String
code_name unknown_evidence_ref = "unknown_evidence_ref"
code_name evidence_ref_out_of_scope = "evidence_ref_out_of_scope"
code_name statement_without_support = "statement_without_support"
code_name verdict_without_support = "verdict_without_support"
code_name query_boundary_not_executed = "query_boundary_not_executed"
code_name host_assertion_out_of_scope = "host_assertion_out_of_scope"
code_name time_assertion_out_of_scope = "time_assertion_out_of_scope"
code_name relation_not_confirmed = "relation_not_confirmed"

-- `sorted({issue.code for issue in issues})`
unfoldable pub issue_codes : List ReportValidationIssue → List String
unfolding code_name
issue_codes issues = sorted_set (map (λ (i : ReportValidationIssue). code_name i.code) issues)

-- what the event sink receives, without the timings and the locations of the issues: the outcome of the first validation, and each
-- rejudgment with its number, the codes before it and those after it
pub data RepairEvent : Type 0 where
  validated : Bool → List String → RepairEvent
  rejudged : ℕ → List String → List String → RepairEvent
  failed : ℕ → List String → RepairEvent

pub record RepairOutcome : Type 0 where
  pub draft : ReportDraft
  pub issues : List ReportValidationIssue
  pub rejudgments_used : ℕ
  pub exhausted : Bool
  pub events : List RepairEvent

-- `composer.rejudge(state, draft, issues, attempt=attempts)`
abbrev pub Composer : Type 0
Composer = InvestigationState → ReportDraft → List ReportValidationIssue → ℕ → Option ReportDraft

module _ (rejudge : Composer) (state : InvestigationState) where
  -- The `while` loop, with the number of rejudgments that are left: it falls by one each round, so
  -- that the loop ends by its own test.
  unfoldable pub repair_loop :
      ℕ → ℕ → ReportDraft → List ReportValidationIssue → List RepairEvent → RepairOutcome
  unfolding issue_codes
  repair_loop zero attempts draft issues events = record {
    draft = draft;
    issues = issues;
    rejudgments_used = attempts;
    exhausted = not (is_nil issues);
    events = events;
  }
  repair_loop (suc left) attempts draft issues events =
      let used = attempts + 1 in
      elim (is_nil issues) [
        | true ↦ record {
          draft = draft;
          issues = issues;
          rejudgments_used = attempts;
          exhausted = false;
          events = events;
        }
        | false ↦ elim (rejudge state draft issues used) [
          | none ↦ record {
            draft = draft;
            issues = issues;
            rejudgments_used = used;
            exhausted = true;
            events = events ++ failed used (issue_codes issues) ∷ [];
          }
          | some redraft ↦ repair_loop left used redraft (validate state redraft) (
              events
              ++ rejudged used (issue_codes issues) (issue_codes (validate state redraft)) ∷ [])
        ]
      ]

  -- `ReportRepairCoordinator.evaluate`
  unfoldable pub evaluate : ReportDraft → ℕ → RepairOutcome
  unfolding repair_loop
  evaluate draft max_rejudgments =
      let issues = validate state draft in
      repair_loop max_rejudgments 0 draft issues
        (validated (is_nil issues) (issue_codes issues) ∷ [])
