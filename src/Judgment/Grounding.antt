-- ===== src/Judgment/Grounding.antt =====
-- judgment/application/report_validation.py: the grounding validation of a report draft. An issue
-- keeps its code, its location and the references at fault; the message texts are not modelled.
pub mod Refs
pub mod Clean
use mathlib.Core.Option
use Prim.Native.String.{◌++◌ as append}
use unknown_file_threat_agen.Contracts.{
  Activity, EvidenceReference, ActivityQueryResult, EntityExplorationResult, OutOfScopeRelationClue,
  InvestigationState, CandidateVerdict, VerdictLevel, insufficient_evidence, ReportStatement, Scope,
}
use unknown_file_threat_agen.Prelude.{
  ℕ, ◌+◌, String, Bool, true, false, Option, none, some, List, [], ◌∷◌, ◌++◌, map, ltb,
  if◌then◌else◌, filter_by, is_nil, concat_map, mem, diff, sorted_set,
}

pub data IssueCode : Type 0 where
  unknown_evidence_ref evidence_ref_out_of_scope statement_without_support : IssueCode
  verdict_without_support query_boundary_not_executed host_assertion_out_of_scope : IssueCode
  time_assertion_out_of_scope relation_not_confirmed : IssueCode

-- `blocking` is never set to anything but its default
pub record ReportValidationIssue : Type 0 where
  pub code : IssueCode
  pub location : String
  pub invalid_refs : List String

-- report_draft.py
pub record ReportDraft : Type 0 where
  pub verdict : CandidateVerdict
  pub threat_scenarios : List String
  pub executive_summary : String
  pub current_situation : List ReportStatement
  pub affected_scope : List ReportStatement
  pub key_evidence : List ReportStatement
  pub counter_evidence : List ReportStatement
  pub unresolved_questions : List String
  pub supporting_evidence_refs : List String
  pub query_boundary_refs : List String
  pub asserted_host_refs : List String
  pub asserted_start : Option ℕ
  pub asserted_end : Option ℕ
  pub confirmed_relation_refs : List String
  pub limitations : List String

abbrev pub option_list : Option String → List String
option_list none = []
option_list (some x) = x ∷ []

unfoldable pub authorized_evidence_refs : InvestigationState → List String
authorized_evidence_refs state =
    state.tool_ledger.authorized_activity_refs
    ++ concat_map
        (λ (result : ActivityQueryResult).
          map (λ (item : EvidenceReference). item.evidence_id) result.evidence_references
          ++ map (λ (item : Activity). item.activity_id) result.activities)
        state.tool_ledger.query_results
    ++ concat_map
        (λ (result : EntityExplorationResult).
          option_list result.identity ++ result.resolved_relations ++ result.candidate_relations)
        state.tool_ledger.entity_results

unfoldable pub executed_query_ids : InvestigationState → List String
executed_query_ids state =
    map (λ (item : ActivityQueryResult). item.query_id) state.tool_ledger.query_results

unfoldable pub resolved_relation_ids : InvestigationState → List String
resolved_relation_ids state =
    concat_map (λ (result : EntityExplorationResult). result.resolved_relations)
      state.tool_ledger.entity_results

unfoldable pub candidate_relation_ids : InvestigationState → List String
candidate_relation_ids state =
    concat_map (λ (result : EntityExplorationResult). result.candidate_relations)
      state.tool_ledger.entity_results

unfoldable pub known_out_of_scope_refs : InvestigationState → List String
known_out_of_scope_refs state =
    concat_map
      (λ (result : EntityExplorationResult).
        concat_map
          (λ (clue : OutOfScopeRelationClue). clue.relation_id ∷ clue.other_endpoint_ref ∷ [])
          result.out_of_scope_relations)
      state.tool_ledger.entity_results

-- `_classify_ref`
unfoldable pub classify_ref : String → List String → List String → Option IssueCode
classify_ref ref authorized forbidden =
    if mem ref authorized
    then none
    else if mem ref forbidden
    then some evidence_ref_out_of_scope
    else some unknown_evidence_ref

-- the issue, if the first unknown reference has a code
unfoldable pub issue_for : Option IssueCode → String → List String → List ReportValidationIssue
issue_for none location unknown = []
issue_for (some code) location unknown =
    record { code = code; location = location; invalid_refs = sorted_set unknown } ∷ []

unfoldable pub classify_unknown :
    List String → List String → List String → String → List ReportValidationIssue
unfolding classify_ref issue_for
classify_unknown authorized forbidden [] location = []
classify_unknown authorized forbidden (ref ∷ refs) location =
    issue_for (classify_ref ref authorized forbidden) location (ref ∷ refs)

-- `check` of `_check_cited_refs`
unfoldable pub check_refs :
    List String → List String → List String → String → List String → List ReportValidationIssue
unfolding classify_unknown diff
check_refs authorized forbidden refs location universe =
    classify_unknown authorized forbidden (diff refs universe) location

unfoldable pub statement_location : String → ReportStatement → String
statement_location section statement =
    append section (append "[" (append statement.statement_id "].supporting_refs"))

-- `_MATERIAL_STATEMENT_SECTIONS` with the statements of a draft; every section requires support
unfoldable pub sections : ReportDraft → List (String × List ReportStatement)
sections draft =
    ("current_situation", draft.current_situation)
    ∷ ("affected_scope", draft.affected_scope)
    ∷ ("key_evidence", draft.key_evidence)
    ∷ ("counter_evidence", draft.counter_evidence)
    ∷ []

-- every statement with the name of its section, in the order of the loops
unfoldable pub statements : ReportDraft → List (String × ReportStatement)
unfolding sections
statements draft =
    concat_map
      (λ (section : String × List ReportStatement).
        map (λ (statement : ReportStatement). (section.0, statement)) section.1)
      (sections draft)

-- `check` at a statement of a section
unfoldable pub cited_issue :
    List String → List String → List String → String × ReportStatement → List ReportValidationIssue
unfolding check_refs statement_location
cited_issue authorized forbidden universe s =
    check_refs authorized forbidden s.1.supporting_refs (statement_location s.0 s.1) universe

-- `_check_cited_refs`
unfoldable pub check_cited_refs :
    ReportDraft → List String → List String → List String → List ReportValidationIssue
check_cited_refs draft authorized forbidden universe =
    check_refs authorized forbidden draft.verdict.supporting_refs "verdict.supporting_refs"
      authorized
    ++ check_refs authorized forbidden draft.verdict.contradicting_refs "verdict.contradicting_refs"
        authorized
    ++ check_refs authorized forbidden draft.supporting_evidence_refs "supporting_evidence_refs"
        authorized
    ++ concat_map (cited_issue authorized forbidden universe) (statements draft)

unfoldable pub is_insufficient : VerdictLevel → Bool
is_insufficient insufficient_evidence = true
is_insufficient _ = false

-- `_check_verdict_support`
unfoldable pub check_verdict_support : ReportDraft → List ReportValidationIssue
unfolding is_insufficient
check_verdict_support draft =
    if is_insufficient draft.verdict.level
    then []
    else if is_nil draft.verdict.supporting_refs
    then record {
      code = verdict_without_support;
      location = "verdict.supporting_refs";
      invalid_refs = [];
    }
      ∷ []
    else []

-- the issue of one statement, if none of its references is in the universe
unfoldable pub statement_issue : List String → String × ReportStatement → List ReportValidationIssue
unfolding statement_location
statement_issue universe s =
    if is_nil (filter_by (λ ref. mem ref universe) s.1.supporting_refs)
    then record {
      code = statement_without_support;
      location = statement_location s.0 s.1;
      invalid_refs = s.1.statement_id ∷ [];
    }
      ∷ []
    else []

-- `_check_statement_support`
unfoldable pub check_statement_support : ReportDraft → List String → List ReportValidationIssue
check_statement_support draft universe = concat_map (statement_issue universe) (statements draft)

-- one issue with the references at fault, if there are any
unfoldable pub issue_unless_nil : IssueCode → String → List String → List ReportValidationIssue
issue_unless_nil code location refs =
    if is_nil refs
    then []
    else record { code = code; location = location; invalid_refs = refs } ∷ []

-- `_check_query_boundaries`
unfoldable pub check_query_boundaries : ReportDraft → List String → List ReportValidationIssue
check_query_boundaries draft queries =
    issue_unless_nil query_boundary_not_executed "query_boundary_refs"
      (sorted_set (diff draft.query_boundary_refs queries))

-- `a is not None and b is not None and a < b`
unfoldable pub precedes : Option ℕ → Option ℕ → Bool
precedes (some a) (some b) = ltb a b
precedes _ _ = false

unfoldable pub time_issue : Bool → String → List ReportValidationIssue
time_issue true location =
    record { code = time_assertion_out_of_scope; location = location; invalid_refs = [] } ∷ []
time_issue false location = []

-- `_check_scope_assertions`
unfoldable pub check_scope_assertions : ReportDraft → Scope → List ReportValidationIssue
unfolding issue_unless_nil precedes time_issue
check_scope_assertions draft scope =
    issue_unless_nil host_assertion_out_of_scope "asserted_host_refs"
      (sorted_set (diff draft.asserted_host_refs scope.host_ids))
    ++ time_issue (precedes draft.asserted_start scope.start_time) "asserted_start"
    ++ time_issue (precedes scope.end_time draft.asserted_end) "asserted_end"

-- `_check_relations`
unfoldable pub check_relations : ReportDraft → InvestigationState → List ReportValidationIssue
unfolding issue_unless_nil candidate_relation_ids resolved_relation_ids
check_relations draft state =
    let candidates = candidate_relation_ids state in
    let resolved = resolved_relation_ids state in
    issue_unless_nil relation_not_confirmed "confirmed_relation_refs"
      (sorted_set (filter_by (λ ref. mem ref candidates) draft.confirmed_relation_refs))
    ++ issue_unless_nil unknown_evidence_ref "confirmed_relation_refs"
        (sorted_set (diff draft.confirmed_relation_refs resolved))

-- `ReportGroundingValidator.validate`
unfoldable pub validate : InvestigationState → ReportDraft → List ReportValidationIssue
validate state draft =
    let authorized = authorized_evidence_refs state in
    let forbidden = known_out_of_scope_refs state in
    let queries = executed_query_ids state in
    let universe = authorized ++ queries in
    check_cited_refs draft authorized forbidden universe
    ++ check_verdict_support draft
    ++ check_statement_support draft universe
    ++ check_query_boundaries draft queries
    ++ check_scope_assertions draft state.scope
    ++ check_relations draft state
