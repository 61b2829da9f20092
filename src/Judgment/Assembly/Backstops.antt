-- ===== src/Judgment/Assembly/Backstops.antt =====
-- judgment/application/report_assembly.py, `apply_assembly_backstops`: the repairs of a draft that need no
-- model. Each reads the draft as it was given, except the confirmed relations. The locations are those that
-- the validation writes, so that a statement's section is one of the four.
use unknown_file_threat_agen.Shared.Text.{before_char, after_char, contains}
use unknown_file_threat_agen.Contracts.{InvestigationState, ReportStatement}
use unknown_file_threat_agen.Judgment.Grounding.{
  IssueCode, unknown_evidence_ref, evidence_ref_out_of_scope, query_boundary_not_executed,
  host_assertion_out_of_scope, time_assertion_out_of_scope, relation_not_confirmed,
  ReportValidationIssue, ReportDraft, executed_query_ids, candidate_relation_ids,
  known_out_of_scope_refs, precedes,
}
use unknown_file_threat_agen.Judgment.Assembly.Drafting.{clamp_start, clamp_end}
use unknown_file_threat_agen.Prelude.{
  String, Bool, true, false, not, ◌&&◌, ◌||◌, List, [], ◌∷◌, ◌++◌, map, ◌==◌, if◌then◌else◌,
  filter_by, any, is_nil, mem, diff, sorted_set,
}

-- the tests on the codes
unfoldable pub is_boundary : IssueCode → Bool
is_boundary query_boundary_not_executed = true
is_boundary _ = false

unfoldable pub is_host : IssueCode → Bool
is_host host_assertion_out_of_scope = true
is_host _ = false

unfoldable pub is_time : IssueCode → Bool
is_time time_assertion_out_of_scope = true
is_time _ = false

unfoldable pub is_relation : IssueCode → Bool
is_relation relation_not_confirmed = true
is_relation _ = false

unfoldable pub is_citation : IssueCode → Bool
is_citation unknown_evidence_ref = true
is_citation evidence_ref_out_of_scope = true
is_citation _ = false

-- whether a code is among those of the issues
unfoldable pub has_code : (IssueCode → Bool) → List ReportValidationIssue → Bool
has_code test issues = any (λ (i : ReportValidationIssue). test i.code) issues

-- `xs == ys` on lists of texts
unfoldable pub same_texts : List String → List String → Bool
same_texts [] [] = true
same_texts (x ∷ xs) (y ∷ ys) = x == y && same_texts xs ys
same_texts _ _ = false

-- a list without the texts of another, and whether that changes it
unfoldable pub inside_hosts : InvestigationState → ReportDraft → List String
inside_hosts state draft =
    filter_by (λ host. mem host state.scope.host_ids) draft.asserted_host_refs

unfoldable pub moves_boundaries :
    InvestigationState → ReportDraft → List ReportValidationIssue → Bool
unfolding has_code is_boundary same_texts
moves_boundaries state draft issues =
    has_code is_boundary issues
    && not (same_texts draft.query_boundary_refs (sorted_set (executed_query_ids state)))

unfoldable pub moves_hosts : InvestigationState → ReportDraft → List ReportValidationIssue → Bool
unfolding has_code is_host same_texts inside_hosts
moves_hosts state draft issues =
    has_code is_host issues && not (same_texts (inside_hosts state draft) draft.asserted_host_refs)

unfoldable pub moves_times : InvestigationState → ReportDraft → List ReportValidationIssue → Bool
unfolding has_code is_time
moves_times state draft issues =
    has_code is_time issues
    && (precedes draft.asserted_start state.scope.start_time
        || precedes state.scope.end_time draft.asserted_end)

unfoldable pub kept_relations : InvestigationState → ReportDraft → List String
kept_relations state draft = diff draft.confirmed_relation_refs (candidate_relation_ids state)

unfoldable pub moves_relations :
    InvestigationState → ReportDraft → List ReportValidationIssue → Bool
unfolding has_code is_relation same_texts kept_relations
moves_relations state draft issues =
    has_code is_relation issues
    && not (same_texts (kept_relations state draft) draft.confirmed_relation_refs)

-- the first four repairs
unfoldable pub refill : InvestigationState → List ReportValidationIssue → ReportDraft → ReportDraft
unfolding moves_boundaries moves_hosts moves_relations has_code is_time inside_hosts kept_relations
    clamp_start clamp_end
refill state issues draft =
    let inside = inside_hosts state draft in
    let timed = has_code is_time issues in
    record draft {
      query_boundary_refs =
          if moves_boundaries state draft issues
          then sorted_set (executed_query_ids state)
          else draft.query_boundary_refs;
      asserted_host_refs =
          if moves_hosts state draft issues
          then (if is_nil inside then state.scope.host_ids else inside)
          else draft.asserted_host_refs;
      asserted_start =
          if timed
          then clamp_start draft.asserted_start state.scope.start_time
          else draft.asserted_start;
      asserted_end =
          if timed then clamp_end draft.asserted_end state.scope.end_time else draft.asserted_end;
      confirmed_relation_refs =
          if moves_relations state draft issues
          then kept_relations state draft
          else draft.confirmed_relation_refs;
    }

-- the statements of a section, one of them without the references at fault
unfoldable pub strip_statement : String → List String → ReportStatement → ReportStatement
strip_statement id bad s =
    if s.statement_id == id then record s { supporting_refs = diff s.supporting_refs bad } else s

unfoldable pub strip_section : String → List String → List ReportStatement → List ReportStatement
unfolding strip_statement
strip_section id bad statements = map (strip_statement id bad) statements

-- `update[section] = stripped`
unfoldable pub set_section : String → String → List String → ReportDraft → ReportDraft → ReportDraft
unfolding strip_section
set_section section id bad draft update =
    if section == "current_situation"
    then record update { current_situation = strip_section id bad draft.current_situation }
    else if section == "affected_scope"
    then record update { affected_scope = strip_section id bad draft.affected_scope }
    else if section == "key_evidence"
    then record update { key_evidence = strip_section id bad draft.key_evidence }
    else if section == "counter_evidence"
    then record update { counter_evidence = strip_section id bad draft.counter_evidence }
    else update

-- the branches on the location of an issue; `draft` is the draft as it was given
unfoldable pub strip_at : String → List String → ReportDraft → ReportDraft → ReportDraft
unfolding set_section
strip_at location bad draft update =
    if location == "verdict.supporting_refs"
    then record update {
      verdict = record update.verdict { supporting_refs = diff draft.verdict.supporting_refs bad };
    }
    else if location == "verdict.contradicting_refs"
    then record update {
      verdict = record update.verdict {
        contradicting_refs = diff draft.verdict.contradicting_refs bad;
      };
    }
    else if location == "supporting_evidence_refs"
    then record update { supporting_evidence_refs = diff draft.supporting_evidence_refs bad }
    else if location == "confirmed_relation_refs"
    then record update { confirmed_relation_refs = diff update.confirmed_relation_refs bad }
    else if contains ".supporting_refs" location
    then set_section (before_char b'[' location) (before_char b']' (after_char b'[' location)) bad
        draft update
    else update

-- the loop over the issues
unfoldable pub strip_issues :
    List String → List ReportValidationIssue → ReportDraft → ReportDraft → ReportDraft
unfolding is_citation strip_at
strip_issues forbidden [] draft update = update
strip_issues forbidden (issue ∷ issues) draft update = strip_issues forbidden issues draft (
    if is_citation issue.code
    then strip_at issue.location (issue.invalid_refs ++ forbidden) draft update
    else update)

unfoldable pub is_changed : InvestigationState → ReportDraft → List ReportValidationIssue → Bool
unfolding moves_boundaries moves_hosts moves_times moves_relations has_code is_citation
is_changed state draft issues =
    moves_boundaries state draft issues
    || moves_hosts state draft issues
    || moves_times state draft issues
    || moves_relations state draft issues
    || has_code is_citation issues

-- `apply_assembly_backstops`
unfoldable pub apply_assembly_backstops :
    InvestigationState → ReportDraft → List ReportValidationIssue → ReportDraft × Bool
unfolding refill strip_issues is_changed
apply_assembly_backstops state draft issues =
    if is_changed state draft issues
    then (
      strip_issues (known_out_of_scope_refs state) issues draft (refill state issues draft),
      true,
    )
    else (draft, false)
