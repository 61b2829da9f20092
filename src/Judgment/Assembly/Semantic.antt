-- ===== src/Judgment/Assembly/Semantic.antt =====
-- judgment/application/report_assembly.py: the issues of a draft after the deterministic repairs.
use mathlib.Core.Path.{subst}
use unknown_file_threat_agen.Contracts.{InvestigationState, ReportStatement}
use unknown_file_threat_agen.Judgment.Grounding.{
  IssueCode, statement_without_support, verdict_without_support, ReportValidationIssue, ReportDraft,
  authorized_evidence_refs, executed_query_ids, known_out_of_scope_refs, check_refs, sections,
  statements, cited_issue, check_cited_refs, check_verdict_support, check_statement_support,
  statement_issue, is_insufficient, query_boundary_not_executed, check_query_boundaries, validate,
}
use unknown_file_threat_agen.Judgment.Grounding.Refs.{
  Within, concat_map-eq-nil, check_refs-eq-nil, issue_unless_nil-eq-nil,
}
use unknown_file_threat_agen.Judgment.Grounding.Clean.{
  cited_issue-eq-nil, check_scope_assertions-eq-nil, check_relations-eq-nil,
}
use unknown_file_threat_agen.Judgment.Assembly.Catalog.{InvestigationJudgment, build}
use unknown_file_threat_agen.Judgment.Assembly.Whitelist.{universe, All-++, in_left}
use unknown_file_threat_agen.Judgment.Assembly.Drafting.{assemble_report_draft}
use unknown_file_threat_agen.Judgment.Assembly.Backstops.{
  refill, strip_issues, is_changed, apply_assembly_backstops,
}
use unknown_file_threat_agen.Judgment.Assembly.Flow.{revalidated, validate_and_backstop, assembled}
use unknown_file_threat_agen.Judgment.Assembly.Mechanical.{
  IsCited, IsMechanical, assemble_report_draft-IsMechanical,
}
use unknown_file_threat_agen.Prelude.{
  String, ◌≡◌, refl, sym, ap, ◌∙◌, inl, inr, Bool, true, false, List, [], ◌∷◌, map, arith, if-All,
  Bool-cases, filter_by, is_nil, All, concat_map, mem, diff, sorted_set, covered_iff,
}
use unknown_file_threat_agen.Judgment.Assembly.Repaired.{
  IsRepaired, strip_issues-IsRepaired, unchanged-IsRepaired,
}

-- an issue that only another judgment can mend
abbrev pub is_semantic : IssueCode → Bool
is_semantic statement_without_support = true
is_semantic verdict_without_support = true
is_semantic _ = false

abbrev pub AreSemantic : List ReportValidationIssue → Type 0
AreSemantic issues = All (λ (i : ReportValidationIssue). is_semantic i.code ≡ true) issues

AreSemantic-nil : (issues : List ReportValidationIssue) → is_nil issues ≡ true → AreSemantic issues
AreSemantic-nil [] h = tt
AreSemantic-nil (i ∷ issues) h = cc

statement_issues-AreSemantic :
    (u : List String) (xs : List (String × ReportStatement))
    → AreSemantic (concat_map (statement_issue u) xs)
unfolding statement_issue
statement_issues-AreSemantic u [] = tt
statement_issues-AreSemantic u (s ∷ xs) =
    All-++ (λ (i : ReportValidationIssue). is_semantic i.code ≡ true) (statement_issue u s) _
      (if-All AreSemantic (is_nil (filter_by (λ ref. mem ref u) s.1.supporting_refs)) (refl, tt) tt)
      (statement_issues-AreSemantic u xs)

verdict_issues-AreSemantic : (draft : ReportDraft) → AreSemantic (check_verdict_support draft)
unfolding check_verdict_support
verdict_issues-AreSemantic draft =
    if-All AreSemantic (is_insufficient draft.verdict.level) tt
      (if-All AreSemantic (is_nil draft.verdict.supporting_refs) (refl, tt) tt)

module _ (state : InvestigationState) where
  section-IsCited :
      (section : String) (xs : List ReportStatement)
      → All (IsCited state) xs
      → All
          (λ (s : String × ReportStatement). IsCited state s.1)
          (map (λ (s : ReportStatement). (section, s)) xs)
  section-IsCited section [] h = tt
  section-IsCited section (s ∷ xs) h = (h.0, section-IsCited section xs h.1)

  statements-IsCited :
      (draft : ReportDraft)
      → IsMechanical state draft
      → All (λ (s : String × ReportStatement). IsCited state s.1) (statements draft)
  unfolding statements sections
  statements-IsCited draft d =
      let P = λ (s : String × ReportStatement). IsCited state s.1 in
      All-++ P _ _
        (section-IsCited "current_situation" draft.current_situation d.current_situation_lem)
        (All-++ P _ _ (section-IsCited "affected_scope" draft.affected_scope d.affected_scope_lem) (
          All-++ P _ _ (section-IsCited "key_evidence" draft.key_evidence d.key_evidence_lem) (
            All-++ P _ _
              (section-IsCited "counter_evidence" draft.counter_evidence d.counter_evidence_lem)
              tt)))

  cited_issues-AreSemantic :
      (draft : ReportDraft)
      → IsMechanical state draft
      → AreSemantic (
          check_cited_refs draft
            (authorized_evidence_refs state)
            (known_out_of_scope_refs state)
            (universe state))
  unfolding check_cited_refs
  cited_issues-AreSemantic draft d =
      let P = λ (i : ReportValidationIssue). is_semantic i.code ≡ true in
      let authorized = authorized_evidence_refs state in
      let forbidden = known_out_of_scope_refs state in
      let clear = λ (refs : List String) (location : String) (w : Within refs authorized).
        AreSemantic-nil (check_refs authorized forbidden refs location authorized)
          ((check_refs-eq-nil authorized forbidden refs authorized location (λ a m. m)).1 w) in
      let wider = λ (a : String) (m : mem a authorized ≡ true).
        in_left a authorized (executed_query_ids state) m in
      All-++ P _ _
        (All-++ P _ _
          (All-++ P _ _ (clear draft.verdict.supporting_refs "verdict.supporting_refs" d.supporting)
            (clear draft.verdict.contradicting_refs "verdict.contradicting_refs" d.contradicting))
          (clear draft.supporting_evidence_refs "supporting_evidence_refs" d.evidence))
        (AreSemantic-nil _ (
          (concat_map-eq-nil (λ (s : String × ReportStatement). IsCited state s.1)
              (cited_issue authorized forbidden (universe state))
              (cited_issue-eq-nil authorized forbidden (universe state) wider) (statements draft)).1
            (statements-IsCited draft d)))

  -- in a repaired draft, the validation finds only what a judgment must mend
  pub validate-AreSemantic :
      (draft : ReportDraft) → IsRepaired state draft → AreSemantic (validate state draft)
  unfolding validate check_statement_support check_query_boundaries
  validate-AreSemantic draft (d, hosts, confirmed) =
      let P = λ (i : ReportValidationIssue). is_semantic i.code ≡ true in
      let unknown = sorted_set (diff draft.query_boundary_refs (executed_query_ids state)) in
      All-++ P _ _
        (All-++ P _ _
          (All-++ P _ _
            (All-++ P _ _
              (All-++ P _ _ (cited_issues-AreSemantic draft d) (verdict_issues-AreSemantic draft))
              (statement_issues-AreSemantic (universe state) (statements draft)))
            (AreSemantic-nil _ (
              issue_unless_nil-eq-nil query_boundary_not_executed "query_boundary_refs" unknown
              ∙ (covered_iff draft.query_boundary_refs (executed_query_ids state)).1 d.boundaries)))
          (AreSemantic-nil _ (
            (check_scope_assertions-eq-nil draft state.scope).1 (
              (covered_iff draft.asserted_host_refs state.scope.host_ids).1 hosts,
              d.start,
              d.end,
            ))))
        (AreSemantic-nil _ ((check_relations-eq-nil draft state).1 (confirmed, d.no_candidate)))

-- the issues of the result are those of its draft
pub validate_and_backstop-issues :
    (state : InvestigationState) (draft : ReportDraft)
    → (validate_and_backstop state draft).issues
      ≡ validate state (validate_and_backstop state draft).draft
unfolding validate_and_backstop revalidated apply_assembly_backstops
validate_and_backstop-issues state draft = ground arith

backstop_step :
    (state : InvestigationState) (draft : ReportDraft)
    → is_nil (validate state draft) ≡ false
    → validate_and_backstop state draft
      ≡ revalidated state
          (validate state draft)
          (apply_assembly_backstops state draft (validate state draft))
unfolding validate_and_backstop
backstop_step state draft faulty = rw faulty

validate_and_backstop-AreSemantic :
    (state : InvestigationState) (draft : ReportDraft)
    → IsMechanical state draft
    → AreSemantic (validate_and_backstop state draft).issues
validate_and_backstop-AreSemantic state draft d =
    let issues = validate state draft in
    let step = λ (faulty : is_nil issues ≡ false). backstop_step state draft faulty in
    elim (Bool-cases (is_nil issues)) [
      | inl clean ↦ unfold validate_and_backstop in rw clean (AreSemantic-nil issues clean)
      | inr faulty ↦ elim (Bool-cases (is_changed state draft issues)) [
        | inl changed ↦
            let e : apply_assembly_backstops state draft issues ≡ (
              strip_issues (known_out_of_scope_refs state) issues draft (refill state issues draft),
              true,
            ) =
              unfold apply_assembly_backstops in rw changed in
            subst (λ c. AreSemantic c.issues) (sym (step faulty ∙ ap (revalidated state issues) e))
              (unfold revalidated in
                validate-AreSemantic state _ (strip_issues-IsRepaired state draft d))
        | inr same ↦
            let e : apply_assembly_backstops state draft issues ≡ (draft, false) =
              unfold apply_assembly_backstops in rw same in
            subst (λ c. AreSemantic c.issues) (sym (step faulty ∙ ap (revalidated state issues) e))
              (unfold revalidated in
                validate-AreSemantic state draft (unchanged-IsRepaired state draft d same))
      ]
    ]

-- Whatever judgment the model writes: after the assembly and the deterministic repairs, every issue that the
-- validation finds is a statement or a verdict without support; no unknown reference, query boundary, host,
-- time or relation goes back to the model. The issues are those of the draft that is kept.
pub assembled-AreSemantic :
    (state : InvestigationState) (judgment : InvestigationJudgment)
    → AreSemantic (assembled state (build state) judgment).issues
      × ((assembled state (build state) judgment).issues
          ≡ validate state (assembled state (build state) judgment).draft)
unfolding assembled
assembled-AreSemantic state judgment =
    let draft = (assemble_report_draft state judgment (build state)).0 in
    (
      validate_and_backstop-AreSemantic state draft
          (assemble_report_draft-IsMechanical state judgment),
      validate_and_backstop-issues state draft,
    )
