-- ===== src/Judgment/Assembly/Repaired.antt =====
-- judgment/application/report_assembly.py: the deterministic repairs and the mechanical parts of a draft.
use mathlib.Core.Path.{subst}
use unknown_file_threat_agen.Contracts.{InvestigationState}
use unknown_file_threat_agen.Judgment.Grounding.{
  host_assertion_out_of_scope, unknown_evidence_ref, ReportValidationIssue, ReportDraft,
  executed_query_ids, known_out_of_scope_refs, candidate_relation_ids, resolved_relation_ids,
  issue_unless_nil, check_scope_assertions, check_relations, precedes, validate,
}
use unknown_file_threat_agen.Judgment.Grounding.Refs.{Within}
use unknown_file_threat_agen.Judgment.Assembly.Backstops.{
  is_host, is_time, is_citation, has_code, same_texts, inside_hosts, moves_boundaries, moves_hosts,
  kept_relations, moves_relations, refill, strip_issues, is_changed,
}
use unknown_file_threat_agen.Judgment.Assembly.Mechanical.{
  IsMechanical, filter-Within, precedes-clamp_start, precedes-clamp_end,
}
use unknown_file_threat_agen.Judgment.Assembly.Stripped.{
  diff-Within, blames, strip_issues-IsMechanical, strip_issues-Narrows, strip_issues-blames,
}
use unknown_file_threat_agen.Prelude.{
  String, ◌≡◌, refl, sym, ◌∙◌, inl, inr, true, false, not, List, [], ◌∷◌, arith, eq_iff, if-All,
  Bool-cases, any, is_nil, any-append, mem, diff, sorted_set, str_refl, mem-diff, mem-sorted_set,
  covered_iff, mem-uncovered,
}

-- a draft whose mechanical parts are all right
abbrev pub IsRepaired : InvestigationState → ReportDraft → Type 0
IsRepaired state draft =
    IsMechanical state draft
    × Within draft.asserted_host_refs state.scope.host_ids
    × Within draft.confirmed_relation_refs (resolved_relation_ids state)

refill-IsMechanical :
    (state : InvestigationState) (issues : List ReportValidationIssue) (draft : ReportDraft)
    → IsMechanical state draft
    → IsMechanical state (refill state issues draft)
unfolding refill
refill-IsMechanical state issues draft d = record {
  supporting = d.supporting;
  contradicting = d.contradicting;
  evidence = d.evidence;
  current_situation_lem = d.current_situation_lem;
  affected_scope_lem = d.affected_scope_lem;
  key_evidence_lem = d.key_evidence_lem;
  counter_evidence_lem = d.counter_evidence_lem;
  boundaries =
      if-All (λ xs. Within xs (executed_query_ids state)) (moves_boundaries state draft issues)
        (λ a m. sym (mem-sorted_set a (executed_query_ids state)) ∙ m) d.boundaries;
  start =
      if-All (λ t. precedes t state.scope.start_time ≡ false) (has_code is_time issues)
        (precedes-clamp_start draft.asserted_start state.scope.start_time) d.start;
  end =
      if-All (λ t. precedes state.scope.end_time t ≡ false) (has_code is_time issues)
        (precedes-clamp_end draft.asserted_end state.scope.end_time) d.end;
  no_candidate =
      if-All (λ xs. (r : String) → mem r xs ≡ true → mem r (candidate_relation_ids state) ≡ false)
        (moves_relations state draft issues)
        (λ r m.
          unfold kept_relations in
          ground
            (arith, m, mem-diff r draft.confirmed_relation_refs (candidate_relation_ids state)))
        d.no_candidate;
}

refill-confirmed :
    (state : InvestigationState) (issues : List ReportValidationIssue) (draft : ReportDraft)
    → Within (refill state issues draft).confirmed_relation_refs draft.confirmed_relation_refs
unfolding refill
refill-confirmed state issues draft =
    if-All (λ xs. Within xs draft.confirmed_relation_refs) (moves_relations state draft issues)
      (unfold kept_relations in diff-Within draft.confirmed_relation_refs _ _ (λ a m. m)) (λ a m. m)

same_texts-eq : (xs ys : List String) → same_texts xs ys ≡ true → xs ≡ ys
unfolding same_texts
same_texts-eq [] [] h = refl
same_texts-eq (x ∷ xs) [] h = cc
same_texts-eq [] (y ∷ ys) h = cc
same_texts-eq (x ∷ xs) (y ∷ ys) h = ground (arith, h, eq_iff x y, same_texts-eq xs ys)

named_issue :
    (r : String) (refs : List String)
    → mem r refs ≡ true
    → any (blames r) (issue_unless_nil unknown_evidence_ref "confirmed_relation_refs" refs) ≡ true
unfolding issue_unless_nil is_citation
named_issue r [] m = unfold mem in cc
named_issue r (x ∷ xs) m = ground (arith, m, str_refl "confirmed_relation_refs")

hosts_issue :
    (refs : List String)
    → has_code is_host (issue_unless_nil host_assertion_out_of_scope "asserted_host_refs" refs)
      ≡ not (is_nil refs)
unfolding issue_unless_nil has_code is_host
hosts_issue [] = refl
hosts_issue (x ∷ xs) = refl

-- a confirmed relation that is not resolved is named by an issue
blamed :
    (state : InvestigationState) (draft : ReportDraft) (r : String)
    → mem r draft.confirmed_relation_refs ≡ true
    → mem r (resolved_relation_ids state) ≡ false
    → any (blames r) (validate state draft) ≡ true
unfolding validate check_relations
blamed state draft r m n =
    let S = sorted_set (diff draft.confirmed_relation_refs (resolved_relation_ids state)) in
    let named : mem r S ≡ true =
      ground (
        arith,
        m,
        n,
        mem-uncovered r draft.confirmed_relation_refs (resolved_relation_ids state),
      ) in
    simp any-append (ground (arith, named_issue r S named))

-- without an issue on the hosts, all of them are in the scope
hosts-Within :
    (state : InvestigationState) (draft : ReportDraft)
    → has_code is_host (validate state draft) ≡ false
    → Within draft.asserted_host_refs state.scope.host_ids
unfolding has_code
hosts-Within state draft h =
    let p = λ (i : ReportValidationIssue). is_host i.code in
    let outside = sorted_set (diff draft.asserted_host_refs state.scope.host_ids) in
    elim (Bool-cases (is_nil outside)) [
      | inl clean ↦ (covered_iff draft.asserted_host_refs state.scope.host_ids).0 clean
      | inr dirty ↦
          let loud : any p (validate state draft) ≡ true =
            unfold validate in
            unfold check_scope_assertions in
            simp any-append (ground (arith, hosts_issue outside, dirty)) in
          cc
    ]

hosts_kept :
    (state : InvestigationState) (draft : ReportDraft)
    → moves_hosts state draft (validate state draft) ≡ false
    → Within draft.asserted_host_refs state.scope.host_ids
unfolding moves_hosts
hosts_kept state draft kept = elim (Bool-cases (has_code is_host (validate state draft))) [
  | inr silent ↦ hosts-Within state draft silent
  | inl found ↦
      let same : same_texts (inside_hosts state draft) draft.asserted_host_refs ≡ true =
        ground (arith, kept, found) in
      let e = same_texts-eq (inside_hosts state draft) draft.asserted_host_refs same in
      subst (λ xs. Within xs state.scope.host_ids) e
        (unfold inside_hosts in filter-Within draft.asserted_host_refs state.scope.host_ids)
]

-- the repair of the hosts
refill_hosts :
    (state : InvestigationState) (draft : ReportDraft)
    → Within (refill state (validate state draft) draft).asserted_host_refs state.scope.host_ids
unfolding refill
refill_hosts state draft = elim (Bool-cases (moves_hosts state draft (validate state draft))) [
  | inl moved ↦ rw moved (
      if-All (λ xs. Within xs state.scope.host_ids) (is_nil (inside_hosts state draft)) (λ a m. m)
        (unfold inside_hosts in filter-Within draft.asserted_host_refs state.scope.host_ids))
  | inr kept ↦ rw kept (hosts_kept state draft kept)
]

pub strip_issues-IsRepaired :
    (state : InvestigationState) (draft : ReportDraft)
    → IsMechanical state draft
    → IsRepaired state (
        strip_issues
          (known_out_of_scope_refs state)
          (validate state draft)
          draft
          (refill state (validate state draft) draft))
strip_issues-IsRepaired state draft d =
    let issues = validate state draft in
    let forbidden = known_out_of_scope_refs state in
    let filled = refill state issues draft in
    let narrow = strip_issues-Narrows forbidden issues draft filled in
    (
      strip_issues-IsMechanical state forbidden issues draft filled d
          (refill-IsMechanical state issues draft d),
      subst (λ xs. Within xs state.scope.host_ids) (sym narrow.0) (refill_hosts state draft),
      λ r m. elim (Bool-cases (mem r (resolved_relation_ids state))) [
        | inl known ↦ known
        | inr unknown ↦
            let confirmed = refill-confirmed state issues draft r (narrow.1 r m) in
            let gone =
              strip_issues-blames forbidden issues draft filled r
                (blamed state draft r confirmed unknown) in
            cc
      ],
    )

blames_citation :
    (r : String) (issues : List ReportValidationIssue)
    → any (blames r) issues ≡ true
    → has_code is_citation issues ≡ true
unfolding has_code
blames_citation r [] h = cc
blames_citation r (i ∷ issues) h = ground (arith, h, blames_citation r issues)

-- where nothing is changed, nothing was wrong
pub unchanged-IsRepaired :
    (state : InvestigationState) (draft : ReportDraft)
    → IsMechanical state draft
    → is_changed state draft (validate state draft) ≡ false
    → IsRepaired state draft
unfolding is_changed
unchanged-IsRepaired state draft d same = (
  d,
  hosts_kept state draft (ground (arith, same)),
  λ r m. elim (Bool-cases (mem r (resolved_relation_ids state))) [
    | inl known ↦ known
    | inr unknown ↦
        let found = blames_citation r (validate state draft) (blamed state draft r m unknown) in
        let silent : has_code is_citation (validate state draft) ≡ false = ground (arith, same) in
        cc
  ],
)
