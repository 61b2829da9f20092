-- ===== src/Judgment/Grounding/Clean.antt =====
-- judgment/application/report_validation.py: the drafts without issues.
use unknown_file_threat_agen.Contracts.{InvestigationState, ReportStatement, Scope}
use unknown_file_threat_agen.Judgment.Grounding.{
  ReportDraft, authorized_evidence_refs, executed_query_ids, resolved_relation_ids,
  candidate_relation_ids, known_out_of_scope_refs, check_refs, statement_location, statements,
  check_cited_refs, is_insufficient, check_verdict_support, check_statement_support, cited_issue,
  statement_issue, relation_not_confirmed, unknown_evidence_ref, issue_unless_nil,
  check_query_boundaries, precedes, time_issue, check_scope_assertions, check_relations, validate,
}
use unknown_file_threat_agen.Judgment.Grounding.Refs.{
  Within, check_refs-eq-nil, issue_unless_nil-eq-nil,
}
use unknown_file_threat_agen.Prelude.{
  ℕ, ◌≤◌, String, ◌≡◌, refl, ◌↔◌, inl, inr, true, false, Option, none, some, List, [], ◌∷◌, ◌++◌,
  arith, ◌==◌, eq_iff, Bool-cases, filter_by, is_nil, is_nil-append, All, concat_map, mem, diff,
  sorted_set, str_refl, mem-append, sorted_set-eq-nil, covered_iff,
}

-- a statement cites something, and only what the universe holds
pub record IsSupported (universe : List String) (s : String × ReportStatement) : Type 0 where
  pub cites : is_nil s.1.supporting_refs ≡ false
  pub known : Within s.1.supporting_refs universe

-- the description of a grounded draft
pub record IsGrounded (state : InvestigationState) (draft : ReportDraft) : Type 0 where
  pub supporting : Within draft.verdict.supporting_refs (authorized_evidence_refs state)
  pub contradicting : Within draft.verdict.contradicting_refs (authorized_evidence_refs state)
  pub evidence : Within draft.supporting_evidence_refs (authorized_evidence_refs state)
  pub material :
      All
        (IsSupported (authorized_evidence_refs state ++ executed_query_ids state))
        (statements draft)
  pub verdict_support :
      is_insufficient draft.verdict.level ≡ false → is_nil draft.verdict.supporting_refs ≡ false
  pub boundaries : Within draft.query_boundary_refs (executed_query_ids state)
  pub hosts : Within draft.asserted_host_refs state.scope.host_ids
  pub start : (t u : ℕ) → draft.asserted_start ≡ some t → state.scope.start_time ≡ some u → u ≤ t
  pub end : (t u : ℕ) → state.scope.end_time ≡ some t → draft.asserted_end ≡ some u → u ≤ t
  pub confirmed : Within draft.confirmed_relation_refs (resolved_relation_ids state)
  pub no_candidate :
      (r : String)
      → mem r draft.confirmed_relation_refs ≡ true
      → mem r (candidate_relation_ids state) ≡ false

-- the sources of a grounded statement: if a list is within the universe, its valid part is itself
valid_part :
    (refs universe : List String)
    → Within refs universe
    → is_nil (filter_by (λ ref. mem ref universe) refs) ≡ is_nil refs
valid_part [] universe w = refl
valid_part (r ∷ rs) universe w = ground (arith, w r (unfold mem in ground (arith, str_refl r)))

statement_issue-eq-nil :
    (universe : List String) (s : String × ReportStatement)
    → Within s.1.supporting_refs universe
    → (is_nil (statement_issue universe s) ≡ true) ↔ (is_nil s.1.supporting_refs ≡ false)
unfolding statement_issue
statement_issue-eq-nil universe s w = ground (arith, valid_part s.1.supporting_refs universe w)

pub cited_issue-eq-nil :
    (authorized forbidden universe : List String)
    → Within authorized universe
    → (s : String × ReportStatement)
    → (is_nil (cited_issue authorized forbidden universe s) ≡ true)
      ↔ Within s.1.supporting_refs universe
unfolding cited_issue
cited_issue-eq-nil authorized forbidden universe w s =
    check_refs-eq-nil authorized forbidden s.1.supporting_refs universe (statement_location s.0 s.1)
      w

-- the two passes over the statements, joined
statements_iff :
    (authorized forbidden universe : List String)
    → Within authorized universe
    → (xs : List (String × ReportStatement))
    → ((is_nil (concat_map (cited_issue authorized forbidden universe) xs) ≡ true)
        × (is_nil (concat_map (statement_issue universe) xs) ≡ true))
      ↔ All (IsSupported universe) xs
statements_iff authorized forbidden universe w [] = (λ h. tt, λ h. (refl, refl))
statements_iff authorized forbidden universe w (s ∷ xs) =
    let rest = statements_iff authorized forbidden universe w xs in
    let cited =
      is_nil-append (cited_issue authorized forbidden universe s)
        (concat_map (cited_issue authorized forbidden universe) xs) in
    let support =
      is_nil-append (statement_issue universe s) (concat_map (statement_issue universe) xs) in
    let refs = cited_issue-eq-nil authorized forbidden universe w s in
    (
      λ h.
          let known = refs.0 (ground (arith, h.0, cited)) in
          (
            record {
              cites = (statement_issue-eq-nil universe s known).0 (ground (arith, h.1, support));
              known = known;
            },
            rest.0 (ground (arith, h.0, cited), ground (arith, h.1, support)),
          ),
      λ p.
          let later = rest.1 p.1 in
          (
            ground (arith, cited, refs.1 p.0.known, later.0),
            ground (
              arith,
              support,
              (statement_issue-eq-nil universe s p.0.known).1 p.0.cites,
              later.1,
            ),
          ),
    )

pub precedes_iff :
    (a b : Option ℕ) → (precedes a b ≡ false) ↔ ((t u : ℕ) → a ≡ some t → b ≡ some u → u ≤ t)
unfolding precedes
precedes_iff none b = (λ h t u e f. cc, λ h. refl)
precedes_iff (some x) none = (λ h t u e f. cc, λ h. refl)
precedes_iff (some x) (some y) = (λ h t u e f. ground arith, λ h. ground (arith, h x y refl refl))

pub check_scope_assertions-eq-nil :
    (draft : ReportDraft) (scope : Scope)
    → (is_nil (check_scope_assertions draft scope) ≡ true) ↔ (
        (is_nil (sorted_set (diff draft.asserted_host_refs scope.host_ids)) ≡ true)
        × (precedes draft.asserted_start scope.start_time ≡ false)
        × (precedes scope.end_time draft.asserted_end ≡ false))
unfolding check_scope_assertions time_issue
check_scope_assertions-eq-nil draft scope = ground arith

-- no confirmed relation is a candidate
none_of :
    (xs ys : List String)
    → (is_nil (filter_by (λ r. mem r ys) xs) ≡ true)
      ↔ ((r : String) → mem r xs ≡ true → mem r ys ≡ false)
none_of [] ys = (λ h r m. unfold mem in cc, λ h. refl)
none_of (x ∷ xs) ys =
    let rest = none_of xs ys in
    (
      λ h r m. elim (Bool-cases (r == x)) [
        | inl same ↦ rw ((eq_iff r x).0 same) (ground (arith, h))
        | inr other ↦ rest.0 (ground (arith, h)) r (unfold mem in ground (arith, m, other))
      ],
      λ h. ground (
        arith,
        h x (unfold mem in ground (arith, str_refl x)),
        rest.1 (λ r m. h r (unfold mem in ground (arith, m))),
      ),
    )

pub check_relations-eq-nil :
    (draft : ReportDraft) (state : InvestigationState)
    → (is_nil (check_relations draft state) ≡ true) ↔ (
        Within draft.confirmed_relation_refs (resolved_relation_ids state)
        × ((r : String)
            → mem r draft.confirmed_relation_refs ≡ true
            → mem r (candidate_relation_ids state) ≡ false))
unfolding check_relations
check_relations-eq-nil draft state =
    let candidates = candidate_relation_ids state in
    let refs = draft.confirmed_relation_refs in
    let found = filter_by (λ ref. mem ref candidates) refs in
    let unknown = sorted_set (diff refs (resolved_relation_ids state)) in
    let known = covered_iff refs (resolved_relation_ids state) in
    let split =
      is_nil-append
        (issue_unless_nil relation_not_confirmed "confirmed_relation_refs" (sorted_set found))
        (issue_unless_nil unknown_evidence_ref "confirmed_relation_refs" unknown) in
    let first =
      issue_unless_nil-eq-nil relation_not_confirmed "confirmed_relation_refs" (sorted_set found) in
    let second = issue_unless_nil-eq-nil unknown_evidence_ref "confirmed_relation_refs" unknown in
    let sorted = sorted_set-eq-nil found in
    (
      λ h. (
        known.0 (ground (arith, h, split, second)),
        (none_of refs candidates).0 (ground (arith, h, split, first, sorted)),
      ),
      λ p.
          ground
            (arith, split, first, second, sorted, known.1 p.0, (none_of refs candidates).1 p.1),
    )

pub check_verdict_support-eq-nil :
    (draft : ReportDraft)
    → (is_nil (check_verdict_support draft) ≡ true)
      ↔ (is_insufficient draft.verdict.level ≡ false → is_nil draft.verdict.supporting_refs ≡ false)
unfolding check_verdict_support
check_verdict_support-eq-nil draft = ground arith

pub in_append_left : (a : String) (xs ys : List String) → mem a xs ≡ true → mem a (xs ++ ys) ≡ true
in_append_left a xs ys m = ground (arith, m, mem-append a xs ys)

-- the parts of the validation, as tests
abbrev Parts : InvestigationState → ReportDraft → Type 0
Parts state draft =
    let authorized = authorized_evidence_refs state in
    let forbidden = known_out_of_scope_refs state in
    let universe = authorized ++ executed_query_ids state in
    (is_nil (
        check_refs authorized forbidden draft.verdict.supporting_refs "verdict.supporting_refs"
          authorized)
      ≡ true)
    × (is_nil (
          check_refs authorized forbidden draft.verdict.contradicting_refs
            "verdict.contradicting_refs" authorized)
        ≡ true)
    × (is_nil (
          check_refs authorized forbidden draft.supporting_evidence_refs "supporting_evidence_refs"
            authorized)
        ≡ true)
    × ((is_nil (concat_map (cited_issue authorized forbidden universe) (statements draft)) ≡ true)
        × (is_nil (concat_map (statement_issue universe) (statements draft)) ≡ true))
    × (is_nil (check_verdict_support draft) ≡ true)
    × (is_nil (sorted_set (diff draft.query_boundary_refs (executed_query_ids state))) ≡ true)
    × (is_nil (check_scope_assertions draft state.scope) ≡ true)
    × (is_nil (check_relations draft state) ≡ true)

validate-Parts :
    (state : InvestigationState) (draft : ReportDraft)
    → (is_nil (validate state draft) ≡ true) ↔ Parts state draft
unfolding validate check_cited_refs check_statement_support check_query_boundaries
validate-Parts state draft = simp (is_nil-append, issue_unless_nil-eq-nil) (ground arith)

pub validate_iff :
    (state : InvestigationState) (draft : ReportDraft)
    → (is_nil (validate state draft) ≡ true) ↔ IsGrounded state draft
validate_iff state draft =
    let parts = validate-Parts state draft in
    let authorized = authorized_evidence_refs state in
    let forbidden = known_out_of_scope_refs state in
    let queries = executed_query_ids state in
    let same = λ (a : String) (m : mem a authorized ≡ true). m in
    let wider =
      λ (a : String) (m : mem a authorized ≡ true). in_append_left a authorized queries m in
    let cited = λ (refs : List String) (location : String).
      check_refs-eq-nil authorized forbidden refs authorized location same in
    let supporting = cited draft.verdict.supporting_refs "verdict.supporting_refs" in
    let contradicting = cited draft.verdict.contradicting_refs "verdict.contradicting_refs" in
    let evidence = cited draft.supporting_evidence_refs "supporting_evidence_refs" in
    let material =
      statements_iff authorized forbidden (authorized ++ queries) wider (statements draft) in
    let support = check_verdict_support-eq-nil draft in
    let boundaries = covered_iff draft.query_boundary_refs queries in
    let scope = check_scope_assertions-eq-nil draft state.scope in
    let hosts = covered_iff draft.asserted_host_refs state.scope.host_ids in
    let start = precedes_iff draft.asserted_start state.scope.start_time in
    let end = precedes_iff state.scope.end_time draft.asserted_end in
    let relations = check_relations-eq-nil draft state in
    (
      λ h.
          let p = parts.0 h in
          let times = scope.0 p.6 in
          record {
            supporting = supporting.0 p.0;
            contradicting = contradicting.0 p.1;
            evidence = evidence.0 p.2;
            material = material.0 p.3;
            verdict_support = support.0 p.4;
            boundaries = boundaries.0 p.5;
            hosts = hosts.0 times.0;
            start = start.0 times.1;
            end = end.0 times.2;
            confirmed = (relations.0 p.7).0;
            no_candidate = (relations.0 p.7).1;
          },
      λ g. parts.1 (
        supporting.1 g.supporting,
        contradicting.1 g.contradicting,
        evidence.1 g.evidence,
        material.1 g.material,
        support.1 g.verdict_support,
        boundaries.1 g.boundaries,
        scope.1 (hosts.1 g.hosts, start.1 g.start, end.1 g.end),
        relations.1 (g.confirmed, g.no_candidate),
      ),
    )
