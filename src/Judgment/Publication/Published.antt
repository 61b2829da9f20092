-- ===== src/Judgment/Publication/Published.antt =====
-- judgment/application/graph.py: the published reports, and the grounding of a draft at the gate.
use unknown_file_threat_agen.Contracts.{
  InvestigationState, insufficient_evidence, confirmed_malicious, grounded, fallback,
}
use unknown_file_threat_agen.Judgment.EvidenceGate.{required_capabilities}
use unknown_file_threat_agen.Judgment.EvidenceGate.Floor.{
  Covers, gate_verdict_sound, gate_verdict-lowers,
}
use unknown_file_threat_agen.Judgment.Grounding.{
  ReportValidationIssue, ReportDraft, executed_query_ids, validate, is_insufficient, statements,
}
use unknown_file_threat_agen.Judgment.Grounding.Refs.{Within}
use unknown_file_threat_agen.Judgment.Grounding.Clean.{IsGrounded, validate_iff}
use unknown_file_threat_agen.Judgment.Repair.{RepairOutcome, Composer, evaluate}
use unknown_file_threat_agen.Judgment.Repair.Bounds.{evaluate-IsSound}
use unknown_file_threat_agen.Judgment.Publication.{
  build_fallback, Publication, validation_error, gate_draft, finish, publish_outcome,
  publish_investigation_report,
}
use unknown_file_threat_agen.Prelude.{
  ℕ, ◌≤◌, String, ◌≡◌, refl, sym, ◌∙◌, ◌↔◌, inl, inr, true, false, not, Option, some, List, [], map,
  arith, Bool-cases, is_nil, mem, mem-sorted_set,
}

Within-nil : (ys : List String) → Within [] ys
unfolding mem
Within-nil ys a m = cc

-- The fallback report has no issue, whatever the state and the issues that led to it.
pub build_fallback-IsGrounded :
    (state : InvestigationState) (issues : List ReportValidationIssue)
    → IsGrounded state (build_fallback state issues)
unfolding build_fallback
build_fallback-IsGrounded state issues = record {
  supporting = Within-nil _;
  contradicting = Within-nil _;
  evidence = Within-nil _;
  material = unfold statements in tt;
  verdict_support = unfold is_insufficient in λ h. cc;
  boundaries = λ a m. sym (mem-sorted_set a (executed_query_ids state)) ∙ m;
  hosts = λ a m. m;
  start = λ t u e f. ground (arith, e, f);
  end = λ t u e f. ground (arith, e, f);
  confirmed = Within-nil _;
  no_candidate = λ r m. unfold mem in cc;
}

-- a gated draft differs in its verdict's level and limitations
gate_draft-IsGrounded :
    (state : InvestigationState) (draft : ReportDraft)
    → IsGrounded state draft
    → IsGrounded state (gate_draft state draft)
unfolding gate_draft
gate_draft-IsGrounded state draft g = elim (gate_verdict-lowers state draft.verdict) [
  | inl same ↦ rw same g
  | inr lowered ↦ record {
    supporting = rw lowered.3 g.supporting;
    contradicting = rw lowered.4 g.contradicting;
    evidence = g.evidence;
    material = unfold statements in g.material;
    verdict_support =
        λ h. rw lowered.3 (g.verdict_support (rw lowered.0 (unfold is_insufficient in refl)));
    boundaries = g.boundaries;
    hosts = g.hosts;
    start = g.start;
    end = g.end;
    confirmed = g.confirmed;
    no_candidate = g.no_candidate;
  }
]

-- A draft without issues has none after the gate: the final validation of the flow cannot fail.
pub validate-gate_draft :
    (state : InvestigationState) (draft : ReportDraft)
    → is_nil (validate state draft) ≡ true
    → is_nil (validate state (gate_draft state draft)) ≡ true
validate-gate_draft state draft h =
    (validate_iff state (gate_draft state draft)).1
      (gate_draft-IsGrounded state draft ((validate_iff state draft).0 h))

-- a report without statements, scenarios and citations, whose boundary is the queries that were executed
pub record IsBare (state : InvestigationState) (report : ReportDraft) : Type 0 where
  pub supporting : report.verdict.supporting_refs ≡ []
  pub contradicting : report.verdict.contradicting_refs ≡ []
  pub evidence : report.supporting_evidence_refs ≡ []
  pub relations : report.confirmed_relation_refs ≡ []
  pub scenarios : report.threat_scenarios ≡ []
  pub said : statements report ≡ []
  pub boundary : (a : String) → mem a report.query_boundary_refs ≡ mem a (executed_query_ids state)

build_fallback-IsBare :
    (state : InvestigationState) (issues : List ReportValidationIssue)
    → IsBare state (build_fallback state issues)
unfolding build_fallback statements
build_fallback-IsBare state issues = record {
  supporting = refl;
  contradicting = refl;
  evidence = refl;
  relations = refl;
  scenarios = refl;
  said = refl;
  boundary = λ a. mem-sorted_set a (executed_query_ids state);
}

-- what a publication promises
pub record IsTrustworthy (state : InvestigationState) (p : Publication) : Type 0 where
  pub report : IsGrounded state p.report
  pub floor :
      p.report.verdict.level ≡ confirmed_malicious
      → (c : String) → mem c (required_capabilities p.report.verdict.threat_type) ≡ true
      → Covers state p.report.verdict c
  pub fallback_lem :
      p.publication_status ≡ fallback
      → (p.report.verdict.level ≡ insufficient_evidence) × IsBare state p.report

module _ (state : InvestigationState) (o : RepairOutcome) where
  fallback-IsTrustworthy :
      (issues : List ReportValidationIssue) (errors : List String)
      → IsTrustworthy state (record {
        report = build_fallback state issues;
        publication_status = fallback;
        report_validation_errors = errors;
        report_rejudgments_used = o.rejudgments_used;
      })
  fallback-IsTrustworthy issues errors = record {
    report = build_fallback-IsGrounded state issues;
    floor = unfold build_fallback in λ h. cc;
    fallback_lem = λ h. (unfold build_fallback in refl, build_fallback-IsBare state issues);
  }

  gated_floor :
      (gate_draft state o.draft).verdict.level ≡ confirmed_malicious
      → (c : String)
      → mem c (required_capabilities (gate_draft state o.draft).verdict.threat_type) ≡ true
      → Covers state (gate_draft state o.draft).verdict c
  unfolding gate_draft
  gated_floor h c m =
      let s = gate_verdict_sound state o.draft.verdict h in rw s.0 (s.1 c (rw s.0 at m))

  grounded-IsTrustworthy :
      (errors : List String)
      → is_nil (validate state o.draft) ≡ true
      → IsTrustworthy state (record {
        report = gate_draft state o.draft;
        publication_status = grounded;
        report_validation_errors = errors;
        report_rejudgments_used = o.rejudgments_used;
      })
  grounded-IsTrustworthy errors clean = record {
    report = gate_draft-IsGrounded state o.draft ((validate_iff state o.draft).0 clean);
    floor = gated_floor;
    fallback_lem = λ h. cc;
  }

  -- the branches of the flow
  publish_outcome-clean :
      is_nil o.issues ≡ true
      → is_nil (validate state (gate_draft state o.draft)) ≡ true
      → publish_outcome state o ≡ record {
        report = gate_draft state o.draft;
        publication_status = grounded;
        report_validation_errors = [];
        report_rejudgments_used = o.rejudgments_used;
      }
  unfolding publish_outcome finish
  publish_outcome-clean e f = ground arith

  publish_outcome-faulty :
      is_nil o.issues ≡ false
      → publish_outcome state o ≡ record {
        report = build_fallback state o.issues;
        publication_status = fallback;
        report_validation_errors = map validation_error o.issues;
        report_rejudgments_used = o.rejudgments_used;
      }
  unfolding publish_outcome finish
  publish_outcome-faulty e = ground arith

  pub publish_outcome-IsTrustworthy :
      o.issues ≡ validate state o.draft → IsTrustworthy state (publish_outcome state o)
  publish_outcome-IsTrustworthy same = elim (Bool-cases (is_nil o.issues)) [
    | inr faulty ↦
        rw (publish_outcome-faulty faulty)
          (fallback-IsTrustworthy o.issues (map validation_error o.issues))
    | inl clean ↦
        let c : is_nil (validate state o.draft) ≡ true = rw (← same) clean in
        rw (publish_outcome-clean clean (validate-gate_draft state o.draft c))
          (grounded-IsTrustworthy [] c)
  ]

pub publish_outcome-used :
    (state : InvestigationState) (o : RepairOutcome)
    → (publish_outcome state o).report_rejudgments_used ≡ o.rejudgments_used
unfolding publish_outcome
publish_outcome-used state o = ground arith

-- an outcome without issues is published as the gate leaves it
pub publish_outcome-report :
    (state : InvestigationState) (o : RepairOutcome)
    → o.issues ≡ validate state o.draft
    → is_nil o.issues ≡ true
    → (publish_outcome state o).report ≡ gate_draft state o.draft
publish_outcome-report state o same clean =
    let c : is_nil (validate state o.draft) ≡ true = rw (← same) clean in
    rw (publish_outcome-clean state o clean (validate-gate_draft state o.draft c)) refl

pub publish_outcome-fallback :
    (state : InvestigationState) (o : RepairOutcome)
    → o.issues ≡ validate state o.draft
    → o.exhausted ≡ not (is_nil o.issues)
    → ((publish_outcome state o).publication_status ≡ fallback) ↔ (o.exhausted ≡ true)
publish_outcome-fallback state o same ended = elim (Bool-cases (is_nil o.issues)) [
  | inr faulty ↦ rw (publish_outcome-faulty state o faulty) (ground (arith, faulty, ended))
  | inl clean ↦
      let c : is_nil (validate state o.draft) ≡ true = rw (← same) clean in
      rw (publish_outcome-clean state o clean (validate-gate_draft state o.draft c))
        (ground (arith, clean, ended))
]

-- Whatever the language model answers: if it composes a first draft, a report is published, and it is
-- grounded; a `confirmed_malicious` verdict in it is covered by cited evidence; a fallback report
-- says `insufficient_evidence`, has no statement, no scenario and no citation of an activity, an evidence or a
-- relation, and lists the executed queries as its boundary. At most the allowed number of rejudgments is used,
-- and the fallback is published exactly when the repaired draft still has an issue.
pub publish_investigation_report-IsTrustworthy :
    (compose_draft : InvestigationState → Option ReportDraft) (rejudge : Composer)
    (state : InvestigationState) (budget : ℕ) (draft : ReportDraft)
    → compose_draft state ≡ some draft
    → (p : Publication) × (publish_investigation_report compose_draft rejudge state budget ≡ some p)
      × IsTrustworthy state p
      × (p.report_rejudgments_used ≤ budget)
      × ((p.publication_status ≡ fallback)
          ↔ ((evaluate rejudge state draft budget).exhausted ≡ true))
unfolding publish_investigation_report
publish_investigation_report-IsTrustworthy compose_draft rejudge state budget draft composed =
    let o = evaluate rejudge state draft budget in
    let s = evaluate-IsSound rejudge state draft budget in
    (
      publish_outcome state o,
      rw (composed, publish_investigation_report),
      publish_outcome-IsTrustworthy state o s.revalidated,
      rw publish_outcome-used s.at_most,
      publish_outcome-fallback state o s.revalidated s.exhausted_lem,
    )
