-- ===== src/Judgment/Assembly/Trusted.antt =====
-- judgment/application/report_assembly.py: what the assembled pipeline publishes.
use unknown_file_threat_agen.Contracts.{InvestigationState, fallback}
use unknown_file_threat_agen.Judgment.Grounding.{ReportDraft, validate}
use unknown_file_threat_agen.Judgment.Publication.{Publication}
use unknown_file_threat_agen.Judgment.Repair.{RepairOutcome, Composer}
use unknown_file_threat_agen.Judgment.Publication.{
  finish, gate_draft, publish_outcome, publish_investigation_report,
}
use unknown_file_threat_agen.Judgment.Publication.Published.{
  IsTrustworthy, publish_outcome-IsTrustworthy, publish_outcome-used, publish_outcome-fallback,
  publish_outcome-report, publish_investigation_report-IsTrustworthy,
}
use unknown_file_threat_agen.Judgment.Assembly.Catalog.{InvestigationJudgment, build}
use unknown_file_threat_agen.Judgment.Assembly.Flow.{
  JudgmentComposer, Checked, assembled, rejudge_loop, gate_checked, publish_checked,
  publish_report_via_assembly, publish_with_pipeline,
}
use unknown_file_threat_agen.Judgment.Assembly.Semantic.{AreSemantic, assembled-AreSemantic}
use unknown_file_threat_agen.Prelude.{
  ℕ, zero, suc, ◌+◌, ◌≤◌, ◌≡◌, refl, ap, ◌↔◌, inl, inr, true, not, Option, none, some, [], arith,
  Bool-cases, Option-cases, is_nil,
}

-- the issues of a checked draft are its own, and only semantic ones
abbrev IsChecked : InvestigationState → Checked → Type 0
IsChecked state c = AreSemantic c.issues × (c.issues ≡ validate state c.draft)

-- the result of the loop
abbrev IsLooped : InvestigationState → ℕ → Checked × ℕ → Type 0
IsLooped state budget r = IsChecked state r.0 × (r.1 ≤ budget)

rejudge_loop-IsLooped :
    (composer : JudgmentComposer) (state : InvestigationState) (left attempts : ℕ)
    (judgment : InvestigationJudgment) (c : Checked)
    → IsChecked state c
    → IsLooped state
        (attempts + left)
        (rejudge_loop composer state (build state) left attempts judgment c)
unfolding rejudge_loop
rejudge_loop-IsLooped composer state zero attempts judgment c h = (h, omega arith)
rejudge_loop-IsLooped composer state (suc left) attempts judgment c h =
    elim (Bool-cases (is_nil c.issues)) [
      | inl clean ↦ rw (clean, rejudge_loop) (h, omega arith)
      | inr faulty ↦
          elim (Option-cases
            (composer.rejudge_judgment state judgment (build state) c.issues (attempts + 1))) [
              | inl raised ↦ rw (faulty, raised, rejudge_loop) (h, omega arith)
              | inr (next, answered) ↦
                  let rest =
                    rejudge_loop-IsLooped composer state left (attempts + 1) next
                      (assembled state (build state) next) (assembled-AreSemantic state next) in
                  rw (faulty, answered, rejudge_loop) (rest.0, omega (arith, rest.1))
            ]
    ]

-- the checked draft as an outcome of the older flow's repair
abbrev outcome_of : Checked → ℕ → RepairOutcome
outcome_of c used = record {
  draft = c.draft;
  issues = c.issues;
  rejudgments_used = used;
  exhausted = not (is_nil c.issues);
  events = [];
}

-- both flows publish alike
publish_checked-publish_outcome :
    (state : InvestigationState) (c : Checked) (used : ℕ)
    → publish_checked state (gate_checked state c) used ≡ publish_outcome state (outcome_of c used)
unfolding publish_checked gate_checked publish_outcome finish
publish_checked-publish_outcome state c used = elim (Bool-cases (is_nil c.issues)) [
  | inl clean ↦ rw clean
  | inr faulty ↦ rw faulty
]

pipeline_failed :
    (composer : JudgmentComposer) (state : InvestigationState)
    → composer.synthesize state (build state) ≡ none
    → publish_report_via_assembly composer state ≡ none
unfolding publish_report_via_assembly
pipeline_failed composer state failed = rw (failed, publish_report_via_assembly)

-- the loop, from the first judgment on
abbrev pub looped : JudgmentComposer → InvestigationState → InvestigationJudgment → Checked × ℕ
looped composer state judgment =
    rejudge_loop composer state (build state) state.budget.max_report_rejudgments 0 judgment
      (assembled state (build state) judgment)

pipeline_published :
    (composer : JudgmentComposer) (state : InvestigationState) (judgment : InvestigationJudgment)
    → composer.synthesize state (build state) ≡ some judgment
    → publish_report_via_assembly composer state
      ≡ some (
          publish_outcome state
            (outcome_of (looped composer state judgment).0 (looped composer state judgment).1))
unfolding publish_report_via_assembly
pipeline_published composer state judgment answered =
    rw (answered, publish_report_via_assembly)
      (ap some (
        publish_checked-publish_outcome state (looped composer state judgment).0
          (looped composer state judgment).1))

-- Whatever the language model answers, once its first synthesis succeeds: the assembled pipeline publishes a grounded
-- report, in which a `confirmed_malicious` verdict is covered by cited evidence; a fallback says
-- `insufficient_evidence`, has no statement, no scenario and no citation of an activity, an evidence or a relation, and
-- lists the executed queries as its boundary. At most the budgeted number of rejudgments is used. The fallback is
-- published exactly when the draft that the loop of rejudgments ends with has an issue, otherwise that draft as the
-- gate leaves it; its issues are those that the validation finds in it, all of them statements or verdicts without
-- support.
pub publish_report_via_assembly_lem :
    (composer : JudgmentComposer) (state : InvestigationState) (judgment : InvestigationJudgment)
    → composer.synthesize state (build state) ≡ some judgment
    → (p : Publication) × (publish_report_via_assembly composer state ≡ some p)
      × IsTrustworthy state p
      × (p.report_rejudgments_used ≤ state.budget.max_report_rejudgments)
      × (let last = (looped composer state judgment).0 in
          AreSemantic last.issues
          × (last.issues ≡ validate state last.draft)
          × ((p.publication_status ≡ fallback) ↔ (not (is_nil last.issues) ≡ true))
          × (is_nil last.issues ≡ true → p.report ≡ gate_draft state last.draft))
publish_report_via_assembly_lem composer state judgment answered =
    let r = looped composer state judgment in
    let o = outcome_of r.0 r.1 in
    let l =
      rejudge_loop-IsLooped composer state state.budget.max_report_rejudgments 0 judgment
        (assembled state (build state) judgment) (assembled-AreSemantic state judgment) in
    (
      publish_outcome state o,
      pipeline_published composer state judgment answered,
      publish_outcome-IsTrustworthy state o l.0.1,
      omega (arith, l.1, publish_outcome-used state o),
      (
        l.0.0,
        l.0.1,
        publish_outcome-fallback state o l.0.1 refl,
        publish_outcome-report state o l.0.1,
      ),
    )

-- what the caller of the publication relies on
abbrev pub IsPublished : InvestigationState → Option Publication → Type 0
IsPublished state out =
    (p : Publication) × (out ≡ some p)
    × IsTrustworthy state p
    × (p.report_rejudgments_used ≤ state.budget.max_report_rejudgments)

older-IsPublished :
    (compose_draft : InvestigationState → Option ReportDraft) (rejudge : Composer)
    (state : InvestigationState) (draft : ReportDraft)
    → compose_draft state ≡ some draft
    → IsPublished state (
        publish_investigation_report compose_draft rejudge state
          state.budget.max_report_rejudgments)
older-IsPublished compose_draft rejudge state draft composed =
    let r =
      publish_investigation_report-IsTrustworthy compose_draft rejudge state
        state.budget.max_report_rejudgments draft composed in
    (r.0, r.1, r.2, r.3)

-- The pipeline degrades and never blocks: if the older flow could compose a first draft, a report is published
-- whether there is an assembled pipeline or not and whatever its model answers or raises; the report is grounded,
-- its confirmed verdict is covered by cited evidence, and the rejudgments are within the budget.
pub publish_with_pipeline-IsPublished :
    (pipeline : Option JudgmentComposer) (compose_draft : InvestigationState → Option ReportDraft)
    (rejudge : Composer) (state : InvestigationState) (draft : ReportDraft)
    → compose_draft state ≡ some draft
    → IsPublished state (publish_with_pipeline pipeline compose_draft rejudge state)
unfolding publish_with_pipeline
publish_with_pipeline-IsPublished none compose_draft rejudge state draft composed =
    older-IsPublished compose_draft rejudge state draft composed
publish_with_pipeline-IsPublished (some composer) compose_draft rejudge state draft composed =
    elim (Option-cases (composer.synthesize state (build state))) [
      | inl failed ↦
          rw (pipeline_failed composer state failed, publish_with_pipeline)
            (older-IsPublished compose_draft rejudge state draft composed)
      | inr (judgment, answered) ↦
          let r = publish_report_via_assembly_lem composer state judgment answered in
          rw (r.1, publish_with_pipeline) (r.0, refl, r.2, r.3)
    ]
