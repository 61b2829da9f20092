-- ===== src/Judgment/Assembly/Flow.antt =====
-- judgment/application/report_assembly.py, `publish_report_via_assembly`: synthesis, assembly, tiered repair and
-- publication. The two calls of the model are parameters, and `none` is an exception of theirs. Events are
-- left out.
use unknown_file_threat_agen.Contracts.{InvestigationState, grounded, fallback}
use unknown_file_threat_agen.Judgment.Grounding.{ReportValidationIssue, ReportDraft, validate}
use unknown_file_threat_agen.Judgment.Repair.{Composer}
use unknown_file_threat_agen.Judgment.Publication.{
  publish_investigation_report, build_fallback, Publication, validation_error, gate_draft,
}
use unknown_file_threat_agen.Judgment.Assembly.Catalog.{
  InvestigationJudgment, PointerCatalog, build,
}
use unknown_file_threat_agen.Judgment.Assembly.Drafting.{assemble_report_draft}
use unknown_file_threat_agen.Judgment.Assembly.Backstops.{apply_assembly_backstops}
use unknown_file_threat_agen.Prelude.{
  ℕ, zero, suc, ◌+◌, Bool, true, false, Option, none, some, List, [], map, if◌then◌else◌, is_nil,
}

-- `composer.synthesize` and `composer.rejudge_judgment`
pub record JudgmentComposer : Type 0 where
  pub synthesize : InvestigationState → PointerCatalog → Option InvestigationJudgment
  pub rejudge_judgment :
      InvestigationState
      → InvestigationJudgment
      → PointerCatalog
      → List ReportValidationIssue
      → ℕ
      → Option InvestigationJudgment

-- a draft with the issues that were found in it
pub record Checked : Type 0 where
  pub draft : ReportDraft
  pub issues : List ReportValidationIssue

unfoldable pub revalidated :
    InvestigationState → List ReportValidationIssue → ReportDraft × Bool → Checked
revalidated state issues (draft, true) = record { draft = draft; issues = validate state draft }
revalidated state issues (draft, false) = record { draft = draft; issues = issues }

-- `validate_and_backstop`
unfoldable pub validate_and_backstop : InvestigationState → ReportDraft → Checked
unfolding revalidated
validate_and_backstop state current =
    let issues = validate state current in
    if is_nil issues
    then record { draft = current; issues = issues }
    else revalidated state issues (apply_assembly_backstops state current issues)

-- assembly and the first tier of the repair
unfoldable pub assembled : InvestigationState → PointerCatalog → InvestigationJudgment → Checked
assembled state catalog judgment =
    validate_and_backstop state (assemble_report_draft state judgment catalog).0

module _ (composer : JudgmentComposer) (state : InvestigationState) (catalog : PointerCatalog) where
  -- the `while` loop, with the number of rejudgments that are left; the result is the last draft with its
  -- issues, and the number of rejudgments used
  unfoldable pub rejudge_loop : ℕ → ℕ → InvestigationJudgment → Checked → Checked × ℕ
  rejudge_loop zero attempts judgment c = (c, attempts)
  rejudge_loop (suc left) attempts judgment c = elim (is_nil c.issues) [
    | true ↦ (c, attempts)
    | false ↦ elim (composer.rejudge_judgment state judgment catalog c.issues (attempts + 1)) [
      | none ↦ (c, attempts + 1)
      | some next ↦ rejudge_loop left (attempts + 1) next (assembled state catalog next)
    ]
  ]

-- the gate and the final validation, for a draft without issues
unfoldable pub gate_checked : InvestigationState → Checked → Checked
gate_checked state c =
    if is_nil c.issues
    then record {
      draft = gate_draft state c.draft;
      issues = validate state (gate_draft state c.draft);
    }
    else c

unfoldable pub publish_checked : InvestigationState → Checked → ℕ → Publication
publish_checked state c used =
    if is_nil c.issues
    then record {
      report = c.draft;
      publication_status = grounded;
      report_validation_errors = [];
      report_rejudgments_used = used;
    }
    else record {
      report = build_fallback state c.issues;
      publication_status = fallback;
      report_validation_errors = map validation_error c.issues;
      report_rejudgments_used = used;
    }

-- `publish_report_via_assembly`; `none` sends the caller to the older flow
unfoldable pub publish_report_via_assembly :
    JudgmentComposer → InvestigationState → Option Publication
unfolding rejudge_loop gate_checked publish_checked
publish_report_via_assembly composer state =
    let catalog = build state in
    elim (composer.synthesize state catalog) [
      | none ↦ none
      | some judgment ↦
          let (c, used) =
            rejudge_loop composer state catalog state.budget.max_report_rejudgments 0 judgment
              (assembled state catalog judgment) in
          some (publish_checked state (gate_checked state c) used)
    ]

-- `publish_investigation_report` of graph.py: the assembled pipeline, if the composer has it, and the older flow
-- if it has none or if the pipeline degrades
unfoldable pub publish_with_pipeline :
    Option JudgmentComposer
    → (InvestigationState → Option ReportDraft)
    → Composer
    → InvestigationState
    → Option Publication
publish_with_pipeline pipeline compose_draft rejudge state =
    let older =
      publish_investigation_report compose_draft rejudge state
        state.budget.max_report_rejudgments in
    elim pipeline [
      | none ↦ older
      | some composer ↦ elim (publish_report_via_assembly composer state) [
        | none ↦ older
        | some p ↦ some p
      ]
    ]
