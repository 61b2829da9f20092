-- ===== src/Judgment/AssemblyExamples.antt =====
-- The assembled pipeline at a concrete state and judgment.
use unknown_file_threat_agen.Contracts.{confirmed_malicious, ransomware, fallback}
use unknown_file_threat_agen.Shared.Text.{strip, lower, padded}
use unknown_file_threat_agen.Prelude.Dict.{lookup, insert}
use unknown_file_threat_agen.Judgment.Grounding.{
  validate, executed_query_ids, resolved_relation_ids, candidate_relation_ids,
}
use unknown_file_threat_agen.Judgment.Examples.{state, draft, no_rejudge, composes, issue}
use unknown_file_threat_agen.Judgment.Publication.{Publication}
use unknown_file_threat_agen.Judgment.Publication.Published.{IsTrustworthy}
use unknown_file_threat_agen.Judgment.Assembly.Catalog.{
  key_evidence, InvestigationJudgment, build, resolve, entries_of,
}
use unknown_file_threat_agen.Judgment.Assembly.Whitelist.{IsCitable}
use unknown_file_threat_agen.Judgment.Assembly.Resolved.{IsDistinct, IsSettled, resolve_lem}
use unknown_file_threat_agen.Judgment.Assembly.Flow.{
  JudgmentComposer, assembled, publish_report_via_assembly, publish_with_pipeline,
}
use unknown_file_threat_agen.Judgment.Assembly.Backstops.{apply_assembly_backstops}
use unknown_file_threat_agen.Judgment.Assembly.Semantic.{AreSemantic, assembled-AreSemantic}
use unknown_file_threat_agen.Judgment.Assembly.Trusted.{
  IsPublished, looped, publish_report_via_assembly_lem, publish_with_pipeline-IsPublished,
}
use unknown_file_threat_agen.Judgment.Assembly.Verbatim.{
  SaysTheSame, apply_assembly_backstops-SaysTheSame,
}
use unknown_file_threat_agen.Judgment.Publication.{gate_draft}
use unknown_file_threat_agen.Prelude.{
  ◌≤◌, String, ◌≡◌, refl, ◌↔◌, true, not, none, some, List, [], ◌∷◌, is_nil, All, mem, sorted_set,
}

abbrev refs : List String
refs = " A001 " ∷ "q1" ∷ "zz" ∷ "a001" ∷ []

resolved : resolve (build state) refs ≡ ("a1" ∷ "q1" ∷ [], "zz" ∷ [])
unfolding resolve build entries_of strip lower padded lookup insert executed_query_ids
    resolved_relation_ids candidate_relation_ids sorted_set mem
resolved = refl

resolve_lem_example :
    All (IsCitable state) (resolve (build state) refs).0
    × IsDistinct (resolve (build state) refs).0
    × All (IsSettled (build state) (resolve (build state) refs)) refs
resolve_lem_example = resolve_lem state refs

abbrev judgment : InvestigationJudgment
judgment = record {
  verdict_level = confirmed_malicious;
  threat_type = ransomware;
  verdict_summary = "files were encrypted";
  threat_scenarios = [];
  verdict_refs = "a001" ∷ [];
  contradicting_refs = [];
  units =
      record {
        section = key_evidence;
        text = "a file was written";
        refs = "a001" ∷ "zz" ∷ [];
        limitations = [];
      }
      ∷ [];
  confirmed_relations = "a001" ∷ [];
  unresolved_questions = [];
  limitations = [];
}

assembled-AreSemantic_example :
    AreSemantic (assembled state (build state) judgment).issues
    × ((assembled state (build state) judgment).issues
        ≡ validate state (assembled state (build state) judgment).draft)
assembled-AreSemantic_example = assembled-AreSemantic state judgment

abbrev composer : JudgmentComposer
composer = record {
  synthesize = λ s catalog. some judgment;
  rejudge_judgment = λ s j catalog issues attempt. none;
}

publish_report_via_assembly_lem_example :
    (p : Publication) × (publish_report_via_assembly composer state ≡ some p)
    × IsTrustworthy state p
    × (p.report_rejudgments_used ≤ state.budget.max_report_rejudgments)
    × (let last = (looped composer state judgment).0 in
        AreSemantic last.issues
        × (last.issues ≡ validate state last.draft)
        × ((p.publication_status ≡ fallback) ↔ (not (is_nil last.issues) ≡ true))
        × (is_nil last.issues ≡ true → p.report ≡ gate_draft state last.draft))
publish_report_via_assembly_lem_example =
    publish_report_via_assembly_lem composer state judgment refl

publish_with_pipeline-IsPublished_example :
    IsPublished state (publish_with_pipeline (some composer) composes no_rejudge state)
publish_with_pipeline-IsPublished_example =
    publish_with_pipeline-IsPublished (some composer) composes no_rejudge state draft refl

apply_assembly_backstops-SaysTheSame_example :
    SaysTheSame draft (apply_assembly_backstops state draft (issue ∷ [])).0
apply_assembly_backstops-SaysTheSame_example =
    apply_assembly_backstops-SaysTheSame state draft (issue ∷ [])
