-- ===== src/Judgment/Assembly/Verbatim.antt =====
-- judgment/application/report_assembly.py: the words of a draft under the deterministic repairs.
use unknown_file_threat_agen.Shared.Text.{before_char, after_char, contains}
use unknown_file_threat_agen.Contracts.{InvestigationState, ReportStatement}
use unknown_file_threat_agen.Judgment.Grounding.{
  ReportDraft, ReportValidationIssue, known_out_of_scope_refs,
}
use unknown_file_threat_agen.Judgment.Assembly.Backstops.{
  is_citation, strip_statement, strip_section, set_section, strip_at, strip_issues, refill,
  is_changed, apply_assembly_backstops,
}
use unknown_file_threat_agen.Prelude.{
  String, ◌≡◌, refl, inl, inr, Bool, List, [], ◌∷◌, ◌++◌, map, ◌==◌, if-All, Bool-cases,
}

-- the words of a statement and of a draft
abbrev words : ReportStatement → String × String × List String
words s = (s.statement_id, s.text, s.limitations)

abbrev all_words : List ReportStatement → List (String × String × List String)
all_words xs = map words xs

pub record SaysTheSame (a b : ReportDraft) : Type 0 where
  pub level : b.verdict.level ≡ a.verdict.level
  pub threat_type : b.verdict.threat_type ≡ a.verdict.threat_type
  pub summary : b.verdict.summary ≡ a.verdict.summary
  pub verdict_limitations : b.verdict.limitations ≡ a.verdict.limitations
  pub threat_scenarios : b.threat_scenarios ≡ a.threat_scenarios
  pub executive_summary : b.executive_summary ≡ a.executive_summary
  pub current_situation : all_words b.current_situation ≡ all_words a.current_situation
  pub affected_scope : all_words b.affected_scope ≡ all_words a.affected_scope
  pub key_evidence : all_words b.key_evidence ≡ all_words a.key_evidence
  pub counter_evidence : all_words b.counter_evidence ≡ all_words a.counter_evidence
  pub unresolved_questions : b.unresolved_questions ≡ a.unresolved_questions
  pub limitations : b.limitations ≡ a.limitations

all_words-strip_section :
    (id : String) (bad : List String) (xs : List ReportStatement)
    → all_words (strip_section id bad xs) ≡ all_words xs
unfolding strip_section strip_statement
all_words-strip_section id bad [] = refl
all_words-strip_section id bad (s ∷ xs) =
    let rest = all_words-strip_section id bad xs in
    elim (Bool-cases (s.statement_id == id)) [ inl e ↦ rw (e, rest) | inr e ↦ rw (e, rest) ]

module _ (draft update : ReportDraft) (h : SaysTheSame draft update) where
  set_section-SaysTheSame :
      (section id : String) (bad : List String)
      → SaysTheSame draft (set_section section id bad draft update)
  unfolding set_section
  set_section-SaysTheSame section id bad =
      let P = SaysTheSame draft in
      let one = all_words-strip_section id bad in
      if-All P (section == "current_situation")
        (let new = one draft.current_situation in search new)
        (if-All P (section == "affected_scope") (let new = one draft.affected_scope in search new) (
          if-All P (section == "key_evidence") (let new = one draft.key_evidence in search new) (
            if-All P (section == "counter_evidence")
              (let new = one draft.counter_evidence in search new) h)))

  strip_at-SaysTheSame :
      (location : String) (bad : List String)
      → SaysTheSame draft (strip_at location bad draft update)
  unfolding strip_at
  strip_at-SaysTheSame location bad =
      let P = SaysTheSame draft in
      if-All P (location == "verdict.supporting_refs") (search h) (
        if-All P (location == "verdict.contradicting_refs") (search h) (
          if-All P (location == "supporting_evidence_refs") (search h) (
            if-All P (location == "confirmed_relation_refs") (search h) (
              if-All P (contains ".supporting_refs" location)
                (set_section-SaysTheSame (before_char b'[' location)
                  (before_char b']' (after_char b'[' location)) bad)
                h))))

strip_issues-SaysTheSame :
    (forbidden : List String) (issues : List ReportValidationIssue) (draft update : ReportDraft)
    → SaysTheSame draft update
    → SaysTheSame draft (strip_issues forbidden issues draft update)
unfolding strip_issues
strip_issues-SaysTheSame forbidden [] draft update h = h
strip_issues-SaysTheSame forbidden (issue ∷ issues) draft update h =
    strip_issues-SaysTheSame forbidden issues draft _ (
      if-All (SaysTheSame draft) (is_citation issue.code)
        (strip_at-SaysTheSame draft update h issue.location (issue.invalid_refs ++ forbidden)) h)

SaysTheSame-refl : (draft : ReportDraft) → SaysTheSame draft draft
SaysTheSame-refl draft = record {
  level = refl;
  threat_type = refl;
  summary = refl;
  verdict_limitations = refl;
  threat_scenarios = refl;
  executive_summary = refl;
  current_situation = refl;
  affected_scope = refl;
  key_evidence = refl;
  counter_evidence = refl;
  unresolved_questions = refl;
  limitations = refl;
}

refill-SaysTheSame :
    (state : InvestigationState) (issues : List ReportValidationIssue) (draft : ReportDraft)
    → SaysTheSame draft (refill state issues draft)
unfolding refill
refill-SaysTheSame state issues draft = record {
  level = refl;
  threat_type = refl;
  summary = refl;
  verdict_limitations = refl;
  threat_scenarios = refl;
  executive_summary = refl;
  current_situation = refl;
  affected_scope = refl;
  key_evidence = refl;
  counter_evidence = refl;
  unresolved_questions = refl;
  limitations = refl;
}

-- Whatever draft and issues they are given, the deterministic repairs keep the verdict's level, type, summary and
-- limitations, the scenarios, the executive summary, the open questions, the report's limitations, and the
-- identifier, text and limitations of every statement of the four sections, in order.
pub apply_assembly_backstops-SaysTheSame :
    (state : InvestigationState) (draft : ReportDraft) (issues : List ReportValidationIssue)
    → SaysTheSame draft (apply_assembly_backstops state draft issues).0
unfolding apply_assembly_backstops
apply_assembly_backstops-SaysTheSame state draft issues =
    if-All (λ (r : ReportDraft × Bool). SaysTheSame draft r.0) (is_changed state draft issues)
      (strip_issues-SaysTheSame (known_out_of_scope_refs state) issues draft
        (refill state issues draft) (refill-SaysTheSame state issues draft))
      (SaysTheSame-refl draft)
