-- ===== src/Cases/DataReadiness.antt =====
-- case_management/application/data_readiness.py: which questions the sources of a data profile can answer.
-- The texts of the questions and of the limitations are left out.
pub mod Ready
use unknown_file_threat_agen.Prelude.Dict.{Dict, lookup}
use unknown_file_threat_agen.Prelude.{
  ◌-◌, String, Bool, true, false, not, List, [], ◌∷◌, map, ◌==◌, eqb, if◌then◌else◌, length,
  filter_by, any, is_nil, or_else, concat_map, mem, diff, sorted_set, dedup,
}

-- `complete` says that the completeness of the rule is "complete"
pub record CoverageRule : Type 0 where
  pub source_id : String
  pub domains : List String
  pub complete : Bool

pub record DataProfile : Type 0 where
  pub visible_sources : List String
  pub coverage_rules : List CoverageRule

-- `READINESS_QUESTIONS`: the identifier of a question and the sources that it needs
unfoldable pub readiness_questions : Dict (List String)
readiness_questions =
    ("role-execution", "edr-process" ∷ [])
    ∷ ("role-attribution", "edr-process" ∷ [])
    ∷ ("role-c2-behavior", "edr-network" ∷ "ebpf-socket" ∷ "auditd-execve" ∷ [])
    ∷ ("role-persistence", "auditd-file" ∷ "package-manager" ∷ "systemd-journal" ∷ [])
    ∷ ("role-counter-evidence", "rpm-inventory" ∷ "cmdb-baseline" ∷ [])
    ∷ []

-- `SOURCE_DOMAINS`
unfoldable pub source_domains : Dict String
source_domains =
    ("edr-process", "process")
    ∷ ("auditd-execve", "process")
    ∷ ("edr-network", "network")
    ∷ ("ebpf-socket", "network")
    ∷ ("auditd-file", "file")
    ∷ ("package-manager", "file")
    ∷ ("systemd-journal", "persistence")
    ∷ ("rpm-inventory", "reputation")
    ∷ ("cmdb-baseline", "reputation")
    ∷ []

pub data QuestionStatus : Type 0 where
  answerable partially_answerable blocked : QuestionStatus

pub record ReadinessQuestion : Type 0 where
  pub question_id : String
  pub required_domains : List String
  pub required_sources : List String
  pub status : QuestionStatus
  pub missing : List String

unfoldable pub question_status : List String → List String → QuestionStatus
question_status present sources =
    if eqb (length present) (length sources)
    then answerable
    else if is_nil present
    then blocked
    else partially_answerable

unfoldable pub is_visible : DataProfile → String → Bool
is_visible profile source = mem source profile.visible_sources

-- `_question`; the missing sources are named unless the question is answerable
unfoldable pub question : DataProfile → String × List String → ReadinessQuestion
question profile (id, sources) =
    let present = filter_by (is_visible profile) sources in
    record {
      question_id = id;
      required_domains = map (λ s. or_else (lookup s source_domains) "unknown") sources;
      required_sources = sources;
      status = question_status present sources;
      missing =
          if eqb (length present) (length sources) then [] else sorted_set (diff sources present);
    }

pub data Completeness : Type 0 where
  unavailable partial_coverage full_coverage : Completeness

-- the rules of a domain, once for each time that a rule names it
unfoldable pub rules_of : DataProfile → String → List CoverageRule
rules_of profile domain =
    concat_map (λ rule. map (λ d. rule) (filter_by (λ d. d == domain) rule.domains))
      profile.coverage_rules

unfoldable pub coverage : DataProfile → String → Completeness
coverage profile domain =
    let rules = rules_of profile domain in
    if is_nil rules
    then unavailable
    else if any (λ r. r.complete) rules
    then full_coverage
    else partial_coverage

unfoldable pub is_blocked : ReadinessQuestion → Bool
is_blocked q = elim q.status [ blocked ↦ true | answerable ↦ false | partially_answerable ↦ false ]

pub record DataReadinessReport : Type 0 where
  pub missing_sources : List String
  pub answerable_questions : List ReadinessQuestion
  pub blocked_questions : List ReadinessQuestion
  pub coverage_summary : Dict Completeness

unfoldable pub questions_of : DataProfile → List ReadinessQuestion
questions_of profile = map (question profile) readiness_questions

-- `evaluate_data_readiness`
unfoldable pub evaluate_data_readiness : DataProfile → DataReadinessReport
evaluate_data_readiness profile =
    let questions = questions_of profile in
    record {
      missing_sources =
          filter_by (λ s. not (is_visible profile s))
            (dedup (concat_map (λ q. q.required_sources) questions));
      answerable_questions = filter_by (λ q. not (is_blocked q)) questions;
      blocked_questions = filter_by is_blocked questions;
      coverage_summary =
          map (λ d. (d, coverage profile d))
            (sorted_set (concat_map (λ q. q.required_domains) questions));
    }
