-- ===== src/Judgment/Assembly/Drafting.antt =====
-- judgment/application/report_assembly.py, `assemble_report_draft`: the draft that is computed from a
-- judgment and the ledger.
use Prim.Native.String.{◌++◌ as append}
use unknown_file_threat_agen.Prelude.Dict.{lookup}
use unknown_file_threat_agen.Shared.Text.{is_empty, padded}
use unknown_file_threat_agen.Contracts.{InvestigationState, ReportStatement}
use unknown_file_threat_agen.Judgment.Grounding.{
  ReportDraft, authorized_evidence_refs, executed_query_ids, precedes,
}
use unknown_file_threat_agen.Judgment.Assembly.Catalog.{
  SectionName, current_situation, affected_scope, key_evidence, counter_evidence, JudgmentUnit,
  InvestigationJudgment, ActivityFacts, PointerCatalog, append_new, resolve,
}
use unknown_file_threat_agen.Prelude.{
  ℕ, ◌+◌, min, max, String, Bool, true, false, not, ◌&&◌, Option, none, some, List, [], ◌∷◌, ◌++◌,
  map, if◌then◌else◌, length, filter_by, is_nil, is_some, concat_map, mem, diff, sorted_set,
}

pub record AssemblyNotes : Type 0 where
  pub dropped_refs : List String
  pub downgraded_relations : List String

-- the variables of the loop over the units
pub record Progress : Type 0 where
  pub current_situation : List ReportStatement
  pub affected_scope : List ReportStatement
  pub key_evidence : List ReportStatement
  pub counter_evidence : List ReportStatement
  pub cited_activity_ids : List String
  pub supporting_union : List String
  pub dropped_refs : List String

-- `_SECTION_PREFIX`
unfoldable pub section_prefix : SectionName → String
section_prefix current_situation = "cs"
section_prefix affected_scope = "as"
section_prefix key_evidence = "ke"
section_prefix counter_evidence = "ce"

-- `sections[section]`, and an addition to it
unfoldable pub section_of : SectionName → Progress → List ReportStatement
section_of current_situation p = p.current_situation
section_of affected_scope p = p.affected_scope
section_of key_evidence p = p.key_evidence
section_of counter_evidence p = p.counter_evidence

unfoldable pub add_statement : SectionName → ReportStatement → Progress → Progress
add_statement current_situation s p = record p { current_situation = p.current_situation ++ s ∷ [] }
add_statement affected_scope s p = record p { affected_scope = p.affected_scope ++ s ∷ [] }
add_statement key_evidence s p = record p { key_evidence = p.key_evidence ++ s ∷ [] }
add_statement counter_evidence s p = record p { counter_evidence = p.counter_evidence ++ s ∷ [] }

unfoldable pub is_counter : SectionName → Bool
is_counter counter_evidence = true
is_counter _ = false

-- `",".join(refs)`
unfoldable pub join_refs : List String → String
join_refs [] = ""
join_refs (x ∷ []) = x
join_refs (x ∷ y ∷ rest) = append x (append "," (join_refs (y ∷ rest)))

-- the cited identifiers that are activities
unfoldable pub cited_activities : PointerCatalog → List String → List String
cited_activities catalog ids = filter_by (λ id. is_some (lookup id catalog.activity_facts)) ids

-- `add_supporting`
unfoldable pub add_supporting : List String → List String → List String → List String
unfolding append_new
add_supporting authorized [] union = union
add_supporting authorized (id ∷ ids) union =
    add_supporting authorized ids (if mem id authorized then append_new id union else union)

-- the limitations of a statement
unfoldable pub unit_limitations : JudgmentUnit → List String × List String → List String
unfolding join_refs
unit_limitations unit (resolved, rejected) =
    unit.limitations
    ++ (if is_nil rejected then [] else append "dropped_refs:" (join_refs rejected) ∷ [])
    ++ (if is_nil resolved && not (is_nil unit.refs) then "unit_refs_all_dropped" ∷ [] else [])

unfoldable pub unit_statement : JudgmentUnit → List String × List String → ℕ → ReportStatement
unfolding section_prefix unit_limitations
unit_statement unit found position = record {
  statement_id = append (section_prefix unit.section) (append "-" (padded 2 position));
  text = unit.text;
  supporting_refs = found.0;
  limitations = unit_limitations unit found;
}

-- one round of the loop over the units
unfoldable pub add_unit : InvestigationState → PointerCatalog → JudgmentUnit → Progress → Progress
unfolding section_of add_statement is_counter cited_activities add_supporting unit_statement
add_unit state catalog unit p =
    let found = resolve catalog unit.refs in
    let position = length (section_of unit.section p) + 1 in
    add_statement unit.section (unit_statement unit found position) (record p {
      cited_activity_ids = p.cited_activity_ids ++ cited_activities catalog found.0;
      supporting_union =
          if is_counter unit.section
          then p.supporting_union
          else add_supporting (authorized_evidence_refs state) found.0 p.supporting_union;
      dropped_refs = p.dropped_refs ++ found.1;
    })

unfoldable pub add_units :
    InvestigationState → PointerCatalog → List JudgmentUnit → Progress → Progress
unfolding add_unit
add_units state catalog [] p = p
add_units state catalog (unit ∷ units) p =
    add_units state catalog units (add_unit state catalog unit p)

unfoldable pub no_progress : Progress
no_progress = record {
  current_situation = [];
  affected_scope = [];
  key_evidence = [];
  counter_evidence = [];
  cited_activity_ids = [];
  supporting_union = [];
  dropped_refs = [];
}

-- the hosts of the cited activities, each once; a missing or empty host is skipped
unfoldable pub add_host : Option String → List String → List String
add_host none hosts = hosts
add_host (some h) hosts = if is_empty h then hosts else append_new h hosts

unfoldable pub host_at : Option ActivityFacts → Option String
host_at none = none
host_at (some facts) = facts.host_ref

unfoldable pub cited_hosts : PointerCatalog → List String → List String → List String
unfolding add_host host_at
cited_hosts catalog [] hosts = hosts
cited_hosts catalog (id ∷ ids) hosts =
    cited_hosts catalog ids (add_host (host_at (lookup id catalog.activity_facts)) hosts)

-- `observed`
unfoldable pub cited_instants : PointerCatalog → List String → List ℕ
cited_instants catalog ids =
    concat_map
      (λ id. elim (lookup id catalog.activity_facts) [
        | none ↦ []
        | some facts ↦ facts.observed_at ∷ []
      ])
      ids

unfoldable pub least_of : ℕ → List ℕ → ℕ
least_of x [] = x
least_of x (y ∷ ys) = least_of (min x y) ys

unfoldable pub greatest_of : ℕ → List ℕ → ℕ
greatest_of x [] = x
greatest_of x (y ∷ ys) = greatest_of (max x y) ys

-- `min(observed) if observed else scope_start`, and the same with `max`
unfoldable pub least : List ℕ → Option ℕ → Option ℕ
unfolding least_of
least [] default = default
least (x ∷ xs) default = some (least_of x xs)

unfoldable pub greatest : List ℕ → Option ℕ → Option ℕ
unfolding greatest_of
greatest [] default = default
greatest (x ∷ xs) default = some (greatest_of x xs)

-- an asserted instant that lies outside the scope becomes the scope's
unfoldable pub clamp_start : Option ℕ → Option ℕ → Option ℕ
clamp_start asserted limit = if precedes asserted limit then limit else asserted

unfoldable pub clamp_end : Option ℕ → Option ℕ → Option ℕ
clamp_end asserted limit = if precedes limit asserted then limit else asserted

-- `confirmed` and `downgraded_relations`
unfoldable pub not_candidates : PointerCatalog → List String → List String
not_candidates catalog ids = diff ids catalog.candidate_relations

unfoldable pub candidates : PointerCatalog → List String → List String
candidates catalog ids = filter_by (λ id. mem id catalog.candidate_relations) ids

-- `assemble_report_draft`
unfoldable pub assemble_report_draft :
    InvestigationState → InvestigationJudgment → PointerCatalog → ReportDraft × AssemblyNotes
unfolding add_units no_progress cited_hosts cited_instants least greatest clamp_start clamp_end
    not_candidates candidates
assemble_report_draft state judgment catalog =
    let authorized = authorized_evidence_refs state in
    let p = add_units state catalog judgment.units no_progress in
    let supporting = resolve catalog judgment.verdict_refs in
    let contradicting = resolve catalog judgment.contradicting_refs in
    let relations = resolve catalog judgment.confirmed_relations in
    let verdict_supporting = filter_by (λ ref. mem ref authorized) supporting.0 in
    let cited =
      p.cited_activity_ids
      ++ cited_activities catalog supporting.0
      ++ cited_activities catalog contradicting.0 in
    let hosts = cited_hosts catalog cited [] in
    let observed = cited_instants catalog cited in
    let downgraded = candidates catalog relations.0 in
    (
      record {
        verdict = record {
          level = judgment.verdict_level;
          threat_type = judgment.threat_type;
          summary = judgment.verdict_summary;
          supporting_refs = verdict_supporting;
          contradicting_refs = filter_by (λ ref. mem ref authorized) contradicting.0;
          limitations = [];
        };
        threat_scenarios = judgment.threat_scenarios;
        executive_summary = judgment.verdict_summary;
        current_situation = p.current_situation;
        affected_scope = p.affected_scope;
        key_evidence = p.key_evidence;
        counter_evidence = p.counter_evidence;
        unresolved_questions = judgment.unresolved_questions;
        supporting_evidence_refs = add_supporting authorized verdict_supporting p.supporting_union;
        query_boundary_refs = sorted_set (executed_query_ids state);
        asserted_host_refs = if is_nil hosts then state.scope.host_ids else hosts;
        asserted_start = clamp_start (least observed state.scope.start_time) state.scope.start_time;
        asserted_end = clamp_end (greatest observed state.scope.end_time) state.scope.end_time;
        confirmed_relation_refs = not_candidates catalog relations.0;
        limitations =
            judgment.limitations ++ map (append "candidate_relation_not_confirmed:") downgraded;
      },
      record {
        dropped_refs =
            p.dropped_refs
            ++ supporting.1
            ++ contradicting.1
            ++ diff supporting.0 authorized
            ++ diff contradicting.0 authorized
            ++ relations.1;
        downgraded_relations = downgraded;
      },
    )
