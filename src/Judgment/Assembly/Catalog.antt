-- ===== src/Judgment/Assembly/Catalog.antt =====
-- judgment/application/report_assembly.py: the judgment object and `PointerCatalog`. The index that
-- is shown to the model is left out. Every activity of the model has an instant.

use Prim.Native.String.{◌++◌ as append}
use unknown_file_threat_agen.Prelude.Dict.{Dict, lookup, insert}
use unknown_file_threat_agen.Shared.Text.{is_empty, strip, lower, padded}
use unknown_file_threat_agen.Contracts.{
  Activity, ActivityType, EvidenceReference, ActivityQueryResult, EntityExplorationResult,
  InvestigationState, VerdictLevel, ThreatType,
}
use unknown_file_threat_agen.Judgment.Grounding.{
  option_list, executed_query_ids, resolved_relation_ids, candidate_relation_ids,
}
use unknown_file_threat_agen.Prelude.{
  ℕ, ◌+◌, String, Option, none, some, List, [], ◌∷◌, ◌++◌, map, if◌then◌else◌, is_some, concat_map,
  mem, sorted_set,
}

pub data SectionName : Type 0 where
  current_situation affected_scope key_evidence counter_evidence : SectionName

pub record JudgmentUnit : Type 0 where
  pub section : SectionName
  pub text : String
  pub refs : List String
  pub limitations : List String

pub record InvestigationJudgment : Type 0 where
  pub verdict_level : VerdictLevel
  pub threat_type : ThreatType
  pub verdict_summary : String
  pub threat_scenarios : List String
  pub verdict_refs : List String
  pub contradicting_refs : List String
  pub units : List JudgmentUnit
  pub confirmed_relations : List String
  pub unresolved_questions : List String
  pub limitations : List String

pub record ActivityFacts : Type 0 where
  pub host_ref : Option String
  pub observed_at : ℕ
  pub activity_type : ActivityType
  pub operation : Option String

pub data EntryKind : Type 0 where
  activity evidence relation_resolved relation_candidate entity query : EntryKind

pub record PointerCatalog : Type 0 where
  pub entries : Dict (String × EntryKind)
  pub resolver : Dict String
  pub activity_facts : Dict ActivityFacts
  pub resolved_relations : List String
  pub candidate_relations : List String

unfoldable pub facts_for : Activity → ActivityFacts
facts_for a = record {
  host_ref = a.host_ref;
  observed_at = a.observed_at;
  activity_type = a.activity_type;
  operation = a.operation;
}

-- `d.setdefault(k, v)`
unfoldable pub put_default {ℓ} : {V : Type ℓ} → String → V → Dict V → Dict V
put_default k v d = if is_some (lookup k d) then d else insert k v d

-- the facts of each activity at its first occurrence
unfoldable pub add_facts : List Activity → Dict ActivityFacts → Dict ActivityFacts
unfolding put_default facts_for
add_facts [] facts = facts
add_facts (a ∷ rest) facts = add_facts rest (put_default a.activity_id (facts_for a) facts)

unfoldable pub activities_of : InvestigationState → List Activity
activities_of state =
    concat_map (λ (r : ActivityQueryResult). r.activities) state.tool_ledger.query_results

-- `numbered`: pointers from the given position on
unfoldable pub numbered : String → ℕ → List String → List (String × String)
numbered prefix position [] = []
numbered prefix position (v ∷ vs) =
    (append prefix (padded 3 position), v) ∷ numbered prefix (position + 1) vs

-- `register`
unfoldable pub register :
    EntryKind → List (String × String) → Dict (String × EntryKind) → Dict (String × EntryKind)
register kind [] entries = entries
register kind ((pointer, v) ∷ rest) entries = register kind rest (insert pointer (v, kind) entries)

unfoldable pub activity_ids : InvestigationState → List String
activity_ids state = sorted_set state.tool_ledger.authorized_activity_refs

unfoldable pub evidence_ids : InvestigationState → List String
evidence_ids state = sorted_set (
    concat_map
      (λ (r : ActivityQueryResult).
        map (λ (item : EvidenceReference). item.evidence_id) r.evidence_references)
      state.tool_ledger.query_results)

unfoldable pub entity_ids : InvestigationState → List String
entity_ids state = sorted_set (
    concat_map (λ (r : EntityExplorationResult). option_list r.identity)
      state.tool_ledger.entity_results)

unfoldable pub entries_of : InvestigationState → Dict (String × EntryKind)
unfolding numbered register activity_ids evidence_ids entity_ids
entries_of state = register query (numbered "q" 1 (sorted_set (executed_query_ids state))) (
    register entity (numbered "x" 1 (entity_ids state)) (
      register relation_candidate (numbered "c" 1 (sorted_set (candidate_relation_ids state))) (
        register relation_resolved (numbered "r" 1 (sorted_set (resolved_relation_ids state))) (
          register evidence (numbered "e" 1 (evidence_ids state))
            (register activity (numbered "a" 1 (activity_ids state)) [])))))

-- the pointers, as they are and in lower case
unfoldable pub add_pointers : Dict (String × EntryKind) → Dict String → Dict String
unfolding put_default
add_pointers [] resolver = resolver
add_pointers ((pointer, v) ∷ rest) resolver =
    add_pointers rest (put_default (lower pointer) v.0 (put_default pointer v.0 resolver))

-- the canonical identifiers, which win over a pointer
unfoldable pub add_canonical : List String → Dict String → Dict String
add_canonical [] resolver = resolver
add_canonical (v ∷ vs) resolver = add_canonical vs (insert v v resolver)

-- `PointerCatalog.build`
unfoldable pub build : InvestigationState → PointerCatalog
unfolding add_facts activities_of entries_of add_pointers add_canonical activity_ids evidence_ids
    entity_ids
build state = record {
  entries = entries_of state;
  resolver =
      add_canonical
        (activity_ids state
          ++ evidence_ids state
          ++ resolved_relation_ids state
          ++ candidate_relation_ids state
          ++ entity_ids state
          ++ sorted_set (executed_query_ids state))
        (add_pointers (entries_of state) []);
  activity_facts = add_facts (activities_of state) [];
  resolved_relations = resolved_relation_ids state;
  candidate_relations = candidate_relation_ids state;
}

-- `a or b` at two lookups: an empty text counts as none
unfoldable pub either : Option String → Option String → Option String
either none b = b
either (some s) b = if is_empty s then b else some s

-- the identifier of one citation, and the citation without the spaces around it
unfoldable pub resolve_ref : PointerCatalog → String → Option String
unfolding either
resolve_ref catalog ref =
    let cleaned = strip ref in
    either (lookup cleaned catalog.resolver) (lookup (lower cleaned) catalog.resolver)

-- `if x not in xs: xs.append(x)`
unfoldable pub append_new : String → List String → List String
append_new x xs = if mem x xs then xs else xs ++ x ∷ []

-- one round of `resolve`: what is resolved so far, in order, and what is rejected
unfoldable pub resolve_from :
    PointerCatalog → List String → List String → List String → List String × List String
unfolding resolve_ref append_new
resolve_from catalog resolved rejected [] = (resolved, rejected)
resolve_from catalog resolved rejected (ref ∷ refs) = elim (resolve_ref catalog ref) [
  | none ↦ resolve_from catalog resolved (rejected ++ strip ref ∷ []) refs
  | some id ↦ resolve_from catalog (append_new id resolved) rejected refs
]

-- `PointerCatalog.resolve`
unfoldable pub resolve : PointerCatalog → List String → List String × List String
unfolding resolve_from
resolve catalog refs = resolve_from catalog [] [] refs
