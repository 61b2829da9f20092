-- ===== src/Judgment/Assembly/Mechanical.antt =====
-- judgment/application/report_assembly.py: the mechanical parts of a draft as it is assembled.
use mathlib.Core.Path.{subst}
use unknown_file_threat_agen.Contracts.{InvestigationState, ReportStatement}
use unknown_file_threat_agen.Judgment.Grounding.{
  ReportDraft, authorized_evidence_refs, executed_query_ids, candidate_relation_ids, precedes,
}
use unknown_file_threat_agen.Judgment.Grounding.Refs.{Within}
use unknown_file_threat_agen.Judgment.Assembly.Catalog.{
  SectionName, current_situation, affected_scope, key_evidence, counter_evidence, JudgmentUnit,
  InvestigationJudgment, build, resolve, append_new,
}
use unknown_file_threat_agen.Judgment.Assembly.Whitelist.{universe, IsCitable, All-++}
use unknown_file_threat_agen.Judgment.Assembly.Resolved.{resolve_lem, All-append_new}
use unknown_file_threat_agen.Judgment.Assembly.Drafting.{
  Progress, add_statement, is_counter, add_supporting, unit_statement, add_unit, add_units,
  no_progress, clamp_start, clamp_end, not_candidates, assemble_report_draft,
}
use unknown_file_threat_agen.Prelude.{
  ℕ, String, ◌≡◌, refl, sym, ◌∙◌, inl, inr, true, false, Option, none, some, List, [], ◌∷◌, arith,
  ◌==◌, eq_iff, Bool-cases, filter_by, All, mem, mem-diff, mem-sorted_set,
}

pub All-mem :
    (P : String → Type 0) (xs : List String) (a : String) → All P xs → mem a xs ≡ true → P a
All-mem P [] a h m = unfold mem in cc
All-mem P (x ∷ xs) a h m = elim (Bool-cases (a == x)) [
  | inl same ↦ subst P (sym ((eq_iff a x).0 same)) h.0
  | inr other ↦ All-mem P xs a h.1 (unfold mem in ground (arith, m, other))
]

-- what is kept of a list is in the other
pub filter-Within : (xs ys : List String) → Within (filter_by (λ ref. mem ref ys) xs) ys
filter-Within [] ys a m = unfold mem in cc
filter-Within (x ∷ xs) ys a m = elim (Bool-cases (mem x ys)) [
  | inl known ↦ elim (Bool-cases (a == x)) [
    | inl same ↦ rw ((eq_iff a x).0 same) known
    | inr other ↦ filter-Within xs ys a (unfold mem in ground (arith, other, rw known at m))
  ]
  | inr unknown ↦ filter-Within xs ys a (rw unknown at m)
]

-- a statement cites only what a statement may cite
abbrev pub IsCited : InvestigationState → ReportStatement → Type 0
IsCited state s = Within s.supporting_refs (universe state)

abbrev IsAuthorized : InvestigationState → String → Type 0
IsAuthorized state a = mem a (authorized_evidence_refs state) ≡ true

pub record IsMechanical (state : InvestigationState) (draft : ReportDraft) : Type 0 where
  pub supporting : Within draft.verdict.supporting_refs (authorized_evidence_refs state)
  pub contradicting : Within draft.verdict.contradicting_refs (authorized_evidence_refs state)
  pub evidence : Within draft.supporting_evidence_refs (authorized_evidence_refs state)
  pub current_situation_lem : All (IsCited state) draft.current_situation
  pub affected_scope_lem : All (IsCited state) draft.affected_scope
  pub key_evidence_lem : All (IsCited state) draft.key_evidence
  pub counter_evidence_lem : All (IsCited state) draft.counter_evidence
  pub boundaries : Within draft.query_boundary_refs (executed_query_ids state)
  pub start : precedes draft.asserted_start state.scope.start_time ≡ false
  pub end : precedes state.scope.end_time draft.asserted_end ≡ false
  pub no_candidate :
      (r : String)
      → mem r draft.confirmed_relation_refs ≡ true
      → mem r (candidate_relation_ids state) ≡ false

-- the invariant of the loop over the units
record IsSound (state : InvestigationState) (p : Progress) : Type 0 where
  current : All (IsCited state) p.current_situation
  affected : All (IsCited state) p.affected_scope
  key : All (IsCited state) p.key_evidence
  counter : All (IsCited state) p.counter_evidence
  union : All (IsAuthorized state) p.supporting_union

add_statement-IsSound :
    (state : InvestigationState) (section : SectionName) (s : ReportStatement) (p : Progress)
    → IsCited state s
    → IsSound state p
    → IsSound state (add_statement section s p)
unfolding add_statement
add_statement-IsSound state current_situation s p c h = record {
  current = All-++ (IsCited state) p.current_situation (s ∷ []) h.current (c, tt);
  affected = h.affected;
  key = h.key;
  counter = h.counter;
  union = h.union;
}
add_statement-IsSound state affected_scope s p c h = record {
  affected = All-++ (IsCited state) p.affected_scope (s ∷ []) h.affected (c, tt);
  current = h.current;
  key = h.key;
  counter = h.counter;
  union = h.union;
}
add_statement-IsSound state key_evidence s p c h = record {
  key = All-++ (IsCited state) p.key_evidence (s ∷ []) h.key (c, tt);
  current = h.current;
  affected = h.affected;
  counter = h.counter;
  union = h.union;
}
add_statement-IsSound state counter_evidence s p c h = record {
  counter = All-++ (IsCited state) p.counter_evidence (s ∷ []) h.counter (c, tt);
  current = h.current;
  affected = h.affected;
  key = h.key;
  union = h.union;
}

module _ (state : InvestigationState) where
  add_supporting-All :
      (ids union : List String)
      → All (IsAuthorized state) union
      → All (IsAuthorized state) (add_supporting (authorized_evidence_refs state) ids union)
  unfolding add_supporting
  add_supporting-All [] union h = h
  add_supporting-All (id ∷ ids) union h =
      elim (Bool-cases (mem id (authorized_evidence_refs state))) [
        | inl known ↦ rw known (
            add_supporting-All ids (append_new id union)
              (All-append_new (IsAuthorized state) id union known h))
        | inr unknown ↦ rw unknown (add_supporting-All ids union h)
      ]

  resolved-Within : (refs : List String) → Within (resolve (build state) refs).0 (universe state)
  resolved-Within refs a m =
      All-mem (IsCitable state) (resolve (build state) refs).0 a (resolve_lem state refs).0 m

  add_unit-IsSound :
      (unit : JudgmentUnit) (p : Progress)
      → IsSound state p
      → IsSound state (add_unit state (build state) unit p)
  unfolding add_unit
  add_unit-IsSound unit p h =
      add_statement-IsSound state unit.section _ _
        (unfold unit_statement in resolved-Within unit.refs)
        (record {
          current = h.current;
          affected = h.affected;
          key = h.key;
          counter = h.counter;
          union = elim (Bool-cases (is_counter unit.section)) [
            | inl c ↦ rw c h.union
            | inr c ↦
                rw c (
                  add_supporting-All (resolve (build state) unit.refs).0 p.supporting_union h.union)
          ];
        })

  add_units-IsSound :
      (units : List JudgmentUnit) (p : Progress)
      → IsSound state p
      → IsSound state (add_units state (build state) units p)
  unfolding add_units
  add_units-IsSound [] p h = h
  add_units-IsSound (unit ∷ units) p h =
      add_units-IsSound units (add_unit state (build state) unit p) (add_unit-IsSound unit p h)

pub precedes-clamp_start : (a b : Option ℕ) → precedes (clamp_start a b) b ≡ false
unfolding clamp_start precedes
precedes-clamp_start none b = refl
precedes-clamp_start (some x) none = refl
precedes-clamp_start (some x) (some y) = ground arith

pub precedes-clamp_end : (a b : Option ℕ) → precedes b (clamp_end a b) ≡ false
unfolding clamp_end precedes
precedes-clamp_end a none = refl
precedes-clamp_end none (some y) = refl
precedes-clamp_end (some x) (some y) = ground arith

no_progress-IsSound : (state : InvestigationState) → IsSound state no_progress
unfolding no_progress
no_progress-IsSound state = record {
  current = tt;
  affected = tt;
  key = tt;
  counter = tt;
  union = tt;
}

-- Whatever judgment the model writes, the draft assembled from it cites only what may be cited, keeps its
-- query boundaries and its times within the scope, and confirms no candidate relation.
pub assemble_report_draft-IsMechanical :
    (state : InvestigationState) (judgment : InvestigationJudgment)
    → IsMechanical state (assemble_report_draft state judgment (build state)).0
unfolding assemble_report_draft
assemble_report_draft-IsMechanical state judgment =
    let p = add_units-IsSound state judgment.units no_progress (no_progress-IsSound state) in
    let authorized = authorized_evidence_refs state in
    let cited =
      filter_by (λ ref. mem ref authorized) (resolve (build state) judgment.verdict_refs).0 in
    record {
      supporting = filter-Within (resolve (build state) judgment.verdict_refs).0 authorized;
      contradicting =
          filter-Within (resolve (build state) judgment.contradicting_refs).0 authorized;
      evidence =
          λ a m. All-mem (IsAuthorized state) _ a (add_supporting-All state cited _ p.union) m;
      current_situation_lem = p.current;
      affected_scope_lem = p.affected;
      key_evidence_lem = p.key;
      counter_evidence_lem = p.counter;
      boundaries = λ a m. sym (mem-sorted_set a (executed_query_ids state)) ∙ m;
      start = precedes-clamp_start _ state.scope.start_time;
      end = precedes-clamp_end _ state.scope.end_time;
      no_candidate = λ r m.
          unfold not_candidates in
          unfold build in
          ground (
            arith,
            m,
            mem-diff r (resolve (build state) judgment.confirmed_relations).0
                (candidate_relation_ids state),
          );
    }
