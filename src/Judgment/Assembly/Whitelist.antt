-- ===== src/Judgment/Assembly/Whitelist.antt =====
-- judgment/application/report_assembly.py: the identifiers of the pointer catalogue.
use mathlib.Core.Path.{subst}
use unknown_file_threat_agen.Prelude.Dict.{Dict, lookup, insert}
use unknown_file_threat_agen.Shared.Text.{is_empty, strip, lower}
use unknown_file_threat_agen.Contracts.{
  EvidenceReference, ActivityQueryResult, EntityExplorationResult, InvestigationState,
}
use unknown_file_threat_agen.Judgment.Grounding.{
  option_list, authorized_evidence_refs, executed_query_ids, resolved_relation_ids,
  candidate_relation_ids,
}
use unknown_file_threat_agen.Judgment.Grounding.Refs.{Within}
use unknown_file_threat_agen.Judgment.Assembly.Catalog.{
  EntryKind, put_default, numbered, register, activity_ids, evidence_ids, entity_ids, entries_of,
  add_pointers, add_canonical, build, either, resolve_ref,
}
use unknown_file_threat_agen.Prelude.{
  ℕ, ◌+◌, String, ◌≡◌, sym, ◌∙◌, ◌⊎◌, inl, inr, true, Option, none, some, List, [], ◌∷◌, ◌++◌, map,
  arith, ◌==◌, Bool-cases, is_some, All, concat_map, mem, sorted_set, str_refl, mem-append,
  mem-sorted_set,
}

-- every value of a dict has a property
abbrev Values {ℓ} : {V : Type ℓ} → (V → Type 0) → Dict V → Type 0
Values P d = All (λ e. P e.1) d

module _ {ℓ} {V : Type ℓ} (P : V → Type 0) where
  Values-insert : (k : String) (v : V) (d : Dict V) → P v → Values P d → Values P (insert k v d)
  unfolding insert
  Values-insert k v [] p h = (p, tt)
  Values-insert k v ((j, w) ∷ d) p h = elim (Bool-cases (k == j)) [
    | inl e ↦ rw e (p, h.1)
    | inr e ↦ rw e (h.0, Values-insert k v d p h.1)
  ]

  Values-put_default :
      (k : String) (v : V) (d : Dict V) → P v → Values P d → Values P (put_default k v d)
  unfolding put_default
  Values-put_default k v d p h = elim (Bool-cases (is_some (lookup k d))) [
    | inl e ↦ rw e h
    | inr e ↦ rw e (Values-insert k v d p h)
  ]

  lookup-Values : (k : String) (d : Dict V) (v : V) → Values P d → lookup k d ≡ some v → P v
  unfolding lookup
  lookup-Values k [] v h e = cc
  lookup-Values k ((j, w) ∷ d) v h e = elim (Bool-cases (k == j)) [
    | inl same ↦ let w≡v : some w ≡ some v = rw same at e in let q : w ≡ v = cc in subst P q h.0
    | inr other ↦ lookup-Values k d v h.1 (rw other at e)
  ]

pub Within-All :
    (P : String → Type 0) (xs : List String) → ((a : String) → mem a xs ≡ true → P a) → All P xs
Within-All P [] h = tt
Within-All P (x ∷ xs) h = (
  h x (unfold mem in ground (arith, str_refl x)),
  Within-All P xs (λ a m. h a (unfold mem in ground (arith, m))),
)

-- unions of parts lie within unions of wholes
Within-concat_map {ℓ} :
    {A : Type ℓ} (f g : A → List String)
    → ((a : A) → Within (f a) (g a))
    → (xs : List A) → Within (concat_map f xs) (concat_map g xs)
Within-concat_map f g each [] a m = m
Within-concat_map f g each (x ∷ xs) a m = ground (
  arith,
  each x a,
  Within-concat_map f g each xs a,
  mem-append a (f x) (concat_map f xs),
  mem-append a (g x) (concat_map g xs),
  m,
)

pub All-++ {ℓ} :
    {A : Type ℓ} (P : A → Type 0) (xs ys : List A) → All P xs → All P ys → All P (xs ++ ys)
All-++ P [] ys h k = k
All-++ P (x ∷ xs) ys h k = (h.0, All-++ P xs ys h.1 k)

numbered-All :
    (P : String → Type 0) (prefix : String) (position : ℕ) (vs : List String)
    → All P vs
    → All (λ (e : String × String). P e.1) (numbered prefix position vs)
unfolding numbered
numbered-All P prefix position [] h = tt
numbered-All P prefix position (v ∷ vs) h = (h.0, numbered-All P prefix (position + 1) vs h.1)

register-Values :
    (P : String → Type 0) (kind : EntryKind) (pairs : List (String × String))
    (entries : Dict (String × EntryKind))
    → All (λ (e : String × String). P e.1) pairs
    → Values (λ (v : String × EntryKind). P v.0) entries
    → Values (λ (v : String × EntryKind). P v.0) (register kind pairs entries)
unfolding register
register-Values P kind [] entries h k = k
register-Values P kind ((pointer, v) ∷ rest) entries h k =
    register-Values P kind rest (insert pointer (v, kind) entries) h.1
      (Values-insert (λ (v : String × EntryKind). P v.0) pointer (v, kind) entries h.0 k)

add_pointers-Values :
    (P : String → Type 0) (entries : Dict (String × EntryKind)) (resolver : Dict String)
    → Values (λ (v : String × EntryKind). P v.0) entries
    → Values P resolver
    → Values P (add_pointers entries resolver)
unfolding add_pointers
add_pointers-Values P [] resolver h k = k
add_pointers-Values P ((pointer, v) ∷ rest) resolver h k =
    add_pointers-Values P rest (put_default (lower pointer) v.0 (put_default pointer v.0 resolver))
      h.1
      (Values-put_default P (lower pointer) v.0 (put_default pointer v.0 resolver) h.0
        (Values-put_default P pointer v.0 resolver h.0 k))

add_canonical-Values :
    (P : String → Type 0) (vs : List String) (resolver : Dict String)
    → All P vs
    → Values P resolver
    → Values P (add_canonical vs resolver)
unfolding add_canonical
add_canonical-Values P [] resolver h k = k
add_canonical-Values P (v ∷ vs) resolver h k =
    add_canonical-Values P vs (insert v v resolver) h.1 (Values-insert P v v resolver h.0 k)

pub in_left : (a : String) (xs ys : List String) → mem a xs ≡ true → mem a (xs ++ ys) ≡ true
in_left a xs ys m = ground (arith, m, mem-append a xs ys)

pub in_right : (a : String) (xs ys : List String) → mem a ys ≡ true → mem a (xs ++ ys) ≡ true
in_right a xs ys m = ground (arith, m, mem-append a xs ys)

-- what a statement of a report may cite
abbrev pub universe : InvestigationState → List String
universe state = authorized_evidence_refs state ++ executed_query_ids state

abbrev pub IsCitable : InvestigationState → String → Type 0
IsCitable state a = mem a (universe state) ≡ true

module _ (state : InvestigationState) where
  -- the three parts of the authorised references
  activity_ids-Within : Within (activity_ids state) (authorized_evidence_refs state)
  unfolding activity_ids authorized_evidence_refs
  activity_ids-Within a m =
      let known = state.tool_ledger.authorized_activity_refs in
      in_left a _ _ (in_left a known _ (sym (mem-sorted_set a known) ∙ m))

  evidence_ids-Within : Within (evidence_ids state) (authorized_evidence_refs state)
  unfolding evidence_ids authorized_evidence_refs
  evidence_ids-Within a m =
      let ids = λ (r : ActivityQueryResult).
        map (λ (item : EvidenceReference). item.evidence_id) r.evidence_references in
      in_left a _ _ (
        in_right a state.tool_ledger.authorized_activity_refs _ (
          Within-concat_map ids _ (λ r b n. in_left b (ids r) _ n) state.tool_ledger.query_results a
            (sym (mem-sorted_set a (concat_map ids state.tool_ledger.query_results)) ∙ m)))

  entities-Within :
      (f : EntityExplorationResult → List String)
      → ((r : EntityExplorationResult)
          → Within (f r) (option_list r.identity ++ r.resolved_relations ++ r.candidate_relations))
      → Within (concat_map f state.tool_ledger.entity_results) (authorized_evidence_refs state)
  unfolding authorized_evidence_refs
  entities-Within f each a m =
      in_right a _ _ (Within-concat_map f _ each state.tool_ledger.entity_results a m)

  entity_ids-Within : Within (entity_ids state) (authorized_evidence_refs state)
  unfolding entity_ids
  entity_ids-Within a m =
      entities-Within (λ (r : EntityExplorationResult). option_list r.identity)
        (λ r b n. in_left b _ _ (in_left b (option_list r.identity) _ n)) a
        (sym (
            mem-sorted_set a (
              concat_map (λ (r : EntityExplorationResult). option_list r.identity)
                state.tool_ledger.entity_results))
          ∙ m)

  resolved-Within : Within (resolved_relation_ids state) (authorized_evidence_refs state)
  unfolding resolved_relation_ids
  resolved-Within a m =
      entities-Within (λ (r : EntityExplorationResult). r.resolved_relations)
        (λ r b n. in_left b _ _ (in_right b (option_list r.identity) _ n)) a m

  candidates-Within : Within (candidate_relation_ids state) (authorized_evidence_refs state)
  unfolding candidate_relation_ids
  candidates-Within a m =
      entities-Within (λ (r : EntityExplorationResult). r.candidate_relations)
        (λ r b n. in_right b (option_list r.identity ++ r.resolved_relations) _ n) a m

  Within-IsCitable :
      (xs : List String) → Within xs (authorized_evidence_refs state) → All (IsCitable state) xs
  Within-IsCitable xs w =
      Within-All (IsCitable state) xs (λ a m. in_left a (authorized_evidence_refs state) _ (w a m))

  sorted-IsCitable :
      (xs : List String)
      → Within xs (authorized_evidence_refs state)
      → All (IsCitable state) (sorted_set xs)
  sorted-IsCitable xs w =
      Within-IsCitable (sorted_set xs) (λ a m. w a (sym (mem-sorted_set a xs) ∙ m))

  queries-IsCitable : All (IsCitable state) (sorted_set (executed_query_ids state))
  queries-IsCitable = Within-All (IsCitable state) (sorted_set (executed_query_ids state)) (λ a m.
      in_right a (authorized_evidence_refs state) _
        (sym (mem-sorted_set a (executed_query_ids state)) ∙ m))

  entries_of-Values : Values (λ (v : String × EntryKind). IsCitable state v.0) (entries_of state)
  unfolding entries_of
  entries_of-Values =
      let P = IsCitable state in
      let add =
        λ (prefix : String) (kind : EntryKind) (vs : List String) (h : All P vs)
            (d : Dict (String × EntryKind)).
          register-Values P kind (numbered prefix 1 vs) d (numbered-All P prefix 1 vs h) in
      add "q" _ _ queries-IsCitable _ (
        add "x" _ _ (Within-IsCitable _ entity_ids-Within) _ (
          add "c" _ _ (sorted-IsCitable _ candidates-Within) _ (
            add "r" _ _ (sorted-IsCitable _ resolved-Within) _ (
              add "e" _ _ (Within-IsCitable _ evidence_ids-Within) _
                (add "a" _ _ (Within-IsCitable _ activity_ids-Within) [] tt)))))

  resolver-Values : Values (IsCitable state) (build state).resolver
  unfolding build
  resolver-Values =
      let P = IsCitable state in
      add_canonical-Values P _ _
        (All-++ P _ _
          (All-++ P _ _
            (All-++ P _ _
              (All-++ P _ _
                (All-++ P _ _ (Within-IsCitable _ activity_ids-Within)
                  (Within-IsCitable _ evidence_ids-Within))
                (Within-IsCitable _ resolved-Within))
              (Within-IsCitable _ candidates-Within))
            (Within-IsCitable _ entity_ids-Within))
          queries-IsCitable)
        (add_pointers-Values P (entries_of state) [] entries_of-Values tt)

either-eq-some :
    (a b : Option String) (id : String) → either a b ≡ some id → (a ≡ some id) ⊎ (b ≡ some id)
unfolding either
either-eq-some none b id e = inr e
either-eq-some (some s) b id e = elim (Bool-cases (is_empty s)) [
  | inl empty ↦ inr (rw empty at e)
  | inr full ↦ inl (rw full at e)
]

pub resolve_ref-IsCitable :
    (state : InvestigationState) (ref id : String)
    → resolve_ref (build state) ref ≡ some id
    → IsCitable state id
unfolding resolve_ref
resolve_ref-IsCitable state ref id e =
    let catalog = build state in
    elim (either-eq-some (lookup (strip ref) catalog.resolver)
      (lookup (lower (strip ref)) catalog.resolver) id e) [
        | inl exact ↦ lookup-Values (IsCitable state) _ _ id (resolver-Values state) exact
        | inr folded ↦ lookup-Values (IsCitable state) _ _ id (resolver-Values state) folded
      ]
