-- ===== src/Judgment/EvidenceGate/Reachable.antt =====
-- judgment/application/evidence_gate.py: what a citation can resolve to.
use mathlib.Core.Path.{subst}
use unknown_file_threat_agen.Contracts.{
  Activity, ActivityQueryResult, EntityExplorationResult, InvestigationState,
}
use unknown_file_threat_agen.Judgment.EvidenceGate.{
  add_activities, add_query_results, set_default, add_timeline, add_entity_results,
  resolve_cited_activity, cited_id,
}
use unknown_file_threat_agen.Prelude.{
  String, ◌≡◌, refl, ◌⊎◌, inl, inr, some, List, [], ◌∷◌, ◌++◌, arith, ◌==◌, eq_iff, Bool-cases,
  is_some, All, concat_map,
}
use unknown_file_threat_agen.Prelude.Dict
use unknown_file_threat_agen.Prelude.Dict.{Dict}

-- an activity that is one of a list
abbrev pub IsIn : Activity → List Activity → Type 0
IsIn a [] = ⊥
IsIn a (x ∷ xs) = (a ≡ x) ⊎ IsIn a xs

-- every activity that the run's queries and explorations returned
abbrev pub returned_activities : InvestigationState → List Activity
returned_activities state =
    concat_map (λ (r : ActivityQueryResult). r.activities) state.tool_ledger.query_results
    ++ concat_map (λ (r : EntityExplorationResult). r.timeline) state.tool_ledger.entity_results

pub IsIn-append_left : (a : Activity) (xs ys : List Activity) → IsIn a xs → IsIn a (xs ++ ys)
IsIn-append_left a [] ys h = absurd h
IsIn-append_left a (x ∷ xs) ys (inl e) = inl e
IsIn-append_left a (x ∷ xs) ys (inr h) = inr (IsIn-append_left a xs ys h)

pub IsIn-append_right : (a : Activity) (xs ys : List Activity) → IsIn a ys → IsIn a (xs ++ ys)
IsIn-append_right a [] ys h = h
IsIn-append_right a (x ∷ xs) ys h = inr (IsIn-append_right a xs ys h)

IsIn-weaken :
    (x : Activity) (xs ys : List Activity) → All (λ a. IsIn a xs) ys → All (λ a. IsIn a (x ∷ xs)) ys
IsIn-weaken x xs [] h = tt
IsIn-weaken x xs (y ∷ ys) h = (inr h.0, IsIn-weaken x xs ys h.1)

pub IsIn-self : (xs : List Activity) → All (λ a. IsIn a xs) xs
IsIn-self [] = tt
IsIn-self (x ∷ xs) = (inl refl, IsIn-weaken x xs xs (IsIn-self xs))

All-append_split :
    (P : Activity → Type 0) (xs ys : List Activity) → All P (xs ++ ys) → All P xs × All P ys
All-append_split P [] ys h = (tt, h)
All-append_split P (x ∷ xs) ys h =
    let rest = All-append_split P xs ys h.1 in ((h.0, rest.0), rest.1)

module _ (P : Activity → Type 0) where
  -- every entry of the dictionary has the property, and stands at its identifier
  abbrev Holds : Dict Activity → Type 0
  Holds d = (k : String) (a : Activity) → Dict.lookup k d ≡ some a → P a × (a.activity_id ≡ k)

  Holds-nil : Holds []
  unfolding Dict.lookup
  Holds-nil k a e = cc

  Holds-insert :
      (x : Activity) (d : Dict Activity) → P x → Holds d → Holds (Dict.insert x.activity_id x d)
  Holds-insert x d px h k a e = elim (Bool-cases (k == x.activity_id)) [
    | inl same ↦
        let found : some x ≡ some a =
          ground (arith, e, Dict.lookup-insert k x.activity_id x d, same) in
        let same_x : x ≡ a = ground (arith, found) in
        (subst P same_x px, ground (arith, same_x, same, eq_iff k x.activity_id))
    | inr differs ↦ h k a (ground (arith, e, Dict.lookup-insert k x.activity_id x d, differs))
  ]

  Holds-add_activities :
      (xs : List Activity) (d : Dict Activity) → All P xs → Holds d → Holds (add_activities xs d)
  unfolding add_activities
  Holds-add_activities [] d p h = h
  Holds-add_activities (x ∷ xs) d p h =
      Holds-add_activities xs (Dict.insert x.activity_id x d) p.1 (Holds-insert x d p.0 h)

  Holds-add_query_results :
      (rs : List ActivityQueryResult) (d : Dict Activity)
      → All P (concat_map (λ (r : ActivityQueryResult). r.activities) rs)
      → Holds d
      → Holds (add_query_results rs d)
  unfolding add_query_results
  Holds-add_query_results [] d p h = h
  Holds-add_query_results (r ∷ rs) d p h =
      let parts =
        All-append_split P r.activities (concat_map (λ (r : ActivityQueryResult). r.activities) rs)
          p in
      Holds-add_query_results rs (add_activities r.activities d) parts.1
        (Holds-add_activities r.activities d parts.0 h)

  Holds-set_default : (x : Activity) (d : Dict Activity) → P x → Holds d → Holds (set_default x d)
  unfolding set_default
  Holds-set_default x d p h = elim (Bool-cases (is_some (Dict.lookup x.activity_id d))) [
    | inl known ↦ rw known h
    | inr new ↦ rw new (Holds-insert x d p h)
  ]

  Holds-add_timeline :
      (xs : List Activity) (d : Dict Activity) → All P xs → Holds d → Holds (add_timeline xs d)
  unfolding add_timeline
  Holds-add_timeline [] d p h = h
  Holds-add_timeline (x ∷ xs) d p h =
      Holds-add_timeline xs (set_default x d) p.1 (Holds-set_default x d p.0 h)

  Holds-add_entity_results :
      (rs : List EntityExplorationResult) (d : Dict Activity)
      → All P (concat_map (λ (r : EntityExplorationResult). r.timeline) rs)
      → Holds d
      → Holds (add_entity_results rs d)
  unfolding add_entity_results
  Holds-add_entity_results [] d p h = h
  Holds-add_entity_results (r ∷ rs) d p h =
      let parts =
        All-append_split P r.timeline (concat_map (λ (r : EntityExplorationResult). r.timeline) rs)
          p in
      Holds-add_entity_results rs (add_timeline r.timeline d) parts.1
        (Holds-add_timeline r.timeline d parts.0 h)

-- What a reference resolves to was returned by a query or an exploration of this run.
pub resolve_cited_activity-IsIn :
    (state : InvestigationState) (ref : String) (a : Activity)
    → resolve_cited_activity state ref ≡ some a
    → IsIn a (returned_activities state)
unfolding resolve_cited_activity
resolve_cited_activity-IsIn state ref a e =
    let P = λ (x : Activity). IsIn x (returned_activities state) in
    let queries =
      concat_map (λ (r : ActivityQueryResult). r.activities) state.tool_ledger.query_results in
    let timelines =
      concat_map (λ (r : EntityExplorationResult). r.timeline) state.tool_ledger.entity_results in
    let parts = All-append_split P queries timelines (IsIn-self (returned_activities state)) in
    let references =
      concat_map (λ (result : ActivityQueryResult). result.evidence_references)
        state.tool_ledger.query_results in
    (Holds-add_entity_results P state.tool_ledger.entity_results
      (add_query_results state.tool_ledger.query_results []) parts.1
      (Holds-add_query_results P state.tool_ledger.query_results [] parts.0 (Holds-nil P))
      (cited_id ref references ref) a e).0
