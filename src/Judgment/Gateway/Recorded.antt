-- ===== src/Judgment/Gateway/Recorded.antt =====
-- judgment/adapters/investigation_tools.py: the ledger after a validated result is recorded.
use unknown_file_threat_agen.Contracts.{
  Activity, ActivityQueryResult, EntityExplorationResult, InvestigationToolLedger,
  InvestigationToolTrace,
}
use unknown_file_threat_agen.Cases.BoundaryPolicy.{
  ToolRuntimeContext, ToolResult, query, exploration, raw_records, metrics, unchecked,
}
use unknown_file_threat_agen.Cases.BoundaryPolicy.Validated.{IsWithin, IsValidResult}
use unknown_file_threat_agen.Judgment.Gateway.{
  Failure, Tools, extend_activities, extend_entities, record_entities, record_result, append_trace,
}
use unknown_file_threat_agen.Shared.Json.{Json}
use unknown_file_threat_agen.Prelude.{
  ◌⊎◌, inl, inr, ℕ, suc, ◌+◌, String, ◌≡◌, refl, ◌∙◌, true, ◌||◌, Option, List, [], ◌∷◌, ◌++◌, map,
  arith, length, All, concat_map, mem, mem-append, mem-sorted_set,
}

-- the traces are numbered from `k` on, without a gap
abbrev pub IsTraced : ℕ → List InvestigationToolTrace → Type 0
IsTraced k [] = Unit
IsTraced k (t ∷ ts) = (t.sequence ≡ k) × IsTraced (suc k) ts

pub IsTraced-append :
    (k : ℕ) (ts : List InvestigationToolTrace) (t : InvestigationToolTrace)
    → IsTraced k ts
    → t.sequence ≡ length ts + k
    → IsTraced k (ts ++ (t ∷ []))
IsTraced-append k [] t h e = (ground arith, tt)
IsTraced-append k (u ∷ ts) t h e = (h.0, IsTraced-append (suc k) ts t h.1 (ground arith))

pub append_trace-IsTraced :
    (tool : String) (arguments : Json) (kind : String) (result : Json)
    (tool_call_id : Option String) (model_message : Json) (ledger : InvestigationToolLedger)
    → IsTraced 1 ledger.traces
    → IsTraced 1 (append_trace tool arguments kind result tool_call_id model_message ledger).traces
unfolding append_trace
append_trace-IsTraced tool arguments kind result tool_call_id model_message ledger h =
    IsTraced-append 1 ledger.traces _ h refl

-- the activities that the ledger holds
abbrev pub activities_of : InvestigationToolLedger → List Activity
activities_of ledger =
    concat_map (λ r. r.activities) ledger.query_results
    ++ concat_map (λ r. r.timeline) ledger.entity_results

abbrev pub ids_of : List Activity → List String
ids_of activities = map (λ a. a.activity_id) activities

-- everything in the ledger is of the run and within the scope, the authorised references are those
-- of activities in the ledger, and the traces are numbered
pub record IsConfined (context : ToolRuntimeContext) (ledger : InvestigationToolLedger)
    : Type 0 where
  pub results : All (λ r. IsValidResult context ledger (query r)) ledger.query_results
  pub timelines : All (λ r. All (IsWithin context.scope) r.timeline) ledger.entity_results
  pub backed :
      (a : String)
      → mem a ledger.authorized_activity_refs ≡ true
      → mem a (ids_of (activities_of ledger)) ≡ true
  pub traced : IsTraced 1 ledger.traces

All-snoc {ℓ κ} :
    {A : Type ℓ} (P : A → Type κ) (xs : List A) (x : A) → All P xs → P x → All P (xs ++ (x ∷ []))
All-snoc P [] x h p = (p, tt)
All-snoc P (y ∷ xs) x h p = (h.0, All-snoc P xs x h.1 p)

map-append {ℓ κ} :
    {A : Type ℓ} {B : Type κ} (f : A → B) (xs ys : List A) → map f (xs ++ ys) ≡ map f xs ++ map f ys
map-append f [] ys = refl
map-append f (x ∷ xs) ys = rw (map-append f xs ys) refl

mem-ids-append :
    (a : String) (xs ys : List Activity)
    → mem a (ids_of (xs ++ ys)) ≡ (mem a (ids_of xs) || mem a (ids_of ys))
mem-ids-append a xs ys =
    rw (map-append (λ b. b.activity_id) xs ys) (mem-append a (ids_of xs) (ids_of ys))

module _ {A : Type 0} (f : A → List Activity) (a : String) where
  mem-ids-snoc :
      (xs : List A) (x : A)
      → mem a (ids_of (concat_map f (xs ++ (x ∷ []))))
        ≡ (mem a (ids_of (concat_map f xs)) || mem a (ids_of (f x)))
  unfolding mem
  mem-ids-snoc [] x = ground (arith, mem-ids-append a (f x) [])
  mem-ids-snoc (y ∷ xs) x = ground (
    arith,
    mem-ids-append a (f y) (concat_map f (xs ++ (x ∷ []))),
    mem-ids-append a (f y) (concat_map f xs),
    mem-ids-snoc xs x,
  )

-- the references that an extension authorises
mem-extend_activities :
    (a : String) (activities : List Activity) (ledger : InvestigationToolLedger)
    → mem a (extend_activities activities ledger).authorized_activity_refs
      ≡ (mem a ledger.authorized_activity_refs || mem a (ids_of activities))
unfolding extend_activities
mem-extend_activities a activities ledger =
    mem-sorted_set a (ledger.authorized_activity_refs ++ ids_of activities)
    ∙ mem-append a ledger.authorized_activity_refs (ids_of activities)

mem-activities_of :
    (a : String) (queries : List ActivityQueryResult) (explorations : List EntityExplorationResult)
    → mem a (
        ids_of
          (concat_map (λ r. r.activities) queries ++ concat_map (λ r. r.timeline) explorations))
      ≡ (mem a (ids_of (concat_map (λ r. r.activities) queries))
          || mem a (ids_of (concat_map (λ r. r.timeline) explorations)))
mem-activities_of a queries explorations =
    mem-ids-append a (concat_map (λ r. r.activities) queries)
      (concat_map (λ r. r.timeline) explorations)

module _ (context : ToolRuntimeContext) (tools : Tools) where
  record_entities-IsConfined :
      (own : List String) (ledger : InvestigationToolLedger) (answer : Failure ⊎ List String)
      → IsConfined context ledger
      → IsConfined context (record_entities tools own ledger answer).0
  unfolding record_entities extend_entities
  record_entities-IsConfined own ledger (inl failure) c = c
  record_entities-IsConfined own ledger (inr refs) c = record {
    results = c.results;
    timelines = c.timelines;
    backed = c.backed;
    traced = c.traced;
  }

  pub record_result-IsConfined :
      (result : ToolResult) (ledger : InvestigationToolLedger)
      → IsValidResult context ledger result
      → IsConfined context ledger
      → IsConfined context (record_result tools result ledger).0
  unfolding record_result extend_activities
  record_result-IsConfined (query r) ledger v c = record {
    results = All-snoc _ ledger.query_results r c.results v;
    timelines = c.timelines;
    backed = λ a m.
        let before = mem-activities_of a ledger.query_results ledger.entity_results in
        let after = mem-activities_of a (ledger.query_results ++ (r ∷ [])) ledger.entity_results in
        ground (
          arith,
          c.backed a,
          mem-extend_activities a r.activities ledger,
          before,
          after,
          mem-ids-snoc (λ q. q.activities) a ledger.query_results r,
        );
    traced = c.traced;
  }
  record_result-IsConfined (exploration r) ledger v c = record_entities-IsConfined _ _ _ (record {
    results = c.results;
    timelines = All-snoc _ ledger.entity_results r c.timelines v;
    backed = λ a m.
        let before = mem-activities_of a ledger.query_results ledger.entity_results in
        let after = mem-activities_of a ledger.query_results (ledger.entity_results ++ (r ∷ [])) in
        ground (
          arith,
          c.backed a,
          mem-extend_activities a r.timeline ledger,
          before,
          after,
          mem-ids-snoc (λ q. q.timeline) a ledger.entity_results r,
        );
    traced = c.traced;
  })
  record_result-IsConfined (raw_records refs) ledger v c = record {
    results = c.results;
    timelines = c.timelines;
    backed = c.backed;
    traced = c.traced;
  }
  record_result-IsConfined (metrics refs) ledger v c = record {
    results = c.results;
    timelines = c.timelines;
    backed = c.backed;
    traced = c.traced;
  }
  record_result-IsConfined unchecked ledger v c = c
