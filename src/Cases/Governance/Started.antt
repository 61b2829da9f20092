-- ===== src/Cases/Governance/Started.antt =====
-- case_management/application/graph.py: the start of the case graph, from the judgment on.
use mathlib.Core.Path.{subst}
use unknown_file_threat_agen.Contracts.{InvestigationState}
use unknown_file_threat_agen.Judgment.Publication.{Publication}
use unknown_file_threat_agen.Response.Policy.{JudgmentResult}
use unknown_file_threat_agen.Response.Graph.{ResponsePlan, ResponsePorts}
use unknown_file_threat_agen.Response.Graph.Flow.{advise}
use unknown_file_threat_agen.Response.Graph.Safe.{MayRaise, advise_lem}
use unknown_file_threat_agen.Cases.Governance.{
  waiting, after_advice, start_with, run_judgment, CaseRoute, judged_route, investigating, judged,
  response_route, complete, CaseGraphState, CasePorts, judgment_of, build_judgment_result,
  run_response_advisory, CaseConfig, at, ended, raised, after_judge, after_publication, with_plan,
  after_response, visit, steps, start, has_response,
}
use unknown_file_threat_agen.Prelude.{
  ◌-◌, ◌≤◌, ◌<◌, arith, zero, suc, lt-or-le, ℕ, ◌≡◌, refl, sym, ap, ◌∙◌, ◌⊎◌, inl, inr, Bool, true,
  false, Option, none, some, if◌then◌else◌, Option-cases,
}
use unknown_file_threat_agen.Cases.Governance.Approved.{
  AdviceRaises, Stops, HasNoVerdict, Stops-planned,
}

-- the state that the publication leaves
abbrev published_state : CaseGraphState → JudgmentResult → CaseRoute → CaseGraphState
published_state s j route = record s {
  judgment_result = some j;
  investigation_report = s.published;
  lifecycle_status = judged;
  route = route;
}

after_publication-if :
    (s : CaseGraphState) (j : JudgmentResult) (answers : Bool)
    → after_publication answers s (some j) ≡ (
        if answers
        then at run_response_advisory (published_state s j response_route)
        else ended (published_state s j complete))
unfolding after_publication
after_publication-if s j true = refl
after_publication-if s j false = refl

-- the rest of a run after the judgment is published
module _ (ports : CasePorts) (s : CaseGraphState) (j : JudgmentResult) (k : ℕ) where
  abbrev rest : CaseConfig
  rest =
      steps ports (suc (suc (suc k)))
        (after_publication (has_response ports.response_graph) s (some j))

  rest-none : ports.response_graph ≡ none → rest ≡ ended (published_state s j complete)
  unfolding steps has_response
  rest-none e =
      ap (λ g. steps ports (suc (suc (suc k))) (after_publication (has_response g) s (some j))) e
      ∙ ap (steps ports (suc (suc (suc k)))) (after_publication-if s j false)

  rest-some :
      (rp : ResponsePorts) (limit : ℕ) (p : ResponsePlan)
      → ports.response_graph ≡ some (rp, limit)
      → advise rp ports.recursion_limit limit j ≡ some p
      → rest
        ≡ steps ports (suc k) (
            after_response
              (record (published_state s j response_route) { response_plan = some p })
              (some p))
  unfolding steps visit has_response with_plan after_advice
  rest-some rp limit p e given =
      let next = published_state s j response_route in
      ap (λ g. steps ports (suc (suc (suc k))) (after_publication (has_response g) s (some j))) e
      ∙ ap (steps ports (suc (suc (suc k)))) (after_publication-if s j true)
      ∙ ap (λ g. steps ports (suc (suc k)) (with_plan ports.recursion_limit next g (some j))) e
      ∙ ap (λ plan. steps ports (suc (suc k)) (after_advice next plan)) given

  rest-raised :
      (rp : ResponsePorts) (limit : ℕ)
      → ports.response_graph ≡ some (rp, limit)
      → advise rp ports.recursion_limit limit j ≡ none
      → rest ≡ raised
  unfolding steps visit has_response with_plan after_advice
  rest-raised rp limit e over =
      let next = published_state s j response_route in
      ap (λ g. steps ports (suc (suc (suc k))) (after_publication (has_response g) s (some j))) e
      ∙ ap (steps ports (suc (suc (suc k)))) (after_publication-if s j true)
      ∙ ap (λ g. steps ports (suc (suc k)) (with_plan ports.recursion_limit next g (some j))) e
      ∙ ap (λ plan. steps ports (suc (suc k)) (after_advice next plan)) over

  Stops-rest :
      s.approval_status ≡ none
      → s.response_plan ≡ none
      → ((rest ≡ raised)
          × ((rp : ResponsePorts) × (limit : ℕ) × (ports.response_graph ≡ some (rp, limit))
              × MayRaise rp j limit ports.recursion_limit))
        ⊎ Stops rest
  Stops-rest unapproved unplanned = elim (Option-cases ports.response_graph) [
    | inl e ↦
        inr (inl (published_state s j complete, rest-none e, (unapproved, inl (unplanned, refl))))
    | inr ((rp, limit), e) ↦ elim (advise_lem rp ports.recursion_limit limit j) [
      | inl (over, why) ↦ inl (rest-raised rp limit e over, (rp, limit, e, why))
      | inr (p, given, safe) ↦
          let next = record (published_state s j response_route) { response_plan = some p } in
          inr (
            subst Stops (sym (rest-some rp limit p e given))
              (Stops-planned ports next j p k unapproved refl refl safe))
    ]
  ]

judgment_of-cases :
    (state : InvestigationState) (report : Option Publication)
    → ((state.verdict ≡ none) × (build_judgment_result state report ≡ none))
      ⊎ ((j : JudgmentResult) × (build_judgment_result state report ≡ some j))
unfolding build_judgment_result judgment_of
judgment_of-cases state report = elim (Option-cases state.verdict) [
  | inl e ↦ inl (e, ap (judgment_of state report) e)
  | inr (v, e) ↦ inr (_, ap (judgment_of state report) e)
]

-- the state after the judgment
abbrev judged_state : InvestigationState → Option Publication → CaseGraphState
judged_state next report = record {
  lifecycle_status = judged;
  investigation = next;
  published = report;
  judgment_result = none;
  investigation_report = none;
  response_plan = none;
  approval_status = none;
  route = judged_route;
}

module _ (ports : CasePorts) (state : InvestigationState) where
  -- the case graph before its first node
  abbrev first : CaseConfig
  first = at run_judgment (record (judged_state state none) { lifecycle_status = investigating })

  start-after_publication :
      (next : InvestigationState) (report : Option Publication) (k : ℕ)
      → ports.judge state ≡ some (next, report)
      → steps ports (suc (suc (suc (suc (suc (suc k)))))) first
        ≡ steps ports (suc (suc (suc k))) (
            after_publication
              (has_response ports.response_graph)
              (judged_state next report)
              (build_judgment_result next report))
  unfolding steps visit after_judge
  start-after_publication next report k e =
      ap
        (λ x.
          steps ports (suc (suc (suc (suc (suc k)))))
            (after_judge (record (judged_state state none) { lifecycle_status = investigating }) x))
        e

  start-raised :
      (k : ℕ)
      → ports.judge state ≡ none
      → steps ports (suc (suc (suc (suc (suc (suc k)))))) first ≡ raised
  unfolding steps visit after_judge
  start-raised k e =
      ap
        (λ x.
          steps ports (suc (suc (suc (suc (suc k)))))
            (after_judge (record (judged_state state none) { lifecycle_status = investigating }) x))
        e

  -- why a start raises
  abbrev pub MayFail : Type 0
  MayFail = HasNoVerdict ports state ⊎ (AdviceRaises ports state ⊎ (ports.recursion_limit < 6))

  abbrev IsStart : CaseConfig → Type 0
  IsStart c = ((c ≡ raised) × MayFail) ⊎ Stops c

  IsStart-six : (k : ℕ) → IsStart (steps ports (suc (suc (suc (suc (suc (suc k)))))) first)
  unfolding after_publication steps
  IsStart-six k = elim (Option-cases (ports.judge state)) [
    | inl e ↦ inl (start-raised k e, inl (inl e))
    | inr ((next, report), e) ↦
        let reached = start-after_publication next report k e in
        let s = judged_state next report in
        let end_of = λ (result : Option JudgmentResult).
          steps ports (suc (suc (suc k)))
            (after_publication (has_response ports.response_graph) s result) in
        elim (judgment_of-cases next report) [
          | inl (mute, none_built) ↦
              inl (reached ∙ ap end_of none_built, inl (inr (next, report, e, mute)))
          | inr (j, built) ↦ elim (Stops-rest ports s j k refl refl) [
            | inl (over, (rp, limit, given, why)) ↦ inl (
              reached ∙ ap end_of built ∙ over,
              inr (inl (next, report, j, rp, limit, e, built, given, why)),
            )
            | inr stops ↦ inr (subst Stops (sym (reached ∙ ap end_of built)) stops)
          ]
        ]
  ]

  steps-shorter :
      (m n : ℕ) (c : CaseConfig)
      → m ≤ n
      → (steps ports m c ≡ raised) ⊎ (steps ports m c ≡ steps ports n c)
  unfolding steps
  steps-shorter m n (ended t) h = inr refl
  steps-shorter m n (waiting t) h = inr refl
  steps-shorter m n raised h = inl refl
  steps-shorter zero n (at node t) h = inl refl
  steps-shorter (suc m) zero (at node t) h = absurd (omega (arith, h))
  steps-shorter (suc m) (suc n) (at node t) h =
      steps-shorter m n (visit ports node t) (omega (arith, h))

  -- Whatever the ports answer, a case that starts raises, ends or waits. It raises only when the judgment raises or leaves
  -- no verdict, when the context port of the response graph raises, or when the recursion limit is below six or below
  -- the nodes that the response graph may need. When it ends, it has no plan, or it is advised with a plan in which no
  -- action needs an approval. When it waits, it awaits the approval of a plan in which an action needs one. Either plan
  -- is accepted by the policy for the judgment, or has no actions, and in neither case is an approval recorded.
  pub start-Stops : ((start ports state ≡ raised) × MayFail) ⊎ Stops (start ports state)
  unfolding start start_with
  start-Stops = elim (lt-or-le ports.recursion_limit 6) [
    | inl low ↦ elim (steps-shorter ports.recursion_limit 6 first (omega (arith, low))) [
      | inl over ↦ inl (over, inr (inr low))
      | inr same ↦ subst IsStart (sym same) (IsStart-six 0)
    ]
    | inr enough ↦
        let k = ports.recursion_limit - 6 in
        let whole : suc (suc (suc (suc (suc (suc k))))) ≡ ports.recursion_limit =
          omega (arith, enough) in
        subst (λ n. IsStart (steps ports n first)) whole (IsStart-six k)
  ]
