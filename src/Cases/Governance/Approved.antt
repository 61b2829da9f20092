-- ===== src/Cases/Governance/Approved.antt =====
-- case_management/application/graph.py: the end of a start of the case graph, from the response plan on.
use unknown_file_threat_agen.Contracts.{InvestigationState}
use unknown_file_threat_agen.Judgment.Publication.{Publication}
use unknown_file_threat_agen.Response.Policy.{JudgmentResult}
use unknown_file_threat_agen.Response.Graph.{ResponsePorts, ResponsePlan}
use unknown_file_threat_agen.Response.Graph.Safe.{MayRaise}
use unknown_file_threat_agen.Response.Graph.Plans.{IsSafePlan, any_approval}
use unknown_file_threat_agen.Cases.Governance.{
  build_judgment_result, judged, awaiting_response_approval, advised, approval_route, complete,
  CaseGraphState, CasePorts, approve_response, CaseConfig, at, waiting, ended, is_approval_required,
  after_response, interrupt, visit, steps,
}
use unknown_file_threat_agen.Prelude.{
  ℕ, suc, ◌≡◌, refl, ap, ◌∙◌, ◌⊎◌, inl, inr, true, false, Option, none, some,
}

-- a case that ended without a plan, or with a plan that nobody has to approve
abbrev pub IsSettled : CaseGraphState → Type 0
IsSettled s =
    (s.approval_status ≡ none)
    × (((s.response_plan ≡ none) × (s.lifecycle_status ≡ judged))
        ⊎ ((j : JudgmentResult) × (p : ResponsePlan) × (s.judgment_result ≡ some j)
            × (s.response_plan ≡ some p)
            × IsSafePlan j p
            × (any_approval p.actions ≡ false)
            × (s.lifecycle_status ≡ advised)))

-- a case that waits for the decision on its plan
abbrev pub IsWaiting : CaseGraphState → Type 0
IsWaiting s =
    (s.approval_status ≡ none)
    × ((j : JudgmentResult) × (p : ResponsePlan) × (s.judgment_result ≡ some j)
        × (s.response_plan ≡ some p)
        × IsSafePlan j p
        × (any_approval p.actions ≡ true)
        × (s.lifecycle_status ≡ awaiting_response_approval))

abbrev pub Stops : CaseConfig → Type 0
Stops c =
    ((s : CaseGraphState) × (c ≡ ended s) × IsSettled s)
    ⊎ ((s : CaseGraphState) × (c ≡ waiting s) × IsWaiting s)

-- why a start raises
abbrev pub HasNoVerdict : CasePorts → InvestigationState → Type 0
HasNoVerdict ports state =
    (ports.judge state ≡ none)
    ⊎ ((next : InvestigationState) × (report : Option Publication) × (ports.judge state
          ≡ some (next, report))
        × (next.verdict ≡ none))

-- the response graph raises: its context port does, or the recursion limit is too low for it
abbrev pub AdviceRaises : CasePorts → InvestigationState → Type 0
AdviceRaises ports state =
    (next : InvestigationState) × (report : Option Publication) × (j : JudgmentResult)
    × (rp : ResponsePorts) × (limit : ℕ) × (ports.judge state ≡ some (next, report))
    × (build_judgment_result next report ≡ some j)
    × (ports.response_graph ≡ some (rp, limit))
    × MayRaise rp j limit ports.recursion_limit

after_response-settled :
    (s : CaseGraphState) (p : ResponsePlan)
    → is_approval_required p.status ≡ false
    → after_response s (some p) ≡ ended (record s { lifecycle_status = advised; route = complete })
unfolding after_response
after_response-settled s p h = rw h refl

after_response-waiting :
    (s : CaseGraphState) (p : ResponsePlan)
    → is_approval_required p.status ≡ true
    → after_response s (some p)
      ≡ at approve_response
          (record s { lifecycle_status = awaiting_response_approval; route = approval_route })
unfolding after_response
after_response-waiting s p h = rw h refl

-- the rest of a run whose response graph gave a plan
module _ (ports : CasePorts) (s : CaseGraphState) (j : JudgmentResult) (p : ResponsePlan)
    (k : ℕ) where
  Stops-settled :
      s.approval_status ≡ none
      → s.judgment_result ≡ some j
      → s.response_plan ≡ some p
      → IsSafePlan j p
      → is_approval_required p.status ≡ false
      → any_approval p.actions ≡ false
      → Stops (steps ports (suc k) (after_response s (some p)))
  unfolding steps
  Stops-settled unapproved judged_so planned safe h free = inl (
    record s { lifecycle_status = advised; route = complete },
    ap (steps ports (suc k)) (after_response-settled s p h),
    (unapproved, inr (j, p, judged_so, planned, safe, free, refl)),
  )

  Stops-waiting :
      s.approval_status ≡ none
      → s.judgment_result ≡ some j
      → s.response_plan ≡ some p
      → IsSafePlan j p
      → is_approval_required p.status ≡ true
      → any_approval p.actions ≡ true
      → Stops (steps ports (suc k) (after_response s (some p)))
  unfolding steps visit interrupt
  Stops-waiting unapproved judged_so planned safe h asked =
      let next = record s {
        lifecycle_status = awaiting_response_approval;
        route = approval_route;
      } in
      inr (
        next,
        ap (steps ports (suc k)) (after_response-waiting s p h)
            ∙ ap (λ x. steps ports k (interrupt next x)) planned,
        (unapproved, (j, p, judged_so, planned, safe, asked, refl)),
      )

  pub Stops-planned :
      s.approval_status ≡ none
      → s.judgment_result ≡ some j
      → s.response_plan ≡ some p
      → IsSafePlan j p
      → Stops (steps ports (suc k) (after_response s (some p)))
  unfolding is_approval_required
  Stops-planned unapproved judged_so planned safe = elim safe [
    | inl (short, idle, why) ↦
        Stops-settled unapproved judged_so planned (inl (short, idle, why))
          (ap is_approval_required short) (ap (λ actions. any_approval actions) idle)
    | inr (clean, accepted, inl (asks, asked)) ↦
        Stops-waiting unapproved judged_so planned (inr (clean, accepted, inl (asks, asked)))
          (ap is_approval_required asks) asked
    | inr (clean, accepted, inr (quiet, free)) ↦
        Stops-settled unapproved judged_so planned (inr (clean, accepted, inr (quiet, free)))
          (ap is_approval_required quiet) free
  ]
