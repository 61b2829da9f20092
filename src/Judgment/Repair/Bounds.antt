-- ===== src/Judgment/Repair/Bounds.antt =====
-- judgment/application/report_repair.py: the budget of the repair loop and the issues that it reports.
use unknown_file_threat_agen.Contracts.{InvestigationState}
use unknown_file_threat_agen.Judgment.Grounding.{ReportValidationIssue, ReportDraft, validate}
use unknown_file_threat_agen.Judgment.Repair.{
  RepairEvent, validated, rejudged, RepairOutcome, Composer, repair_loop, evaluate, issue_codes,
}
use unknown_file_threat_agen.Prelude.{
  ℕ, zero, suc, ◌+◌, ◌≤◌, ◌≡◌, refl, inl, inr, not, List, [], ◌∷◌, ◌++◌, arith, Bool-cases,
  Option-cases, is_nil,
}

-- the outcome after `attempts` rejudgments, with `left` of them to go
pub record IsSound (state : InvestigationState) (used budget : ℕ) (o : RepairOutcome) : Type 0 where
  pub revalidated : o.issues ≡ validate state o.draft
  pub at_least : used ≤ o.rejudgments_used
  pub at_most : o.rejudgments_used ≤ budget
  pub exhausted_lem : o.exhausted ≡ not (is_nil o.issues)

module _ (rejudge : Composer) (state : InvestigationState) where
  repair_loop-IsSound :
      (left attempts : ℕ) (draft : ReportDraft) (issues : List ReportValidationIssue)
      (events : List RepairEvent)
      → issues ≡ validate state draft
      → IsSound state attempts
          (attempts + left)
          (repair_loop rejudge state left attempts draft issues events)
  unfolding repair_loop
  repair_loop-IsSound zero attempts draft issues events e = record {
    revalidated = e;
    at_least = omega arith;
    at_most = omega arith;
    exhausted_lem = refl;
  }
  repair_loop-IsSound (suc left) attempts draft issues events e =
      elim (Bool-cases (is_nil issues)) [
        | inl clean ↦
            rw (clean, repair_loop)
              (record {
                revalidated = e;
                at_least = omega arith;
                at_most = omega arith;
                exhausted_lem = rw clean;
              })
        | inr faulty ↦ elim (Option-cases (rejudge state draft issues (attempts + 1))) [
          | inl raised ↦
              rw (faulty, raised, repair_loop)
                (record {
                  revalidated = e;
                  at_least = omega arith;
                  at_most = omega arith;
                  exhausted_lem = rw faulty;
                })
          | inr (redraft, answered) ↦
              let after =
                repair_loop-IsSound left (attempts + 1) redraft (validate state redraft)
                  (events
                    ++ rejudged (attempts + 1) (issue_codes issues)
                        (issue_codes (validate state redraft))
                      ∷ [])
                  refl in
              rw (faulty, answered, repair_loop)
                (record {
                  revalidated = after.revalidated;
                  at_least = omega (arith, after.at_least);
                  at_most = omega (arith, after.at_most);
                  exhausted_lem = after.exhausted_lem;
                })
        ]
      ]

  -- Whatever the composer answers, `evaluate` returns a draft together with the issues that the
  -- validation finds in it, after at most the allowed number of rejudgments, and it reports itself
  -- exhausted exactly when that draft has an issue.
  pub evaluate-IsSound :
      (draft : ReportDraft) (max_rejudgments : ℕ)
      → IsSound state 0 max_rejudgments (evaluate rejudge state draft max_rejudgments)
  unfolding evaluate
  evaluate-IsSound draft max_rejudgments =
      let issues = validate state draft in
      let s =
        repair_loop-IsSound max_rejudgments 0 draft issues
          (validated (is_nil issues) (issue_codes issues) ∷ []) refl in
      record {
        revalidated = s.revalidated;
        at_least = omega arith;
        at_most = omega (arith, s.at_most);
        exhausted_lem = s.exhausted_lem;
      }
