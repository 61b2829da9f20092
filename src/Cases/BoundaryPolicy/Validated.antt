-- ===== src/Cases/BoundaryPolicy/Validated.antt =====
-- case_management/application/boundary_policy.py: the results that are validated.
use unknown_file_threat_agen.Contracts.{
  Activity, ActivityQueryResult, InvestigationToolLedger, Scope,
}
use unknown_file_threat_agen.Cases.BoundaryPolicy.{
  pass, Identity, ToolRuntimeContext, foreign_host, earlier, check_activity, check_activities,
  check_result_identity, check_references, ToolResult, query, exploration, raw_records, metrics,
  unchecked, validate_result, Stamp, Arguments, authorize_call, tool_scope_domain, domain_refused,
}
use unknown_file_threat_agen.Cases.BoundaryPolicy.Authorized.{>>-eq-pass, earlier_iff}
use unknown_file_threat_agen.Prelude.{
  ℕ, ◌≤◌, String, ◌≡◌, refl, ◌↔◌, true, false, Option, none, some, List, [], ◌∷◌, arith, eq_iff,
  All, mem, covered_iff,
}

-- an activity that names no host outside the scope, within its window
pub record IsWithin (scope : Scope) (a : Activity) : Type 0 where
  pub host : (h : String) → a.host_ref ≡ some h → mem h scope.host_ids ≡ true
  pub start : (u : ℕ) → scope.start_time ≡ some u → u ≤ a.observed_at
  pub end : (t : ℕ) → scope.end_time ≡ some t → a.observed_at ≤ t

foreign_host_iff :
    (o : Option String) (hosts : List String)
    → (foreign_host o hosts ≡ false) ↔ ((h : String) → o ≡ some h → mem h hosts ≡ true)
unfolding foreign_host
foreign_host_iff none hosts = (λ h x e. cc, λ h. refl)
foreign_host_iff (some y) hosts = (λ h x e. ground arith, λ h. ground (arith, h y refl))

check_activity-guards :
    (scope : Scope) (tool : String) (a : Activity)
    → (check_activity scope tool a ≡ pass) ↔ (
        (foreign_host a.host_ref scope.host_ids ≡ false)
        × (earlier (some a.observed_at) scope.start_time ≡ false)
        × (earlier scope.end_time (some a.observed_at) ≡ false))
unfolding check_activity
check_activity-guards scope tool a = ground arith

check_activity_iff :
    (scope : Scope) (tool : String) (a : Activity)
    → (check_activity scope tool a ≡ pass) ↔ IsWithin scope a
check_activity_iff scope tool a =
    let steps = check_activity-guards scope tool a in
    let host = foreign_host_iff a.host_ref scope.host_ids in
    let start = earlier_iff (some a.observed_at) scope.start_time in
    let end = earlier_iff scope.end_time (some a.observed_at) in
    (
      λ h.
          let g = steps.0 h in
          record {
            host = host.0 g.0;
            start = λ u e. start.0 g.1 a.observed_at u refl e;
            end = λ t e. end.0 g.2 t a.observed_at e refl;
          },
      λ w. steps.1 (
        host.1 w.host,
        start.1 (λ t u e f. ground (arith, w.start u f)),
        end.1 (λ t u e f. ground (arith, w.end t e)),
      ),
    )

check_activities_iff :
    (scope : Scope) (tool : String) (activities : List Activity)
    → (check_activities scope tool activities ≡ pass) ↔ All (IsWithin scope) activities
unfolding check_activities
check_activities_iff scope tool [] = (λ h. tt, λ h. refl)
check_activities_iff scope tool (a ∷ rest) =
    let both = >>-eq-pass (check_activity scope tool a) (check_activities scope tool rest) in
    let one = check_activity_iff scope tool a in
    let others = check_activities_iff scope tool rest in
    (λ h. (one.0 (both.0 h).0, others.0 (both.0 h).1), λ w. both.1 (one.1 w.0, others.1 w.1))

-- what a result that passes has shown
abbrev pub IsValidResult : ToolRuntimeContext → InvestigationToolLedger → ToolResult → Type 0
IsValidResult context ledger (query r) =
    (r.tenant_id ≡ context.identity.tenant_id)
    × (r.case_id ≡ context.identity.case_id)
    × (r.run_id ≡ context.identity.run_id)
    × All (IsWithin context.scope) r.activities
IsValidResult context ledger (exploration r) = All (IsWithin context.scope) r.timeline
IsValidResult context ledger (raw_records refs) =
    (a : String) → mem a refs ≡ true → mem a ledger.authorized_activity_refs ≡ true
IsValidResult context ledger (metrics refs) =
    (a : String) → mem a refs ≡ true → mem a ledger.authorized_activity_refs ≡ true
IsValidResult context ledger unchecked = Unit

check_result_identity_iff :
    (i : Identity) (r : ActivityQueryResult)
    → (check_result_identity i r ≡ pass)
      ↔ ((r.tenant_id ≡ i.tenant_id) × (r.case_id ≡ i.case_id) × (r.run_id ≡ i.run_id))
unfolding check_result_identity
check_result_identity_iff i r =
    ground
      (arith, eq_iff r.tenant_id i.tenant_id, eq_iff r.case_id i.case_id, eq_iff r.run_id i.run_id)

check_references_iff :
    (ledger : InvestigationToolLedger) (tool : String) (refs : List String)
    → (check_references ledger tool refs ≡ pass)
      ↔ ((a : String) → mem a refs ≡ true → mem a ledger.authorized_activity_refs ≡ true)
unfolding check_references
check_references_iff ledger tool refs =
    let covered = covered_iff refs ledger.authorized_activity_refs in
    (λ h. covered.0 (ground (arith, h)), λ h. ground (arith, covered.1 h))

-- `validate_result` passes exactly when: a query result has the identity of the run, no activity in it names a host
-- outside the scope, and each lies within the scope's window, as far as it has one; the activities of the timeline of
-- an exploration do the same; raw records and metrics cite authorised activities only. An activity that names no host,
-- the domain of an activity and results of other types are not checked.
pub validate_result_iff :
    (context : ToolRuntimeContext) (ledger : InvestigationToolLedger) (tool : String)
    (result : ToolResult)
    → (validate_result context ledger tool result ≡ pass) ↔ IsValidResult context ledger result
unfolding validate_result
validate_result_iff context ledger tool (query r) =
    let both =
      >>-eq-pass (check_result_identity context.identity r)
        (check_activities context.scope tool r.activities) in
    let identity = check_result_identity_iff context.identity r in
    let activities = check_activities_iff context.scope tool r.activities in
    (
      λ h. let i = identity.0 (both.0 h).0 in (i.0, i.1, i.2, activities.0 (both.0 h).1),
      λ v. both.1 (identity.1 (v.0, v.1, v.2), activities.1 v.3),
    )
validate_result_iff context ledger tool (exploration r) =
    check_activities_iff context.scope tool r.timeline
validate_result_iff context ledger tool (raw_records refs) = check_references_iff ledger tool refs
validate_result_iff context ledger tool (metrics refs) = check_references_iff ledger tool refs
validate_result_iff context ledger tool unchecked = (λ h. tt, λ h. refl)

-- The authorisation of an authentication query does not look at the allowed domains: with any other
-- list of domains the answer is the same.
pub authorize_call-authentication :
    (from_iso : String → Option Stamp) (policy : Identity) (context : ToolRuntimeContext)
    (ledger : InvestigationToolLedger) (arguments : Arguments) (domains : List String)
    → authorize_call from_iso policy
        (record context { scope = record context.scope { allowed_domains = domains } })
        ledger
        "query_authentication_activities"
        arguments
      ≡ authorize_call from_iso policy context ledger "query_authentication_activities" arguments
unfolding authorize_call tool_scope_domain domain_refused
authorize_call-authentication from_iso policy context ledger arguments domains = refl
