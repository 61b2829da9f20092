-- ===== src/Cases/BoundaryPolicy/Authorized.antt =====
-- case_management/application/boundary_policy.py: the calls that are authorised, and their denials.
use unknown_file_threat_agen.Contracts.{InvestigationToolLedger}
use unknown_file_threat_agen.Cases.BoundaryPolicy.{
  Check, pass, denied, identity_error, BoundaryDenied, ◌>>◌, deny_if, identity_if,
  tool_scope_domain, is_reference_tool, Stamp, as_datetime, Arguments, Identity, ToolRuntimeContext,
  same_identity, earlier, domain_refused, entity_refused, check_time_window, authorize_call,
}
use unknown_file_threat_agen.Prelude.{
  ℕ, ◌≤◌, String, ◌≡◌, refl, ◌≢◌, ◌↔◌, ◌⊎◌, inl, inr, Bool, true, false, not, ◌&&◌, Option, none,
  some, arith, eq_iff, eqb, length, is_nil, mem, diff, sorted_set, mem-uncovered,
}

pub >>-eq-pass : (a b : Check) → ((a >> b) ≡ pass) ↔ ((a ≡ pass) × (b ≡ pass))
>>-eq-pass pass b = ground arith
>>-eq-pass (denied d) b = ground arith
>>-eq-pass identity_error b = ground arith

pub >>-eq-denied :
    (a b : Check) {d : BoundaryDenied} → (a >> b) ≡ denied d → (a ≡ denied d) ⊎ (b ≡ denied d)
>>-eq-denied pass b h = inr h
>>-eq-denied (denied e) b h = inl h
>>-eq-denied identity_error b h = inl h

pub deny_if-eq-pass : (b : Bool) (d : BoundaryDenied) → (deny_if b d ≡ pass) ↔ (b ≡ false)
deny_if-eq-pass true d = ground arith
deny_if-eq-pass false d = ground arith

pub deny_if-eq-denied :
    (b : Bool) (e : BoundaryDenied) {d : BoundaryDenied}
    → deny_if b e ≡ denied d
    → (b ≡ true) × (e ≡ d)
deny_if-eq-denied true e h = ground arith
deny_if-eq-denied false e h = cc

identity_if-eq-pass : (b : Bool) → (identity_if b ≡ pass) ↔ (b ≡ true)
identity_if-eq-pass true = ground arith
identity_if-eq-pass false = ground arith

pub same_identity_iff : (a b : Identity) → (same_identity a b ≡ true) ↔ (a ≡ b)
unfolding same_identity
same_identity_iff a b =
    ground
      (arith, eq_iff a.tenant_id b.tenant_id, eq_iff a.case_id b.case_id, eq_iff a.run_id b.run_id)

pub earlier_iff :
    (a b : Option ℕ) → (earlier a b ≡ false) ↔ ((t u : ℕ) → a ≡ some t → b ≡ some u → u ≤ t)
unfolding earlier
earlier_iff none b = (λ h t u e f. cc, λ h. refl)
earlier_iff (some x) none = (λ h t u e f. cc, λ h. refl)
earlier_iff (some x) (some y) = (λ h t u e f. ground arith, λ h. ground (arith, h x y refl refl))

module _ (from_iso : String → Option Stamp) where
  -- the boundary of a run, as a condition on a call
  pub record IsAuthorized (policy : Identity) (context : ToolRuntimeContext)
      (ledger : InvestigationToolLedger) (tool : String) (arguments : Arguments) : Type 0 where
    pub identity : context.identity ≡ policy
    pub single_host : length context.scope.host_ids ≡ 1
    pub domain :
        (d : String) → tool_scope_domain tool ≡ some d → mem d context.scope.allowed_domains ≡ true
    pub hosts :
        (h : String) → mem h arguments.host_refs ≡ true → mem h context.scope.host_ids ≡ true
    pub start :
        (t u : ℕ)
        → as_datetime from_iso arguments.start_time ≡ some t
        → context.scope.start_time ≡ some u
        → u ≤ t
    pub end :
        (t u : ℕ)
        → context.scope.end_time ≡ some t
        → as_datetime from_iso arguments.end_time ≡ some u
        → u ≤ t
    pub entity :
        tool ≡ "explore_entity"
        → arguments.entity_ref ≢ ""
        → mem arguments.entity_ref ledger.authorized_entity_refs ≡ true
    pub references :
        is_reference_tool tool ≡ true
        → (r : String) → mem r arguments.activity_refs ≡ true
        → mem r ledger.authorized_activity_refs ≡ true

  check_time_window-eq-pass :
      (context : ToolRuntimeContext) (tool : String) (arguments : Arguments)
      → (check_time_window from_iso context tool arguments ≡ pass) ↔ (
          (earlier (as_datetime from_iso arguments.start_time) context.scope.start_time ≡ false)
          × (earlier context.scope.end_time (as_datetime from_iso arguments.end_time) ≡ false))
  unfolding check_time_window
  check_time_window-eq-pass context tool arguments = ground arith

  -- the guards of `authorize_call`, as tests
  abbrev Guards :
      Identity → ToolRuntimeContext → InvestigationToolLedger → String → Arguments → Type 0
  Guards policy context ledger tool arguments =
      (same_identity context.identity policy ≡ true)
      × (eqb (length context.scope.host_ids) 1 ≡ true)
      × (domain_refused (tool_scope_domain tool) context.scope ≡ false)
      × (is_nil (sorted_set (diff arguments.host_refs context.scope.host_ids)) ≡ true)
      × (earlier (as_datetime from_iso arguments.start_time) context.scope.start_time ≡ false)
      × (earlier context.scope.end_time (as_datetime from_iso arguments.end_time) ≡ false)
      × (entity_refused tool arguments ledger ≡ false)
      × ((is_reference_tool tool
            && not (
                is_nil (sorted_set (diff arguments.activity_refs ledger.authorized_activity_refs))))
          ≡ false)

  -- A denial of `authorize_call` carries identifiers of the call only: a host that it names is a
  -- host of the scope if the scope has not one host, and otherwise a requested host outside the
  -- scope; a reference that it names was requested and is not authorised.
  pub authorize_call-discloses :
      (policy : Identity) (context : ToolRuntimeContext) (ledger : InvestigationToolLedger)
      (tool : String) (arguments : Arguments) (d : BoundaryDenied)
      → authorize_call from_iso policy context ledger tool arguments ≡ denied d
      → (d.tool_name ≡ tool)
        × ((h : String)
            → mem h d.host_refs ≡ true
            → (mem h context.scope.host_ids ≡ true) × (length context.scope.host_ids ≢ 1)
              ⊎ (mem h arguments.host_refs ≡ true) × (mem h context.scope.host_ids ≡ false))
        × ((r : String)
            → mem r d.reference_ids ≡ true
            → (r ≡ arguments.entity_ref) × (mem r ledger.authorized_entity_refs ≡ false)
              ⊎ (mem r arguments.activity_refs ≡ true)
                × (mem r ledger.authorized_activity_refs ≡ false))
  unfolding authorize_call mem entity_refused
  authorize_call-discloses policy context ledger tool arguments d h = (
    ground arith,
    λ x m. ground (arith, h, m, mem-uncovered x arguments.host_refs context.scope.host_ids),
    λ x m. ground (
      arith,
      mem-uncovered x arguments.activity_refs ledger.authorized_activity_refs,
      eq_iff x arguments.entity_ref,
    ),
  )
