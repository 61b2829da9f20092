-- ===== src/Response/Policy/Accepted.antt =====
-- response_advisory/domain/policy.py: which proposals are accepted.
use unknown_file_threat_agen.Contracts.{PublicationStatus, grounded, fallback}
use unknown_file_threat_agen.Response.Policy.{
  ResponseAction, JudgmentResult, ProposalError, fallback_allowed_actions, is_fallback,
  needs_approval, error_if, valid_refs, action_errors, actions_errors, validate_response_proposal,
}
use unknown_file_threat_agen.Prelude.{
  is_nil-append, String, ◌≡◌, refl, ap, ◌↔◌, inl, inr, Bool, true, false, not, ◌&&◌, ◌||◌, List, [],
  ◌∷◌, ◌++◌, map, arith, eq_iff, Bool-cases, is_nil, All, mem, diff, sorted_set, covered_iff,
}

-- An action that may be proposed on a judgment.
pub record IsJustified (judgment : JudgmentResult) (action : ResponseAction) : Type 0 where
  pub cited : (r : String) → mem r action.judgment_refs ≡ true → mem r (valid_refs judgment) ≡ true
  pub based : is_nil action.judgment_refs ≡ false
  pub prepared : is_nil action.preconditions ≡ false
  pub verified : is_nil action.verification_steps ≡ false
  pub permitted :
      judgment.publication_status ≡ fallback
      → mem action.action_type fallback_allowed_actions ≡ true
  pub reversible :
      needs_approval action.approval_class ≡ true → is_nil action.rollback_steps ≡ false

-- No identifier occurs twice.
pub Distinct : List ResponseAction → Type 0
Distinct [] = Unit
Distinct (a ∷ rest) =
    (mem a.action_id (map (λ (b : ResponseAction). b.action_id) rest) ≡ false) × Distinct rest

-- No identifier is one of those given.
Fresh : List String → List ResponseAction → Type 0
Fresh seen actions = All (λ (a : ResponseAction). mem a.action_id seen ≡ false) actions

is_nil-error_if : (b : Bool) (e : ProposalError) → is_nil (error_if b e) ≡ not b
is_nil-error_if true e = refl
is_nil-error_if false e = refl

errors-eq-nil :
    (b0 b1 b2 b3 b4 b5 b6 : Bool) (e0 e1 e2 e3 e4 e5 e6 : ProposalError)
    → is_nil (
        error_if b0 e0
        ++ error_if b1 e1
        ++ error_if b2 e2
        ++ error_if b3 e3
        ++ error_if b4 e4
        ++ error_if b5 e5
        ++ error_if b6 e6)
      ≡ not (b0 || b1 || b2 || b3 || b4 || b5 || b6)
errors-eq-nil true b1 b2 b3 b4 b5 b6 e0 e1 e2 e3 e4 e5 e6 = refl
errors-eq-nil false true b2 b3 b4 b5 b6 e0 e1 e2 e3 e4 e5 e6 = refl
errors-eq-nil false false true b3 b4 b5 b6 e0 e1 e2 e3 e4 e5 e6 = refl
errors-eq-nil false false false true b4 b5 b6 e0 e1 e2 e3 e4 e5 e6 = refl
errors-eq-nil false false false false true b5 b6 e0 e1 e2 e3 e4 e5 e6 = refl
errors-eq-nil false false false false false true b6 e0 e1 e2 e3 e4 e5 e6 = refl
errors-eq-nil false false false false false false true e0 e1 e2 e3 e4 e5 e6 = refl
errors-eq-nil false false false false false false false e0 e1 e2 e3 e4 e5 e6 = refl

-- the seven tests of an action
failed : JudgmentResult → List String → ResponseAction → Bool
failed judgment seen a =
    mem a.action_id seen
    || not (is_nil (sorted_set (diff a.judgment_refs (valid_refs judgment))))
    || is_nil a.judgment_refs
    || is_nil a.preconditions
    || is_nil a.verification_steps
    || (is_fallback judgment.publication_status && not (mem a.action_type fallback_allowed_actions))
    || (needs_approval a.approval_class && is_nil a.rollback_steps)

action_errors-eq-nil :
    (judgment : JudgmentResult) (seen : List String) (a : ResponseAction)
    → is_nil (action_errors judgment seen a) ≡ not (failed judgment seen a)
unfolding action_errors failed
action_errors-eq-nil judgment seen a = errors-eq-nil _ _ _ _ _ _ _ _ _ _ _ _ _ _

is_fallback_iff : (s : PublicationStatus) → (is_fallback s ≡ true) ↔ (s ≡ fallback)
is_fallback_iff fallback = (λ h. refl, λ h. refl)
is_fallback_iff grounded = (λ h. ground (arith, h), λ h. ap is_fallback h)

passed_iff :
    (judgment : JudgmentResult) (seen : List String) (a : ResponseAction)
    → (failed judgment seen a ≡ false) ↔ (IsJustified judgment a × (mem a.action_id seen ≡ false))
unfolding failed
passed_iff judgment seen a = (
  λ h. (
    record {
      cited = (covered_iff a.judgment_refs (valid_refs judgment)).0 (ground (arith, h));
      based = ground (arith, h);
      prepared = ground (arith, h);
      verified = ground (arith, h);
      permitted = λ f. ground (arith, h, (is_fallback_iff judgment.publication_status).1 f);
      reversible = λ n. ground (arith, h, n);
    },
    ground (arith, h),
  ),
  λ h. elim (Bool-cases (is_fallback judgment.publication_status)) [
    | inl f ↦ ground (
      arith,
      (covered_iff a.judgment_refs (valid_refs judgment)).1 h.0.cited,
      h.0.based,
      h.0.prepared,
      h.0.verified,
      h.0.permitted ((is_fallback_iff judgment.publication_status).0 f),
      h.0.reversible,
      h.1,
      f,
    )
    | inr f ↦ ground (
      arith,
      (covered_iff a.judgment_refs (valid_refs judgment)).1 h.0.cited,
      h.0.based,
      h.0.prepared,
      h.0.verified,
      h.0.reversible,
      h.1,
      f,
    )
  ],
)

-- fresh after one more identifier: fresh, and without it
Fresh-iff :
    (seen : List String) (i : String) (actions : List ResponseAction)
    → Fresh (i ∷ seen) actions
      ↔ (Fresh seen actions × (mem i (map (λ (b : ResponseAction). b.action_id) actions) ≡ false))
unfolding Fresh mem
Fresh-iff seen i [] = (λ h. (tt, refl), λ h. tt)
Fresh-iff seen i (b ∷ rest) = (
  λ h.
      let r = (Fresh-iff seen i rest).0 h.1 in
      (
        (ground (arith, h.0), r.0),
        ground (arith, h.0, r.1, eq_iff b.action_id i, eq_iff i b.action_id),
      ),
  λ h. (
    ground (arith, h.0.0, h.1, eq_iff b.action_id i, eq_iff i b.action_id),
    (Fresh-iff seen i rest).1 (h.0.1, ground (arith, h.1)),
  ),
)

actions_iff :
    (judgment : JudgmentResult) (seen : List String) (actions : List ResponseAction)
    → (is_nil (actions_errors judgment seen actions) ≡ true)
      ↔ (All (IsJustified judgment) actions × Fresh seen actions × Distinct actions)
unfolding actions_errors Fresh Distinct
actions_iff judgment seen [] = (λ h. (tt, tt, tt), λ h. refl)
actions_iff judgment seen (a ∷ rest) =
    let split =
      is_nil-append (action_errors judgment seen a)
        (actions_errors judgment (a.action_id ∷ seen) rest) in
    let one = action_errors-eq-nil judgment seen a in
    let again = actions_iff judgment (a.action_id ∷ seen) rest in
    (
      λ h.
          let own = (passed_iff judgment seen a).0 (ground (arith, h, split, one)) in
          let others = again.0 (ground (arith, h, split)) in
          let news = (Fresh-iff seen a.action_id rest).0 others.1 in
          ((own.0, others.0), (own.1, news.0), (news.1, others.2)),
      λ h. ground (
        arith,
        split,
        one,
        (passed_iff judgment seen a).1 (h.0.0, h.1.0),
        again.1 (h.0.1, (Fresh-iff seen a.action_id rest).1 (h.1.1, h.2.0), h.2.1),
      ),
    )

all-Fresh : (actions : List ResponseAction) → Fresh [] actions
unfolding Fresh mem
all-Fresh [] = tt
all-Fresh (a ∷ rest) = (refl, all-Fresh rest)

-- A proposal is accepted, with no error reported, exactly when it has an action, its identifiers are
-- distinct, and every action cites known references of the judgment and at least one, names its
-- preconditions and verification steps, is a review action if the judgment was published as a
-- fallback, and can be rolled back if it needs an approval.
pub validate_response_proposal_iff :
    (judgment : JudgmentResult) (actions : List ResponseAction)
    → (is_nil (validate_response_proposal judgment actions) ≡ true)
      ↔ ((is_nil actions ≡ false) × All (IsJustified judgment) actions × Distinct actions)
unfolding validate_response_proposal Fresh
validate_response_proposal_iff judgment [] = (λ h. ground (arith, h), λ h. ground (arith, h.0))
validate_response_proposal_iff judgment (a ∷ rest) = (
  λ h. let r = (actions_iff judgment [] (a ∷ rest)).0 h in (refl, r.0, r.2),
  λ h. (actions_iff judgment [] (a ∷ rest)).1 (h.1, all-Fresh (a ∷ rest), h.2),
)
