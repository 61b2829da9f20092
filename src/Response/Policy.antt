-- ===== src/Response/Policy.antt =====
-- response_advisory/domain/policy.py: the checks on a proposal of response actions. The messages are
-- the constructors of `ProposalError`, which hold what the texts interpolate.
pub mod Accepted
use unknown_file_threat_agen.Contracts.{CandidateVerdict, PublicationStatus, grounded, fallback}
use unknown_file_threat_agen.Prelude.{
  ◌+◌, String, Bool, true, false, not, ◌&&◌, List, [], ◌∷◌, ◌++◌, is_nil, mem, diff, sorted_set,
}

-- contracts/response.py
pub data ApprovalClass : Type 0 where
  none_needed operator security_lead business_owner : ApprovalClass

pub record ResponseAction : Type 0 where
  pub action_id : String
  pub action_type : String
  pub judgment_refs : List String
  pub preconditions : List String
  pub approval_class : ApprovalClass
  pub rollback_steps : List String
  pub verification_steps : List String

-- contracts/investigation.py
pub record JudgmentResult : Type 0 where
  pub evidence_refs : List String
  pub asserted_host_refs : List String
  pub limitations : List String
  pub verdict : CandidateVerdict
  pub publication_status : PublicationStatus

pub data ProposalError : Type 0 where
  no_candidate_actions : ProposalError
  duplicate_action_id : String → ProposalError
  unknown_judgment_refs : String → List String → ProposalError
  no_judgment_basis : String → ProposalError
  no_preconditions : String → ProposalError
  no_verification_steps : String → ProposalError
  not_permitted_in_fallback : String → String → ProposalError
  no_rollback_steps : String → ProposalError

-- `FALLBACK_ALLOWED_ACTIONS`
abbrev pub fallback_allowed_actions : List String
fallback_allowed_actions = "re_run_analysis" ∷ "collect_more_data" ∷ "manual_review" ∷ []

abbrev pub is_fallback : PublicationStatus → Bool
is_fallback fallback = true
is_fallback grounded = false

-- `approval_class != "none"`
abbrev pub needs_approval : ApprovalClass → Bool
needs_approval none_needed = false
needs_approval _ = true

-- `if condition: errors.append(e)`
abbrev pub error_if : Bool → ProposalError → List ProposalError
error_if true e = e ∷ []
error_if false e = []

-- `valid_refs`
unfoldable pub valid_refs : JudgmentResult → List String
valid_refs judgment =
    judgment.evidence_refs ++ judgment.verdict.supporting_refs
    ++ judgment.verdict.contradicting_refs

-- the body of the loop: the errors of one action, after those with the identifiers `seen`
unfoldable pub action_errors : JudgmentResult → List String → ResponseAction → List ProposalError
unfolding valid_refs
action_errors judgment seen action =
    let unknown = sorted_set (diff action.judgment_refs (valid_refs judgment)) in
    error_if (mem action.action_id seen) (duplicate_action_id action.action_id)
    ++ error_if (not (is_nil unknown)) (unknown_judgment_refs action.action_id unknown)
    ++ error_if (is_nil action.judgment_refs) (no_judgment_basis action.action_id)
    ++ error_if (is_nil action.preconditions) (no_preconditions action.action_id)
    ++ error_if (is_nil action.verification_steps) (no_verification_steps action.action_id)
    ++ error_if
        (is_fallback judgment.publication_status
          && not (mem action.action_type fallback_allowed_actions))
        (not_permitted_in_fallback action.action_id action.action_type)
    ++ error_if (needs_approval action.approval_class && is_nil action.rollback_steps)
        (no_rollback_steps action.action_id)

unfoldable pub actions_errors :
    JudgmentResult → List String → List ResponseAction → List ProposalError
unfolding action_errors
actions_errors judgment seen [] = []
actions_errors judgment seen (a ∷ rest) =
    action_errors judgment seen a ++ actions_errors judgment (a.action_id ∷ seen) rest

unfoldable pub validate_response_proposal :
    JudgmentResult → List ResponseAction → List ProposalError
unfolding actions_errors
validate_response_proposal judgment actions =
    error_if (is_nil actions) no_candidate_actions ++ actions_errors judgment [] actions
