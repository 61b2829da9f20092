-- ===== src/Response/Examples.antt =====
-- The checks of response proposals at a concrete proposal.
use unknown_file_threat_agen.Contracts.{suspicious, unknown, fallback}
use unknown_file_threat_agen.Response.Policy.{
  ResponseAction, JudgmentResult, operator, validate_response_proposal,
}
use unknown_file_threat_agen.Response.Policy.Accepted.{
  IsJustified, Distinct, validate_response_proposal_iff,
}
use unknown_file_threat_agen.Prelude.{◌≡◌, ◌↔◌, true, false, [], ◌∷◌, is_nil, All}

abbrev pub judgment : JudgmentResult
judgment = record {
  evidence_refs = "ev1" ∷ [];
  asserted_host_refs = [];
  limitations = [];
  verdict = record {
    level = suspicious;
    threat_type = unknown;
    summary = "unclear";
    supporting_refs = "a1" ∷ [];
    contradicting_refs = [];
    limitations = [];
  };
  publication_status = fallback;
}

abbrev pub review : ResponseAction
review = record {
  action_id = "r1";
  action_type = "manual_review";
  judgment_refs = "ev1" ∷ "a1" ∷ [];
  preconditions = "p" ∷ [];
  approval_class = operator;
  rollback_steps = "undo" ∷ [];
  verification_steps = "v" ∷ [];
}

validate_response_proposal_iff_example :
    (is_nil (validate_response_proposal judgment (review ∷ [])) ≡ true) ↔ (
      (is_nil (review ∷ []) ≡ false)
      × All (IsJustified judgment) (review ∷ [])
      × Distinct (review ∷ []))
validate_response_proposal_iff_example = validate_response_proposal_iff judgment (review ∷ [])
