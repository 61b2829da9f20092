-- ===== src/Cases/Governance/Decision.antt =====
-- case_management/application/graph.py: what `_approve_response` does with the value that its interrupt returns.
use Prim.Native.String.{◌++◌ as append}
use unknown_file_threat_agen.Shared.Json.{
  Json, null, bool, str, obj, Fields, end, field, key, find, is_truthy,
}
use unknown_file_threat_agen.Response.Graph.{ResponsePlan}
use unknown_file_threat_agen.Prelude.{
  String, Bool, Option, none, some, List, [], ◌∷◌, ◌++◌, if◌then◌else◌, or_else,
}
use unknown_file_threat_agen.Cases.Governance.{
  CaseConfig, CaseGraphState, CasePorts, advised, complete, ended, raised,
}

unfoldable pub text_or_null : Option String → Json
text_or_null none = null
text_or_null (some s) = str s

unfoldable pub plan_or_null : Option Fields → Json
plan_or_null none = null
plan_or_null (some fs) = obj fs

module _ (ports : CasePorts) where
  -- the parts of `approval_status`
  unfoldable pub joined : List String → String
  joined [] = ""
  joined (x ∷ []) = x
  joined (x ∷ y ∷ rest) = append x (append " " (joined (y ∷ rest)))

  -- `decision.get(name)`
  unfoldable pub entry : String → Fields → Json
  entry name fs = or_else (find (key name) fs) null

  unfoldable pub approver : Fields → String
  unfolding entry
  approver decision =
      if is_truthy (entry "approved_by" decision)
      then ports.text_of (entry "approved_by" decision)
      else "unknown"

  unfoldable pub approval_text : Bool → Fields → String
  unfolding joined entry approver
  approval_text approved decision =
      let by = approver decision in
      joined (
        append (if approved then "response_approved_by:" else "response_denied_by:") by
        ∷ ((if is_truthy (entry "edited_plan" decision) then append "edited_by:" by ∷ [] else [])
            ++ (if is_truthy (entry "comment" decision)
                then append "comment:" (ports.text_of (entry "comment" decision)) ∷ []
                else [])))

  -- the plan that is in force after the decision; an edit that is no plan raises
  unfoldable pub effective_plan : ResponsePlan → Fields → Option ResponsePlan
  unfolding entry
  effective_plan plan decision =
      if is_truthy (entry "edited_plan" decision)
      then ports.read_plan (entry "edited_plan" decision)
      else some plan

  unfoldable pub decided : CaseGraphState → Bool → Fields → Option ResponsePlan → CaseConfig
  unfolding approval_text
  decided s approved decision none = raised
  decided s approved decision (some plan) = ended (record s {
    response_plan = some plan;
    approval_status = some (approval_text approved decision);
    lifecycle_status = advised;
    route = complete;
  })

  -- a decision with its entry `approved`, which has to be a Boolean
  unfoldable pub decide_with : CaseGraphState → ResponsePlan → Fields → Option Json → CaseConfig
  unfolding decided effective_plan
  decide_with s plan decision (some (bool approved)) =
      decided s approved decision (effective_plan plan decision)
  decide_with s plan decision _ = raised

  -- `_approve_response` from its interrupt on
  unfoldable pub decide : CaseGraphState → Option ResponsePlan → Json → CaseConfig
  unfolding decide_with
  decide s (some plan) (obj decision) = decide_with s plan decision (find (key "approved") decision)
  decide s _ _ = raised

  -- `resume_response` on a graph that waits: the call as the value that the interrupt returns
  unfoldable pub resume_response :
      CaseGraphState → Bool → String → Option String → Option Fields → CaseConfig
  unfolding decide text_or_null plan_or_null
  resume_response s approved approved_by comment edited_plan = decide s s.response_plan (
      obj (
        field (key "approved") (bool approved) (
          field (key "approved_by") (str approved_by) (
            field (key "comment") (text_or_null comment)
              (field (key "edited_plan") (plan_or_null edited_plan) end)))))
