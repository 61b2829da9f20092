-- ===== src/Cases/Governance/Resumed.antt =====
-- case_management/application/graph.py: the decision on a response plan, over its answers.
use mathlib.Core.Path.{subst}
use Prim.Native.String.{◌++◌ as append}
use unknown_file_threat_agen.Shared.Json.{
  Json, null, bool, num, str, arr, obj, Fields, key, find, is_truthy,
}
use unknown_file_threat_agen.Response.Graph.{ResponsePlan}
use unknown_file_threat_agen.Cases.Governance.{
  advised, complete, CaseGraphState, CasePorts, CaseConfig, ended, raised,
}
use unknown_file_threat_agen.Cases.Governance.Decision.{
  joined, approver, entry, approval_text, effective_plan, decided, decide_with, decide,
}
use unknown_file_threat_agen.Prelude.{
  if◌then◌else◌, [], ◌∷◌, ◌++◌, String, or_else, ◌≡◌, refl, sym, ap, ◌∙◌, ◌⊎◌, inl, inr, Bool, true,
  false, Option, none, some, Bool-cases, Option-cases,
}

-- a resume value with a Boolean entry `approved`
abbrev pub IsAnswer : Json → Fields → Bool → Type 0
IsAnswer value decision approved =
    (value ≡ obj decision) × (find (key "approved") decision ≡ some (bool approved))

-- who decided, and the comment, as a text
abbrev pub decider : CasePorts → Fields → String
decider ports decision =
    let by = or_else (find (key "approved_by") decision) null in
    if is_truthy by then ports.text_of by else "unknown"

abbrev pub remark : CasePorts → Fields → Option String
remark ports decision =
    let comment = or_else (find (key "comment") decision) null in
    if is_truthy comment then some (ports.text_of comment) else none

-- the approval status of an answer by `who`: whether it approves, whether it edits, and its comment
abbrev pub recorded : Bool → String → Bool → Option String → String
recorded true who false none = append "response_approved_by:" who
recorded false who false none = append "response_denied_by:" who
recorded true who true none =
    append (append "response_approved_by:" who) (append " " (append "edited_by:" who))
recorded false who true none =
    append (append "response_denied_by:" who) (append " " (append "edited_by:" who))
recorded true who false (some c) =
    append (append "response_approved_by:" who) (append " " (append "comment:" c))
recorded false who false (some c) =
    append (append "response_denied_by:" who) (append " " (append "comment:" c))
recorded true who true (some c) =
    append (append "response_approved_by:" who)
      (append " " (append (append "edited_by:" who) (append " " (append "comment:" c))))
recorded false who true (some c) =
    append (append "response_denied_by:" who)
      (append " " (append (append "edited_by:" who) (append " " (append "comment:" c))))

abbrev pub recorded_status : CasePorts → Bool → Fields → String
recorded_status ports approved decision =
    recorded approved (decider ports decision)
      (is_truthy (or_else (find (key "edited_plan") decision) null)) (remark ports decision)

joined-recorded :
    (ports : CasePorts) (approved edited said : Bool) (who c : String)
    → joined ports (
        append (if approved then "response_approved_by:" else "response_denied_by:") who
        ∷ ((if edited then append "edited_by:" who ∷ [] else [])
            ++ (if said then append "comment:" c ∷ [] else [])))
      ≡ recorded approved who edited (if said then some c else none)
unfolding joined
joined-recorded ports true true true who c = refl
joined-recorded ports true true false who c = refl
joined-recorded ports true false true who c = refl
joined-recorded ports true false false who c = refl
joined-recorded ports false true true who c = refl
joined-recorded ports false true false who c = refl
joined-recorded ports false false true who c = refl
joined-recorded ports false false false who c = refl

approval_text-recorded :
    (ports : CasePorts) (approved : Bool) (decision : Fields)
    → approval_text ports approved decision ≡ recorded_status ports approved decision
unfolding approval_text entry approver
approval_text-recorded ports approved decision =
    let edit = or_else (find (key "edited_plan") decision) null in
    let comment = or_else (find (key "comment") decision) null in
    joined-recorded ports approved (is_truthy edit) (is_truthy comment) (decider ports decision)
      (ports.text_of comment)

-- the state after a decision, with the plan that is then in force
abbrev pub decided_state :
    CasePorts → CaseGraphState → Bool → Fields → ResponsePlan → CaseGraphState
decided_state ports s approved decision plan = record s {
  response_plan = some plan;
  approval_status = some (recorded_status ports approved decision);
  lifecycle_status = advised;
  route = complete;
}

-- the entry of a decision with the edited plan, and the plan that the decision leaves in force
abbrev edit_of : CasePorts → Fields → Json
edit_of ports decision = entry ports "edited_plan" decision

abbrev pub IsInForce : CasePorts → ResponsePlan → Fields → ResponsePlan → Type 0
IsInForce ports plan decision next =
    ((is_truthy (edit_of ports decision) ≡ true)
      × (ports.read_plan (edit_of ports decision) ≡ some next))
    ⊎ ((is_truthy (edit_of ports decision) ≡ false) × (next ≡ plan))

abbrev pub IsFaultyEdit : CasePorts → Fields → Type 0
IsFaultyEdit ports decision =
    (is_truthy (edit_of ports decision) ≡ true) × (ports.read_plan (edit_of ports decision) ≡ none)

-- what a resume does: it refuses a value that is no answer, it refuses an edit that is no plan, or it ends the case
abbrev pub IsResumed : CasePorts → CaseGraphState → ResponsePlan → Json → CaseConfig → Type 0
IsResumed ports s plan value c =
    ((c ≡ raised) × ((decision : Fields) (approved : Bool) → ¬ IsAnswer value decision approved))
    ⊎ ((decision : Fields) × (approved : Bool) × IsAnswer value decision approved
        × (((c ≡ raised) × IsFaultyEdit ports decision)
            ⊎ ((next : ResponsePlan) × IsInForce ports plan decision next
                × (c ≡ ended (decided_state ports s approved decision next)))))

effective_plan-edited :
    (ports : CasePorts) (plan : ResponsePlan) (decision : Fields)
    → is_truthy (edit_of ports decision) ≡ true
    → effective_plan ports plan decision ≡ ports.read_plan (edit_of ports decision)
unfolding effective_plan
effective_plan-edited ports plan decision h = rw h refl

effective_plan-unedited :
    (ports : CasePorts) (plan : ResponsePlan) (decision : Fields)
    → is_truthy (edit_of ports decision) ≡ false
    → effective_plan ports plan decision ≡ some plan
unfolding effective_plan
effective_plan-unedited ports plan decision h = rw h refl

decided-recorded :
    (ports : CasePorts) (s : CaseGraphState) (approved : Bool) (decision : Fields)
    (next : ResponsePlan)
    → decided ports s approved decision (some next)
      ≡ ended (decided_state ports s approved decision next)
unfolding decided
decided-recorded ports s approved decision next =
    ap
      (λ (text : String). ended (record s {
        response_plan = some next;
        approval_status = some text;
        lifecycle_status = advised;
        route = complete;
      }))
      (approval_text-recorded ports approved decision)

decided-cases :
    (ports : CasePorts) (s : CaseGraphState) (plan : ResponsePlan) (approved : Bool)
    (decision : Fields)
    → ((decided ports s approved decision (effective_plan ports plan decision) ≡ raised)
        × IsFaultyEdit ports decision)
      ⊎ ((next : ResponsePlan) × IsInForce ports plan decision next
          × (decided ports s approved decision (effective_plan ports plan decision)
              ≡ ended (decided_state ports s approved decision next)))
unfolding decided
decided-cases ports s plan approved decision =
    elim (Bool-cases (is_truthy (edit_of ports decision))) [
      | inr same ↦ inr (
        plan,
        inr (same, refl),
        ap (decided ports s approved decision) (effective_plan-unedited ports plan decision same)
            ∙ decided-recorded ports s approved decision plan,
      )
      | inl edited ↦
          let e = effective_plan-edited ports plan decision edited in
          elim (Option-cases (ports.read_plan (edit_of ports decision))) [
            | inl faulty ↦
                inl (ap (decided ports s approved decision) (e ∙ faulty), (edited, faulty))
            | inr (next, read) ↦ inr (
              next,
              inl (edited, read),
              ap (decided ports s approved decision) (e ∙ read)
                  ∙ decided-recorded ports s approved decision next,
            )
          ]
    ]

obj-inj : {a b : Fields} → obj a ≡ obj b → a ≡ b
obj-inj e = cc

decide_with-IsResumed :
    (ports : CasePorts) (s : CaseGraphState) (plan : ResponsePlan) (decision : Fields)
    (entry : Option Json)
    → find (key "approved") decision ≡ entry
    → IsResumed ports s plan (obj decision) (decide_with ports s plan decision entry)
unfolding decide_with
decide_with-IsResumed ports s plan decision none e =
    inl (refl, λ d b h. let same = obj-inj (h.0) in cc)
decide_with-IsResumed ports s plan decision (some (bool approved)) e =
    inr (decision, approved, (refl, e), decided-cases ports s plan approved decision)
decide_with-IsResumed ports s plan decision (some null) e =
    inl (refl, λ d b h. let same = obj-inj (h.0) in cc)
decide_with-IsResumed ports s plan decision (some (num n)) e =
    inl (refl, λ d b h. let same = obj-inj (h.0) in cc)
decide_with-IsResumed ports s plan decision (some (str t)) e =
    inl (refl, λ d b h. let same = obj-inj (h.0) in cc)
decide_with-IsResumed ports s plan decision (some (arr xs)) e =
    inl (refl, λ d b h. let same = obj-inj (h.0) in cc)
decide_with-IsResumed ports s plan decision (some (obj fs)) e =
    inl (refl, λ d b h. let same = obj-inj (h.0) in cc)

decide-some :
    (ports : CasePorts) (s : CaseGraphState) (plan : ResponsePlan) (value : Json)
    → IsResumed ports s plan value (decide ports s (some plan) value)
unfolding decide
decide-some ports s plan (obj decision) =
    decide_with-IsResumed ports s plan decision (find (key "approved") decision) refl
decide-some ports s plan null = inl (refl, λ d b h. let unlike = h.0 in cc)
decide-some ports s plan (bool b) = inl (refl, λ d b h. let unlike = h.0 in cc)
decide-some ports s plan (num n) = inl (refl, λ d b h. let unlike = h.0 in cc)
decide-some ports s plan (str t) = inl (refl, λ d b h. let unlike = h.0 in cc)
decide-some ports s plan (arr xs) = inl (refl, λ d b h. let unlike = h.0 in cc)

-- On a case that waits with a plan, a resume value that is no object with a Boolean `approved` raises, and so does an
-- edit that is no plan. Any other value ends the case, whether it approves or denies: the case is advised, the plan in
-- force is the edited one if the value has an edit, otherwise the plan that waited, and the approval status is
-- "response_approved_by:" or "response_denied_by:" with the name of who decided ("unknown" if the value has none),
-- followed by "edited_by:" with that name if there is an edit and "comment:" with the comment if there is one.
pub decide-IsResumed :
    (ports : CasePorts) (s : CaseGraphState) (plan : ResponsePlan) (value : Json)
    → s.response_plan ≡ some plan
    → IsResumed ports s plan value (decide ports s s.response_plan value)
decide-IsResumed ports s plan value e =
    subst (λ x. IsResumed ports s plan value (decide ports s x value)) (sym e)
      (decide-some ports s plan value)
