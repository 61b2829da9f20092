-- ===== src/Shared/DraftEditor/Batches.antt =====
-- shared/draft_editor.py: batches of edits as sequences of steps.
use mathlib.Core.List.{append-nil, append_assoc}
use unknown_file_threat_agen.Shared.Json.{Json}
use unknown_file_threat_agen.Shared.DraftEditor.{
  Reason, Result, ok, err, DraftEdit, apply_edit, EditResult, apply_from, apply_edits,
}
use unknown_file_threat_agen.Prelude.{
  ℕ, ◌+◌, ◌≡◌, refl, sym, ◌∙◌, ◌⊎◌, inl, inr, List, [], ◌∷◌, ◌++◌, arith, length,
}

-- a batch as a sequence of steps: from a draft, with the number of the next edit, to the numbers of
-- the edits that were applied, those of the rejected ones with their reasons, and the last draft
pub data Runs : ℕ → Json → List DraftEdit → List ℕ → List (ℕ × Reason) → Json → Type 0 where
  done : {i : ℕ} {d : Json} → Runs i d [] [] [] d
  applies :
      {i : ℕ} {d d' d'' : Json} {e : DraftEdit} {es : List DraftEdit} {done_at : List ℕ}
      {rs : List (ℕ × Reason)}
      → apply_edit e d ≡ ok d'
      → Runs (i + 1) d' es done_at rs d''
      → Runs i d (e ∷ es) (i ∷ done_at) rs d''
  rejects :
      {i : ℕ} {d d'' : Json} {e : DraftEdit} {es : List DraftEdit} {done_at : List ℕ}
      {rs : List (ℕ × Reason)} {reason : Reason}
      → apply_edit e d ≡ err reason
      → Runs (i + 1) d es done_at rs d''
      → Runs i d (e ∷ es) done_at ((i, reason) ∷ rs) d''

Result-cases : (r : Result Json) → ((d : Json) × (r ≡ ok d)) ⊎ ((x : Reason) × (r ≡ err x))
Result-cases (ok d) = inl (d, refl)
Result-cases (err x) = inr (x, refl)

-- the loop from an intermediate result adds what the rest of the batch does
pub record Extends (i : ℕ) (es : List DraftEdit) (before after : EditResult) : Type 0 where
  pub more_applied : List ℕ
  pub more_rejected : List (ℕ × Reason)
  pub applied_lem : after.applied ≡ before.applied ++ more_applied
  pub rejected_lem : after.rejected ≡ before.rejected ++ more_rejected
  pub runs : Runs i before.draft es more_applied more_rejected after.draft

apply_from-Extends :
    (i : ℕ) (es : List DraftEdit) (r : EditResult) → Extends i es r (apply_from i es r)
unfolding apply_from
apply_from-Extends i [] r = record {
  more_applied = [];
  more_rejected = [];
  applied_lem = sym (append-nil r.applied);
  rejected_lem = sym (append-nil r.rejected);
  runs = done;
}
apply_from-Extends i (e ∷ es) r = elim (Result-cases (apply_edit e r.draft)) [
  | inl (d, applied) ↦
      let rest =
        apply_from-Extends (i + 1) es (record r { draft = d; applied = r.applied ++ i ∷ [] }) in
      rw (applied, apply_from)
        (record {
          more_applied = i ∷ rest.more_applied;
          more_rejected = rest.more_rejected;
          applied_lem = rest.applied_lem ∙ append_assoc r.applied (i ∷ []) rest.more_applied;
          rejected_lem = rest.rejected_lem;
          runs = applies applied rest.runs;
        })
  | inr (x, refused) ↦
      let rest =
        apply_from-Extends (i + 1) es (record r { rejected = r.rejected ++ (i, x) ∷ [] }) in
      rw (refused, apply_from)
        (record {
          more_applied = rest.more_applied;
          more_rejected = (i, x) ∷ rest.more_rejected;
          applied_lem = rest.applied_lem;
          rejected_lem =
              rest.rejected_lem ∙ append_assoc r.rejected ((i, x) ∷ []) rest.more_rejected;
          runs = rejects refused rest.runs;
        })
]

-- `apply_edits` runs the edits one after another: each is applied to the draft that its predecessors
-- left, an edit that fails leaves the draft as it was, and the two lists of the result are the
-- numbers of the applied edits and of the rejected ones with their reasons, in order.
pub apply_edits-Runs :
    (draft : Json) (edits : List DraftEdit)
    → Runs 0 draft edits
        (apply_edits draft edits).applied
        (apply_edits draft edits).rejected
        (apply_edits draft edits).draft
unfolding apply_edits
apply_edits-Runs draft edits =
    let x = apply_from-Extends 0 edits (record { draft = draft; applied = []; rejected = [] }) in
    rw (x.applied_lem, x.rejected_lem) x.runs

Runs-length :
    {i : ℕ} {d d' : Json} {es : List DraftEdit} {done_at : List ℕ} {rs : List (ℕ × Reason)}
    → Runs i d es done_at rs d'
    → length done_at + length rs ≡ length es
Runs-length done = omega arith
Runs-length (applies e r) = omega (arith, Runs-length r)
Runs-length (rejects e r) = omega (arith, Runs-length r)

-- No edit is lost: the applied and the rejected ones are as many as the edits.
apply_edits-length :
    (draft : Json) (edits : List DraftEdit)
    → length (apply_edits draft edits).applied + length (apply_edits draft edits).rejected
      ≡ length edits
apply_edits-length draft edits = Runs-length (apply_edits-Runs draft edits)
