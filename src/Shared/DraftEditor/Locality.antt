-- ===== src/Shared/DraftEditor/Locality.antt =====
-- shared/draft_editor.py: the fields that an edit writes and those that it leaves.
use unknown_file_threat_agen.Prelude.Int.{ℤ}
use unknown_file_threat_agen.Shared.Json.{
  Step, key, index, Json, null, bool, num, str, arr, obj, Items, Fields, end, field, find, nth,
  set_nth, set_field, remove_field,
}
use unknown_file_threat_agen.Shared.DraftEditor.{
  field_exists, anchor_mismatch, not_present, Result, ok, or_err, require, check_anchor, is_null,
  field_anchored, out_of_range, Op, set, insert, remove, DraftEdit, list_position, field_value,
  set_at, insert_at, remove_at, edit_by, edit_parent, resolve, edit_below, apply_edit,
}
use unknown_file_threat_agen.Shared.DraftEditor.Walk.{
  find-set_field, find-remove_field, list_position-set_nth, nth-set_nth, >>=-eq-ok, or_err-eq-ok,
  Edited, edit_below-Edited, resolve-append,
}
use unknown_file_threat_agen.Prelude.{
  ℕ, String, ◌≡◌, refl, sym, ap, ◌∙◌, ◌≢◌, inl, inr, false, not, ◌&&◌, ◌||◌, some, List, [], ◌∷◌,
  ◌++◌, arith, ◌==◌, eq_iff, Bool-cases, is_some, str_refl,
}

-- the path of an edit
abbrev pub path_of : DraftEdit → List Step
path_of edit = edit.parents ++ edit.last ∷ []

set_nth-resolve :
    (k : String) (xs : Items) (n : ℕ) {current : Json} (value : Json)
    → list_position xs (key k) ≡ ok n
    → nth xs n ≡ some current
    → resolve (key k ∷ []) (arr (set_nth xs n value)) ≡ ok value
unfolding resolve
set_nth-resolve k xs n {current} value at_n found =
    rw (list_position-set_nth xs (key k) n value, at_n, nth-set_nth xs n value current found)

set_field-resolve :
    (k : String) (value : Json) (fs : Fields)
    → resolve (key k ∷ []) (obj (set_field (key k) value fs)) ≡ ok value
unfolding resolve field_value
set_field-resolve k value fs = rw (find-set_field k k value fs, str_refl k)

-- a write at the last step is read back by that step, if the step is a text
set_at-resolve :
    (k : String) (anchor value parent changed : Json)
    → set_at (key k) anchor value parent ≡ ok changed
    → resolve (key k ∷ []) changed ≡ ok value
unfolding set_at
set_at-resolve k anchor value (arr xs) changed h =
    let p = >>=-eq-ok (list_position xs (key k)) _ h in
    let q = >>=-eq-ok (or_err (nth xs p.0) out_of_range) _ p.2 in
    let r = >>=-eq-ok (check_anchor anchor q.0) _ q.2 in
    cc (set_nth-resolve k xs p.0 value p.1 (or_err-eq-ok (nth xs p.0) out_of_range q.1), r.2)
set_at-resolve k anchor value (obj fs) changed h =
    let p =
      >>=-eq-ok (require (not (is_null anchor && is_some (find (key k) fs))) field_exists) _ h in
    let q =
      >>=-eq-ok
        (require (is_null anchor || field_anchored anchor (find (key k) fs)) anchor_mismatch) _
        p.2 in
    cc (set_field-resolve k value fs, q.2)
set_at-resolve k anchor value null changed h = cc
set_at-resolve k anchor value (bool b) changed h = cc
set_at-resolve k anchor value (num n) changed h = cc
set_at-resolve k anchor value (str t) changed h = cc

edit_by-set :
    (edit : DraftEdit) (parent : Json)
    → edit.op ≡ set
    → edit_parent edit parent ≡ set_at edit.last edit.anchor edit.value parent
unfolding edit_parent edit_by
edit_by-set edit parent e = rw (e, edit_by)

-- After a `set` whose last step is a text is applied, the walk along its path arrives at its value.
pub apply_edit-set :
    (edit : DraftEdit) (k : String) (draft changed : Json)
    → edit.op ≡ set
    → edit.last ≡ key k
    → apply_edit edit draft ≡ ok changed
    → resolve (path_of edit) changed ≡ ok edit.value
unfolding apply_edit
apply_edit-set edit k draft changed is_set at_k h =
    let e = edit_below-Edited edit.parents (edit_parent edit) draft changed h in
    let written : set_at (key k) edit.anchor edit.value e.before ≡ ok e.after =
      rw (← at_k) (sym (edit_by-set edit e.before is_set) ∙ e.changed) in
    rw (resolve-append edit.parents (edit.last ∷ []) changed, e.result)
      (rw at_k (set_at-resolve k edit.anchor edit.value e.before e.after written))

-- the first step of a path that is not empty
abbrev pub head_or : List Step → Step → Step
head_or [] last = last
head_or (s ∷ ss) last = s

-- what an act on an object does to a field: the result is an object with the same field there
abbrev KeepsField : String → (Json → Result Json) → Type 0
KeepsField j act =
    (fs : Fields) (changed : Json)
    → act (obj fs) ≡ ok changed
    → (gs : Fields) × (changed ≡ obj gs) × (find (key j) gs ≡ find (key j) fs)

apart_texts : (j k : String) → key k ≢ key j → (j == k) ≡ false
apart_texts j k apart = elim (Bool-cases (j == k)) [
  | inl same ↦ absurd (apart (ap key (sym ((eq_iff j k).0 same))))
  | inr other ↦ other
]

find-set_index :
    (j : String) (i : ℤ) (v : Json) (fs : Fields)
    → find (key j) (set_field (index i) v fs) ≡ find (key j) fs
unfolding find set_field
find-set_index j i v end = refl
find-set_index j i v (field (key k) w fs) = ground (arith, find-set_index j i v fs)
find-set_index j i v (field (index k) w fs) = ground (arith, find-set_index j i v fs)

find-remove_index :
    (j : String) (i : ℤ) (fs : Fields) → find (key j) (remove_field (index i) fs) ≡ find (key j) fs
unfolding find remove_field
find-remove_index j i end = refl
find-remove_index j i (field (key k) w fs) = ground (arith, find-remove_index j i fs)
find-remove_index j i (field (index k) w fs) = ground (arith, find-remove_index j i fs)

find-set_ne :
    (j : String) (s : Step) (v : Json) (fs : Fields)
    → s ≢ key j
    → find (key j) (set_field s v fs) ≡ find (key j) fs
find-set_ne j (index i) v fs apart = find-set_index j i v fs
find-set_ne j (key k) v fs apart = ground (arith, find-set_field j k v fs, apart_texts j k apart)

find-remove_ne :
    (j : String) (s : Step) (fs : Fields)
    → s ≢ key j
    → find (key j) (remove_field s fs) ≡ find (key j) fs
find-remove_ne j (index i) fs apart = find-remove_index j i fs
find-remove_ne j (key k) fs apart = find-remove_field j k fs (apart_texts j k apart)

module _ (j : String) (s : Step) (apart : s ≢ key j) where
  set_at-KeepsField : (anchor value : Json) → KeepsField j (set_at s anchor value)
  unfolding set_at
  set_at-KeepsField anchor value fs changed h =
      let p = >>=-eq-ok (require (not (is_null anchor && is_some (find s fs))) field_exists) _ h in
      let q =
        >>=-eq-ok (require (is_null anchor || field_anchored anchor (find s fs)) anchor_mismatch) _
          p.2 in
      (set_field s value fs, cc q.2, find-set_ne j s value fs apart)

  remove_at-KeepsField : (anchor : Json) → KeepsField j (remove_at s anchor)
  unfolding remove_at
  remove_at-KeepsField anchor fs changed h =
      let p = >>=-eq-ok (or_err (find s fs) not_present) _ h in
      let q = >>=-eq-ok (check_anchor anchor p.0) _ p.2 in
      (remove_field s fs, cc q.2, find-remove_ne j s fs apart)

  insert_at-KeepsField : (value : Json) → KeepsField j (insert_at s value)
  unfolding insert_at
  insert_at-KeepsField value fs changed h = cc

  -- an edit below a first step on the object
  edit_below-KeepsField :
      (steps : List Step) (act : Json → Result Json) → KeepsField j (edit_below (s ∷ steps) act)
  unfolding edit_below
  edit_below-KeepsField steps act fs changed h =
      let p = >>=-eq-ok (field_value fs s) _ h in
      let q = >>=-eq-ok (edit_below steps act p.0) _ p.2 in
      (set_field s q.0 fs, cc q.2, find-set_ne j s q.0 fs apart)

edit_by-KeepsField :
    (op : Op) (edit : DraftEdit) (j : String) → edit.last ≢ key j → KeepsField j (edit_by op edit)
unfolding edit_by
edit_by-KeepsField set edit j apart = set_at-KeepsField j edit.last apart edit.anchor edit.value
edit_by-KeepsField insert edit j apart = insert_at-KeepsField j edit.last apart edit.value
edit_by-KeepsField remove edit j apart = remove_at-KeepsField j edit.last apart edit.anchor

-- what the rest of an edit's path does at the object where it parts from another path
edit_rest-KeepsField :
    (steps : List Step) (edit : DraftEdit) (j : String)
    → head_or steps edit.last ≢ key j
    → KeepsField j (edit_below steps (edit_parent edit))
edit_rest-KeepsField [] edit j apart =
    unfold edit_below edit_parent in edit_by-KeepsField edit.op edit j apart
edit_rest-KeepsField (s ∷ steps) edit j apart =
    edit_below-KeepsField j s apart steps (edit_parent edit)

edit_below-append :
    (ps qs : List Step) (act : Json → Result Json) (d : Json)
    → edit_below (ps ++ qs) act d ≡ edit_below ps (edit_below qs act) d
unfolding edit_below
edit_below-append [] qs act d = refl
edit_below-append (s ∷ ps) qs act (arr xs) = simp (edit_below-append ps qs act)
edit_below-append (s ∷ ps) qs act (obj fs) = simp (edit_below-append ps qs act)
edit_below-append (s ∷ ps) qs act null = refl
edit_below-append (s ∷ ps) qs act (bool b) = refl
edit_below-append (s ∷ ps) qs act (num n) = refl
edit_below-append (s ∷ ps) qs act (str t) = refl

resolve-field :
    (j : String) (rest : List Step) (fs gs : Fields)
    → find (key j) gs ≡ find (key j) fs
    → resolve (key j ∷ rest) (obj gs) ≡ resolve (key j ∷ rest) (obj fs)
unfolding resolve field_value
resolve-field j rest fs gs same = rw same

local_at :
    (common rest : List Step) (act : Json → Result Json) (j : String) (fs : Fields)
    (draft changed : Json)
    → KeepsField j act
    → resolve common draft ≡ ok (obj fs)
    → Edited common act draft changed
    → resolve (common ++ key j ∷ rest) changed ≡ resolve (common ++ key j ∷ rest) draft
local_at common rest act j fs draft changed keeps at_object e =
    let on_object : act (obj fs) ≡ ok e.after = cc (at_object, e.resolved, e.changed) in
    let kept = keeps fs e.after on_object in
    let same = resolve-field j rest fs kept.0 kept.2 in
    rw
      (
        resolve-append common (key j ∷ rest) changed,
        resolve-append common (key j ∷ rest) draft,
        e.result,
        at_object,
      )
      (cc (kept.1, same))

-- An applied edit, of any kind, leaves alone what lies behind another field of an object on its way:
-- if the path parts from `common ++ key j` at an object, then every walk through that field arrives
-- where it arrived before.
pub apply_edit-local :
    (edit : DraftEdit) (common steps rest : List Step) (j : String) (fs : Fields)
    (draft changed : Json)
    → edit.parents ≡ common ++ steps
    → head_or steps edit.last ≢ key j
    → resolve common draft ≡ ok (obj fs)
    → apply_edit edit draft ≡ ok changed
    → resolve (common ++ key j ∷ rest) changed ≡ resolve (common ++ key j ∷ rest) draft
unfolding apply_edit
apply_edit-local edit common steps rest j fs draft changed split apart at_object h =
    local_at common rest (edit_below steps (edit_parent edit)) j fs draft changed
      (edit_rest-KeepsField steps edit j apart) at_object
      (edit_below-Edited common (edit_below steps (edit_parent edit)) draft changed (
        sym (edit_below-append common steps (edit_parent edit) draft)
        ∙ sym (ap (λ ps. edit_below ps (edit_parent edit) draft) split)
        ∙ h))
