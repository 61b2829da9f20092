-- ===== src/Shared/DraftEditor.antt =====
-- shared/draft_editor.py: targeted edits of a structured draft. Python walks to the parent of the
-- edited place and mutates it; the model rebuilds the draft along the path.
pub mod Numerals
pub mod Walk
pub mod Locality
pub mod Batches
use Numerals.{is_numeral, to_int}
use unknown_file_threat_agen.Prelude.Int.{ℤ, pos, negsuc, position}
use unknown_file_threat_agen.Shared.Json.{
  Step, key, index, Json, null, arr, obj, Items, Fields, json_eq, size_items, find, nth, set_nth,
  insert_nth, remove_nth, set_field, remove_field,
}
use unknown_file_threat_agen.Prelude.{
  ℕ, ◌+◌, Bool, true, false, not, ◌&&◌, ◌||◌, Option, none, some, List, [], ◌∷◌, ◌++◌, leb,
  if◌then◌else◌, is_some,
}

-- the `ValueError`s of the source, without their texts
pub data Reason : Type 0 where
  out_of_range not_an_object_key not_present scalar : Reason
  anchor_mismatch field_exists not_a_list bad_number : Reason

pub data Result {ℓ} (A : Type ℓ) : Type ℓ where
  err : Reason → Result A
  ok : A → Result A

abbrev pub or_err {ℓ} : {A : Type ℓ} → Option A → Reason → Result A
or_err none e = err e
or_err (some a) e = ok a

-- the first `ValueError` ends the edit
infixl 5 ◌>>=◌
abbrev pub ◌>>=◌ {ℓ κ} : {T : Type ℓ} {U : Type κ} → Result T → (T → Result U) → Result U
err reason >>= next = err reason
ok value >>= next = next value

pub data Op : Type 0 where
  set insert remove : Op

-- a path has at least one step: those before the last, and the last
pub record DraftEdit : Type 0 where
  pub op : Op
  pub parents : List Step
  pub last : Step
  pub anchor : Json
  pub value : Json

-- the position that a step stands for in a list: `_step` on a list
unfoldable pub list_position : Items → Step → Result ℕ
unfolding is_numeral to_int size_items
list_position xs (index i) = or_err (position (size_items xs) i) out_of_range
list_position xs (key s) =
    if is_numeral s
    then (do i ← or_err (to_int s) bad_number; or_err (position (size_items xs) i) out_of_range)
    else err out_of_range

-- `_step` on an object
unfoldable pub field_value : Fields → Step → Result Json
field_value fs (index i) = err not_an_object_key
field_value fs (key s) = or_err (find (key s) fs) not_present

-- `edit.anchor is None`
unfoldable pub is_null : Json → Bool
is_null null = true
is_null _ = false

abbrev pub require : Bool → Reason → Result (Unit {0})
require true e = ok tt
require false e = err e

infixl 5 ◌>>◌
abbrev pub ◌>>◌ {ℓ} : {B : Type ℓ} → Result (Unit {0}) → Result B → Result B
m >> k = m >>= λ _. k

-- `edit.anchor is not None and current != edit.anchor` raises
abbrev pub check_anchor : Json → Json → Result (Unit {0})
check_anchor anchor current = require (is_null anchor || json_eq current anchor) anchor_mismatch

-- an anchor on an object's field: the field is there and equals it
abbrev pub field_anchored : Json → Option Json → Bool
field_anchored anchor none = false
field_anchored anchor (some current) = json_eq current anchor

-- the three operations on the parent
unfoldable pub set_at : Step → Json → Json → Json → Result Json
set_at last anchor value (arr xs) = do
  n ← list_position xs last
  current ← or_err (nth xs n) out_of_range
  check_anchor anchor current
  ok (arr (set_nth xs n value))
set_at last anchor value (obj fs) = do
  require (not (is_null anchor && is_some (find last fs))) field_exists
  require (is_null anchor || field_anchored anchor (find last fs)) anchor_mismatch
  ok (obj (set_field last value fs))
set_at last anchor value _ = err scalar

-- `int(key) if isinstance(key, str) else key`
unfoldable pub insert_index : Step → Result ℤ
unfolding to_int
insert_index (index i) = ok i
insert_index (key s) = or_err (to_int s) bad_number

abbrev pub insert_position : ℕ → ℤ → Result ℕ
insert_position len (pos n) = if leb n len then ok n else err out_of_range
insert_position len (negsuc n) = err out_of_range

unfoldable pub insert_at : Step → Json → Json → Result Json
insert_at last value (arr xs) = do
  i ← insert_index last
  n ← insert_position (size_items xs) i
  ok (arr (insert_nth xs n value))
insert_at last value _ = err not_a_list

unfoldable pub remove_at : Step → Json → Json → Result Json
remove_at last anchor (arr xs) = do
  n ← list_position xs last
  current ← or_err (nth xs n) out_of_range
  check_anchor anchor current
  ok (arr (remove_nth xs n))
remove_at last anchor (obj fs) = do
  current ← or_err (find last fs) not_present
  check_anchor anchor current
  ok (obj (remove_field last fs))
remove_at last anchor _ = err scalar

unfoldable pub edit_by : Op → DraftEdit → Json → Result Json
edit_by set edit parent = set_at edit.last edit.anchor edit.value parent
edit_by insert edit parent = insert_at edit.last edit.value parent
edit_by remove edit parent = remove_at edit.last edit.anchor parent

unfoldable pub edit_parent : DraftEdit → Json → Result Json
edit_parent edit parent = edit_by edit.op edit parent

-- the walk of `_resolve_parent`, by `_step`
unfoldable pub resolve : List Step → Json → Result Json
resolve [] current = ok current
resolve (step ∷ steps) (arr xs) = do
  n ← list_position xs step
  child ← or_err (nth xs n) out_of_range
  resolve steps child
resolve (step ∷ steps) (obj fs) = do child ← field_value fs step; resolve steps child
resolve (step ∷ steps) _ = err scalar

-- the same walk, with the mutation of what it finds
unfoldable pub edit_below : List Step → (Json → Result Json) → Json → Result Json
edit_below [] act current = act current
edit_below (step ∷ steps) act (arr xs) = do
  n ← list_position xs step
  child ← or_err (nth xs n) out_of_range
  changed ← edit_below steps act child
  ok (arr (set_nth xs n changed))
edit_below (step ∷ steps) act (obj fs) = do
  child ← field_value fs step
  changed ← edit_below steps act child
  ok (obj (set_field step changed fs))
edit_below (step ∷ steps) act _ = err scalar

-- the body of the loop's `try`
unfoldable pub apply_edit : DraftEdit → Json → Result Json
apply_edit edit draft = edit_below edit.parents (edit_parent edit) draft

pub record EditResult : Type 0 where
  pub draft : Json
  pub applied : List ℕ
  pub rejected : List (ℕ × Reason)

unfoldable pub apply_from : ℕ → List DraftEdit → EditResult → EditResult
apply_from i [] result = result
apply_from i (edit ∷ edits) result = apply_from (i + 1) edits (elim (apply_edit edit result.draft) [
  | ok changed ↦ record result { draft = changed; applied = result.applied ++ i ∷ [] }
  | err reason ↦ record result { rejected = result.rejected ++ (i, reason) ∷ [] }
])

-- `apply_edits`
unfoldable pub apply_edits : Json → List DraftEdit → EditResult
unfolding apply_from
apply_edits draft edits = apply_from 0 edits (record { draft = draft; applied = []; rejected = [] })
