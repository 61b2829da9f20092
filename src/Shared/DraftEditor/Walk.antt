-- ===== src/Shared/DraftEditor/Walk.antt =====
-- shared/draft_editor.py: an edit below a path.
use unknown_file_threat_agen.Shared.Json.{
  Step, key, index, Json, null, bool, num, str, arr, obj, Items, nil, cons, Fields, end, field,
  size_items, find, nth, set_nth, set_field, remove_field,
}
use unknown_file_threat_agen.Shared.DraftEditor.{
  Reason, out_of_range, Result, ok, err, ◌>>=◌, or_err, list_position, field_value, resolve,
  edit_below,
}
use unknown_file_threat_agen.Prelude.{
  ℕ, zero, suc, String, ◌≡◌, refl, ap, false, Option, none, some, List, [], ◌∷◌, ◌++◌, arith, ◌==◌,
  eq_iff, if◌then◌else◌, str_refl,
}

size-set_nth : (xs : Items) (n : ℕ) (v : Json) → size_items (set_nth xs n v) ≡ size_items xs
unfolding size_items set_nth
size-set_nth nil n v = refl
size-set_nth (cons x xs) zero v = refl
size-set_nth (cons x xs) (suc n) v = ap suc (size-set_nth xs n v)

pub list_position-set_nth :
    (xs : Items) (s : Step) (n : ℕ) (v : Json)
    → list_position (set_nth xs n v) s ≡ list_position xs s
unfolding list_position
list_position-set_nth xs (index i) n v = rw size-set_nth
list_position-set_nth xs (key s) n v = rw size-set_nth

pub nth-set_nth :
    (xs : Items) (n : ℕ) (v w : Json) → nth xs n ≡ some w → nth (set_nth xs n v) n ≡ some v
unfolding nth set_nth
nth-set_nth nil n v w h = cc
nth-set_nth (cons x xs) zero v w h = refl
nth-set_nth (cons x xs) (suc n) v w h = nth-set_nth xs n v w h

pub find-set_field :
    (j k : String) (v : Json) (fs : Fields)
    → find (key j) (set_field (key k) v fs) ≡ (if j == k then some v else find (key j) fs)
unfolding find set_field
find-set_field j k v end = refl
find-set_field j k v (field (key i) w fs) =
    ground (arith, eq_iff j k, eq_iff k i, eq_iff j i, find-set_field j k v fs)
find-set_field j k v (field (index i) w fs) = find-set_field j k v fs

pub find-remove_field :
    (j k : String) (fs : Fields)
    → (j == k) ≡ false
    → find (key j) (remove_field (key k) fs) ≡ find (key j) fs
unfolding find remove_field
find-remove_field j k end h = refl
find-remove_field j k (field (key i) w fs) h =
    ground (arith, eq_iff j k, eq_iff k i, eq_iff j i, find-remove_field j k fs h)
find-remove_field j k (field (index i) w fs) h = find-remove_field j k fs h

-- an `ok` comes from an `ok` on both sides
pub >>=-eq-ok {ℓ κ} :
    {T : Type ℓ} {U : Type κ} (r : Result T) (next : T → Result U) {out : U}
    → (r >>= next) ≡ ok out
    → (mid : T) × (r ≡ ok mid) × (next mid ≡ ok out)
>>=-eq-ok (err reason) next done = cc
>>=-eq-ok (ok mid) next done = (mid, refl, done)

pub or_err-eq-ok {ℓ} :
    {A : Type ℓ} (o : Option A) (e : Reason) {a : A} → or_err o e ≡ ok a → o ≡ some a
or_err-eq-ok none e h = cc
or_err-eq-ok (some x) e h = ground (arith, h)

field_value-set_field :
    (s : Step) (fs : Fields) (v w : Json)
    → field_value fs s ≡ ok w
    → field_value (set_field s v fs) s ≡ ok v
unfolding field_value
field_value-set_field (index i) fs v w h = cc
field_value-set_field (key k) fs v w h = rw (find-set_field k k v fs, str_refl k)

-- a successful edit below a path, at the place that the path leads to
pub record Edited (steps : List Step) (act : Json → Result Json) (d d' : Json) : Type 0 where
  pub before : Json
  pub after : Json
  pub resolved : resolve steps d ≡ ok before
  pub changed : act before ≡ ok after
  pub result : resolve steps d' ≡ ok after

module _ (s : Step) {steps : List Step} {act : Json → Result Json} {child changed d' : Json} where
  Edited-arr :
      (xs : Items) (n : ℕ)
      → list_position xs s ≡ ok n
      → nth xs n ≡ some child
      → arr (set_nth xs n changed) ≡ d'
      → Edited steps act child changed
      → Edited (s ∷ steps) act (arr xs) d'
  unfolding resolve
  Edited-arr xs n at_n found shape ih = record {
    before = ih.before;
    after = ih.after;
    resolved = rw (at_n, found) ih.resolved;
    changed = ih.changed;
    result = rw (← shape) (
        rw (list_position-set_nth xs s n changed, at_n, nth-set_nth xs n changed child found)
          ih.result);
  }

  Edited-obj :
      (fs : Fields)
      → field_value fs s ≡ ok child
      → obj (set_field s changed fs) ≡ d'
      → Edited steps act child changed
      → Edited (s ∷ steps) act (obj fs) d'
  unfolding resolve
  Edited-obj fs found shape ih = record {
    before = ih.before;
    after = ih.after;
    resolved = rw found ih.resolved;
    changed = ih.changed;
    result = rw (← shape) (rw (field_value-set_field s fs changed child found) ih.result);
  }

-- An edit below a path that succeeds has found a value at the path, changed it by the act, and left
-- the changed value at the same path.
pub edit_below-Edited :
    (steps : List Step) (act : Json → Result Json) (d d' : Json)
    → edit_below steps act d ≡ ok d'
    → Edited steps act d d'
unfolding edit_below
edit_below-Edited [] act d d' h = record {
  before = d;
  after = d';
  resolved = unfold resolve in refl;
  changed = h;
  result = unfold resolve in refl;
}
edit_below-Edited (s ∷ steps) act (arr xs) d' h =
    let p = >>=-eq-ok (list_position xs s) _ h in
    let q = >>=-eq-ok (or_err (nth xs p.0) out_of_range) _ p.2 in
    let r = >>=-eq-ok (edit_below steps act q.0) _ q.2 in
    Edited-arr s xs p.0 p.1 (or_err-eq-ok (nth xs p.0) out_of_range q.1) (cc r.2)
      (edit_below-Edited steps act q.0 r.0 r.1)
edit_below-Edited (s ∷ steps) act (obj fs) d' h =
    let q = >>=-eq-ok (field_value fs s) _ h in
    let r = >>=-eq-ok (edit_below steps act q.0) _ q.2 in
    Edited-obj s fs q.1 (cc r.2) (edit_below-Edited steps act q.0 r.0 r.1)
edit_below-Edited (s ∷ steps) act null d' h = cc
edit_below-Edited (s ∷ steps) act (bool b) d' h = cc
edit_below-Edited (s ∷ steps) act (num n) d' h = cc
edit_below-Edited (s ∷ steps) act (str t) d' h = cc

bind_assoc {ℓ κ μ} :
    {A : Type ℓ} {B : Type κ} {C : Type μ} (m : Result A) (f : A → Result B) (g : B → Result C)
    → ((m >>= f) >>= g) ≡ (m >>= λ a. f a >>= g)
bind_assoc (ok a) f g = refl
bind_assoc (err e) f g = refl

-- a longer path is resolved in two parts
pub resolve-append :
    (ps qs : List Step) (d : Json) → resolve (ps ++ qs) d ≡ (resolve ps d >>= resolve qs)
unfolding resolve
resolve-append [] qs d = refl
resolve-append (s ∷ ps) qs (arr xs) = simp (resolve-append ps qs, bind_assoc)
resolve-append (s ∷ ps) qs (obj fs) = simp (resolve-append ps qs, bind_assoc)
resolve-append (s ∷ ps) qs null = refl
resolve-append (s ∷ ps) qs (bool b) = refl
resolve-append (s ∷ ps) qs (num n) = refl
resolve-append (s ∷ ps) qs (str t) = refl
