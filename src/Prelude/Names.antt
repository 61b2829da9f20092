-- ===== src/Prelude/Names.antt =====
-- Sets of identifiers: a Python set of texts is a list that is only asked for membership, and
-- `sorted(set(xs))` is an ordered insertion without duplicates.
use Prim.Native.Nat.{Ordering}
use Prim.Native.String.{String, compare}
use mathlib.Core.Path.{◌≡◌, refl, ◌∙◌}
use mathlib.Core.Logic.{◌↔◌}
use mathlib.Core.Bool.{Bool, true, false, not, ◌&&◌, ◌||◌}
use mathlib.Core.List.{List, [], ◌∷◌, ◌++◌}
use native.Mathlib.Omega.{arith}
use text.Mathlib.Text.{◌==◌}
use text.Mathlib.TextEquality.{eq_iff}
use unknown_file_threat_agen.Prelude.Tests.{if◌then◌else◌}
use unknown_file_threat_agen.Prelude.Lists.{any, all, is_nil, filter_by}

pub str_refl : (a : String) → (a == a) ≡ true
str_refl a = (eq_iff a a).1 refl

-- `a in xs`
unfoldable pub mem : String → List String → Bool
mem a xs = any (λ x. a == x) xs

-- `[x for x in xs if x not in ys]`, and the set difference
unfoldable pub diff : List String → List String → List String
unfolding mem
diff xs ys = filter_by (λ x. not (mem x ys)) xs

unfoldable pub disjoint : List String → List String → Bool
unfolding mem
disjoint xs ys = not (any (λ x. mem x ys) xs)

-- code point order
before : String → String → Bool
before a b = elim (compare a b) [ Ordering.lt ↦ true | _ ↦ false ]

insert_sorted : String → List String → List String
insert_sorted a [] = a ∷ []
insert_sorted a (x ∷ xs) =
    let rest = insert_sorted a xs in
    if a == x then x ∷ xs else if before a x then a ∷ x ∷ xs else x ∷ rest

-- `sorted(set(xs))`
unfoldable pub sorted_set : List String → List String
unfolding insert_sorted before
sorted_set [] = []
sorted_set (x ∷ xs) = insert_sorted x (sorted_set xs)

-- `list(dict.fromkeys(xs))`: the first occurrence of each, in order
unfoldable pub dedup : List String → List String
unfolding diff
dedup [] = []
dedup (x ∷ xs) = x ∷ diff (dedup xs) (x ∷ [])

pub mem-append : (a : String) (xs ys : List String) → mem a (xs ++ ys) ≡ (mem a xs || mem a ys)
unfolding mem
mem-append a [] ys = refl
mem-append a (x ∷ xs) ys = ground (arith, mem-append a xs ys)

pub mem-diff :
    (a : String) (xs ys : List String) → mem a (diff xs ys) ≡ (mem a xs && not (mem a ys))
unfolding mem diff
mem-diff a [] ys = refl
mem-diff a (x ∷ xs) ys = ground (arith, mem-diff a xs ys, eq_iff a x)

mem-insert_sorted :
    (a b : String) (xs : List String) → mem a (insert_sorted b xs) ≡ ((a == b) || mem a xs)
unfolding mem insert_sorted
mem-insert_sorted a b [] = refl
mem-insert_sorted a b (x ∷ xs) =
    ground (arith, mem-insert_sorted a b xs, eq_iff b x, eq_iff a b, eq_iff a x)

pub mem-sorted_set : (a : String) (xs : List String) → mem a (sorted_set xs) ≡ mem a xs
unfolding mem sorted_set
mem-sorted_set a [] = refl
mem-sorted_set a (x ∷ xs) =
    ground (arith, mem-insert_sorted a x (sorted_set xs), mem-sorted_set a xs)

pub mem-dedup : (a : String) (xs : List String) → mem a (dedup xs) ≡ mem a xs
unfolding mem dedup
mem-dedup a [] = refl
mem-dedup a (x ∷ xs) = ground (arith, mem-diff a (dedup xs) (x ∷ []), mem-dedup a xs)

insert_sorted-ne-nil : (a : String) (xs : List String) → is_nil (insert_sorted a xs) ≡ false
unfolding insert_sorted
insert_sorted-ne-nil a [] = refl
insert_sorted-ne-nil a (x ∷ xs) = ground arith

pub sorted_set-eq-nil : (xs : List String) → is_nil (sorted_set xs) ≡ is_nil xs
unfolding sorted_set
sorted_set-eq-nil [] = refl
sorted_set-eq-nil (x ∷ xs) = insert_sorted-ne-nil x (sorted_set xs)

-- a difference is empty exactly when everything is covered
pub diff-eq-nil : (xs ys : List String) → is_nil (diff xs ys) ≡ all (λ x. mem x ys) xs
unfolding diff
diff-eq-nil [] ys = refl
diff-eq-nil (x ∷ xs) ys = ground (arith, diff-eq-nil xs ys)

pub all-mem :
    (p : String → Bool) (a : String) (xs : List String)
    → all p xs ≡ true
    → mem a xs ≡ true
    → p a ≡ true
unfolding mem
all-mem p a [] h m = ground arith
all-mem p a (x ∷ xs) h m = ground (arith, all-mem p a xs, eq_iff a x)

-- what is in `xs` and the difference is empty is in `ys`
pub all-mem-of_diff :
    (a : String) (xs ys : List String)
    → is_nil (sorted_set (diff xs ys)) ≡ true
    → mem a xs ≡ true
    → mem a ys ≡ true
all-mem-of_diff a xs ys h m =
    all-mem (λ x. mem x ys) a xs (ground (arith, diff-eq-nil xs ys, sorted_set-eq-nil (diff xs ys)))
      m

all-of_mem :
    (p : String → Bool) (xs : List String)
    → ((a : String) → mem a xs ≡ true → p a ≡ true)
    → all p xs ≡ true
unfolding mem
all-of_mem p [] h = refl
all-of_mem p (x ∷ xs) h =
    ground (arith, h x, str_refl x, all-of_mem p xs (λ a m. h a (ground (arith, m))))

-- `sorted(set(xs) - set(ys))` is empty exactly when every member of `xs` is one of `ys`
pub covered_iff :
    (xs ys : List String)
    → (is_nil (sorted_set (diff xs ys)) ≡ true) ↔ ((a : String) → mem a xs ≡ true → mem a ys ≡ true)
covered_iff xs ys = (
  λ h a m. all-mem-of_diff a xs ys h m,
  λ h.
      ground
        (arith, all-of_mem (λ x. mem x ys) xs h, diff-eq-nil xs ys, sorted_set-eq-nil (diff xs ys)),
)

-- the members of that set
pub mem-uncovered :
    (a : String) (xs ys : List String)
    → mem a (sorted_set (diff xs ys)) ≡ (mem a xs && not (mem a ys))
mem-uncovered a xs ys = mem-sorted_set a (diff xs ys) ∙ mem-diff a xs ys
