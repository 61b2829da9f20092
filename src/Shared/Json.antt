-- ===== src/Shared/Json.antt =====
-- JSON values as Python holds them after `json.loads`. A key of an object is a step of a path: a
-- text, or an integer, which Python also admits as a key. Numbers are integers.
use unknown_file_threat_agen.Prelude.Int.{ℤ, pos, eqb_ℤ}
use unknown_file_threat_agen.Prelude.{
  ℕ, zero, suc, String, Bool, true, false, not, ◌&&◌, Option, none, some, ◌==◌, eqb, if◌then◌else◌,
}

pub data Step : Type 0 where
  key : String → Step
  index : ℤ → Step

mutual
  pub data Json : Type 0 where
    null : Json
    bool : Bool → Json
    num : ℤ → Json
    str : String → Json
    arr : Items → Json
    obj : Fields → Json

  pub data Items : Type 0 where
    nil : Items
    cons : Json → Items → Items

  pub data Fields : Type 0 where
    end : Fields
    field : Step → Json → Fields → Fields

-- Python's `==` on keys
abbrev pub same_key : Step → Step → Bool
same_key (key a) (key b) = a == b
same_key (index a) (index b) = eqb_ℤ a b
same_key _ _ = false

unfoldable pub size_items : Items → ℕ
size_items nil = 0
size_items (cons x xs) = suc (size_items xs)

unfoldable pub size_fields : Fields → ℕ
size_fields end = 0
size_fields (field k v fs) = suc (size_fields fs)

-- `d.get(k)` on an object
unfoldable pub find : Step → Fields → Option Json
find k end = none
find k (field j v fs) = if same_key k j then some v else find k fs

abbrev bool_num : Bool → ℤ
bool_num true = pos 1
bool_num false = pos 0

abbrev bool_eq : Bool → Bool → Bool
bool_eq true b = b
bool_eq false b = not b

-- Python's `==`: a Boolean equals the number 0 or 1, and objects are compared without their order.
unfoldable mutual
  pub json_eq : Json → Json → Bool
  json_eq null null = true
  json_eq (bool a) (bool b) = bool_eq a b
  json_eq (bool a) (num n) = eqb_ℤ (bool_num a) n
  json_eq (num m) (bool b) = eqb_ℤ m (bool_num b)
  json_eq (num m) (num n) = eqb_ℤ m n
  json_eq (str a) (str b) = a == b
  json_eq (arr xs) (arr ys) = items_eq xs ys
  json_eq (obj fs) (obj gs) = eqb (size_fields fs) (size_fields gs) && fields_within fs gs
  json_eq _ _ = false

  pub items_eq : Items → Items → Bool
  items_eq nil nil = true
  items_eq (cons x xs) (cons y ys) = json_eq x y && items_eq xs ys
  items_eq _ _ = false

  pub fields_within : Fields → Fields → Bool
  fields_within end gs = true
  fields_within (field k v fs) gs =
      elim (find k gs) [ none ↦ false | some w ↦ json_eq v w ] && fields_within fs gs

-- `xs[n]`, the write of it, the insertion before it and the removal of it, at a position in range
unfoldable pub nth : Items → ℕ → Option Json
nth nil n = none
nth (cons x xs) zero = some x
nth (cons x xs) (suc n) = nth xs n

unfoldable pub set_nth : Items → ℕ → Json → Items
set_nth nil n v = nil
set_nth (cons x xs) zero v = cons v xs
set_nth (cons x xs) (suc n) v = cons x (set_nth xs n v)

unfoldable pub insert_nth : Items → ℕ → Json → Items
insert_nth xs zero v = cons v xs
insert_nth nil (suc n) v = cons v nil
insert_nth (cons x xs) (suc n) v = cons x (insert_nth xs n v)

unfoldable pub remove_nth : Items → ℕ → Items
remove_nth nil n = nil
remove_nth (cons x xs) zero = xs
remove_nth (cons x xs) (suc n) = cons x (remove_nth xs n)

-- `d[k] = v` and `del d[k]`
unfoldable pub set_field : Step → Json → Fields → Fields
set_field k v end = field k v end
set_field k v (field j w fs) =
    let rest = set_field k v fs in if same_key k j then field j v fs else field j w rest

unfoldable pub remove_field : Step → Fields → Fields
remove_field k end = end
remove_field k (field j w fs) =
    let rest = remove_field k fs in if same_key k j then fs else field j w rest

-- whether Python takes a value for true
unfoldable pub is_truthy : Json → Bool
is_truthy null = false
is_truthy (bool b) = b
is_truthy (num n) = not (eqb_ℤ n (pos 0))
is_truthy (str s) = not (s == "")
is_truthy (arr nil) = false
is_truthy (arr (cons x xs)) = true
is_truthy (obj end) = false
is_truthy (obj (field k v fs)) = true
