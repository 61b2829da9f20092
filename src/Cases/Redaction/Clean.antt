-- ===== src/Cases/Redaction/Clean.antt =====
-- case_management/application/run_service.py: what `redact_details` leaves.
use mathlib.Core.Option
use unknown_file_threat_agen.Shared.Json.{
  Step, key, index, same_key, Json, null, bool, num, str, arr, obj, Items, nil, cons, Fields, end,
  field, find,
}
use unknown_file_threat_agen.Cases.Redaction.{
  is_forbidden, redact_details, redact_items, redact_fields,
}
use unknown_file_threat_agen.Prelude.{
  ◌≡◌, refl, ap, inl, inr, Bool, true, false, not, ◌&&◌, none, arith, eq_iff, if◌then◌else◌,
  Bool-cases,
}

-- No forbidden key occurs at any depth.
unfoldable mutual
  pub is_clean : Json → Bool
  is_clean (obj fs) = fields_clean fs
  is_clean (arr xs) = items_clean xs
  is_clean null = true
  is_clean (bool b) = true
  is_clean (num n) = true
  is_clean (str s) = true

  items_clean : Items → Bool
  items_clean nil = true
  items_clean (cons x xs) = is_clean x && items_clean xs

  fields_clean : Fields → Bool
  fields_clean end = true
  fields_clean (field k v fs) = not (is_forbidden k) && (is_clean v && fields_clean fs)

mutual
  unfolding is_clean redact_details

  clean_lem : (j : Json) → is_clean (redact_details j) ≡ true
  clean_lem (obj fs) = fields_lem fs
  clean_lem (arr xs) = items_lem xs
  clean_lem null = refl
  clean_lem (bool b) = refl
  clean_lem (num n) = refl
  clean_lem (str s) = refl

  items_lem : (xs : Items) → items_clean (redact_items xs) ≡ true
  items_lem nil = refl
  items_lem (cons x xs) = rw (clean_lem x, items_lem xs) refl

  fields_lem : (fs : Fields) → fields_clean (redact_fields fs) ≡ true
  fields_lem end = refl
  fields_lem (field k v fs) = elim (Bool-cases (is_forbidden k)) [
    | inl f ↦ rw f (fields_lem fs)
    | inr f ↦ rw (f, fields_clean, f, clean_lem v, fields_lem fs) refl
  ]

and_split : (a b : Bool) → (a && b) ≡ true → (a ≡ true) × (b ≡ true)
and_split true b h = (refl, h)
and_split false b h = cc

mutual
  unfolding is_clean redact_details

  kept_lem : (j : Json) → is_clean j ≡ true → redact_details j ≡ j
  kept_lem (obj fs) h = ap obj (kept_fields fs h)
  kept_lem (arr xs) h = ap arr (kept_items xs h)
  kept_lem null h = refl
  kept_lem (bool b) h = refl
  kept_lem (num n) h = refl
  kept_lem (str s) h = refl

  kept_items : (xs : Items) → items_clean xs ≡ true → redact_items xs ≡ xs
  kept_items nil h = refl
  kept_items (cons x xs) h =
      let parts = and_split (is_clean x) (items_clean xs) h in
      rw (kept_lem x parts.0, kept_items xs parts.1) refl

  kept_fields : (fs : Fields) → fields_clean fs ≡ true → redact_fields fs ≡ fs
  kept_fields end h = refl
  kept_fields (field k v fs) h =
      let own = and_split (not (is_forbidden k)) (is_clean v && fields_clean fs) h in
      let parts = and_split (is_clean v) (fields_clean fs) own.1 in
      let allowed : is_forbidden k ≡ false = ground (arith, own.0) in
      rw (allowed, kept_lem v parts.0, kept_fields fs parts.1) refl

-- No key that reads as a credential after `re.sub` is left at any depth, and a second redaction
-- changes nothing.
pub redact_details_lem :
    (value : Json)
    → (is_clean (redact_details value) ≡ true)
      × (redact_details (redact_details value) ≡ redact_details value)
redact_details_lem value = (clean_lem value, kept_lem (redact_details value) (clean_lem value))

forbidden_same : (k j : Step) → same_key k j ≡ true → is_forbidden k ≡ is_forbidden j
forbidden_same (key a) (key b) h = ap (λ s. is_forbidden (key s)) ((eq_iff a b).0 h)
forbidden_same (key a) (index n) h = cc
forbidden_same (index m) (key b) h = cc
forbidden_same (index m) (index n) h = unfold is_forbidden in refl

-- Every other field of an object stays, with its value redacted: a lookup finds what it found before.
pub find-redact_fields :
    (k : Step) (fs : Fields)
    → find k (redact_fields fs)
      ≡ (if is_forbidden k then none else Option.map redact_details (find k fs))
unfolding find redact_details
find-redact_fields k end = elim (Bool-cases (is_forbidden k)) [
  | inl f ↦ rw f refl
  | inr f ↦ rw f refl
]
find-redact_fields k (field j v fs) =
    let again = find-redact_fields k fs in
    elim (Bool-cases (is_forbidden j)) [
      | inl f ↦ elim (Bool-cases (same_key k j)) [
        | inl s ↦ rw (f, s, again, forbidden_same k j s, f) refl
        | inr s ↦ rw (f, s) again
      ]
      | inr f ↦ elim (Bool-cases (same_key k j)) [
        | inl s ↦ rw (f, find, s, forbidden_same k j s, f) refl
        | inr s ↦ rw (f, find, s) again
      ]
    ]
