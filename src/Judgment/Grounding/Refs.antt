-- ===== src/Judgment/Grounding/Refs.antt =====
-- judgment/application/report_validation.py: when the checks of a list of references find nothing.
use unknown_file_threat_agen.Judgment.Grounding.{
  IssueCode, classify_unknown, check_refs, issue_unless_nil,
}
use unknown_file_threat_agen.Prelude.{
  String, ◌≡◌, refl, sym, ◌∙◌, ◌↔◌, inl, inr, true, false, List, [], ◌∷◌, arith, Bool-cases, is_nil,
  is_nil-append, All, concat_map, mem, diff, sorted_set-eq-nil, covered_iff,
}

-- every text of a list is one of another
abbrev pub Within : List String → List String → Type 0
Within xs ys = (a : String) → mem a xs ≡ true → mem a ys ≡ true

-- a concatenation is empty exactly when all its parts are
pub concat_map-eq-nil {ℓ} :
    {A B : Type ℓ} (P : A → Type 0) (f : A → List B)
    → ((x : A) → (is_nil (f x) ≡ true) ↔ P x)
    → (xs : List A) → (is_nil (concat_map f xs) ≡ true) ↔ All P xs
concat_map-eq-nil P f each [] = (λ h. tt, λ h. refl)
concat_map-eq-nil P f each (x ∷ xs) =
    let rest = concat_map-eq-nil P f each xs in
    let split = is_nil-append (f x) (concat_map f xs) in
    (
      λ h. ((each x).0 (ground (arith, h, split)), rest.0 (ground (arith, h, split))),
      λ p. ground (arith, (each x).1 p.0, rest.1 p.1, split),
    )

-- the unknown references of a list: none of them is in the universe
abbrev pub Outside : List String → List String → Type 0
Outside universe refs = All (λ r. mem r universe ≡ false) refs

pub diff-Outside : (xs ys : List String) → Outside ys (diff xs ys)
unfolding diff
diff-Outside [] ys = tt
diff-Outside (x ∷ xs) ys = elim (Bool-cases (mem x ys)) [
  | inl known ↦ rw known (diff-Outside xs ys)
  | inr unknown ↦ rw unknown (unknown, diff-Outside xs ys)
]

-- a universe holds every authorised reference, so an unknown reference has a code
pub classify_unknown-eq-nil :
    (authorized forbidden universe unknown : List String) (location : String)
    → Within authorized universe
    → Outside universe unknown
    → is_nil (classify_unknown authorized forbidden unknown location) ≡ is_nil unknown
unfolding classify_unknown
classify_unknown-eq-nil authorized forbidden universe [] location w o = refl
classify_unknown-eq-nil authorized forbidden universe (r ∷ rs) location w o =
    ground (arith, w r, o.0)

pub check_refs-eq-nil :
    (authorized forbidden refs universe : List String) (location : String)
    → Within authorized universe
    → (is_nil (check_refs authorized forbidden refs location universe) ≡ true)
      ↔ Within refs universe
unfolding check_refs
check_refs-eq-nil authorized forbidden refs universe location w =
    let covered = covered_iff refs universe in
    let same =
      classify_unknown-eq-nil authorized forbidden universe (diff refs universe) location w
        (diff-Outside refs universe) in
    let sorted = sorted_set-eq-nil (diff refs universe) in
    (λ h. covered.0 (sorted ∙ sym same ∙ h), λ h. same ∙ sym sorted ∙ covered.1 h)

pub issue_unless_nil-eq-nil :
    (code : IssueCode) (location : String) (refs : List String)
    → is_nil (issue_unless_nil code location refs) ≡ is_nil refs
unfolding issue_unless_nil
issue_unless_nil-eq-nil code location [] = refl
issue_unless_nil-eq-nil code location (r ∷ rs) = refl
