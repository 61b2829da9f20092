-- ===== src/Cases/RuntimeStore/Numbering.antt =====
-- case_management/adapters/runtime_store.py: the numbers of the events of a run.
use unknown_file_threat_agen.Cases.RuntimeStore.{
  Entry, in_run, last_sequence, next_sequence, is_taken,
}
use unknown_file_threat_agen.Prelude.{
  ℕ, zero, suc, ◌<◌, max, String, ◌≡◌, refl, inl, inr, Bool, true, false, ◌&&◌, List, [], ◌∷◌, ◌++◌,
  arith, ◌==◌, eq_iff, eqb, if◌then◌else◌, Bool-cases,
}

module _ {A : Type 0} where
  -- the numbers of the entries of a run, in the order in which they were written
  pub sequences_of : String → String → List (Entry × A) → List ℕ
  sequences_of tenant run_id [] = []
  sequences_of tenant run_id (x ∷ xs) =
      let rest = sequences_of tenant run_id xs in
      if in_run tenant run_id x.0 then x.0.sequence ∷ rest else rest

-- 1, 2, ..., n
pub counted : ℕ → List ℕ
counted zero = []
counted (suc n) = counted n ++ suc n ∷ []

-- The entries of every run are numbered 1, 2, 3, ... in the order in which they were written.
pub IsNumbered : {A : Type 0} → List (Entry × A) → Type 0
IsNumbered xs =
    (tenant run_id : String)
    → sequences_of tenant run_id xs ≡ counted (last_sequence tenant run_id xs)

pub IsNumbered-nil : (A : Type 0) → IsNumbered {A = A} []
unfolding IsNumbered sequences_of last_sequence counted
IsNumbered-nil A tenant run_id = refl

sequences_of-append :
    {A : Type 0} (tenant run_id : String) (xs : List (Entry × A)) (x : Entry × A)
    → sequences_of tenant run_id (xs ++ x ∷ []) ≡ (
        if in_run tenant run_id x.0
        then sequences_of tenant run_id xs ++ x.0.sequence ∷ []
        else sequences_of tenant run_id xs)
unfolding sequences_of
sequences_of-append tenant run_id [] x = refl
sequences_of-append tenant run_id (y ∷ xs) x =
    ground (arith, sequences_of-append tenant run_id xs x)

max_branches :
    (b c : Bool) (l s t : ℕ)
    → (if b then max s (if c then max l t else l) else (if c then max l t else l))
      ≡ (if c then max (if b then max s l else l) t else (if b then max s l else l))
max_branches true true l s t = omega arith
max_branches true false l s t = refl
max_branches false true l s t = refl
max_branches false false l s t = refl

last_sequence-append :
    {A : Type 0} (tenant run_id : String) (xs : List (Entry × A)) (x : Entry × A)
    → last_sequence tenant run_id (xs ++ x ∷ []) ≡ (
        if in_run tenant run_id x.0
        then max (last_sequence tenant run_id xs) x.0.sequence
        else last_sequence tenant run_id xs)
unfolding last_sequence
last_sequence-append tenant run_id [] x = ground arith
last_sequence-append tenant run_id (y ∷ xs) x = rw (last_sequence-append tenant run_id xs x) (
    max_branches (in_run tenant run_id y.0) (in_run tenant run_id x.0)
      (last_sequence tenant run_id xs) y.0.sequence x.0.sequence)

in_run-own :
    (tenant run_id : String) (e : Entry)
    → in_run tenant run_id e ≡ true
    → (e.tenant_id ≡ tenant) × (e.run_id ≡ run_id)
unfolding in_run
in_run-own tenant run_id e h =
    let both : (e.tenant_id == tenant && e.run_id == run_id) ≡ true = h in
    (
      (eq_iff e.tenant_id tenant).0 (ground (arith, both)),
      (eq_iff e.run_id run_id).0 (ground (arith, both)),
    )

-- one more entry with the next number
pub IsNumbered-append :
    {A : Type 0} (xs : List (Entry × A)) (e : Entry) (b : A)
    → e.sequence ≡ next_sequence e.tenant_id e.run_id xs
    → IsNumbered xs
    → IsNumbered (xs ++ (e, b) ∷ [])
unfolding IsNumbered next_sequence counted
IsNumbered-append xs e b next numbered tenant run_id = elim (Bool-cases (in_run tenant run_id e)) [
  | inr other ↦ rw (sequences_of-append, last_sequence-append, other) (numbered tenant run_id)
  | inl own ↦
      let same = in_run-own tenant run_id e own in
      let here : e.sequence ≡ suc (last_sequence tenant run_id xs) =
        rw (← same.0, ← same.1) (omega (arith, next)) in
      let top : max (last_sequence tenant run_id xs) e.sequence
          ≡ suc (last_sequence tenant run_id xs) =
        ground (arith, here) in
      rw (sequences_of-append, last_sequence-append, own, top, numbered, here) refl
]

above_split :
    (b : Bool) (l s t : ℕ) → (if b then max s l else l) < t → (l < t) × ((b && eqb s t) ≡ false)
above_split true l s t h = (ground (arith, h), ground (arith, h))
above_split false l s t h = (h, refl)

-- a number above the last one is not taken
is_taken-above :
    {A : Type 0} (e : Entry) (xs : List (Entry × A))
    → last_sequence e.tenant_id e.run_id xs < e.sequence
    → is_taken e xs ≡ false
unfolding is_taken last_sequence
is_taken-above e [] above = refl
is_taken-above e (x ∷ xs) above =
    let parts =
      above_split (in_run e.tenant_id e.run_id x.0) (last_sequence e.tenant_id e.run_id xs)
        x.0.sequence e.sequence above in
    rw (parts.1) (is_taken-above e xs parts.0)

-- the next number is not taken
pub is_taken-next :
    {A : Type 0} (xs : List (Entry × A)) (e : Entry)
    → e.sequence ≡ next_sequence e.tenant_id e.run_id xs
    → is_taken e xs ≡ false
unfolding next_sequence
is_taken-next xs e next = is_taken-above e xs (omega (arith, next))
