-- ===== src/Judgment/Assembly/Resolved.antt =====
-- judgment/application/report_assembly.py: the answers of `resolve`.
use mathlib.Core.Path.{subst}
use unknown_file_threat_agen.Shared.Text.{strip}
use unknown_file_threat_agen.Contracts.{InvestigationState}
use unknown_file_threat_agen.Judgment.Grounding.Refs.{Within}
use unknown_file_threat_agen.Judgment.Assembly.Catalog.{
  PointerCatalog, build, append_new, resolve_ref, resolve_from, resolve,
}
use unknown_file_threat_agen.Judgment.Assembly.Whitelist.{
  IsCitable, resolve_ref-IsCitable, in_left, All-++,
}
use unknown_file_threat_agen.Prelude.{
  String, ◌≡◌, refl, sym, ◌⊎◌, inl, inr, true, false, ◌||◌, none, some, List, [], ◌∷◌, ◌++◌, arith,
  ◌==◌, eq_iff, Bool-cases, Option-cases, All, mem, str_refl, mem-append,
}

-- no text occurs twice
abbrev pub IsDistinct : List String → Type 0
IsDistinct [] = Unit
IsDistinct (x ∷ xs) = (mem x xs ≡ false) × IsDistinct xs

IsDistinct-snoc :
    (xs : List String) (x : String) → IsDistinct xs → mem x xs ≡ false → IsDistinct (xs ++ x ∷ [])
unfolding mem
IsDistinct-snoc [] x d n = (refl, tt)
IsDistinct-snoc (y ∷ ys) x d n = (
  ground (arith, d.0, n, mem-append y ys (x ∷ []), eq_iff x y, eq_iff y x),
  IsDistinct-snoc ys x d.1 (ground (arith, n)),
)

IsDistinct-append_new :
    (x : String) (xs : List String) → IsDistinct xs → IsDistinct (append_new x xs)
unfolding append_new
IsDistinct-append_new x xs d = elim (Bool-cases (mem x xs)) [
  | inl old ↦ rw old d
  | inr new ↦ rw new (IsDistinct-snoc xs x d new)
]

pub mem-append_new :
    (a x : String) (xs : List String) → mem a (append_new x xs) ≡ (mem a xs || a == x)
unfolding append_new
mem-append_new a x xs = elim (Bool-cases (mem x xs)) [
  | inl old ↦ rw old (ground (arith, old, eq_iff a x))
  | inr new ↦ rw (new, mem-append a xs (x ∷ [])) (unfold mem in ground arith)
]

pub All-append_new :
    (P : String → Type 0) (x : String) (xs : List String) → P x → All P xs → All P (append_new x xs)
unfolding append_new
All-append_new P x xs p h = elim (Bool-cases (mem x xs)) [
  | inl old ↦ rw old h
  | inr new ↦ rw new (All-++ P xs (x ∷ []) h (p, tt))
]

-- what became of one citation
abbrev pub IsSettled : PointerCatalog → List String × List String → String → Type 0
IsSettled catalog (resolved, rejected) ref =
    ((id : String) × (resolve_ref catalog ref ≡ some id) × (mem id resolved ≡ true))
    ⊎ ((resolve_ref catalog ref ≡ none) × (mem (strip ref) rejected ≡ true))

-- both lists only grow
abbrev Grows : List String × List String → List String × List String → Type 0
Grows (xs, ys) (vs, ws) = Within xs vs × Within ys ws

-- the invariant of the loop
abbrev IsResolved : PointerCatalog → (String → Type 0) → List String × List String → Type 0
IsResolved catalog P (resolved, rejected) = All P resolved × IsDistinct resolved

module _ (catalog : PointerCatalog) where
  resolve_from-Grows :
      (resolved rejected refs : List String)
      → Grows (resolved, rejected) (resolve_from catalog resolved rejected refs)
  unfolding resolve_from
  resolve_from-Grows resolved rejected [] = (λ a m. m, λ a m. m)
  resolve_from-Grows resolved rejected (ref ∷ refs) =
      elim (Option-cases (resolve_ref catalog ref)) [
        | inl e ↦
            let rest = resolve_from-Grows resolved (rejected ++ strip ref ∷ []) refs in
            rw (e, resolve_from) (rest.0, λ a m. rest.1 a (in_left a rejected (strip ref ∷ []) m))
        | inr (id, e) ↦
            let rest = resolve_from-Grows (append_new id resolved) rejected refs in
            rw (e, resolve_from)
              (λ a m. rest.0 a (ground (arith, m, mem-append_new a id resolved)), rest.1)
      ]

  resolve_from-IsResolved :
      (P : String → Type 0)
      → ((ref id : String) → resolve_ref catalog ref ≡ some id → P id)
      → (resolved rejected refs : List String) → IsResolved catalog P (resolved, rejected)
      → IsResolved catalog P (resolve_from catalog resolved rejected refs)
  unfolding resolve_from
  resolve_from-IsResolved P each resolved rejected [] h = h
  resolve_from-IsResolved P each resolved rejected (ref ∷ refs) h =
      elim (Option-cases (resolve_ref catalog ref)) [
        | inl e ↦
            rw (e, resolve_from)
              (resolve_from-IsResolved P each resolved (rejected ++ strip ref ∷ []) refs h)
        | inr (id, e) ↦
            rw (e, resolve_from)
              (resolve_from-IsResolved P each (append_new id resolved) rejected refs (
                All-append_new P id resolved (each ref id e) h.0,
                IsDistinct-append_new id resolved h.1,
              ))
      ]

  resolve_from-none :
      (resolved rejected refs : List String) (ref : String)
      → resolve_ref catalog ref ≡ none
      → resolve_from catalog resolved rejected (ref ∷ refs)
        ≡ resolve_from catalog resolved (rejected ++ strip ref ∷ []) refs
  unfolding resolve_from
  resolve_from-none resolved rejected refs ref e = rw (e, resolve_from)

  resolve_from-some :
      (resolved rejected refs : List String) (ref id : String)
      → resolve_ref catalog ref ≡ some id
      → resolve_from catalog resolved rejected (ref ∷ refs)
        ≡ resolve_from catalog (append_new id resolved) rejected refs
  unfolding resolve_from
  resolve_from-some resolved rejected refs ref id e = rw (e, resolve_from)

  resolve_from-IsSettled :
      (resolved rejected refs : List String)
      → All (IsSettled catalog (resolve_from catalog resolved rejected refs)) refs
  resolve_from-IsSettled resolved rejected [] = tt
  resolve_from-IsSettled resolved rejected (ref ∷ refs) =
      elim (Option-cases (resolve_ref catalog ref)) [
        | inl e ↦
            let more = rejected ++ strip ref ∷ [] in
            subst (λ out. All (IsSettled catalog out) (ref ∷ refs))
              (sym (resolve_from-none resolved rejected refs ref e))
              (
                inr (
                  e,
                  (resolve_from-Grows resolved more refs).1 (strip ref) (
                      rw (mem-append (strip ref) rejected (strip ref ∷ []))
                        (unfold mem in ground (arith, str_refl (strip ref)))),
                ),
                resolve_from-IsSettled resolved more refs,
              )
        | inr (id, e) ↦
            subst (λ out. All (IsSettled catalog out) (ref ∷ refs))
              (sym (resolve_from-some resolved rejected refs ref id e))
              (
                inl (
                  id,
                  e,
                  (resolve_from-Grows (append_new id resolved) rejected refs).0 id
                      (ground (arith, mem-append_new id id resolved, str_refl id)),
                ),
                resolve_from-IsSettled (append_new id resolved) rejected refs,
              )
      ]

-- Whatever citations the model writes, those that the catalogue of a state resolves are identifiers that a
-- statement may cite, each once, and every citation is either resolved to one of them or rejected.
pub resolve_lem :
    (state : InvestigationState) (refs : List String)
    → (let found = resolve (build state) refs in
        All (IsCitable state) found.0
        × IsDistinct found.0
        × All (IsSettled (build state) found) refs)
unfolding resolve
resolve_lem state refs =
    let r =
      resolve_from-IsResolved (build state) (IsCitable state) (resolve_ref-IsCitable state) [] []
        refs (tt, tt) in
    (r.0, r.1, resolve_from-IsSettled (build state) [] [] refs)
