-- ===== src/Cases/ApprovalService/Pending/Newest.antt =====
-- case_management/application/approval_service.py: the event whose plan the approval desk shows.
use mathlib.Core.Path.{subst}
use unknown_file_threat_agen.Shared.Json.{Json, null, str, obj, end, key, find, json_eq, is_truthy}
use unknown_file_threat_agen.Cases.RuntimeStore.{EventBody, RuntimeStore, in_run}
use unknown_file_threat_agen.Cases.ApprovalService.Pending.{
  detail, Event, insert_event, by_sequence, list_operational_events, announces, newest,
  announced_plan, plan_at, pending_plan,
}
use unknown_file_threat_agen.Prelude.{
  or_else, ◌&&◌, String, Bool, ◌≤◌, String, ◌≡◌, refl, sym, ap, ◌∙◌, ◌⊎◌, inl, inr, Bool, true,
  false, none, some, List, [], ◌∷◌, arith, leb, if◌then◌else◌, if_elim, leb→le, Bool-cases,
  filter_by, All,
}

abbrev pub IsIn : Event → List Event → Type 0
IsIn e [] = ⊥
IsIn e (x ∷ xs) = (x ≡ e) ⊎ IsIn e xs

abbrev IsAscending : List Event → Type 0
IsAscending [] = Unit
IsAscending (x ∷ xs) = All (λ (y : Event). x.0.sequence ≤ y.0.sequence) xs × IsAscending xs

All-weaken :
    (P Q : Event → Type 0) (xs : List Event) → ((x : Event) → P x → Q x) → All P xs → All Q xs
All-weaken P Q [] f h = h
All-weaken P Q (x ∷ xs) f h = (f x h.0, All-weaken P Q xs f h.1)

All-insert_event :
    (P : Event → Type 0) (x : Event) (xs : List Event) → P x → All P xs → All P (insert_event x xs)
unfolding insert_event
All-insert_event P x [] p h = (p, h)
All-insert_event P x (y ∷ ys) p h =
    if_elim (All P) (leb x.0.sequence y.0.sequence) (λ le. (p, h))
      (λ gt. (h.0, All-insert_event P x ys p h.1))

All-of_insert_event :
    (P : Event → Type 0) (x : Event) (xs : List Event) → All P (insert_event x xs) → P x × All P xs
unfolding insert_event
All-of_insert_event P x [] h = h
All-of_insert_event P x (y ∷ ys) h =
    if_elim (λ zs. All P zs → P x × All P (y ∷ ys)) (leb x.0.sequence y.0.sequence) (λ le h. h)
      (λ gt h. let below = All-of_insert_event P x ys h.1 in (below.0, (h.0, below.1))) h

All-of_by_sequence : (P : Event → Type 0) (xs : List Event) → All P (by_sequence xs) → All P xs
unfolding by_sequence
All-of_by_sequence P [] h = h
All-of_by_sequence P (x ∷ xs) h =
    let split = All-of_insert_event P x (by_sequence xs) h in
    (split.0, All-of_by_sequence P xs split.1)

IsAscending-insert_event :
    (x : Event) (xs : List Event) → IsAscending xs → IsAscending (insert_event x xs)
unfolding insert_event
IsAscending-insert_event x [] h = (h, h)
IsAscending-insert_event x (y ∷ ys) h =
    if_elim IsAscending (leb x.0.sequence y.0.sequence)
      (λ le. (
        (
          leb→le x.0.sequence y.0.sequence le,
          All-weaken _ _ ys (λ z later. omega (arith, later, leb→le x.0.sequence y.0.sequence le))
              h.0,
        ),
        h,
      ))
      (λ gt. (All-insert_event _ x ys (ground (arith, gt)) h.0, IsAscending-insert_event x ys h.1))

IsAscending-by_sequence : (xs : List Event) → IsAscending (by_sequence xs)
unfolding by_sequence
IsAscending-by_sequence [] = tt
IsAscending-by_sequence (x ∷ xs) =
    IsAscending-insert_event x (by_sequence xs) (IsAscending-by_sequence xs)

IsIn-of_insert_event :
    (e x : Event) (xs : List Event) → IsIn e (insert_event x xs) → IsIn e (x ∷ xs)
unfolding insert_event
IsIn-of_insert_event e x [] h = h
IsIn-of_insert_event e x (y ∷ ys) h =
    if_elim (λ zs. IsIn e zs → IsIn e (x ∷ y ∷ ys)) (leb x.0.sequence y.0.sequence) (λ le h. h)
      (λ gt h. elim h [
        | inl here ↦ inr (inl here)
        | inr there ↦ elim (IsIn-of_insert_event e x ys there) [
          | inl own ↦ inl own
          | inr old ↦ inr (inr old)
        ]
      ])
      h

IsIn-of_by_sequence : (e : Event) (xs : List Event) → IsIn e (by_sequence xs) → IsIn e xs
unfolding by_sequence
IsIn-of_by_sequence e [] h = h
IsIn-of_by_sequence e (x ∷ xs) h = elim (IsIn-of_insert_event e x (by_sequence xs) h) [
  | inl own ↦ inl own
  | inr old ↦ inr (IsIn-of_by_sequence e xs old)
]

-- what the filter of a query keeps
IsIn-of_filter_by :
    (q : Event → Bool) (e : Event) (xs : List Event)
    → IsIn e (filter_by q xs)
    → (q e ≡ true) × IsIn e xs
IsIn-of_filter_by q e [] h = absurd h
IsIn-of_filter_by q e (x ∷ xs) h =
    if_elim (λ zs. IsIn e zs → (q e ≡ true) × IsIn e (x ∷ xs)) (q x)
      (λ kept h. elim h [
        | inl here ↦ (ap q (sym here) ∙ kept, inl here)
        | inr there ↦ let rest = IsIn-of_filter_by q e xs there in (rest.0, inr rest.1)
      ])
      (λ dropped h. let rest = IsIn-of_filter_by q e xs h in (rest.0, inr rest.1)) h

All-of_filter_by :
    (P : Event → Type 0) (q : Event → Bool) (xs : List Event)
    → All P (filter_by q xs)
    → All (λ y. q y ≡ true → P y) xs
All-of_filter_by P q [] h = h
All-of_filter_by P q (x ∷ xs) h =
    if_elim (λ zs. All P zs → All (λ y. q y ≡ true → P y) (x ∷ xs)) (q x)
      (λ kept h. (λ k. h.0, All-of_filter_by P q xs h.1))
      (λ dropped h. (λ k. let clash = dropped in cc, All-of_filter_by P q xs h)) h

-- the last event that announces an approval, in a list that ascends
abbrev IsNewest : Event → List Event → Type 0
IsNewest e xs =
    IsIn e xs
    × (announces e.1 ≡ true)
    × All (λ (y : Event). announces y.1 ≡ true → y.0.sequence ≤ e.0.sequence) xs

abbrev IsQuiet : List Event → Type 0
IsQuiet xs = All (λ (y : Event). announces y.1 ≡ false) xs

All-IsIn : (P : Event → Type 0) (e : Event) (xs : List Event) → IsIn e xs → All P xs → P e
All-IsIn P e [] h k = absurd h
All-IsIn P e (x ∷ xs) (inl here) k = subst P here k.0
All-IsIn P e (x ∷ xs) (inr there) k = All-IsIn P e xs there k.1

newest-last :
    (x : Event) (xs : List Event)
    → newest xs ≡ none
    → newest (x ∷ xs) ≡ (if announces x.1 then some x else none)
unfolding newest
newest-last x xs e = rw e refl

newest-later : (x y : Event) (xs : List Event) → newest xs ≡ some y → newest (x ∷ xs) ≡ some y
unfolding newest
newest-later x y xs e = rw e refl

newest_lem :
    (xs : List Event)
    → IsAscending xs
    → ((newest xs ≡ none) × IsQuiet xs) ⊎ ((e : Event) × (newest xs ≡ some e) × IsNewest e xs)
unfolding newest
newest_lem [] h = inl (refl, tt)
newest_lem (x ∷ xs) h = elim (newest_lem xs h.1) [
  | inr (e, found, (inside, says, latest)) ↦ inr (
    e,
    newest-later x e xs found,
    (inr inside, says, ((λ k. All-IsIn _ e xs inside h.0), latest)),
  )
  | inl (none_found, quiet) ↦ elim (Bool-cases (announces x.1)) [
    | inl says ↦ inr (
      x,
      newest-last x xs none_found ∙ rw says refl,
      (inl refl, says, ((λ k. omega arith), All-weaken _ _ xs (λ y q k. absurd (cc)) quiet)),
    )
    | inr silent ↦ inl (newest-last x xs none_found ∙ rw silent refl, (silent, quiet))
  ]
]

-- `details.get(name)`, the test of the loop on it, and what is shown for an event
abbrev pub entry_of : String → EventBody → Json
entry_of name e = or_else (find (key name) e.details) null

abbrev pub is_announcement : EventBody → Bool
is_announcement e = json_eq (entry_of "kind" e) (str "approval") && is_truthy (entry_of "pending" e)

abbrev pub Shows : Json → EventBody → Type 0
Shows plan e =
    ((is_truthy (entry_of "plan" e) ≡ true) × (plan ≡ entry_of "plan" e))
    ⊎ ((is_truthy (entry_of "plan" e) ≡ false) × (plan ≡ obj end))

announced_plan-Shows : (e : EventBody) → Shows (announced_plan e) e
unfolding announced_plan detail
announced_plan-Shows e = elim (Bool-cases (is_truthy (entry_of "plan" e))) [
  | inl given ↦ inl (given, rw given refl)
  | inr absent ↦ inr (absent, rw absent refl)
]

-- The plan that the approval desk shows for a run is the entry `plan` in the details of one of the run's events, the one
-- with the highest sequence number among those of kind "approval" that are marked as pending, in whatever order the
-- table holds the events. If that entry is missing or Python takes it for false, or the run has no such event, the
-- empty plan is shown.
pub pending_plan-IsNewest :
    (tenant run_id : String) (store : RuntimeStore)
    → ((pending_plan tenant run_id store ≡ obj end)
        × All
            (λ (y : Event). in_run tenant run_id y.0 ≡ true → is_announcement y.1 ≡ false)
            store.events)
      ⊎ ((e : Event) × Shows (pending_plan tenant run_id store) e.1
          × IsIn e store.events
          × (in_run tenant run_id e.0 ≡ true)
          × (is_announcement e.1 ≡ true)
          × All
              (λ (y : Event).
                in_run tenant run_id y.0 ≡ true
                → is_announcement y.1 ≡ true
                → y.0.sequence ≤ e.0.sequence)
              store.events)
unfolding pending_plan list_operational_events plan_at announces detail
pending_plan-IsNewest tenant run_id store =
    let own : Event → Bool = λ x. in_run tenant run_id x.0 in
    let rows = filter_by own store.events in
    elim (newest_lem (by_sequence rows) (IsAscending-by_sequence rows)) [
      | inl (none_found, quiet) ↦ inl (
        ap plan_at none_found,
        All-of_filter_by _ own store.events (All-of_by_sequence _ rows quiet),
      )
      | inr (e, found, (inside, says, latest)) ↦
          let kept = IsIn-of_filter_by own e store.events (IsIn-of_by_sequence e rows inside) in
          inr (
            e,
            subst (λ plan. Shows plan e.1) (sym (ap plan_at found)) (announced_plan-Shows e.1),
            kept.1,
            kept.0,
            says,
            All-of_filter_by _ own store.events (All-of_by_sequence _ rows latest),
          )
    ]
