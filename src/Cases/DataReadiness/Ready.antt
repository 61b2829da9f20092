-- ===== src/Cases/DataReadiness/Ready.antt =====
-- case_management/application/data_readiness.py: the entries of a readiness report.
use unknown_file_threat_agen.Cases.DataReadiness.{
  DataProfile, QuestionStatus, answerable, partially_answerable, blocked, ReadinessQuestion,
  question_status, is_visible, question, is_blocked, questions_of, evaluate_data_readiness,
}
use unknown_file_threat_agen.Prelude.{
  ◌+◌, String, ◌≡◌, refl, sym, ◌∙◌, inl, inr, Bool, true, false, not, ◌&&◌, List, [], ◌∷◌, map,
  arith, eq_iff, eqb, if◌then◌else◌, Bool-cases, length, filter_by, any, all, is_nil, All,
  all-append, concat_map, mem, diff, dedup, mem-dedup, length-filter_by-le,
}

module _ {A : Type 0} (p : A → Bool) where
  length-filter_by-eq : (xs : List A) → eqb (length (filter_by p xs)) (length xs) ≡ all p xs
  length-filter_by-eq [] = refl
  length-filter_by-eq (x ∷ xs) = ground (arith, length-filter_by-eq xs, length-filter_by-le p xs)

  is_nil-filter_by : (xs : List A) → is_nil (filter_by p xs) ≡ not (any p xs)
  is_nil-filter_by [] = refl
  is_nil-filter_by (x ∷ xs) = ground (arith, is_nil-filter_by xs)

  not-any-not : (xs : List A) → not (any (λ x. not (p x)) xs) ≡ all p xs
  not-any-not [] = refl
  not-any-not (x ∷ xs) = ground (arith, not-any-not xs)

all-concat_map :
    {A : Type 0} (p : String → Bool) (f : A → List String) (xs : List A)
    → all p (concat_map f xs) ≡ all (λ x. all p (f x)) xs
all-concat_map p f [] = refl
all-concat_map p f (x ∷ xs) =
    ground (arith, all-append p (f x) (concat_map f xs), all-concat_map p f xs)

all-diff :
    (p : String → Bool) (x : String) (ys : List String)
    → p x ≡ true
    → all p (diff ys (x ∷ [])) ≡ all p ys
unfolding diff mem
all-diff p x [] h = refl
all-diff p x (y ∷ ys) h = ground (arith, eq_iff y x, all-diff p x ys h)

all-dedup : (p : String → Bool) (xs : List String) → all p (dedup xs) ≡ all p xs
unfolding dedup
all-dedup p [] = refl
all-dedup p (x ∷ xs) = elim (Bool-cases (p x)) [
  | inl h ↦ rw (h, all-diff p x (dedup xs) h, all-dedup p xs) refl
  | inr h ↦ rw h refl
]

abbrev pub is_answerable : QuestionStatus → Bool
is_answerable answerable = true
is_answerable _ = false

abbrev pub is_partial : QuestionStatus → Bool
is_partial partially_answerable = true
is_partial _ = false

-- how the status of a question follows from the sources that it needs
pub record IsExplained (profile : DataProfile) (q : ReadinessQuestion) : Type 0 where
  pub answered : is_answerable q.status ≡ all (is_visible profile) q.required_sources
  pub unanswered : is_blocked q ≡ (
      not (all (is_visible profile) q.required_sources)
      && not (any (is_visible profile) q.required_sources))
  pub partly : is_partial q.status ≡ (
      not (all (is_visible profile) q.required_sources)
      && any (is_visible profile) q.required_sources)

mem-filter_by :
    (p : String → Bool) (a : String) (xs : List String) → mem a (filter_by p xs) ≡ (mem a xs && p a)
unfolding mem
mem-filter_by p a [] = refl
mem-filter_by p a (x ∷ xs) = ground (arith, eq_iff a x, mem-filter_by p a xs)

length-split :
    {A : Type 0} (p : A → Bool) (xs : List A)
    → length (filter_by (λ x. not (p x)) xs) + length (filter_by p xs) ≡ length xs
length-split p [] = omega arith
length-split p (x ∷ xs) = ground (arith, length-split p xs)

any-filter_by :
    {A : Type 0} (p keep : A → Bool) (xs : List A)
    → any p (filter_by keep xs) ≡ any (λ x. p x && keep x) xs
any-filter_by p keep [] = refl
any-filter_by p keep (x ∷ xs) = ground (arith, any-filter_by p keep xs)

-- a question of which some source, and every source, is not visible
abbrev pub is_hopeless : DataProfile → ReadinessQuestion → Bool
is_hopeless profile q =
    not (all (is_visible profile) q.required_sources)
    && not (any (is_visible profile) q.required_sources)

any-hopeless :
    (profile : DataProfile) (p : ReadinessQuestion → Bool) (qs : List ReadinessQuestion)
    → All (IsExplained profile) qs
    → (any (λ q. p q && is_blocked q) qs ≡ any (λ q. p q && is_hopeless profile q) qs)
      × (any (λ q. p q && not (is_blocked q)) qs ≡ any (λ q. p q && not (is_hopeless profile q)) qs)
any-hopeless profile p [] h = (refl, refl)
any-hopeless profile p (q ∷ qs) h =
    let rest = any-hopeless profile p qs h.1 in
    (rw (h.0.unanswered, rest.0) refl, rw (h.0.unanswered, rest.1) refl)

module _ (profile : DataProfile) where
  question_status-visible :
      (sources : List String)
      → question_status (filter_by (is_visible profile) sources) sources ≡ (
          if all (is_visible profile) sources
          then answerable
          else if not (any (is_visible profile) sources)
          then blocked
          else partially_answerable)
  unfolding question_status
  question_status-visible sources =
      rw
        (
          length-filter_by-eq (is_visible profile) sources,
          is_nil-filter_by (is_visible profile) sources,
        )
        refl

  question-IsExplained : (e : String × List String) → IsExplained profile (question profile e)
  unfolding question is_blocked
  question-IsExplained (id, sources) = record {
    answered = rw (question_status-visible sources) (answered_if _ _);
    unanswered = rw (question_status-visible sources) (blocked_if _ _);
    partly = rw (question_status-visible sources) (partly_if _ _);
  }
    where
      answered_if :
          (a v : Bool)
          → is_answerable
              (if a then answerable else if not v then blocked else partially_answerable)
            ≡ a
      answered_if true v = refl
      answered_if false true = refl
      answered_if false false = refl

      partly_if :
          (a v : Bool)
          → is_partial (if a then answerable else if not v then blocked else partially_answerable)
            ≡ (not a && v)
      partly_if true v = refl
      partly_if false true = refl
      partly_if false false = refl

      blocked_if :
          (a v : Bool)
          → elim (if a then answerable else if not v then blocked else partially_answerable)
              as (λ x. Bool) [ blocked ↦ true | answerable ↦ false | partially_answerable ↦ false ]
            ≡ (not a && not v)
      blocked_if true v = refl
      blocked_if false true = refl
      blocked_if false false = refl

  questions-IsExplained :
      (es : List (String × List String)) → All (IsExplained profile) (map (question profile) es)
  questions-IsExplained [] = tt
  questions-IsExplained (e ∷ es) = (question-IsExplained e, questions-IsExplained es)

  all-answerable :
      (qs : List ReadinessQuestion)
      → All (IsExplained profile) qs
      → all (λ q. all (is_visible profile) q.required_sources) qs
        ≡ all (λ q. is_answerable q.status) qs
  all-answerable [] h = refl
  all-answerable (q ∷ qs) h = rw (sym h.0.answered, all-answerable qs h.1) refl

  -- A readiness report: a question is answerable exactly when all its sources are visible, blocked when
  -- none of them is, and partly answerable otherwise. The blocked questions are those of which
  -- neither all sources nor any are visible, and the list of answerable ones has all the others: a test holds of an entry
  -- of either list exactly when it holds of such a question, and the lists together have as many entries as there are
  -- questions. A source is missing exactly when some question needs it and it is not
  -- visible; and nothing is missing exactly when every question is answerable.
  pub evaluate_data_readiness_lem :
      (let report = evaluate_data_readiness profile in
        let questions = questions_of profile in
        All (IsExplained profile) questions
        × (length report.answerable_questions + length report.blocked_questions ≡ length questions)
        × ((p : ReadinessQuestion → Bool)
            → (any p report.blocked_questions ≡ any (λ q. p q && is_hopeless profile q) questions)
              × (any p report.answerable_questions
                  ≡ any (λ q. p q && not (is_hopeless profile q)) questions))
        × ((s : String)
            → mem s report.missing_sources ≡ (
                mem s (concat_map (λ q. q.required_sources) questions)
                && not (is_visible profile s)))
        × (is_nil report.missing_sources ≡ all (λ q. is_answerable q.status) questions))
  unfolding evaluate_data_readiness questions_of
  evaluate_data_readiness_lem =
      let questions = questions_of profile in
      let explained = questions-IsExplained _ in
      (
        explained,
        length-split is_blocked questions,
        λ p.
            let same = any-hopeless profile p questions explained in
            (
              any-filter_by p is_blocked questions ∙ same.0,
              any-filter_by p (λ q. not (is_blocked q)) questions ∙ same.1,
            ),
        λ s.
            mem-filter_by (λ x. not (is_visible profile x)) s
              (dedup (concat_map (λ q. q.required_sources) questions))
            ∙ rw (mem-dedup s (concat_map (λ q. q.required_sources) questions)) refl,
        is_nil-filter_by (λ x. not (is_visible profile x))
              (dedup (concat_map (λ q. q.required_sources) questions))
            ∙ not-any-not (is_visible profile) _
            ∙ all-dedup (is_visible profile) _
            ∙ all-concat_map (is_visible profile) (λ q. q.required_sources) questions
            ∙ all-answerable questions explained,
      )
