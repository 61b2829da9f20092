-- ===== src/Evaluation/Reporter/Passed.antt =====
-- agent_eval/reporter.py: pass^k, and the regressions of a suite.
use unknown_file_threat_agen.Prelude.Dict.{Dict, lookup, keys}
use unknown_file_threat_agen.Evaluation.Reporter.{
  Score, RunRecord, is_ok, is_true, scores_of, judge_scores, run_outcome, all_epochs_passed,
  has_passed, regressions, improvements,
}
use unknown_file_threat_agen.Prelude.{
  String, ◌≡◌, refl, ◌∙◌, inl, inr, Bool, true, false, not, ◌&&◌, ◌||◌, Option, none, some, List,
  [], ◌∷◌, map, arith, eq_iff, if◌then◌else◌, Bool-cases, filter_by, any, all, is_nil, is_some,
  or_else, mem, mem-sorted_set,
}

-- no score says that the run failed
abbrev pub not_failed : Score → Bool
not_failed s = not (is_some s.passed) || is_true s.passed

abbrev pub is_judged : Score → Bool
is_judged s = is_some s.passed

is_nil-filter_by : (xs : List Score) → is_nil (filter_by is_judged xs) ≡ not (any is_judged xs)
is_nil-filter_by [] = refl
is_nil-filter_by (x ∷ xs) = ground (arith, is_nil-filter_by xs)

all-filter_by :
    (xs : List Score) → all (λ s. is_true s.passed) (filter_by is_judged xs) ≡ all not_failed xs
unfolding is_true
all-filter_by [] = refl
all-filter_by (x ∷ xs) = by_passed x.passed (all-filter_by xs)
  where
    by_passed :
        (flag : Option Bool)
        → all (λ s. is_true s.passed) (filter_by is_judged xs) ≡ all not_failed xs
        → all
            (λ s. is_true s.passed)
            (filter_by is_judged ((record { scorer = x.scorer; passed = flag }) ∷ xs))
          ≡ all not_failed ((record { scorer = x.scorer; passed = flag }) ∷ xs)
    by_passed none h = h
    by_passed (some true) h = h
    by_passed (some false) h = refl

is_nil-any : (p : Score → Bool) (xs : List Score) → is_nil xs ≡ true → any p xs ≡ false
is_nil-any p [] h = refl
is_nil-any p (x ∷ xs) h = cc

module _ (scores : Dict (List Score)) where
  -- a run whose scorers all abstained, or that has none
  abbrev pub is_unjudged : RunRecord → Bool
  is_unjudged r = is_ok r.status && not (any is_judged (scores_of scores r))

  -- a run that ended, that a scorer judged, and that no scorer failed
  abbrev pub passes : RunRecord → Bool
  passes r =
      is_ok r.status && (any is_judged (scores_of scores r) && all not_failed (scores_of scores r))

  -- `_run_outcome` in those words
  run_outcome-passes :
      (r : RunRecord) → run_outcome scores r ≡ (if is_unjudged r then none else some (passes r))
  unfolding run_outcome judge_scores
  run_outcome-passes r = elim (Bool-cases (is_ok r.status)) [
    | inl fine ↦ elim (Bool-cases (is_nil (scores_of scores r))) [
      | inl e ↦ rw (fine, e, is_nil-any is_judged (scores_of scores r) e) refl
      | inr e ↦
          rw (fine, e, is_nil-filter_by (scores_of scores r), all-filter_by (scores_of scores r))
            (by_judged (any is_judged (scores_of scores r)) (all not_failed (scores_of scores r)))
    ]
    | inr broken ↦ rw broken refl
  ]
    where
      by_judged :
          (judged clean : Bool)
          → (if not judged then none else some clean)
            ≡ (if not judged then none else some (judged && clean))
      by_judged true clean = refl
      by_judged false clean = refl

  any-run_outcome :
      (runs : List RunRecord)
      → any (λ f. not (is_some f)) (map (run_outcome scores) runs) ≡ any is_unjudged runs
  any-run_outcome [] = refl
  any-run_outcome (r ∷ runs) = ground (arith, run_outcome-passes r, any-run_outcome runs)

  all-run_outcome :
      (runs : List RunRecord)
      → any is_unjudged runs ≡ false
      → all is_true (map (run_outcome scores) runs) ≡ all passes runs
  unfolding is_true
  all-run_outcome [] h = refl
  all-run_outcome (r ∷ runs) h = ground (arith, run_outcome-passes r, all-run_outcome runs)

  -- pass^k of a case: it cannot be judged exactly when one of its runs ended without any judged score;
  -- otherwise it passes exactly when every run ended, was judged, and was failed by no scorer.
  pub all_epochs_passed_lem :
      (runs : List RunRecord)
      → all_epochs_passed scores runs
        ≡ (if any is_unjudged runs then none else some (all passes runs))
  unfolding all_epochs_passed
  all_epochs_passed_lem runs = elim (Bool-cases (any is_unjudged runs)) [
    | inl e ↦ rw (any-run_outcome runs, e) refl
    | inr e ↦ rw (any-run_outcome runs, e, all-run_outcome runs e) refl
  ]

mem-keys :
    (id : String) (flags : Dict (Option Bool)) → mem id (keys flags) ≡ is_some (lookup id flags)
unfolding mem keys lookup
mem-keys id [] = refl
mem-keys id ((k, v) ∷ flags) = ground (arith, mem-keys id flags)

mem-filter_by :
    (p : String → Bool) (id : String) (xs : List String)
    → mem id (filter_by p xs) ≡ (mem id xs && p id)
unfolding mem
mem-filter_by p id [] = refl
mem-filter_by p id (x ∷ xs) = ground (arith, eq_iff id x, mem-filter_by p id xs)

has_passed-known :
    (flags : Dict (Option Bool)) (id : String) (b : Bool)
    → (is_some (lookup id flags) && (has_passed flags id && b)) ≡ (has_passed flags id && b)
unfolding has_passed is_true
has_passed-known flags id b = by_flag (lookup id flags)
  where
    by_flag :
        (o : Option (Option Bool))
        → (is_some o && (is_true (or_else o none) && b)) ≡ (is_true (or_else o none) && b)
    by_flag none = refl
    by_flag (some f) = refl

-- A case is reported as a regression exactly when it passed before and does not pass now, because it
-- failed, cannot be judged or is missing; as an improvement exactly when it was in the report before
-- without passing and passes now; never as both.
pub regressions_iff :
    (before after : Dict (Option Bool)) (id : String)
    → (mem id (regressions before after) ≡ (has_passed before id && not (has_passed after id)))
      × (mem id (improvements before after)
          ≡ (is_some (lookup id before) && (not (has_passed before id) && has_passed after id)))
      × ((mem id (regressions before after) && mem id (improvements before after)) ≡ false)
unfolding regressions improvements
regressions_iff before after id = (
  worse,
  better,
  rw (worse, better)
      (apart (is_some (lookup id before)) (has_passed before id) (has_passed after id)),
)
  where
    worse : mem id (regressions before after) ≡ (has_passed before id && not (has_passed after id))
    worse =
        mem-sorted_set id _
        ∙ mem-filter_by _ id (keys before)
        ∙ rw (mem-keys id before) (has_passed-known before id _)

    better :
        mem id (improvements before after)
        ≡ (is_some (lookup id before) && (not (has_passed before id) && has_passed after id))
    better = mem-sorted_set id _ ∙ mem-filter_by _ id (keys before) ∙ rw (mem-keys id before) refl

    apart : (k a b : Bool) → ((a && not b) && (k && (not a && b))) ≡ false
    apart k a b = ground arith
