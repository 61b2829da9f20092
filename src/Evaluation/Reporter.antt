-- ===== src/Evaluation/Reporter.antt =====
-- agent_eval/reporter.py: the aggregation of the runs of a suite by case, with pass^k over the epochs, and
-- the comparison of two reports. Durations, means of dimensions and rates are left out: they are floats;
-- of the pass rate there are the two counts.
pub mod Passed
use unknown_file_threat_agen.Prelude.Dict.{Dict, lookup, insert, keys}
use unknown_file_threat_agen.Prelude.{
  ℕ, String, Bool, true, false, not, ◌&&◌, Option, none, some, List, [], ◌∷◌, map, ◌==◌,
  if◌then◌else◌, length, filter_by, any, all, is_nil, is_some, or_else, sorted_set,
}

pub data RunStatus : Type 0 where
  ok error timeout : RunStatus

pub record Score : Type 0 where
  pub scorer : String
  pub passed : Option Bool

pub record RunRecord : Type 0 where
  pub run_id : String
  pub case_ref : String
  pub status : RunStatus

unfoldable pub is_ok : RunStatus → Bool
is_ok ok = true
is_ok _ = false

-- `flag is True`
unfoldable pub is_true : Option Bool → Bool
is_true (some true) = true
is_true _ = false

module _ (scores : Dict (List Score)) where
  unfoldable pub scores_of : RunRecord → List Score
  scores_of r = or_else (lookup r.run_id scores) []

  -- the outcome of the judged scores
  unfoldable pub judge_scores : List Score → Option Bool
  judge_scores judged = if is_nil judged then none else some (all (λ s. is_true s.passed) judged)

  -- `_run_outcome`
  unfoldable pub run_outcome : RunRecord → Option Bool
  run_outcome r =
      if not (is_ok r.status)
      then some false
      else if is_nil (scores_of r)
      then none
      else judge_scores (filter_by (λ s. is_some s.passed) (scores_of r))

  -- `all_epochs_passed` of a case
  unfoldable pub all_epochs_passed : List RunRecord → Option Bool
  all_epochs_passed case_runs =
      let passed_flags = map run_outcome case_runs in
      if any (λ f. not (is_some f)) passed_flags then none else some (all is_true passed_flags)

  pub record CaseReport : Type 0 where
    pub case_id : String
    pub k : ℕ
    pub epochs_passed : Option Bool
    pub any_ok : Bool

  unfoldable pub case_report : List RunRecord → String → CaseReport
  case_report records case_id =
      let case_runs = filter_by (λ r. r.case_ref == case_id) records in
      record {
        case_id = case_id;
        k = length case_runs;
        epochs_passed = all_epochs_passed case_runs;
        any_ok = any (λ r. is_ok r.status) case_runs;
      }

  -- the cases of `summarize`, in the order of their identifiers
  unfoldable pub summarize_cases : List RunRecord → List CaseReport
  summarize_cases records = map (case_report records) (sorted_set (map (λ r. r.case_ref) records))

  -- `rate_denominator`, the passed cases in it, and the cases that cannot be judged
  unfoldable pub rate_denominator : List CaseReport → List CaseReport
  rate_denominator cases = filter_by (λ c. is_some c.epochs_passed && c.any_ok) cases

  unfoldable pub passed_cases : List CaseReport → ℕ
  passed_cases cases = length (filter_by (λ c. is_true c.epochs_passed) (rate_denominator cases))

  unfoldable pub unevaluated_cases : List CaseReport → ℕ
  unevaluated_cases cases = length (filter_by (λ c. not (is_some c.epochs_passed)) cases)

  -- `_pass_map`
  unfoldable pub add_cases : List CaseReport → Dict (Option Bool) → Dict (Option Bool)
  add_cases [] flags = flags
  add_cases (c ∷ rest) flags = add_cases rest (insert c.case_id c.epochs_passed flags)

  unfoldable pub pass_map : List CaseReport → Dict (Option Bool)
  pass_map cases = add_cases cases []

-- whether a case is in a map and has passed
unfoldable pub has_passed : Dict (Option Bool) → String → Bool
has_passed flags id = is_true (or_else (lookup id flags) none)

-- the two lists of `diff_baselines`
unfoldable pub regressions : Dict (Option Bool) → Dict (Option Bool) → List String
regressions before after =
    sorted_set (filter_by (λ id. has_passed before id && not (has_passed after id)) (keys before))

unfoldable pub improvements : Dict (Option Bool) → Dict (Option Bool) → List String
improvements before after =
    sorted_set (filter_by (λ id. not (has_passed before id) && has_passed after id) (keys before))
