-- ===== src/Evaluation/Examples.antt =====
-- The reports of a small suite.
use unknown_file_threat_agen.Prelude.Dict.{Dict}
use unknown_file_threat_agen.Evaluation.Reporter.{ok, timeout, Score, RunRecord, all_epochs_passed}
use unknown_file_threat_agen.Evaluation.Reporter.Passed.{is_unjudged, passes, all_epochs_passed_lem}
use unknown_file_threat_agen.Prelude.{
  ◌≡◌, Bool, true, false, Option, none, some, List, [], ◌∷◌, if◌then◌else◌, any, all,
}

abbrev scores : Dict (List Score)
scores = ("c#1", (record { scorer = "s"; passed = some true }) ∷ []) ∷ []

abbrev runs : List RunRecord
runs =
    (record { run_id = "c#1"; case_ref = "c"; status = ok })
    ∷ (record { run_id = "c#2"; case_ref = "c"; status = timeout })
    ∷ []

all_epochs_passed_lem_example :
    all_epochs_passed scores runs
    ≡ (if any (is_unjudged scores) runs then none else some (all (passes scores) runs))
all_epochs_passed_lem_example = all_epochs_passed_lem scores runs

abbrev before : Dict (Option Bool)
before = ("a", some true) ∷ ("b", none) ∷ []

abbrev after : Dict (Option Bool)
after = ("a", some false) ∷ ("b", some true) ∷ []
