-- ===== src/Cases/ReadinessExamples.antt =====
-- The readiness report of a concrete profile.
use unknown_file_threat_agen.Cases.DataReadiness.{
  DataProfile, ReadinessQuestion, evaluate_data_readiness, questions_of, is_visible,
}
use unknown_file_threat_agen.Cases.DataReadiness.Ready.{
  IsExplained, is_answerable, is_hopeless, evaluate_data_readiness_lem,
}
use unknown_file_threat_agen.Prelude.{
  ◌+◌, String, ◌≡◌, true, not, ◌&&◌, [], ◌∷◌, length, all, any, Bool, is_nil, All, concat_map, mem,
}

abbrev profile : DataProfile
profile = record {
  visible_sources = "edr-process" ∷ "edr-network" ∷ [];
  coverage_rules =
      (record { source_id = "edr-process"; domains = "process" ∷ []; complete = true }) ∷ [];
}

evaluate_data_readiness_lem_example :
    (let report = evaluate_data_readiness profile in
      let questions = questions_of profile in
      All (IsExplained profile) questions
      × (length report.answerable_questions + length report.blocked_questions ≡ length questions)
      × ((p : ReadinessQuestion → Bool)
          → (any p report.blocked_questions ≡ any (λ q. p q && is_hopeless profile q) questions)
            × (any p report.answerable_questions
                ≡ any (λ q. p q && not (is_hopeless profile q)) questions))
      × ((s : String)
          → mem s report.missing_sources ≡ (
              mem s (concat_map (λ q. q.required_sources) questions) && not (is_visible profile s)))
      × (is_nil report.missing_sources ≡ all (λ q. is_answerable q.status) questions))
evaluate_data_readiness_lem_example = evaluate_data_readiness_lem profile
