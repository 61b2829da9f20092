-- ===== src/Shared/Llm/Graded.antt =====
-- shared/llm.py: the rounds of `invoke_llm` and its two budgets.
use unknown_file_threat_agen.Shared.Llm.{
  Exception, Grade, parse, transport, fatal, classify_llm_error, Ending, returned, reraised,
  exhausted, Call, Attempts, Round, stop, again, log, on_parse_error, on_transport_error, on_error,
  on_reply, count_attempt, round, rounds, invoke_llm,
}
use unknown_file_threat_agen.Prelude.{
  ℕ, zero, suc, ◌+◌, ◌-◌, ◌≤◌, ◌<◌, ◌≡◌, refl, ◌⊎◌, inl, inr, Option, some, List, [], arith, ltb,
  leb, ltb→lt, leb→le, Bool-cases,
}

module _ {A M : Type 0} (call : Call A M) where
  -- how the last round, which made call number `last.parse_attempts`, explains the ending
  abbrev pub IsExplained : Ending A → Attempts A M → Option (List M) → Type 0
  IsExplained (returned value) last seen = call.invoke last.parse_attempts seen ≡ inr value
  IsExplained (exhausted error) last seen =
      (call.invoke last.parse_attempts seen ≡ inl error)
      × (classify_llm_error error ≡ parse)
      × (call.parse_max_attempts ≤ last.parse_attempts)
  IsExplained (reraised error) last seen =
      (call.invoke last.parse_attempts seen ≡ inl error)
      × ((classify_llm_error error ≡ fatal)
          ⊎ ((classify_llm_error error ≡ transport)
              × (call.transport_max_attempts ≤ last.transport_attempts)))

  -- what a round comes to
  abbrev IsRound : Attempts A M → Round A M → Type 0
  IsRound s (stop ending last) =
      (last.parse_attempts ≡ s.parse_attempts + 1)
      × ((seen : Option (List M)) × IsExplained ending last seen)
  IsRound s (again next) =
      (next.parse_attempts ≡ s.parse_attempts + 1)
      × (((next.transport_attempts ≡ s.transport_attempts)
            × (next.parse_attempts < call.parse_max_attempts))
          ⊎ ((next.transport_attempts ≡ s.transport_attempts + 1)
              × (next.transport_attempts < call.transport_max_attempts)))

  round-IsRound : (s : Attempts A M) → IsRound s (round call s)
  unfolding round on_reply on_error on_parse_error on_transport_error count_attempt log
  round-IsRound s = by_reply (call.invoke (s.parse_attempts + 1) s.messages) refl
    where
      by_grade :
          (error : Exception)
          → call.invoke (s.parse_attempts + 1) s.messages ≡ inl error
          → (grade : Grade) → classify_llm_error error ≡ grade
          → IsRound s (on_error call grade error (count_attempt call s))
      by_grade error e fatal g = (refl, (s.messages, (e, inl g)))
      by_grade error e parse g =
          elim (Bool-cases (leb call.parse_max_attempts (s.parse_attempts + 1))) [
            | inl b ↦ rw b (refl, (s.messages, (e, g, leb→le _ _ b)))
            | inr b ↦ rw b (refl, inl (refl, ground arith))
          ]
      by_grade error e transport g =
          elim (Bool-cases (ltb (s.transport_attempts + 1) call.transport_max_attempts)) [
            | inl b ↦ rw b (refl, inr (refl, ltb→lt _ _ b))
            | inr b ↦ rw b (refl, (s.messages, (e, inr (g, ground arith))))
          ]

      by_reply :
          (reply : Exception ⊎ A)
          → call.invoke (s.parse_attempts + 1) s.messages ≡ reply
          → IsRound s (on_reply call reply (count_attempt call s))
      by_reply (inl error) e = by_grade error e (classify_llm_error error) refl
      by_reply (inr value) e = (refl, (s.messages, e))

  -- the calls that the budgets still admit after the next one
  abbrev left : Attempts A M → ℕ
  left s =
      (call.parse_max_attempts - 1 - s.parse_attempts)
      + (call.transport_max_attempts - 1 - s.transport_attempts)

  -- what the loop gives from a state of its variables
  record IsGraded (s : Attempts A M) (result : Option (Ending A × Attempts A M)) : Type 0 where
    ending : Ending A
    last : Attempts A M
    ended : result ≡ some (ending, last)
    bounded : last.parse_attempts ≤ s.parse_attempts + left s + 1
    explained : (seen : Option (List M)) × IsExplained ending last seen

  rounds-IsGraded : (fuel : ℕ) (s : Attempts A M) → left s < fuel → IsGraded s (rounds call fuel s)
  unfolding rounds
  rounds-IsGraded zero s enough = ground arith
  rounds-IsGraded (suc fuel) s enough =
      by_round (round call s) refl (round-IsRound s)
        (λ next more. rounds-IsGraded fuel next (ground (arith, more)))
    where
      by_round :
          (r : Round A M)
          → round call s ≡ r
          → IsRound s r
          → ((next : Attempts A M) → left next < left s → IsGraded next (rounds call fuel next))
          → IsGraded s (rounds call (suc fuel) s)
      by_round (stop ending last) e h later = record {
        ending = ending;
        last = last;
        ended = rw (e, rounds) refl;
        bounded = ground (arith, h.0);
        explained = h.1;
      }
      by_round (again next) e h later =
          let rest = later next (ground (arith, h)) in
          record {
            ending = rest.ending;
            last = rest.last;
            ended = rw (e, rounds) rest.ended;
            bounded = ground (arith, h, rest.bounded);
            explained = rest.explained;
          }

  -- With both budgets at least 1, a call of `invoke_llm` ends after at most `parse_max_attempts +
  -- transport_max_attempts - 1` calls of the model, and the last one explains the ending: its value is
  -- returned; or its parse error exhausts the parse budget; or it raised a fatal error, or a transport
  -- error that exhausts the transport budget, and that exception is raised again.
  pub invoke_llm_lem :
      (messages : Option (List M))
      → 1 ≤ call.parse_max_attempts
      → 1 ≤ call.transport_max_attempts
      → (ending : Ending A) × (last : Attempts A M) × (invoke_llm call
            (call.parse_max_attempts + call.transport_max_attempts)
            messages
          ≡ some (ending, last))
        × (last.parse_attempts + 1 ≤ call.parse_max_attempts + call.transport_max_attempts)
        × ((seen : Option (List M)) × IsExplained ending last seen)
  unfolding invoke_llm
  invoke_llm_lem messages p t =
      let graded =
        rounds-IsGraded (call.parse_max_attempts + call.transport_max_attempts)
          (record { parse_attempts = 0; transport_attempts = 0; messages = messages; events = [] })
          (ground arith) in
      (graded.ending, graded.last, graded.ended, ground (arith, graded.bounded), graded.explained)
