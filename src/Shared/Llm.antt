-- ===== src/Shared/Llm.antt =====
-- shared/llm.py: `invoke_llm`, one call of a language model with graded retry. What the call gives is a
-- parameter that may depend on the number of the call and on the messages. The pause before a transport
-- retry is an event; the callbacks are events, and are taken not to raise.
pub mod Graded
use unknown_file_threat_agen.Prelude.{
  ℕ, zero, suc, ◌+◌, String, ◌⊎◌, inl, inr, Bool, Option, none, some, List, [], ◌∷◌, ◌++◌, ltb, leb,
  if◌then◌else◌, any, mem,
}

-- a raised exception: the names of its class and of the bases, and its text
pub record Exception : Type 0 where
  pub classes : List String
  pub text : String

-- `ParseError` and `TransientTransportError`
unfoldable pub parse_error : List String
parse_error = "OutputParserException" ∷ "ValidationError" ∷ []

unfoldable pub transient_transport_error : List String
transient_transport_error =
    "APIConnectionError" ∷ "APITimeoutError" ∷ "InternalServerError" ∷ "RateLimitError" ∷ []

-- `isinstance(error, classes)`
unfoldable pub is_instance : Exception → List String → Bool
is_instance error classes = any (λ c. mem c error.classes) classes

pub data Grade : Type 0 where
  parse transport fatal : Grade

-- `classify_llm_error`; the handlers of `invoke_llm` test in the same order
unfoldable pub classify_llm_error : Exception → Grade
classify_llm_error error =
    if is_instance error parse_error
    then parse
    else if is_instance error transient_transport_error
    then transport
    else fatal

-- what the callbacks see, and the pauses in units of `transport_backoff`
pub data Event (A : Type 0) : Type 0 where
  attempt : ℕ → Event A
  output : ℕ → A → Event A
  failure : ℕ → Exception → Grade → Event A
  pause : ℕ → Event A

-- how a call of `invoke_llm` ends: a value, the exception that is raised again, or the `RuntimeError`
-- from the last parse error
pub data Ending (A : Type 0) : Type 0 where
  returned : A → Ending A
  reraised : Exception → Ending A
  exhausted : Exception → Ending A

-- the arguments; `build_feedback` may be absent, which gives no feedback
pub record Call (A M : Type 0) : Type 0 where
  pub invoke : ℕ → Option (List M) → Exception ⊎ A
  pub build_feedback : ℕ → Exception → Option M
  pub parse_max_attempts : ℕ
  pub transport_max_attempts : ℕ

-- the local variables of the loop, and the events so far
pub record Attempts (A M : Type 0) : Type 0 where
  pub parse_attempts : ℕ
  pub transport_attempts : ℕ
  pub messages : Option (List M)
  pub events : List (Event A)

pub data Round (A M : Type 0) : Type 0 where
  stop : Ending A → Attempts A M → Round A M
  again : Attempts A M → Round A M

-- `if messages is not None and feedback is not None: messages.append(feedback)`
unfoldable pub append_feedback : {M : Type 0} → Option (List M) → Option M → Option (List M)
append_feedback (some messages) (some feedback) = some (messages ++ (feedback ∷ []))
append_feedback messages _ = messages

module _ {A M : Type 0} (call : Call A M) where
  unfoldable pub log : Event A → Attempts A M → Attempts A M
  log e s = record s { events = s.events ++ (e ∷ []) }

  -- the handler of a parse error
  unfoldable pub on_parse_error : Exception → Attempts A M → Round A M
  on_parse_error error s =
      let seen = log (failure s.parse_attempts error parse) s in
      if leb call.parse_max_attempts s.parse_attempts
      then stop (exhausted error) seen
      else again (record seen {
        messages = append_feedback seen.messages (call.build_feedback s.parse_attempts error);
      })

  -- the handler of a transport error
  unfoldable pub on_transport_error : Exception → Attempts A M → Round A M
  on_transport_error error s =
      let count = s.transport_attempts + 1 in
      let seen =
        log (failure s.parse_attempts error transport) (record s { transport_attempts = count }) in
      if ltb count call.transport_max_attempts
      then again (log (pause count) seen)
      else stop (reraised error) seen

  unfoldable pub on_error : Grade → Exception → Attempts A M → Round A M
  on_error parse error s = on_parse_error error s
  on_error transport error s = on_transport_error error s
  on_error fatal error s = stop (reraised error) (log (failure s.parse_attempts error fatal) s)

  unfoldable pub on_reply : Exception ⊎ A → Attempts A M → Round A M
  on_reply (inl error) s = on_error (classify_llm_error error) error s
  on_reply (inr value) s = stop (returned value) (log (output s.parse_attempts value) s)

  -- `parse_attempts += 1; on_attempt(parse_attempts)`
  unfoldable pub count_attempt : Attempts A M → Attempts A M
  count_attempt s =
      log (attempt (s.parse_attempts + 1)) (record s { parse_attempts = s.parse_attempts + 1 })

  -- the body of the loop
  unfoldable pub round : Attempts A M → Round A M
  round s =
      let counted = count_attempt s in
      on_reply (call.invoke counted.parse_attempts counted.messages) counted

  -- the loop, for a number of rounds
  unfoldable pub rounds : ℕ → Attempts A M → Option (Ending A × Attempts A M)
  rounds zero s = none
  rounds (suc fuel) s = elim (round s) [
    | stop ending last ↦ some (ending, last)
    | again next ↦ rounds fuel next
  ]

  -- `invoke_llm`
  unfoldable pub invoke_llm : ℕ → Option (List M) → Option (Ending A × Attempts A M)
  invoke_llm fuel messages =
      rounds fuel
        (record { parse_attempts = 0; transport_attempts = 0; messages = messages; events = [] })
