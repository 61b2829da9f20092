-- ===== src/Middleware/Boundary/FailClosed.antt =====
-- agent_middleware/boundary.py: the results of tools that the model sees.
use unknown_file_threat_agen.Shared.Json.{Json}
use unknown_file_threat_agen.Middleware.Messages.{Message}
use unknown_file_threat_agen.Middleware.Compaction.{CallResult}
use unknown_file_threat_agen.Middleware.Boundary.{
  BoundaryRejection, as_tool_message, Raised, rejection, exception, ToolBoundary, Answer, message,
  update, failed, CallContext, is_call_result, prepend, after_validation, validate_all, replace,
  conclude_result, messages_in, validated_result, run_handler, after_authorization, wrap_tool_call,
}
use unknown_file_threat_agen.Prelude.{
  String, ◌≡◌, refl, ◌↔◌, ◌⊎◌, inl, inr, Bool, true, false, Option, none, some, List, [], ◌∷◌, map,
  if◌then◌else◌, Bool-cases, Pairwise,
}

module _ {L : Type 0} (dumps : Json → String) (policy : ToolBoundary L)
    (context : CallContext) where
  -- a message of the tool's answer and what the model sees: another call's message as it was, what the
  -- policy made of it, or a rejection
  abbrev pub IsPassed : Message → Message → Type 0
  IsPassed before after =
      ((is_call_result context.call_id before ≡ false) × (after ≡ before))
      ⊎ (((l : L) × (l' : L) × (policy.validate context.tool_name before l ≡ (l', inr after)))
          ⊎ ((r : BoundaryRejection) × (after ≡ as_tool_message dumps context.call_id r)))

  abbrev IsValidated : List Message → Raised ⊎ List Message → Type 0
  IsValidated messages (inl raised) = Unit
  IsValidated messages (inr validated) = Pairwise IsPassed messages validated

  prepend-IsValidated :
      (m after : Message) (rest : List Message) (v : L × (Raised ⊎ List Message))
      → IsPassed m after
      → IsValidated rest v.1
      → IsValidated (m ∷ rest) (prepend after v).1
  unfolding prepend
  prepend-IsValidated m after rest (ledger, inl raised) p h = tt
  prepend-IsValidated m after rest (ledger, inr validated) p h = (p, h)

  validate_all-IsValidated :
      (messages : List Message) (ledger : L)
      → IsValidated messages (validate_all dumps policy context messages ledger).1
  unfolding validate_all after_validation
  validate_all-IsValidated [] ledger = tt
  validate_all-IsValidated (m ∷ rest) ledger =
      elim (Bool-cases (is_call_result context.call_id m)) [
        | inl own ↦ rw own (
            by_reply (policy.validate context.tool_name m ledger) refl
              (validate_all-IsValidated rest))
        | inr other ↦ rw other (
            prepend-IsValidated m m rest _ (inl (other, refl))
              (validate_all-IsValidated rest ledger))
      ]
    where
      by_reply :
          (reply : L × (Raised ⊎ Message))
          → policy.validate context.tool_name m ledger ≡ reply
          → ((next : L) → IsValidated rest (validate_all dumps policy context rest next).1)
          → IsValidated
              (m ∷ rest)
              (after_validation (validate_all dumps policy context rest) reply).1
      by_reply (next, inl raised) e later = tt
      by_reply (next, inr valid) e later =
          prepend-IsValidated m valid rest _ (inr (inl (ledger, next, e))) (later next)

  replace-IsPassed :
      (r : BoundaryRejection) (messages : List Message)
      → Pairwise IsPassed messages (map (replace dumps policy context r) messages)
  unfolding replace
  replace-IsPassed r [] = tt
  replace-IsPassed r (m ∷ rest) =
      (by_test (is_call_result context.call_id m) refl, replace-IsPassed r rest)
    where
      by_test :
          (own : Bool)
          → is_call_result context.call_id m ≡ own
          → IsPassed m (if own then as_tool_message dumps context.call_id r else m)
      by_test true e = inr (inr (r, refl))
      by_test false e = inl (e, refl)

  -- what the model sees of a tool's answer
  abbrev pub IsSeen : String ⊎ CallResult → Answer L → Type 0
  IsSeen handler (message m) =
      (r : BoundaryRejection) × (m ≡ as_tool_message dumps context.call_id r)
  IsSeen (inl e) (update messages ledger) = ⊥
  IsSeen (inr result) (update messages ledger) =
      Pairwise IsPassed (messages_in dumps policy context result) messages
  IsSeen handler (failed e) = Unit

  conclude_result-IsSeen :
      (result : CallResult) (v : L × (Raised ⊎ List Message))
      → IsValidated (messages_in dumps policy context result) v.1
      → IsSeen
          (inr result)
          (conclude_result dumps policy context (messages_in dumps policy context result) v).answer
  unfolding conclude_result
  conclude_result-IsSeen result (ledger, inr validated) h = h
  conclude_result-IsSeen result (ledger, inl (rejection r)) h = replace-IsPassed r _
  conclude_result-IsSeen result (ledger, inl (exception e)) h = tt

  run_handler-IsSeen :
      (handler : String ⊎ CallResult) (ledger : L)
      → IsSeen handler (run_handler dumps policy context handler ledger).answer
  unfolding run_handler validated_result
  run_handler-IsSeen (inl e) ledger = tt
  run_handler-IsSeen (inr result) ledger =
      conclude_result-IsSeen result _ (validate_all-IsValidated _ ledger)

  run_handler-executed :
      (handler : String ⊎ CallResult) (ledger : L)
      → (run_handler dumps policy context handler ledger).executed ≡ true
  unfolding run_handler validated_result conclude_result
  run_handler-executed (inl e) ledger = refl
  run_handler-executed (inr result) ledger =
      by_validation (validate_all dumps policy context _ ledger)
    where
      by_validation :
          (v : L × (Raised ⊎ List Message))
          → (conclude_result dumps policy context
              (messages_in dumps policy context result)
              v).executed
            ≡ true
      by_validation (l, inr validated) = refl
      by_validation (l, inl (rejection r)) = refl
      by_validation (l, inl (exception e)) = refl

  -- The interceptor fails closed: the tool runs exactly when the policy lets the call pass; and whatever
  -- the tool answers, the model sees, message by message, another call's message as it was, what the
  -- policy made of an own result, or a rejection; or the call ends with an exception.
  pub wrap_tool_call_lem :
      (handler : String ⊎ CallResult) (ledger : L)
      → (let intercepted = wrap_tool_call dumps policy context handler ledger in
          ((intercepted.executed ≡ true)
            ↔ ((policy.authorize context.tool_name context.arguments ledger).1 ≡ none))
          × IsSeen handler intercepted.answer)
  unfolding wrap_tool_call after_authorization
  wrap_tool_call_lem handler ledger =
      by_answer (policy.authorize context.tool_name context.arguments ledger)
    where
      by_answer :
          (a : L × Option Raised)
          → (let intercepted = after_authorization dumps policy context handler a in
              ((intercepted.executed ≡ true) ↔ (a.1 ≡ none)) × IsSeen handler intercepted.answer)
      by_answer (l, none) =
          ((λ h. refl, λ h. run_handler-executed handler l), run_handler-IsSeen handler l)
      by_answer (l, some (rejection r)) = ((λ h. cc, λ h. cc), (r, refl))
      by_answer (l, some (exception e)) = ((λ h. cc, λ h. cc), tt)
