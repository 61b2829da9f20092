-- ===== src/Middleware/Compaction/Recoverable.antt =====
-- agent_middleware/compaction.py: the artifact of a downsized result.
use unknown_file_threat_agen.Shared.Json.{
  Fields, set_field, Json, null, bool, num, str, arr, obj, key, json_eq, find,
}
use unknown_file_threat_agen.Shared.DraftEditor.Walk.{find-set_field}
use unknown_file_threat_agen.Middleware.Messages.{Content, text, blocks, Message}
use unknown_file_threat_agen.Middleware.Compaction.{
  Reducer, artifact_fields, reduced_message, accept_reduction, reduce_payload, reduce_content,
  reduce_message, is_result_of, reduce_one, any_changed, CallResult, single, command,
  reduced_result,
}
use unknown_file_threat_agen.Prelude.{
  ap, ◌⊎◌, String, ◌≡◌, refl, ◌∙◌, inl, inr, false, Option, none, some, List, [], ◌∷◌, map, ◌==◌,
  Bool-cases, All, Pairwise,
}

-- the content that an artifact keeps, or else that of the message
abbrev stored : Option Json → Content → Content
stored (some (str original)) content = text original
stored _ content = content

abbrev pub recover : Message → Content
recover m = stored (find (key "unreduced_content") (artifact_fields m.artifact)) m.content

-- a message and what became of it
pub record IsRecoverable (before after : Message) : Type 0 where
  pub recovered : recover after ≡ recover before
  pub call : after.tool_call_id ≡ before.tool_call_id
  pub named : after.name ≡ before.name
  pub outcome : after.status ≡ before.status
  pub identified : (after.id ≡ before.id) ⊎ (after.id ≡ none)
  pub rest :
      (fs : Fields)
      → before.artifact ≡ obj fs
      → (gs : Fields) × (after.artifact ≡ obj gs)
        × ((k : String) → (k == "unreduced_content") ≡ false → find (key k) gs ≡ find (key k) fs)

-- a message that was not downsized before
abbrev pub IsFresh : Message → Type 0
IsFresh m = find (key "unreduced_content") (artifact_fields m.artifact) ≡ none

same-IsRecoverable : (m : Message) → IsRecoverable m m
same-IsRecoverable m = record {
  recovered = refl;
  call = refl;
  named = refl;
  outcome = refl;
  identified = inl refl;
  rest = λ fs e. (fs, e, λ k h. refl);
}

module _ (reducer : Reducer) (message : Message) (fresh : IsFresh message) where
  reduced_message-IsRecoverable :
      (original : String) (reduced : Json)
      → message.content ≡ text original
      → IsRecoverable message (reduced_message reducer message original reduced)
  unfolding reduced_message artifact_fields
  reduced_message-IsRecoverable original reduced e = record {
    recovered =
        rw
          (
            find-set_field "unreduced_content" "unreduced_content" (str original)
                (artifact_fields message.artifact),
            fresh,
            e,
          )
          refl;
    call = refl;
    named = refl;
    outcome = refl;
    identified = inr refl;
    rest = λ fs e. (
      set_field (key "unreduced_content") (str original) fs,
      ap (λ a. obj (set_field (key "unreduced_content") (str original) (artifact_fields a))) e,
      λ k h. find-set_field k "unreduced_content" (str original) fs ∙ rw h refl,
    );
  }

  accept_reduction-IsRecoverable :
      (original : String) (payload : Json) (answer : Option Json)
      → message.content ≡ text original
      → IsRecoverable message (accept_reduction reducer message original payload answer)
  unfolding accept_reduction
  accept_reduction-IsRecoverable original payload none e = same-IsRecoverable message
  accept_reduction-IsRecoverable original payload (some (obj fs)) e =
      elim (Bool-cases (json_eq (obj fs) payload)) [
        | inl same ↦ rw same (same-IsRecoverable message)
        | inr other ↦ rw other (reduced_message-IsRecoverable original (obj fs) e)
      ]
  accept_reduction-IsRecoverable original payload (some null) e = same-IsRecoverable message
  accept_reduction-IsRecoverable original payload (some (bool b)) e = same-IsRecoverable message
  accept_reduction-IsRecoverable original payload (some (num n)) e = same-IsRecoverable message
  accept_reduction-IsRecoverable original payload (some (str s)) e = same-IsRecoverable message
  accept_reduction-IsRecoverable original payload (some (arr xs)) e = same-IsRecoverable message

  reduce_payload-IsRecoverable :
      (tool_name original : String) (payload : Option Json)
      → message.content ≡ text original
      → IsRecoverable message (reduce_payload reducer message tool_name original payload)
  unfolding reduce_payload
  reduce_payload-IsRecoverable tool_name original none e = same-IsRecoverable message
  reduce_payload-IsRecoverable tool_name original (some (obj fs)) e =
      accept_reduction-IsRecoverable original (obj fs) _ e
  reduce_payload-IsRecoverable tool_name original (some null) e = same-IsRecoverable message
  reduce_payload-IsRecoverable tool_name original (some (bool b)) e = same-IsRecoverable message
  reduce_payload-IsRecoverable tool_name original (some (num n)) e = same-IsRecoverable message
  reduce_payload-IsRecoverable tool_name original (some (str s)) e = same-IsRecoverable message
  reduce_payload-IsRecoverable tool_name original (some (arr xs)) e = same-IsRecoverable message

  reduce_one-IsRecoverable :
      (tool_name call_id : String)
      → IsRecoverable message (reduce_one reducer tool_name call_id message)
  unfolding reduce_one reduce_message reduce_content
  reduce_one-IsRecoverable tool_name call_id = elim (Bool-cases (is_result_of call_id message)) [
    | inl own ↦ rw own (by_content message.content refl)
    | inr other ↦ rw other (same-IsRecoverable message)
  ]
    where
      by_content :
          (content : Content)
          → message.content ≡ content
          → IsRecoverable message (reduce_content reducer message tool_name content)
      by_content (text original) e =
          reduce_payload-IsRecoverable tool_name original (reducer.loads original) e
      by_content (blocks xs) e = same-IsRecoverable message

-- the messages of a result, one by one
abbrev pub messages_of : CallResult → List Message
messages_of (single m) = m ∷ []
messages_of (command ms) = ms

module _ (reducer : Reducer) (tool_name call_id : String) where
  map-IsRecoverable :
      (messages : List Message)
      → All IsFresh messages
      → Pairwise IsRecoverable messages (map (reduce_one reducer tool_name call_id) messages)
  map-IsRecoverable [] h = tt
  map-IsRecoverable (m ∷ ms) h =
      (reduce_one-IsRecoverable reducer m h.0 tool_name call_id, map-IsRecoverable ms h.1)

  same-Pairwise : (messages : List Message) → Pairwise IsRecoverable messages messages
  same-Pairwise [] = tt
  same-Pairwise (m ∷ ms) = (same-IsRecoverable m, same-Pairwise ms)

  -- Downsizing the result of a tool loses no content, whatever the reducer does: message by message, the
  -- original content is the content or is kept in the artifact, and the call, the name and the status are kept; the
  -- identifier is kept or dropped; an artifact that is a dict keeps its other entries; provided that no message was
  -- downsized before. Of an artifact that is no dict, nothing is stated.
  pub reduced_result-IsRecoverable :
      (result : CallResult)
      → All IsFresh (messages_of result)
      → Pairwise IsRecoverable
          (messages_of result)
          (messages_of (reduced_result reducer tool_name call_id result))
  unfolding reduced_result
  reduced_result-IsRecoverable (single m) h = map-IsRecoverable (m ∷ []) h
  reduced_result-IsRecoverable (command ms) h =
      elim (Bool-cases (any_changed ms (map (reduce_one reducer tool_name call_id) ms))) [
        | inl changed ↦ rw changed (map-IsRecoverable ms h)
        | inr same ↦ rw same (same-Pairwise ms)
      ]
