-- ===== src/Middleware/Hygiene.antt =====
-- agent_middleware/hygiene.py: streaming artifacts are removed from the history before the model sees it.
-- `json.loads` and whether a text is blank are parameters, and so is the text of the n-th new identifier.
-- The asynchronous hook calls the synchronous one.
pub mod Clean
use unknown_file_threat_agen.Shared.Json.{
  is_truthy, Json, null, str, obj, Fields, end, field, Step, key, same_key, find, set_field,
}
use unknown_file_threat_agen.Middleware.Messages.{
  MessageKind, ai_message, Content, text, blocks, Message,
}
use unknown_file_threat_agen.Prelude.{
  ℕ, suc, String, Bool, true, false, ◌&&◌, ◌||◌, Option, none, some, List, [], ◌∷◌, map,
  if◌then◌else◌, any, is_some, or_else,
}

pub record Texts : Type 0 where
  pub loads : String → Option Json
  pub is_blank : String → Bool

-- `d.pop(k)`; the keys of a dict are distinct
unfoldable pub drop_field : Step → Fields → Fields
drop_field k end = end
drop_field k (field j v fs) =
    let rest = drop_field k fs in if same_key k j then rest else field j v rest

-- the payload of an artifact: a text that parses to a dict which is not empty
unfoldable pub payload_of : Option Json → Option Fields
payload_of (some (obj (field k v fs))) = some (field k v fs)
payload_of _ = none

unfoldable pub artifact_payload : Texts → Json → Option Fields
artifact_payload texts (str s) = if texts.is_blank s then none else payload_of (texts.loads s)
artifact_payload texts _ = none

-- `if not cleaned.get("input"): cleaned["input"] = parsed`
unfoldable pub fold_payload : Option Fields → Fields → Fields
fold_payload none fs = fs
fold_payload (some payload) fs =
    if is_truthy (or_else (find (key "input") fs) null)
    then fs
    else set_field (key "input") (obj payload) fs

-- the loop over `_STREAMING_ARTIFACT_KEYS`
unfoldable pub fold_artifact : Texts → Option Json → Fields → Fields
fold_artifact texts none fs = fs
fold_artifact texts (some artifact) fs =
    fold_payload (artifact_payload texts artifact) (drop_field (key "partial_json") fs)

unfoldable pub is_null_value : Option Json → Bool
is_null_value (some null) = true
is_null_value _ = false

-- `key in cleaned and cleaned[key] is None`
unfoldable pub null_field : String → Fields → Bool
null_field k fs = is_null_value (find (key k) fs)

unfoldable pub fill_field : String → Fields → Fields
fill_field k fs = if null_field k fs then set_field (key k) (obj end) fs else fs

-- `_clean_block`
unfoldable pub clean_block : Texts → Json → Json
clean_block texts (obj fs) =
    obj (
      fill_field "args"
        (fill_field "input" (fold_artifact texts (find (key "partial_json") fs) fs)))
clean_block texts block = block

-- the test of a block in `_message_needs_cleaning`
unfoldable pub block_needs_cleaning : Json → Bool
block_needs_cleaning (obj fs) =
    is_some (find (key "partial_json") fs) || (null_field "input" fs || null_field "args" fs)
block_needs_cleaning _ = false

-- `_message_needs_cleaning`
unfoldable pub content_needs_cleaning : Content → Bool
content_needs_cleaning (text s) = false
content_needs_cleaning (blocks xs) = any block_needs_cleaning xs

unfoldable pub is_ai : MessageKind → Bool
is_ai ai_message = true
is_ai _ = false

-- `isinstance(message, AIMessage) and _message_needs_cleaning(message)`
unfoldable pub needs_cleaning : Message → Bool
needs_cleaning message = is_ai message.kind && content_needs_cleaning message.content

unfoldable pub clean_content : Texts → Content → Content
clean_content texts (text s) = text s
clean_content texts (blocks xs) = blocks (map (clean_block texts) xs)

module _ (texts : Texts) (new_id : ℕ → String) where
  unfoldable pub clean_message : Message → Message
  clean_message message =
      if needs_cleaning message
      then record message { content = clean_content texts message.content }
      else message

  -- a missing identifier is made up
  unfoldable pub identify : ℕ → Message → Message
  identify n message = record message { id = some (or_else message.id (new_id n)) }

  -- the loop of `before_model`
  unfoldable pub rebuild : ℕ → List Message → List Message
  rebuild n [] = []
  rebuild n (message ∷ rest) = identify n (clean_message message) ∷ rebuild (suc n) rest

  -- `before_model`: the new history, if it changes
  unfoldable pub before_model : List Message → Option (List Message)
  before_model messages = if any needs_cleaning messages then some (rebuild 0 messages) else none
