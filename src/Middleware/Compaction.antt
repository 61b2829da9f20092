-- ===== src/Middleware/Compaction.antt =====
-- agent_middleware/compaction.py: the results of tools are downsized when they enter the conversation.
-- `json.loads`, `json.dumps` and the reducer are parameters; a reducer may raise. The asynchronous
-- interceptor repeats the synchronous one.
pub mod Recoverable
use unknown_file_threat_agen.Shared.Json.{Json, str, obj, Fields, end, key, json_eq, set_field}
use unknown_file_threat_agen.Middleware.Messages.{
  MessageKind, tool_message, Content, text, blocks, Message,
}
use unknown_file_threat_agen.Prelude.{
  String, Bool, true, false, not, ◌&&◌, ◌||◌, Option, none, some, List, ◌∷◌, map, ◌==◌,
  if◌then◌else◌,
}

pub record Reducer : Type 0 where
  pub loads : String → Option Json
  pub dumps : Json → String
  pub reduce : String → Json → Option Json

-- `message.artifact if isinstance(message.artifact, dict) else {}`
unfoldable pub artifact_fields : Json → Fields
artifact_fields (obj fs) = fs
artifact_fields _ = end

-- the new message; a `ToolMessage` without an identifier
unfoldable pub reduced_message : Reducer → Message → String → Json → Message
reduced_message reducer message original reduced = record {
  kind = tool_message;
  id = none;
  content = text (reducer.dumps reduced);
  tool_call_id = message.tool_call_id;
  name = message.name;
  status = message.status;
  artifact =
      obj (set_field (key "unreduced_content") (str original) (artifact_fields message.artifact));
}

-- what is done with the reducer's answer to a payload
unfoldable pub accept_reduction : Reducer → Message → String → Json → Option Json → Message
accept_reduction reducer message original payload none = message
accept_reduction reducer message original payload (some (obj fs)) =
    if json_eq (obj fs) payload then message else reduced_message reducer message original (obj fs)
accept_reduction reducer message original payload (some _) = message

unfoldable pub reduce_payload : Reducer → Message → String → String → Option Json → Message
reduce_payload reducer message tool_name original (some (obj fs)) =
    accept_reduction reducer message original (obj fs) (reducer.reduce tool_name (obj fs))
reduce_payload reducer message tool_name original _ = message

-- `_reduce_message`
unfoldable pub reduce_content : Reducer → Message → String → Content → Message
reduce_content reducer message tool_name (text original) =
    reduce_payload reducer message tool_name original (reducer.loads original)
reduce_content reducer message tool_name (blocks xs) = message

unfoldable pub reduce_message : Reducer → Message → String → Message
reduce_message reducer message tool_name = reduce_content reducer message tool_name message.content

unfoldable pub is_tool : MessageKind → Bool
is_tool tool_message = true
is_tool _ = false

unfoldable pub is_text : Content → Bool
is_text (text s) = true
is_text (blocks xs) = false

-- the test of a message in `_reduced_result`
unfoldable pub is_result_of : String → Message → Bool
is_result_of call_id message =
    is_tool message.kind && (message.tool_call_id == call_id && is_text message.content)

-- the body of the loop of `_reduced_result`
unfoldable pub reduce_one : Reducer → String → String → Message → Message
reduce_one reducer tool_name call_id message =
    if is_result_of call_id message then reduce_message reducer message tool_name else message

-- whether a text content changed
unfoldable pub content_changed : Content → Content → Bool
content_changed (text a) (text b) = not (a == b)
content_changed _ _ = false

unfoldable pub any_changed : List Message → List Message → Bool
any_changed (a ∷ before) (b ∷ after) =
    content_changed a.content b.content || any_changed before after
any_changed _ _ = false

-- a tool's result: one message, or a command with an update of the messages
pub data CallResult : Type 0 where
  single : Message → CallResult
  command : List Message → CallResult

-- `_reduced_result`, with the messages of a command as a list; an unchanged command keeps its own
unfoldable pub reduced_result : Reducer → String → String → CallResult → CallResult
reduced_result reducer tool_name call_id (single message) =
    single (reduce_one reducer tool_name call_id message)
reduced_result reducer tool_name call_id (command messages) =
    let reduced = map (reduce_one reducer tool_name call_id) messages in
    if any_changed messages reduced then command reduced else command messages
