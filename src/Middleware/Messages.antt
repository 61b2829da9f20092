-- ===== src/Middleware/Messages.antt =====
-- The messages of a conversation, with the fields that the middleware of agent_middleware reads.
use unknown_file_threat_agen.Shared.Json.{Json}
use unknown_file_threat_agen.Prelude.{String, Option, List}

pub data MessageKind : Type 0 where
  ai_message tool_message other_message : MessageKind

pub data Content : Type 0 where
  text : String → Content
  blocks : List Json → Content

pub record Message : Type 0 where
  pub kind : MessageKind
  pub id : Option String
  pub content : Content
  pub tool_call_id : String
  pub name : Option String
  pub status : String
  pub artifact : Json
