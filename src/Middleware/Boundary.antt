-- ===== src/Middleware/Boundary.antt =====
-- agent_middleware/boundary.py: every tool call is authorised before it runs, and its results are
-- validated before the model sees them. The policy is a parameter: it may change the ledger, reject, or
-- raise something else. The ledger is an object of the state that the policy writes to. The
-- asynchronous interceptor repeats the synchronous one.
pub mod FailClosed
use unknown_file_threat_agen.Shared.Json.{
  Json, null, str, arr, obj, Items, nil, cons, end, field, key,
}
use unknown_file_threat_agen.Middleware.Messages.{tool_message, text, Message}
use unknown_file_threat_agen.Middleware.Compaction.{is_tool, CallResult, single, command}
use unknown_file_threat_agen.Prelude.{
  String, ◌⊎◌, inl, inr, Bool, true, false, ◌&&◌, Option, none, some, List, [], ◌∷◌, map, ◌==◌,
  if◌then◌else◌,
}

pub record BoundaryRejection : Type 0 where
  pub code : String
  pub tool_name : String
  pub message : String
  pub resource_refs : List String

unfoldable pub refs_json : List String → Items
refs_json [] = nil
refs_json (r ∷ rest) = cons (str r) (refs_json rest)

-- `as_tool_message`, with `json.dumps`
unfoldable pub as_tool_message : (Json → String) → String → BoundaryRejection → Message
as_tool_message dumps call_id r = record {
  kind = tool_message;
  id = none;
  content = text (
      dumps (
        obj (
          field (key "error_type") (str "BoundaryDenied") (
            field (key "error_code") (str r.code) (
              field (key "error_message") (str r.message)
                (field (key "resource_refs") (arr (refs_json r.resource_refs)) end))))));
  tool_call_id = call_id;
  name = some r.tool_name;
  status = "error";
  artifact = null;
}

-- what a policy or a tool may raise: a rejection, or any other exception
pub data Raised : Type 0 where
  rejection : BoundaryRejection → Raised
  exception : String → Raised

-- `ToolBoundary`: what a call of the policy does to the ledger, and what it gives
pub record ToolBoundary (L : Type 0) : Type 0 where
  pub authorize : String → Json → L → L × Option Raised
  pub validate : String → Message → L → L × (Raised ⊎ Message)

pub data Phase : Type 0 where
  authorizing validating : Phase

pub data BoundaryEvent : Type 0 where
  boundary_denied : Phase → BoundaryRejection → BoundaryEvent
  boundary_authorized : BoundaryEvent

-- how a call ends: a message in place of the result, a command with messages and the ledger, or an
-- exception; whether the tool ran; and the event
pub data Answer (L : Type 0) : Type 0 where
  message : Message → Answer L
  update : List Message → L → Answer L
  failed : String → Answer L

pub record Intercepted (L : Type 0) : Type 0 where
  pub answer : Answer L
  pub executed : Bool
  pub events : List BoundaryEvent

-- `_CallContext`
pub record CallContext : Type 0 where
  pub tool_name : String
  pub call_id : String
  pub arguments : Json

-- `_is_call_result`
unfoldable pub is_call_result : String → Message → Bool
is_call_result call_id m = is_tool m.kind && m.tool_call_id == call_id

module _ {L : Type 0} where
  unfoldable pub prepend : Message → L × (Raised ⊎ List Message) → L × (Raised ⊎ List Message)
  prepend m (ledger, inl raised) = (ledger, inl raised)
  prepend m (ledger, inr rest) = (ledger, inr (m ∷ rest))

  -- an own result, and the rest of the comprehension
  unfoldable pub after_validation :
      (L → L × (Raised ⊎ List Message)) → L × (Raised ⊎ Message) → L × (Raised ⊎ List Message)
  after_validation later (ledger, inl raised) = (ledger, inl raised)
  after_validation later (ledger, inr valid) = prepend valid (later ledger)

module _ {L : Type 0} (dumps : Json → String) (policy : ToolBoundary L)
    (context : CallContext) where
  -- the comprehension of `_validated_result`: it stops at the first exception, and the ledger keeps
  -- what was written
  unfoldable pub validate_all : List Message → L → L × (Raised ⊎ List Message)
  validate_all [] ledger = (ledger, inr [])
  validate_all (m ∷ rest) ledger =
      if is_call_result context.call_id m
      then after_validation (validate_all rest) (policy.validate context.tool_name m ledger)
      else prepend m (validate_all rest ledger)

  -- the comprehension after a rejection: every own result is replaced
  unfoldable pub replace : BoundaryRejection → Message → Message
  replace r m =
      if is_call_result context.call_id m then as_tool_message dumps context.call_id r else m

  -- the end of `_validated_result`
  unfoldable pub conclude_result : List Message → L × (Raised ⊎ List Message) → Intercepted L
  conclude_result messages (ledger, inr validated) = record {
    answer = update validated ledger;
    executed = true;
    events = boundary_authorized ∷ [];
  }
  conclude_result messages (ledger, inl (rejection r)) = record {
    answer = update (map (replace r) messages) ledger;
    executed = true;
    events = boundary_denied validating r ∷ [];
  }
  conclude_result messages (ledger, inl (exception e)) = record {
    answer = failed e;
    executed = true;
    events = [];
  }

  unfoldable pub messages_in : CallResult → List Message
  messages_in (single m) = m ∷ []
  messages_in (command ms) = ms

  -- `_validated_result`
  unfoldable pub validated_result : CallResult → L → Intercepted L
  validated_result result ledger =
      conclude_result (messages_in result) (validate_all (messages_in result) ledger)

  -- the handler, which may raise, and what follows it
  unfoldable pub run_handler : String ⊎ CallResult → L → Intercepted L
  run_handler (inl e) ledger = record { answer = failed e; executed = true; events = [] }
  run_handler (inr result) ledger = validated_result result ledger

  unfoldable pub after_authorization : String ⊎ CallResult → L × Option Raised → Intercepted L
  after_authorization handler (ledger, none) = run_handler handler ledger
  after_authorization handler (ledger, some (rejection r)) = record {
    answer = message (as_tool_message dumps context.call_id r);
    executed = false;
    events = boundary_denied authorizing r ∷ [];
  }
  after_authorization handler (ledger, some (exception e)) = record {
    answer = failed e;
    executed = false;
    events = [];
  }

  -- `wrap_tool_call`
  unfoldable pub wrap_tool_call : String ⊎ CallResult → L → Intercepted L
  wrap_tool_call handler ledger =
      after_authorization handler (policy.authorize context.tool_name context.arguments ledger)
