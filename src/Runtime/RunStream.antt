-- ===== src/Runtime/RunStream.antt =====
-- src/core/runtime/run-stream.ts: the universal run-stream events, and the mark of an error that
-- does not end its stream.
use cavi_api_client.Base.{ℕ, String, Bool, true, false, Option, List}
use cavi_api_client.Runtime.Run.{RunState, RunErrorDetails, RuntimeUsage}

pub data EventName : Type 0 where
  message_delta run_completed run_failed run_cancelled : EventName
  approval_request tool_call_started tool_call_completed tool_call_failed : EventName

pub data ToolStatus : Type 0 where
  pending running completed failed : ToolStatus

pub record ToolCall : Type 0 where
  pub id : String
  pub name : String
  pub status : ToolStatus
  pub event : Option String
  pub input : Option String
  pub output : Option String
  pub error : Option String
  pub duration_ms : Option ℕ
  pub at : Option ℕ

pub data ApprovalChoice : Type 0 where
  once session always deny : ApprovalChoice

-- What the events of each name carry besides the run.
pub data Payload : Type 0 where
  delta : String → Payload
  completion : Option String → Option RuntimeUsage → Option RunState → Payload
  failure : String → Option RunErrorDetails → Payload
  cancellation : Option String → Payload
  approval : List ApprovalChoice → Payload
  tool_started tool_completed tool_failed : ToolCall → Payload

pub record RunStreamEvent : Type 0 where
  pub run_id : String
  pub payload : Payload
  pub at : Option ℕ

abbrev pub name_of : Payload → EventName
name_of (delta _) = message_delta
name_of (completion _ _ _) = run_completed
name_of (failure _ _) = run_failed
name_of (cancellation _) = run_cancelled
name_of (approval _) = approval_request
name_of (tool_started _) = tool_call_started
name_of (tool_completed _) = tool_call_completed
name_of (tool_failed _) = tool_call_failed

-- An error as the stream hands it on: an object, which may be frozen and may carry the mark, or
-- another value.
pub data StreamError : Type 0 where
  object : (frozen marked : Bool) → String → StreamError
  primitive : String → StreamError

-- A frozen object cannot be marked.
abbrev pub mark_non_terminal_stream_error : StreamError → StreamError
mark_non_terminal_stream_error (object false marked text) = object false true text
mark_non_terminal_stream_error (object true marked text) = object true marked text
mark_non_terminal_stream_error (primitive text) = primitive text

abbrev pub is_non_terminal_stream_error : StreamError → Bool
is_non_terminal_stream_error (object frozen marked text) = marked
is_non_terminal_stream_error (primitive text) = false
