-- ===== src/Runtime/Run.antt =====
-- src/core/runtime/run.ts and usage.ts: the universal run status.
use cavi_api_client.Base.{ℕ, String, Option, List}
use cavi_api_client.Base.Number.{Number}

-- `RuntimeRunState`, an open string type: `other s` is a text that none of the others spells.
pub data RunState : Type 0 where
  started running completed failed cancelled stopping dry_run unknown : RunState
  other : String → RunState

pub record RunErrorDetails : Type 0 where
  pub provider_code : Option String
  pub provider_type : Option String
  pub reason : Option String

pub record RuntimeUsage : Type 0 where
  pub input_tokens : Option ℕ
  pub output_tokens : Option ℕ
  pub total_tokens : Option ℕ
  pub cache_read_tokens : Option ℕ
  pub cache_write_tokens : Option ℕ
  pub raw : List (String × ℕ)

pub record RunStatus : Type 0 where
  pub run_id : String
  pub status : RunState
  pub model : Option String
  pub output : Option String
  pub response : Option String
  pub error : Option String
  pub error_details : Option RunErrorDetails
  pub usage : Option (List (String × Number))
  pub tokens : Option RuntimeUsage
