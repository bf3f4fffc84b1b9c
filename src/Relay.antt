-- ===== src/Relay.antt =====
-- src/coordinator/messageRelay.ts and its neighbours: what ties the durable store to the
-- agent-server and to the platform. The agent-server, the platform and the clock are outside: their
-- replies and the times read are arguments.
pub mod Events
pub mod Extract
pub mod Intake
pub mod Command
pub mod Dispatch
pub mod Outbox
pub mod Outbound
use smolpaws.Base.{ℕ, String, Bool, true, false, Option, none, some, not}
use smolpaws.Json.{Json}
use smolpaws.Work.{LaneDescriptor}
use Events.{Event}

-- What a call of the agent-server throws; `status` and `body` as far as the error has them, the
-- body as the value that it parses to.
pub record AgentError : Type 0 where
  pub message : String
  pub non_retryable : Bool
  pub status : Option ℕ
  pub body : Option Json

-- MessageRelayOptions, with the defaults filled in by the caller.
pub record Options : Type 0 where
  pub command_timeout_ms : ℕ
  pub derive_conversation_id : LaneDescriptor → String
  pub derive_event_id : String → String → String
  pub build_intake_source_key : LaneDescriptor → String → String
  pub extractor : Event → Option Json
  pub is_retryable : AgentError → Bool
  pub outbox_sync_page_size : ℕ

-- The default classification: retryable unless the error says otherwise.
abbrev pub default_is_retryable : AgentError → Bool
default_is_retryable error = not error.non_retryable
