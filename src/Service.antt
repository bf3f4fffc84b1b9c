-- ===== src/Service.antt =====
-- The events of one conversation and its runs: packages/openhands-agent-server/src/eventService.ts.
-- An event is what the service reads of it. Its instant is `Date.parse` of its timestamp, absent for
-- NaN; `eventBody` and `toLowerCase` are arguments where a body is searched.
pub mod Search
pub mod Pages
pub mod Send
pub mod Published
pub mod Appended
pub mod Runs
pub mod Slots
pub mod Woken
pub mod Carried
pub mod Message
use smolpaws.Base.{
  ℕ, String, Bool, ◌&&◌, Option, none, some, List, [], ◌∷◌, ◌==◌, find_first, if◌then◌else◌,
}

pub record Event : Type 0 where
  pub id : String
  pub kind : String
  pub source : String
  pub timestamp : Option ℕ
  pub tool_call_id : String
  pub action_id : String

-- `conversationExecutionStatus`.
pub data ExecutionStatus : Type 0 where
  idle running paused finished error other : ExecutionStatus

unfoldable pub get_event : String → List Event → Option Event
unfolding find_first
get_event event_id events = find_first (λ e. e.id == event_id) events

unfoldable pub batch_get_events : List String → List Event → List (Option Event)
unfolding get_event
batch_get_events [] events = []
batch_get_events (id ∷ ids) events = get_event id events ∷ batch_get_events ids events

-- The last event that is a message of the user.
unfoldable pub latest_user_message_id : List Event → Option String
latest_user_message_id [] = none
latest_user_message_id (e ∷ es) = elim (latest_user_message_id es) [
  | some id ↦ some id
  | none ↦ if e.kind == "MessageEvent" && e.source == "user" then some e.id else none
]
