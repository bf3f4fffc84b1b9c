-- ===== src/Service/Send.antt =====
-- Appending messages: packages/openhands-agent-server/src/eventService.ts, sendMessage, and what a
-- restart appends for the tools that it interrupted. The event log belongs to the agent library and
-- is a parameter.
use smolpaws.Base.{
  ℕ, String, ◌≡◌, Bool, true, false, not, ◌||◌, Option, none, some, List, [], ◌∷◌, ◌++◌, ◌==◌,
  if◌then◌else◌, any_where, select, ◌&&◌,
}
use smolpaws.Service.{Event, ExecutionStatus, get_event}

-- An append that fails found the id in the log: `DuplicateEventError`. Other failures of the log, and
-- of the save that follows an append, are thrown to the caller and left out.
pub record EventLog : Type 0 where
  pub append : Event → List Event → Option (List Event)
  pub append_new :
      (e : Event) (es : List Event) → get_event e.id es ≡ none → append e es ≡ some (es ++ e ∷ [])
  pub append_known :
      (e f : Event) (es : List Event) → get_event e.id es ≡ some f → append e es ≡ none

-- The event of the answer, whether it was created, and the log; or the error that is thrown.
pub data Sent : Type 0 where
  sent : Event → Bool → List Event → Sent
  duplicate_event : Sent

module _ (l : EventLog) where
  open l use {append}

  -- The append of the candidate to the log as it is now. Who loses a race reads the winner's event.
  unfoldable pub append_candidate : Event → List Event → Sent
  unfolding get_event
  append_candidate candidate now = elim (append candidate now) [
    | some log ↦ sent candidate true log
    | none ↦ elim (get_event candidate.id now) [
      | some durable ↦ sent durable false now
      | none ↦ duplicate_event
    ]
  ]

  -- `seen` is the log when the id was looked up, `now` the log when the append runs.
  unfoldable pub send_event : Option String → Event → List Event → List Event → Sent
  unfolding append_candidate
  send_event none candidate seen now = append_candidate candidate now
  send_event (some event_id) candidate seen now = elim (get_event event_id seen) [
    | some existing ↦ sent existing false now
    | none ↦ append_candidate candidate now
  ]

-- A message of the user wakes a conversation that is not running.
unfoldable pub after_message : Bool → ExecutionStatus → ExecutionStatus
after_message is_user ExecutionStatus.running = ExecutionStatus.running
after_message is_user ExecutionStatus.idle = ExecutionStatus.idle
after_message is_user ExecutionStatus.paused =
    if is_user then ExecutionStatus.idle else ExecutionStatus.paused
after_message is_user ExecutionStatus.finished =
    if is_user then ExecutionStatus.idle else ExecutionStatus.finished
after_message is_user ExecutionStatus.error =
    if is_user then ExecutionStatus.idle else ExecutionStatus.error
after_message is_user ExecutionStatus.other =
    if is_user then ExecutionStatus.idle else ExecutionStatus.other

-- What subscribers were sent, and the ids that were marked before.
pub record Publisher : Type 0 where
  pub published_event_ids : List String
  pub output : List Event

unfoldable pub holds_id : String → List String → Bool
unfolding any_where
holds_id id ids = any_where (λ i. i == id) ids

unfoldable pub publish_event_once : Event → Publisher → Publisher
unfolding holds_id
publish_event_once e p =
    if holds_id e.id p.published_event_ids
    then p
    else record { published_event_ids = e.id ∷ p.published_event_ids; output = p.output ++ e ∷ [] }

unfoldable pub publish_events : List Event → Publisher → Publisher
unfolding publish_event_once
publish_events [] p = p
publish_events (e ∷ es) p = publish_events es (publish_event_once e p)

-- Whether an event completes a call of a tool.
unfoldable pub completes : Event → Bool
completes e =
    e.kind == "ObservationEvent" || e.kind == "UserRejectObservation" || e.kind == "AgentErrorEvent"

unfoldable pub is_completed : List Event → String → Bool
unfolding any_where completes
is_completed events call = any_where (λ e. completes e && e.tool_call_id == call) events

-- The actions without a result; `pending` is what the state of the agent library reports.
unfoldable pub interrupted : List Event → List Event → List Event
unfolding select is_completed
interrupted pending events = select (λ a. not (is_completed events a.tool_call_id)) pending

-- The id and the instant that the schema gives a new event are arguments.
unfoldable pub error_for : (Event → String × Option ℕ) → Event → Event
error_for fresh action = record {
  id = (fresh action).0;
  kind = "AgentErrorEvent";
  source = "agent";
  timestamp = (fresh action).1;
  tool_call_id = action.tool_call_id;
  action_id = "";
}

unfoldable pub error_events : (Event → String × Option ℕ) → List Event → List Event
unfolding error_for
error_events fresh [] = []
error_events fresh (a ∷ actions) = error_for fresh a ∷ error_events fresh actions

-- Each interrupted call gets an error; the log, whether there were any, and the status.
unfoldable pub recover_interrupted_tools :
    (Event → String × Option ℕ)
    → List Event
    → ExecutionStatus
    → List Event
    → List Event × Bool × ExecutionStatus
unfolding interrupted error_events
recover_interrupted_tools fresh pending status events = elim (interrupted pending events) [
  | [] ↦ (events, false, status)
  | a ∷ actions ↦ (events ++ error_events fresh (a ∷ actions), true, ExecutionStatus.error)
]
