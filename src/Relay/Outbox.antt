-- ===== src/Relay/Outbox.antt =====
-- `syncDeliveryOutbox` of src/coordinator/messageRelay.ts. One call is modelled as it runs alone:
-- `search` is what the agent-server answers while the call lasts, at each offset and limit.
-- Messages of `onEvent` go to the scheduler and the recovery journal, other tables than these.
pub mod Growth
pub mod Replay
pub mod Later
pub mod Ends
use smolpaws.Base.{
  ℕ, zero, suc, ◌+◌, ◌-◌, String, Bool, true, false, Option, none, some, List, [], ◌∷◌, ◌++◌,
  length, ◌==◌, ◌=?◌, ◌&&◌, ◌||◌, not, if◌then◌else◌,
}
use mathlib.Core.List.{reverse}
use Prim.Native.String.{◌++◌ as append}
use smolpaws.Json.{Json}
use smolpaws.Work.{WorkKind, WorkState, WorkRow, LaneRow}
use smolpaws.Store.{
  Store, Env, StoreError, Result, ok, err, get_lane_by_conversation_id, get_work_by_source_key,
}
use smolpaws.Store.Accept.{insert_delivery}
use smolpaws.Store.Cursors.{
  get_projection_cursor, set_projection_cursor, is_projection_cursor_parked, park_projection_cursor,
}
use smolpaws.Relay.{AgentError, Options}
use smolpaws.Relay.Events.{Event, text_of, is_text}
use smolpaws.Relay.Extract.{send_message_extractor, terminal_response_extractor, delivery_text}

pub data SearchReply : Type 0 where
  page : List Event → Bool → SearchReply
  search_failed : AgentError → SearchReply

abbrev pub is_skipped : WorkState → Bool
is_skipped WorkState.skipped = true
is_skipped _ = false

abbrev pub is_absent : Option Json → Bool
is_absent none = true
is_absent (some _) = false

abbrev pub has_text : String → Option String → Bool
has_text text none = false
has_text text (some t) = t == text

-- `${event.id}:${lane.laneKey}`.
abbrev pub delivery_key : String → String → String
delivery_key event_id lane_key = append event_id (append ":" lane_key)

-- A queued, not skipped delivery of the event with this text.
unfoldable pub is_queued_text : Store → String → String → Event → Bool
is_queued_text st lane_key text event =
    elim (get_work_by_source_key st WorkKind.delivery (delivery_key event.id lane_key)) [
      | none ↦ false
      | some queued ↦ not (is_skipped queued.state) && has_text text (delivery_text queued.payload)
    ]

-- A user message or a terminal response: the turn begins here.
unfoldable pub ends_turn : Event → Bool
ends_turn event =
    (event.kind == "MessageEvent" && is_text "user" (text_of event "source"))
    || not (is_absent (terminal_response_extractor event))

-- The scan of one page, from its last event back: an answer, or none to go on.
unfoldable pub scan_back : Store → String → String → List Event → Option Bool
unfolding ends_turn
scan_back st lane_key text [] = none
scan_back st lane_key text (event ∷ events) =
    let rest = scan_back st lane_key text events in
    if ends_turn event
    then some false
    else if is_absent (send_message_extractor event)
    then rest
    else if is_queued_text st lane_key text event
    then some true
    else rest

pub data Echo : Type 0 where
  answer : Bool → Echo
  echo_failed : AgentError → Echo
  echo_fuel : Echo

-- isQueuedFinalEcho: this page's earlier events, then the pages before it.
unfoldable pub is_queued_final_echo :
    ℕ → (ℕ → ℕ → SearchReply) → ℕ → Store → String → String → ℕ → List Event → Echo
unfolding scan_back
is_queued_final_echo zero search size st lane_key text before events = echo_fuel
is_queued_final_echo (suc fuel) search size st lane_key text before events =
    elim (scan_back st lane_key text (reverse events)) [
      | some b ↦ answer b
      | none ↦ elim (before =? 0) [
        | true ↦ answer false
        | false ↦ elim (search (before - size) (before - (before - size))) [
          | search_failed error ↦ echo_failed error
          | page items more ↦
              is_queued_final_echo fuel search size st lane_key text (before - size) items
        ]
      ]
    ]

pub data SyncError : Type 0 where
  store_error : StoreError → SyncError
  agent_error : AgentError → SyncError
  out_of_fuel : SyncError

-- A call or a part of it: the deliveries made so far, or what it throws; the store keeps what was
-- committed before.
pub data Synced : Type 0 where
  synced : ℕ → Store → Synced
  sync_failed : SyncError → Store → Synced

-- The insertion of one intent.
unfoldable pub queue_delivery : Env → String → Event → Json → ℕ → ℕ → Store → Synced
queue_delivery e lane_key event intent now created st =
    elim (insert_delivery e
      (record {
        source_key = delivery_key event.id lane_key;
        lane_key = lane_key;
        agent_event_id = event.id;
        payload = intent;
      })
      now st) [
        | err x ↦ sync_failed (store_error x) st
        | ok (st', _) ↦
            elim (get_work_by_source_key st WorkKind.delivery (delivery_key event.id lane_key)) [
              | none ↦ synced (created + 1) st'
              | some _ ↦ synced created st'
            ]
      ]

-- text !== null && terminalResponseExtractor(event) !== null.
abbrev pub may_echo : Event → Json → Option String
may_echo event intent =
    if is_absent (terminal_response_extractor event) then none else delivery_text intent

-- An echo is left out; a failed search leaves the call.
unfoldable pub after_echo : Echo → ℕ → Store → Synced → Synced
after_echo (answer true) created st queued = synced created st
after_echo (answer false) created st queued = queued
after_echo (echo_failed error) created st queued = sync_failed (agent_error error) st
after_echo echo_fuel created st queued = sync_failed out_of_fuel st

unfoldable pub sync_event :
    Env → Options → (ℕ → ℕ → SearchReply) → String → ℕ → List Event → Event → ℕ → ℕ → Store → Synced
sync_event e o search lane_key offset earlier event now created st = elim (o.extractor event) [
  | none ↦ synced created st
  | some intent ↦ elim (may_echo event intent) [
    | none ↦ queue_delivery e lane_key event intent now created st
    | some text ↦
        after_echo
          (is_queued_final_echo (suc offset) search o.outbox_sync_page_size st lane_key text offset
            earlier)
          created st (queue_delivery e lane_key event intent now created st)
  ]
]

-- The events of one page, in order; `earlier` are the page's events before them.
unfoldable pub sync_events :
    Env
    → Options
    → (ℕ → ℕ → SearchReply)
    → String
    → ℕ
    → List Event
    → List Event
    → ℕ
    → ℕ
    → Store
    → Synced
sync_events e o search lane_key offset earlier [] now created st = synced created st
sync_events e o search lane_key offset earlier (event ∷ events) now created st =
    elim (sync_event e o search lane_key offset earlier event now created st) [
      | sync_failed x st' ↦ sync_failed x st'
      | synced created' st' ↦
          sync_events e o search lane_key offset (earlier ++ event ∷ []) events now created' st'
    ]

-- isConversationAbsentError.
abbrev pub is_gone : Option ℕ → Bool
is_gone none = false
is_gone (some status) = status =? 404

-- The loop over the pages; the cursor moves after the page's deliveries are stored. `print` writes
-- the offset as the cursor's text.
unfoldable pub sync_pages :
    ℕ → Env → Options → (ℕ → String) → (ℕ → ℕ → SearchReply) → LaneRow → ℕ → ℕ → ℕ → Store → Synced
sync_pages zero e o print search lane offset now created st = sync_failed out_of_fuel st
sync_pages (suc fuel) e o print search lane offset now created st =
    elim (search offset o.outbox_sync_page_size) [
      | search_failed error ↦
          if is_gone error.status
          then synced created (park_projection_cursor lane.conversation_id now st)
          else sync_failed (agent_error error) st
      | page items more ↦
          elim (sync_events e o search lane.lane_key offset [] items now created st) [
            | sync_failed x st' ↦ sync_failed x st'
            | synced created' st' ↦
                let st'' =
                  set_projection_cursor lane.conversation_id (some (print (offset + length items)))
                    now st' in
                elim more [
                  | true ↦
                      sync_pages fuel e o print search lane (offset + length items) now created'
                        st''
                  | false ↦ synced created' st''
                ]
          ]
    ]

-- Number.parseInt(cursor ?? '0', 10), with 0 for NaN.
abbrev pub start_offset : (String → Option ℕ) → Option String → ℕ
start_offset parse none = 0
start_offset parse (some s) = elim (parse s) [ none ↦ 0 | some n ↦ n ]

unfoldable pub sync_delivery_outbox :
    ℕ
    → Env
    → Options
    → (ℕ → String)
    → (String → Option ℕ)
    → (ℕ → ℕ → SearchReply)
    → String
    → ℕ
    → Store
    → Synced
unfolding get_lane_by_conversation_id is_projection_cursor_parked get_projection_cursor
sync_delivery_outbox fuel e o print parse search conversation_id now st =
    elim (get_lane_by_conversation_id st conversation_id) [
      | none ↦ synced 0 st
      | some lane ↦
          if is_projection_cursor_parked st conversation_id
          then synced 0 st
          else sync_pages fuel e o print search lane
              (start_offset parse (get_projection_cursor st conversation_id)) now 0 st
    ]
