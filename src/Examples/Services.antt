-- ===== src/Examples/Services.antt =====
-- The events and runs of a conversation at work: packages/openhands-agent-server/src/eventService.ts.
use smolpaws.Base.{
  ℕ, suc, ◌≡◌, refl, String, true, false, Option, none, some, List, [], ◌∷◌, ◌++◌, length, slice,
  count_where, arith,
}
use smolpaws.Service.{Event, ExecutionStatus, get_event}
use smolpaws.Service.Search.{
  Filter, Bodies, search_events, filtered_events, in_order, matches, page_start,
}
use smolpaws.Service.Pages.{collect, collect-pages}
use smolpaws.Service.Send.{EventLog, Publisher, publish_events, holds_id, recover_interrupted_tools}
use smolpaws.Service.Message.{IsOnce, send_message, send_message-IsOnce}
use smolpaws.Service.Published.{times, IsMarked, publish_events-times, recover_once}
use smolpaws.Service.Runs.{
  at_rest, Runner, Input, go, answer, ended, stop, append, read_up_to, executing,
}
use smolpaws.Service.Slots.{IsAccounted, act_all, act_all-IsAccounted}

abbrev event : String → String → String → Event
event id kind source = record {
  id = id;
  kind = kind;
  source = source;
  timestamp = some 5;
  tool_call_id = id;
  action_id = "";
}

abbrev question : Event
question = event "q" "MessageEvent" "user"

abbrev reply : Event
reply = event "r" "MessageEvent" "agent"

abbrev events : List Event
events = question ∷ event "a" "ActionEvent" "agent" ∷ reply ∷ event "z" "MessageEvent" "user" ∷ []

abbrev messages_only : Filter
messages_only = record {
  kind = some "MessageEvent";
  source = none;
  body = none;
  timestamp_gte = some 1;
  timestamp_lt = none;
}

abbrev bodies : Bodies
bodies = record { lower = λ s. s; body = λ e. e.id }

-- The second page of one message each, and the page after it.
second_page :
    search_events bodies messages_only true (some "1") 1 events
    ≡ record { items = reply ∷ []; next_page_id = some "2" }
unfolding search_events filtered_events in_order page_start matches slice smolpaws.Decimal.decimal
second_page = refl

collect-pages_example :
    collect
      (suc (length (in_order true (filtered_events bodies messages_only events))))
      bodies
      messages_only
      true
      2
      events
      none
    ≡ some (in_order true (filtered_events bodies messages_only events))
collect-pages_example = collect-pages bodies messages_only true 2 events (omega arith)

-- A log that refuses an id that it has.
abbrev append_distinct : Event → List Event → Option (List Event)
append_distinct e es = elim (get_event e.id es) [ none ↦ some (es ++ e ∷ []) | some _ ↦ none ]

distinct_new :
    (e : Event) (es : List Event)
    → get_event e.id es ≡ none
    → append_distinct e es ≡ some (es ++ e ∷ [])
distinct_new e es h = rw (h, append_distinct) refl

distinct_known :
    (e f : Event) (es : List Event) → get_event e.id es ≡ some f → append_distinct e es ≡ none
distinct_known e f es h = rw (h, append_distinct) refl

abbrev log : EventLog
log = record { append = append_distinct; append_new = distinct_new; append_known = distinct_known }

abbrev quiet : Publisher
quiet = record { published_event_ids = []; output = [] }

quiet-IsMarked : IsMarked quiet
unfolding holds_id count_where
quiet-IsMarked id = refl

publish_events-times_example :
    times "q" (publish_events (question ∷ reply ∷ question ∷ []) quiet) ≡ 1
unfolding holds_id
publish_events-times_example =
    publish_events-times (question ∷ reply ∷ question ∷ []) quiet quiet-IsMarked "q"

abbrev fresh : Event → String × Option ℕ
fresh e = (e.id, some 9)

recover_once_example :
    recover_interrupted_tools fresh
      (event "a" "ActionEvent" "agent" ∷ [])
      ExecutionStatus.error
      (recover_interrupted_tools fresh
        (event "a" "ActionEvent" "agent" ∷ [])
        ExecutionStatus.running
        events).0
    ≡ (
      (recover_interrupted_tools fresh
          (event "a" "ActionEvent" "agent" ∷ [])
          ExecutionStatus.running
          events).0,
      false,
      ExecutionStatus.error,
    )
recover_once_example =
    recover_once fresh (event "a" "ActionEvent" "agent" ∷ []) ExecutionStatus.running
      ExecutionStatus.error events

abbrev resting : Runner
resting = record {
  phase = at_rest;
  closing = false;
  stop_generation = 0;
  rerun_requested = false;
  selection_requested = false;
  last_step_user_message_id = none;
  status = ExecutionStatus.idle;
  events = [];
  taken = 0;
  released = 0;
}

-- A run is granted, prepared and executed, and read the message; then it is written.
abbrev one_run : List Input
one_run =
    append true true question
    ∷ go
    ∷ answer true
    ∷ append true false (event "z" "MessageEvent" "user")
    ∷ ended (read_up_to (some "q"))
    ∷ answer true
    ∷ stop false
    ∷ go
    ∷ []

resting-IsAccounted : IsAccounted resting
resting-IsAccounted = refl

act_all-IsAccounted_example : IsAccounted (act_all one_run resting)
act_all-IsAccounted_example = act_all-IsAccounted one_run resting resting-IsAccounted

abbrev asked : Runner
asked = record resting { events = question ∷ reply ∷ [] }

-- Another request stored the same id between the lookup and the append; the pool has no slot.
send_message-IsOnce_example :
    IsOnce reply true true asked
      (send_message log (some "r") reply (question ∷ []) false true true asked)
      true
      false
      asked
      (send_message log
        (some "r")
        reply
        ((send_message log (some "r") reply (question ∷ []) false true true asked).0.events ++ [])
        false
        true
        false
        asked)
send_message-IsOnce_example =
    send_message-IsOnce log reply reply (question ∷ []) (reply ∷ []) [] false true true false true
      false asked asked refl refl

-- A run is under way, which has not read the question, and another iteration reads it.
abbrev at_work : Runner
at_work = record resting { phase = executing 0; taken = 1; released = 0 }

abbrev read_at_last : List Input
read_at_last =
    ended (read_up_to none)
    ∷ answer true
    ∷ go
    ∷ answer true
    ∷ ended (read_up_to (some "q"))
    ∷ answer true
    ∷ []
