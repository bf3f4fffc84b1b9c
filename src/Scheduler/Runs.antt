-- ===== src/Scheduler/Runs.antt =====
-- The runs of src/coordinator/taskScheduler.ts: `isolatedTask` and `observe`. The events of a run are
-- observed one by one, each run of the conversation in a transaction of its own.
use smolpaws.Base.{
  ℕ, String, Bool, true, false, Option, none, some, List, [], ◌∷◌, find_first, any_where, select,
  update_where, ◌==◌, ◌&&◌, ◌||◌, not, if◌then◌else◌,
}
use Prim.Native.String.{◌++◌}
use smolpaws.Json.{
  Json, null, boolean, array, Items, nil, cons, Fields, get_field, as_record, as_string,
}
use smolpaws.Relay.Events.{Event, text_of, is_text}
use smolpaws.Recovery.{has_length, has_role, message_of}
use smolpaws.Scheduler.{
  ScheduledTask, ScheduledRun, TaskStatus, paused, completed, RunStatus, started, done, failed,
  Scheduler, Attempt, returns, throws, Clock, is_active, is_group, is_task, open_in,
}
use smolpaws.Scheduler.Targets.{next_time}

abbrev is_isolated_run : String → ScheduledTask → ScheduledRun → Bool
is_isolated_run id t r =
    r.task_id == t.id && (r.conversation_id == id && not (r.conversation_id == t.conversation_id))

unfoldable pub isolated_task : String → Scheduler → Option ScheduledTask
unfolding find_first any_where
isolated_task id s =
    find_first (λ t. not (is_group t.context_mode) && any_where (is_isolated_run id t) s.runs)
      s.tasks

-- `value === true`.
abbrev pub is_true : Option Json → Bool
is_true (some (boolean b)) = b
is_true _ = false

abbrev pub observation_of : Event → Fields
observation_of event = as_record (get_field "observation" event.fields)

unfoldable pub is_terminal : Event → Bool
unfolding text_of get_field as_record as_string has_length message_of
is_terminal event =
    (event.kind == "ObservationEvent" && is_text "finish" (text_of event "tool_name"))
    || (event.kind == "MessageEvent"
        && (has_role "assistant" event
            && not (has_length (get_field "tool_calls" (message_of event)))))

unfoldable pub is_failure : Event → Bool
unfolding is_terminal get_field as_record
is_failure event =
    event.kind == "AgentErrorEvent"
    || (event.kind == "ConversationErrorEvent"
        || (is_terminal event && is_true (get_field "is_error" (observation_of event))))

-- `value ?? undefined` as a text; the event's types have texts here.
abbrev present_text : Clock → Option Json → Option String
present_text c (some null) = none
present_text c (some value) = some (c.to_text (some value))
present_text c none = none

unfoldable pub content_texts : Clock → Items → String
unfolding get_field as_record
content_texts c nil = ""
content_texts c (cons x xs) =
    let rest = content_texts c xs in
    elim (present_text c (get_field "text" (as_record (some x)))) [
      | none ↦ rest
      | some text ↦ text ++ rest
    ]

abbrev content_of : Clock → Option Json → Option String
content_of c (some (array items)) = some (content_texts c items)
content_of c _ = none

abbrev or_text : Option String → String → String
or_text (some text) other = text
or_text none other = other

-- The result's text; `cut` is `slice(0, 200)`.
unfoldable pub result_of : Clock → (String → String) → Event → String
unfolding is_failure content_texts get_field as_record message_of
result_of c cut event = cut (
    if is_failure event
    then or_text (present_text c (get_field "error" event.fields)) "Run failed"
    else or_text (present_text c (get_field "message" (observation_of event))) (
        or_text (present_text c (get_field "text" (observation_of event)))
          (or_text (content_of c (get_field "content" (message_of event))) "Completed")))

abbrev pub same_run : String → ScheduledRun → Bool
same_run id r = r.id == id

abbrev pub is_started : RunStatus → Bool
is_started started = true
is_started _ = false

abbrev pub set_run : String → (ScheduledRun → ScheduledRun) → Scheduler → Scheduler
set_run id f s = record s { runs = update_where (same_run id) f s.runs }

-- The run's own message was taken up.
unfoldable pub start_run : (String → String → String) → Event → ScheduledRun → Scheduler → Scheduler
start_run event_id event run s =
    if event.id == event_id run.lane.lane.platform run.source_id
    then set_run run.id (λ r. record r { status = started }) s
    else s

abbrev pub status_after : Bool → TaskStatus → TaskStatus
status_after recurring status = if not recurring && is_active status then completed else status

-- A task whose event asks for a repair is paused.
abbrev pub status_before : Event → ScheduledTask → TaskStatus
status_before event task =
    if is_true (get_field "reconcile_required" event.fields) then paused else task.status

unfoldable pub next_after : Clock → Bool → TaskStatus → ScheduledTask → ℕ → Attempt (Option String)
unfolding next_time
next_after c recurring status task now =
    if recurring && is_active status
    then (elim (next_time c task.schedule_type task.schedule_value now) [
      | throws x ↦ throws x
      | returns next ↦ returns (some next)
    ])
    else returns none

-- The transaction: the run ends and the task is rescheduled, or the schedule's error undoes both.
unfoldable pub end_run : Clock → String → Event → ScheduledRun → ℕ → Scheduler → Attempt Scheduler
unfolding find_first next_after is_failure get_field
end_run c result event run now s = elim (find_first (is_task run.task_id) s.tasks) [
  | none ↦ throws "task"
  | some task ↦
      let recurring = not (task.schedule_type == "once") in
      let status = status_before event task in
      elim (next_after c recurring status task now) [
        | throws x ↦ throws x
        | returns next ↦
            let ended = record s {
              runs =
                  update_where (λ r. same_run run.id r && is_started r.status)
                    (λ r. record r { status = if is_failure event then failed else done }) s.runs;
            } in
            returns (record ended {
              tasks =
                  update_where (is_task task.id)
                    (λ t. record t {
                      next_run = next;
                      last_run = some (c.iso now);
                      last_result = some result;
                      status = status_after recurring status;
                    })
                    ended.tasks;
            })
      ]
]

unfoldable pub observe_run :
    Clock
    → (String → String → String)
    → (String → String)
    → Event
    → ScheduledRun
    → ℕ
    → Scheduler
    → Attempt Scheduler
unfolding start_run end_run is_terminal is_failure result_of
observe_run c event_id cut event run now s =
    let s' = start_run event_id event run s in
    if is_started run.status && (is_terminal event || is_failure event)
    then end_run c (result_of c cut event) event run now s'
    else returns s'

-- A throw leaves the runs after it unobserved.
unfoldable pub observe_runs :
    Clock
    → (String → String → String)
    → (String → String)
    → Event
    → List ScheduledRun
    → ℕ
    → Scheduler
    → Scheduler × Bool
unfolding observe_run start_run
observe_runs c event_id cut event [] now s = (s, true)
observe_runs c event_id cut event (run ∷ runs) now s =
    elim (observe_run c event_id cut event run now s) [
      | throws x ↦ (start_run event_id event run s, false)
      | returns s' ↦ observe_runs c event_id cut event runs now s'
    ]

-- The runs are read before the loop.
unfoldable pub observe_event :
    Clock
    → (String → String → String)
    → (String → String)
    → String
    → Event
    → ℕ
    → Scheduler
    → Scheduler × Bool
unfolding select observe_runs
observe_event c event_id cut conversation_id event now s =
    observe_runs c event_id cut event (select (open_in conversation_id) s.runs) now s
