-- ===== src/Scheduler/Tasks.antt =====
-- The task commands of src/coordinator/taskScheduler.ts: `execute`, `apply` and `next`.
use smolpaws.Base.{
  ℕ, String, Bool, true, false, Option, none, some, ◌∷◌, any_where, find_first, update_where, ◌==◌,
  ◌&&◌, ◌||◌, not, if◌then◌else◌,
}
use Prim.Native.String.{◌++◌}
use smolpaws.Text.{trim}
use smolpaws.Json.{Json, Fields, get_field, as_string}
use smolpaws.Scheduler.{
  ScheduledLane, ScheduledTask, active, paused, cancelled, TaskResult, CommandResultRow, Scheduler,
  Attempt, returns, throws, Clock, get_lane, open_of, is_task, is_ready_run, cancelled_run,
}
use smolpaws.Scheduler.Targets.{
  next_time, is_visible, is_cancelled, list_tasks, target_of, scope_of, mode_of, insert_task,
}

unfoldable pub create_task :
    Clock → ScheduledLane → String → Fields → String → ℕ → Scheduler → Attempt (Scheduler × String)
unfolding next_time insert_task get_field as_string
create_task c target prompt action key now s =
    let type = c.to_text (get_field "schedule_type" action) in
    let value = c.to_text (get_field "schedule_value" action) in
    let id = "task-" ++ c.derive_conversation_id key in
    elim (next_time c type value now) [
      | throws x ↦ throws x
      | returns next ↦
          elim (insert_task
            (record {
              id = id;
              conversation_id = target.conversation_id;
              scope_id = target.scope_id;
              prompt = prompt;
              schedule_type = type;
              schedule_value = value;
              context_mode = mode_of (as_string (get_field "context_mode" action));
              next_run = some next;
              status = active;
              last_run = none;
              last_result = none;
            })
            s) [ throws x ↦ throws x | returns s' ↦ returns (s', c.print_created id next) ]
    ]

unfoldable pub schedule_task :
    Clock → ScheduledLane → Fields → String → ℕ → Scheduler → Attempt (Scheduler × String)
unfolding target_of get_field as_string trim
schedule_task c source action key now s =
    let scope = scope_of (as_string (get_field "target_group" action)) source.scope_id in
    if is_visible source.scope_id scope
    then (elim (target_of c source scope s) [
      | throws x ↦ throws x
      | returns target ↦ elim (as_string (get_field "prompt" action)) [
        | none ↦ throws "Task prompt is required"
        | some prompt ↦
            if trim prompt == ""
            then throws "Task prompt is required"
            else create_task c target prompt action key now s
      ]
    ])
    else throws "Cannot schedule work for another scope"

abbrev pub update_task : String → (ScheduledTask → ScheduledTask) → Scheduler → Scheduler
update_task id f s = record s { tasks = update_where (is_task id) f s.tasks }

unfoldable pub cancel_task : String → Scheduler → Scheduler
cancel_task id s =
    let s' = update_task id (λ t. record t { status = cancelled; next_run = none }) s in
    record s' {
      runs =
          update_where (λ r. r.task_id == id && is_ready_run r.status)
            (λ r. record r { status = cancelled_run }) s'.runs;
    }

-- `open ? null : next`.
abbrev pub unless_open : Bool → String → Option String
unless_open busy next = if busy then none else some next

-- An open run leaves the next time to its end, and then the schedule is not read.
unfoldable pub resume_task : Clock → ScheduledTask → ℕ → Scheduler → Attempt (Scheduler × String)
unfolding any_where next_time
resume_task c task now s =
    if any_where (open_of task.id) s.runs
    then returns
        (update_task task.id (λ t. record t { status = active; next_run = none }) s, "Task resumed")
    else elim (next_time c task.schedule_type task.schedule_value now) [
      | throws x ↦ throws x
      | returns next ↦ returns (
        update_task task.id (λ t. record t { status = active; next_run = some next }) s,
        "Task resumed",
      )
    ]

-- `action[key] === undefined ? old : String(action[key])`.
abbrev pub text_or : Clock → String → Option Json → String
text_or c old none = old
text_or c old (some value) = c.to_text (some value)

unfoldable pub change_task :
    Clock → ScheduledTask → Fields → ℕ → Scheduler → Attempt (Scheduler × String)
unfolding any_where next_time get_field trim
change_task c task action now s =
    let prompt = text_or c task.prompt (get_field "prompt" action) in
    let type = text_or c task.schedule_type (get_field "schedule_type" action) in
    let value = text_or c task.schedule_value (get_field "schedule_value" action) in
    if trim prompt == ""
    then throws "Task prompt is required"
    else elim (next_time c type value now) [
      | throws x ↦ throws x
      | returns next ↦ returns (
        update_task task.id
            (λ t. record t {
              prompt = prompt;
              schedule_type = type;
              schedule_value = value;
              next_run = unless_open (any_where (open_of task.id) s.runs) next;
            })
            s,
        "Task updated",
      )
    ]

unfoldable pub apply_to :
    Clock → ScheduledTask → String → Fields → ℕ → Scheduler → Attempt (Scheduler × String)
apply_to c task kind action now s =
    if kind == "pause_task"
    then returns (update_task task.id (λ t. record t { status = paused }) s, "Task paused")
    else if kind == "cancel_task"
    then returns (cancel_task task.id s, "Task cancelled; an already submitted run is not revoked")
    else if kind == "resume_task"
    then resume_task c task now s
    else if kind == "update_task"
    then change_task c task action now s
    else throws "Unknown scheduler command"

unfoldable pub find_task : Clock → ScheduledLane → Fields → Scheduler → Option ScheduledTask
unfolding find_first get_field
find_task c source action s =
    elim (find_first (is_task (c.to_text (get_field "task_id" action))) s.tasks) [
      | none ↦ none
      | some task ↦
          if is_cancelled task.status || not (is_visible source.scope_id task.scope_id)
          then none
          else some task
    ]

unfoldable pub apply :
    Clock → String → String → Fields → String → ℕ → Scheduler → Attempt (Scheduler × String)
unfolding get_lane find_task
apply c conversation_id kind action key now s = elim (get_lane conversation_id s) [
  | none ↦ throws "Conversation is not registered with the scheduler"
  | some source ↦
      if kind == "list_tasks"
      then returns (s, list_tasks c source s)
      else if kind == "schedule_task"
      then schedule_task c source action key now s
      else elim (find_task c source action s) [
        | none ↦ throws "Task not found in this scope"
        | some task ↦ apply_to c task kind action now s
      ]
]

abbrev pub is_command : String → CommandResultRow → Bool
is_command id row = row.id == id

abbrev pub command_key : String → String → String
command_key conversation_id command_id = conversation_id ++ ":" ++ command_id

abbrev pub journal : String → TaskResult → Scheduler → Scheduler
journal key result s = record s { commands = record { id = key; result = result } ∷ s.commands }

-- A command that throws has changed nothing: every throw of `apply` precedes its writes.
unfoldable pub execute :
    Clock → String → String → Fields → String → ℕ → Scheduler → Scheduler × TaskResult
unfolding find_first
execute c conversation_id kind action command_id now s =
    let key = command_key conversation_id command_id in
    elim (find_first (is_command key) s.commands) [
      | some previous ↦ (s, previous.result)
      | none ↦ elim (apply c conversation_id kind action key now s) [
        | throws x ↦
            let result : TaskResult = record { text = x; is_error = true } in
            (journal key result s, result)
        | returns (s', text) ↦
            let result : TaskResult = record { text = text; is_error = false } in
            (journal key result s', result)
      ]
    ]
