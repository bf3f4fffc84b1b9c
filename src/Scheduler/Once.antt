-- ===== src/Scheduler/Once.antt =====
-- A command is carried out once: `execute` of src/coordinator/taskScheduler.ts.
use smolpaws.Base.{
  ℕ, ◌≡◌, refl, ◌∙◌, String, none, some, List, [], ◌∷◌, find_first, any_where, select, ==→eq,
  eq_refl, Bool-cases, Option-cases, inl, inr, ◌==◌, ◌&&◌,
}
use smolpaws.Json.{Fields}
use smolpaws.Scheduler.{
  ScheduledLane, ScheduledTask, TaskResult, CommandResultRow, Scheduler, Clock, get_lane, register,
  reserve, reserve_run, reserve_all, reserve_due, due, mark_enqueued, is_due, open_in, is_group,
}
use smolpaws.Scheduler.Tasks.{apply, execute, is_command, command_key}
use smolpaws.Relay.Events.{Event}
use smolpaws.Scheduler.Runs.{observe_event}
use smolpaws.Scheduler.Observed.{observe_event-commands}
use smolpaws.Scheduler.Journaled.{Attempt-cases, Keeps, apply-Keeps}

-- The journal answers the command.
abbrev Answers : String → TaskResult → List CommandResultRow → Type 0
Answers key result rows =
    (row : CommandResultRow) × (find_first (is_command key) rows ≡ some row) × (row.result ≡ result)

new-Answers :
    (key : String) (result : TaskResult) (rows : List CommandResultRow)
    → Answers key result (record { id = key; result = result } ∷ rows)
unfolding find_first
new-Answers key result rows =
    (record { id = key; result = result }, rw (eq_refl key, find_first) refl, refl)

added-Answers :
    (key : String) (result : TaskResult) (new : CommandResultRow) (rows : List CommandResultRow)
    → find_first (is_command new.id) rows ≡ none
    → Answers key result rows
    → Answers key result (new ∷ rows)
unfolding find_first
added-Answers key result new rows free (row, q, e) = elim (Bool-cases (new.id == key)) [
  | inl h ↦ absurd (cc (rw (==→eq new.id key h) at free, q))
  | inr h ↦ (row, rw (h, find_first) q, e)
]

module _ (c : Clock) (conversation_id : String) (kind : String) (action : Fields)
    (command_id : String) (now : ℕ) (s : Scheduler) where
  abbrev own_key : String
  own_key = command_key conversation_id command_id

  execute-Answers :
      Answers own_key
        (execute c conversation_id kind action command_id now s).1
        (execute c conversation_id kind action command_id now s).0.commands
  unfolding execute find_first
  execute-Answers = elim (Option-cases (find_first (is_command own_key) s.commands)) [
    | inr (row, q) ↦ rw (q, execute) (row, q, refl)
    | inl q ↦ elim (Attempt-cases (apply c conversation_id kind action own_key now s)) [
      | inl (x, r) ↦ rw (q, r, execute) (new-Answers own_key _ _)
      | inr ((s', text), r) ↦ rw (q, r, execute) (new-Answers own_key _ _)
    ]
  ]

  execute-keeps :
      (other : String) (result : TaskResult)
      → Answers other result s.commands
      → Answers other result (execute c conversation_id kind action command_id now s).0.commands
  unfolding execute Keeps
  execute-keeps other result h = elim (Option-cases (find_first (is_command own_key) s.commands)) [
    | inr (row, q) ↦ rw (q, execute) h
    | inl q ↦ elim (Attempt-cases (apply c conversation_id kind action own_key now s)) [
      | inl (x, r) ↦ rw (q, r, execute) (added-Answers other result _ s.commands q h)
      | inr ((s', text), r) ↦
          let same : s'.commands ≡ s.commands =
            rw r at (apply-Keeps c conversation_id kind action own_key now s) in
          rw (q, r, execute) (added-Answers other result _ s'.commands (rw same q) (rw same h))
    ]
  ]

reserve-commands :
    (c : Clock) (t : ScheduledTask) (s : Scheduler) → (reserve c t s).commands ≡ s.commands
unfolding reserve reserve_run register
reserve-commands c t s =
    elim (Bool-cases (is_group t.context_mode && any_where (open_in t.conversation_id) s.runs)) [
      | inl b ↦ rw (b, reserve) refl
      | inr b ↦ elim (Option-cases (get_lane t.conversation_id s)) [
        | inl q ↦ rw (b, q, reserve) refl
        | inr (origin, q) ↦ elim (Option-cases t.next_run) [
          | inl r ↦ rw (b, q, r, reserve) refl
          | inr (next, r) ↦ rw (b, q, r, reserve) refl
        ]
      ]
    ]

reserve_all-commands :
    (c : Clock) (ts : List ScheduledTask) (s : Scheduler)
    → (reserve_all c ts s).commands ≡ s.commands
unfolding reserve_all
reserve_all-commands c [] s = refl
reserve_all-commands c (t ∷ ts) s =
    reserve_all-commands c ts (reserve c t s) ∙ reserve-commands c t s

-- What the bridges do with one scheduler, in any order: every method that writes, but the import of
-- a legacy state. The first two arguments of `observes` are deterministicEventId and the cut of a
-- result's text.
pub data SchedulerOp : Type 0 where
  executes : String → String → Fields → String → ℕ → SchedulerOp
  takes_due : String → ℕ → SchedulerOp
  enqueues : String → SchedulerOp
  registers : ScheduledLane → SchedulerOp
  observes : (String → String → String) → (String → String) → String → Event → ℕ → SchedulerOp

unfoldable pub scheduler_step : Clock → SchedulerOp → Scheduler → Scheduler
scheduler_step c (executes id kind action command_id now) s =
    (execute c id kind action command_id now s).0
scheduler_step c (takes_due platform now) s = (due c platform now s).0
scheduler_step c (enqueues id) s = mark_enqueued id s
scheduler_step c (registers lane) s = register lane s
scheduler_step c (observes event_id cut id event now) s =
    (observe_event c event_id cut id event now s).0

unfoldable pub scheduler_run : Clock → List SchedulerOp → Scheduler → Scheduler
scheduler_run c [] s = s
scheduler_run c (op ∷ ops) s = scheduler_run c ops (scheduler_step c op s)

scheduler_step-Answers :
    (c : Clock) (op : SchedulerOp) (s : Scheduler) (key : String) (result : TaskResult)
    → Answers key result s.commands
    → Answers key result (scheduler_step c op s).commands
unfolding scheduler_step due reserve_due mark_enqueued register
scheduler_step-Answers c (executes id kind action command_id now) s key result h =
    execute-keeps c id kind action command_id now s key result h
scheduler_step-Answers c (takes_due platform now) s key result h =
    rw (reserve_all-commands c (select (is_due c platform now s) s.tasks) s) h
scheduler_step-Answers c (enqueues id) s key result h = h
scheduler_step-Answers c (registers lane) s key result h = h
scheduler_step-Answers c (observes event_id cut id event now) s key result h =
    rw (observe_event-commands c event_id cut event id now s) h

scheduler_run-Answers :
    (c : Clock) (ops : List SchedulerOp) (s : Scheduler) (key : String) (result : TaskResult)
    → Answers key result s.commands
    → Answers key result (scheduler_run c ops s).commands
unfolding scheduler_run
scheduler_run-Answers c [] s key result h = h
scheduler_run-Answers c (op ∷ ops) s key result h =
    scheduler_run-Answers c ops (scheduler_step c op s) key result
      (scheduler_step-Answers c op s key result h)

-- When a command was executed, successfully or with an error, executing the same command id of the
-- same conversation again, after any commands, takings of due occurrences, enqueuings, registrations
-- and observed events in between and with whatever action it then carries, returns the same result
-- and changes nothing.
pub executed_once :
    (c : Clock) (id kind : String) (action : Fields) (command_id : String) (now : ℕ) (s : Scheduler)
    (ops : List SchedulerOp) (kind' : String) (action' : Fields) (later : ℕ)
    → let first = execute c id kind action command_id now s in
      let s' = scheduler_run c ops first.0 in
      execute c id kind' action' command_id later s' ≡ (s', first.1)
unfolding execute
executed_once c id kind action command_id now s ops kind' action' later =
    let first = execute c id kind action command_id now s in
    let (row, q, e) =
      scheduler_run-Answers c ops first.0 (command_key id command_id) first.1
        (execute-Answers c id kind action command_id now s) in
    rw (q, e, execute) refl
