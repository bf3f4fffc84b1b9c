-- ===== src/Scheduler/Observed.antt =====
-- Observing an event leaves the journal of commands: `observe` of src/coordinator/taskScheduler.ts.
use smolpaws.Base.{
  ◌≡◌, refl, ◌∙◌, ℕ, String, List, [], ◌∷◌, find_first, select, Bool-cases, Option-cases, inl, inr,
  ◌==◌, ◌&&◌, ◌||◌, not,
}
use smolpaws.Relay.Events.{Event}
use smolpaws.Scheduler.{ScheduledRun, Scheduler, Attempt, returns, throws, Clock, is_task, open_in}
use smolpaws.Scheduler.Journaled.{Attempt-cases}
use smolpaws.Scheduler.Runs.{
  is_started, is_terminal, is_failure, result_of, start_run, end_run, status_before, next_after,
  observe_run, observe_runs, observe_event,
}

KeepsCommands : Scheduler → Attempt Scheduler → Type 0
KeepsCommands s (returns s') = s'.commands ≡ s.commands
KeepsCommands s (throws x) = Unit {0}

start_run-commands :
    (event_id : String → String → String) (event : Event) (run : ScheduledRun) (s : Scheduler)
    → (start_run event_id event run s).commands ≡ s.commands
unfolding start_run
start_run-commands event_id event run s =
    elim (Bool-cases (event.id == event_id run.lane.lane.platform run.source_id)) [
      | inl q ↦ rw (q, start_run) refl
      | inr q ↦ rw (q, start_run) refl
    ]

end_run-KeepsCommands :
    (c : Clock) (result : String) (event : Event) (run : ScheduledRun) (now : ℕ) (s : Scheduler)
    → KeepsCommands s (end_run c result event run now s)
unfolding end_run KeepsCommands
end_run-KeepsCommands c result event run now s =
    elim (Option-cases (find_first (is_task run.task_id) s.tasks)) [
      | inl q ↦ rw (q, end_run) tt
      | inr (task, q) ↦
          elim (Attempt-cases (
            next_after c (not (task.schedule_type == "once")) (status_before event task) task
              now)) [ inl (x, r) ↦ rw (q, r, end_run) tt | inr (next, r) ↦ rw (q, r, end_run) refl ]
    ]

module _ (c : Clock) (event_id : String → String → String) (cut : String → String)
    (event : Event) where
  observe_run-KeepsCommands :
      (run : ScheduledRun) (now : ℕ) (s : Scheduler)
      → KeepsCommands s (observe_run c event_id cut event run now s)
  unfolding observe_run KeepsCommands
  observe_run-KeepsCommands run now s =
      let begun = start_run-commands event_id event run s in
      elim (Bool-cases (is_started run.status && (is_terminal event || is_failure event))) [
        | inl q ↦
            rw (q, observe_run)
              (from_begun begun
                (end_run c (result_of c cut event) event run now (start_run event_id event run s))
                (end_run-KeepsCommands c (result_of c cut event) event run now
                  (start_run event_id event run s)))
        | inr q ↦ rw (q, observe_run) begun
      ]
    where
      from_begun :
          (start_run event_id event run s).commands ≡ s.commands
          → (r : Attempt Scheduler) → KeepsCommands (start_run event_id event run s) r
          → KeepsCommands s r
      from_begun b (returns s') k = k ∙ b
      from_begun b (throws x) k = tt

  observe_runs-commands :
      (runs : List ScheduledRun) (now : ℕ) (s : Scheduler)
      → (observe_runs c event_id cut event runs now s).0.commands ≡ s.commands
  unfolding observe_runs KeepsCommands
  observe_runs-commands [] now s = refl
  observe_runs-commands (run ∷ runs) now s =
      elim (Attempt-cases (observe_run c event_id cut event run now s)) [
        | inl (x, q) ↦ rw (q, observe_runs) (start_run-commands event_id event run s)
        | inr (s', q) ↦
            let kept : s'.commands ≡ s.commands = rw q at (observe_run-KeepsCommands run now s) in
            rw (q, observe_runs) (observe_runs-commands runs now s' ∙ kept)
      ]

  pub observe_event-commands :
      (conversation_id : String) (now : ℕ) (s : Scheduler)
      → (observe_event c event_id cut conversation_id event now s).0.commands ≡ s.commands
  unfolding observe_event
  observe_event-commands conversation_id now s =
      observe_runs-commands (select (open_in conversation_id) s.runs) now s
