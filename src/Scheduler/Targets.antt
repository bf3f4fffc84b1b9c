-- ===== src/Scheduler/Targets.antt =====
-- The tasks and lanes a command may name: src/coordinator/taskScheduler.ts.
use smolpaws.Base.{
  ℕ, ◌+◌, String, Bool, true, false, Option, none, some, List, [], ◌∷◌, any_where, select, ◌==◌,
  ◌=?◌, ◌&&◌, ◌||◌, not, if◌then◌else◌,
}
use smolpaws.Scheduler.{
  ScheduledLane, ScheduledTask, TaskStatus, cancelled, ContextMode, group, isolated, Scheduler,
  Attempt, returns, throws, Clock, is_task,
}

abbrev interval_error : String
interval_error = "Interval must be a positive integer in milliseconds"

unfoldable pub next_time : Clock → String → String → ℕ → Attempt String
next_time c type value now =
    if type == "interval"
    then (elim (c.safe_integer value) [
      | none ↦ throws interval_error
      | some ms ↦ if ms =? 0 then throws interval_error else returns (c.iso (now + ms))
    ])
    else if type == "cron"
    then c.cron_after value now
    else if type == "once"
    then (elim (c.date_of value) [
      | none ↦ throws "Invalid schedule timestamp"
      | some date ↦ returns date
    ])
    else throws "Invalid schedule timestamp"

abbrev pub is_visible : String → String → Bool
is_visible scope target = scope == "main" || scope == target

abbrev pub is_cancelled : TaskStatus → Bool
is_cancelled cancelled = true
is_cancelled _ = false

unfoldable pub insert_by_id :
    (String → String → Bool) → ScheduledTask → List ScheduledTask → List ScheduledTask
insert_by_id early t [] = t ∷ []
insert_by_id early t (x ∷ xs) =
    let rest = insert_by_id early t xs in if early t.id x.id then t ∷ x ∷ xs else x ∷ rest

unfoldable pub order_by_id : (String → String → Bool) → List ScheduledTask → List ScheduledTask
unfolding insert_by_id
order_by_id early [] = []
order_by_id early (t ∷ ts) = insert_by_id early t (order_by_id early ts)

unfoldable pub list_tasks : Clock → ScheduledLane → Scheduler → String
unfolding select order_by_id
list_tasks c source s = c.print_tasks (
    select (λ t. is_visible source.scope_id t.scope_id)
      (order_by_id c.early (select (λ t. not (is_cancelled t.status)) s.tasks)))

-- The lane of a scope with the least conversation id, isolated runs left out.
unfoldable pub least_lane : (String → String → Bool) → List ScheduledLane → Option ScheduledLane
least_lane early [] = none
least_lane early (l ∷ lanes) = elim (least_lane early lanes) [
  | none ↦ some l
  | some m ↦ if early l.conversation_id m.conversation_id then some l else some m
]

unfoldable pub target_of : Clock → ScheduledLane → String → Scheduler → Attempt ScheduledLane
unfolding select least_lane
target_of c source scope s =
    if scope == source.scope_id
    then returns source
    else elim (least_lane c.early
        (select (λ l. l.scope_id == scope && not (c.is_scheduled_key l.lane.lane_key)) s.lanes)) [
          | none ↦ throws "Target scope is not registered"
          | some target ↦ returns target
        ]

abbrev pub scope_of : Option String → String → String
scope_of (some scope) own = scope
scope_of none own = own

abbrev pub mode_of : Option String → ContextMode
mode_of (some mode) = if mode == "group" then group else isolated
mode_of none = isolated

-- INSERT INTO scheduler_tasks, with its primary key.
unfoldable pub insert_task : ScheduledTask → Scheduler → Attempt Scheduler
unfolding any_where
insert_task t s =
    if any_where (is_task t.id) s.tasks
    then throws "UNIQUE constraint failed: scheduler_tasks.id"
    else returns (record s { tasks = t ∷ s.tasks })
