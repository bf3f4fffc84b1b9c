-- ===== src/Scheduler.antt =====
-- src/coordinator/taskScheduler.ts: scheduled tasks and the runs of their occurrences. The tables
-- are lists of rows, the newest first, and the texts of times are kept.
pub mod Once
pub mod Journaled
pub mod Tasks
pub mod Targets
pub mod Runs
pub mod Observed
use smolpaws.Base.{
  ℕ, ◌+◌, String, Bool, true, false, Option, none, some, List, [], ◌∷◌, any_where, select,
  find_first, update_where, ◌==◌, ◌=?◌, ◌&&◌, ◌||◌, not, leb, if◌then◌else◌,
}
use Prim.Native.String.{◌++◌}
use smolpaws.Json.{Json, object, Fields, end, field}
use smolpaws.Work.{LaneDescriptor}

pub record ScheduledLane : Type 0 where
  pub conversation_id : String
  pub lane : LaneDescriptor
  pub scope_id : String
  pub working_dir : String
  pub relay_db_path : String
  pub defaults : Json

pub data ContextMode : Type 0 where
  group isolated : ContextMode

pub data TaskStatus : Type 0 where
  active paused completed cancelled : TaskStatus

pub data RunStatus : Type 0 where
  ready enqueued started done failed cancelled_run : RunStatus

pub record ScheduledTask : Type 0 where
  pub id : String
  pub conversation_id : String
  pub scope_id : String
  pub prompt : String
  pub schedule_type : String
  pub schedule_value : String
  pub context_mode : ContextMode
  pub next_run : Option String
  pub status : TaskStatus
  pub last_run : Option String
  pub last_result : Option String

pub record ScheduledRun : Type 0 where
  pub id : String
  pub task_id : String
  pub conversation_id : String
  pub source_id : String
  pub status : RunStatus
  pub scheduled_at : String
  pub prompt : String
  pub lane : ScheduledLane

pub record TaskResult : Type 0 where
  pub text : String
  pub is_error : Bool

-- A row of `scheduler_commands`.
pub record CommandResultRow : Type 0 where
  pub id : String
  pub result : TaskResult

pub record Scheduler : Type 0 where
  pub lanes : List ScheduledLane
  pub tasks : List ScheduledTask
  pub commands : List CommandResultRow
  pub runs : List ScheduledRun

-- A call that returns, or throws an error with this message.
pub data Attempt {ℓ} (A : Type ℓ) : Type ℓ where
  returns : A → Attempt A
  throws : String → Attempt A

-- What the scheduler is given. `iso` prints the clock, `early` compares two texts as SQLite does,
-- `cron_after` and `date_of` are the parsers of cron expressions and dates, `safe_integer` is the
-- number of a text where it is a safe integer that is not negative, `to_text` is `String(value)`,
-- `is_scheduled_key` is the LIKE test, and `print_tasks` and `print_created` are `JSON.stringify`.
pub record Clock : Type 0 where
  pub iso : ℕ → String
  pub early : String → String → Bool
  pub cron_after : String → ℕ → Attempt String
  pub date_of : String → Option String
  pub safe_integer : String → Option ℕ
  pub to_text : Option Json → String
  pub is_scheduled_key : String → Bool
  pub print_tasks : List ScheduledTask → String
  pub print_created : String → String → String
  pub derive_conversation_id : String → String

abbrev pub is_active : TaskStatus → Bool
is_active active = true
is_active _ = false

abbrev pub is_group : ContextMode → Bool
is_group group = true
is_group isolated = false

-- status IN ('ready', 'enqueued', 'started').
abbrev pub is_running : RunStatus → Bool
is_running ready = true
is_running enqueued = true
is_running started = true
is_running _ = false

abbrev pub is_ready_run : RunStatus → Bool
is_ready_run ready = true
is_ready_run _ = false

abbrev pub has_conversation : String → ScheduledLane → Bool
has_conversation id l = l.conversation_id == id

unfoldable pub put_lane : ScheduledLane → List ScheduledLane → List ScheduledLane
put_lane value [] = value ∷ []
put_lane value (l ∷ lanes) =
    let rest = put_lane value lanes in
    if has_conversation value.conversation_id l then value ∷ lanes else l ∷ rest

unfoldable pub register : ScheduledLane → Scheduler → Scheduler
unfolding put_lane
register value s = record s { lanes = put_lane value s.lanes }

unfoldable pub get_lane : String → Scheduler → Option ScheduledLane
unfolding find_first
get_lane id s = find_first (has_conversation id) s.lanes

-- A run of the conversation is open.
abbrev pub open_in : String → ScheduledRun → Bool
open_in id r = r.conversation_id == id && is_running r.status

abbrev pub open_of : String → ScheduledRun → Bool
open_of id r = r.task_id == id && is_running r.status

-- t.status='active' AND t.next_run IS NOT NULL AND t.next_run<=now.
abbrev pub is_before : (String → String → Bool) → String → Option String → Bool
is_before early now none = false
is_before early now (some t) = early t now

abbrev pub on_platform : String → String → ScheduledLane → Bool
on_platform platform id l = l.conversation_id == id && l.lane.platform == platform

unfoldable pub is_due : Clock → String → ℕ → Scheduler → ScheduledTask → Bool
unfolding any_where
is_due c platform now s t =
    any_where (on_platform platform t.conversation_id) s.lanes
    && (is_active t.status && is_before c.early (c.iso now) t.next_run)

-- `${task.id}:${task.next_run}`.
abbrev pub run_id : ScheduledTask → String → String
run_id t next = t.id ++ ":" ++ next

unfoldable pub drop_field : String → Fields → Fields
drop_field key end = end
drop_field key (field k v fields) =
    let rest = drop_field key fields in if k == key then rest else field k v rest

-- `{ initial_message, id, ...defaults }`: the defaults are an object, by their type.
unfoldable pub without_identity : Json → Json
unfolding drop_field
without_identity (object fields) = object (drop_field "initial_message" (drop_field "id" fields))
without_identity _ = object end

-- The lane of an occurrence: the task's own, or an isolated one.
unfoldable pub lane_of : Clock → ScheduledTask → String → ScheduledLane → ScheduledLane
unfolding without_identity
lane_of c t id origin = elim t.context_mode [
  | group ↦ origin
  | isolated ↦ record origin {
    defaults = without_identity origin.defaults;
    conversation_id = c.derive_conversation_id id;
    lane = record origin.lane { lane_key = origin.lane.lane_key ++ ":scheduled:" ++ id };
  }
]

abbrev pub is_run : String → ScheduledRun → Bool
is_run id r = r.id == id

-- INSERT OR IGNORE.
unfoldable pub add_run : ScheduledRun → List ScheduledRun → List ScheduledRun
unfolding any_where
add_run r runs = if any_where (is_run r.id) runs then runs else r ∷ runs

abbrev pub is_task : String → ScheduledTask → Bool
is_task id t = t.id == id

unfoldable pub clear_next : String → List ScheduledTask → List ScheduledTask
clear_next id = update_where (is_task id) (λ t. record t { next_run = none })

-- One due task: its occurrence is reserved, unless its group has a run open.
unfoldable pub reserve_run : Clock → ScheduledTask → String → ScheduledLane → Scheduler → Scheduler
unfolding register lane_of add_run clear_next
reserve_run c t next origin s =
    let id = run_id t next in
    let lane = lane_of c t id origin in
    let s' = register lane s in
    record s' {
      runs =
          add_run
            (record {
              id = id;
              task_id = t.id;
              conversation_id = lane.conversation_id;
              source_id = "scheduled:" ++ id;
              status = ready;
              scheduled_at = next;
              prompt = t.prompt;
              lane = lane;
            })
            s'.runs;
      tasks = clear_next t.id s'.tasks;
    }

unfoldable pub reserve : Clock → ScheduledTask → Scheduler → Scheduler
unfolding get_lane any_where
reserve c t s =
    if is_group t.context_mode && any_where (open_in t.conversation_id) s.runs
    then s
    else elim (get_lane t.conversation_id s) [
      | none ↦ s
      | some origin ↦ elim t.next_run [ none ↦ s | some next ↦ reserve_run c t next origin s ]
    ]

unfoldable pub reserve_all : Clock → List ScheduledTask → Scheduler → Scheduler
reserve_all c [] s = s
reserve_all c (t ∷ ts) s = reserve_all c ts (reserve c t s)

-- The tasks are read before the loop.
unfoldable pub reserve_due : Clock → String → ℕ → Scheduler → Scheduler
unfolding is_due reserve_all select
reserve_due c platform now s = reserve_all c (select (is_due c platform now s) s.tasks) s

abbrev pub active_task : String → ScheduledTask → Bool
active_task id t = t.id == id && is_active t.status

-- ORDER BY scheduled_at.
unfoldable pub insert_by_time :
    (String → String → Bool) → ScheduledRun → List ScheduledRun → List ScheduledRun
insert_by_time early r [] = r ∷ []
insert_by_time early r (x ∷ xs) =
    let rest = insert_by_time early r xs in
    if early r.scheduled_at x.scheduled_at then r ∷ x ∷ xs else x ∷ rest

unfoldable pub order_by_time : (String → String → Bool) → List ScheduledRun → List ScheduledRun
unfolding insert_by_time
order_by_time early [] = []
order_by_time early (r ∷ rs) = insert_by_time early r (order_by_time early rs)

unfoldable pub ready_runs : Clock → String → Scheduler → List ScheduledRun
unfolding any_where select order_by_time
ready_runs c platform s = order_by_time c.early (
    select
      (λ r.
        is_ready_run r.status
        && (any_where (on_platform platform r.conversation_id) s.lanes
            && any_where (active_task r.task_id) s.tasks))
      s.runs)

unfoldable pub due : Clock → String → ℕ → Scheduler → Scheduler × List ScheduledRun
unfolding reserve_due ready_runs
due c platform now s = let s' = reserve_due c platform now s in (s', ready_runs c platform s')

unfoldable pub mark_enqueued : String → Scheduler → Scheduler
mark_enqueued id s = record s {
  runs =
      update_where (λ r. is_run id r && is_ready_run r.status) (λ r. record r { status = enqueued })
        s.runs;
}
