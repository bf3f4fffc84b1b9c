-- ===== src/Examples/Tasks.antt =====
-- A scheduled task, src/coordinator/taskScheduler.ts.
use smolpaws.Base.{◌≡◌, String, true, false, Option, none, some, [], ◌∷◌}
use Prim.Native.String.{◌++◌}
use smolpaws.Json.{Json, string, null, Fields, end, field}
use smolpaws.Scheduler.{ScheduledLane, Scheduler, Clock, throws}
use smolpaws.Scheduler.Tasks.{execute}
use smolpaws.Scheduler.Once.{takes_due, scheduler_run, executed_once}
use smolpaws.Examples.{lane, name_of}

abbrev text_of_value : Option Json → String
text_of_value (some (string s)) = s
text_of_value _ = "undefined"

abbrev clock : Clock
clock = record {
  iso = name_of;
  early = λ a b. true;
  cron_after = λ value now. throws "no cron";
  date_of = λ text. none;
  safe_integer = λ text. some 5;
  to_text = text_of_value;
  is_scheduled_key = λ key. false;
  print_tasks = λ tasks. "[]";
  print_created = λ id next. id ++ next;
  derive_conversation_id = λ id. id;
}

abbrev pub owner : ScheduledLane
owner = record {
  conversation_id = "conv";
  lane = lane;
  scope_id = "main";
  working_dir = "/";
  relay_db_path = "/relay.db";
  defaults = null;
}

abbrev empty_scheduler : Scheduler
empty_scheduler = record { lanes = owner ∷ []; tasks = []; commands = []; runs = [] }

abbrev action : Fields
action =
    field "prompt" (string "check")
      (field "schedule_type" (string "interval") (field "schedule_value" (string "5") end))

-- The tool call is retried after the first occurrence was taken.
executed_once_example :
    let first = execute clock "conv" "schedule_task" action "call1" 0 empty_scheduler in
    let s = scheduler_run clock (takes_due "slack" 9 ∷ []) first.0 in
    execute clock "conv" "schedule_task" action "call1" 10 s ≡ (s, first.1)
executed_once_example =
    executed_once clock "conv" "schedule_task" action "call1" 0 empty_scheduler
      (takes_due "slack" 9 ∷ []) "schedule_task" action 10
