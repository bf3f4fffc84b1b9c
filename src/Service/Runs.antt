-- ===== src/Service/Runs.antt =====
-- The runs of a conversation: packages/openhands-agent-server/src/eventService.ts, run,
-- runAndPublish, pause, interrupt and close, between one await and the next. The agent library's run,
-- the pool's answers and the failures of writes are inputs. `taken` and `released` count the slots
-- that the conversation got from the pool and gave back.
use smolpaws.Base.{
  ℕ, ◌+◌, String, Bool, true, false, not, ◌||◌, ◌&&◌, Option, none, some, List, [], ◌∷◌, ◌++◌, ◌==◌,
  ◌=?◌, if◌then◌else◌,
}
use smolpaws.Service.{Event, ExecutionStatus, latest_user_message_id}
use smolpaws.Service.Send.{after_message}

-- Where the ticket stands, with the generation it began in, and whether it holds a slot.
pub data Phase : Type 0 where
  at_rest : Phase
  at_top : ℕ → Bool → Phase
  waiting : ℕ → Phase
  preparing : ℕ → Phase
  executing : ℕ → Phase
  publishing : ℕ → Bool → Bool → Phase

pub record Runner : Type 0 where
  pub phase : Phase
  pub closing : Bool
  pub stop_generation : ℕ
  pub rerun_requested : Bool
  pub selection_requested : Bool
  pub last_step_user_message_id : Option String
  pub status : ExecutionStatus
  pub events : List Event
  pub taken : ℕ
  pub released : ℕ

unfoldable pub same_id : Option String → Option String → Bool
same_id none none = true
same_id none (some b) = false
same_id (some a) none = false
same_id (some a) (some b) = a == b

unfoldable pub is_unread : Runner → Bool
unfolding same_id latest_user_message_id
is_unread s = not (same_id (latest_user_message_id s.events) s.last_step_user_message_id)

unfoldable pub needs_continuation : Runner → Bool
unfolding is_unread
needs_continuation s = s.rerun_requested && is_unread s

unfoldable pub is_stopped : ℕ → Runner → Bool
is_stopped generation s = s.closing || not (generation =? s.stop_generation)

unfoldable pub release_slot : Bool → Runner → Runner
release_slot held s = if held then record s { released = s.released + 1 } else s

pub data RunError : Type 0 where
  closing already_running limit_exceeded : RunError

pub data Requested : Type 0 where
  started : Runner → Requested
  refused : RunError → Runner → Requested

-- `granted` is the answer of the pool to a call that does not wait.
unfoldable pub request_run : Bool → Bool → Runner → Requested
request_run wait_for_capacity granted s =
    if s.closing then refused RunError.closing s else elim s.phase [
      | at_rest ↦
          let selected : Runner = record s { selection_requested = true } in
          if wait_for_capacity
          then started (record selected { phase = at_top s.stop_generation false })
          else if granted
          then started
              (record selected { phase = at_top s.stop_generation true; taken = s.taken + 1 })
          else refused RunError.limit_exceeded selected
      | _ ↦ refused RunError.already_running (record s { selection_requested = true })
    ]

unfoldable pub runner_of : Requested → Runner
runner_of (started s) = s
runner_of (refused e s) = s

-- The ticket is done: a message that is not read starts another.
unfoldable pub finish : ℕ → Bool → Runner → Runner
unfolding release_slot is_stopped needs_continuation request_run runner_of
finish generation held s =
    let rested : Runner = record (release_slot held s) { phase = at_rest } in
    if not (is_stopped generation rested) && needs_continuation rested
    then runner_of (request_run true false rested)
    else rested

unfoldable pub is_finished : ExecutionStatus → Bool
is_finished status = elim status [ ExecutionStatus.finished ↦ true | _ ↦ false ]

-- An iteration begins: a finished conversation with an unread message is idle again.
unfoldable pub begin_iteration : ℕ → Runner → Runner
unfolding is_unread is_finished
begin_iteration generation s = record s {
  phase = preparing generation;
  rerun_requested = false;
  status = if is_finished s.status && is_unread s then ExecutionStatus.idle else s.status;
}

unfoldable pub loop_top : ℕ → Bool → Runner → Runner
loop_top generation held s =
    if is_stopped generation s
    then finish generation held s
    else if held
    then begin_iteration generation s
    else record s { phase = waiting generation }

-- The pool's answer to a ticket that waits: a slot, or an abort.
unfoldable pub capacity : ℕ → Bool → Runner → Runner
capacity generation granted s =
    if granted
    then (let got : Runner = record s { taken = s.taken + 1 } in
        if is_stopped generation got
        then finish generation true got
        else begin_iteration generation got)
    else finish generation false s

-- How the agent library's run ended: the id of the last user message that it read, or a throw.
pub data RunEnd : Type 0 where
  read_up_to : Option String → RunEnd
  threw : RunEnd

unfoldable pub keeps_slot : ℕ → Bool → Runner → Bool
unfolding is_stopped needs_continuation
keeps_slot generation failed s =
    not (failed || is_stopped generation s || not (needs_continuation s))

-- The slot is given back before the slow writes, unless an unread message continues the chain.
unfoldable pub run_ended : ℕ → Bool → Runner → Runner
unfolding keeps_slot release_slot
run_ended generation failed s =
    let kept = keeps_slot generation failed s in
    record (release_slot (not kept) s) {
      phase = publishing generation kept failed;
      status = if failed then ExecutionStatus.error else s.status;
    }

unfoldable pub prepared : ℕ → Bool → Runner → Runner
prepared generation ready s =
    if ready
    then if is_stopped generation s
      then finish generation true s
      else record s { phase = executing generation }
    else run_ended generation true (record s { rerun_requested = false })

unfoldable pub executed : ℕ → RunEnd → Runner → Runner
unfolding run_ended
executed generation (read_up_to id) s =
    run_ended generation false (record s { last_step_user_message_id = id })
executed generation threw s = run_ended generation true (record s { rerun_requested = false })

-- The events are written and published, or that throws.
unfoldable pub published : ℕ → Bool → Bool → Bool → Runner → Runner
published generation held failed ok s =
    if ok
    then if failed
      then finish generation held (record s { rerun_requested = false })
      else if needs_continuation s
      then record s { phase = at_top generation held }
      else finish generation held s
    else finish generation held s

-- A message that was sent to run, and a run under way: the run is to go on with it.
unfoldable pub remember : Requested → Runner
remember (started s) = s
remember (refused RunError.closing s) = s
remember (refused RunError.already_running s) = record s { rerun_requested = true }
remember (refused RunError.limit_exceeded s) = s

unfoldable pub is_of_user : Event → Bool
is_of_user e = e.kind == "MessageEvent" && e.source == "user"

-- The message is in the log, and has woken the conversation.
unfoldable pub with_message : Event → Runner → Runner
unfolding is_of_user after_message
with_message e s = record s {
  events = s.events ++ e ∷ [];
  status = after_message (is_of_user e) s.status;
}

unfoldable pub after_append : Bool → Bool → Event → Runner → Runner
unfolding request_run remember with_message
after_append runs granted e s =
    if runs then remember (request_run false granted (with_message e s)) else with_message e s

-- `stopScheduledWork`, by a pause, an interruption or, with the flag, the close.
unfoldable pub stop_scheduled_work : Bool → Runner → Runner
stop_scheduled_work closes s = record s {
  closing = closes || s.closing;
  stop_generation = s.stop_generation + 1;
  rerun_requested = false;
}

-- What happens next: the ticket's await ends, or another caller acts.
pub data Input : Type 0 where
  go : Input
  answer : Bool → Input
  ended : RunEnd → Input
  run : Bool → Bool → Input
  stop : Bool → Input
  append : Bool → Bool → Event → Input

unfoldable pub resume : Input → Phase → Runner → Runner
unfolding loop_top capacity prepared executed published
resume go (at_top generation held) s = loop_top generation held s
resume (answer ok) (waiting generation) s = capacity generation ok s
resume (answer ok) (preparing generation) s = prepared generation ok s
resume (ended r) (executing generation) s = executed generation r s
resume (answer ok) (publishing generation held failed) s = published generation held failed ok s
resume _ _ s = s

unfoldable pub act : Input → Runner → Runner
unfolding request_run runner_of resume after_append stop_scheduled_work
act (run wait granted) s = runner_of (request_run wait granted s)
act (stop closes) s = stop_scheduled_work closes s
act (append runs granted e) s = after_append runs granted e s
act go s = resume go s.phase s
act (answer ok) s = resume (answer ok) s.phase s
act (ended r) s = resume (ended r) s.phase s
