-- ===== src/Examples/Turns.antt =====
-- A conversation's turns at work: apps/agent-server/src/runner/turnState.ts and
-- agent-server/conversationRuntime.ts.
use Prim.Native.String.{compare}
use smolpaws.Base.{◌≡◌, refl, subst, sym, true, none, some, [], ◌∷◌, arith}
use smolpaws.Json.{Json, string, object, field, end}
use smolpaws.Turns.{
  Status, TurnMessage, Turn, TurnState, create_default_turn_state, create_running_turn, last_of,
  get_active_turn,
}
use smolpaws.Turns.Persist.{
  Dates, is_text_content, read_persisted_turn_state, write_persisted_turn_state, past_sequences,
}
use smolpaws.Turns.Writable.{IsWritable, IsWritableTurn, IsWritableMessage}
use smolpaws.Turns.RoundTrip.{read-write_persisted}
use smolpaws.Turns.Processor.{materialize_active_turn, load_turn_state}
use smolpaws.Turns.Submit.{SubmitArgs, Draw, submit_turn_message}
use smolpaws.Turns.Steps.{
  Steps, done, then_step, materialize_active, restart, submit, AllReadBack, ReadsBack,
}
use smolpaws.Turns.Idempotent.{IsRepeat, submit_once}
use smolpaws.Turns.Sequence.{IsOrderly}
use smolpaws.Turns.Orderly.{steps-IsOrderly}

-- ISO dates compare as texts.
abbrev dates : Dates
dates = record { parse = λ s. none; locale_compare = compare }

abbrev hello : Json
hello = object (field "type" (string "text") (field "text" (string "hello") end))

abbrev first_try : SubmitArgs
first_try = record {
  idempotency_key = "k1";
  delivery_owner_id = some "bridge";
  content = hello ∷ [];
  extended_content = none;
  run = true;
}

abbrev retry : SubmitArgs
retry = record {
  idempotency_key = "k1";
  delivery_owner_id = none;
  content = hello ∷ [];
  extended_content = none;
  run = true;
}

abbrev morning : Draw
morning = record { now = "2026-01-02T08:00"; suffix = "ab12cd"; message_id = "m1" }

abbrev noon : Draw
noon = record { now = "2026-01-02T12:00"; suffix = "ef34gh"; message_id = "m2" }

abbrev begun : TurnState
begun = record { next_sequence = 1; turns = [] }

abbrev greeted : TurnMessage
greeted = record {
  id = "m1";
  idempotency_key = "k1";
  accepted_at = "2026-01-02T08:00";
  content = hello ∷ [];
  extended_content = none;
  event_id = some "m1";
}

abbrev greeting : Turn
greeting = record {
  id = "turn-1-ab12cd";
  sequence = 1;
  status = Status.running;
  started_at = "2026-01-02T08:00";
  updated_at = "2026-01-02T08:01";
  completed_at = none;
  start_event_id = some "m1";
  end_event_id = none;
  final_reply_event_id = none;
  error_code = none;
  error_detail = none;
  delivery_owner_id = some "bridge";
  delivery_owner_claimed_at = some "2026-01-02T08:00";
  messages = greeted ∷ [];
}

abbrev after_greeting : TurnState
after_greeting = record { next_sequence = 2; turns = greeting ∷ [] }

stored_and_moved :
    materialize_active_turn "2026-01-02T08:01" (submit_turn_message first_try morning begun).0
    ≡ after_greeting
unfolding submit_turn_message materialize_active_turn
stored_and_moved = refl

greeted-IsWritable : IsWritableMessage greeted
unfolding smolpaws.Text.trim is_text_content smolpaws.Turns.Persist.is_empty
greeted-IsWritable = record {
  named = (refl, refl);
  keyed = (refl, refl);
  dated = refl;
  content = ((refl, tt), refl);
  extended = tt;
  event = (refl, refl);
}

greeting-IsWritable : IsWritableTurn greeting
unfolding smolpaws.Text.trim
greeting-IsWritable = record {
  named = (refl, refl);
  numbered = omega arith;
  started = refl;
  updated = refl;
  start = (refl, refl);
  end = tt;
  reply = tt;
  code = tt;
  detail = tt;
  owner = (refl, refl);
  messages = (greeted-IsWritable, tt);
}

after_greeting-IsWritable : IsWritable dates after_greeting
unfolding past_sequences
after_greeting-IsWritable = record {
  each = (greeting-IsWritable, tt);
  ordered = tt;
  fresh = omega arith;
}

read-write_persisted_example :
    read_persisted_turn_state dates (some (write_persisted_turn_state after_greeting))
    ≡ after_greeting
read-write_persisted_example = read-write_persisted dates after_greeting after_greeting-IsWritable

-- The message is moved to the event log, then the server restarts.
abbrev restarted : TurnState
restarted = load_turn_state dates "2026-01-02T09:00" (
    some (
      write_persisted_turn_state (
        materialize_active_turn "2026-01-02T08:01"
          (submit_turn_message first_try morning begun).0)))

abbrev between : Steps dates (submit_turn_message first_try morning begun).0 restarted
between =
    then_step (then_step done (materialize_active "2026-01-02T08:01")) (restart "2026-01-02T09:00")

between-AllReadBack : AllReadBack dates between
unfolding AllReadBack ReadsBack
between-AllReadBack = (
  (tt, tt),
  subst (λ (s : TurnState). IsWritable dates s) (sym stored_and_moved) after_greeting-IsWritable,
)

submit_once_example :
    IsRepeat restarted
      (submit_turn_message first_try morning begun).1
      (submit_turn_message retry noon restarted)
submit_once_example =
    submit_once dates first_try retry morning noon begun between between-AllReadBack refl

abbrev from_begun : Steps dates begun restarted
from_begun =
    then_step
      (then_step (then_step done (submit first_try morning))
        (materialize_active "2026-01-02T08:01"))
      (restart "2026-01-02T09:00")

from_begun-AllReadBack : AllReadBack dates from_begun
unfolding AllReadBack ReadsBack
from_begun-AllReadBack = (
  ((tt, tt), tt),
  subst (λ (s : TurnState). IsWritable dates s) (sym stored_and_moved) after_greeting-IsWritable,
)

begun-IsOrderly : IsOrderly begun
begun-IsOrderly = record { ascend = omega arith; ended = tt }

steps-IsOrderly_example : IsOrderly restarted
steps-IsOrderly_example = steps-IsOrderly dates from_begun from_begun-AllReadBack begun-IsOrderly
