-- ===== src/Turns.antt =====
-- The turns of a conversation: apps/agent-server/src/runner/turnState.ts, the state, its reads and
-- its updates. A turn that a function mutates in place is a function of that turn here; the caller
-- puts it back at its place.
pub mod Name
pub mod Persist
pub mod Writable
pub mod RoundTrip
pub mod Processor
pub mod Submit
pub mod Steps
pub mod Keyed
pub mod Idempotent
pub mod Submitted
pub mod Orderly
pub mod Sequence
use smolpaws.Base.{
  ℕ, ◌+◌, String, Bool, true, false, not, ◌||◌, Option, none, some, List, [], ◌∷◌, ◌++◌, ◌==◌,
  if◌then◌else◌, find_first,
}
use smolpaws.Json.{Json}
use smolpaws.Turns.Name.{turn_id_of}

pub data Status : Type 0 where
  running completed waiting_for_confirmation paused error stuck : Status

-- `content` and `extended_content` hold the text parts as JSON objects, with every field they had.
pub record TurnMessage : Type 0 where
  pub id : String
  pub idempotency_key : String
  pub accepted_at : String
  pub content : List Json
  pub extended_content : Option (List Json)
  pub event_id : Option String

pub record Turn : Type 0 where
  pub id : String
  pub sequence : ℕ
  pub status : Status
  pub started_at : String
  pub updated_at : String
  pub completed_at : Option String
  pub start_event_id : Option String
  pub end_event_id : Option String
  pub final_reply_event_id : Option String
  pub error_code : Option String
  pub error_detail : Option String
  pub delivery_owner_id : Option String
  pub delivery_owner_claimed_at : Option String
  pub messages : List TurnMessage

pub record TurnState : Type 0 where
  pub next_sequence : ℕ
  pub turns : List Turn

unfoldable pub create_default_turn_state : TurnState
create_default_turn_state = record { next_sequence = 1; turns = [] }

-- A string option as a condition: absent and empty are both false.
unfoldable pub is_set : Option String → Bool
is_set none = false
is_set (some s) = not (s == "")

unfoldable pub is_turn_terminal_status : Status → Bool
is_turn_terminal_status Status.running = false
is_turn_terminal_status Status.completed = true
is_turn_terminal_status Status.waiting_for_confirmation = true
is_turn_terminal_status Status.paused = true
is_turn_terminal_status Status.error = true
is_turn_terminal_status Status.stuck = true

unfoldable pub last_of : List Turn → Option Turn
last_of [] = none
last_of (t ∷ []) = some t
last_of (t ∷ u ∷ ts) = last_of (u ∷ ts)

unfoldable pub get_latest_turn : TurnState → Option Turn
unfolding last_of
get_latest_turn s = last_of s.turns

unfoldable pub get_turn_by_id : TurnState → String → Option Turn
unfolding find_first
get_turn_by_id s turn_id = find_first (λ t. t.id == turn_id) s.turns

unfoldable pub get_active_turn : TurnState → Option Turn
unfolding get_latest_turn is_turn_terminal_status
get_active_turn s = elim (get_latest_turn s) [
  | none ↦ none
  | some t ↦ if is_turn_terminal_status t.status then none else some t
]

unfoldable pub message_in : String → Turn → Option TurnMessage
unfolding find_first
message_in key t = find_first (λ m. m.idempotency_key == key) t.messages

unfoldable pub find_in_turns : String → List Turn → Option (Turn × TurnMessage)
unfolding message_in
find_in_turns key [] = none
find_in_turns key (t ∷ ts) =
    let rest = find_in_turns key ts in
    elim (message_in key t) [ some m ↦ some (t, m) | none ↦ rest ]

unfoldable pub find_message_by_idempotency_key : TurnState → String → Option (Turn × TurnMessage)
unfolding find_in_turns
find_message_by_idempotency_key s key = find_in_turns key s.turns

-- The turn that is created, and the state in which it stands last.
unfoldable pub create_running_turn : String → TurnState → String → Option String → Turn × TurnState
unfolding is_set turn_id_of
create_running_turn suffix s now owner =
    let turn : Turn = record {
      id = turn_id_of s.next_sequence suffix;
      sequence = s.next_sequence;
      status = Status.running;
      started_at = now;
      updated_at = now;
      completed_at = none;
      start_event_id = none;
      end_event_id = none;
      final_reply_event_id = none;
      error_code = none;
      error_detail = none;
      delivery_owner_id = if is_set owner then owner else none;
      delivery_owner_claimed_at = if is_set owner then some now else none;
      messages = [];
    } in
    (turn, record { next_sequence = s.next_sequence + 1; turns = s.turns ++ turn ∷ [] })

unfoldable pub append_accepted_turn_message : TurnMessage → Turn → Turn
append_accepted_turn_message m t = record t {
  messages = t.messages ++ m ∷ [];
  updated_at = m.accepted_at;
}

pub record StatusOptions : Type 0 where
  pub end_event_id : Option String
  pub final_reply_event_id : Option String
  pub error_code : Option String
  pub error_detail : Option String

-- What is given and not empty replaces the old value.
unfoldable pub given : Option String → Option String → Option String
unfolding is_set
given new old = if is_set new then new else old

unfoldable pub update_turn_status : Status → String → StatusOptions → Turn → Turn
unfolding is_turn_terminal_status given
update_turn_status status now options t = record t {
  status = status;
  updated_at = now;
  completed_at = if is_turn_terminal_status status then some now else t.completed_at;
  end_event_id = given options.end_event_id t.end_event_id;
  final_reply_event_id = given options.final_reply_event_id t.final_reply_event_id;
  error_code = given options.error_code t.error_code;
  error_detail = given options.error_detail t.error_detail;
}

unfoldable pub is_owned_by : String → Option String → Bool
unfolding is_set
is_owned_by owner current =
    not (is_set current) || elim current [ none ↦ false | some c ↦ c == owner ]

-- Whether the caller owns the delivery of the turn from now on.
unfoldable pub assign_delivery_owner : Option String → String → Turn → Turn × Bool
unfolding is_set is_owned_by
assign_delivery_owner none now t = (t, false)
assign_delivery_owner (some owner) now t =
    if owner == ""
    then (t, false)
    else if is_owned_by owner t.delivery_owner_id
    then (
      record t {
        delivery_owner_id = some owner;
        delivery_owner_claimed_at = some now;
        updated_at = now;
      },
      true,
    )
    else (t, false)
