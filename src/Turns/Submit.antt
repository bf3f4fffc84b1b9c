-- ===== src/Turns/Submit.antt =====
-- How a message is submitted to a conversation:
-- apps/agent-server/src/agent-server/conversationRuntime.ts. A turn that the source holds by
-- reference is updated at its place in the list. The clock, the random texts and the ids are
-- arguments. Writing the file is left to the caller: what is written is the state after the part.
use smolpaws.Base.{String, Bool, true, false, Option, none, some, List, [], ◌∷◌, if◌then◌else◌}
use smolpaws.Json.{Json}
use smolpaws.Turns.{
  Status, TurnMessage, Turn, TurnState, is_turn_terminal_status, get_active_turn, message_in,
  find_message_by_idempotency_key, create_running_turn, append_accepted_turn_message,
  assign_delivery_owner,
}
use smolpaws.Turns.Persist.{is_empty}

-- The first turn of which the test holds is replaced.
unfoldable pub update_first : (Turn → Bool) → (Turn → Turn) → List Turn → List Turn
update_first p f [] = []
update_first p f (t ∷ ts) = let later = t ∷ update_first p f ts in if p t then f t ∷ ts else later

unfoldable pub update_last : (Turn → Turn) → List Turn → List Turn
update_last f [] = []
update_last f (t ∷ []) = f t ∷ []
update_last f (t ∷ u ∷ ts) = t ∷ update_last f (u ∷ ts)

pub record SubmitArgs : Type 0 where
  pub idempotency_key : String
  pub delivery_owner_id : Option String
  pub content : List Json
  pub extended_content : Option (List Json)
  pub run : Bool

-- What is awaited after the message is stored: the turn's processor, or its pending messages alone.
pub data Next : Type 0 where
  process materialize nothing : Next

pub record Submitted : Type 0 where
  pub turn_id : String
  pub message_event_id : String
  pub started_new_turn : Bool
  pub is_delivery_owner : Bool
  pub next : Next

-- The instant, the suffix of a new turn's name and the id of a new message.
pub record Draw : Type 0 where
  pub now : String
  pub suffix : String
  pub message_id : String

unfoldable pub has_key : String → Turn → Bool
unfolding message_in
has_key key t = elim (message_in key t) [ none ↦ false | some _ ↦ true ]

unfoldable pub next_of : SubmitArgs → Status → Next
unfolding is_turn_terminal_status
next_of a status =
    if is_turn_terminal_status status
    then Next.nothing
    else if a.run
    then Next.process
    else Next.materialize

-- A message whose key is known: its turn may get its delivery owner.
unfoldable pub resubmit : SubmitArgs → Draw → TurnState → Turn → TurnMessage → TurnState × Submitted
unfolding assign_delivery_owner has_key next_of update_first
resubmit a w s turn message = (
  record s {
    turns =
        update_first (has_key a.idempotency_key)
          (λ t. (assign_delivery_owner a.delivery_owner_id w.now t).0) s.turns;
  },
  record {
    turn_id = turn.id;
    message_event_id = message.id;
    started_new_turn = false;
    is_delivery_owner = (assign_delivery_owner a.delivery_owner_id w.now turn).1;
    next = next_of a turn.status;
  },
)

unfoldable pub new_message : SubmitArgs → Draw → TurnMessage
unfolding is_empty
new_message a w = record {
  id = w.message_id;
  idempotency_key = a.idempotency_key;
  accepted_at = w.now;
  content = a.content;
  extended_content = elim a.extended_content [
    | none ↦ none
    | some js ↦ if is_empty js then none else some js
  ];
  event_id = none;
}

-- The owner is assigned and the message appended to the last turn.
unfoldable pub submit_to : SubmitArgs → Draw → Bool → Turn → TurnState → TurnState × Submitted
unfolding assign_delivery_owner append_accepted_turn_message new_message update_last next_of
submit_to a w started turn s = (
  record s {
    turns =
        update_last
          (λ t.
            append_accepted_turn_message (new_message a w)
              (assign_delivery_owner a.delivery_owner_id w.now t).0)
          s.turns;
  },
  record {
    turn_id = turn.id;
    message_event_id = w.message_id;
    started_new_turn = started;
    is_delivery_owner = (assign_delivery_owner a.delivery_owner_id w.now turn).1;
    next = if a.run then Next.process else Next.materialize;
  },
)

-- A message with a new key joins the running turn, or starts one.
unfoldable pub submit_new : SubmitArgs → Draw → TurnState → TurnState × Submitted
unfolding get_active_turn create_running_turn submit_to
submit_new a w s = elim (get_active_turn s) [
  | some turn ↦ submit_to a w false turn s
  | none ↦
      let (turn, s') = create_running_turn w.suffix s w.now a.delivery_owner_id in
      submit_to a w true turn s'
]

unfoldable pub submit_turn_message : SubmitArgs → Draw → TurnState → TurnState × Submitted
unfolding find_message_by_idempotency_key resubmit submit_new
submit_turn_message a w s = elim (find_message_by_idempotency_key s a.idempotency_key) [
  | some (turn, message) ↦ resubmit a w s turn message
  | none ↦ submit_new a w s
]
