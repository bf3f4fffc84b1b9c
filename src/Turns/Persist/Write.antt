-- ===== src/Turns/Persist/Write.antt =====
-- The value that is written to the file of a conversation's turns:
-- apps/agent-server/src/runner/turnState.ts.
use smolpaws.Base.{String, Option, none, some, List, [], ◌∷◌}
use smolpaws.Json.{Json, number, string, array, object, Items, nil, cons, Fields, end, field}
use smolpaws.Turns.{Status, TurnMessage, Turn, TurnState}

-- `JSON.stringify` leaves out what is undefined.
unfoldable pub defined : List (String × Option Json) → Fields
defined [] = end
defined ((key, none) ∷ rest) = defined rest
defined ((key, some value) ∷ rest) = field key value (defined rest)

unfoldable pub to_items {ℓ} : {A : Type ℓ} → (A → Json) → List A → Items
to_items f [] = nil
to_items f (x ∷ xs) = cons (f x) (to_items f xs)

unfoldable pub text : Option String → Option Json
text none = none
text (some s) = some (string s)

unfoldable pub contents : Option (List Json) → Option Json
unfolding to_items
contents none = none
contents (some js) = some (array (to_items (λ j. j) js))

unfoldable pub status_text : Status → String
status_text Status.running = "running"
status_text Status.completed = "completed"
status_text Status.waiting_for_confirmation = "waiting_for_confirmation"
status_text Status.paused = "paused"
status_text Status.error = "error"
status_text Status.stuck = "stuck"

abbrev pub message_fields : TurnMessage → List (String × Option Json)
message_fields m =
    ("id", some (string m.id))
    ∷ ("idempotency_key", some (string m.idempotency_key))
    ∷ ("accepted_at", some (string m.accepted_at))
    ∷ ("content", contents (some m.content))
    ∷ ("extended_content", contents m.extended_content)
    ∷ ("event_id", text m.event_id)
    ∷ []

unfoldable pub message_json : TurnMessage → Json
message_json m = object (defined (message_fields m))

abbrev pub turn_fields : Turn → List (String × Option Json)
turn_fields t =
    ("id", some (string t.id))
    ∷ ("sequence", some (number t.sequence))
    ∷ ("status", some (string (status_text t.status)))
    ∷ ("started_at", some (string t.started_at))
    ∷ ("updated_at", some (string t.updated_at))
    ∷ ("completed_at", text t.completed_at)
    ∷ ("start_event_id", text t.start_event_id)
    ∷ ("end_event_id", text t.end_event_id)
    ∷ ("final_reply_event_id", text t.final_reply_event_id)
    ∷ ("error_code", text t.error_code)
    ∷ ("error_detail", text t.error_detail)
    ∷ ("delivery_owner_id", text t.delivery_owner_id)
    ∷ ("delivery_owner_claimed_at", text t.delivery_owner_claimed_at)
    ∷ ("messages", some (array (to_items message_json t.messages)))
    ∷ []

unfoldable pub turn_json : Turn → Json
turn_json t = object (defined (turn_fields t))

abbrev pub state_fields : TurnState → List (String × Option Json)
state_fields s =
    ("next_sequence", some (number s.next_sequence))
    ∷ ("turns", some (array (to_items turn_json s.turns)))
    ∷ []

-- What `writePersistedTurnState` puts in the file.
unfoldable pub write_persisted_turn_state : TurnState → Json
write_persisted_turn_state s = object (defined (state_fields s))
