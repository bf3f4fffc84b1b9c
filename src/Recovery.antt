-- ===== src/Recovery.antt =====
-- src/coordinator/runRecovery.ts: the journal of runs that an interruption may leave open.
pub mod Open
use smolpaws.Base.{
  ◌≡◌, refl, String, Bool, true, false, Option, none, some, List, [], ◌∷◌, ◌++◌, any_where, select,
  find_first, ◌==◌, ◌&&◌, ◌||◌, not, if◌then◌else◌, ◌=?◌, ℕ, arith, Bool-cases, inl, inr, eq_refl,
  eq_iff, ==→eq,
}
use smolpaws.Json.{
  Json, null, boolean, number, string, array, object, nil, cons, Fields, get_field, as_record,
  as_string,
}
use smolpaws.Relay.Events.{Event, text_of, is_text}

pub record Progress : Type 0 where
  pub pending : Bool
  pub actions : List String
  pub issue : Option String

-- A row of `relay_runs`.
pub record RunRow : Type 0 where
  pub conversation_id : String
  pub value : Progress

-- Truth of a value in a condition; an absent field is `undefined`.
unfoldable pub truthy : Option Json → Bool
truthy none = false
truthy (some null) = false
truthy (some (boolean b)) = b
truthy (some (number n)) = not (n =? 0)
truthy (some (string s)) = not (s == "")
truthy (some (array xs)) = true
truthy (some (object fields)) = true

-- `value?.length`, as a condition.
unfoldable pub has_length : Option Json → Bool
unfolding truthy get_field
has_length (some (array nil)) = false
has_length (some (array (cons x xs))) = true
has_length (some (string s)) = not (s == "")
has_length (some (object fields)) = truthy (get_field "length" fields)
has_length _ = false

unfoldable pub message_of : Event → Fields
unfolding as_record get_field
message_of event = as_record (get_field "llm_message" event.fields)

abbrev pub has_role : String → Event → Bool
has_role role event = is_text role (as_string (get_field "role" (message_of event)))

-- The end of a run: a `finish` without an error, or a reply without tool calls.
unfoldable pub ends_run : Event → Bool
unfolding message_of truthy has_length get_field as_record as_string text_of
ends_run event =
    (event.kind == "ObservationEvent"
      && (is_text "finish" (text_of event "tool_name")
          && not
              (truthy (get_field "is_error" (as_record (get_field "observation" event.fields))))))
    || (event.kind == "MessageEvent"
        && (has_role "assistant" event
            && not (has_length (get_field "tool_calls" (message_of event)))))

abbrev pub is_user_message : Event → Bool
is_user_message event = event.kind == "MessageEvent" && has_role "user" event

abbrev pub is_id : String → String → Bool
is_id id other = other == id

unfoldable pub note_action : Event → List String → List String
unfolding any_where
note_action event actions =
    if event.kind == "ActionEvent" && not (any_where (is_id event.id) actions)
    then actions ++ event.id ∷ []
    else actions

-- `actions.filter(id => id !== event.action_id)`.
unfoldable pub close_action : Event → List String → List String
unfolding select text_of
close_action event actions =
    if event.kind == "ObservationEvent"
    then select (λ id. not (is_text id (text_of event "action_id"))) actions
    else actions

unfoldable pub is_pending_after : Event → Bool → Bool
unfolding ends_run message_of
is_pending_after event pending =
    let asked = if is_user_message event then true else pending in
    let paused = if event.kind == "PauseEvent" then false else asked in
    if ends_run event then false else paused

-- What an event makes of a conversation's progress.
unfoldable pub advance : Event → Progress → Progress
unfolding note_action close_action is_pending_after message_of
advance event value = record {
  pending = is_pending_after event value.pending;
  actions = close_action event (note_action event value.actions);
  issue = if is_user_message event then none else value.issue;
}

abbrev pub is_run : String → RunRow → Bool
is_run id row = row.conversation_id == id

abbrev pub fresh_progress : Progress
fresh_progress = record { pending = false; actions = []; issue = none }

unfoldable pub put_run : String → Progress → List RunRow → List RunRow
put_run id value [] = record { conversation_id = id; value = value } ∷ []
put_run id value (row ∷ rows) =
    let rest = put_run id value rows in
    if is_run id row then record row { value = value } ∷ rows else row ∷ rest

unfoldable pub observe : String → Event → List RunRow → List RunRow
unfolding find_first advance put_run
observe id event rows = elim (find_first (is_run id) rows) [
  | none ↦ put_run id (advance event fresh_progress) rows
  | some row ↦ put_run id (advance event row.value) rows
]

-- `value.pending && !value.issue`.
abbrev pub no_issue : Option String → Bool
no_issue none = true
no_issue (some s) = s == ""

unfoldable pub pending_runs : List RunRow → List (String × List String)
pending_runs [] = []
pending_runs (row ∷ rows) =
    let rest = pending_runs rows in
    if row.value.pending && no_issue row.value.issue
    then (row.conversation_id, row.value.actions) ∷ rest
    else rest

unfoldable pub park_run : String → String → List RunRow → List RunRow
park_run id issue [] = []
park_run id issue (row ∷ rows) =
    let rest = park_run id issue rows in
    (if is_run id row then record row { value = record row.value { issue = some issue } } else row)
    ∷ rest

-- The progress of a log of events, the newest first.
unfoldable pub progress_of : List Event → Progress
unfolding advance
progress_of [] = fresh_progress
progress_of (event ∷ earlier) = advance event (progress_of earlier)

-- Read from the newest event back: an observation closes the action, and the action opens it.
unfoldable pub is_open : String → List Event → Bool
is_open id [] = false
is_open id (event ∷ earlier) =
    let rest = is_open id earlier in
    if event.kind == "ObservationEvent" && is_text id (text_of event "action_id")
    then false
    else if event.kind == "ActionEvent" && event.id == id
    then true
    else rest
