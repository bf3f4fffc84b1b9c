-- ===== src/Relay/Extract.antt =====
-- What is deliverable: the extractors of src/coordinator/messageRelay.ts.
pub mod Notices
use Prim.Native.Char.{Char, code}
use Prim.Native.String.{◌++◌}
use smolpaws.Base.{
  ℕ, zero, suc, ◌+◌, ◌*◌, ◌-◌, String, Bool, true, false, Option, none, some, ◌==◌, ◌=?◌, ◌&&◌,
  ◌||◌, not, leb, if◌then◌else◌,
}
use smolpaws.Text.{trim}
use smolpaws.Json.{
  Json, null, boolean, number, string, array, object, Items, nil, cons, Fields, end, field,
  get_field, as_record, as_string,
}
use smolpaws.Relay.Events.{Event, text_of, is_text}

-- { payload: { kind: 'current_thread_message', text } }.
unfoldable pub thread_message : String → Json
thread_message text =
    object (field "kind" (string "current_thread_message") (field "text" (string text) end))

-- The first of two fields that is a string.
unfoldable pub first_text : String → String → Fields → Option String
unfolding get_field as_string
first_text a b fields = elim (as_string (get_field a fields)) [
  | some s ↦ some s
  | none ↦ as_string (get_field b fields)
]

abbrev pub is_send_tool : Option String → Bool
is_send_tool name = is_text "send_message" name || is_text "current_thread_message" name

abbrev pub to_message : Option String → Option Json
to_message none = none
to_message (some text) = some (thread_message text)

unfoldable pub send_message_extractor : Event → Option Json
unfolding text_of first_text as_record get_field
send_message_extractor event =
    if event.kind == "ActionEvent" && is_send_tool (text_of event "tool_name")
    then to_message (first_text "text" "message" (as_record (get_field "action" event.fields)))
    else none

-- `text === undefined || text.trim().length === 0`.
abbrev pub non_blank : Option String → Option String
non_blank none = none
non_blank (some text) = if trim text == "" then none else some text

unfoldable pub final_response_extractor : Event → Option Json
unfolding text_of first_text as_record get_field trim
final_response_extractor event =
    if event.kind == "ObservationEvent" && is_text "finish" (text_of event "tool_name")
    then to_message
        (non_blank (first_text "message" "text" (as_record (get_field "observation" event.fields))))
    else none

-- Array.isArray(toolCalls) && toolCalls.length > 0.
unfoldable pub has_tool_calls : Option Json → Bool
has_tool_calls (some (array (cons x xs))) = true
has_tool_calls _ = false

-- The text of a content item of type 'text'.
unfoldable pub item_text : Json → Option String
unfolding get_field as_string
item_text (object fields) =
    if is_text "text" (as_string (get_field "type" fields))
    then as_string (get_field "text" fields)
    else none
item_text _ = none

-- The filtered texts joined by line breaks; `none` is the empty join, of no text at all.
unfoldable pub join_texts : Items → Option String
unfolding item_text
join_texts nil = none
join_texts (cons x xs) =
    let rest = join_texts xs in
    elim (item_text x) [
      | none ↦ rest
      | some s ↦ elim rest [ none ↦ some s | some t ↦ some (s ++ "\n" ++ t) ]
    ]

abbrev pub trimmed : Option String → Option String
trimmed none = none
trimmed (some s) = let t = trim s in if t == "" then none else some t

unfoldable pub content_text : Option Json → Option String
unfolding join_texts trim
content_text (some (array items)) = trimmed (join_texts items)
content_text _ = none

unfoldable pub assistant_text_message : Event → Option String
unfolding as_record get_field as_string has_tool_calls content_text
assistant_text_message event =
    let message = as_record (get_field "llm_message" event.fields) in
    if event.kind == "MessageEvent"
      && (is_text "assistant" (as_string (get_field "role" message))
          && not (has_tool_calls (get_field "tool_calls" message)))
    then content_text (get_field "content" message)
    else none

unfoldable pub terminal_response_extractor : Event → Option Json
unfolding final_response_extractor assistant_text_message
terminal_response_extractor event = elim (final_response_extractor event) [
  | some intent ↦ some intent
  | none ↦ to_message (assistant_text_message event)
]

-- The rest of a text after a prefix.
unfoldable pub strip_prefix : String → String → Option String
strip_prefix String.[] s = some s
strip_prefix (String.◌∷◌ c p) String.[] = none
strip_prefix (String.◌∷◌ c p) (String.◌∷◌ d s) =
    let rest = strip_prefix p s in if code c =? code d then rest else none

abbrev pub is_digit : ℕ → Bool
is_digit c = leb 48 c && leb c 57

-- The number read from `count` more digits at most, and what is left. The value of the digits is
-- exact: `Number` rounds only above 2 ^ 53, and then both are unsafe integers.
unfoldable pub read_digits : ℕ → ℕ → String → ℕ × String
read_digits zero acc s = (acc, s)
read_digits (suc count) acc String.[] = (acc, String.[])
read_digits (suc count) acc (String.◌∷◌ c s) =
    let rest = read_digits count (acc * 10 + (code c - 48)) s in
    if is_digit (code c) then rest else (acc, String.◌∷◌ c s)

-- `([1-9]\d{0,15})\)\.$`, after the fixed start of the pattern.
unfoldable pub match_steps : String → Option ℕ
unfolding read_digits
match_steps String.[] = none
match_steps (String.◌∷◌ c s) =
    if leb 49 (code c) && leb (code c) 57
    then (let (n, rest) = read_digits 15 (code c - 48) s in if rest == ")." then some n else none)
    else none

-- Number.isSafeInteger: at most 2 ^ 53 - 1.
abbrev pub max_safe_integer : ℕ
max_safe_integer = 9_007_199_254_740_991

unfoldable pub limit_of : Option String → Option ℕ
unfolding strip_prefix match_steps
limit_of none = none
limit_of (some detail) = elim (strip_prefix "Agent reached maximum iterations limit (" detail) [
  | none ↦ none
  | some rest ↦ elim (match_steps rest) [
    | none ↦ none
    | some n ↦ if leb n max_safe_integer then some n else none
  ]
]

abbrev pub generic_notice : String
generic_notice = "I encountered a conversation error. Send another message to try continuing."

-- `${steps}`, as the language prints a safe integer.
unfoldable pub step_notice : (ℕ → String) → Option ℕ → String
step_notice print none =
    "I stopped because this run reached its step limit. Send another message to continue."
step_notice print (some n) =
    "I stopped because this run reached its "
    ++ print n
    ++ "-step limit. Send another message to continue."

-- `print` is the language's rendering of an integer in a template string.
unfoldable pub conversation_error_extractor : (ℕ → String) → Event → Option Json
unfolding text_of limit_of step_notice
conversation_error_extractor print event =
    if event.kind == "ConversationErrorEvent"
    then some (
        thread_message (
          if is_text "MaxIterationsReached" (text_of event "code")
          then step_notice print (limit_of (text_of event "detail"))
          else generic_notice))
    else none

unfoldable pub bridge_response_extractor : (ℕ → String) → Event → Option Json
bridge_response_extractor print event = elim (send_message_extractor event) [
  | some intent ↦ some intent
  | none ↦ elim (terminal_response_extractor event) [
    | some intent ↦ some intent
    | none ↦ conversation_error_extractor print event
  ]
]

unfoldable pub delivery_text : Json → Option String
unfolding get_field as_string trim
delivery_text (object fields) =
    if is_text "current_thread_message" (as_string (get_field "kind" fields))
    then (elim (as_string (get_field "text" fields)) [ none ↦ none | some s ↦ some (trim s) ])
    else none
delivery_text _ = none
