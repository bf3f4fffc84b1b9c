-- ===== src/Turns/Persist/Read.antt =====
-- Reading the file of a conversation's turns: apps/agent-server/src/runner/turnState.ts.
use Prim.Native.Nat.{compare, Ordering}
use smolpaws.Base.{
  ℕ, ◌+◌, max, String, Bool, true, false, ◌||◌, ◌&&◌, Option, none, some, List, [], ◌∷◌, ◌==◌, ◌=?◌,
  if◌then◌else◌, select,
}
use smolpaws.Json.{
  Json, null, boolean, number, string, array, object, Items, nil, cons, Fields, end, get_field,
  as_string,
}
use smolpaws.Text.{trim}
use smolpaws.Turns.{Status, TurnMessage, Turn, TurnState, create_default_turn_state}

-- `typeof value === 'object'` and not null: an array has no field of these names.
unfoldable pub object_fields : Json → Option Fields
object_fields null = none
object_fields (boolean b) = none
object_fields (number n) = none
object_fields (string s) = none
object_fields (array xs) = some end
object_fields (object fields) = some fields

unfoldable pub items_of : Items → List Json
items_of nil = []
items_of (cons j js) = j ∷ items_of js

-- An array's items; what is no array has none.
unfoldable pub array_items : Option Json → List Json
unfolding items_of
array_items none = []
array_items (some null) = []
array_items (some (boolean b)) = []
array_items (some (number n)) = []
array_items (some (string s)) = []
array_items (some (array xs)) = items_of xs
array_items (some (object fields)) = []

is_string : Option Json → Bool
unfolding as_string
is_string o = elim (as_string o) [ none ↦ false | some _ ↦ true ]

unfoldable pub is_text_content : Json → Bool
unfolding object_fields get_field as_string is_string
is_text_content item = elim (object_fields item) [
  | none ↦ false
  | some fields ↦ elim (as_string (get_field "type" fields)) [
    | none ↦ false
    | some type ↦ type == "text" && is_string (get_field "text" fields)
  ]
]

unfoldable pub normalize_text_content_array : Option Json → List Json
unfolding array_items select
normalize_text_content_array value = select is_text_content (array_items value)

-- A field that is a string, trimmed; otherwise the empty text.
unfoldable pub trimmed : String → Fields → String
unfolding trim get_field as_string
trimmed key fields = elim (as_string (get_field key fields)) [ none ↦ "" | some s ↦ trim s ]

-- A field that is a string, as it is; otherwise the empty text.
unfoldable pub text_or_empty : String → Fields → String
unfolding get_field as_string
text_or_empty key fields = elim (as_string (get_field key fields)) [ none ↦ "" | some s ↦ s ]

-- An optional field that is kept, trimmed, where it is a string that is not blank.
unfoldable pub optional : String → Fields → Option String
unfolding trimmed
optional key fields = let s = trimmed key fields in if s == "" then none else some s

-- `Number.isFinite(x) ? Math.max(1, Math.trunc(x)) : 0`.
unfoldable pub positive_number : Option Json → ℕ
positive_number (some (number n)) = max 1 n
positive_number _ = 0

unfoldable pub is_empty : List Json → Bool
is_empty [] = true
is_empty (j ∷ js) = false

unfoldable pub normalize_turn_message : Json → Option TurnMessage
unfolding object_fields
normalize_turn_message value = elim (object_fields value) [
  | none ↦ none
  | some fields ↦
      let id = trimmed "id" fields in
      let key = trimmed "idempotency_key" fields in
      let accepted_at = text_or_empty "accepted_at" fields in
      let content = normalize_text_content_array (get_field "content" fields) in
      let extended = normalize_text_content_array (get_field "extended_content" fields) in
      if id == "" || key == "" || accepted_at == "" || is_empty content
      then none
      else some (record {
        id = id;
        idempotency_key = key;
        accepted_at = accepted_at;
        content = content;
        extended_content = if is_empty extended then none else some extended;
        event_id = optional "event_id" fields;
      })
]

unfoldable pub parse_status : String → Option Status
parse_status s =
    if s == "running"
    then some Status.running
    else if s == "completed"
    then some Status.completed
    else if s == "waiting_for_confirmation"
    then some Status.waiting_for_confirmation
    else if s == "paused"
    then some Status.paused
    else if s == "error"
    then some Status.error
    else if s == "stuck"
    then some Status.stuck
    else none

-- `values.map(f).filter(Boolean)`.
unfoldable pub filter_map {ℓ κ} : {A : Type ℓ} {B : Type κ} → (A → Option B) → List A → List B
filter_map f [] = []
filter_map f (x ∷ xs) = elim (f x) [ none ↦ filter_map f xs | some y ↦ y ∷ filter_map f xs ]

unfoldable pub normalize_turn : Json → Option Turn
unfolding object_fields
normalize_turn value = elim (object_fields value) [
  | none ↦ none
  | some fields ↦
      let id = trimmed "id" fields in
      let sequence = positive_number (get_field "sequence" fields) in
      let started_at = text_or_empty "started_at" fields in
      let updated_at = text_or_empty "updated_at" fields in
      if id == "" || sequence =? 0 || started_at == "" || updated_at == ""
      then none
      else elim (parse_status (trimmed "status" fields)) [
        | none ↦ none
        | some status ↦ some (record {
          id = id;
          sequence = sequence;
          status = status;
          started_at = started_at;
          updated_at = updated_at;
          completed_at = as_string (get_field "completed_at" fields);
          start_event_id = optional "start_event_id" fields;
          end_event_id = optional "end_event_id" fields;
          final_reply_event_id = optional "final_reply_event_id" fields;
          error_code = optional "error_code" fields;
          error_detail = optional "error_detail" fields;
          delivery_owner_id = optional "delivery_owner_id" fields;
          delivery_owner_claimed_at = as_string (get_field "delivery_owner_claimed_at" fields);
          messages = filter_map normalize_turn_message (array_items (get_field "messages" fields));
        })
      ]
]

-- `Date.parse`, `none` for NaN, and `localeCompare`.
pub record Dates : Type 0 where
  pub parse : String → Option ℕ
  pub locale_compare : String → String → Ordering

module _ (d : Dates) where
  -- By the text, and by the sequence where the texts compare equal.
  unfoldable pub by_text : Turn → Turn → Ordering
  by_text left right = elim (d.locale_compare left.started_at right.started_at) [
    | Ordering.lt ↦ Ordering.lt
    | Ordering.eq ↦ compare left.sequence right.sequence
    | Ordering.gt ↦ Ordering.gt
  ]

  unfoldable pub compare_turns_chronologically : Turn → Turn → Ordering
  unfolding by_text
  compare_turns_chronologically left right = elim (d.parse left.started_at) [
    | none ↦ by_text left right
    | some l ↦ elim (d.parse right.started_at) [
      | none ↦ by_text left right
      | some r ↦ if l =? r then by_text left right else compare l r
    ]
  ]

  unfoldable pub stands_after : Turn → Turn → Bool
  unfolding compare_turns_chronologically
  stands_after left right = elim (compare_turns_chronologically left right) [
    | Ordering.lt ↦ false
    | Ordering.eq ↦ false
    | Ordering.gt ↦ true
  ]

  -- `Array.prototype.sort`, which is stable.
  unfoldable pub insert : Turn → List Turn → List Turn
  unfolding stands_after
  insert t [] = t ∷ []
  insert t (u ∷ us) = let later = u ∷ insert t us in if stands_after t u then later else t ∷ u ∷ us

  unfoldable pub sort : List Turn → List Turn
  unfolding insert
  sort [] = []
  sort (t ∷ ts) = insert t (sort ts)

  -- The reduction that gives one more than the largest sequence, and 1 at least.
  unfoldable pub past_sequences : ℕ → List Turn → ℕ
  past_sequences n [] = n
  past_sequences n (t ∷ ts) = past_sequences (max n (t.sequence + 1)) ts

  unfoldable pub normalize_turn_state : Json → TurnState
  unfolding object_fields create_default_turn_state
  normalize_turn_state value = elim (object_fields value) [
    | none ↦ create_default_turn_state
    | some fields ↦
        let turns = sort (filter_map normalize_turn (array_items (get_field "turns" fields))) in
        let past = past_sequences 1 turns in
        record {
          next_sequence = elim (get_field "next_sequence" fields) [
            | some (number n) ↦ max 1 (max n past)
            | _ ↦ past
          ];
          turns = turns;
        }
  ]

  -- `none` is a file that is not there. Any other failure of the read, and a text that is no JSON,
  -- are thrown to the caller and left out.
  unfoldable pub read_persisted_turn_state : Option Json → TurnState
  unfolding normalize_turn_state create_default_turn_state
  read_persisted_turn_state none = create_default_turn_state
  read_persisted_turn_state (some file) = normalize_turn_state file
