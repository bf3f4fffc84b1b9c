-- ===== src/Turns/RoundTrip.antt =====
-- What is written to a conversation's file of turns is read back:
-- apps/agent-server/src/runner/turnState.ts.
use smolpaws.Base.{
  ℕ, ◌+◌, ◌≤◌, max, ◌≡◌, refl, ap, String, false, Option, none, some, List, [], ◌∷◌, All, ◌==◌,
  if◌then◌else◌, select, arith, ◌=?◌,
}
use smolpaws.Json.{Json, string, number, array, get_field, as_string}
use smolpaws.Text.{trim}
use smolpaws.Turns.{Status, TurnMessage, Turn, TurnState}
use smolpaws.Turns.Persist.{
  items_of, array_items, is_text_content, normalize_text_content_array, trimmed, text_or_empty,
  optional, positive_number, is_empty, normalize_turn_message, parse_status, filter_map,
  normalize_turn, Dates, insert, sort, past_sequences, normalize_turn_state,
  read_persisted_turn_state, defined, to_items, text, contents, status_text, message_fields,
  message_json, turn_fields, turn_json, state_fields, write_persisted_turn_state,
}
use smolpaws.Turns.Writable.{
  IsTrimmedOption, IsText, IsContent, IsContentOption, IsWritableMessage, IsWritableTurn,
  IsChronological, IsWritable,
}

or_else : Option Json → Option Json → Option Json
or_else none rest = rest
or_else (some j) rest = some j

-- The field of an object, found in the list that it is written from.
find_value : String → List (String × Option Json) → Option Json
unfolding or_else
find_value key [] = none
find_value key ((k, v) ∷ rest) =
    let later = find_value key rest in if k == key then or_else v later else later

get_field-defined :
    (key : String) (xs : List (String × Option Json))
    → get_field key (defined xs) ≡ find_value key xs
unfolding get_field defined find_value
get_field-defined key [] = refl
get_field-defined key ((k, none) ∷ rest) = ground (arith, get_field-defined key rest)
get_field-defined key ((k, some j) ∷ rest) = ground (arith, get_field-defined key rest)

module _ (key : String) (xs : List (String × Option Json)) where
  trimmed-defined :
      (s : String) → find_value key xs ≡ some (string s) → trimmed key (defined xs) ≡ trim s
  unfolding trimmed as_string
  trimmed-defined s e = rw (get_field-defined key xs, trimmed, as_string, e) refl

  text_or_empty-defined :
      (s : String) → find_value key xs ≡ some (string s) → text_or_empty key (defined xs) ≡ s
  unfolding text_or_empty as_string
  text_or_empty-defined s e = rw (get_field-defined key xs, text_or_empty, as_string, e) refl

  optional-defined :
      (o : Option String)
      → find_value key xs ≡ or_else (text o) none
      → IsTrimmedOption o
      → optional key (defined xs) ≡ o
  unfolding optional trimmed as_string or_else text
  optional-defined none e k = rw (get_field-defined key xs, optional, trimmed, as_string, e) refl
  optional-defined (some s) e k = rw (trimmed-defined s e, optional, k.0, k.1) refl

  as_string-defined :
      (o : Option String)
      → find_value key xs ≡ or_else (text o) none
      → as_string (get_field key (defined xs)) ≡ o
  unfolding as_string or_else text
  as_string-defined none e = rw (get_field-defined key xs, e) refl
  as_string-defined (some s) e = rw (get_field-defined key xs, e) refl

items_of-to_items : (js : List Json) → items_of (to_items (λ j. j) js) ≡ js
unfolding items_of to_items
items_of-to_items [] = refl
items_of-to_items (j ∷ js) = ap (λ r. j ∷ r) (items_of-to_items js)

select-IsText : (js : List Json) → All IsText js → select is_text_content js ≡ js
unfolding select
select-IsText [] h = refl
select-IsText (j ∷ js) h = rw (h.0, select) (ap (λ r. j ∷ r) (select-IsText js h.1))

content-kept :
    (js : List Json)
    → IsContent js
    → normalize_text_content_array (some (array (to_items (λ j. j) js))) ≡ js
unfolding normalize_text_content_array array_items
content-kept js h = rw (items_of-to_items js) (select-IsText js h.0)

content-defined :
    (o : Option (List Json))
    → IsContentOption o
    → (if is_empty (normalize_text_content_array (or_else (contents o) none))
        then none
        else some (normalize_text_content_array (or_else (contents o) none)))
      ≡ o
unfolding normalize_text_content_array array_items contents or_else items_of is_empty select
content-defined none h = refl
content-defined (some js) h = rw (items_of-to_items js, select-IsText js h.0, h.1) refl

filter_map-to_items {ℓ} :
    {A : Type ℓ} (f : A → Json) (g : Json → Option A) (xs : List A)
    → All (λ x. g (f x) ≡ some x) xs
    → filter_map g (items_of (to_items f xs)) ≡ xs
unfolding filter_map items_of to_items
filter_map-to_items f g [] h = refl
filter_map-to_items f g (x ∷ xs) h =
    rw (h.0, filter_map) (ap (λ r. x ∷ r) (filter_map-to_items f g xs h.1))

parse_status-status_text : (s : Status) → parse_status (trim (status_text s)) ≡ some s
unfolding parse_status status_text trim
parse_status-status_text Status.running = refl
parse_status-status_text Status.completed = refl
parse_status-status_text Status.waiting_for_confirmation = refl
parse_status-status_text Status.paused = refl
parse_status-status_text Status.error = refl
parse_status-status_text Status.stuck = refl

message_round :
    (m : TurnMessage) → IsWritableMessage m → normalize_turn_message (message_json m) ≡ some m
unfolding normalize_turn_message message_json find_value trim is_empty normalize_text_content_array
    contents
message_round m w =
    let xs = message_fields m in
    let id = trimmed-defined "id" xs m.id refl in
    let key = trimmed-defined "idempotency_key" xs m.idempotency_key refl in
    let accepted = text_or_empty-defined "accepted_at" xs m.accepted_at refl in
    let event = optional-defined "event_id" xs m.event_id refl w.event in
    let first = get_field-defined "content" xs in
    let second = get_field-defined "extended_content" xs in
    let body = content-kept m.content w.content in
    let more = content-defined m.extended_content w.extended in
    rw
      (
        id, key, accepted, event, first, second, body, more, w.named.0, w.keyed.0, w.named.1,
        w.keyed.1, w.dated, w.content.1,
      )
      refl

messages_round :
    (ms : List TurnMessage)
    → All IsWritableMessage ms
    → All (λ m. normalize_turn_message (message_json m) ≡ some m) ms
messages_round [] h = tt
messages_round (m ∷ ms) h = (message_round m h.0, messages_round ms h.1)

positive : (n : ℕ) → 1 ≤ n → (positive_number (some (number n)) ≡ n) × ((n =? 0) ≡ false)
unfolding positive_number
positive n h = (ground arith, ground arith)

turn_round : (t : Turn) → IsWritableTurn t → normalize_turn (turn_json t) ≡ some t
unfolding normalize_turn turn_json find_value array_items trim or_else
turn_round t w =
    let xs = turn_fields t in
    let id = trimmed-defined "id" xs t.id refl in
    let status = trimmed-defined "status" xs (status_text t.status) refl in
    let known = parse_status-status_text t.status in
    let sequence = get_field-defined "sequence" xs in
    let started = text_or_empty-defined "started_at" xs t.started_at refl in
    let updated = text_or_empty-defined "updated_at" xs t.updated_at refl in
    let completed = as_string-defined "completed_at" xs t.completed_at refl in
    let start = optional-defined "start_event_id" xs t.start_event_id refl w.start in
    let last = optional-defined "end_event_id" xs t.end_event_id refl w.end in
    let reply = optional-defined "final_reply_event_id" xs t.final_reply_event_id refl w.reply in
    let code = optional-defined "error_code" xs t.error_code refl w.code in
    let detail = optional-defined "error_detail" xs t.error_detail refl w.detail in
    let owner = optional-defined "delivery_owner_id" xs t.delivery_owner_id refl w.owner in
    let claimed =
      as_string-defined "delivery_owner_claimed_at" xs t.delivery_owner_claimed_at refl in
    let messages = get_field-defined "messages" xs in
    let each =
      filter_map-to_items message_json normalize_turn_message t.messages
        (messages_round t.messages w.messages) in
    let (same, nonzero) = positive t.sequence w.numbered in
    rw
      (
        status, known, id, sequence, started, updated, completed, start, last, reply, code, detail,
        owner, claimed, messages, same, w.named.0, w.named.1, nonzero, w.started, w.updated, each,
      )
      refl

turns_round :
    (ts : List Turn) → All IsWritableTurn ts → All (λ t. normalize_turn (turn_json t) ≡ some t) ts
turns_round [] h = tt
turns_round (t ∷ ts) h = (turn_round t h.0, turns_round ts h.1)

module _ (d : Dates) where
  sort-IsChronological : (ts : List Turn) → IsChronological d ts → sort d ts ≡ ts
  unfolding sort insert
  sort-IsChronological [] h = refl
  sort-IsChronological (t ∷ []) h = refl
  sort-IsChronological (t ∷ u ∷ ts) h = rw (sort-IsChronological (u ∷ ts) h.1, h.0) refl

  le-past_sequences : (n : ℕ) (ts : List Turn) → n ≤ past_sequences d n ts
  unfolding past_sequences
  le-past_sequences n [] = omega arith
  le-past_sequences n (t ∷ ts) = omega (arith, le-past_sequences (max n (t.sequence + 1)) ts)

  -- What is written to the file is read back as it was, whatever optional fields are absent, where
  -- the reader has nothing to trim, to drop or to reorder, and the next number is past all turns.
  pub read-write_persisted :
      (s : TurnState)
      → IsWritable d s
      → read_persisted_turn_state d (some (write_persisted_turn_state s)) ≡ s
  unfolding read_persisted_turn_state write_persisted_turn_state normalize_turn_state find_value
      array_items or_else
  read-write_persisted s w =
      let xs = state_fields s in
      let next = get_field-defined "next_sequence" xs in
      let turns = get_field-defined "turns" xs in
      let each =
        filter_map-to_items turn_json normalize_turn s.turns (turns_round s.turns w.each) in
      let order = sort-IsChronological s.turns w.ordered in
      let low = le-past_sequences 1 s.turns in
      let fresh = w.fresh in
      let past : max 1 (max s.next_sequence (past_sequences d 1 s.turns)) ≡ s.next_sequence =
        omega arith in
      rw (next, turns, each, order, past) refl
