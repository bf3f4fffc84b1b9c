-- ===== src/Queue.antt =====
-- The queues of outbound messages and task commands of a conversation:
-- apps/agent-server/src/runner/outbox.ts. A file is its lines, each the value that `JSON.parse` reads
-- of it; no file is `none`. The lock makes each operation one step.
pub mod Conserved
use smolpaws.Base.{
  String, Bool, true, false, Option, none, some, List, [], ◌∷◌, ◌++◌, ◌==◌, if◌then◌else◌, map,
  select, not,
}
use smolpaws.Json.{
  Json, null, boolean, number, string, array, object, Fields, end, field, get_field,
}

abbrev pub QueueFile : Type 0
QueueFile = Option (List Json)

pub record ClaimQueueOptions : Type 0 where
  pub turn_id : Option String
  pub claim_all : Bool

unfoldable pub wrapped : Json → Json
wrapped payload = object (field "payload" payload end)

-- A line that is no envelope is the payload itself.
unfoldable pub parse_queue_envelope : Json → Json
unfolding get_field wrapped
parse_queue_envelope (object fields) = elim (get_field "payload" fields) [
  | some payload ↦ object fields
  | none ↦ wrapped (object fields)
]
parse_queue_envelope null = wrapped null
parse_queue_envelope (boolean b) = wrapped (boolean b)
parse_queue_envelope (number n) = wrapped (number n)
parse_queue_envelope (string s) = wrapped (string s)
parse_queue_envelope (array xs) = wrapped (array xs)

unfoldable pub envelope_field : String → Json → Option Json
unfolding get_field
envelope_field key (object fields) = get_field key fields
envelope_field key _ = none

unfoldable pub payload_of : Json → Json
unfolding envelope_field
payload_of envelope = elim (envelope_field "payload" envelope) [ none ↦ null | some p ↦ p ]

-- Whether the envelope's turn is the one that is asked for.
unfoldable pub is_of_turn : String → Option Json → Bool
is_of_turn turn_id (some (string s)) = s == turn_id
is_of_turn turn_id _ = false

unfoldable pub should_claim_envelope : ClaimQueueOptions → Json → Bool
unfolding envelope_field is_of_turn
should_claim_envelope o envelope =
    let turn = envelope_field "turn_id" envelope in
    let untagged : Bool = elim turn [ none ↦ true | some _ ↦ false ] in
    if o.claim_all then true else elim o.turn_id [
      | none ↦ untagged
      | some turn_id ↦ if turn_id == "" then untagged else is_of_turn turn_id turn
    ]

-- The payloads that are claimed, and what stays in the file.
unfoldable pub claim_queue_items : ClaimQueueOptions → QueueFile → List Json × QueueFile
unfolding parse_queue_envelope payload_of should_claim_envelope select
claim_queue_items o none = ([], none)
claim_queue_items o (some lines) =
    let envelopes = map parse_queue_envelope lines in
    (
      map payload_of (select (should_claim_envelope o) envelopes),
      some (select (λ e. not (should_claim_envelope o e)) envelopes),
    )

unfoldable pub append_queue_item : Json → QueueFile → QueueFile
append_queue_item item none = some (item ∷ [])
append_queue_item item (some lines) = some (lines ++ item ∷ [])

-- The envelope of `appendOutboundMessage` and `appendTaskCommand`.
unfoldable pub envelope : Option String → Json → Json
unfolding wrapped
envelope none payload = wrapped payload
envelope (some turn_id) payload =
    if turn_id == ""
    then wrapped payload
    else object (field "turn_id" (string turn_id) (field "payload" payload end))

-- `appendOutboundMessage` and `appendTaskCommand`, each on its file.
unfoldable pub append_message : Option String → Json → QueueFile → QueueFile
unfolding envelope append_queue_item
append_message turn_id message file = append_queue_item (envelope turn_id message) file

pub data Op : Type 0 where
  add : Option String → Json → Op
  claim : ClaimQueueOptions → Op

-- What all the claims got, and the file that is left.
unfoldable pub run_queue : List Op → QueueFile → List Json × QueueFile
unfolding append_message claim_queue_items
run_queue [] file = ([], file)
run_queue (add turn_id message ∷ ops) file = run_queue ops (append_message turn_id message file)
run_queue (claim o ∷ ops) file =
    let (claimed, left) = claim_queue_items o file in
    let (later, last) = run_queue ops left in (claimed ++ later, last)
