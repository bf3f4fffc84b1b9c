-- ===== src/Queue/Conserved.antt =====
-- No item of a queue is lost or claimed twice: apps/agent-server/src/runner/outbox.ts.
use smolpaws.Base.{
  ℕ, ◌+◌, ◌≡◌, refl, ap, ◌∙◌, String, Bool, not, Option, none, some, List, [], ◌∷◌, ◌++◌, ◌==◌, map,
  select, count_where, arith, Bool-cases, Option-cases, inl, inr,
}
use smolpaws.Json.{Json, null, boolean, number, string, array, object, get_field}
use mathlib.Core.List.{map-append}
use smolpaws.Queue.{
  QueueFile, ClaimQueueOptions, wrapped, parse_queue_envelope, payload_of, should_claim_envelope,
  claim_queue_items, append_queue_item, envelope, append_message, Op, add, claim, run_queue,
}

-- The payloads that stand in a file.
abbrev pub payloads : QueueFile → List Json
payloads none = []
payloads (some lines) = map (λ l. payload_of (parse_queue_envelope l)) lines

-- The payloads that are appended.
pub added : List Op → List Json
added [] = []
added (add turn_id message ∷ ops) = message ∷ added ops
added (claim o ∷ ops) = added ops

-- An envelope that was rewritten is read as it was.
parse-parse : (l : Json) → parse_queue_envelope (parse_queue_envelope l) ≡ parse_queue_envelope l
unfolding parse_queue_envelope wrapped
parse-parse (object fields) = elim (Option-cases (get_field "payload" fields)) [
  | inl q ↦ rw (q, parse_queue_envelope) refl
  | inr (p, q) ↦ rw (q, parse_queue_envelope) (rw (q, parse_queue_envelope) refl)
]
parse-parse null = refl
parse-parse (boolean b) = refl
parse-parse (number n) = refl
parse-parse (string s) = refl
parse-parse (array xs) = refl

payload-envelope :
    (turn_id : Option String) (message : Json)
    → payload_of (parse_queue_envelope (envelope turn_id message)) ≡ message
unfolding envelope parse_queue_envelope payload_of wrapped
payload-envelope none message = refl
payload-envelope (some turn_id) message = elim (Bool-cases (turn_id == "")) [
  | inl q ↦ rw (q, envelope) refl
  | inr q ↦ rw (q, envelope) refl
]

module _ (p : Json → Bool) where
  abbrev times : List Json → ℕ
  times js = count_where p js

  times-append : (xs ys : List Json) → times (xs ++ ys) ≡ times xs + times ys
  unfolding count_where
  times-append [] ys = omega arith
  times-append (x ∷ xs) ys = ground (arith, times-append xs ys)

  -- A claim takes some items and leaves the rest.
  times-split :
      (o : ClaimQueueOptions) (lines : List Json)
      → times (map payload_of (select (should_claim_envelope o) (map parse_queue_envelope lines)))
          + times (
              payloads (
                some
                  (select (λ e. not (should_claim_envelope o e)) (map parse_queue_envelope lines))))
        ≡ times (payloads (some lines))
  unfolding count_where select
  times-split o [] = omega arith
  times-split o (l ∷ lines) =
      let e = parse_queue_envelope l in
      elim (Bool-cases (should_claim_envelope o e)) [
        | inl q ↦ rw (q, select) (ground (arith, times-split o lines))
        | inr q ↦ rw (q, select, parse-parse l) (ground (arith, times-split o lines))
      ]

  times-claim :
      (o : ClaimQueueOptions) (file : QueueFile)
      → let (claimed, left) = claim_queue_items o file in
        times claimed + times (payloads left) ≡ times (payloads file)
  unfolding claim_queue_items count_where
  times-claim o none = omega arith
  times-claim o (some lines) = times-split o lines

  times-add :
      (turn_id : Option String) (message : Json) (file : QueueFile)
      → times (payloads (append_message turn_id message file))
        ≡ times (payloads file) + times (message ∷ [])
  unfolding append_message append_queue_item count_where
  times-add turn_id message none = rw (payload-envelope turn_id message) (omega arith)
  times-add turn_id message (some lines) =
      let read = λ (l : Json). payload_of (parse_queue_envelope l) in
      let item = envelope turn_id message in
      ap times (map-append read lines (item ∷ []))
      ∙ times-append (map read lines) (read item ∷ [])
      ∙ ap (λ (j : Json). times (map read lines) + times (j ∷ []))
          (payload-envelope turn_id message)

  -- Whatever is appended and claimed, in any order and with any options, as many items of a kind
  -- are claimed or left in the file as were in the file or appended: none is lost, and none is
  -- claimed twice.
  pub run_queue-conserves :
      (ops : List Op) (file : QueueFile)
      → let (claimed, left) = run_queue ops file in
        times claimed + times (payloads left) ≡ times (payloads file) + times (added ops)
  unfolding run_queue added count_where
  run_queue-conserves [] file = omega arith
  run_queue-conserves (add turn_id message ∷ ops) file =
      let first = times-add turn_id message file in
      let rest = run_queue-conserves ops (append_message turn_id message file) in
      let cons = times-append (message ∷ []) (added ops) in omega (arith, first, rest, cons)
  run_queue-conserves (claim o ∷ ops) file =
      let first = times-claim o file in
      let left = (claim_queue_items o file).1 in
      let rest = run_queue-conserves ops left in
      let both = times-append (claim_queue_items o file).0 (run_queue ops left).0 in
      omega (arith, first, rest, both)

-- A claim that was made is exhausted: the same claim again takes nothing, and leaves the file.
select-not :
    (q : Json → Bool) (ls : List Json)
    → (select q (map parse_queue_envelope (select (λ e. not (q e)) (map parse_queue_envelope ls)))
        ≡ [])
      × (select
            (λ e. not (q e))
            (map parse_queue_envelope (select (λ e. not (q e)) (map parse_queue_envelope ls)))
          ≡ select (λ e. not (q e)) (map parse_queue_envelope ls))
unfolding select
select-not q [] = (refl, refl)
select-not q (l ∷ ls) = elim (Bool-cases (q (parse_queue_envelope l))) [
  | inl e ↦ rw (e, select) (select-not q ls)
  | inr e ↦
      let (a, b) = select-not q ls in
      rw (e, select, parse-parse l, e) (a, ap (λ r. parse_queue_envelope l ∷ r) b)
]

-- Claiming again with the same options takes nothing and leaves the file.
pub claim-claim :
    (o : ClaimQueueOptions) (file : QueueFile)
    → let left = (claim_queue_items o file).1 in claim_queue_items o left ≡ ([], left)
unfolding claim_queue_items
claim-claim o none = refl
claim-claim o (some lines) =
    let (a, b) = select-not (should_claim_envelope o) lines in rw (a, b) refl
