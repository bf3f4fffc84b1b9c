-- ===== src/Turns/Idempotent.antt =====
-- A message that is submitted again, after whatever happened in between, is the message that was
-- stored first: apps/agent-server/src/agent-server/conversationRuntime.ts, submitTurnMessage.
use smolpaws.Base.{
  ◌≡◌, refl, ◌∙◌, ap, String, Bool, false, Option, none, some, List, [], ◌∷◌, ◌==◌, map, arith,
  Bool-cases, Option-cases, inl, inr,
}
use smolpaws.Turns.{
  Status, Turn, TurnState, get_active_turn, find_in_turns, find_message_by_idempotency_key,
  assign_delivery_owner, get_turn_by_id,
}
use smolpaws.Turns.Persist.{Dates}
use smolpaws.Turns.RoundTrip.{read-write_persisted}
use smolpaws.Turns.Processor.{
  settle_active_turn, materialize_active_turn, materialize_pending_turn_messages, failed,
  interrupted, fail_active_turn, load_turn_state, mark_interrupted, claim_turn_artifacts, granted,
}
use smolpaws.Turns.Submit.{
  SubmitArgs, Submitted, Draw, submit_turn_message, resubmit, update_first, update_last, has_key,
}
use smolpaws.Turns.Steps.{
  Step, submit, materialize_active, materialize_known, settle, fail, claim, restart, Steps, done,
  then_step, ReadsBack, AllReadBack,
}
use smolpaws.Turns.Keyed.{
  find-ids_of, find-none-ids_of, Keeps, ids_of-update_first, ids_of-update_last,
  assign_delivery_owner-Keeps, update_turn_status-Keeps, finalize-Keeps, materialize-Keeps,
}
use smolpaws.Turns.Submitted.{leads, submit-leads, submit-keeps}

-- An update of the active turn, if there is one.
abbrev pub on_active : (Turn → Turn) → TurnState → TurnState
on_active f s = elim (get_active_turn s) [
  | none ↦ s
  | some t ↦ record s { turns = update_last f s.turns }
]

module _ (d : Dates) (key : String) where
  on_active-leads :
      (f : Turn → Turn) → Keeps key f → (s : TurnState) → leads key (on_active f s) ≡ leads key s
  on_active-leads f k s = elim (Option-cases (get_active_turn s)) [
    | inl q ↦ rw (q, on_active) refl
    | inr (t, q) ↦ rw (q, on_active) (ids_of-update_last key f k s.turns)
  ]

  claim-leads :
      (turn_id owner now : String) (s : TurnState) {s' : TurnState}
      → claim_turn_artifacts turn_id owner now s ≡ granted s'
      → leads key s' ≡ leads key s
  unfolding claim_turn_artifacts
  claim-leads turn_id owner now s {s'} e = elim (Option-cases (get_turn_by_id s turn_id)) [
    | inl q ↦ absurd (cc (rw (q, claim_turn_artifacts) at e))
    | inr (t, q) ↦ elim (Bool-cases (assign_delivery_owner (some owner) now t).1) [
      | inl b ↦
          let f = λ (u : Turn). (assign_delivery_owner (some owner) now u).0 in
          let p = λ (u : Turn). u.id == turn_id in
          let shape : record s { turns = update_first p f s.turns } ≡ s' =
            cc (rw (q, claim_turn_artifacts, b) at e) in
          rw (← shape)
            (ids_of-update_first key f (assign_delivery_owner-Keeps key (some owner) now) p s.turns)
      | inr b ↦ absurd (cc (rw (q, claim_turn_artifacts, b) at e))
    ]
  ]

  step-keeps :
      {s s' : TurnState} {p : String × String} (step : Step d s s')
      → ReadsBack d step
      → leads key s ≡ some p
      → leads key s' ≡ some p
  unfolding ReadsBack settle_active_turn materialize_active_turn fail_active_turn load_turn_state
  step-keeps {s} (submit a w) v h = submit-keeps a w key s h
  step-keeps {s} (materialize_active now) v h =
      on_active-leads (materialize_pending_turn_messages now) (materialize-Keeps key now) s ∙ h
  step-keeps {s} (materialize_known k now) v h =
      ids_of-update_first key (materialize_pending_turn_messages now) (materialize-Keeps key now)
        (has_key k) s.turns
      ∙ h
  step-keeps {s} (settle terminal now) v h =
      on_active-leads _ (finalize-Keeps key terminal now) s ∙ h
  step-keeps {s} (fail now message) v h =
      on_active-leads _
        (update_turn_status-Keeps key Status.error now (failed "turn_processor_failed" message)) s
      ∙ h
  step-keeps {s} (claim turn_id owner now e) v h = claim-leads turn_id owner now s e ∙ h
  step-keeps {s} (restart now) v h =
      ap (λ (r : TurnState). leads key (mark_interrupted now r)) (read-write_persisted d s v)
      ∙ on_active-leads _ (update_turn_status-Keeps key Status.stuck now interrupted) s
      ∙ h

  pub steps-keeps :
      {s s' : TurnState} {p : String × String} (steps : Steps d s s')
      → AllReadBack d steps
      → leads key s ≡ some p
      → leads key s' ≡ some p
  unfolding AllReadBack
  steps-keeps done v h = h
  steps-keeps (then_step r st) v h = step-keeps st v.1 (steps-keeps r v.0 h)

-- The answer to a submission whose key is known.
pub record IsRepeat (s : TurnState) (first : Submitted) (out : TurnState × Submitted) : Type 0 where
  pub turn : out.1.turn_id ≡ first.turn_id
  pub message : out.1.message_event_id ≡ first.message_event_id
  pub joined : out.1.started_new_turn ≡ false
  pub stored : map (λ t. t.messages) out.0.turns ≡ map (λ t. t.messages) s.turns
  pub counted : out.0.next_sequence ≡ s.next_sequence

assign-messages :
    (owner : Option String) (now : String) (t : Turn)
    → (assign_delivery_owner owner now t).0.messages ≡ t.messages
unfolding assign_delivery_owner
assign-messages none now t = refl
assign-messages (some o) now t = ground arith

update_first-messages :
    (p : Turn → Bool) (owner : Option String) (now : String) (ts : List Turn)
    → map (λ t. t.messages) (update_first p (λ t. (assign_delivery_owner owner now t).0) ts)
      ≡ map (λ t. t.messages) ts
unfolding update_first
update_first-messages p owner now [] = refl
update_first-messages p owner now (t ∷ ts) =
    ground (arith, assign-messages owner now t, update_first-messages p owner now ts)

repeat_lem :
    (a : SubmitArgs) (w : Draw) (s : TurnState) {first : Submitted}
    → leads a.idempotency_key s ≡ some (first.turn_id, first.message_event_id)
    → IsRepeat s first (submit_turn_message a w s)
unfolding submit_turn_message find_message_by_idempotency_key resubmit
repeat_lem a w s {first} h = elim (Option-cases (find_in_turns a.idempotency_key s.turns)) [
  | inl q ↦ absurd (cc (find-none-ids_of a.idempotency_key s.turns q, h))
  | inr ((t, m), q) ↦
      let e = find-ids_of a.idempotency_key s.turns q in
      let turn : t.id ≡ first.turn_id = cc in
      let message : m.id ≡ first.message_event_id = cc in
      rw (q, submit_turn_message, find_message_by_idempotency_key)
        (record {
          turn = turn;
          message = message;
          joined = refl;
          stored =
              update_first-messages (has_key a.idempotency_key) a.delivery_owner_id w.now s.turns;
          counted = refl;
        })
]

-- Once a message was submitted, a submission with the same key, after whatever steps in between, is
-- answered with the turn and the message of the first; it starts no turn and stores no message. The
-- steps may include restarts, each of a state that its file keeps: texts that trimming leaves and
-- that are not empty, messages of text content, turns in chronological order, a next number past
-- them all; and no deletion of the conversation.
pub submit_once :
    (d : Dates) (a b : SubmitArgs) (w x : Draw) (s : TurnState) {s' : TurnState}
    (steps : Steps d (submit_turn_message a w s).0 s')
    → AllReadBack d steps
    → b.idempotency_key ≡ a.idempotency_key
    → IsRepeat s' (submit_turn_message a w s).1 (submit_turn_message b x s')
submit_once d a b w x s {s'} steps read same =
    let first = submit-leads a w s in
    let later = steps-keeps d a.idempotency_key steps read first in
    repeat_lem b x s' (rw same later)
