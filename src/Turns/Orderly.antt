-- ===== src/Turns/Orderly.antt =====
-- The turns of a conversation follow one another:
-- apps/agent-server/src/agent-server/conversationRuntime.ts and runner/turnState.ts.
use smolpaws.Base.{
  ◌≡◌, refl, subst, sym, String, true, Option, none, some, ◌==◌, arith, Bool-cases, Option-cases,
  inl, inr,
}
use smolpaws.Turns.{
  Status, Turn, TurnState, last_of, get_latest_turn, get_active_turn, is_turn_terminal_status,
  find_in_turns, find_message_by_idempotency_key, create_running_turn, append_accepted_turn_message,
  assign_delivery_owner, get_turn_by_id, update_turn_status,
}
use smolpaws.Turns.Persist.{Dates}
use smolpaws.Turns.RoundTrip.{read-write_persisted}
use smolpaws.Turns.Processor.{
  settle_active_turn, materialize_active_turn, materialize_pending_turn_messages,
  finalize_turn_if_needed, Terminal, failed, interrupted, fail_active_turn, load_turn_state,
  mark_interrupted, claim_turn_artifacts, granted,
}
use smolpaws.Turns.Submit.{
  SubmitArgs, Draw, submit_turn_message, resubmit, submit_new, submit_to, new_message, update_first,
  update_last, has_key,
}
use smolpaws.Turns.Steps.{
  Step, submit, materialize_active, materialize_known, settle, fail, claim, restart, Steps, done,
  then_step, ReadsBack, AllReadBack,
}
use smolpaws.Turns.Sequence.{
  IsOrderly, Steady, Ascend-last, Ended-last, Ascend-first, Ended-first, Ascend-append,
  Ended-append, on_active-IsOrderly,
}

assign-Steady :
    (owner : Option String) (now : String) → Steady (λ t. (assign_delivery_owner owner now t).0)
unfolding assign_delivery_owner
assign-Steady none now t = (refl, refl)
assign-Steady (some o) now t = (ground arith, ground arith)

materialize-Steady : (now : String) → Steady (materialize_pending_turn_messages now)
unfolding materialize_pending_turn_messages
materialize-Steady now t = (ground arith, ground arith)

finalize-sequence :
    (terminal : Option Terminal) (now : String) (t : Turn)
    → (finalize_turn_if_needed terminal now t).0.sequence ≡ t.sequence
unfolding finalize_turn_if_needed
finalize-sequence none now t = ground arith
finalize-sequence (some r) now t = ground arith

update-sequence :
    (status : Status) (now : String) (t : Turn) (code detail : String)
    → (update_turn_status status now (failed code detail) t).sequence ≡ t.sequence
unfolding update_turn_status
update-sequence status now t code detail = refl

last_has_ended :
    (s : TurnState)
    → get_active_turn s ≡ none
    → (u : Turn) → last_of s.turns ≡ some u
    → is_turn_terminal_status u.status ≡ true
unfolding get_active_turn get_latest_turn
last_has_ended s e u l = elim (Bool-cases (is_turn_terminal_status u.status)) [
  | inl q ↦ q
  | inr q ↦ absurd (cc (rw (l, get_active_turn, get_latest_turn, q) at e))
]

module _ (a : SubmitArgs) (w : Draw) where
  abbrev store : Turn → Turn
  store t =
      append_accepted_turn_message (new_message a w)
        (assign_delivery_owner a.delivery_owner_id w.now t).0

  store-sequence : (t : Turn) → (store t).sequence ≡ t.sequence
  unfolding append_accepted_turn_message
  store-sequence t = (assign-Steady a.delivery_owner_id w.now t).0

  created-IsOrderly :
      (s : TurnState)
      → get_active_turn s ≡ none
      → IsOrderly s
      → IsOrderly (create_running_turn w.suffix s w.now a.delivery_owner_id).1
  unfolding create_running_turn
  created-IsOrderly s e v = record {
    ascend = Ascend-append 1 s.next_sequence s.turns _ refl v.ascend;
    ended = Ended-append s.turns _ (last_has_ended s e) v.ended;
  }

  store-IsOrderly :
      (s : TurnState) → IsOrderly s → IsOrderly (record s { turns = update_last store s.turns })
  store-IsOrderly s v = record {
    ascend = Ascend-last store store-sequence 1 s.next_sequence s.turns v.ascend;
    ended = Ended-last store s.turns v.ended;
  }

  submit-IsOrderly : (s : TurnState) → IsOrderly s → IsOrderly (submit_turn_message a w s).0
  unfolding submit_turn_message find_message_by_idempotency_key resubmit submit_new submit_to
  submit-IsOrderly s v = elim (Option-cases (find_in_turns a.idempotency_key s.turns)) [
    | inl q ↦
        rw (q, submit_turn_message, find_message_by_idempotency_key)
          (elim (Option-cases (get_active_turn s)) [
            | inl n ↦
                rw (n, submit_new)
                  (store-IsOrderly (create_running_turn w.suffix s w.now a.delivery_owner_id).1
                    (created-IsOrderly s n v))
            | inr (t, n) ↦ rw (n, submit_new) (store-IsOrderly s v)
          ])
    | inr ((t, m), q) ↦
        let steady = assign-Steady a.delivery_owner_id w.now in
        let p = has_key a.idempotency_key in
        rw (q, submit_turn_message, find_message_by_idempotency_key)
          (record {
            ascend = Ascend-first _ steady p 1 s.next_sequence s.turns v.ascend;
            ended = Ended-first _ steady p s.turns v.ended;
          })
  ]

claim-IsOrderly :
    (turn_id owner now : String) (s : TurnState) {s' : TurnState}
    → claim_turn_artifacts turn_id owner now s ≡ granted s'
    → IsOrderly s
    → IsOrderly s'
unfolding claim_turn_artifacts
claim-IsOrderly turn_id owner now s {s'} e v = elim (Option-cases (get_turn_by_id s turn_id)) [
  | inl q ↦ absurd (cc (rw (q, claim_turn_artifacts) at e))
  | inr (t, q) ↦ elim (Bool-cases (assign_delivery_owner (some owner) now t).1) [
    | inl b ↦
        let f = λ (u : Turn). (assign_delivery_owner (some owner) now u).0 in
        let p = λ (u : Turn). u.id == turn_id in
        let steady = assign-Steady (some owner) now in
        let shape : record s { turns = update_first p f s.turns } ≡ s' =
          cc (rw (q, claim_turn_artifacts, b) at e) in
        rw (← shape) (record {
          ascend = Ascend-first f steady p 1 s.next_sequence s.turns v.ascend;
          ended = Ended-first f steady p s.turns v.ended;
        })
    | inr b ↦ absurd (cc (rw (q, claim_turn_artifacts, b) at e))
  ]
]

module _ (d : Dates) where
  step-IsOrderly :
      {s s' : TurnState} (step : Step d s s') → ReadsBack d step → IsOrderly s → IsOrderly s'
  unfolding ReadsBack settle_active_turn materialize_active_turn fail_active_turn load_turn_state
      mark_interrupted
  step-IsOrderly {s} (submit a w) k v = submit-IsOrderly a w s v
  step-IsOrderly {s} (materialize_active now) k v =
      on_active-IsOrderly (materialize_pending_turn_messages now)
        (λ t. (materialize-Steady now t).0) s v
  step-IsOrderly {s} (materialize_known key now) k v =
      let steady = materialize-Steady now in
      record {
        ascend = Ascend-first _ steady (has_key key) 1 s.next_sequence s.turns v.ascend;
        ended = Ended-first _ steady (has_key key) s.turns v.ended;
      }
  step-IsOrderly {s} (settle terminal now) k v =
      on_active-IsOrderly _ (finalize-sequence terminal now) s v
  step-IsOrderly {s} (fail now message) k v =
      on_active-IsOrderly _
        (λ t. update-sequence Status.error now t "turn_processor_failed" message) s v
  step-IsOrderly {s} (claim turn_id owner now e) k v = claim-IsOrderly turn_id owner now s e v
  step-IsOrderly {s} (restart now) w v =
      let same = read-write_persisted d s w in
      subst (λ (r : TurnState). IsOrderly (mark_interrupted now r)) (sym same)
        (on_active-IsOrderly (update_turn_status Status.stuck now interrupted) (λ t. refl) s v)

  -- Whatever happens to the turns of a conversation, their sequences ascend below the next one, and
  -- every turn but the last has ended: at most one turn is running, and it is the last. Restarts may
  -- happen, each of a state that its file keeps: texts that trimming leaves and that are not empty,
  -- messages of text content, turns in chronological order, a next number past them all.
  pub steps-IsOrderly :
      {s s' : TurnState} (steps : Steps d s s') → AllReadBack d steps → IsOrderly s → IsOrderly s'
  unfolding AllReadBack
  steps-IsOrderly done k v = v
  steps-IsOrderly (then_step r st) k v = step-IsOrderly st k.1 (steps-IsOrderly r k.0 v)
