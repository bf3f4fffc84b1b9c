-- ===== src/Turns/Submitted.antt =====
-- What one submission does to where the keys lead:
-- apps/agent-server/src/agent-server/conversationRuntime.ts, submitTurnMessage.
use smolpaws.Base.{
  ◌≡◌, refl, ◌∙◌, ap, String, false, Option, none, some, List, [], ◌∷◌, ◌++◌, ◌==◌, arith,
  Bool-cases, Option-cases, inl, inr, eq_iff, eq_refl,
}
use smolpaws.Turns.{
  TurnMessage, Turn, TurnState, last_of, get_latest_turn, get_active_turn, is_turn_terminal_status,
  find_in_turns, find_message_by_idempotency_key, create_running_turn, append_accepted_turn_message,
  assign_delivery_owner, message_in,
}
use smolpaws.Turns.Submit.{
  SubmitArgs, Draw, submit_turn_message, resubmit, submit_new, submit_to, new_message, has_key,
}
use smolpaws.Turns.Keyed.{
  ids_of, message_id_in, find-ids_of, find-none-ids_of, Keeps, ids_of-update_first,
  ids_of-update_last, assign_delivery_owner-Keeps, append-Keeps, append-message_id_in,
  ids_of-appended,
}

-- Where the key leads, in a state.
abbrev pub leads : String → TurnState → Option (String × String)
leads key s = ids_of key s.turns

last_of-append : (ts : List Turn) (t : Turn) → last_of (ts ++ t ∷ []) ≡ some t
unfolding last_of
last_of-append [] t = refl
last_of-append (u ∷ []) t = refl
last_of-append (u ∷ v ∷ ts) t = last_of-append (v ∷ ts) t

-- A new turn without messages changes nothing.
ids_of-append :
    (key : String) (ts : List Turn) (t : Turn)
    → message_id_in key t ≡ none
    → ids_of key (ts ++ t ∷ []) ≡ ids_of key ts
unfolding ids_of
ids_of-append key [] t e = rw (e, ids_of) refl
ids_of-append key (u ∷ ts) t e = ground (arith, ids_of-append key ts t e)

module _ (a : SubmitArgs) (w : Draw) where
  abbrev store : Turn → Turn
  store t =
      append_accepted_turn_message (new_message a w)
        (assign_delivery_owner a.delivery_owner_id w.now t).0

  store-Keeps : (key : String) → (a.idempotency_key == key) ≡ false → Keeps key store
  unfolding new_message
  store-Keeps key e t =
      let first = assign_delivery_owner-Keeps key a.delivery_owner_id w.now t in
      let second =
        append-Keeps key (new_message a w) e
          (assign_delivery_owner a.delivery_owner_id w.now t).0 in
      (second.0 ∙ first.0, second.1 ∙ first.1)

  store-id : (t : Turn) → (store t).id ≡ t.id
  unfolding append_accepted_turn_message
  store-id t = (assign_delivery_owner-Keeps a.idempotency_key a.delivery_owner_id w.now t).0

  store-message_id_in :
      (t : Turn)
      → message_id_in a.idempotency_key t ≡ none
      → message_id_in a.idempotency_key (store t) ≡ some w.message_id
  unfolding new_message
  store-message_id_in t h =
      let same = (assign_delivery_owner-Keeps a.idempotency_key a.delivery_owner_id w.now t).1 in
      append-message_id_in a.idempotency_key (new_message a w)
        (assign_delivery_owner a.delivery_owner_id w.now t).0 (eq_refl a.idempotency_key) (same ∙ h)

  active_is_last :
      (s : TurnState) {t : Turn} → get_active_turn s ≡ some t → last_of s.turns ≡ some t
  unfolding get_active_turn get_latest_turn
  active_is_last s e = elim (Option-cases (last_of s.turns)) [
    | inl q ↦ absurd (cc (rw (q, get_active_turn, get_latest_turn) at e))
    | inr (u, q) ↦ elim (Bool-cases (is_turn_terminal_status u.status)) [
      | inl b ↦ absurd (cc (rw (q, get_active_turn, get_latest_turn, b) at e))
      | inr b ↦ q ∙ rw (q, get_active_turn, get_latest_turn, b) at e
    ]
  ]

  abbrev created : TurnState → Turn × TurnState
  created s = create_running_turn w.suffix s w.now a.delivery_owner_id

  created_lem :
      (s : TurnState)
      → ((created s).1.turns ≡ s.turns ++ (created s).0 ∷ [])
        × ((key : String) → message_id_in key (created s).0 ≡ none)
  unfolding create_running_turn message_id_in message_in
  created_lem s = (refl, λ key. refl)

  submit_new-leads :
      (s : TurnState)
      → leads a.idempotency_key s ≡ none
      → let (s', r) = submit_new a w s in
        leads a.idempotency_key s' ≡ some (r.turn_id, r.message_event_id)
  unfolding submit_new submit_to
  submit_new-leads s h = elim (Option-cases (get_active_turn s)) [
    | inl q ↦
        let (shape, bare) = created_lem s in
        let key = a.idempotency_key in
        let t = (created s).0 in
        let fresh : leads key (created s).1 ≡ none =
          ap (ids_of key) shape ∙ ids_of-append key s.turns t (bare key) ∙ h in
        let end : last_of (created s).1.turns ≡ some t =
          ap last_of shape ∙ last_of-append s.turns t in
        rw (q, submit_new)
          (ids_of-appended key w.message_id store (created s).1.turns fresh end (store-id t)
            (store-message_id_in t))
    | inr (t, q) ↦
        rw (q, submit_new)
          (ids_of-appended a.idempotency_key w.message_id store s.turns h (active_is_last s q)
            (store-id t) (store-message_id_in t))
  ]

  submit_new-others :
      (key : String) (s : TurnState)
      → (a.idempotency_key == key) ≡ false
      → leads key (submit_new a w s).0 ≡ leads key s
  unfolding submit_new submit_to
  submit_new-others key s e =
      let keeps = store-Keeps key e in
      elim (Option-cases (get_active_turn s)) [
        | inl q ↦
            let (shape, bare) = created_lem s in
            rw (q, submit_new)
              (ids_of-update_last key store keeps (created s).1.turns
                ∙ ap (ids_of key) shape
                ∙ ids_of-append key s.turns (created s).0 (bare key))
        | inr (t, q) ↦ rw (q, submit_new) (ids_of-update_last key store keeps s.turns)
      ]

  abbrev give_owner : Turn → Turn
  give_owner t = (assign_delivery_owner a.delivery_owner_id w.now t).0

  resubmit-leads :
      (key : String) (s : TurnState) (t : Turn) (m : TurnMessage)
      → leads key (resubmit a w s t m).0 ≡ leads key s
  unfolding resubmit
  resubmit-leads key s t m =
      ids_of-update_first key give_owner (assign_delivery_owner-Keeps key a.delivery_owner_id w.now)
        (has_key a.idempotency_key) s.turns

  -- The key of a submission leads to what the submission names.
  pub submit-leads :
      (s : TurnState)
      → let (s', r) = submit_turn_message a w s in
        leads a.idempotency_key s' ≡ some (r.turn_id, r.message_event_id)
  unfolding submit_turn_message find_message_by_idempotency_key
  submit-leads s = elim (Option-cases (find_in_turns a.idempotency_key s.turns)) [
    | inl q ↦
        rw (q, submit_turn_message, find_message_by_idempotency_key)
          (submit_new-leads s (find-none-ids_of a.idempotency_key s.turns q))
    | inr ((t, m), q) ↦
        rw (q, submit_turn_message, find_message_by_idempotency_key)
          (resubmit-leads a.idempotency_key s t m
            ∙ found t m (find-ids_of a.idempotency_key s.turns q))
  ]
    where
      found :
          (t : Turn) (m : TurnMessage)
          → leads a.idempotency_key s ≡ some (t.id, m.id)
          → let r = (resubmit a w s t m).1 in
            leads a.idempotency_key s ≡ some (r.turn_id, r.message_event_id)
      found t m e = unfold resubmit in e

  -- A key that leads somewhere leads there still.
  pub submit-keeps :
      (key : String) (s : TurnState) {p : String × String}
      → leads key s ≡ some p
      → leads key (submit_turn_message a w s).0 ≡ some p
  unfolding submit_turn_message find_message_by_idempotency_key
  submit-keeps key s h = elim (Option-cases (find_in_turns a.idempotency_key s.turns)) [
    | inl q ↦
        rw (q, submit_turn_message, find_message_by_idempotency_key)
          (elim (Bool-cases (a.idempotency_key == key)) [
            | inl same ↦
                let fresh = find-none-ids_of a.idempotency_key s.turns q in
                let equal : a.idempotency_key ≡ key = (eq_iff a.idempotency_key key).0 same in
                absurd (cc (ap (λ k. ids_of k s.turns) equal, fresh, h))
            | inr other ↦ submit_new-others key s other ∙ h
          ])
    | inr ((t, m), q) ↦
        rw (q, submit_turn_message, find_message_by_idempotency_key) (resubmit-leads key s t m ∙ h)
  ]
