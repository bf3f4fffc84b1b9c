-- ===== src/Turns/Keyed.antt =====
-- Which turn and message a key leads to, under the updates of turns:
-- apps/agent-server/src/runner/turnState.ts and agent-server/conversationRuntime.ts.
use smolpaws.Base.{
  ◌≡◌, refl, String, Bool, true, false, Option, none, some, List, [], ◌∷◌, ◌++◌, ◌==◌, map, arith,
  find_first, Bool-cases, Option-cases, inl, inr, any_where,
}
use smolpaws.Turns.{
  TurnMessage, Turn, last_of, message_in, find_in_turns, is_owned_by, append_accepted_turn_message,
  update_turn_status, StatusOptions, Status, assign_delivery_owner,
}
use smolpaws.Turns.Processor.{
  is_pending, materialize_message, materialize_pending_turn_messages, Terminal,
  finalize_turn_if_needed,
}
use smolpaws.Turns.Submit.{update_first, update_last}

-- The id of a turn's message with the key.
unfoldable pub message_id_in : String → Turn → Option String
unfolding message_in
message_id_in key t = elim (message_in key t) [ none ↦ none | some m ↦ some m.id ]

-- The ids of the turn and the message that the key leads to.
unfoldable pub ids_of : String → List Turn → Option (String × String)
unfolding message_id_in
ids_of key [] = none
ids_of key (t ∷ ts) =
    let later = ids_of key ts in
    elim (message_id_in key t) [ none ↦ later | some m ↦ some (t.id, m) ]

pub find-ids_of :
    (key : String) (ts : List Turn) {t : Turn} {m : TurnMessage}
    → find_in_turns key ts ≡ some (t, m)
    → ids_of key ts ≡ some (t.id, m.id)
unfolding find_in_turns ids_of message_in
find-ids_of key [] e = absurd (cc)
find-ids_of key (t ∷ ts) e = elim (Option-cases (message_in key t)) [
  | inl q ↦ rw (q, ids_of, message_id_in) (find-ids_of key ts (rw (q, find_in_turns) at e))
  | inr (m, q) ↦ rw (q, ids_of, message_id_in) (cc (rw (q, find_in_turns) at e))
]

pub find-none-ids_of :
    (key : String) (ts : List Turn) → find_in_turns key ts ≡ none → ids_of key ts ≡ none
unfolding find_in_turns ids_of message_in
find-none-ids_of key [] e = refl
find-none-ids_of key (t ∷ ts) e = elim (Option-cases (message_in key t)) [
  | inl q ↦ rw (q, ids_of, message_id_in) (find-none-ids_of key ts (rw (q, find_in_turns) at e))
  | inr (m, q) ↦ absurd (cc (rw (q, find_in_turns) at e))
]

-- An update that leaves what the key leads to.
abbrev pub Keeps : String → (Turn → Turn) → Type 0
Keeps key f = (t : Turn) → ((f t).id ≡ t.id) × (message_id_in key (f t) ≡ message_id_in key t)

module _ (key : String) (f : Turn → Turn) (k : Keeps key f) where
  pub ids_of-update_first :
      (p : Turn → Bool) (ts : List Turn) → ids_of key (update_first p f ts) ≡ ids_of key ts
  unfolding ids_of update_first
  ids_of-update_first p [] = refl
  ids_of-update_first p (t ∷ ts) = ground (arith, k t, ids_of-update_first p ts)

  pub ids_of-update_last : (ts : List Turn) → ids_of key (update_last f ts) ≡ ids_of key ts
  unfolding ids_of update_last
  ids_of-update_last [] = refl
  ids_of-update_last (t ∷ []) = ground (arith, k t)
  ids_of-update_last (t ∷ u ∷ ts) = ground (arith, ids_of-update_last (u ∷ ts))

pub assign_delivery_owner-Keeps :
    (key : String) (owner : Option String) (now : String)
    → Keeps key (λ t. (assign_delivery_owner owner now t).0)
unfolding assign_delivery_owner message_id_in
assign_delivery_owner-Keeps key none now t = (refl, refl)
assign_delivery_owner-Keeps key (some o) now t = elim (Bool-cases (o == "")) [
  | inl e ↦ rw (e, assign_delivery_owner) (refl, refl)
  | inr e ↦ elim (Bool-cases (is_owned_by o t.delivery_owner_id)) [
    | inl q ↦ rw (e, assign_delivery_owner, q) (refl, refl)
    | inr q ↦ rw (e, assign_delivery_owner, q) (refl, refl)
  ]
]

pub update_turn_status-Keeps :
    (key : String) (status : Status) (now : String) (options : StatusOptions)
    → Keeps key (update_turn_status status now options)
unfolding update_turn_status message_id_in message_in
update_turn_status-Keeps key status now options t = (refl, refl)

pub finalize-Keeps :
    (key : String) (terminal : Option Terminal) (now : String)
    → Keeps key (λ t. (finalize_turn_if_needed terminal now t).0)
unfolding finalize_turn_if_needed
finalize-Keeps key terminal now t = elim (Bool-cases (any_where is_pending t.messages)) [
  | inl q ↦ rw (q, finalize_turn_if_needed) (refl, refl)
  | inr q ↦ elim (Option-cases terminal) [
    | inl n ↦ rw (q, finalize_turn_if_needed, n) (refl, refl)
    | inr (r, n) ↦
        rw (q, finalize_turn_if_needed, n) (update_turn_status-Keeps key r.status now r.options t)
  ]
]

first_id : String → List TurnMessage → Option String
unfolding find_first
first_id key ms = elim (find_first (λ m. m.idempotency_key == key) ms) [
  | none ↦ none
  | some m ↦ some m.id
]

first_id-materialize :
    (key : String) (ms : List TurnMessage)
    → first_id key (map materialize_message ms) ≡ first_id key ms
unfolding first_id materialize_message
first_id-materialize key [] = refl
first_id-materialize key (m ∷ ms) = ground (arith, first_id-materialize key ms)

pub materialize-Keeps : (key now : String) → Keeps key (materialize_pending_turn_messages now)
unfolding materialize_pending_turn_messages message_id_in message_in
materialize-Keeps key now t = elim (Bool-cases (any_where is_pending t.messages)) [
  | inl q ↦
      rw (q, materialize_pending_turn_messages)
        (refl, unfold first_id in first_id-materialize key t.messages)
  | inr q ↦ rw (q, materialize_pending_turn_messages) (refl, refl)
]

first_id-append :
    (key : String) (ms : List TurnMessage) (m : TurnMessage)
    → (m.idempotency_key == key) ≡ false
    → first_id key (ms ++ m ∷ []) ≡ first_id key ms
unfolding first_id
first_id-append key [] m e = rw (e, first_id, find_first) refl
first_id-append key (n ∷ ms) m e = ground (arith, first_id-append key ms m e)

first_id-append_self :
    (key : String) (ms : List TurnMessage) (m : TurnMessage)
    → (m.idempotency_key == key) ≡ true
    → first_id key ms ≡ none
    → first_id key (ms ++ m ∷ []) ≡ some m.id
unfolding first_id
first_id-append_self key [] m e h = rw (e, first_id, find_first) refl
first_id-append_self key (n ∷ ms) m e h = ground (arith, first_id-append_self key ms m e)

-- A message with another key leaves what the key leads to.
pub append-Keeps :
    (key : String) (m : TurnMessage)
    → (m.idempotency_key == key) ≡ false
    → Keeps key (append_accepted_turn_message m)
unfolding append_accepted_turn_message message_id_in message_in
append-Keeps key m e t = (refl, unfold first_id in first_id-append key t.messages m e)

pub append-message_id_in :
    (key : String) (m : TurnMessage) (t : Turn)
    → (m.idempotency_key == key) ≡ true
    → message_id_in key t ≡ none
    → message_id_in key (append_accepted_turn_message m t) ≡ some m.id
unfolding append_accepted_turn_message message_id_in message_in
append-message_id_in key m t e h = unfold first_id in first_id-append_self key t.messages m e h

-- A key that leads nowhere leads to the last turn once that turn has a message with it.
pub ids_of-appended :
    (key id : String) (f : Turn → Turn) (ts : List Turn) {t : Turn}
    → ids_of key ts ≡ none
    → last_of ts ≡ some t
    → (f t).id ≡ t.id
    → (message_id_in key t ≡ none → message_id_in key (f t) ≡ some id)
    → ids_of key (update_last f ts) ≡ some (t.id, id)
unfolding ids_of last_of update_last
ids_of-appended key id f [] h l e k = absurd (cc)
ids_of-appended key id f (u ∷ []) {t} h l e k =
    let same : u ≡ t = ground arith in
    let hit = k (rw (← same) (ground arith)) in
    let name : (f u).id ≡ t.id = rw same e in
    let found : message_id_in key (f u) ≡ some id = rw same hit in ground arith
ids_of-appended key id f (u ∷ v ∷ ts) {t} h l e k =
    let later : ids_of key (update_last f (v ∷ ts)) ≡ some (t.id, id) =
      ids_of-appended key id f (v ∷ ts) (tail_none u (v ∷ ts) h) l e k in
    rw (head_none u (v ∷ ts) h, ids_of) later
  where
    tail_none : (u : Turn) (ts : List Turn) → ids_of key (u ∷ ts) ≡ none → ids_of key ts ≡ none
    tail_none u ts h = elim (Option-cases (message_id_in key u)) [
      | inl q ↦ rw (q, ids_of) at h
      | inr (m, q) ↦ absurd (cc (rw (q, ids_of) at h))
    ]

    head_none :
        (u : Turn) (ts : List Turn) → ids_of key (u ∷ ts) ≡ none → message_id_in key u ≡ none
    head_none u ts h = elim (Option-cases (message_id_in key u)) [
      | inl q ↦ q
      | inr (m, q) ↦ absurd (cc (rw (q, ids_of) at h))
    ]
