-- ===== src/Recovery/Open.antt =====
-- Which actions a run has open: src/coordinator/runRecovery.ts.
use smolpaws.Base.{
  ◌≡◌, refl, ◌∙◌, ap, &&-left, if◌then◌else◌, String, Bool, true, false, List, [], ◌∷◌, ◌++◌,
  any_where, select, ◌==◌, ◌&&◌, ◌||◌, not, arith, Bool-cases, inl, inr, eq_refl, ==→eq,
}
use smolpaws.Relay.Events.{Event, text_of, is_text}
use smolpaws.Recovery.{is_id, note_action, close_action, advance, progress_of, is_open}

any_where-++ :
    (id x : String) (xs : List String)
    → any_where (is_id id) (xs ++ x ∷ []) ≡ (any_where (is_id id) xs || is_id id x)
unfolding any_where
any_where-++ id x [] = ground arith
any_where-++ id x (y ∷ xs) = ground (arith, any_where-++ id x xs)

any_where-select :
    (id : String) (keep : String → Bool) (xs : List String)
    → any_where (is_id id) (select keep xs) ≡ (any_where (is_id id) xs && keep id)
unfolding any_where select
any_where-select id keep [] = refl
any_where-select id keep (y ∷ xs) = elim (Bool-cases (y == id)) [
  | inl e ↦ rw (==→eq y id e) (ground (arith, any_where-select id keep xs, eq_refl id))
  | inr e ↦ ground (arith, any_where-select id keep xs, e)
]

note_action-Has :
    (id : String) (event : Event) (actions : List String)
    → any_where (is_id id) (note_action event actions)
      ≡ (any_where (is_id id) actions || (event.kind == "ActionEvent" && event.id == id))
unfolding note_action
note_action-Has id event actions = elim (Bool-cases (event.id == id)) [
  | inl e ↦
      let same = ==→eq event.id id e in
      rw same (ground (arith, any_where-++ id id actions, eq_refl id))
  | inr e ↦ ground (arith, any_where-++ id event.id actions, e)
]

abbrev closes : String → Event → Bool
closes id event = event.kind == "ObservationEvent" && is_text id (text_of event "action_id")

close_action-Has :
    (id : String) (event : Event) (actions : List String)
    → any_where (is_id id) (close_action event actions)
      ≡ (any_where (is_id id) actions && not (closes id event))
unfolding close_action
close_action-Has id event actions = elim (Bool-cases (event.kind == "ObservationEvent")) [
  | inl e ↦
      ground
        (arith, e, any_where-select id (λ x. not (is_text x (text_of event "action_id"))) actions)
  | inr e ↦ ground (arith, e)
]

abbrev opens : String → Event → Bool
opens id event = event.kind == "ActionEvent" && event.id == id

opens-closes : (id : String) (event : Event) → closes id event ≡ true → opens id event ≡ false
opens-closes id event p =
    let same = ==→eq event.kind "ObservationEvent" (&&-left _ _ p) in rw same refl

decide :
    (before act observed : Bool)
    → (observed ≡ true → act ≡ false)
    → ((before || act) && not observed) ≡ (if observed then false else if act then true else before)
decide true true true h = refl
decide true true false h = refl
decide true false true h = refl
decide true false false h = refl
decide false true true h = refl
decide false true false h = refl
decide false false true h = refl
decide false false false h = refl

advance-Has :
    (id : String) (event : Event) (earlier : List Event)
    → any_where (is_id id) (progress_of (event ∷ earlier)).actions ≡ (
        (any_where (is_id id) (progress_of earlier).actions || opens id event)
        && not (closes id event))
unfolding progress_of advance
advance-Has id event earlier =
    let before = (progress_of earlier).actions in
    close_action-Has id event (note_action event before)
    ∙ ap (λ b. b && not (closes id event)) (note_action-Has id event before)

-- After any events of a conversation, an action is listed among those that an interruption may have
-- left open exactly when, read from the newest event back, the action comes before any observation
-- of it.
pub actions_open :
    (id : String) (events : List Event)
    → any_where (is_id id) (progress_of events).actions ≡ is_open id events
unfolding progress_of is_open any_where
actions_open id [] = refl
actions_open id (event ∷ earlier) =
    advance-Has id event earlier
    ∙ ap (λ b. (b || opens id event) && not (closes id event)) (actions_open id earlier)
    ∙ decide (is_open id earlier) (opens id event) (closes id event) (opens-closes id event)
