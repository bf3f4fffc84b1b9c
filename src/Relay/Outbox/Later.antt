-- ===== src/Relay/Outbox/Later.antt =====
-- One event on a later store: src/coordinator/messageRelay.ts.
use smolpaws.Base.{
  ℕ, zero, suc, ◌-◌, ◌≡◌, ◌⊎◌, refl, String, Bool, true, Option, some, List, [], ◌∷◌, ◌=?◌,
  any_where, Bool-cases, Option-cases, inl, inr,
}
use mathlib.Core.List.{reverse}
use smolpaws.Json.{Json}
use smolpaws.Work.{WorkRow, WorkKind, DeliveryInput}
use smolpaws.Store.{Store, Env, ok, Result-cases, is_lane, get_work_by_source_key}
use smolpaws.Store.Accept.{insert_delivery}
use smolpaws.Relay.{AgentError}
use smolpaws.Relay.Events.{Event}
use smolpaws.Relay.Extract.{send_message_extractor}
use smolpaws.Relay.Outbox.{
  SearchReply, page, search_failed, is_queued_text, ends_turn, scan_back, Echo, answer,
  is_queued_final_echo, synced, queue_delivery, delivery_key, is_absent,
}
use smolpaws.Relay.Outbox.Growth.{Grows, insert_delivery-Queues, insert_delivery-known}

-- On a grown store the scan answers the same, or finds an echo.
pub SearchReply-cases :
    (r : SearchReply)
    → ((error : AgentError) × (r ≡ search_failed error))
      ⊎ ((items : List Event) × (more : Bool) × (r ≡ page items more))
SearchReply-cases (search_failed error) = inl (error, refl)
SearchReply-cases (page items more) = inr (items, more, refl)

data Later : Option Bool → Option Bool → Type 0 where
  same : {r : Option Bool} → Later r r
  found : {r : Option Bool} → Later r (some true)

pub data LaterEcho : Echo → Echo → Type 0 where
  same_echo : {r : Echo} → LaterEcho r r
  found_echo : {r : Echo} → LaterEcho r (answer true)

module _ {st st' : Store} (g : Grows st st') (lane text : String) where
  is_queued_text-Grows :
      (event : Event)
      → is_queued_text st lane text event ≡ true
      → is_queued_text st' lane text event ≡ true
  unfolding is_queued_text
  is_queued_text-Grows event p =
      elim (Option-cases
        (get_work_by_source_key st WorkKind.delivery (delivery_key event.id lane))) [
          | inl q ↦ absurd (cc (rw (q, is_queued_text) at p))
          | inr (w, q) ↦
              rw (g.rows WorkKind.delivery _ w q, is_queued_text) (rw (q, is_queued_text) at p)
        ]

  scan_back-Later :
      (events : List Event) → Later (scan_back st lane text events) (scan_back st' lane text events)
  unfolding scan_back
  scan_back-Later [] = same
  scan_back-Later (event ∷ events) = elim (Bool-cases (ends_turn event)) [
    | inl e ↦ rw (e, scan_back) same
    | inr e ↦ elim (Bool-cases (is_absent (send_message_extractor event))) [
      | inl a ↦ rw (e, a, scan_back) (scan_back-Later events)
      | inr a ↦ elim (Bool-cases (is_queued_text st lane text event)) [
        | inl q ↦ rw (e, a, q, is_queued_text-Grows event q, scan_back) same
        | inr q ↦ elim (Bool-cases (is_queued_text st' lane text event)) [
          | inl q' ↦ rw (e, a, q, q', scan_back) found
          | inr q' ↦ rw (e, a, q, q', scan_back) (scan_back-Later events)
        ]
      ]
    ]
  ]

Later-eq : {r r' : Option Bool} → Later r r' → (r' ≡ r) ⊎ (r' ≡ some true)
Later-eq same = inl refl
Later-eq found = inr refl

module _ {st st' : Store} (g : Grows st st') (lane text : String) (search : ℕ → ℕ → SearchReply)
    (size : ℕ) where
  pub echo-Later :
      (fuel before : ℕ) (events : List Event)
      → LaterEcho
          (is_queued_final_echo fuel search size st lane text before events)
          (is_queued_final_echo fuel search size st' lane text before events)
  unfolding is_queued_final_echo
  echo-Later zero before events = same_echo
  echo-Later (suc fuel) before events =
      elim (Later-eq (scan_back-Later g lane text (reverse events))) [
        | inr f ↦ rw (f, is_queued_final_echo) found_echo
        | inl s ↦ elim (Option-cases (scan_back st lane text (reverse events))) [
          | inr (b, q) ↦ rw (s, q, is_queued_final_echo) same_echo
          | inl q ↦ elim (Bool-cases (before =? 0)) [
            | inl z ↦ rw (s, q, z, is_queued_final_echo) same_echo
            | inr z ↦ elim (SearchReply-cases (search (before - size) (before - (before - size)))) [
              | inl (error, f) ↦ rw (s, q, z, f, is_queued_final_echo) same_echo
              | inr (items, more, f) ↦
                  rw (s, q, z, f, is_queued_final_echo) (echo-Later fuel (before - size) items)
            ]
          ]
        ]
      ]

pub LaterEcho-eq : {r r' : Echo} → LaterEcho r r' → (r' ≡ r) ⊎ (r' ≡ answer true)
LaterEcho-eq same_echo = inl refl
LaterEcho-eq found_echo = inr refl

-- A queued event is known to any grown store.
module _ (e : Env) (lane : String) (event : Event) (intent : Json) (now : ℕ)
    {st st1 st' : Store} where
  pub queue_delivery-synced :
      (n : ℕ) {m : ℕ}
      → queue_delivery e lane event intent now n st ≡ synced m st1
      → Grows st st1
        × ((n' : ℕ) → Grows st1 st' → queue_delivery e lane event intent now n' st' ≡ synced n' st')
  unfolding queue_delivery
  queue_delivery-synced n {m} p = elim (Result-cases (insert_delivery e (input) now st)) [
    | inl (x, q) ↦ absurd (cc (rw (q, queue_delivery) at p))
    | inr ((st2, row), q) ↦
        let i = insert_delivery-Queues e (input) now st q in
        let end = stored st2 row q in
        let queued : get_work_by_source_key st1 WorkKind.delivery (delivery_key event.id lane)
            ≡ some row =
          rw (← end) i.queued in
        let grows : Grows st st1 = rw (← end) i.grows in
        (
          grows,
          λ n' g.
              known row n' (rw (g.lanes, grows.lanes) i.lane_known)
                (g.rows WorkKind.delivery (delivery_key event.id lane) row queued),
        )
  ]
    where
      input : DeliveryInput
      input = record {
        source_key = delivery_key event.id lane;
        lane_key = lane;
        agent_event_id = event.id;
        payload = intent;
      }

      known :
          (row : WorkRow) (n' : ℕ)
          → any_where (is_lane lane) st'.lanes ≡ true
          → get_work_by_source_key st' WorkKind.delivery (delivery_key event.id lane) ≡ some row
          → queue_delivery e lane event intent now n' st' ≡ synced n' st'
      known row n' l q = rw (insert_delivery-known e input now st' l q, q, queue_delivery) refl

      stored :
          (st2 : Store) (row : WorkRow) → insert_delivery e input now st ≡ ok (st2, row) → st2 ≡ st1
      stored st2 row q =
          elim (Option-cases
            (get_work_by_source_key st WorkKind.delivery (delivery_key event.id lane))) [
              | inl o ↦ cc (rw (q, o, queue_delivery) at p)
              | inr (w, o) ↦ cc (rw (q, o, queue_delivery) at p)
            ]
