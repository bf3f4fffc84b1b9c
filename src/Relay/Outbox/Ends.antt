-- ===== src/Relay/Outbox/Ends.antt =====
-- The loops of `syncDeliveryOutbox` and `isQueuedFinalEcho` end: src/coordinator/messageRelay.ts.
use smolpaws.Base.{
  ℕ, zero, suc, ◌+◌, ◌-◌, ◌<◌, ◌≡◌, ◌≢◌, refl, String, true, false, Option, List, [], ◌∷◌, ◌++◌,
  length, ◌=?◌, arith, Bool-cases, Option-cases, inl, inr,
}
use mathlib.Core.List.{reverse}
use smolpaws.Work.{LaneRow, WorkKind}
use smolpaws.Json.{Json}
use smolpaws.Store.{Store, Env, Result-cases, get_work_by_source_key, get_lane_by_conversation_id}
use smolpaws.Store.Accept.{insert_delivery}
use smolpaws.Store.Cursors.{is_projection_cursor_parked}
use smolpaws.Relay.{Options}
use smolpaws.Relay.Events.{Event}
use smolpaws.Relay.Outbox.{
  SearchReply, page, scan_back, Echo, answer, echo_failed, echo_fuel, is_queued_final_echo, Synced,
  synced, sync_failed, out_of_fuel, store_error, agent_error, queue_delivery, after_echo,
  sync_event, sync_events, sync_pages, sync_delivery_outbox, may_echo, delivery_key, is_gone,
}
use smolpaws.Relay.Outbox.Replay.{Synced-cases}
use smolpaws.Relay.Outbox.Later.{SearchReply-cases}

module _ (search : ℕ → ℕ → SearchReply) (size : ℕ) (st : Store) (lane text : String) where
  echo-ends :
      (fuel before : ℕ) (events : List Event)
      → 0 < size
      → before < fuel
      → is_queued_final_echo fuel search size st lane text before events ≢ echo_fuel
  unfolding is_queued_final_echo
  echo-ends zero before events s f = λ p. absurd (omega arith)
  echo-ends (suc fuel) before events s f = λ p.
      elim (Option-cases (scan_back st lane text (reverse events))) [
        | inr (b, q) ↦ cc (rw (q, is_queued_final_echo) at p)
        | inl q ↦ elim (Bool-cases (before =? 0)) [
          | inl z ↦ cc (rw (q, z, is_queued_final_echo) at p)
          | inr z ↦ elim (SearchReply-cases (search (before - size) (before - (before - size)))) [
            | inl (error, r) ↦ cc (rw (q, z, r, is_queued_final_echo) at p)
            | inr (items, more, r) ↦
                echo-ends fuel (before - size) items s (ground arith)
                  (rw (q, z, r, is_queued_final_echo) at p)
          ]
        ]
      ]

-- A part of the call that does not run out.
abbrev Ends : Synced → Type 0
Ends r = (st : Store) → r ≢ sync_failed out_of_fuel st

synced-Ends : (n : ℕ) (st : Store) → Ends (synced n st)
synced-Ends n st st' p = cc p

store_error-Ends : (x : _) (st : Store) → Ends (sync_failed (store_error x) st)
store_error-Ends x st st' p = cc p

agent_error-Ends : (x : _) (st : Store) → Ends (sync_failed (agent_error x) st)
agent_error-Ends x st st' p = cc p

queue_delivery-Ends :
    (e : Env) (lane : String) (event : Event) (intent : Json) (now n : ℕ) (st : Store)
    → Ends (queue_delivery e lane event intent now n st)
unfolding queue_delivery
queue_delivery-Ends e lane event intent now n st =
    elim (Result-cases (
      insert_delivery e
        (record {
          source_key = delivery_key event.id lane;
          lane_key = lane;
          agent_event_id = event.id;
          payload = intent;
        })
        now st)) [
          | inl (x, q) ↦ rw (q, queue_delivery) (store_error-Ends x st)
          | inr ((st', row), q) ↦
              elim (Option-cases
                (get_work_by_source_key st WorkKind.delivery (delivery_key event.id lane))) [
                  | inl r ↦ rw (q, r, queue_delivery) (synced-Ends (n + 1) st')
                  | inr (w, r) ↦ rw (q, r, queue_delivery) (synced-Ends n st')
                ]
        ]

after_echo-Ends :
    (r : Echo) (n : ℕ) (st : Store) (queued : Synced)
    → r ≢ echo_fuel
    → Ends queued
    → Ends (after_echo r n st queued)
unfolding after_echo
after_echo-Ends (answer true) n st queued f q = synced-Ends n st
after_echo-Ends (answer false) n st queued f q = q
after_echo-Ends (echo_failed error) n st queued f q = agent_error-Ends error st
after_echo-Ends echo_fuel n st queued f q = absurd (f refl)

module _ (e : Env) (o : Options) (search : ℕ → ℕ → SearchReply)
    (positive : 0 < o.outbox_sync_page_size) (now : ℕ) where
  sync_event-Ends :
      (lane : String) (offset : ℕ) (earlier : List Event) (event : Event) (n : ℕ) (st : Store)
      → Ends (sync_event e o search lane offset earlier event now n st)
  unfolding sync_event
  sync_event-Ends lane offset earlier event n st = elim (Option-cases (o.extractor event)) [
    | inl q ↦ rw (q, sync_event) (synced-Ends n st)
    | inr (intent, q) ↦ elim (Option-cases (may_echo event intent)) [
      | inl r ↦ rw (q, r, sync_event) (queue_delivery-Ends e lane event intent now n st)
      | inr (text, r) ↦
          rw (q, r, sync_event)
            (after_echo-Ends _ n st _
              (echo-ends search o.outbox_sync_page_size st lane text (suc offset) offset earlier
                positive (omega arith))
              (queue_delivery-Ends e lane event intent now n st))
    ]
  ]

  sync_events-Ends :
      (lane : String) (offset : ℕ) (earlier events : List Event) (n : ℕ) (st : Store)
      → Ends (sync_events e o search lane offset earlier events now n st)
  unfolding sync_events
  sync_events-Ends lane offset earlier [] n st = synced-Ends n st
  sync_events-Ends lane offset earlier (event ∷ events) n st =
      elim (Synced-cases (sync_event e o search lane offset earlier event now n st)) [
        | inr (x, s, q) ↦
            let first : Ends (sync_failed x s) =
              rw q at (sync_event-Ends lane offset earlier event n st) in
            rw (q, sync_events) first
        | inl (m, s, q) ↦
            rw (q, sync_events) (sync_events-Ends lane offset (earlier ++ event ∷ []) events m s)
      ]

  module _ (total : ℕ)
      (finite : (offset : ℕ) (items : List Event)
        → search offset o.outbox_sync_page_size ≡ page items true
        → (0 < length items) × (offset + length items < total)) where
    sync_pages-Ends :
        (print : ℕ → String) (lane : LaneRow) (fuel offset n : ℕ) (st : Store)
        → total < offset + fuel
        → 0 < fuel
        → Ends (sync_pages fuel e o print search lane offset now n st)
    unfolding sync_pages
    sync_pages-Ends print lane zero offset n st f z = absurd (omega arith)
    sync_pages-Ends print lane (suc fuel) offset n st f z =
        elim (SearchReply-cases (search offset o.outbox_sync_page_size)) [
          | inl (error, q) ↦ elim (Bool-cases (is_gone error.status)) [
            | inl g ↦ rw (q, g, sync_pages) (synced-Ends n _)
            | inr g ↦ rw (q, g, sync_pages) (agent_error-Ends error st)
          ]
          | inr (items, more, q) ↦
              elim (Synced-cases (sync_events e o search lane.lane_key offset [] items now n st)) [
                | inr (x, s, r) ↦
                    let first : Ends (sync_failed x s) =
                      rw r at (sync_events-Ends lane.lane_key offset [] items n st) in
                    rw (q, r, sync_pages) first
                | inl (m, s, r) ↦ elim (Bool-cases more) [
                  | inr l ↦ rw (q, r, l, sync_pages) (synced-Ends m _)
                  | inl l ↦
                      let (grows, bound) = finite offset items (rw l at q) in
                      rw (q, r, l, sync_pages)
                        (sync_pages-Ends print lane fuel (offset + length items) m _ (omega arith)
                          (omega arith))
                ]
              ]
        ]

    -- When the page size is positive, and the agent-server has fewer events than `total` and reports
    -- a further page only after a page that is not empty, a synchronization ends: `total` and one are
    -- enough steps for its loop over the pages from any cursor, and the scan for an echo ends on each.
    pub sync_ends :
        (print : ℕ → String) (parse : String → Option ℕ) (id : String) (st st' : Store)
        → sync_delivery_outbox (suc total) e o print parse search id now st
          ≢ sync_failed out_of_fuel st'
    unfolding sync_delivery_outbox
    sync_ends print parse id st = elim (Option-cases (get_lane_by_conversation_id st id)) [
      | inl q ↦ rw (q, sync_delivery_outbox) (synced-Ends 0 st)
      | inr (lane, q) ↦ elim (Bool-cases (is_projection_cursor_parked st id)) [
        | inl r ↦ rw (q, r, sync_delivery_outbox) (synced-Ends 0 st)
        | inr r ↦
            rw (q, r, sync_delivery_outbox)
              (sync_pages-Ends print lane (suc total) _ 0 st (omega arith) (omega arith))
      ]
    ]
