-- ===== src/Relay/Outbox/Replay.antt =====
-- Crash safety of `syncDeliveryOutbox`, src/coordinator/messageRelay.ts: a page that is processed
-- again, because the cursor was not yet moved, queues nothing.
use smolpaws.Base.{
  ℕ, suc, ◌≡◌, ◌⊎◌, refl, String, true, false, List, [], ◌∷◌, ◌++◌, Option-cases, inl, inr,
}
use smolpaws.Json.{Json}
use smolpaws.Store.{Store, Env}
use smolpaws.Relay.{Options}
use smolpaws.Relay.Events.{Event}
use smolpaws.Relay.Outbox.{
  SearchReply, Echo, answer, echo_failed, echo_fuel, is_queued_final_echo, Synced, synced,
  sync_failed, SyncError, queue_delivery, after_echo, sync_event, sync_events, may_echo,
}
use smolpaws.Relay.Outbox.Growth.{Grows, Grows-refl, Grows-trans}
use smolpaws.Relay.Outbox.Later.{LaterEcho, echo-Later, LaterEcho-eq, queue_delivery-synced}

-- What a part of a synchronization did: the store grew, and on any store grown from there the part
-- does nothing.
record Repeats (st st1 : Store) (again : ℕ → Store → Synced) : Type 0 where
  grows : Grows st st1
  idle : (st' : Store) → Grows st1 st' → (n : ℕ) → again n st' ≡ synced n st'

pub Synced-cases :
    (r : Synced)
    → ((n : ℕ) × (s : Store) × (r ≡ synced n s))
      ⊎ ((x : SyncError) × (s : Store) × (r ≡ sync_failed x s))
Synced-cases (synced n s) = inl (n, s, refl)
Synced-cases (sync_failed x s) = inr (x, s, refl)

synced-store : {n m : ℕ} {s t : Store} → synced n s ≡ synced m t → s ≡ t
synced-store p = cc

after_echo-synced :
    (r : Echo) (n : ℕ) (st : Store) (queued : Synced) {m : ℕ} {st1 : Store}
    → after_echo r n st queued ≡ synced m st1
    → ((r ≡ answer true) × (st ≡ st1)) ⊎ ((r ≡ answer false) × (queued ≡ synced m st1))
unfolding after_echo
after_echo-synced (answer true) n st queued p = inl (refl, cc)
after_echo-synced (answer false) n st queued p = inr (refl, p)
after_echo-synced (echo_failed error) n st queued p = absurd (cc p)
after_echo-synced echo_fuel n st queued p = absurd (cc p)

-- The same answer or an echo.
after_echo-idle :
    (r r' : Echo) (n : ℕ) (st : Store) (queued : Synced)
    → LaterEcho r r'
    → (r ≡ answer true) ⊎ ((r ≡ answer false) × (queued ≡ synced n st))
    → after_echo r' n st queued ≡ synced n st
unfolding after_echo
after_echo-idle r r' n st queued l (inl t) = elim (LaterEcho-eq l) [
  | inl s ↦ rw (s, t)
  | inr f ↦ rw f
]
after_echo-idle r r' n st queued l (inr (t, q)) = elim (LaterEcho-eq l) [
  | inl s ↦ rw (s, t) q
  | inr f ↦ rw f
]

module _ (e : Env) (o : Options) (search : ℕ → ℕ → SearchReply) (lane : String)
    (offset now : ℕ) where
  abbrev echo_of : Store → String → List Event → Echo
  echo_of st text earlier =
      is_queued_final_echo (suc offset) search o.outbox_sync_page_size st lane text offset earlier

  echo-Repeats :
      (earlier : List Event) (event : Event) (intent : Json) (text : String) (st : Store)
      {st1 : Store} (n : ℕ) {m : ℕ}
      → after_echo (echo_of st text earlier) n st (queue_delivery e lane event intent now n st)
        ≡ synced m st1
      → Repeats st st1 (λ n' st'.
        after_echo
          (echo_of st' text earlier)
          n'
          st'
          (queue_delivery e lane event intent now n' st'))
  echo-Repeats earlier event intent text st {st1} n {m} p =
      elim (after_echo-synced (echo_of st text earlier) n st _ p) [
        | inl (t, s) ↦ rw (← s) (record {
          grows = Grows-refl st;
          idle = λ st' g n'.
              after_echo-idle (echo_of st text earlier) (echo_of st' text earlier) n' st' _
                (echo-Later g lane text search o.outbox_sync_page_size (suc offset) offset earlier)
                (inl t);
        })
        | inr (t, q) ↦ record {
          grows = (queue_delivery-synced e lane event intent now {st' = st1} n q).0;
          idle = λ st' g n'.
              let both = queue_delivery-synced e lane event intent now {st' = st'} n q in
              after_echo-idle (echo_of st text earlier) (echo_of st' text earlier) n' st' _
                (echo-Later (Grows-trans both.0 g) lane text search o.outbox_sync_page_size
                  (suc offset) offset earlier)
                (inr (t, both.1 n' g));
        }
      ]

  sync_event-Repeats :
      (earlier : List Event) (event : Event) (st : Store) {st1 : Store} (n : ℕ) {m : ℕ}
      → sync_event e o search lane offset earlier event now n st ≡ synced m st1
      → Repeats st st1 (λ n' st'. sync_event e o search lane offset earlier event now n' st')
  unfolding sync_event
  sync_event-Repeats earlier event st {st1} n {m} p = elim (Option-cases (o.extractor event)) [
    | inl q ↦
        let s : st ≡ st1 = cc (rw (q, sync_event) at p) in
        rw (← s) (record { grows = Grows-refl st; idle = λ st' g n'. rw (q, sync_event) })
    | inr (intent, q) ↦ elim (Option-cases (may_echo event intent)) [
      | inl x ↦
          let r = rw (q, x, sync_event) at p in
          record {
            grows = (queue_delivery-synced e lane event intent now {st' = st1} n r).0;
            idle = λ st' g n'.
                rw (q, x, sync_event)
                  ((queue_delivery-synced e lane event intent now {st' = st'} n r).1 n' g);
          }
      | inr (text, x) ↦
          let r = echo-Repeats earlier event intent text st n (rw (q, x, sync_event) at p) in
          record { grows = r.grows; idle = λ st' g n'. rw (q, x, sync_event) (r.idle st' g n') }
    ]
  ]

  sync_events-Repeats :
      (earlier events : List Event) (st : Store) {st1 : Store} (n : ℕ) {m : ℕ}
      → sync_events e o search lane offset earlier events now n st ≡ synced m st1
      → Repeats st st1 (λ n' st'. sync_events e o search lane offset earlier events now n' st')
  unfolding sync_events
  sync_events-Repeats earlier [] st n p =
      let s = synced-store p in rw (← s) (record { grows = Grows-refl st; idle = λ st' g n'. refl })
  sync_events-Repeats earlier (event ∷ events) st n p =
      elim (Synced-cases (sync_event e o search lane offset earlier event now n st)) [
        | inr (x, s, q) ↦ absurd (cc (rw (q, sync_events) at p))
        | inl (k, s, q) ↦
            let one = sync_event-Repeats earlier event st n q in
            let rest =
              sync_events-Repeats (earlier ++ event ∷ []) events s k (rw (q, sync_events) at p) in
            record {
              grows = Grows-trans one.grows rest.grows;
              idle = λ st' g n'.
                  rw (one.idle st' (Grows-trans rest.grows g) n', sync_events) (rest.idle st' g n');
            }
      ]

  -- When a page was processed without an error, processing it again on the store that came of it,
  -- as after a crash before the cursor moved, succeeds, counts no new delivery and changes nothing.
  pub replay_idle :
      (events : List Event) (st : Store) {st1 : Store} (n : ℕ) {m : ℕ}
      → sync_events e o search lane offset [] events now n st ≡ synced m st1
      → (n' : ℕ) → sync_events e o search lane offset [] events now n' st1 ≡ synced n' st1
  replay_idle events st {st1} n p n' =
      (sync_events-Repeats [] events st n p).idle st1 (Grows-refl st1) n'
