-- ===== src/Examples/Handoff.antt =====
-- A tick of deliveries, src/coordinator/outboundRelay.ts, and a notification handed in,
-- src/coordinator/notifySmolpaws.ts.
use smolpaws.Base.{ℕ, zero, suc, ◌≡◌, refl, none, [], ◌∷◌}
use smolpaws.Work.{WorkState}
use smolpaws.Store.{Store, empty, get_lane}
use smolpaws.Store.Lanes.{resolve_lane, read_back, insert_lane}
use smolpaws.Store.Accept.{accept_intake, insert_work, insert_command, max_sequence}
use smolpaws.History.{step, run, run-Refines, empty-IsWellFormed}
use smolpaws.Relay.Dispatch.{delivered, transport_unavailable}
use smolpaws.Relay.Outbound.{Turn, took, looped, dispatch_loop, IsBounded, dispatch_loop-IsBounded}
use smolpaws.Notify.{Notified, refused, Receipt, queued, accepted, hand_in, is_owner_lane, enqueue}
use smolpaws.Notify.Durable.{IsDurable, hand_in-IsDurable}
use smolpaws.Examples.{env, bound}
use smolpaws.Examples.Tasks.{owner}

-- One delivery, then the transport is gone.
abbrev turns : ℕ → Store → Turn
turns zero st = took (delivered "w" none) st
turns (suc i) st = took (transport_unavailable "ww") st

two_turns :
    dispatch_loop turns 32 0 empty
    ≡ looped (delivered "w" none ∷ transport_unavailable "ww" ∷ []) 1 empty
unfolding dispatch_loop
two_turns = refl

dispatch_loop-IsBounded_example :
    IsBounded turns 32 0 empty (delivered "w" none ∷ transport_unavailable "ww" ∷ []) 1 empty
dispatch_loop-IsBounded_example = dispatch_loop-IsBounded turns 32 0 empty two_turns

abbrev receipt : Receipt
receipt = record {
  status = queued;
  work_id = "w";
  work_state = WorkState.ready;
  lane_key = "slack:a:c";
  conversation_id = "conv";
  source_id = "slack-checker:x";
}

abbrev store_of : Notified → Store
store_of (accepted st r) = st
store_of (refused x) = empty

handed_in :
    hand_in env owner "slack-checker:x" "news" none 20 (run env bound empty)
    ≡ accepted
        (store_of (hand_in env owner "slack-checker:x" "news" none 20 (run env bound empty)))
        receipt
unfolding run step resolve_lane read_back insert_lane get_lane accept_intake insert_work
    insert_command max_sequence hand_in is_owner_lane enqueue
handed_in = refl

hand_in-IsDurable_example :
    IsDurable env "slack:a:c" "slack-checker:x"
      (run env bound empty)
      (store_of (hand_in env owner "slack-checker:x" "news" none 20 (run env bound empty)))
      receipt
hand_in-IsDurable_example =
    hand_in-IsDurable env "slack-checker:x" "news" 20 (run env bound empty)
      (run-Refines env bound empty empty-IsWellFormed).well owner none handed_in
