-- ===== src/Examples/Deliveries.antt =====
-- A run of the dispatcher, src/coordinator/deliveryDispatcher.ts: two deliveries of a lane, sent one
-- after the other.
use smolpaws.Base.{String, true, none, some, [], ◌∷◌}
use smolpaws.Json.{string}
use smolpaws.Work.{DeliveryInput, ClaimedWork, WorkKind, WorkState}
use smolpaws.Store.{Store, empty, get_lane}
use smolpaws.Store.Lanes.{resolve_lane, read_back, insert_lane}
use smolpaws.Store.Accept.{insert_work, insert_delivery, max_sequence}
use smolpaws.Store.Claims.{claim_ready, claim_first, mark_sending}
use smolpaws.Store.Commands.{command_is}
use smolpaws.Store.Settle.{settle, settle_current, settlement}
use smolpaws.History.{step, resolves, delivers}
use smolpaws.Relay.Dispatch.{
  Target, Targets, get_target, sent, dispatch_next, dispatch_claim, send_to, after_send,
}
use smolpaws.Delivery.{Reached, start, operates, dispatches, answers, logged, NoRepeats}
use smolpaws.Delivery.Once.{delivered_once}
use smolpaws.Examples.{env, lane}

abbrev target : Target
target = record { validate = λ lane payload. none; is_ready = true }

abbrev targets : Targets
targets = ("slack", target) ∷ []

abbrev reply_of : String → DeliveryInput
reply_of key = record {
  source_key = key;
  lane_key = "slack:a:c";
  agent_event_id = "e";
  payload = string "hello";
}

-- The first delivery's claim, as its worker holds it.
abbrev first_sent : ClaimedWork
first_sent = record {
  row = record {
    id = "w";
    kind = WorkKind.delivery;
    source_key = "1";
    lane_key = "slack:a:c";
    sequence = 1;
    agent_event_id = some "e";
    state = WorkState.claimed;
    available_at = 11;
    claim_owner = some "worker";
    claim_until = some 60_020;
    generation = 1;
    attempts = 1;
    send_attempted = true;
    last_error = none;
    external_message_id = none;
    payload = string "hello";
    created_at = 11;
    updated_at = 20;
  };
  owner = "worker";
  generation = 1;
}

abbrev queued_store : Store
queued_store =
    step env (delivers (reply_of "2") 12)
      (step env (delivers (reply_of "1") 11) (step env (resolves lane "conv" 10) empty))

abbrev dispatched_store : Store
dispatched_store = (dispatch_next env targets "worker" 20 queued_store).0

abbrev answered_store : Store
answered_store = (after_send env first_sent (sent (some "m1")) 30 dispatched_store).0

abbrev final_store : Store
final_store = (dispatch_next env targets "other" 40 answered_store).0

sent_twice : Reached env final_store ("ww" ∷ "w" ∷ [])
unfolding step resolve_lane read_back insert_lane get_lane insert_work insert_delivery max_sequence
    claim_ready claim_first mark_sending command_is settle settle_current settlement get_target
    dispatch_next dispatch_claim send_to after_send logged
sent_twice = dispatches targets "other" 40 (
    answers first_sent (sent (some "m1")) 30 (
      dispatches targets "worker" 20 (
        operates (delivers (reply_of "2") 12) tt (
          operates (delivers (reply_of "1") 11) tt (operates (resolves lane "conv" 10) tt start)))))

delivered_once_example : NoRepeats ("ww" ∷ "w" ∷ [])
delivered_once_example = delivered_once env sent_twice
