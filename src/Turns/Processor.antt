-- ===== src/Turns/Processor.antt =====
-- How the agent server drives the turns of one conversation:
-- apps/agent-server/src/agent-server/conversationRuntime.ts. Each function is the part of a handler
-- between two awaits. A turn that the source holds by reference is updated at its place in the
-- list. The clock, the random texts and the ids of the event log are arguments. Writing the file is
-- left to the caller: what is written is the state after the part.
use smolpaws.Base.{
  String, Bool, true, false, not, Option, none, some, List, [], ◌∷◌, ◌==◌, if◌then◌else◌, map,
  any_where,
}
use smolpaws.Json.{Json}
use smolpaws.Turns.{
  Status, TurnMessage, Turn, TurnState, is_set, get_turn_by_id, get_active_turn, StatusOptions,
  update_turn_status, assign_delivery_owner,
}
use smolpaws.Turns.Persist.{Dates, read_persisted_turn_state}
use smolpaws.Turns.Submit.{update_first, update_last}

unfoldable pub is_pending : TurnMessage → Bool
unfolding is_set
is_pending m = not (is_set m.event_id)

-- The conversation yields while the active turn has a message that is not in the event log.
unfoldable pub should_yield_for_pending_turn_messages : TurnState → Bool
unfolding get_active_turn any_where is_pending
should_yield_for_pending_turn_messages s = elim (get_active_turn s) [
  | none ↦ false
  | some t ↦ any_where is_pending t.messages
]

-- Each pending message is pushed to the event log, which keeps the message's id.
unfoldable pub materialize_message : TurnMessage → TurnMessage
unfolding is_pending
materialize_message m = if is_pending m then record m { event_id = some m.id } else m

unfoldable pub first_pending : List TurnMessage → Option String
unfolding is_pending
first_pending [] = none
first_pending (m ∷ ms) = let rest = first_pending ms in if is_pending m then some m.id else rest

unfoldable pub materialize_pending_turn_messages : String → Turn → Turn
unfolding any_where is_pending is_set materialize_message first_pending
materialize_pending_turn_messages now t =
    if any_where is_pending t.messages
    then record t {
      messages = map materialize_message t.messages;
      start_event_id =
          if is_set t.start_event_id then t.start_event_id else first_pending t.messages;
      updated_at = now;
    }
    else t

-- What the events say about the end of the turn, as `resolveTurnTerminalStatus` finds it.
pub record Terminal : Type 0 where
  pub status : Status
  pub options : StatusOptions

unfoldable pub finalize_turn_if_needed : Option Terminal → String → Turn → Turn × Bool
unfolding any_where is_pending update_turn_status
finalize_turn_if_needed terminal now t =
    if any_where is_pending t.messages then (t, false) else elim terminal [
      | none ↦ (t, false)
      | some r ↦ (update_turn_status r.status now r.options t, true)
    ]

-- What the processor does with the active turn once the events say how it ended.
unfoldable pub settle_active_turn : Option Terminal → String → TurnState → TurnState
unfolding get_active_turn finalize_turn_if_needed update_last
settle_active_turn terminal now s = elim (get_active_turn s) [
  | none ↦ s
  | some t ↦ record s {
    turns = update_last (λ u. (finalize_turn_if_needed terminal now u).0) s.turns;
  }
]

-- The processor first moves the active turn's messages to the event log.
unfoldable pub materialize_active_turn : String → TurnState → TurnState
unfolding get_active_turn materialize_pending_turn_messages update_last
materialize_active_turn now s = elim (get_active_turn s) [
  | none ↦ s
  | some t ↦ record s { turns = update_last (materialize_pending_turn_messages now) s.turns }
]

abbrev pub failed : String → String → StatusOptions
failed code detail = record {
  end_event_id = none;
  final_reply_event_id = none;
  error_code = some code;
  error_detail = some detail;
}

abbrev pub interrupted : StatusOptions
interrupted =
    failed "interrupted_turn" "Agent-server restarted before the active turn could finish."

-- The processor of the conversation threw: its active turn ends in an error.
unfoldable pub fail_active_turn : String → String → TurnState → TurnState
unfolding get_active_turn update_turn_status update_last
fail_active_turn now message s = elim (get_active_turn s) [
  | none ↦ s
  | some t ↦ record s {
    turns =
        update_last (update_turn_status Status.error now (failed "turn_processor_failed" message))
          s.turns;
  }
]

-- A server that starts finds the turn that it left: it is stuck.
unfoldable pub mark_interrupted : String → TurnState → TurnState
unfolding get_active_turn update_turn_status update_last
mark_interrupted now loaded = elim (get_active_turn loaded) [
  | none ↦ loaded
  | some t ↦ record loaded {
    turns = update_last (update_turn_status Status.stuck now interrupted) loaded.turns;
  }
]

unfoldable pub load_turn_state : Dates → String → Option Json → TurnState
unfolding mark_interrupted
load_turn_state d now file = mark_interrupted now (read_persisted_turn_state d file)

-- Artifacts of a turn are claimed by its delivery owner alone.
pub data Claim : Type 0 where
  turn_not_found delivery_owner_conflict : Claim
  granted : TurnState → Claim

unfoldable pub claim_turn_artifacts : String → String → String → TurnState → Claim
unfolding get_turn_by_id assign_delivery_owner update_first
claim_turn_artifacts turn_id owner now s = elim (get_turn_by_id s turn_id) [
  | none ↦ turn_not_found
  | some t ↦
      if (assign_delivery_owner (some owner) now t).1
      then granted (record s {
        turns =
            update_first (λ u. u.id == turn_id) (λ u. (assign_delivery_owner (some owner) now u).0)
              s.turns;
      })
      else delivery_owner_conflict
]
