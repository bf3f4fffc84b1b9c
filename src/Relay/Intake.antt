-- ===== src/Relay/Intake.antt =====
-- `acceptInbound` and `integrateNextIntake` of src/coordinator/messageRelay.ts. The handler awaits
-- the agent-server; between two awaits it runs as one segment, a function of the store, and the
-- state of its wait is a value of `Integration`.
use smolpaws.Base.{ℕ, String, Bool, true, false, Option, none, some, if◌then◌else◌}
use Prim.Native.String.{◌++◌}
use smolpaws.Json.{Json}
use smolpaws.Work.{
  WorkKind, WorkState, WorkRow, LaneRow, LaneDescriptor, LaneBinding, ClaimedWork, settle_done,
  settle_retry, settle_fail,
}
use smolpaws.Command.{RelayCommand, rejected, is_pending}
use smolpaws.Store.{Store, Env, StoreError, Result, ok, err, get_lane}
use smolpaws.Store.Lanes.{resolve_lane, mark_lane_conversation_ready}
use smolpaws.Store.Accept.{accept_intake}
use smolpaws.Store.Commands.{get_command, command_is, start_command, finish_command}
use smolpaws.Store.Claims.{claim_ready}
use smolpaws.Store.Settle.{settle}
use smolpaws.Relay.{AgentError, Options}

-- MessageRelay.resolveLane before its await: the binding, and whether the conversation is still to be
-- ensured.
unfoldable pub bind_lane : Options → LaneDescriptor → ℕ → Store → Result (Store × LaneBinding)
bind_lane o d now st = resolve_lane d (o.derive_conversation_id d) now st

-- And after it, when `ensureConversation` resolved.
unfoldable pub lane_ensured : LaneBinding → ℕ → Store → Store × LaneBinding
lane_ensured binding now st = (
  mark_lane_conversation_ready binding.lane_key now st,
  record binding { conversation_ready = true },
)

pub record InboundMessage : Type 0 where
  pub command : Option RelayCommand
  pub source_message_id : String
  pub content : Json

-- The two transactions commit one after the other: a failed acceptance leaves the lane bound.
unfoldable pub accept_inbound :
    Env → Options → LaneDescriptor → InboundMessage → ℕ → ℕ → Store → Store × Result WorkRow
accept_inbound e o d message now now' st =
    elim (resolve_lane d (o.derive_conversation_id d) now st) [
      | err x ↦ (st, err x)
      | ok (st1, binding) ↦
          elim (accept_intake e binding.lane_key
            (record {
              command = message.command;
              source_key = o.build_intake_source_key d message.source_message_id;
              agent_event_id = o.derive_event_id d.platform message.source_message_id;
              payload = message.content;
            })
            now' st1) [ err x ↦ (st1, err x) | ok (st2, row) ↦ (st2, ok row) ]
    ]

pub data IntegrationOutcome : Type 0 where
  idle : IntegrationOutcome
  integrated : String → Bool → IntegrationOutcome
  command_started : String → IntegrationOutcome
  retry : String → String → IntegrationOutcome
  failed : String → String → IntegrationOutcome

-- Where a call of the handler stands: it has returned, the store's error has left it, it waits for
-- one of two calls of the agent-server, or it has returned beside a command; the flag says whether
-- this call began the command's operation.
pub data Integration : Type 0 where
  returned : IntegrationOutcome → Integration
  threw : StoreError → Integration
  ensuring : ClaimedWork → LaneRow → Integration
  appending : ClaimedWork → LaneRow → Integration
  commanding : ClaimedWork → LaneRow → Bool → Integration

abbrev pub is_final : Option WorkState → Bool
is_final (some WorkState.failed) = true
is_final (some WorkState.done) = true
is_final _ = false

-- What an outcome is for `settle`, thrown errors included.
abbrev pub settled_as :
    Store
    → Result (Store × Option WorkState)
    → (Option WorkState → IntegrationOutcome)
    → Store × Integration
settled_as st (err x) f = (st, threw x)
settled_as st (ok (st', s)) f = (st', returned (f s))

-- The `catch` block.
unfoldable pub fail_intake :
    Env → Options → ClaimedWork → AgentError → ℕ → Store → Store × Integration
unfolding command_is
fail_intake e o claim error now st =
    if o.is_retryable error
    then settled_as st (settle e claim (settle_retry (some error.message)) now st) (λ s.
      if is_final s then failed claim.row.id error.message else retry claim.row.id error.message)
    else if command_is is_pending st claim.row.id
    then (elim (finish_command e claim rejected now none st) [
      | err x ↦ (st, threw x)
      | ok (st', _) ↦ (st', returned (failed claim.row.id error.message))
    ])
    else settled_as st (settle e claim (settle_fail (some error.message)) now st)
        (λ _. failed claim.row.id error.message)

-- Once the conversation exists: a command is started, any other work waits for its append.
unfoldable pub proceed : Options → ClaimedWork → LaneRow → ℕ → Store → Store × Integration
proceed o claim lane now st = elim (get_command st claim.row.id) [
  | none ↦ (st, appending claim lane)
  | some _ ↦
      let (st', began) = start_command claim now o.command_timeout_ms st in
      (st', commanding claim lane began)
]

abbrev unknown_lane_error : String → AgentError
unknown_lane_error key = record {
  message = "work references unknown lane: " ++ key;
  non_retryable = false;
  status = none;
  body = none;
}

unfoldable pub start_intake : Env → Options → ClaimedWork → ℕ → Store → Store × Integration
start_intake e o claim now st = elim (get_lane st claim.row.lane_key) [
  | none ↦ fail_intake e o claim (unknown_lane_error claim.row.lane_key) now st
  | some lane ↦
      if lane.conversation_ready then proceed o claim lane now st else (st, ensuring claim lane)
]

unfoldable pub begin_intake : Env → Options → String → ℕ → Store → Store × Integration
begin_intake e o worker now st =
    let (st', found) = claim_ready e worker now (some WorkKind.intake) st in
    elim found [ none ↦ (st', returned idle) | some claim ↦ start_intake e o claim now st' ]

-- `ensureConversation` resolved or rejected.
unfoldable pub after_ensure :
    Env → Options → ClaimedWork → LaneRow → Option AgentError → ℕ → Store → Store × Integration
after_ensure e o claim lane (some error) now st = fail_intake e o claim error now st
after_ensure e o claim lane none now st =
    proceed o claim lane now (mark_lane_conversation_ready lane.lane_key now st)

pub data AppendReply : Type 0 where
  appended : Bool → AppendReply
  append_failed : AgentError → AppendReply

-- `appendEvent` resolved or rejected. `settle` of a success throws nothing.
unfoldable pub after_append :
    Env → Options → ClaimedWork → AppendReply → ℕ → Store → Store × Integration
after_append e o claim (append_failed error) now st = fail_intake e o claim error now st
after_append e o claim (appended created) now st =
    settled_as st (settle e claim (settle_done none) now st) (λ _. integrated claim.row.id created)
