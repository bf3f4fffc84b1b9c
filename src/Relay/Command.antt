-- ===== src/Relay/Command.antt =====
-- `performCommand` of src/coordinator/messageRelay.ts and `commandRejectionReason` of
-- src/coordinator/relayCommands.ts.
use smolpaws.Base.{ℕ, Bool, false, Option, none, some, leb, ltb, ◌=?◌, ◌&&◌, not, if◌then◌else◌}
use smolpaws.Json.{Json, object, get_field, as_string}
use smolpaws.Work.{ClaimedWork}
use smolpaws.Command.{
  CommandResult, succeeded, rejected, unknown, CommandRejectionReason,
  agent_controlled_condensation,
}
use smolpaws.Store.{Store, Env, Result}
use smolpaws.Store.Commands.{finish_command}
use smolpaws.Relay.{AgentError}
use smolpaws.Relay.Events.{is_text}

-- How the race of `condense` with its timer ends; the timer's error has no status.
pub data CondenseReply : Type 0 where
  unavailable : CondenseReply
  condensed : CondenseReply
  condense_failed : AgentError → CondenseReply
  timed_out : CondenseReply

abbrev is_status : ℕ → Option ℕ → Bool
is_status n none = false
is_status n (some m) = m =? n

-- The body parses to an object whose `code` is the recognized one.
has_code : Option Json → Bool
unfolding get_field as_string
has_code (some (object fields)) =
    is_text "agent_controlled_condensation" (as_string (get_field "code" fields))
has_code _ = false

unfoldable pub command_rejection_reason : AgentError → Option CommandRejectionReason
unfolding has_code
command_rejection_reason error =
    if is_status 409 error.status && has_code error.body
    then some agent_controlled_condensation
    else none

-- A definite rejection: a status from 400 to 499 other than 408.
abbrev pub is_definite : Option ℕ → Bool
is_definite none = false
is_definite (some status) = leb 400 status && (ltb status 500 && not (status =? 408))

unfoldable pub command_outcome : CondenseReply → CommandResult × Option CommandRejectionReason
unfolding command_rejection_reason
command_outcome unavailable = (rejected, none)
command_outcome condensed = (succeeded, none)
command_outcome timed_out = (unknown, none)
command_outcome (condense_failed error) =
    if is_definite error.status then (rejected, command_rejection_reason error) else (unknown, none)

unfoldable pub perform_command :
    Env → ClaimedWork → CondenseReply → ℕ → Store → Result (Store × Bool)
unfolding command_outcome
perform_command e claim reply now st =
    let (result, reason) = command_outcome reply in finish_command e claim result now reason st
