-- ===== src/Command.antt =====
-- src/coordinator/relayCommands.ts: maintenance commands, their journal statuses and receipts.
use smolpaws.Base.{String, Bool, Option, none, some, ◌==◌, if◌then◌else◌, ◌≡◌, refl}
use smolpaws.Text.{trim}

-- The type's only kind is 'condense'; the store checks the text again at run time.
pub record RelayCommand : Type 0 where
  pub kind : String

pub data CommandResult : Type 0 where
  succeeded rejected unknown : CommandResult

pub data CommandRejectionReason : Type 0 where
  agent_controlled_condensation : CommandRejectionReason

-- 'pending' | 'attempted' | CommandResult.
pub data CommandStatus : Type 0 where
  pending attempted : CommandStatus
  finished : CommandResult → CommandStatus

pub record CommandRecord : Type 0 where
  pub command : RelayCommand
  pub status : CommandStatus

abbrev pub is_pending : CommandStatus → Bool
is_pending pending = Bool.true
is_pending _ = Bool.false

abbrev pub is_attempted : CommandStatus → Bool
is_attempted attempted = Bool.true
is_attempted _ = Bool.false

abbrev pub is_rejected : CommandResult → Bool
is_rejected rejected = Bool.true
is_rejected _ = Bool.false

unfoldable pub parse_relay_command : String → Option RelayCommand
unfolding trim
parse_relay_command text =
    if trim text == "/condense" then some (record { kind = "condense" }) else none

unfoldable pub command_receipt : CommandResult → Option CommandRejectionReason → String
command_receipt succeeded reason = "Conversation condensed."
command_receipt rejected (some agent_controlled_condensation) =
    "This conversation uses agent-controlled condensation. Ask the agent to save its notes and call condense."
command_receipt rejected none =
    "The condensation request could not be completed. Check that a condenser profile is configured before trying /condense again."
command_receipt unknown reason =
    "The condensation outcome is unconfirmed. I will not retry it automatically. You can continue chatting, or send /condense again for a new attempt."

condense_text : parse_relay_command " /condense " ≡ some (record { kind = "condense" })
unfolding parse_relay_command
condense_text = refl
