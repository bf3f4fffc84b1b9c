-- ===== src/Examples.antt =====
-- Concrete stores and runs of the relay: tests of the definitions, and the theorems at inputs that
-- meet their hypotheses. No code of the repository is modelled here.
mod Runs
mod Relays
mod Handoff
mod Slots
mod Tasks
mod Leases
mod Commands
mod Deliveries
mod Turns
mod Services
mod Outside
use smolpaws.Base.{ℕ, zero, suc, String, Option, none, some, false, List, [], ◌∷◌}
use Prim.Native.String.{◌++◌}
use smolpaws.Json.{Json, null}
use smolpaws.Work.{
  LaneDescriptor, WorkKind, WorkState, WorkRow, ClaimedWork, default_retry_policy, settle_done,
}
use smolpaws.Store.{Store, Env, empty}
use smolpaws.Store.Accept.{IntakeInput}
use smolpaws.History.{Op, resolves, accepts, claims, settles}

abbrev name_of : ℕ → String
name_of zero = "w"
name_of (suc n) = "w" ++ name_of n

abbrev env : Env
env = record { policy = default_retry_policy; uuid = name_of; event_id = λ p id. p ++ ":" ++ id }

abbrev lane : LaneDescriptor
lane = record {
  lane_key = "slack:a:c";
  platform = "slack";
  account_id = some "a";
  chat_id = "c";
  thread_id = none;
  display_name = none;
}

abbrev message : String → IntakeInput
message key = record {
  command = none;
  source_key = key;
  agent_event_id = "e" ++ key;
  payload = null;
}

abbrev bound : List Op
bound = resolves lane "conv" 10 ∷ []

abbrev queued : List Op
queued =
    resolves lane "conv" 10
    ∷ accepts "slack:a:c" (message "1") 11
    ∷ accepts "slack:a:c" (message "2") 12
    ∷ []

-- The row of a message as it is accepted.
abbrev row : String → String → ℕ → ℕ → WorkRow
row id key sequence now = record {
  id = id;
  kind = WorkKind.intake;
  source_key = key;
  lane_key = "slack:a:c";
  sequence = sequence;
  agent_event_id = some ("e" ++ key);
  state = WorkState.ready;
  available_at = now;
  claim_owner = none;
  claim_until = none;
  generation = 0;
  attempts = 0;
  send_attempted = false;
  last_error = none;
  external_message_id = none;
  payload = null;
  created_at = now;
  updated_at = now;
}

abbrev first_claimed : WorkRow
first_claimed = record (row "w" "1" 1 11) {
  state = WorkState.claimed;
  claim_owner = some "worker";
  claim_until = some 60_020;
  generation = 1;
  attempts = 1;
  updated_at = 20;
}

abbrev first_done : WorkRow
first_done = record first_claimed {
  state = WorkState.done;
  claim_owner = none;
  claim_until = none;
  updated_at = 30;
}

abbrev second_claimed : WorkRow
second_claimed = record (row "ww" "2" 2 12) {
  state = WorkState.claimed;
  claim_owner = some "other";
  claim_until = some 60_040;
  generation = 1;
  attempts = 1;
  updated_at = 40;
}

abbrev first_claim : ClaimedWork
first_claim = record { row = first_claimed; owner = "worker"; generation = 1 }

abbrev claimed_work : List Op
claimed_work =
    resolves lane "conv" 10
    ∷ accepts "slack:a:c" (message "1") 11
    ∷ accepts "slack:a:c" (message "2") 12
    ∷ claims "worker" 20 none
    ∷ []

abbrev worked_once : List Op
worked_once =
    resolves lane "conv" 10
    ∷ accepts "slack:a:c" (message "1") 11
    ∷ accepts "slack:a:c" (message "2") 12
    ∷ claims "worker" 20 none
    ∷ settles first_claim (settle_done none) 30
    ∷ []

-- Two messages; the first is claimed and settled, then the second is claimed.
abbrev worked : List Op
worked =
    resolves lane "conv" 10
    ∷ accepts "slack:a:c" (message "1") 11
    ∷ accepts "slack:a:c" (message "2") 12
    ∷ claims "worker" 20 none
    ∷ settles first_claim (settle_done none) 30
    ∷ claims "other" 40 none
    ∷ []
