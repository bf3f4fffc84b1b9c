-- ===== src/Store/Accept.antt =====
-- Accepting work, of src/coordinator/store.ts: `insertWork`, `insertDelivery`, `acceptIntake`.
use smolpaws.Base.{
  ℕ, suc, ◌+◌, max, String, Bool, false, Option, none, some, List, [], ◌∷◌, any_where, ◌==◌, not,
  if◌then◌else◌,
}
use smolpaws.Json.{Json}
use smolpaws.Work.{WorkKind, intake, delivery, WorkState, WorkRow, DeliveryInput}
use smolpaws.Command.{RelayCommand, pending}
use smolpaws.Store.{
  Store, Env, CommandRow, Result, ok, err, unknown_lane, unsupported_command, unique_constraint,
  ◌>>=◌, has_id, in_lane, is_lane, get_work_by_source_key,
}

pub record WorkFields : Type 0 where
  pub source_key : String
  pub lane_key : String
  pub agent_event_id : Option String
  pub payload : Json

pub record IntakeInput : Type 0 where
  pub command : Option RelayCommand
  pub source_key : String
  pub agent_event_id : String
  pub payload : Json

-- COALESCE(MAX(sequence), 0) over the rows of the lane and kind.
unfoldable pub max_sequence : String → WorkKind → List WorkRow → ℕ
max_sequence lane kind [] = 0
max_sequence lane kind (r ∷ rows) =
    let rest = max_sequence lane kind rows in
    if in_lane lane kind r then max r.sequence rest else rest

unfoldable pub new_work : String → WorkKind → WorkFields → ℕ → ℕ → WorkRow
new_work id kind f sequence now = record {
  id = id;
  kind = kind;
  source_key = f.source_key;
  lane_key = f.lane_key;
  sequence = sequence;
  agent_event_id = f.agent_event_id;
  state = WorkState.ready;
  available_at = now;
  claim_owner = none;
  claim_until = none;
  generation = 0;
  attempts = 0;
  send_attempted = false;
  last_error = none;
  external_message_id = none;
  payload = f.payload;
  created_at = now;
  updated_at = now;
}

-- INSERT INTO work, with its primary key. The indexes on (kind, source_key) and
-- (lane_key, kind, sequence) cannot be hit: `insert_work` has looked for the key and takes a
-- sequence above all others.
unfoldable pub insert_row : WorkRow → Store → Result (Store × WorkRow)
unfolding any_where
insert_row row st =
    if any_where (has_id row.id) st.work
    then err (unique_constraint "work.id")
    else ok (record st { work = row ∷ st.work; drawn = suc st.drawn }, row)

unfoldable pub insert_work : Env → WorkKind → WorkFields → ℕ → Store → Result (Store × WorkRow)
unfolding new_work insert_row get_work_by_source_key any_where
insert_work e kind f now st =
    if any_where (is_lane f.lane_key) st.lanes
    then elim (get_work_by_source_key st kind f.source_key) [
      | some existing ↦ ok (st, existing)
      | none ↦
          insert_row
            (new_work (e.uuid st.drawn) kind f (max_sequence f.lane_key kind st.work + 1) now) st
    ]
    else err (unknown_lane f.lane_key)

unfoldable pub insert_delivery : Env → DeliveryInput → ℕ → Store → Result (Store × WorkRow)
insert_delivery e input now st =
    insert_work e delivery
      (record {
        source_key = input.source_key;
        lane_key = input.lane_key;
        agent_event_id = some input.agent_event_id;
        payload = input.payload;
      })
      now st

-- INSERT INTO intake_commands, with its primary key.
unfoldable pub insert_command : Option RelayCommand → Store × WorkRow → Result (Store × WorkRow)
unfolding any_where
insert_command none (st, row) = ok (st, row)
insert_command (some command) (st, row) =
    if any_where (λ (c : CommandRow). c.work_id == row.id) st.commands
    then err (unique_constraint "intake_commands.work_id")
    else ok (
      record st {
        commands =
            record {
              work_id = row.id;
              command = command;
              status = pending;
              attempt_deadline = none;
            }
            ∷ st.commands;
      },
      row,
    )

-- `input.command !== undefined && input.command.kind !== 'condense'`.
unfoldable pub unsupported : Option RelayCommand → Bool
unsupported none = false
unsupported (some command) = not (command.kind == "condense")

unfoldable pub accept_intake : Env → String → IntakeInput → ℕ → Store → Result (Store × WorkRow)
unfolding unsupported get_work_by_source_key
accept_intake e lane_key input now st = elim (get_work_by_source_key st intake input.source_key) [
  | some existing ↦ ok (st, existing)
  | none ↦
      if unsupported input.command
      then err unsupported_command
      else (do inserted ← insert_work e intake fields now st; insert_command input.command inserted)
]
  where
    fields : WorkFields
    fields = record {
      source_key = input.source_key;
      lane_key = lane_key;
      agent_event_id = some input.agent_event_id;
      payload = input.payload;
    }
