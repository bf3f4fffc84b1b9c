-- ===== src/Store/Commands.antt =====
-- The command journal of src/coordinator/store.ts.
use smolpaws.Base.{
  ℕ, ◌+◌, String, Bool, true, false, Option, none, some, find_first, count_where, update_where,
  ◌==◌, ◌=?◌, ◌&&◌, ◌||◌, if◌then◌else◌,
}
use Prim.Native.String.{◌++◌}
use smolpaws.Json.{Json, object, field, end, string}
use smolpaws.Work.{WorkState, WorkRow, ClaimedWork, is_claimed}
use smolpaws.Command.{
  CommandRecord, CommandStatus, attempted, finished, CommandResult, CommandRejectionReason,
  is_pending, is_attempted, is_rejected, command_receipt,
}
use smolpaws.Store.{Store, Env, CommandRow, Result, ok, ◌>>=◌, has_id}
use smolpaws.Store.Accept.{insert_delivery}

abbrev pub is_command : String → CommandRow → Bool
is_command id c = c.work_id == id

unfoldable pub get_command : Store → String → Option CommandRecord
unfolding find_first
get_command st id = elim (find_first (is_command id) st.commands) [
  | none ↦ none
  | some c ↦ some (record { command = c.command; status = c.status })
]

-- `this.getCommand(id)?.status === …`.
unfoldable pub command_is : (CommandStatus → Bool) → Store → String → Bool
unfolding get_command
command_is test st id = elim (get_command st id) [ none ↦ false | some c ↦ test c.status ]

-- state='claimed' AND generation=@gen AND id=@id: the guard of every fenced statement.
abbrev pub is_live : ClaimedWork → WorkRow → Bool
is_live claim r = r.id == claim.row.id && (is_claimed r.state && r.generation =? claim.generation)

abbrev pub pending_command : String → CommandRow → Bool
pending_command id c = c.work_id == id && is_pending c.status

unfoldable pub start_command : ClaimedWork → ℕ → ℕ → Store → Store × Bool
unfolding find_first count_where
start_command claim now timeout_ms st =
    let deadline = now + timeout_ms in
    elim (find_first (is_live claim) st.work) [
      | none ↦ (st, false)
      | some current ↦
          if count_where (pending_command claim.row.id) st.commands =? 0 then (st, false) else (
            record st {
              commands =
                  update_where (pending_command claim.row.id)
                    (λ c. record c { status = attempted; attempt_deadline = some deadline })
                    st.commands;
              work =
                  update_where (has_id claim.row.id) (λ r. record r { claim_until = some deadline })
                    st.work;
            },
            true,
          )
    ]

-- The delivery that tells the sender the outcome.
unfoldable pub receipt_payload : CommandResult → Option CommandRejectionReason → Json
unfolding command_receipt
receipt_payload result reason = object (
    field "kind" (string "current_thread_message")
      (field "text" (string (command_receipt result reason)) end))

-- UPDATE work SET state='done', generation=generation+1, ...
unfoldable pub finish_row : ℕ → WorkRow → WorkRow
finish_row now r = record r {
  state = WorkState.done;
  generation = r.generation + 1;
  claim_owner = none;
  claim_until = none;
  updated_at = now;
}

unfoldable pub complete_command :
    Env → WorkRow → CommandResult → ℕ → Option CommandRejectionReason → Store → Result Store
unfolding receipt_payload
complete_command e row result now reason st = do
  let journal = record st {
    commands =
        update_where (is_command row.id)
          (λ c. record c { status = finished result; attempt_deadline = none }) st.commands;
  }
  (st', _) ←
      insert_delivery e
        (record {
          source_key = "command:" ++ row.id ++ ":receipt";
          lane_key = row.lane_key;
          agent_event_id = e.event_id "relay-command" row.source_key;
          payload = receipt_payload result reason;
        })
        now journal
  ok (record st' { work = update_where (has_id row.id) (finish_row now) st'.work })

abbrev pub is_failed : WorkState → Bool
is_failed WorkState.failed = true
is_failed _ = false

-- id=? AND state IN ('claimed', 'failed') AND generation=?.
abbrev pub may_finish : ClaimedWork → WorkRow → Bool
may_finish claim r =
    r.id == claim.row.id
    && ((is_claimed r.state || is_failed r.state) && r.generation =? claim.generation)

-- The two tests on the journal: an attempted command may finish with any result from a claimed
-- row, a pending one may only be rejected.
unfoldable pub may_complete : Store → WorkRow → CommandResult → Bool
unfolding command_is
may_complete st row result =
    let preflight = command_is is_pending st row.id && is_rejected result in
    (command_is is_attempted st row.id || preflight) && (is_claimed row.state || preflight)

unfoldable pub finish_command :
    Env
    → ClaimedWork
    → CommandResult
    → ℕ
    → Option CommandRejectionReason
    → Store
    → Result (Store × Bool)
unfolding find_first
finish_command e claim result now reason st = elim (find_first (may_finish claim) st.work) [
  | none ↦ ok (st, false)
  | some row ↦
      if may_complete st row result
      then (do st' ← complete_command e row result now reason st; ok (st', true))
      else ok (st, false)
]
