-- ===== src/Store/Reconcile.antt =====
-- The recovery sweep of src/coordinator/store.ts.
use smolpaws.Base.{
  ℕ, ◌+◌, Bool, true, false, Option, none, some, List, [], ◌∷◌, select, any_where, count_where,
  update_where, ◌==◌, ◌&&◌, not, leb,
}
use smolpaws.Work.{WorkState, WorkRow, delivery, ReconcileReport, is_claimed, same_kind}
use smolpaws.Command.{CommandResult, rejected, unknown, is_pending, is_attempted}
use smolpaws.Store.{Store, Env, CommandRow, Result, ok, ◌>>=◌}
use smolpaws.Store.Commands.{complete_command, is_failed}

-- `deadline <= now`; a NULL compares as false.
abbrev pub is_past : Option ℕ → ℕ → Bool
is_past none now = false
is_past (some deadline) now = leb deadline now

-- The join of work and intake_commands, by the test on the command.
unfoldable pub joined : (WorkRow → Bool) → (CommandRow → Bool) → Store → List WorkRow
unfolding select any_where
joined of_row of_command st =
    select (λ r. of_row r && any_where (λ c. c.work_id == r.id && of_command c) st.commands) st.work

unfoldable pub complete_all : Env → CommandResult → ℕ → List WorkRow → Store → Result Store
complete_all e result now [] st = ok st
complete_all e result now (row ∷ rows) st = do
  st' ← complete_command e row result now none st
  complete_all e result now rows st'

-- state='claimed' AND claim_until <= @now.
abbrev pub is_expired : ℕ → WorkRow → Bool
is_expired now r = is_claimed r.state && is_past r.claim_until now

-- kind='delivery' AND send_attempted=1.
abbrev pub may_be_sent : WorkRow → Bool
may_be_sent r = same_kind r.kind delivery && r.send_attempted

abbrev pub is_waiting : WorkState → Bool
is_waiting WorkState.retry_wait = true
is_waiting _ = false

abbrev pub to_unknown : ℕ → WorkRow → Bool
to_unknown now r = is_expired now r && may_be_sent r

abbrev pub to_ready : ℕ → WorkRow → Bool
to_ready now r = is_expired now r && not (may_be_sent r)

abbrev pub to_retry : ℕ → WorkRow → Bool
to_retry now r = is_waiting r.state && leb r.available_at now

unfoldable pub expire_row : WorkState → ℕ → WorkRow → WorkRow
expire_row next now r = record r {
  state = next;
  generation = r.generation + 1;
  claim_owner = none;
  claim_until = none;
  updated_at = now;
}

unfoldable pub expire_unknown : ℕ → WorkRow → WorkRow
unfolding expire_row
expire_unknown now r = record (expire_row WorkState.delivery_unknown now r) {
  last_error = some "claim expired after send attempt";
}

unfoldable pub wake_row : ℕ → WorkRow → WorkRow
wake_row now r = record r { state = WorkState.ready; updated_at = now }

-- The three UPDATE statements, one after the other.
unfoldable pub sweep : ℕ → List WorkRow → List WorkRow × ReconcileReport
unfolding count_where
sweep now work =
    let unknowns = update_where (to_unknown now) (expire_unknown now) work in
    let readies = update_where (to_ready now) (expire_row WorkState.ready now) unknowns in
    (
      update_where (to_retry now) (wake_row now) readies,
      record {
        expired_to_ready = count_where (to_ready now) unknowns;
        expired_to_delivery_unknown = count_where (to_unknown now) work;
        retry_wait_to_ready = count_where (to_retry now) readies;
      },
    )

unfoldable pub reconcile : Env → ℕ → Store → Result (Store × ReconcileReport)
reconcile e now st = do
  repaired ←
      complete_all e rejected now (joined (λ r. is_failed r.state) (λ c. is_pending c.status) st) st
  finished ←
      complete_all e unknown now
        (joined (λ _. true) (λ c. is_attempted c.status && is_past c.attempt_deadline now) repaired)
        repaired
  let (work, report) = sweep now finished.work
  ok (record finished { work = work }, report)
