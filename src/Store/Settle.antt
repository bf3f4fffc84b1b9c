-- ===== src/Store/Settle.antt =====
-- `settle` and the retry backoff of src/coordinator/store.ts.
use smolpaws.Base.{
  ℕ, ◌+◌, ◌-◌, ◌*◌, ◌^◌, min, String, Bool, true, false, Option, none, some, update_where, ◌=?◌,
  ◌&&◌, leb, if◌then◌else◌,
}
use smolpaws.Work.{
  WorkState, WorkRow, ClaimedWork, RetryPolicy, SettleOutcome, settle_done, settle_retry,
  settle_unknown, settle_fail, is_claimed,
}
use smolpaws.Command.{rejected, is_pending}
use smolpaws.Store.{Store, Env, Result, ok, ◌>>=◌, has_id, get_work}
use smolpaws.Store.Commands.{command_is, complete_command}

unfoldable pub backoff_ms : RetryPolicy → ℕ → ℕ
backoff_ms p attempts =
    min p.cap_backoff_ms (p.base_backoff_ms * 2 ^ (attempts - 1)) + p.jitter_ms attempts

-- The claim is given up in every branch.
unfoldable pub settle_row : WorkState → ℕ → WorkRow → WorkRow
settle_row next now r = record r {
  state = next;
  claim_owner = none;
  claim_until = none;
  updated_at = now;
}

unfoldable pub or_else : Option String → String → Option String
or_else (some s) d = some s
or_else none d = some d

-- The UPDATE of each outcome: the next state, and what it does to the row.
unfoldable pub settlement :
    RetryPolicy → SettleOutcome → WorkRow → ℕ → WorkState × (WorkRow → WorkRow)
unfolding settle_row or_else
settlement p (settle_done ext) current now =
    (WorkState.done, λ r. record (settle_row WorkState.done now r) { external_message_id = ext })
settlement p (settle_unknown error) current now = (
  WorkState.delivery_unknown,
  λ r. record (settle_row WorkState.delivery_unknown now r) { last_error = error },
)
settlement p (settle_retry error) current now =
    if leb p.max_attempts current.attempts
    then (
      WorkState.failed,
      λ r. record (settle_row WorkState.failed now r) {
        last_error = or_else error "attempts exhausted";
      },
    )
    else (
      WorkState.retry_wait,
      λ r. record (settle_row WorkState.retry_wait now r) {
        last_error = error;
        available_at = now + backoff_ms p current.attempts;
      },
    )
settlement p (settle_fail error) current now =
    (WorkState.failed, λ r. record (settle_row WorkState.failed now r) { last_error = error })

-- outcome.kind === 'fail' || outcome.kind === 'retry' && attempts >= maxAttempts.
unfoldable pub gives_up : RetryPolicy → SettleOutcome → WorkRow → Bool
gives_up p (settle_fail _) current = true
gives_up p (settle_retry _) current = leb p.max_attempts current.attempts
gives_up p (settle_done _) current = false
gives_up p (settle_unknown _) current = false

-- The claim is stale unless the row is still claimed at the claim's generation.
unfoldable pub fenced : ClaimedWork → WorkRow → Bool
fenced claim current = is_claimed current.state && current.generation =? claim.generation

unfoldable pub settle_current :
    Env → WorkRow → SettleOutcome → ℕ → Store → Result (Store × Option WorkState)
settle_current e current outcome now st =
    if command_is is_pending st current.id && gives_up e.policy outcome current
    then (do st' ← complete_command e current rejected now none st; ok (st', some WorkState.done))
    else let (next, f) = settlement e.policy outcome current now in
      ok (record st { work = update_where (has_id current.id) f st.work }, some next)

unfoldable pub settle :
    Env → ClaimedWork → SettleOutcome → ℕ → Store → Result (Store × Option WorkState)
unfolding get_work fenced
settle e claim outcome now st = elim (get_work st claim.row.id) [
  | none ↦ ok (st, none)
  | some current ↦
      if fenced claim current then settle_current e current outcome now st else ok (st, none)
]
