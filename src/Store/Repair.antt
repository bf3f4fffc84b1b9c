-- ===== src/Store/Repair.antt =====
-- The operator's operations of src/coordinator/store.ts: `skip`, `confirmDelivered`, `requeue`.
use smolpaws.Base.{
  ℕ, ◌+◌, String, Bool, true, false, Option, none, some, count_where, update_where, ◌==◌, ◌=?◌,
  ◌&&◌, if◌then◌else◌,
}
use smolpaws.Work.{WorkState, WorkRow, is_blocked}
use smolpaws.Store.{Store}

-- UPDATE ... WHERE p, and the new state if one row changed.
unfoldable pub transition :
    (WorkRow → Bool) → (WorkRow → WorkRow) → WorkState → Store → Store × Option WorkState
unfolding count_where
transition p f next st = (
  record st { work = update_where p f st.work },
  if count_where p st.work =? 1 then some next else none,
)

abbrev pub blocked_at : String → WorkRow → Bool
blocked_at id r = r.id == id && is_blocked r.state

abbrev pub is_unknown : WorkState → Bool
is_unknown WorkState.delivery_unknown = true
is_unknown _ = false

abbrev pub unknown_at : String → WorkRow → Bool
unknown_at id r = r.id == id && is_unknown r.state

unfoldable pub skip : String → ℕ → Store → Store × Option WorkState
unfolding transition
skip id now =
    transition (blocked_at id) (λ r. record r { state = WorkState.skipped; updated_at = now })
      WorkState.skipped

unfoldable pub confirm_delivered : String → Option String → ℕ → Store → Store × Option WorkState
unfolding transition
confirm_delivered id external now =
    transition (unknown_at id)
      (λ r. record r { state = WorkState.done; external_message_id = external; updated_at = now })
      WorkState.done

unfoldable pub requeue : String → ℕ → Store → Store × Option WorkState
unfolding transition
requeue id now =
    transition (blocked_at id)
      (λ r. record r {
        state = WorkState.ready;
        available_at = now;
        send_attempted = false;
        claim_owner = none;
        claim_until = none;
        generation = r.generation + 1;
        updated_at = now;
      })
      WorkState.ready
