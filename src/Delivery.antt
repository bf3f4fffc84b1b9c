-- ===== src/Delivery.antt =====
-- Runs of the whole relay with its deliveries, src/coordinator/deliveryDispatcher.ts over
-- src/coordinator/store.ts: the store's operations, dispatches and answers of sends, in any order.
pub mod Spent
pub mod Settles
pub mod Once
use smolpaws.Base.{ℕ, ◌≡◌, String, Bool, true, false, List, [], ◌∷◌, Has, ◌&&◌}
use smolpaws.Work.{WorkRow, WorkKind, WorkState, ClaimedWork, same_kind}
use smolpaws.Store.{Store, Env, empty}
use smolpaws.History.{Op, step, settles, requeues, marks_sending, releases}
use smolpaws.Relay.Dispatch.{Targets, Dispatch, sending, SendReply, dispatch_next, after_send}

-- What a row of intake or of an unsent delivery may undergo: only the dispatcher marks and releases,
-- only intake is settled elsewhere, and the operator requeues only what was never handed over.
abbrev pub IsRelayed : Store → Op → Type 0
IsRelayed st (settles c outcome now) =
    (r : WorkRow) → Has r st.work → r.id ≡ c.row.id → r.kind ≡ WorkKind.intake
IsRelayed st (requeues id now) =
    (r : WorkRow) → Has r st.work → r.id ≡ id → r.send_attempted ≡ false
IsRelayed st (marks_sending c now) = ⊥
IsRelayed st (releases c now) = ⊥
IsRelayed st _ = Unit

-- The platform is handed the delivery when a dispatch begins to send.
unfoldable pub logged : Dispatch → List String → List String
logged (sending claim lane) log = claim.row.id ∷ log
logged _ log = log

-- The stores that are reached, with the ids of the deliveries handed to a platform so far. An answer
-- may come at any time, for any claim, however old.
pub data Reached (e : Env) : Store → List String → Type 0 where
  start : Reached e empty []
  operates :
      {st : Store} {log : List String} (op : Op)
      → IsRelayed st op
      → Reached e st log
      → Reached e (step e op st) log
  dispatches :
      {st : Store} {log : List String} (targets : Targets) (worker : String) (now : ℕ)
      → Reached e st log
      → Reached e
          (dispatch_next e targets worker now st).0
          (logged (dispatch_next e targets worker now st).1 log)
  answers :
      {st : Store} {log : List String} (claim : ClaimedWork) (reply : SendReply) (now : ℕ)
      → Reached e st log
      → Reached e (after_send e claim reply now st).0 log

abbrev pub NoRepeats : List String → Type 0
NoRepeats [] = Unit
NoRepeats (x ∷ xs) = (¬ Has x xs) × NoRepeats xs

-- A state from which no operation but `requeue` leads back to `ready`, once the send was marked.
abbrev pub is_spent_state : WorkState → Bool
is_spent_state WorkState.claimed = true
is_spent_state WorkState.done = true
is_spent_state WorkState.delivery_unknown = true
is_spent_state WorkState.skipped = true
is_spent_state _ = false

abbrev pub is_spent : WorkRow → Bool
is_spent r = same_kind r.kind WorkKind.delivery && (r.send_attempted && is_spent_state r.state)

-- The delivery of this id was marked before a send.
pub record SpentIn (id : String) (rows : List WorkRow) : Type 0 where
  pub row : WorkRow
  pub present : Has row rows
  pub named : row.id ≡ id
  pub spent : is_spent row ≡ true
