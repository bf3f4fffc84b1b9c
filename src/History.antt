-- ===== src/History.antt =====
-- Any interleaving of the store's operations, by any workers, on src/coordinator/store.ts: each
-- operation is one transaction, so an interleaving is a list of operations.
pub mod Order
pub mod Settling
pub mod Accepting
pub mod Attempts
pub mod Attempted
use smolpaws.Base.{ℕ, String, Bool, Option, List, [], ◌∷◌, ◌≡◌, refl, not-Has-nil}
use smolpaws.Work.{WorkKind, ClaimedWork, LaneDescriptor, SettleOutcome, DeliveryInput}
use smolpaws.Command.{CommandResult, CommandRejectionReason}
use smolpaws.Store.{Store, Env, CursorRow, Result, ok, err, empty}
use smolpaws.Store.Lanes.{resolve_lane, mark_lane_conversation_ready}
use smolpaws.Store.Accept.{IntakeInput, accept_intake, insert_delivery}
use smolpaws.Store.Commands.{start_command, finish_command}
use smolpaws.Store.Claims.{claim_ready, mark_sending, release}
use smolpaws.Store.Settle.{settle}
use smolpaws.Store.Reconcile.{reconcile}
use smolpaws.Store.Repair.{skip, confirm_delivered, requeue}
use smolpaws.Store.Cursors.{set_projection_cursor, park_projection_cursor, unpark_projection_cursor}
use smolpaws.Lifecycle.{start}
use smolpaws.Invariant.{IsWellFormed, Refines, Refines-refl, Refines-trans}
use smolpaws.Invariant.Lanes.{resolve_lane-Refines, mark_lane_conversation_ready-Refines}
use smolpaws.Invariant.Accept.{accept_intake-Refines, insert_delivery-Inserts}
use smolpaws.Invariant.Commands.{start_command-Refines, finish_command-Refines}
use smolpaws.Invariant.Claims.{claim_ready-Refines, mark_sending-Refines, release-Refines}
use smolpaws.Invariant.Settle.{settle-Refines}
use smolpaws.Invariant.Reconcile.{reconcile-Refines}
use smolpaws.Invariant.Repair.{skip-Refines, confirm_delivered-Refines, requeue-Refines}

pub data Op : Type 0 where
  resolves : LaneDescriptor → String → ℕ → Op
  marks_ready : String → ℕ → Op
  accepts : String → IntakeInput → ℕ → Op
  delivers : DeliveryInput → ℕ → Op
  starts_command : ClaimedWork → ℕ → ℕ → Op
  finishes_command : ClaimedWork → CommandResult → ℕ → Option CommandRejectionReason → Op
  claims : String → ℕ → Option WorkKind → Op
  marks_sending : ClaimedWork → ℕ → Op
  releases : ClaimedWork → ℕ → Op
  settles : ClaimedWork → SettleOutcome → ℕ → Op
  reconciles : ℕ → Op
  skips : String → ℕ → Op
  confirms : String → Option String → ℕ → Op
  requeues : String → ℕ → Op
  sets_cursor : String → Option String → ℕ → Op
  parks_cursor : String → ℕ → Op
  unparks_cursor : String → ℕ → Op

-- What a transaction leaves: its commit, or the store as it was.
abbrev pub committed {ℓ} : {A : Type ℓ} → Store → Result (Store × A) → Store
committed st (ok (st', _)) = st'
committed st (err _) = st

unfoldable pub step : Env → Op → Store → Store
step e (resolves d candidate now) st = committed st (resolve_lane d candidate now st)
step e (marks_ready key now) st = mark_lane_conversation_ready key now st
step e (accepts lane input now) st = committed st (accept_intake e lane input now st)
step e (delivers input now) st = committed st (insert_delivery e input now st)
step e (starts_command c now timeout_ms) st = (start_command c now timeout_ms st).0
step e (finishes_command c result now reason) st =
    committed st (finish_command e c result now reason st)
step e (claims worker now kind) st = (claim_ready e worker now kind st).0
step e (marks_sending c now) st = (mark_sending c now st).0
step e (releases c now) st = (release c now st).0
step e (settles c outcome now) st = committed st (settle e c outcome now st)
step e (reconciles now) st = committed st (reconcile e now st)
step e (skips id now) st = (skip id now st).0
step e (confirms id external now) st = (confirm_delivered id external now st).0
step e (requeues id now) st = (requeue id now st).0
step e (sets_cursor id page now) st = set_projection_cursor id page now st
step e (parks_cursor id now) st = park_projection_cursor id now st
step e (unparks_cursor id now) st = unpark_projection_cursor id now st

unfoldable pub run : Env → List Op → Store → Store
run e [] st = st
run e (op ∷ ops) st = run e ops (step e op st)

committed-Refines {ℓ} :
    {A : Type ℓ} (st : Store) (r : Result (Store × A))
    → ((st' : Store) (a : A) → r ≡ ok (st', a) → Refines st st')
    → IsWellFormed st
    → Refines st (committed st r)
committed-Refines st (ok (st', a)) h v = h st' a refl
committed-Refines st (err x) h v = Refines-refl st v

cursors-Refines :
    (st : Store) (cursors : List CursorRow)
    → IsWellFormed st
    → Refines st (record st { cursors = cursors })
cursors-Refines st cursors v = record {
  changes = start;
  well = record { sound = v.sound; lanes = v.lanes; owned = v.owned; journal = v.journal };
}

pub empty-IsWellFormed : IsWellFormed empty
empty-IsWellFormed = record {
  sound = record {
    apart = tt;
    started = λ r h. absurd (not-Has-nil h);
    ordered = λ r s h. absurd (not-Has-nil h);
  };
  lanes = tt;
  owned = λ r h. absurd (not-Has-nil h);
  journal = λ c h. absurd (not-Has-nil h);
}

pub step-Refines : (e : Env) (op : Op) (st : Store) → IsWellFormed st → Refines st (step e op st)
unfolding step set_projection_cursor park_projection_cursor unpark_projection_cursor
step-Refines e (resolves d candidate now) st v =
    committed-Refines st _ (λ s a p. resolve_lane-Refines d candidate now st v p) v
step-Refines e (marks_ready key now) st v = mark_lane_conversation_ready-Refines key now st v
step-Refines e (accepts lane input now) st v =
    committed-Refines st _ (λ s a p. accept_intake-Refines e lane input now st v p) v
step-Refines e (delivers input now) st v =
    committed-Refines st _ (λ s a p. (insert_delivery-Inserts e input now st v p).refines) v
step-Refines e (starts_command c now timeout_ms) st v = start_command-Refines c now timeout_ms st v
step-Refines e (finishes_command c result now reason) st v =
    committed-Refines st _ (λ s a p. finish_command-Refines e c result now reason st v p) v
step-Refines e (claims worker now kind) st v = claim_ready-Refines e worker now kind st v
step-Refines e (marks_sending c now) st v = mark_sending-Refines c now st v
step-Refines e (releases c now) st v = release-Refines c now st v
step-Refines e (settles c outcome now) st v =
    committed-Refines st _ (λ s a p. settle-Refines e c outcome now st v p) v
step-Refines e (reconciles now) st v =
    committed-Refines st _ (λ s a p. reconcile-Refines e now st v p) v
step-Refines e (skips id now) st v = skip-Refines id now st v
step-Refines e (confirms id external now) st v = confirm_delivered-Refines id now st v external
step-Refines e (requeues id now) st v = requeue-Refines id now st v
step-Refines e (sets_cursor id page now) st v = cursors-Refines st _ v
step-Refines e (parks_cursor id now) st v = cursors-Refines st _ v
step-Refines e (unparks_cursor id now) st v = cursors-Refines st _ v

-- Whatever operations run, in whatever order, the work table moves along the edges of the
-- lifecycle only, and the store stays well-formed.
pub run-Refines :
    (e : Env) (ops : List Op) (st : Store) → IsWellFormed st → Refines st (run e ops st)
unfolding run
run-Refines e [] st v = Refines-refl st v
run-Refines e (op ∷ ops) st v =
    let s = step-Refines e op st v in Refines-trans s (run-Refines e ops (step e op st) s.well)
