-- ===== src/Lifecycle.antt =====
-- The abstract machine of the work table: figure 2 of the relay's design, src/coordinator/DESIGN.md
-- and the state names of src/coordinator/types.ts. A row's phase is its state and its generation.
pub mod Soundness
pub mod Edges
pub mod Fence
use smolpaws.Base.{ℕ, ◌+◌, ◌<◌, ◌≡◌, ◌≢◌, refl, Bool, true, false, List, [], ◌∷◌, map, Has, All}
use smolpaws.Work.{
  WorkRow, WorkState, ready, claimed, done, retry_wait, failed, delivery_unknown, skipped,
  is_blocked, is_resolved, is_ready, is_claimed,
}
use smolpaws.Store.Claims.{blocks}

pub data Settled : WorkState → Type 0 where
  settled_done : Settled done
  settled_retry : Settled retry_wait
  settled_failed : Settled failed
  settled_unknown : Settled delivery_unknown

pub data Edge : WorkState → ℕ → WorkState → ℕ → Type 0 where
  keeps : {s : WorkState} {g : ℕ} → Edge s g s g
  claims : {g : ℕ} → Edge ready g claimed (g + 1)
  settles : {s : WorkState} {g : ℕ} → Settled s → Edge claimed g s g
  releases : {g : ℕ} → Edge claimed g ready g
  expires : {g : ℕ} → Edge claimed g ready (g + 1)
  expires_sent : {g : ℕ} → Edge claimed g delivery_unknown (g + 1)
  wakes : {g : ℕ} → Edge retry_wait g ready g
  skips : {s : WorkState} {g : ℕ} → is_blocked s ≡ true → Edge s g skipped g
  confirms : {g : ℕ} → Edge delivery_unknown g done g
  requeues : {s : WorkState} {g : ℕ} → is_blocked s ≡ true → Edge s g ready (g + 1)
  finishes : {s : WorkState} {g : ℕ} → 0 < g → Edge s g done (g + 1)

pub ruleset edges = (
  keeps, claims, settles, releases, expires, expires_sent, wakes, skips, confirms, requeues,
  finishes, settled_done, settled_retry, settled_failed, settled_unknown,
)

-- What no operation changes in a row.
pub record SameWork (r s : WorkRow) : Type 0 where
  pub id : s.id ≡ r.id
  pub kind : s.kind ≡ r.kind
  pub source_key : s.source_key ≡ r.source_key
  pub lane_key : s.lane_key ≡ r.lane_key
  pub sequence : s.sequence ≡ r.sequence
  pub agent_event_id : s.agent_event_id ≡ r.agent_event_id
  pub payload : s.payload ≡ r.payload

-- Nothing before the row in its lane is open.
abbrev pub IsHead : List WorkRow → WorkRow → Type 0
IsHead rows r = (w : WorkRow) → Has w rows → blocks r w ≡ false

pub record Step (rows : List WorkRow) (r s : WorkRow) : Type 0 where
  pub same : SameWork r s
  pub edge : Edge r.state r.generation s.state s.generation
  pub head : is_ready r.state ≡ true → is_claimed s.state ≡ true → IsHead rows r

-- Two rows that the table's keys tell apart.
pub record Distinct (r s : WorkRow) : Type 0 where
  pub id : r.id ≢ s.id
  pub source : r.kind ≡ s.kind → r.source_key ≢ s.source_key
  pub place : r.kind ≡ s.kind → r.lane_key ≡ s.lane_key → r.sequence ≢ s.sequence

pub record Fresh (r : WorkRow) (rows : List WorkRow) : Type 0 where
  pub distinct : All (Distinct r) rows
  pub state : r.state ≡ ready
  pub generation : r.generation ≡ 0
  pub last :
      (w : WorkRow)
      → Has w rows
      → w.kind ≡ r.kind
      → w.lane_key ≡ r.lane_key
      → w.sequence < r.sequence

-- One statement: every row takes at most one edge, or one row is added.
pub data Change (rows : List WorkRow) : List WorkRow → Type 0 where
  updates :
      (f : WorkRow → WorkRow)
      → ((r : WorkRow) → Has r rows → Step rows r (f r))
      → Change rows (map f rows)
  inserts : (r : WorkRow) → Fresh r rows → Change rows (r ∷ rows)

pub data Changes (rows : List WorkRow) : List WorkRow → Type 0 where
  start : Changes rows rows
  next : {mid last : List WorkRow} → Changes rows mid → Change mid last → Changes rows last

pub Changes-trans : {a b c : List WorkRow} → Changes a b → Changes b c → Changes a c
Changes-trans p start = p
Changes-trans p (next q c) = next (Changes-trans p q) c
