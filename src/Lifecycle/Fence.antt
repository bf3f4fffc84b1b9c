-- ===== src/Lifecycle/Fence.antt =====
-- The generation as a fence: once a row has left a claim, no change brings that claim back.
use smolpaws.Base.{ℕ, String, ◌<◌, ◌≡◌, ◌⊎◌, inl, inr, false, List, Has, there, map-Has, arith, ◌∙◌}
use smolpaws.Lifecycle.Edges.{Edge-mono}
use smolpaws.Work.{WorkRow, WorkState, is_claimed}
use smolpaws.Lifecycle.{
  Edge, keeps, claims, settles, releases, expires, expires_sent, wakes, skips, confirms, requeues,
  finishes, Change, updates, inserts, Changes, start, next,
}

-- The claim of generation `k` is over: a later claim was made, or the row is not claimed.
abbrev pub IsOver : ℕ → WorkState → ℕ → Type 0
IsOver k s g = (k < g) ⊎ ((g ≡ k) × (is_claimed s ≡ false))

Edge-IsOver : {k : ℕ} {s t : WorkState} {g h : ℕ} → Edge s g t h → IsOver k s g → IsOver k t h
Edge-IsOver keeps o = o
Edge-IsOver claims o = ground arith
Edge-IsOver (settles x) (inl p) = inl p
Edge-IsOver (settles x) (inr p) = absurd (ground arith)
Edge-IsOver releases o = ground arith
Edge-IsOver expires o = ground arith
Edge-IsOver expires_sent o = ground arith
Edge-IsOver wakes o = ground arith
Edge-IsOver (skips b) o = ground arith
Edge-IsOver confirms o = ground arith
Edge-IsOver (requeues b) o = ground arith
Edge-IsOver (finishes p) o = ground arith

-- A row under the given id whose phase has the property.
pub record Tracked (P : WorkState → ℕ → Type 0) (id : String) (rows : List WorkRow) : Type 0 where
  pub row : WorkRow
  pub present : Has row rows
  pub named : row.id ≡ id
  pub phase : P row.state row.generation

abbrev pub IsStable : (WorkState → ℕ → Type 0) → Type 0
IsStable P = (s t : WorkState) (g h : ℕ) → Edge s g t h → P s g → P t h

module _ (P : WorkState → ℕ → Type 0) (stable : IsStable P) where
  Change-Tracked :
      {id : String} {rows rows' : List WorkRow}
      → Change rows rows'
      → Tracked P id rows
      → Tracked P id rows'
  Change-Tracked {rows = rows} (updates f steps) p = record {
    row = f p.row;
    present = map-Has f rows p.present;
    named = (steps p.row p.present).same.id ∙ p.named;
    phase = stable _ _ _ _ (steps p.row p.present).edge p.phase;
  }
  Change-Tracked (inserts r new) p = record {
    row = p.row;
    present = there p.present;
    named = p.named;
    phase = p.phase;
  }

  pub Changes-Tracked :
      {id : String} {rows rows' : List WorkRow}
      → Changes rows rows'
      → Tracked P id rows
      → Tracked P id rows'
  Changes-Tracked start p = p
  Changes-Tracked (next q c) p = Change-Tracked c (Changes-Tracked q p)

abbrev pub Retired : ℕ → String → List WorkRow → Type 0
Retired k = Tracked (IsOver k)

pub Changes-Retired :
    (k : ℕ) {id : String} {rows rows' : List WorkRow}
    → Changes rows rows'
    → Retired k id rows
    → Retired k id rows'
Changes-Retired k = Changes-Tracked (IsOver k) (λ s t g h e o. Edge-IsOver e o)

-- The row was claimed before.
abbrev pub IsStarted : WorkState → ℕ → Type 0
IsStarted s g = 0 < g

pub Changes-Started :
    {id : String} {rows rows' : List WorkRow}
    → Changes rows rows'
    → Tracked IsStarted id rows
    → Tracked IsStarted id rows'
Changes-Started = Changes-Tracked IsStarted (λ s t g h e o. omega (arith, Edge-mono e))
