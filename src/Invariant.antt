-- ===== src/Invariant.antt =====
-- Well-formed stores of src/coordinator/store.ts, and what it means that an operation refines the
-- abstract machine of Lifecycle.antt. The operations' proofs are in the modules below.
pub mod Accept
pub mod Insert
pub mod Commands
pub mod Claims
pub mod Settle
pub mod Reconcile
pub mod Repair
pub mod Lanes
use smolpaws.Base.{
  ℕ, ◌+◌, ◌<◌, ◌≡◌, ◌≢◌, ◌⊎◌, inl, inr, refl, sym, ◌∙◌, ap, Bool, true, false, List, [], ◌∷◌, map,
  Has, here, there, All, Has-map, map-Has, any_where, guarded, update_where, arith, Bool-cases,
}
use smolpaws.Work.{WorkRow, LaneRow, is_claimed}
use smolpaws.Command.{is_pending}
use smolpaws.Store.{Store, CommandRow, is_lane}
use smolpaws.Lifecycle.{
  Edge, keeps, SameWork, Step, Change, updates, Changes, start, next, Changes-trans,
}
use smolpaws.Lifecycle.Soundness.{Changes-IsSound}
use smolpaws.Lifecycle.Edges.{IsSound, Edge-mono}

-- The lanes table's two unique indexes.
pub record LaneDistinct (l m : LaneRow) : Type 0 where
  pub key : l.lane_key ≢ m.lane_key
  pub conversation : l.conversation_id ≢ m.conversation_id

abbrev pub LanesApart : List LaneRow → Type 0
LanesApart [] = Unit
LanesApart (l ∷ lanes) = All (LaneDistinct l) lanes × LanesApart lanes

-- The journal's foreign key; what was attempted belongs to work that was claimed.
pub record IsJournalled (rows : List WorkRow) (c : CommandRow) : Type 0 where
  pub row : WorkRow
  pub present : Has row rows
  pub named : row.id ≡ c.work_id
  pub started : is_pending c.status ≡ false → 0 < row.generation

pub record IsWellFormed (st : Store) : Type 0 where
  pub sound : IsSound st.work
  pub lanes : LanesApart st.lanes
  pub owned : (r : WorkRow) → Has r st.work → any_where (is_lane r.lane_key) st.lanes ≡ true
  pub journal : (c : CommandRow) → Has c st.commands → IsJournalled st.work c

-- The work table follows the abstract machine, and the store stays well-formed.
pub record Refines (st st' : Store) : Type 0 where
  pub changes : Changes st.work st'.work
  pub well : IsWellFormed st'

pub Refines-refl : (st : Store) → IsWellFormed st → Refines st st
Refines-refl st v = record { changes = start; well = v }

pub Refines-trans : {a b c : Store} → Refines a b → Refines b c → Refines a c
Refines-trans p q = record { changes = Changes-trans p.changes q.changes; well = q.well }

pub Step-refl : (rows : List WorkRow) (r : WorkRow) → Step rows r r
Step-refl rows r = record { same = ground arith; edge = keeps; head = λ p q. absurd (ground arith) }

pub guarded-Step :
    (rows : List WorkRow) (p : WorkRow → Bool) (f : WorkRow → WorkRow)
    → ((r : WorkRow) → Has r rows → p r ≡ true → Step rows r (f r))
    → (r : WorkRow) → Has r rows
    → Step rows r (guarded p f r)
guarded-Step rows p f steps r h = elim (Bool-cases (p r)) [
  | inl e ↦ rw e (steps r h e)
  | inr e ↦ rw e (Step-refl rows r)
]

module _ (st : Store) (f : WorkRow → WorkRow)
    (steps : (r : WorkRow) → Has r st.work → Step st.work r (f r)) (v : IsWellFormed st) where
  updates_owned :
      (x : WorkRow) → Has x (map f st.work) → any_where (is_lane x.lane_key) st.lanes ≡ true
  updates_owned x h =
      let (r, m, e) = Has-map f st.work h in rw (e, (steps r m).same.lane_key) (v.owned r m)

  updates_journal : (c : CommandRow) → Has c st.commands → IsJournalled (map f st.work) c
  updates_journal c h =
      let j = v.journal c h in
      let s = steps j.row j.present in
      record {
        row = f j.row;
        present = map-Has f st.work j.present;
        named = s.same.id ∙ j.named;
        started = λ e. later (Edge-mono s.edge) (j.started e);
      }
    where
      later : {g h : ℕ} → (h ≡ g) ⊎ (h ≡ g + 1) → 0 < g → 0 < h
      later o p = omega arith

  -- An UPDATE of the work table whose rows take edges of the machine.
  pub updates-Refines : Refines st (record st { work = map f st.work })
  updates-Refines =
      let moved = next start (updates f steps) in
      record {
        changes = moved;
        well = record {
          sound = Changes-IsSound moved v.sound;
          lanes = v.lanes;
          owned = updates_owned;
          journal = updates_journal;
        };
      }

pub update_where-Refines :
    (st : Store) (p : WorkRow → Bool) (f : WorkRow → WorkRow)
    → ((r : WorkRow) → Has r st.work → p r ≡ true → Step st.work r (f r))
    → IsWellFormed st
    → Refines st (record st { work = update_where p f st.work })
update_where-Refines st p f steps v =
    updates-Refines st (guarded p f) (guarded-Step st.work p f steps) v

-- A row that takes an edge to another state than `claimed`.
pub plain-Step :
    (rows : List WorkRow) (r s : WorkRow)
    → SameWork r s
    → Edge r.state r.generation s.state s.generation
    → is_claimed s.state ≡ false
    → Step rows r s
plain-Step rows r s same edge other = record {
  same = same;
  edge = edge;
  head = λ p q. absurd (ground arith);
}

-- A change of the journal alone.
pub journal-Refines :
    (st : Store) (commands : List CommandRow)
    → ((c : CommandRow) → Has c commands → IsJournalled st.work c)
    → IsWellFormed st
    → Refines st (record st { commands = commands })
journal-Refines st commands journal v = record {
  changes = start;
  well = record { sound = v.sound; lanes = v.lanes; owned = v.owned; journal = journal };
}
