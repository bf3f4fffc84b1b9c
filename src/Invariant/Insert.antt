-- ===== src/Invariant/Insert.antt =====
-- Inserting a row of work, insertWork of src/coordinator/store.ts.
use smolpaws.Base.{
  ℕ, suc, ◌+◌, ◌≤◌, ◌<◌, ◌≡◌, sym, true, false, none, some, List, [], ◌∷◌, Has, here, there, All-of,
  not-any_where, find-none, any_where, find_first, arith, eq_iff, Bool-cases, Option-cases, inl,
  inr, String,
}
use smolpaws.Work.{WorkRow, WorkState, WorkKind}
use smolpaws.Store.{
  Store, Env, Result, ok, err, StoreError, has_id, has_source, in_lane, is_lane,
  get_work_by_source_key,
}
use smolpaws.Store.Accept.{WorkFields, max_sequence, new_work, insert_work}
use smolpaws.Lifecycle.{Distinct, Fresh, inserts, start, next}
use smolpaws.Lifecycle.Soundness.{Changes-IsSound}
use smolpaws.Lifecycle.Edges.{same_kind-of_eq}
use smolpaws.Invariant.{IsWellFormed, Refines}

pub le-max_sequence :
    (lane : String) (kind : WorkKind) (rows : List WorkRow) {w : WorkRow}
    → Has w rows
    → in_lane lane kind w ≡ true
    → w.sequence ≤ max_sequence lane kind rows
unfolding max_sequence
le-max_sequence lane kind [] h e = elim h [ ]
le-max_sequence lane kind (x ∷ rows) (here q) e = ground arith
le-max_sequence lane kind (x ∷ rows) (there h) e =
    ground (arith, le-max_sequence lane kind rows h e)

in_lane-of_eq :
    (w r : WorkRow) → w.kind ≡ r.kind → w.lane_key ≡ r.lane_key → in_lane r.lane_key r.kind w ≡ true
in_lane-of_eq w r k l =
    ground (arith, same_kind-of_eq w.kind r.kind k, eq_iff w.lane_key r.lane_key)

-- The row that `insert_work` makes, when its tests pass, is fresh.
module _ (rows : List WorkRow) (r : WorkRow) (free_id : any_where (has_id r.id) rows ≡ false)
    (free_source : find_first (has_source r.kind r.source_key) rows ≡ none)
    (last : r.sequence ≡ max_sequence r.lane_key r.kind rows + 1) where
  new-last :
      (w : WorkRow)
      → Has w rows
      → w.kind ≡ r.kind
      → w.lane_key ≡ r.lane_key
      → w.sequence < r.sequence
  new-last w h k l = omega (arith, le-max_sequence r.lane_key r.kind rows h (in_lane-of_eq w r k l))

  new-Distinct : (w : WorkRow) → Has w rows → Distinct r w
  new-Distinct w h = record {
    id = λ e. absurd (ground (arith, not-any_where (has_id r.id) rows free_id h, eq_iff w.id r.id));
    source = λ k e. absurd (
        ground (
          arith,
          find-none (has_source r.kind r.source_key) rows free_source h,
          same_kind-of_eq w.kind r.kind (sym k),
          eq_iff w.source_key r.source_key,
        ));
    place = λ k l e. absurd (omega (arith, new-last w h (sym k) (sym l)));
  }

  pub new-Fresh : r.state ≡ WorkState.ready → r.generation ≡ 0 → Fresh r rows
  new-Fresh s g = record {
    distinct = All-of (Distinct r) rows new-Distinct;
    state = s;
    generation = g;
    last = new-last;
  }

module _ (st : Store) (r : WorkRow) (drawn : ℕ) (new : Fresh r st.work)
    (lane : any_where (is_lane r.lane_key) st.lanes ≡ true) (v : IsWellFormed st) where
  inserts_owned :
      (x : WorkRow) → Has x (r ∷ st.work) → any_where (is_lane x.lane_key) st.lanes ≡ true
  inserts_owned x (here q) = rw q lane
  inserts_owned x (there h) = v.owned x h

  pub inserts-Refines : Refines st (record st { work = r ∷ st.work; drawn = drawn })
  inserts-Refines =
      let added = next start (inserts r new) in
      record {
        changes = added;
        well = record {
          sound = Changes-IsSound added v.sound;
          lanes = v.lanes;
          owned = inserts_owned;
          journal = λ c h.
              let j = v.journal c h in
              record {
                row = j.row;
                present = there j.present;
                named = j.named;
                started = j.started;
              };
        };
      }

-- The branches of `insert_work`.
pub insert_work_cases :
    (P : Result (Store × WorkRow) → Type 0) (e : Env) (kind : WorkKind) (f : WorkFields) (now : ℕ)
    (st : Store)
    → ((x : StoreError) → P (err x))
    → ((old : WorkRow)
        → any_where (is_lane f.lane_key) st.lanes ≡ true
        → get_work_by_source_key st kind f.source_key ≡ some old
        → P (ok (st, old)))
    → (let r = new_work (e.uuid st.drawn) kind f (max_sequence f.lane_key kind st.work + 1) now in
        any_where (is_lane f.lane_key) st.lanes ≡ true
        → get_work_by_source_key st kind f.source_key ≡ none
        → any_where (has_id (e.uuid st.drawn)) st.work ≡ false
        → P (ok (record st { work = r ∷ st.work; drawn = suc st.drawn }, r)))
    → P (insert_work e kind f now st)
unfolding insert_work
insert_work_cases P e kind f now st fails found added =
    elim (Bool-cases (any_where (is_lane f.lane_key) st.lanes)) [
      | inr no_lane ↦ rw (no_lane, insert_work) (fails _)
      | inl lane ↦ elim (Option-cases (get_work_by_source_key st kind f.source_key)) [
        | inr (old, q) ↦ rw (lane, q, insert_work) (found old lane q)
        | inl new ↦ elim (Bool-cases (any_where (has_id (e.uuid st.drawn)) st.work)) [
          | inl taken ↦ rw (lane, new, taken, insert_work) (fails _)
          | inr free ↦ rw (lane, new, free, insert_work) (added lane new free)
        ]
      ]
    ]
