-- ===== src/History/Order.antt =====
-- The order of a lane's work under any interleaving of the operations of
-- src/coordinator/store.ts.
use smolpaws.Base.{◌<◌, ◌≡◌, sym, true, List, Has}
use smolpaws.Work.{WorkRow, is_claimed, is_resolved}
use smolpaws.Store.{Env, empty}
use smolpaws.Lifecycle.Soundness.{claimed_once}
use smolpaws.History.{Op, run, run-Refines, empty-IsWellFormed}

module _ (e : Env) (ops : List Op) (r s : WorkRow) (hr : Has r (run e ops empty).work)
    (hs : Has s (run e ops empty).work) (kind : s.kind ≡ r.kind)
    (lane : s.lane_key ≡ r.lane_key) where
  -- From the empty store, after any operations of any workers: in one lane and kind, whatever
  -- stands before a row that was ever claimed is done or skipped.
  pub no_overtaking : s.sequence < r.sequence → 0 < r.generation → is_resolved s.state ≡ true
  no_overtaking =
      (run-Refines e ops empty empty-IsWellFormed).well.sound.ordered r s hr hs kind lane

  -- From the empty store, after any operations of any workers: two rows of one lane and kind that
  -- are both claimed are the same row.
  pub single_flight : is_claimed r.state ≡ true → is_claimed s.state ≡ true → r ≡ s
  single_flight p q =
      claimed_once r s (run e ops empty).work
        (run-Refines e ops empty empty-IsWellFormed).well.sound hr hs (sym kind) (sym lane) p q
