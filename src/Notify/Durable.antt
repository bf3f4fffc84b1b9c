-- ===== src/Notify/Durable.antt =====
-- An accepted notification is durable: src/coordinator/notifySmolpaws.ts.
use smolpaws.Base.{
  ℕ, ◌≡◌, ◌∙◌, String, Option, none, some, List, Bool-cases, Option-cases, inl, inr, ◌==◌,
}
use Prim.Native.String.{◌++◌}
use smolpaws.Work.{LaneRow, WorkKind, WorkRow}
use smolpaws.Json.{string}
use smolpaws.Store.{Store, Env, Result-cases, get_lane, get_work_by_source_key}
use smolpaws.Store.Accept.{accept_intake, IntakeInput}
use smolpaws.Invariant.{IsWellFormed}
use smolpaws.Invariant.Accept.{accept_intake-Refines}
use smolpaws.History.{Op, run, run-Refines}
use smolpaws.History.Accepting.{Changes-Keyed, lookup-Keyed, accept_intake-Keyed}
use smolpaws.Scheduler.{ScheduledLane}
use smolpaws.Notify.{
  Status, queued, already_accepted, Receipt, accepted, is_owner_lane, source_key_of, is_stuck,
  preamble, enqueue, hand_in,
}

-- The lane's row and the work that the receipt names, whatever is done later.
pub record IsDurable (e : Env) (key source_id : String) (st st' : Store) (r : Receipt)
    : Type 0 where
  pub lane : LaneRow
  pub known : get_lane st key ≡ some lane
  pub kept :
      (ops : List Op)
      → (w : WorkRow) × (get_work_by_source_key
            (run e ops st')
            WorkKind.intake
            (source_key_of lane source_id)
          ≡ some w)
        × (w.id ≡ r.work_id)

module _ (e : Env) (source_id message : String) (now : ℕ) (st : Store) (v : IsWellFormed st) where
  abbrev input : LaneRow → IntakeInput
  input lane = record {
    command = none;
    source_key = source_key_of lane source_id;
    agent_event_id = e.event_id lane.platform source_id;
    payload = string (preamble ++ message);
  }

  enqueue-kept :
      (lane : LaneRow) (status : Status) {st' : Store} {r : Receipt}
      → enqueue e lane source_id message status now st ≡ accepted st' r
      → (ops : List Op)
      → (w : WorkRow) × (get_work_by_source_key
            (run e ops st')
            WorkKind.intake
            (source_key_of lane source_id)
          ≡ some w)
        × (w.id ≡ r.work_id)
  unfolding enqueue
  enqueue-kept lane status {st'} {r} p ops =
      elim (Result-cases (accept_intake e lane.lane_key (input lane) now st)) [
        | inl (x, q) ↦ absurd (cc (rw (q, enqueue) at p))
        | inr ((st1, work), q) ↦
            let same : st1 ≡ st' = cc (rw (q, enqueue) at p) in
            let id : work.id ≡ r.work_id = cc (rw (q, enqueue) at p) in
            let first = accept_intake-Refines e lane.lane_key (input lane) now st v q in
            let rest = run-Refines e ops st1 first.well in
            let (w, found, named) = lookup-Keyed (run e ops st1) rest.well (
              Changes-Keyed rest.changes
                (accept_intake-Keyed e now st v lane.lane_key (input lane) q)) in
            rw (← same) (w, found, named ∙ id)
      ]

  -- On a well-formed store: when a notification is accepted, new or seen before, its receipt names the
  -- work that its source key leads to, and leads to still after any operations of any workers.
  pub hand_in-IsDurable :
      (origin : ScheduledLane) (before : Option String) {st' : Store} {r : Receipt}
      → hand_in e origin source_id message before now st ≡ accepted st' r
      → IsDurable e origin.lane.lane_key source_id st st' r
  unfolding hand_in
  hand_in-IsDurable origin before p = elim (Option-cases (get_lane st origin.lane.lane_key)) [
    | inl q ↦ absurd (cc (rw (q, hand_in) at p))
    | inr (lane, q) ↦ elim (Bool-cases (is_owner_lane lane origin.lane)) [
      | inr a ↦ absurd (cc (rw (q, a, hand_in) at p))
      | inl a ↦
          elim (Option-cases
            (get_work_by_source_key st WorkKind.intake (source_key_of lane source_id))) [
              | inl n ↦ elim (Option-cases before) [
                | inr (x, b) ↦ absurd (cc (rw (q, a, n, b, hand_in) at p))
                | inl b ↦ record {
                  lane = lane;
                  known = q;
                  kept = enqueue-kept lane queued (rw (q, a, n, b, hand_in) at p);
                }
              ]
              | inr (previous, n) ↦ elim (Bool-cases (previous.lane_key == lane.lane_key)) [
                | inr b ↦ absurd (cc (rw (q, a, n, b, hand_in) at p))
                | inl b ↦ elim (Bool-cases (is_stuck previous.state)) [
                  | inl d ↦ absurd (cc (rw (q, a, n, b, d, hand_in) at p))
                  | inr d ↦ record {
                    lane = lane;
                    known = q;
                    kept = enqueue-kept lane already_accepted (rw (q, a, n, b, d, hand_in) at p);
                  }
                ]
              ]
            ]
    ]
  ]
