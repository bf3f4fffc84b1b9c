-- ===== src/History/Attempted.antt =====
-- A maintenance command is attempted once: `startCommand` of src/coordinator/store.ts.
use smolpaws.Base.{
  ℕ, ◌+◌, ◌≡◌, refl, ap, String, true, false, some, List, [], ◌∷◌, Has, here, there, Has-map,
  map-Has, guarded, count_where, find_first, arith, ==→eq, eq_refl, Bool-cases, Option-cases, inl,
  inr, subst, ◌=?◌, Bool, map, ◌⊎◌,
}
use smolpaws.Work.{ClaimedWork, LaneDescriptor, LaneBinding, ReconcileReport}
use smolpaws.Command.{rejected, unknown, is_pending, attempted}
use smolpaws.Store.{Store, Env, CommandRow, Result, ok, err, >>=-eq-ok, ok-injective}
use smolpaws.Store.Lanes.{resolve_lane, insert_lane, mark_lane_conversation_ready}
use smolpaws.Store.Commands.{pending_command, is_live, start_command}
use smolpaws.Store.Claims.{claim_ready, candidates, mark_sending, release}
use smolpaws.Store.Reconcile.{complete_all, reconcile}
use smolpaws.Store.Repair.{skip, confirm_delivered, requeue}
use smolpaws.Store.Cursors.{set_projection_cursor, park_projection_cursor, unpark_projection_cursor}
use smolpaws.Invariant.Lanes.{read_back-eq}
use smolpaws.History.{
  Op, step, run, committed, resolves, marks_ready, accepts, delivers, starts_command,
  finishes_command, claims, marks_sending, releases, settles, reconciles, skips, confirms, requeues,
  sets_cursor, parks_cursor, unparks_cursor,
}
use smolpaws.History.Attempts.{
  Used, accept_intake-Used, insert_delivery-Used, complete_all-Used, start_command-Used,
  finish_command-Used, claim_first-Used, settle-Used,
}

committed-Used {ℓ} :
    {id : String} {A : Type ℓ} (st : Store) (r : Result (Store × A))
    → ((st' : Store) (a : A) → r ≡ ok (st', a) → Used id st'.commands)
    → Used id st.commands
    → Used id (committed st r).commands
committed-Used st (ok (st', a)) h u = h st' a refl
committed-Used st (err x) h u = u

module _ (id : String) (e : Env) where
  resolve_lane-Used :
      (d : LaneDescriptor) (candidate : String) (now : ℕ) (st : Store) {st' : Store}
      {b : LaneBinding}
      → Used id st.commands
      → resolve_lane d candidate now st ≡ ok (st', b)
      → Used id st'.commands
  unfolding resolve_lane
  resolve_lane-Used d candidate now st u p =
      let (pair, q, r) = >>=-eq-ok (insert_lane d candidate now st.lanes) _ p in
      subst (λ (x : Store). Used id x.commands) (read_back-eq pair.0 d.lane_key _ r) u

  reconcile-Used :
      (now : ℕ) (st : Store) {st' : Store} {report : ReconcileReport}
      → Used id st.commands
      → reconcile e now st ≡ ok (st', report)
      → Used id st'.commands
  unfolding reconcile
  reconcile-Used now st u p =
      let (st1, q, r) = >>=-eq-ok (complete_all e rejected now _ st) _ p in
      let (st2, t, w) = >>=-eq-ok (complete_all e unknown now _ st1) _ r in
      subst (λ (x : Store). Used id x.commands) (ok-injective w).0
        (complete_all-Used id e unknown now _ st1 (complete_all-Used id e rejected now _ st u q) t)

  step-Used : (op : Op) (st : Store) → Used id st.commands → Used id (step e op st).commands
  unfolding step set_projection_cursor park_projection_cursor unpark_projection_cursor
      mark_lane_conversation_ready claim_ready mark_sending release skip confirm_delivered requeue
  step-Used (resolves d candidate now) st u =
      committed-Used st _ (λ x a p. resolve_lane-Used d candidate now st u p) u
  step-Used (marks_ready key now) st u = u
  step-Used (accepts lane input now) st u =
      committed-Used st _ (λ x a p. accept_intake-Used id e lane input now st u p) u
  step-Used (delivers input now) st u =
      committed-Used st _ (λ x a p. subst (Used id) (insert_delivery-Used id e input now st p) u) u
  step-Used (starts_command c now timeout_ms) st u = start_command-Used id c now timeout_ms st u
  step-Used (finishes_command c result now reason) st u =
      committed-Used st _ (λ x a p. finish_command-Used id e c result now reason st u p) u
  step-Used (claims worker now kind) st u =
      claim_first-Used id worker (now + e.policy.claim_ttl_ms) now (candidates st.work now kind) st
        u
  step-Used (marks_sending c now) st u = u
  step-Used (releases c now) st u = u
  step-Used (settles c outcome now) st u =
      committed-Used st _ (λ x a p. settle-Used id e c outcome now st u p) u
  step-Used (reconciles now) st u = committed-Used st _ (λ x a p. reconcile-Used now st u p) u
  step-Used (skips key now) st u = u
  step-Used (confirms key external now) st u = u
  step-Used (requeues key now) st u = u
  step-Used (sets_cursor key page now) st u = u
  step-Used (parks_cursor key now) st u = u
  step-Used (unparks_cursor key now) st u = u

  run-Used : (ops : List Op) (st : Store) → Used id st.commands → Used id (run e ops st).commands
  unfolding run
  run-Used [] st u = u
  run-Used (op ∷ ops) st u = run-Used ops (step e op st) (step-Used op st u)

count-Has :
    (p : CommandRow → Bool) (cs : List CommandRow)
    → (count_where p cs =? 0) ≡ false
    → (c : CommandRow) × Has c cs × (p c ≡ true)
unfolding count_where
count-Has p [] h = absurd (cc h)
count-Has p (c ∷ cs) h = elim (Bool-cases (p c)) [
  | inl q ↦ (c, here refl, q)
  | inr q ↦ let (d, m, r) = count-Has p cs (rw (q, count_where) at h) in (d, there m, r)
]

count-none :
    (p : CommandRow → Bool) (cs : List CommandRow)
    → ((c : CommandRow) → Has c cs → p c ≡ false)
    → count_where p cs ≡ 0
unfolding count_where
count-none p [] h = refl
count-none p (c ∷ cs) h = rw (h c (here refl), count_where) (count-none p cs (λ d m. h d (there m)))

abbrev attempt : ℕ → CommandRow → CommandRow
attempt deadline c = record c { status = attempted; attempt_deadline = some deadline }

-- After a start the command is attempted.
attempt-Used :
    (id : String) (deadline : ℕ) (cs : List CommandRow)
    → (count_where (pending_command id) cs =? 0) ≡ false
    → Used id (map (guarded (pending_command id) (attempt deadline)) cs)
attempt-Used id deadline cs h =
    let (c, m, q) = count-Has (pending_command id) cs h in
    record {
      entry = guarded (pending_command id) (attempt deadline) c;
      present = map-Has (guarded (pending_command id) (attempt deadline)) cs m;
      named = rw q (==→eq c.work_id id (ground arith));
      used = λ x n i.
          let (d, o, r) = Has-map (guarded (pending_command id) (attempt deadline)) cs n in
          elim (Bool-cases (pending_command id d)) [
            | inl s ↦
                let t : x ≡ attempt deadline d = rw s at r in
                rw (ap (λ (y : CommandRow). is_pending y.status) t) refl
            | inr s ↦
                let t : x ≡ d = rw s at r in
                rw t (ground (arith, s, ap (λ (y : CommandRow). y.work_id) t, i, eq_refl id))
          ];
    }

start_command-attempts :
    (c : ClaimedWork) (now timeout_ms : ℕ) (st : Store)
    → (start_command c now timeout_ms st).1 ≡ true
    → Used c.row.id (start_command c now timeout_ms st).0.commands
unfolding start_command
start_command-attempts c now timeout_ms st p =
    elim (Option-cases (find_first (is_live c) st.work)) [
      | inl q ↦ absurd (cc (rw (q, start_command) at p))
      | inr (current, q) ↦
          elim (Bool-cases (count_where (pending_command c.row.id) st.commands =? 0)) [
            | inl z ↦ absurd (cc (rw (q, z, start_command) at p))
            | inr z ↦
                rw (q, z, start_command) (attempt-Used c.row.id (now + timeout_ms) st.commands z)
          ]
    ]

Used-refuses :
    (c : ClaimedWork) (now timeout_ms : ℕ) (st : Store)
    → Used c.row.id st.commands
    → start_command c now timeout_ms st ≡ (st, false)
unfolding start_command
Used-refuses c now timeout_ms st u =
    let zero : count_where (pending_command c.row.id) st.commands ≡ 0 =
      count-none (pending_command c.row.id) st.commands
        (λ x h. spent x h (Bool-cases (pending_command c.row.id x))) in
    elim (Option-cases (find_first (is_live c) st.work)) [
      | inl q ↦ rw (q, start_command) refl
      | inr (current, q) ↦ rw (q, zero, start_command) refl
    ]
  where
    spent :
        (x : CommandRow)
        → Has x st.commands
        → (pending_command c.row.id x ≡ true) ⊎ (pending_command c.row.id x ≡ false)
        → pending_command c.row.id x ≡ false
    spent x h (inr q) = q
    spent x h (inl q) =
        absurd (ground (arith, u.used x h (==→eq x.work_id c.row.id (ground arith))))

-- When the command of some work was started, it is never started again: after any operations of any
-- workers, requeues by an operator included, `startCommand` with any claim of that work returns
-- false and changes nothing.
pub attempted_once :
    (e : Env) (c : ClaimedWork) (now timeout_ms : ℕ) (st : Store)
    → (start_command c now timeout_ms st).1 ≡ true
    → (ops : List Op) (again : ClaimedWork) (later timeout_ms' : ℕ) → again.row.id ≡ c.row.id
    → let st' = run e ops (start_command c now timeout_ms st).0 in
      start_command again later timeout_ms' st' ≡ (st', false)
attempted_once e c now timeout_ms st p ops again later timeout_ms' same =
    Used-refuses again later timeout_ms' (run e ops (start_command c now timeout_ms st).0) (
      rw same (
        run-Used c.row.id e ops (start_command c now timeout_ms st).0
          (start_command-attempts c now timeout_ms st p)))
