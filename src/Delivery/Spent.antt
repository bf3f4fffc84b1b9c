-- ===== src/Delivery/Spent.antt =====
-- A delivery that was marked before a send stays spent: the operations of src/coordinator/store.ts.
use smolpaws.Base.{
  ℕ, ◌+◌, ◌≡◌, ◌≢◌, refl, ◌∙◌, sym, String, Bool, ◌==◌, true, false, Option, none, List, [], ◌∷◌,
  Has, there, map-Has, guarded, update_where, arith, ==→eq, Bool-cases, Option-cases, inl, inr,
  subst, find_first, count_where, ◌=?◌,
}
use smolpaws.Work.{WorkRow, WorkKind, WorkState, ClaimedWork, DeliveryInput, ReconcileReport}
use smolpaws.Command.{CommandResult, CommandRejectionReason, rejected, unknown}
use smolpaws.Store.{Store, Env, ok, >>=-eq-ok, ok-injective, ok-eq, has_id, get_work_by_source_key}
use smolpaws.Store.Accept.{
  IntakeInput, WorkFields, insert_work, insert_delivery, accept_intake, unsupported,
}
use smolpaws.Store.Commands.{
  complete_command, finish_row, start_command, finish_command, is_live, may_finish, may_complete,
  pending_command,
}
use smolpaws.Store.Claims.{claim_first, claim_ready, candidates, still_ready, mark_sending, release}
use smolpaws.Store.Reconcile.{
  complete_all, expire_row, expire_unknown, wake_row, sweep, reconcile, to_unknown, to_ready,
  to_retry,
}
use smolpaws.Store.Repair.{skip, confirm_delivered, requeue, blocked_at, unknown_at}
use smolpaws.Invariant.Accept.{insert_command-work}
use smolpaws.Invariant.Insert.{insert_work_cases}
use smolpaws.Delivery.{is_spent, SpentIn}

module _ (id : String) where
  pub update_where-SpentIn :
      (p : WorkRow → Bool) (f : WorkRow → WorkRow) (rows : List WorkRow)
      → ((r : WorkRow)
          → r.id ≡ id
          → p r ≡ true
          → is_spent r ≡ true
          → ((f r).id ≡ r.id) × (is_spent (f r) ≡ true))
      → SpentIn id rows
      → SpentIn id (update_where p f rows)
  update_where-SpentIn p f rows h s = elim (Bool-cases (p s.row)) [
    | inr e ↦ record {
      row = s.row;
      present = rw e at (map-Has (guarded p f) rows s.present);
      named = s.named;
      spent = s.spent;
    }
    | inl e ↦
        let (i, k) = h s.row s.named e s.spent in
        record {
          row = f s.row;
          present = rw e at (map-Has (guarded p f) rows s.present);
          named = i ∙ s.named;
          spent = k;
        }
  ]

  added-SpentIn : (r : WorkRow) (rows : List WorkRow) → SpentIn id rows → SpentIn id (r ∷ rows)
  added-SpentIn r rows s = record {
    row = s.row;
    present = there s.present;
    named = s.named;
    spent = s.spent;
  }

  insert_work-SpentIn :
      (e : Env) (kind : WorkKind) (f : WorkFields) (now : ℕ) (st : Store) {st' : Store}
      {row : WorkRow}
      → SpentIn id st.work
      → insert_work e kind f now st ≡ ok (st', row)
      → SpentIn id st'.work
  insert_work-SpentIn e kind f now st {st'} {row} s =
      insert_work_cases (λ r. r ≡ ok (st', row) → SpentIn id st'.work) e kind f now st
        (λ x q. absurd (cc q)) (λ old lane q p. rw (← (ok-injective p).0) s)
        (λ lane new free p. rw (← (ok-injective p).0) (added-SpentIn _ st.work s))

  pub insert_delivery-SpentIn :
      (e : Env) (input : DeliveryInput) (now : ℕ) (st : Store) {st' : Store} {row : WorkRow}
      → SpentIn id st.work
      → insert_delivery e input now st ≡ ok (st', row)
      → SpentIn id st'.work
  unfolding insert_delivery
  insert_delivery-SpentIn e input now st s p = insert_work-SpentIn e WorkKind.delivery _ now st s p

  pub accept_intake-SpentIn :
      (e : Env) (lane : String) (input : IntakeInput) (now : ℕ) (st : Store) {st' : Store}
      {row : WorkRow}
      → SpentIn id st.work
      → accept_intake e lane input now st ≡ ok (st', row)
      → SpentIn id st'.work
  unfolding accept_intake
  accept_intake-SpentIn e lane input now st s p =
      elim (Option-cases (get_work_by_source_key st WorkKind.intake input.source_key)) [
        | inr (old, q) ↦ rw (← (ok-injective (rw (q, accept_intake) at p)).0) s
        | inl new ↦ elim (Bool-cases (unsupported input.command)) [
          | inl bad ↦ absurd (cc (rw (new, bad, accept_intake) at p))
          | inr fine ↦
              let (pair, q, r) =
                >>=-eq-ok {A = Store × WorkRow} _ _ (rw (new, fine, accept_intake) at p) in
              subst (SpentIn id) (insert_command-work input.command pair.0 pair.1 r)
                (insert_work-SpentIn e WorkKind.intake _ now st s q)
        ]
      ]

  pub complete_command-SpentIn :
      (e : Env) (row : WorkRow) (result : CommandResult) (now : ℕ)
      (reason : Option CommandRejectionReason) (st : Store) {st' : Store}
      → SpentIn id st.work
      → complete_command e row result now reason st ≡ ok st'
      → SpentIn id st'.work
  unfolding complete_command finish_row
  complete_command-SpentIn e row result now reason st s p =
      let (pair, q, r) = >>=-eq-ok {A = Store × WorkRow} _ _ p in
      subst (λ (x : Store). SpentIn id x.work) (ok-eq r)
        (update_where-SpentIn (has_id row.id) (finish_row now) pair.0.work
          (λ x i m k. (refl, ground arith)) (insert_delivery-SpentIn e _ now _ s q))

  -- The UPDATE statements of the claims.
  pub start_command-SpentIn :
      (c : ClaimedWork) (now timeout_ms : ℕ) (st : Store)
      → SpentIn id st.work
      → SpentIn id (start_command c now timeout_ms st).0.work
  unfolding start_command
  start_command-SpentIn c now timeout_ms st s =
      elim (Option-cases (find_first (is_live c) st.work)) [
        | inl q ↦ rw (q, start_command) s
        | inr (current, q) ↦
            elim (Bool-cases (count_where (pending_command c.row.id) st.commands =? 0)) [
              | inl z ↦ rw (q, z, start_command) s
              | inr z ↦
                  rw (q, z, start_command)
                    (update_where-SpentIn (has_id c.row.id) _ st.work (λ x i m k. (refl, k)) s)
            ]
      ]

  pub finish_command-SpentIn :
      (e : Env) (c : ClaimedWork) (result : CommandResult) (now : ℕ)
      (reason : Option CommandRejectionReason) (st : Store) {st' : Store} {b : Bool}
      → SpentIn id st.work
      → finish_command e c result now reason st ≡ ok (st', b)
      → SpentIn id st'.work
  unfolding finish_command
  finish_command-SpentIn e c result now reason st s p =
      elim (Option-cases (find_first (may_finish c) st.work)) [
        | inl q ↦ rw (← (ok-injective (rw (q, finish_command) at p)).0) s
        | inr (row, q) ↦ elim (Bool-cases (may_complete st row result)) [
          | inr z ↦ rw (← (ok-injective (rw (q, z, finish_command) at p)).0) s
          | inl z ↦
              let (st1, r, t) = >>=-eq-ok _ _ (rw (q, z, finish_command) at p) in
              subst (λ (x : Store). SpentIn id x.work) (ok-injective t).0
                (complete_command-SpentIn e row result now reason st s r)
        ]
      ]

  claim_first-SpentIn :
      (worker : String) (until now : ℕ) (rows : List WorkRow) (st : Store)
      → SpentIn id st.work
      → SpentIn id (claim_first worker until now rows st).0.work
  unfolding claim_first
  claim_first-SpentIn worker until now [] st s = s
  claim_first-SpentIn worker until now (c ∷ rows) st s =
      elim (Bool-cases (count_where (still_ready c) st.work =? 1)) [
        | inl e ↦
            rw (e, claim_first)
              (update_where-SpentIn (still_ready c) _ st.work (λ x i m k. absurd (ground arith)) s)
        | inr e ↦ rw (e, claim_first) (claim_first-SpentIn worker until now rows st s)
      ]

  pub claim_ready-SpentIn :
      (e : Env) (worker : String) (now : ℕ) (kind : Option WorkKind) (st : Store)
      → SpentIn id st.work
      → SpentIn id (claim_ready e worker now kind st).0.work
  unfolding claim_ready
  claim_ready-SpentIn e worker now kind st s =
      claim_first-SpentIn worker (now + e.policy.claim_ttl_ms) now (candidates st.work now kind) st
        s

  pub mark_sending-SpentIn :
      (c : ClaimedWork) (now : ℕ) (st : Store)
      → SpentIn id st.work
      → SpentIn id (mark_sending c now st).0.work
  unfolding mark_sending
  mark_sending-SpentIn c now st s =
      update_where-SpentIn (is_live c) _ st.work (λ x i m k. (refl, ground arith)) s

  -- Another delivery's release.
  pub release-SpentIn :
      (c : ClaimedWork) (now : ℕ) (st : Store)
      → c.row.id ≢ id
      → SpentIn id st.work
      → SpentIn id (release c now st).0.work
  unfolding release
  release-SpentIn c now st n s =
      update_where-SpentIn (is_live c) _ st.work
        (λ x i m k. absurd (n (sym (==→eq x.id c.row.id (ground arith)) ∙ i))) s

  complete_all-SpentIn :
      (e : Env) (result : CommandResult) (now : ℕ) (rows : List WorkRow) (st : Store) {st' : Store}
      → SpentIn id st.work
      → complete_all e result now rows st ≡ ok st'
      → SpentIn id st'.work
  unfolding complete_all
  complete_all-SpentIn e result now [] st s p = subst (λ (x : Store). SpentIn id x.work) (ok-eq p) s
  complete_all-SpentIn e result now (row ∷ rows) st s p =
      let (st1, q, r) = >>=-eq-ok (complete_command e row result now none st) _ p in
      complete_all-SpentIn e result now rows st1
        (complete_command-SpentIn e row result now none st s q) r

  -- An expired claim of a spent delivery is unknown, not ready.
  sweep-SpentIn : (now : ℕ) (rows : List WorkRow) → SpentIn id rows → SpentIn id (sweep now rows).0
  unfolding sweep expire_row expire_unknown wake_row
  sweep-SpentIn now rows s =
      update_where-SpentIn (to_retry now) (wake_row now) _ (λ x i m k. absurd (ground arith))
        (update_where-SpentIn (to_ready now) (expire_row WorkState.ready now) _
          (λ x i m k. absurd (ground arith))
          (update_where-SpentIn (to_unknown now) (expire_unknown now) rows
            (λ x i m k. (refl, ground arith)) s))

  pub reconcile-SpentIn :
      (e : Env) (now : ℕ) (st : Store) {st' : Store} {report : ReconcileReport}
      → SpentIn id st.work
      → reconcile e now st ≡ ok (st', report)
      → SpentIn id st'.work
  unfolding reconcile
  reconcile-SpentIn e now st s p =
      let (st1, q, r) = >>=-eq-ok (complete_all e rejected now _ st) _ p in
      let (st2, t, u) = >>=-eq-ok (complete_all e unknown now _ st1) _ r in
      subst (λ (x : Store). SpentIn id x.work) (ok-injective u).0
        (sweep-SpentIn now st2.work (
          complete_all-SpentIn e unknown now _ st1 (complete_all-SpentIn e rejected now _ st s q)
            t))

  pub skip-SpentIn :
      (key : String) (now : ℕ) (st : Store)
      → SpentIn id st.work
      → SpentIn id (skip key now st).0.work
  unfolding skip
  skip-SpentIn key now st s =
      update_where-SpentIn (blocked_at key) _ st.work (λ x i m k. (refl, ground arith)) s

  pub confirm_delivered-SpentIn :
      (key : String) (external : Option String) (now : ℕ) (st : Store)
      → SpentIn id st.work
      → SpentIn id (confirm_delivered key external now st).0.work
  unfolding confirm_delivered
  confirm_delivered-SpentIn key external now st s =
      update_where-SpentIn (unknown_at key) _ st.work (λ x i m k. (refl, ground arith)) s

  pub requeue-SpentIn :
      (key : String) (now : ℕ) (st : Store)
      → ((r : WorkRow) → Has r st.work → r.id ≡ key → r.send_attempted ≡ false)
      → SpentIn id st.work
      → SpentIn id (requeue key now st).0.work
  unfolding requeue
  requeue-SpentIn key now st unsent s = elim (Bool-cases (s.row.id == key)) [
    | inl e ↦ absurd (ground (arith, unsent s.row s.present (==→eq s.row.id key e), s.spent))
    | inr e ↦
        update_where-SpentIn (blocked_at key) _ st.work
          (λ x i m k. absurd (ground (arith, e, s.named, i))) s
  ]
