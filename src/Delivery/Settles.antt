-- ===== src/Delivery/Settles.antt =====
-- Settling and the operations of a history keep a delivery spent: src/coordinator/store.ts.
use smolpaws.Base.{
  ℕ, ◌≡◌, ◌≢◌, ◌⊎◌, refl, ◌∙◌, sym, String, true, Option, none, leb, arith, ==→eq, Bool-cases,
  Option-cases, inl, inr, subst, Has-find, ◌&&◌,
}
use smolpaws.Work.{
  WorkRow, WorkState, ClaimedWork, RetryPolicy, SettleOutcome, settle_done, settle_retry,
  settle_unknown, settle_fail,
}
use smolpaws.Command.{rejected, is_pending}
use smolpaws.Store.{Store, Env, Result, ok, err, >>=-eq-ok, ok-injective, has_id, get_work}
use smolpaws.Store.Commands.{command_is}
use smolpaws.Store.Settle.{settle, settle_current, settlement, gives_up, fenced}
use smolpaws.Store.Lanes.{resolve_lane, insert_lane, mark_lane_conversation_ready}
use smolpaws.Store.Cursors.{set_projection_cursor, park_projection_cursor, unpark_projection_cursor}
use smolpaws.Invariant.Lanes.{read_back-eq}
use smolpaws.Invariant.Settle.{settlement-Settles}
use smolpaws.History.{
  Op, step, committed, resolves, marks_ready, accepts, delivers, starts_command, finishes_command,
  claims, marks_sending, releases, settles, reconciles, skips, confirms, requeues, sets_cursor,
  parks_cursor, unparks_cursor,
}
use smolpaws.Delivery.{is_spent, is_spent_state, SpentIn, IsRelayed}
use smolpaws.Delivery.Spent.{
  update_where-SpentIn, complete_command-SpentIn, accept_intake-SpentIn, insert_delivery-SpentIn,
  start_command-SpentIn, finish_command-SpentIn, claim_ready-SpentIn, reconcile-SpentIn,
  skip-SpentIn, confirm_delivered-SpentIn, requeue-SpentIn,
}

settlement-send_attempted :
    (p : RetryPolicy) (outcome : SettleOutcome) (current : WorkRow) (now : ℕ) (r : WorkRow)
    → ((settlement p outcome current now).1 r).send_attempted ≡ r.send_attempted
unfolding settlement
settlement-send_attempted p (settle_done ext) current now r = refl
settlement-send_attempted p (settle_unknown error) current now r = refl
settlement-send_attempted p (settle_fail error) current now r = refl
settlement-send_attempted p (settle_retry error) current now r =
    elim (Bool-cases (leb p.max_attempts current.attempts)) [
      | inl e ↦ rw (e, settlement) refl
      | inr e ↦ rw (e, settlement) refl
    ]

module _ (id : String) (e : Env) (claim : ClaimedWork) (outcome : SettleOutcome) (now : ℕ)
    (st : Store) where
  -- The claim is another row's, or the outcome says that the send was made.
  abbrev Fits : Type 0
  Fits =
      (claim.row.id ≢ id)
      ⊎ ((current : WorkRow) → is_spent_state (settlement e.policy outcome current now).0 ≡ true)

  settlement-is_spent :
      (current r : WorkRow)
      → Fits
      → r.id ≡ id
      → r.id ≡ claim.row.id
      → is_spent r ≡ true
      → is_spent ((settlement e.policy outcome current now).1 r) ≡ true
  settlement-is_spent current r (inl n) i c k = absurd (n (sym c ∙ i))
  settlement-is_spent current r (inr f) i c k =
      let s = settlement-Settles e.policy outcome current now in
      ground (
        arith,
        (s.same r).kind,
        settlement-send_attempted e.policy outcome current now r,
        s.state r,
        f current,
      )

  settle_current-SpentIn :
      (current : WorkRow) {st' : Store} {s : Option WorkState}
      → Fits
      → current.id ≡ claim.row.id
      → SpentIn id st.work
      → settle_current e current outcome now st ≡ ok (st', s)
      → SpentIn id st'.work
  unfolding settle_current
  settle_current-SpentIn current fits c s p =
      elim (Bool-cases (command_is is_pending st current.id && gives_up e.policy outcome current)) [
        | inl q ↦
            let (st1, r, t) = >>=-eq-ok _ _ (rw (q, settle_current) at p) in
            subst (λ (x : Store). SpentIn id x.work) (ok-injective t).0
              (complete_command-SpentIn id e current rejected now none st s r)
        | inr q ↦ rw (← (ok-injective (rw (q, settle_current) at p)).0) (
            update_where-SpentIn id (has_id current.id) _ st.work
              (λ r i m k. (
                ((settlement-Settles e.policy outcome current now).same r).id,
                settlement-is_spent current r fits i (==→eq r.id current.id m ∙ c) k,
              ))
              s)
      ]

  pub settle-SpentIn :
      {st' : Store} {s : Option WorkState}
      → Fits
      → SpentIn id st.work
      → settle e claim outcome now st ≡ ok (st', s)
      → SpentIn id st'.work
  unfolding settle
  settle-SpentIn fits s p = elim (Option-cases (get_work st claim.row.id)) [
    | inl q ↦ rw (← (ok-injective (rw (q, settle) at p)).0) s
    | inr (current, q) ↦ elim (Bool-cases (fenced claim current)) [
      | inr z ↦ rw (← (ok-injective (rw (q, z, settle) at p)).0) s
      | inl z ↦
          settle_current-SpentIn current fits
            (==→eq current.id claim.row.id (Has-find (has_id claim.row.id) st.work q).1) s
            (rw (q, z, settle) at p)
    ]
  ]

module _ (id : String) where
  resolve_lane-SpentIn :
      (d : _) (candidate : String) (now : ℕ) (st : Store) {st' : Store} {b : _}
      → SpentIn id st.work
      → resolve_lane d candidate now st ≡ ok (st', b)
      → SpentIn id st'.work
  unfolding resolve_lane
  resolve_lane-SpentIn d candidate now st s p =
      let (pair, q, r) = >>=-eq-ok (insert_lane d candidate now st.lanes) _ p in
      subst (λ (x : Store). SpentIn id x.work) (read_back-eq pair.0 d.lane_key _ r) s

  committed-SpentIn {ℓ} :
      {A : Type ℓ} (st : Store) (r : Result (Store × A))
      → ((st' : Store) (a : A) → r ≡ ok (st', a) → SpentIn id st'.work)
      → SpentIn id st.work
      → SpentIn id (committed st r).work
  committed-SpentIn st (ok (st', a)) h s = h st' a refl
  committed-SpentIn st (err x) h s = s

  pub step-SpentIn :
      (e : Env) (op : Op) (st : Store)
      → IsRelayed st op
      → SpentIn id st.work
      → SpentIn id (step e op st).work
  unfolding step set_projection_cursor park_projection_cursor unpark_projection_cursor
      mark_lane_conversation_ready
  step-SpentIn e (resolves d candidate now) st g s =
      committed-SpentIn st _ (λ x a p. resolve_lane-SpentIn d candidate now st s p) s
  step-SpentIn e (marks_ready key now) st g s = s
  step-SpentIn e (accepts lane input now) st g s =
      committed-SpentIn st _ (λ x a p. accept_intake-SpentIn id e lane input now st s p) s
  step-SpentIn e (delivers input now) st g s =
      committed-SpentIn st _ (λ x a p. insert_delivery-SpentIn id e input now st s p) s
  step-SpentIn e (starts_command c now timeout_ms) st g s =
      start_command-SpentIn id c now timeout_ms st s
  step-SpentIn e (finishes_command c result now reason) st g s =
      committed-SpentIn st _ (λ x a p. finish_command-SpentIn id e c result now reason st s p) s
  step-SpentIn e (claims worker now kind) st g s = claim_ready-SpentIn id e worker now kind st s
  step-SpentIn e (marks_sending c now) st g s = absurd g
  step-SpentIn e (releases c now) st g s = absurd g
  step-SpentIn e (settles c outcome now) st g s =
      committed-SpentIn st _
        (λ x a p.
          settle-SpentIn id e c outcome now st
            (inl (λ i. absurd (ground (arith, g s.row s.present (s.named ∙ sym i), s.spent)))) s p)
        s
  step-SpentIn e (reconciles now) st g s =
      committed-SpentIn st _ (λ x a p. reconcile-SpentIn id e now st s p) s
  step-SpentIn e (skips key now) st g s = skip-SpentIn id key now st s
  step-SpentIn e (confirms key external now) st g s =
      confirm_delivered-SpentIn id key external now st s
  step-SpentIn e (requeues key now) st g s = requeue-SpentIn id key now st g s
  step-SpentIn e (sets_cursor key page now) st g s = s
  step-SpentIn e (parks_cursor key now) st g s = s
  step-SpentIn e (unparks_cursor key now) st g s = s
