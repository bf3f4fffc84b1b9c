-- ===== src/History/Settling.antt =====
-- The fence of src/coordinator/store.ts: a claim is settled at most once.
use smolpaws.Base.{
  ℕ, ◌≤◌, ◌≡◌, ◌∙◌, sym, refl, subst, true, false, Option, none, some, List, Has, Has-find, map-Has,
  update_where, guarded, ◌&&◌, arith, ==→eq, eq_refl, eq_iff, Bool-cases, Option-cases, inl, inr,
}
use smolpaws.Work.{WorkRow, WorkState, ClaimedWork, SettleOutcome, is_claimed}
use smolpaws.Command.{rejected, is_pending, CommandResult, CommandRejectionReason}
use smolpaws.Store.{Store, Env, ok, >>=-eq-ok, ok-injective, has_id, get_work}
use smolpaws.Store.Commands.{command_is, complete_command, finish_row}
use smolpaws.Store.Settle.{gives_up, fenced, settle_current, settle}
use smolpaws.Lifecycle.Soundness.{same_id}
use smolpaws.Lifecycle.Edges.{Edge-mono}
use smolpaws.Lifecycle.Fence.{Tracked, IsOver, IsStarted, Retired, Changes-Tracked, Changes-Retired}
use smolpaws.Invariant.{IsWellFormed}
use smolpaws.Invariant.Commands.{complete_command-Completes, live-Started}
use smolpaws.Invariant.Settle.{Settles, settle-Refines, settlement-Settles}
use smolpaws.History.{Op, run, run-Refines}

-- A claim whose row has moved on is stale.
module _ (e : Env) (claim : ClaimedWork) (outcome : SettleOutcome) (now : ℕ) (st : Store) where
  over-fenced :
      (current : WorkRow)
      → IsOver claim.generation current.state current.generation
      → fenced claim current ≡ false
  unfolding fenced
  over-fenced current (inl p) = ground arith
  over-fenced current (inr p) = ground arith

  pub settle-Retired :
      IsWellFormed st
      → Retired claim.generation claim.row.id st.work
      → settle e claim outcome now st ≡ ok (st, none)
  unfolding settle
  settle-Retired v t = elim (Option-cases (get_work st claim.row.id)) [
    | inl q ↦ rw (q, settle)
    | inr (current, q) ↦
        let (h, m) = Has-find (has_id claim.row.id) st.work q in
        let one =
          same_id current t.row st.work v.sound.apart h t.present
            (==→eq current.id claim.row.id m ∙ sym t.named) in
        rw (q, over-fenced current (rw one t.phase), settle)
  ]

abbrev AtLeast : ℕ → WorkState → ℕ → Type 0
AtLeast k s g = k ≤ g

module _ (e : Env) (k : ℕ) (st : Store) (v : IsWellFormed st) where
  complete_command-Retired :
      (row : WorkRow) (result : CommandResult) (now : ℕ) (reason : Option CommandRejectionReason)
      {st' : Store}
      → Tracked IsStarted row.id st.work
      → Tracked (AtLeast k) row.id st.work
      → complete_command e row result now reason st ≡ ok st'
      → Retired k row.id st'.work
  unfolding finish_row
  complete_command-Retired row result now reason {st'} t u p =
      let c = complete_command-Completes e row result now reason st v t p in
      let w =
        Changes-Tracked (AtLeast k) (λ s t g h q o. omega (arith, Edge-mono q)) c.refines.changes
          u in
      let found : has_id row.id w.row ≡ true = (eq_iff w.row.id row.id).1 w.named in
      rw c.final (record {
        row = guarded (has_id row.id) (finish_row now) w.row;
        present = map-Has (guarded (has_id row.id) (finish_row now)) c.queued.work w.present;
        named = rw found w.named;
        phase = rw found (inl (omega (arith, w.phase)));
      })

  settled-Retired :
      (current : WorkRow) (next : WorkState) (f : WorkRow → WorkRow)
      → Has current st.work
      → current.generation ≡ k
      → Settles next f
      → Retired k current.id (update_where (has_id current.id) f st.work)
  settled-Retired current next f h g s =
      let found : has_id current.id current ≡ true = eq_refl current.id in
      record {
        row = guarded (has_id current.id) f current;
        present = map-Has (guarded (has_id current.id) f) st.work h;
        named = rw found (s.same current).id;
        phase = rw (found, s.state, s.generation) (inr (g, s.other));
      }

  settle_current-Retired :
      (current : WorkRow) (outcome : SettleOutcome) (now : ℕ) {st' : Store} {s : Option WorkState}
      → Has current st.work
      → is_claimed current.state ≡ true
      → current.generation ≡ k
      → settle_current e current outcome now st ≡ ok (st', s)
      → Retired k current.id st'.work
  unfolding settle_current
  settle_current-Retired current outcome now {st'} h held g p =
      elim (Bool-cases (command_is is_pending st current.id && gives_up e.policy outcome current)) [
        | inl q ↦
            let (st1, r, s) = >>=-eq-ok _ _ (rw (q, settle_current) at p) in
            subst (λ (x : Store). Retired k current.id x.work) (ok-injective s).0
              (complete_command-Retired current rejected now none
                (live-Started st current current.id v h refl (ground arith))
                (record { row = current; present = h; named = refl; phase = omega arith }) r)
        | inr q ↦
            rw (← (ok-injective (rw (q, settle_current) at p)).0)
              (settled-Retired current _ _ h g (settlement-Settles e.policy outcome current now))
      ]

module _ (e : Env) (claim : ClaimedWork) (outcome : SettleOutcome) (now : ℕ) (st : Store) where
  pub settle-some-Retired :
      {st' : Store} {s : WorkState}
      → IsWellFormed st
      → settle e claim outcome now st ≡ ok (st', some s)
      → Retired claim.generation claim.row.id st'.work
  unfolding settle fenced
  settle-some-Retired {st'} v p = elim (Option-cases (get_work st claim.row.id)) [
    | inl q ↦ absurd (cc (rw (q, settle) at p))
    | inr (current, q) ↦ elim (Bool-cases (fenced claim current)) [
      | inr z ↦ absurd (cc (rw (q, z, settle) at p))
      | inl z ↦
          let (h, m) = Has-find (has_id claim.row.id) st.work q in
          rw (← ==→eq current.id claim.row.id m) (
            settle_current-Retired e claim.generation st v current outcome now h (ground arith)
              (ground arith) (rw (q, z, settle) at p))
    ]
  ]

  -- On a well-formed store: a claim that was settled with some result is stale for ever after.
  -- Whatever operations any workers run in between, settling the same claim again, with any
  -- outcome, returns null and changes nothing.
  pub settle_once :
      {st' : Store} {s : WorkState}
      → IsWellFormed st
      → settle e claim outcome now st ≡ ok (st', some s)
      → (ops : List Op) (again : SettleOutcome) (later : ℕ)
      → settle e claim again later (run e ops st') ≡ ok (run e ops st', none)
  settle_once {st'} v p ops again later =
      let first = settle-Refines e claim outcome now st v p in
      let rest = run-Refines e ops st' first.well in
      settle-Retired e claim again later (run e ops st') rest.well
        (Changes-Retired claim.generation rest.changes (settle-some-Retired v p))
