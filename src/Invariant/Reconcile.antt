-- ===== src/Invariant/Reconcile.antt =====
-- The recovery sweep keeps the store well-formed: `reconcile` of src/coordinator/store.ts.
use smolpaws.Base.{
  ℕ, ◌+◌, ◌≡◌, refl, ◌∙◌, true, none, List, [], ◌∷◌, Has, here, there, Has-select, any_where-Has,
  update_where, ◌&&◌, arith, ==→eq,
}
use smolpaws.Work.{WorkRow, WorkState, ReconcileReport, is_claimed}
use smolpaws.Command.{CommandResult, rejected, unknown, is_pending, is_attempted}
use smolpaws.Store.{Store, Env, ok, >>=-eq-ok, ok-injective, ok-eq}
use smolpaws.Store.Commands.{complete_command, is_failed}
use smolpaws.Store.Reconcile.{
  is_past, joined, complete_all, is_waiting, to_unknown, to_ready, to_retry, expire_row,
  expire_unknown, wake_row, sweep, reconcile,
}
use smolpaws.Lifecycle.{Edge, expires, expires_sent, wakes}
use smolpaws.Lifecycle.Fence.{Tracked, IsStarted, Changes-Started}
use smolpaws.Invariant.{
  IsWellFormed, Refines, Refines-refl, Refines-trans, update_where-Refines, plain-Step,
}
use smolpaws.Invariant.Commands.{complete_command-Refines, live-Started}

complete_all-Refines :
    (e : Env) (result : CommandResult) (now : ℕ) (rows : List WorkRow) (st : Store) {st' : Store}
    → IsWellFormed st
    → ((r : WorkRow) → Has r rows → Tracked IsStarted r.id st.work)
    → complete_all e result now rows st ≡ ok st'
    → Refines st st'
unfolding complete_all
complete_all-Refines e result now [] st v t p = rw (← ok-eq p) (Refines-refl st v)
complete_all-Refines e result now (row ∷ rows) st v t p =
    let (st1, q, r) = >>=-eq-ok (complete_command e row result now none st) _ p in
    let one = complete_command-Refines e row result now none st v (t row (here refl)) q in
    Refines-trans one (
      complete_all-Refines e result now rows st1 one.well
        (λ x h. Changes-Started one.changes (t x (there h))) r)

-- A row of the joins was claimed before.
failed-Started :
    (st : Store) (r : WorkRow)
    → IsWellFormed st
    → Has r (joined (λ r. is_failed r.state) (λ c. is_pending c.status) st)
    → Tracked IsStarted r.id st.work
unfolding joined
failed-Started st r v h =
    let (m, e) = Has-select _ st.work h in live-Started st r r.id v m refl (ground arith)

attempted-Started :
    (st : Store) (now : ℕ) (r : WorkRow)
    → IsWellFormed st
    → Has r (joined (λ _. true) (λ c. is_attempted c.status && is_past c.attempt_deadline now) st)
    → Tracked IsStarted r.id st.work
unfolding joined
attempted-Started st now r v h =
    let (m, e) = Has-select _ st.work h in
    let (c, n, q) = any_where-Has _ st.commands e in
    let j = v.journal c n in
    record {
      row = j.row;
      present = j.present;
      named = j.named ∙ ==→eq c.work_id r.id (ground arith);
      phase = j.started (ground arith);
    }

expires-Edge : (s : WorkState) (g : ℕ) → is_claimed s ≡ true → Edge s g WorkState.ready (g + 1)
expires-Edge WorkState.claimed g e = expires
expires-Edge _ g e = absurd (ground arith)

sent-Edge :
    (s : WorkState) (g : ℕ) → is_claimed s ≡ true → Edge s g WorkState.delivery_unknown (g + 1)
sent-Edge WorkState.claimed g e = expires_sent
sent-Edge _ g e = absurd (ground arith)

wakes-Edge : (s : WorkState) (g : ℕ) → is_waiting s ≡ true → Edge s g WorkState.ready g
wakes-Edge WorkState.retry_wait g e = wakes
wakes-Edge _ g e = absurd (ground arith)

module _ (now : ℕ) where
  unknowns-Refines :
      (st : Store)
      → IsWellFormed st
      → Refines st (record st { work = update_where (to_unknown now) (expire_unknown now) st.work })
  unfolding expire_unknown
  unknowns-Refines st v =
      update_where-Refines st (to_unknown now) _
        (λ r h e.
          plain-Step st.work r _ (ground arith) (sent-Edge r.state r.generation (ground arith))
            refl)
        v

  readies-Refines :
      (st : Store)
      → IsWellFormed st
      → Refines st (record st {
        work = update_where (to_ready now) (expire_row WorkState.ready now) st.work;
      })
  unfolding expire_row
  readies-Refines st v =
      update_where-Refines st (to_ready now) _
        (λ r h e.
          plain-Step st.work r _ (ground arith) (expires-Edge r.state r.generation (ground arith))
            refl)
        v

  retries-Refines :
      (st : Store)
      → IsWellFormed st
      → Refines st (record st { work = update_where (to_retry now) (wake_row now) st.work })
  unfolding wake_row
  retries-Refines st v =
      update_where-Refines st (to_retry now) _
        (λ r h e.
          plain-Step st.work r _ (ground arith) (wakes-Edge r.state r.generation (ground arith))
            refl)
        v

  sweep-Refines :
      (st : Store) → IsWellFormed st → Refines st (record st { work = (sweep now st.work).0 })
  unfolding sweep
  sweep-Refines st v =
      let a = unknowns-Refines st v in
      let b = readies-Refines _ a.well in
      Refines-trans a (Refines-trans b (retries-Refines _ b.well))

-- A recovery sweep follows the machine.
pub reconcile-Refines :
    (e : Env) (now : ℕ) (st : Store) {st' : Store} {report : ReconcileReport}
    → IsWellFormed st
    → reconcile e now st ≡ ok (st', report)
    → Refines st st'
unfolding reconcile
reconcile-Refines e now st v p =
    let (st1, q, r) = >>=-eq-ok (complete_all e rejected now _ st) _ p in
    let a = complete_all-Refines e rejected now _ st v (λ x h. failed-Started st x v h) q in
    let (st2, s, t) = >>=-eq-ok (complete_all e unknown now _ st1) _ r in
    let b =
      complete_all-Refines e unknown now _ st1 a.well (λ x h. attempted-Started st1 now x a.well h)
        s in
    rw (← (ok-injective t).0) (Refines-trans a (Refines-trans b (sweep-Refines now st2 b.well)))
