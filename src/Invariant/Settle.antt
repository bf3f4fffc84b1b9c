-- ===== src/Invariant/Settle.antt =====
-- Settling a claim keeps the store well-formed: `settle` of src/coordinator/store.ts.
use smolpaws.Base.{
  ℕ, ◌≡◌, refl, subst, true, false, Option, none, Has, Has-find, update_where, leb, ◌&&◌, arith,
  ==→eq, Bool-cases, Option-cases, inl, inr,
}
use smolpaws.Work.{
  WorkRow, WorkState, ClaimedWork, RetryPolicy, SettleOutcome, settle_done, settle_retry,
  settle_unknown, settle_fail, is_claimed,
}
use smolpaws.Command.{rejected, is_pending}
use smolpaws.Store.{Store, Env, ok, >>=-eq-ok, ok-injective, has_id, get_work}
use smolpaws.Store.Commands.{command_is}
use smolpaws.Store.Settle.{settlement, gives_up, fenced, settle_current, settle}
use smolpaws.Lifecycle.{
  Edge, settles, Settled, settled_done, settled_retry, settled_failed, settled_unknown, SameWork,
}
use smolpaws.Lifecycle.Soundness.{same_id}
use smolpaws.Invariant.{IsWellFormed, Refines, Refines-refl, update_where-Refines, plain-Step}
use smolpaws.Invariant.Commands.{complete_command-Refines, live-Started}

-- The state that an outcome leads to, and what its update leaves alone.
pub record Settles (next : WorkState) (f : WorkRow → WorkRow) : Type 0 where
  pub settled : Settled next
  pub other : is_claimed next ≡ false
  pub state : (r : WorkRow) → (f r).state ≡ next
  pub generation : (r : WorkRow) → (f r).generation ≡ r.generation
  pub same : (r : WorkRow) → SameWork r (f r)

pub settlement-Settles :
    (p : RetryPolicy) (outcome : SettleOutcome) (current : WorkRow) (now : ℕ)
    → Settles (settlement p outcome current now).0 (settlement p outcome current now).1
unfolding settlement
settlement-Settles p (settle_done ext) current now = record {
  settled = settled_done;
  other = refl;
  state = λ r. refl;
  generation = λ r. refl;
  same = λ r. ground arith;
}
settlement-Settles p (settle_unknown error) current now = record {
  settled = settled_unknown;
  other = refl;
  state = λ r. refl;
  generation = λ r. refl;
  same = λ r. ground arith;
}
settlement-Settles p (settle_fail error) current now = record {
  settled = settled_failed;
  other = refl;
  state = λ r. refl;
  generation = λ r. refl;
  same = λ r. ground arith;
}
settlement-Settles p (settle_retry error) current now =
    elim (Bool-cases (leb p.max_attempts current.attempts)) [
      | inl e ↦
          rw (e, settlement)
            (record {
              settled = settled_failed;
              other = refl;
              state = λ r. refl;
              generation = λ r. refl;
              same = λ r. ground arith;
            })
      | inr e ↦
          rw (e, settlement)
            (record {
              settled = settled_retry;
              other = refl;
              state = λ r. refl;
              generation = λ r. refl;
              same = λ r. ground arith;
            })
    ]

settles-Edge : (s t : WorkState) (g h : ℕ) → is_claimed s ≡ true → Settled t → h ≡ g → Edge s g t h
settles-Edge WorkState.claimed t g h e x q = rw q (settles x)
settles-Edge _ t g h e x q = absurd (ground arith)

module _ (st : Store) (current : WorkRow) (h : Has current st.work)
    (held : is_claimed current.state ≡ true) (v : IsWellFormed st) where
  settled-Refines :
      (next : WorkState) (f : WorkRow → WorkRow)
      → Settles next f
      → Refines st (record st { work = update_where (has_id current.id) f st.work })
  settled-Refines next f s =
      update_where-Refines st (has_id current.id) f
        (λ r m e.
          let one = same_id r current st.work v.sound.apart m h (==→eq r.id current.id e) in
          plain-Step st.work r (f r) (s.same r)
            (rw s.state (
              settles-Edge r.state next r.generation (f r).generation (rw one held) s.settled
                (s.generation r)))
            (rw s.state s.other))
        v

  settle_current-Refines :
      (e : Env) (outcome : SettleOutcome) (now : ℕ) {st' : Store} {s : Option WorkState}
      → settle_current e current outcome now st ≡ ok (st', s)
      → Refines st st'
  unfolding settle_current
  settle_current-Refines e outcome now p =
      elim (Bool-cases (command_is is_pending st current.id && gives_up e.policy outcome current)) [
        | inl q ↦
            let (st1, r, s) = >>=-eq-ok _ _ (rw (q, settle_current) at p) in
            subst (Refines st) (ok-injective s).0 (
              complete_command-Refines e current rejected now none st v
                (live-Started st current current.id v h refl (ground arith)) r)
        | inr q ↦
            rw (← (ok-injective (rw (q, settle_current) at p)).0)
              (settled-Refines _ _ (settlement-Settles e.policy outcome current now))
      ]

-- Settling follows the machine.
pub settle-Refines :
    (e : Env) (claim : ClaimedWork) (outcome : SettleOutcome) (now : ℕ) (st : Store) {st' : Store}
    {s : Option WorkState}
    → IsWellFormed st
    → settle e claim outcome now st ≡ ok (st', s)
    → Refines st st'
unfolding settle
settle-Refines e claim outcome now st v p = elim (Option-cases (get_work st claim.row.id)) [
  | inl q ↦ rw (← (ok-injective (rw (q, settle) at p)).0) (Refines-refl st v)
  | inr (current, q) ↦ elim (Bool-cases (fenced claim current)) [
    | inr z ↦ rw (← (ok-injective (rw (q, z, settle) at p)).0) (Refines-refl st v)
    | inl z ↦
        settle_current-Refines st current (Has-find (has_id claim.row.id) st.work q).0
          (ground arith) v e outcome now (rw (q, z, settle) at p)
  ]
]
