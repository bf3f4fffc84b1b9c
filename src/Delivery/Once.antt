-- ===== src/Delivery/Once.antt =====
-- At-most-once delivery, src/coordinator/deliveryDispatcher.ts.
use smolpaws.Base.{
  ℕ, ◌≡◌, ◌≢◌, refl, ◌∙◌, ap, String, true, Option, none, some, List, ◌∷◌, Has, here, there,
  map-Has, guarded, arith, eq_refl, Bool-cases, Option-cases, inl, inr, not-Has-nil,
}
use smolpaws.Work.{
  WorkRow, WorkState, WorkKind, ClaimedWork, LaneRow, settle_done, settle_unknown, settle_fail,
}
use smolpaws.Store.{Store, Env, Result, ok, err, get_lane}
use smolpaws.Store.Claims.{claim_ready, claim_row, claimable, mark_sending, release}
use smolpaws.Store.Commands.{is_live}
use smolpaws.Store.Settle.{settle, settlement}
use smolpaws.Lifecycle.Soundness.{same_id}
use smolpaws.Invariant.{IsWellFormed}
use smolpaws.Invariant.Claims.{claim_ready-Refines, mark_sending-Refines, release-Refines}
use smolpaws.Invariant.Settle.{settle-Refines}
use smolpaws.History.{step-Refines, empty-IsWellFormed}
use smolpaws.Claiming.{ClaimsRow, ClaimsResult, claim_ready_lem}
use smolpaws.Relay.Dispatch.{
  Target, Targets, DispatchOutcome, settled_as, fail_dispatch, send_to, dispatch_claim,
  dispatch_next, get_target, SendReply, sent, send_failed, after_send,
}
use smolpaws.Delivery.{Reached, start, operates, dispatches, answers, logged, NoRepeats, SpentIn}
use smolpaws.Delivery.Spent.{claim_ready-SpentIn, mark_sending-SpentIn, release-SpentIn}
use smolpaws.Delivery.Settles.{settle-SpentIn, step-SpentIn}

-- Every delivery that was handed over is spent, and was handed over once.
pub record IsTracked (st : Store) (log : List String) : Type 0 where
  pub well : IsWellFormed st
  pub spent : (id : String) → Has id log → SpentIn id st.work
  pub once : NoRepeats log

-- A claim that was just made, of a delivery that was never handed over.
record IsFresh (st : Store) (log : List String) (claim : ClaimedWork) : Type 0 where
  present : Has claim.row st.work
  live : is_live claim claim.row ≡ true
  kind : claim.row.kind ≡ WorkKind.delivery
  unsent : ¬ Has claim.row.id log

settled_as-store {ℓ} :
    (P : Store → Type ℓ) (st : Store) (r : Result (Store × Option WorkState))
    (f : Option WorkState → DispatchOutcome)
    → P st
    → ((st' : Store) (s : Option WorkState) → r ≡ ok (st', s) → P st')
    → P (settled_as st r f).0
settled_as-store P st (err x) f p h = p
settled_as-store P st (ok (st', s)) f p h = h st' s refl

settled_as-logged :
    (st : Store) (r : Result (Store × Option WorkState)) (f : Option WorkState → DispatchOutcome)
    (log : List String)
    → logged (settled_as st r f).1 log ≡ log
unfolding logged
settled_as-logged st (err x) f log = refl
settled_as-logged st (ok (st', s)) f log = refl

claim_ready-some :
    (e : Env) (worker : String) (now : ℕ) (kind : Option WorkKind) (st : Store)
    (v : IsWellFormed st) (c : ClaimedWork) (r : Store × Option ClaimedWork)
    → ClaimsResult e worker now kind st v r
    → r.1 ≡ some c
    → ClaimsRow e worker now kind st r.0 c
claim_ready-some e worker now kind st v c (st', none) h p = absurd (cc p)
claim_ready-some e worker now kind st v c (st', some d) h p =
    let same : d ≡ c = cc p in rw (← same) h

module _ (e : Env) {log : List String} where
  fresh_spent :
      {st : Store} {claim : ClaimedWork} {id : String}
      → IsFresh st log claim
      → Has id log
      → claim.row.id ≢ id
  fresh_spent f h q = f.unsent (rw q h)

  -- A fresh claim that fails was not sent.
  fail_dispatch-IsTracked :
      (claim : ClaimedWork) (error : String) (now : ℕ) (st : Store)
      → IsTracked st log
      → IsFresh st log claim
      → let r = fail_dispatch e claim error now st in IsTracked r.0 (logged r.1 log)
  unfolding fail_dispatch
  fail_dispatch-IsTracked claim error now st t f =
      rw (settled_as-logged st (settle e claim (settle_fail (some error)) now st) _ log) (
        settled_as-store (λ x. IsTracked x log) st
          (settle e claim (settle_fail (some error)) now st) _ t
          (λ x s p. record {
            well = (settle-Refines e claim (settle_fail (some error)) now st t.well p).well;
            spent = λ id h.
                settle-SpentIn id e claim (settle_fail (some error)) now st (inl (fresh_spent f h))
                  (t.spent id h) p;
            once = t.once;
          }))

  release-IsTracked :
      (claim : ClaimedWork) (now : ℕ) (st : Store)
      → IsTracked st log
      → IsFresh st log claim
      → IsTracked (release claim now st).0 log
  release-IsTracked claim now st t f = record {
    well = (release-Refines claim now st t.well).well;
    spent = λ id h. release-SpentIn id claim now st (fresh_spent f h) (t.spent id h);
    once = t.once;
  }

  mark_sending-IsTracked :
      (claim : ClaimedWork) (now : ℕ) (st : Store)
      → IsTracked st log
      → IsTracked (mark_sending claim now st).0 log
  mark_sending-IsTracked claim now st t = record {
    well = (mark_sending-Refines claim now st t.well).well;
    spent = λ id h. mark_sending-SpentIn id claim now st (t.spent id h);
    once = t.once;
  }

  -- The mark spends the claimed row.
  marked-SpentIn :
      (claim : ClaimedWork) (now : ℕ) (st : Store)
      → IsFresh st log claim
      → SpentIn claim.row.id (mark_sending claim now st).0.work
  unfolding mark_sending
  marked-SpentIn claim now st f = record {
    row = record claim.row { send_attempted = true; updated_at = now };
    present = rw f.live at (
        map-Has
          (guarded (is_live claim) (λ r. record r { send_attempted = true; updated_at = now }))
          st.work f.present);
    named = refl;
    spent = ground (arith, f.live, f.kind);
  }

  sending-IsTracked :
      (claim : ClaimedWork) (now : ℕ) (st : Store)
      → IsTracked st log
      → IsFresh st log claim
      → IsTracked (mark_sending claim now st).0 (claim.row.id ∷ log)
  sending-IsTracked claim now st t f =
      let m = mark_sending-IsTracked claim now st t in
      record { well = m.well; spent = spent_one m; once = (f.unsent, t.once) }
    where
      spent_one :
          IsTracked (mark_sending claim now st).0 log
          → (id : String) → Has id (claim.row.id ∷ log)
          → SpentIn id (mark_sending claim now st).0.work
      spent_one m id (here q) = rw q (marked-SpentIn claim now st f)
      spent_one m id (there h) = m.spent id h

  send_to-IsTracked :
      (target : Target) (claim : ClaimedWork) (lane : LaneRow) (now : ℕ) (st : Store)
      → IsTracked st log
      → IsFresh st log claim
      → let r = send_to e target claim lane now st in IsTracked r.0 (logged r.1 log)
  unfolding send_to logged
  send_to-IsTracked target claim lane now st t f =
      elim (Option-cases (target.validate lane claim.row.payload)) [
        | inr (error, q) ↦ rw (q, send_to) (fail_dispatch-IsTracked claim error now st t f)
        | inl q ↦ elim (Bool-cases target.is_ready) [
          | inr r ↦ rw (q, r, send_to) (release-IsTracked claim now st t f)
          | inl r ↦ elim (Bool-cases (mark_sending claim now st).1) [
            | inl m ↦ rw (q, r, m, send_to) (sending-IsTracked claim now st t f)
            | inr m ↦ rw (q, r, m, send_to) (mark_sending-IsTracked claim now st t)
          ]
        ]
      ]

  dispatch_claim-IsTracked :
      (targets : Targets) (claim : ClaimedWork) (now : ℕ) (st : Store)
      → IsTracked st log
      → IsFresh st log claim
      → let r = dispatch_claim e targets claim now st in IsTracked r.0 (logged r.1 log)
  unfolding dispatch_claim
  dispatch_claim-IsTracked targets claim now st t f =
      elim (Option-cases (get_lane st claim.row.lane_key)) [
        | inl q ↦ rw (q, dispatch_claim) (fail_dispatch-IsTracked claim _ now st t f)
        | inr (lane, q) ↦ elim (Option-cases (get_target lane.platform targets)) [
          | inl r ↦ rw (q, r, dispatch_claim) (fail_dispatch-IsTracked claim _ now st t f)
          | inr (target, r) ↦
              rw (q, r, dispatch_claim) (send_to-IsTracked target claim lane now st t f)
        ]
      ]

  -- What is claimed is ready, and what was handed over is not.
  claim_ready-IsFresh :
      (worker : String) (now : ℕ) (st : Store) (c : ClaimedWork)
      → IsTracked st log
      → (claim_ready e worker now (some WorkKind.delivery) st).1 ≡ some c
      → IsFresh (claim_ready e worker now (some WorkKind.delivery) st).0 log c
  unfolding claim_row claimable
  claim_ready-IsFresh worker now st c t p =
      let r =
        claim_ready-some e worker now (some WorkKind.delivery) st t.well c _
          (claim_ready_lem e worker now (some WorkKind.delivery) st t.well) p in
      record {
        present = r.stored;
        live = ground (arith, r.row, r.generation, eq_refl c.row.id);
        kind = ground (arith, r.row, r.claimable_row);
        unsent = λ h.
            let s = t.spent c.row.id h in
            let i : s.row.id ≡ r.from.id = s.named ∙ ap (λ (x : WorkRow). x.id) r.row in
            let one = same_id s.row r.from st.work t.well.sound.apart s.present r.present i in
            absurd (ground (arith, one, s.spent, r.claimable_row));
      }

  claim_ready-IsTracked :
      (worker : String) (now : ℕ) (kind : Option WorkKind) (st : Store)
      → IsTracked st log
      → IsTracked (claim_ready e worker now kind st).0 log
  claim_ready-IsTracked worker now kind st t = record {
    well = (claim_ready-Refines e worker now kind st t.well).well;
    spent = λ id h. claim_ready-SpentIn id e worker now kind st (t.spent id h);
    once = t.once;
  }

  dispatch_next-IsTracked :
      (targets : Targets) (worker : String) (now : ℕ) (st : Store)
      → IsTracked st log
      → let r = dispatch_next e targets worker now st in IsTracked r.0 (logged r.1 log)
  unfolding dispatch_next logged
  dispatch_next-IsTracked targets worker now st t =
      let moved = claim_ready-IsTracked worker now (some WorkKind.delivery) st t in
      elim (Option-cases (claim_ready e worker now (some WorkKind.delivery) st).1) [
        | inl q ↦ rw (q, dispatch_next) moved
        | inr (c, q) ↦
            rw (q, dispatch_next)
              (dispatch_claim-IsTracked targets c now _ moved
                (claim_ready-IsFresh worker now st c t q))
      ]

  after_send-IsTracked :
      (claim : ClaimedWork) (reply : SendReply) (now : ℕ) (st : Store)
      → IsTracked st log
      → IsTracked (after_send e claim reply now st).0 log
  unfolding after_send settlement
  after_send-IsTracked claim (sent external) now st t =
      settled_as-store (λ x. IsTracked x log) st _ _ t
        (λ x s p. record {
          well = (settle-Refines e claim (settle_done external) now st t.well p).well;
          spent = λ id h.
              settle-SpentIn id e claim (settle_done external) now st (inr (λ c. refl))
                (t.spent id h) p;
          once = t.once;
        })
  after_send-IsTracked claim (send_failed error) now st t =
      settled_as-store (λ x. IsTracked x log) st _ _ t
        (λ x s p. record {
          well = (settle-Refines e claim (settle_unknown (some error)) now st t.well p).well;
          spent = λ id h.
              settle-SpentIn id e claim (settle_unknown (some error)) now st (inr (λ c. refl))
                (t.spent id h) p;
          once = t.once;
        })

Reached-IsTracked : (e : Env) {st : Store} {log : List String} → Reached e st log → IsTracked st log
Reached-IsTracked e start = record {
  well = empty-IsWellFormed;
  spent = λ id h. absurd (not-Has-nil h);
  once = tt;
}
Reached-IsTracked e (operates {st} op g r) =
    let t = Reached-IsTracked e r in
    record {
      well = (step-Refines e op st t.well).well;
      spent = λ id h. step-SpentIn id e op st g (t.spent id h);
      once = t.once;
    }
Reached-IsTracked e (dispatches {st} targets worker now r) =
    dispatch_next-IsTracked e targets worker now st (Reached-IsTracked e r)
Reached-IsTracked e (answers {st} claim reply now r) =
    after_send-IsTracked e claim reply now st (Reached-IsTracked e r)

-- However the store's operations, the dispatches of any workers and the answers of their sends,
-- late ones included, follow each other from the empty store: no delivery is handed to a platform
-- twice, as long as no operator requeues work whose send was attempted, and deliveries are settled,
-- marked and released by the dispatcher only.
pub delivered_once : (e : Env) {st : Store} {log : List String} → Reached e st log → NoRepeats log
delivered_once e r = (Reached-IsTracked e r).once
