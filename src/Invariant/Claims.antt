-- ===== src/Invariant/Claims.antt =====
-- Claims, releases and send marks keep the store well-formed: src/coordinator/store.ts.
use smolpaws.Base.{
  ℕ, ◌+◌, ◌≡◌, refl, true, Option, List, [], ◌∷◌, Has, here, there, Has-take, not-any_where,
  Has-select, select, count_where, ◌=?◌, arith, ==→eq, Bool-cases, inl, inr, String, update_where,
}
use smolpaws.Work.{WorkRow, WorkState, WorkKind, ClaimedWork, is_ready, is_claimed}
use smolpaws.Store.{Store, Env}
use smolpaws.Store.Commands.{is_live}
use smolpaws.Store.Claims.{
  blocks, claimable, candidates, order_by_readiness, insert_sorted, sooner, still_ready, claim_row,
  claim_first, claim_ready, mark_sending, release,
}
use smolpaws.Lifecycle.{Edge, keeps, claims, releases, Step, IsHead}
use smolpaws.Lifecycle.Soundness.{same_id}
use smolpaws.Invariant.{IsWellFormed, Refines, Refines-refl, update_where-Refines}

Has-insert_sorted :
    (r x : WorkRow) (rows : List WorkRow) → Has x (insert_sorted r rows) → Has x (r ∷ rows)
unfolding insert_sorted
Has-insert_sorted r x [] h = h
Has-insert_sorted r x (s ∷ rows) h = elim (Bool-cases (sooner r s)) [
  | inl e ↦ rw (e, insert_sorted) at h
  | inr e ↦ later (Has-insert_sorted r x rows) (rw (e, insert_sorted) at h)
]
  where
    swap : Has x (r ∷ rows) → Has x (r ∷ s ∷ rows)
    swap (here q) = here q
    swap (there h) = there (there h)

    later :
        (Has x (insert_sorted r rows) → Has x (r ∷ rows))
        → Has x (s ∷ insert_sorted r rows)
        → Has x (r ∷ s ∷ rows)
    later ih (here q) = there (here q)
    later ih (there h) = swap (ih h)

Has-order_by_readiness :
    (x : WorkRow) (rows : List WorkRow) → Has x (order_by_readiness rows) → Has x rows
unfolding order_by_readiness
Has-order_by_readiness x [] h = h
Has-order_by_readiness x (r ∷ rows) h =
    later (Has-order_by_readiness x rows) (Has-insert_sorted r x (order_by_readiness rows) h)
  where
    later :
        (Has x (order_by_readiness rows) → Has x rows)
        → Has x (r ∷ order_by_readiness rows)
        → Has x (r ∷ rows)
    later ih (here q) = here q
    later ih (there h) = there (ih h)

-- A candidate is a row of the table that may be claimed.
pub Has-candidates :
    (work : List WorkRow) (now : ℕ) (kind : Option WorkKind) (c : WorkRow)
    → Has c (candidates work now kind)
    → Has c work × (claimable work now kind c ≡ true)
unfolding candidates
Has-candidates work now kind c h = Has-select (claimable work now kind) work (
    Has-order_by_readiness c (select (claimable work now kind) work)
      (Has-take 8 (order_by_readiness (select (claimable work now kind) work)) h))

pub claimable-IsHead :
    (work : List WorkRow) (now : ℕ) (kind : Option WorkKind) (c : WorkRow)
    → claimable work now kind c ≡ true
    → IsHead work c
unfolding claimable
claimable-IsHead work now kind c e w h = not-any_where (blocks c) work (ground arith) h

claim-Edge :
    (s : WorkState) (g h : ℕ) → is_ready s ≡ true → g ≡ h → Edge s g WorkState.claimed (h + 1)
claim-Edge WorkState.ready g h e q = rw (← q) claims
claim-Edge _ g h e q = absurd (ground arith)

module _ (worker : String) (until now : ℕ) (st : Store) (v : IsWellFormed st) where
  claim_row-Step :
      (c : WorkRow)
      → Has c st.work
      → IsHead st.work c
      → (r : WorkRow) → Has r st.work
      → still_ready c r ≡ true
      → Step st.work r (claim_row worker until (c.generation + 1) now r)
  unfolding claim_row
  claim_row-Step c hc head r hr e =
      let same = same_id r c st.work v.sound.apart hr hc (==→eq r.id c.id (ground arith)) in
      record {
        same = ground arith;
        edge = claim-Edge r.state r.generation c.generation (ground arith) (ground arith);
        head = λ p q. rw same head;
      }

  pub claim-Refines :
      (c : WorkRow)
      → Has c st.work
      → IsHead st.work c
      → Refines st (record st {
        work = update_where (still_ready c) (claim_row worker until (c.generation + 1) now) st.work;
      })
  claim-Refines c hc head =
      update_where-Refines st (still_ready c) (claim_row worker until (c.generation + 1) now)
        (claim_row-Step c hc head) v

  claim_first-Refines :
      (rows : List WorkRow)
      → ((c : WorkRow) → Has c rows → Has c st.work × IsHead st.work c)
      → Refines st (claim_first worker until now rows st).0
  unfolding claim_first
  claim_first-Refines [] heads = Refines-refl st v
  claim_first-Refines (c ∷ rows) heads =
      let (hc, head) = heads c (here refl) in
      elim (Bool-cases (count_where (still_ready c) st.work =? 1)) [
        | inl e ↦ rw (e, claim_first) (claim-Refines c hc head)
        | inr e ↦ rw (e, claim_first) (claim_first-Refines rows (λ x h. heads x (there h)))
      ]

pub claim_ready-Refines :
    (e : Env) (worker : String) (now : ℕ) (kind : Option WorkKind) (st : Store)
    → IsWellFormed st
    → Refines st (claim_ready e worker now kind st).0
unfolding claim_ready
claim_ready-Refines e worker now kind st v =
    claim_first-Refines worker (now + e.policy.claim_ttl_ms) now st v (candidates st.work now kind)
      λ c h.
        let (m, q) = Has-candidates st.work now kind c h in
        (m, claimable-IsHead st.work now kind c q)

release-Edge : (s : WorkState) (g : ℕ) → is_claimed s ≡ true → Edge s g WorkState.ready g
release-Edge WorkState.claimed g e = releases
release-Edge _ g e = absurd (ground arith)

pub mark_sending-Refines :
    (claim : ClaimedWork) (now : ℕ) (st : Store)
    → IsWellFormed st
    → Refines st (mark_sending claim now st).0
unfolding mark_sending
mark_sending-Refines claim now st v =
    update_where-Refines st (is_live claim)
      (λ r. record r { send_attempted = true; updated_at = now })
      (λ r h e. record { same = ground arith; edge = keeps; head = λ p q. absurd (ground arith) }) v

pub release-Refines :
    (claim : ClaimedWork) (now : ℕ) (st : Store)
    → IsWellFormed st
    → Refines st (release claim now st).0
unfolding release
release-Refines claim now st v =
    update_where-Refines st (is_live claim) _
      (λ r h e. record {
        same = ground arith;
        edge = release-Edge r.state r.generation (ground arith);
        head = λ p q. absurd (cc q);
      })
      v
