-- ===== src/Relay/Outbound.antt =====
-- src/coordinator/outboundRelay.ts: one tick catches up the outbox of each conversation, then
-- dispatches a bounded number of deliveries. `sync` and `next` are a synchronization and a dispatch
-- as they end, with the store that others may have changed meanwhile; `next` gets its turn's number.
use smolpaws.Base.{
  ℕ, zero, suc, ◌+◌, ◌≤◌, ◌≡◌, refl, String, Bool, true, false, List, [], ◌∷◌, length, any_where,
  count_where, arith, Bool-cases, inl, inr, ◌⊎◌, ◌==◌, if◌then◌else◌,
}
use smolpaws.Store.{Store, StoreError}
use smolpaws.Relay.Dispatch.{DispatchOutcome, idle, delivered, transport_unavailable}
use smolpaws.Relay.Outbox.{Synced, synced, sync_failed, SyncError}

-- The synchronizations of a tick, so far.
pub record SyncTotals : Type 0 where
  pub synced_deliveries : ℕ
  pub sync_failures : List (String × SyncError)

-- new Set(ids): the first of equal ids stays.
unfoldable pub unique_ids : List String → List String → List String
unfolding any_where
unique_ids seen [] = []
unique_ids seen (id ∷ ids) =
    let old = unique_ids seen ids in
    let new = unique_ids (id ∷ seen) ids in if any_where (λ x. x == id) seen then old else id ∷ new

-- A failure is noted and the next conversation is caught up.
unfoldable pub sync_all : (String → Store → Synced) → List String → Store → Store × SyncTotals
sync_all sync [] st = (st, record { synced_deliveries = 0; sync_failures = [] })
sync_all sync (id ∷ ids) st = elim (sync id st) [
  | synced n st' ↦
      let (st'', rest) = sync_all sync ids st' in
      (st'', record rest { synced_deliveries = n + rest.synced_deliveries })
  | sync_failed x st' ↦
      let (st'', rest) = sync_all sync ids st' in
      (st'', record rest { sync_failures = (id, x) ∷ rest.sync_failures })
]

abbrev pub is_idle : DispatchOutcome → Bool
is_idle idle = true
is_idle _ = false

abbrev pub is_delivered : DispatchOutcome → Bool
is_delivered (delivered id external) = true
is_delivered _ = false

abbrev pub is_unavailable : DispatchOutcome → Bool
is_unavailable (transport_unavailable id) = true
is_unavailable _ = false

-- A dispatch returns its outcome, or an error of the store leaves it, and the tick.
pub data Turn : Type 0 where
  took : DispatchOutcome → Store → Turn
  turn_threw : StoreError → Store → Turn

pub data Looped : Type 0 where
  looped : List DispatchOutcome → ℕ → Store → Looped
  loop_threw : StoreError → Store → Looped

abbrev pub add_outcome : DispatchOutcome → Looped → Looped
add_outcome o (looped os n st) = looped (o ∷ os) (if is_delivered o then suc n else n) st
add_outcome o (loop_threw x st) = loop_threw x st

-- The loop, from turn `i`, with `left` turns left.
unfoldable pub dispatch_loop : (ℕ → Store → Turn) → ℕ → ℕ → Store → Looped
dispatch_loop next zero i st = looped [] 0 st
dispatch_loop next (suc left) i st = elim (next i st) [
  | turn_threw x st' ↦ loop_threw x st'
  | took o st' ↦
      let rest = dispatch_loop next left (suc i) st' in
      if is_idle o
      then looped [] 0 st'
      else if is_unavailable o
      then add_outcome o (looped [] 0 st')
      else add_outcome o rest
]

unfoldable pub tick :
    (String → Store → Synced)
    → (ℕ → Store → Turn)
    → List String
    → Bool
    → ℕ
    → Store
    → SyncTotals × Looped
unfolding unique_ids sync_all dispatch_loop
tick sync next ids can_dispatch max st =
    let (st', totals) = sync_all sync (unique_ids [] ids) st in
    (totals, if can_dispatch then dispatch_loop next max 0 st' else looped [] 0 st')

-- No idle outcome, and an unavailable transport is the last one.
abbrev pub IsStopped : List DispatchOutcome → Type 0
IsStopped [] = Unit
IsStopped (o ∷ []) = is_idle o ≡ false
IsStopped (o ∷ p ∷ os) = (is_idle o ≡ false) × (is_unavailable o ≡ false) × IsStopped (p ∷ os)

-- The outcomes are those of the turns from `i` on, each taken on the store that the turn before left;
-- the last one leaves the last store.
abbrev pub Follow : (ℕ → Store → Turn) → ℕ → Store → List DispatchOutcome → Store → Type 0
Follow next i st [] st' = st ≡ st'
Follow next i st (o ∷ os) st' = (s : Store) × (next i st ≡ took o s) × Follow next (suc i) s os st'

abbrev pub ends_unavailable : List DispatchOutcome → Bool
ends_unavailable [] = false
ends_unavailable (o ∷ []) = is_unavailable o
ends_unavailable (o ∷ p ∷ os) = ends_unavailable (p ∷ os)

-- Why the loop took no further turn: all were taken, the last found no transport, or one more was
-- taken on `s` and found nothing to do.
abbrev pub HasEnded : (ℕ → Store → Turn) → ℕ → ℕ → List DispatchOutcome → Store → Store → Type 0
HasEnded next max i os s st' =
    ((s ≡ st') × ((length os ≡ max) ⊎ (ends_unavailable os ≡ true)))
    ⊎ (next (i + length os) s ≡ took idle st')

-- The outcomes of a loop that returned.
pub record IsBounded (next : ℕ → Store → Turn) (max i : ℕ) (st : Store)
    (outcomes : List DispatchOutcome) (dispatched : ℕ) (st' : Store) : Type 0 where
  pub bounded : length outcomes ≤ max
  pub counted : dispatched ≡ count_where is_delivered outcomes
  pub stopped : IsStopped outcomes
  pub last : Store
  pub followed : Follow next i st outcomes last
  pub ended : HasEnded next max i outcomes last st'

Turn-cases :
    (t : Turn)
    → ((x : StoreError) × (st : Store) × (t ≡ turn_threw x st))
      ⊎ ((o : DispatchOutcome) × (st : Store) × (t ≡ took o st))
Turn-cases (took o st) = inr (o, st, refl)
Turn-cases (turn_threw x st) = inl (x, st, refl)

more-IsStopped :
    (o : DispatchOutcome) (os : List DispatchOutcome)
    → is_idle o ≡ false
    → is_unavailable o ≡ false
    → IsStopped os
    → IsStopped (o ∷ os)
more-IsStopped o [] a b s = a
more-IsStopped o (p ∷ os) a b s = (a, b, s)

is_idle-eq : (o : DispatchOutcome) → is_idle o ≡ true → o ≡ idle
is_idle-eq idle h = refl
is_idle-eq _ h = absurd (cc h)

more-HasEnded :
    (next : ℕ → Store → Turn) (left i : ℕ) (o : DispatchOutcome) (os : List DispatchOutcome)
    (s st' : Store)
    → HasEnded next left (suc i) os s st'
    → HasEnded next (suc left) i (o ∷ os) s st'
more-HasEnded next left i o os s st' (inl (e, inl n)) = inl (e, inl (omega (arith, n)))
more-HasEnded next left i o [] s st' (inl (e, inr u)) = absurd (cc u)
more-HasEnded next left i o (p ∷ os) s st' (inl (e, inr u)) = inl (e, inr u)
more-HasEnded next left i o os s st' (inr h) =
    let same : i + length (o ∷ os) ≡ suc i + length os = omega arith in inr (rw same h)

add-IsBounded :
    (next : ℕ → Store → Turn) (left i : ℕ) (o : DispatchOutcome) (st st1 : Store) (rest : Looped)
    {outcomes : List DispatchOutcome} {n : ℕ} {st' : Store}
    → next i st ≡ took o st1
    → is_idle o ≡ false
    → is_unavailable o ≡ false
    → ((os : List DispatchOutcome) (m : ℕ) (st2 : Store)
        → rest ≡ looped os m st2
        → IsBounded next left (suc i) st1 os m st2)
    → add_outcome o rest ≡ looped outcomes n st'
    → IsBounded next (suc left) i st outcomes n st'
unfolding count_where
add-IsBounded next left i o st st1 (loop_threw x st2) q a b ih p = absurd (cc p)
add-IsBounded next left i o st st1 (looped os m st2) {outcomes} {n} {st'} q a b ih p =
    let h = ih os m st2 refl in
    let same : o ∷ os ≡ outcomes = cc p in
    let count : (if is_delivered o then suc m else m) ≡ n = cc p in
    let left_at : st2 ≡ st' = cc p in
    rw (← same, ← count, ← left_at)
      (record {
        bounded = omega (arith, h.bounded);
        counted = ground (arith, h.counted);
        stopped = more-IsStopped o os a b h.stopped;
        last = h.last;
        followed = (st1, q, h.followed);
        ended = more-HasEnded next left i o os h.last st2 h.ended;
      })

-- A tick's loop that returns has taken the outcomes of its first turns in order, each on the store
-- that the one before left, at most the given number, and counts the delivered ones. It ends when
-- that number was taken, when a turn found no transport, whose outcome is the last, or when the
-- next turn found nothing to do, which is not among the outcomes; no earlier turn did either.
pub dispatch_loop-IsBounded :
    (next : ℕ → Store → Turn) (max i : ℕ) (st : Store) {outcomes : List DispatchOutcome} {n : ℕ}
    {st' : Store}
    → dispatch_loop next max i st ≡ looped outcomes n st'
    → IsBounded next max i st outcomes n st'
unfolding dispatch_loop count_where
dispatch_loop-IsBounded next zero i st {outcomes} {n} {st'} p =
    let same : [] ≡ outcomes = cc p in
    let count : 0 ≡ n = cc p in
    let left_at : st ≡ st' = cc p in
    rw (← same, ← count, ← left_at)
      (record {
        bounded = omega arith;
        counted = refl;
        stopped = tt;
        last = st;
        followed = refl;
        ended = inl (refl, inl refl);
      })
dispatch_loop-IsBounded next (suc left) i st {outcomes} {n} {st'} p =
    elim (Turn-cases (next i st)) [
      | inl (x, st1, q) ↦ absurd (cc (rw (q, dispatch_loop) at p))
      | inr (o, st1, q) ↦ elim (Bool-cases (is_idle o)) [
        | inl a ↦
            let r = rw (q, a, dispatch_loop) at p in
            let same : [] ≡ outcomes = cc r in
            let count : 0 ≡ n = cc r in
            let left_at : st1 ≡ st' = cc r in
            let none_left : i + 0 ≡ i = omega arith in
            rw (← same, ← count, ← left_at)
              (record {
                bounded = omega arith;
                counted = refl;
                stopped = tt;
                last = st;
                followed = refl;
                ended = inr (rw (none_left, q, is_idle-eq o a) refl);
              })
        | inr a ↦ elim (Bool-cases (is_unavailable o)) [
          | inl b ↦
              let r = rw (q, a, b, dispatch_loop) at p in
              let same : o ∷ [] ≡ outcomes = cc r in
              let count : (if is_delivered o then 1 else 0) ≡ n = cc r in
              let left_at : st1 ≡ st' = cc r in
              rw (← same, ← count, ← left_at)
                (record {
                  bounded = omega arith;
                  counted = ground arith;
                  stopped = a;
                  last = st1;
                  followed = (st1, q, refl);
                  ended = inl (refl, inr b);
                })
          | inr b ↦
              add-IsBounded next left i o st st1 (dispatch_loop next left (suc i) st1) q a b
                (λ os m st2 e. dispatch_loop-IsBounded next left (suc i) st1 e)
                (rw (q, a, b, dispatch_loop) at p)
        ]
      ]
    ]
