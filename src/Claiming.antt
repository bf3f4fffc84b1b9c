-- ===== src/Claiming.antt =====
-- What `claimReady` of src/coordinator/store.ts returns: the readiest lane head, whenever there is
-- one.
use smolpaws.Base.{
  ℕ, ◌+◌, ◌≡◌, ◌≢◌, refl, String, true, false, Option, none, some, List, [], ◌∷◌, Has, here, there,
  Has-select, Has-find, map-Has, select, take, select-Has, count_where, update_where, guarded,
  find_first, find-none, arith, ==→eq, eq_iff, eq_refl, Bool-cases, Option-cases, inl, inr, All,
  All-Has, not-Has-nil,
}
use smolpaws.Work.{WorkRow, WorkKind, ClaimedWork, is_ready}
use smolpaws.Store.{Store, Env, has_id, get_work}
use smolpaws.Store.Claims.{
  claimable, candidates, order_by_readiness, insert_sorted, sooner, still_ready, claim_row,
  claim_of, claim_first, claim_ready,
}
use smolpaws.Lifecycle.{Distinct}
use smolpaws.Lifecycle.Soundness.{same_id}
use smolpaws.Lifecycle.Edges.{Apart}
use smolpaws.Invariant.{IsWellFormed}
use smolpaws.Invariant.Claims.{claim-Refines, claimable-IsHead}

sooner_refl : (a : WorkRow) → sooner a a ≡ true
sooner_refl a = ground arith

sooner_trans : (a b c : WorkRow) → sooner a b ≡ true → sooner b c ≡ true → sooner a c ≡ true
sooner_trans a b c p q = ground arith

sooner-total : (a b : WorkRow) → sooner a b ≡ false → sooner b a ≡ true
sooner-total a b p = ground arith

-- The first row of the order is the least.
data IsLeastOf (rows : List WorkRow) : List WorkRow → Type 0 where
  least :
      (c : WorkRow) (rest : List WorkRow)
      → Has c rows
      → ((x : WorkRow) → Has x rows → sooner c x ≡ true)
      → IsLeastOf rows (c ∷ rest)
  nothing : rows ≡ [] → IsLeastOf rows []

insert_sorted-IsLeastOf :
    (r : WorkRow) (rows sorted : List WorkRow)
    → IsLeastOf rows sorted
    → IsLeastOf (r ∷ rows) (insert_sorted r sorted)
unfolding insert_sorted
insert_sorted-IsLeastOf r rows _ (nothing e) = rw e (least r [] (here refl) only)
  where
    only : (x : WorkRow) → Has x (r ∷ []) → sooner r x ≡ true
    only x (here q) = rw q (sooner_refl r)
    only x (there h) = elim h [ ]
insert_sorted-IsLeastOf r rows _ (least c rest h m) = elim (Bool-cases (sooner r c)) [
  | inl e ↦ rw (e, insert_sorted) (least r (c ∷ rest) (here refl) (first e))
  | inr e ↦ rw (e, insert_sorted) (least c (insert_sorted r rest) (there h) (second e))
]
  where
    first : sooner r c ≡ true → (x : WorkRow) → Has x (r ∷ rows) → sooner r x ≡ true
    first e x (here q) = rw q (sooner_refl r)
    first e x (there n) = sooner_trans r c x e (m x n)

    second : sooner r c ≡ false → (x : WorkRow) → Has x (r ∷ rows) → sooner c x ≡ true
    second e x (here q) = rw q (sooner-total r c e)
    second e x (there n) = m x n

order_by_readiness-IsLeastOf : (rows : List WorkRow) → IsLeastOf rows (order_by_readiness rows)
unfolding order_by_readiness
order_by_readiness-IsLeastOf [] = nothing refl
order_by_readiness-IsLeastOf (r ∷ rows) =
    insert_sorted-IsLeastOf r rows (order_by_readiness rows) (order_by_readiness-IsLeastOf rows)

-- By the primary key a guarded update of a row that is there changes one row.
count-absent :
    (c : WorkRow) (rows : List WorkRow)
    → All (Distinct c) rows
    → count_where (still_ready c) rows ≡ 0
unfolding count_where
count-absent c [] a = refl
count-absent c (x ∷ rows) a = ground (arith, count-absent c rows a.1, a.0.id, eq_iff x.id c.id)

count-one :
    (c : WorkRow) (rows : List WorkRow)
    → Apart rows
    → Has c rows
    → is_ready c.state ≡ true
    → count_where (still_ready c) rows ≡ 1
unfolding count_where
count-one c [] a h s = elim h [ ]
count-one c (x ∷ rows) a (here q) s = ground (arith, eq_refl x.id, count-absent c rows (rw q a.0))
count-one c (x ∷ rows) a (there h) s =
    ground (arith, count-one c rows a.1 h s, (All-Has (Distinct x) rows a.0 h).id, eq_iff x.id c.id)

claimable-ready :
    (work : List WorkRow) (now : ℕ) (kind : Option WorkKind) (c : WorkRow)
    → claimable work now kind c ≡ true
    → is_ready c.state ≡ true
unfolding claimable
claimable-ready work now kind c p = ground arith

-- `c` is the claim of the readiest claimable row.
pub record ClaimsRow (e : Env) (worker : String) (now : ℕ) (kind : Option WorkKind) (st st' : Store)
    (c : ClaimedWork) : Type 0 where
  pub from : WorkRow
  pub present : Has from st.work
  pub claimable_row : claimable st.work now kind from ≡ true
  pub readiest :
      (x : WorkRow) → Has x st.work → claimable st.work now kind x ≡ true → sooner from x ≡ true
  pub row : c.row ≡ claim_row worker (now + e.policy.claim_ttl_ms) (from.generation + 1) now from
  pub generation : c.generation ≡ from.generation + 1
  pub owner : c.owner ≡ worker
  pub stored : Has c.row st'.work
  pub others : (x : WorkRow) → Has x st.work → x.id ≢ from.id → Has x st'.work

module _ (e : Env) (worker : String) (now : ℕ) (kind : Option WorkKind) (st : Store)
    (v : IsWellFormed st) where
  abbrev until : ℕ
  until = now + e.policy.claim_ttl_ms

  abbrev claimed_store : WorkRow → Store
  claimed_store c = record st {
    work = update_where (still_ready c) (claim_row worker until (c.generation + 1) now) st.work;
  }

  abbrev claimed_work : WorkRow → ClaimedWork
  claimed_work c = record {
    row = claim_row worker until (c.generation + 1) now c;
    owner = worker;
    generation = c.generation + 1;
  }

  module _ (c : WorkRow) (h : Has c st.work) (s : is_ready c.state ≡ true)
      (moved : IsWellFormed (claimed_store c)) where
    claimed-Has : Has (claim_row worker until (c.generation + 1) now c) (claimed_store c).work
    claimed-Has =
        let hit : still_ready c c ≡ true = ground (arith, eq_refl c.id) in
        rw hit at (
          map-Has (guarded (still_ready c) (claim_row worker until (c.generation + 1) now)) st.work
            h)

    claim_of-some : claim_of (claimed_store c) worker (c.generation + 1) c ≡ some (claimed_work c)
    unfolding claim_of get_work claim_row
    claim_of-some = elim (Option-cases (find_first (has_id c.id) (claimed_store c).work)) [
      | inl q ↦ absurd (
          ground
            (arith, find-none (has_id c.id) (claimed_store c).work q claimed-Has, eq_refl c.id))
      | inr (r, q) ↦
          let (m, n) = Has-find (has_id c.id) (claimed_store c).work q in
          let one =
            same_id r (claim_row worker until (c.generation + 1) now c) (claimed_store c).work
              moved.sound.apart m claimed-Has (==→eq r.id c.id n) in
          rw (q, claim_of) (rw one)
    ]

    claim_first-some :
        (rest : List WorkRow)
        → claim_first worker until now (c ∷ rest) st ≡ (claimed_store c, some (claimed_work c))
    unfolding claim_first
    claim_first-some rest = rw (count-one c st.work v.sound.apart h s, claim_first, claim_of-some)

    kept_others : (x : WorkRow) → Has x st.work → x.id ≢ c.id → Has x (claimed_store c).work
    kept_others x m n =
        let miss : still_ready c x ≡ false = ground (arith, n, eq_iff x.id c.id) in
        rw miss at (
          map-Has (guarded (still_ready c) (claim_row worker until (c.generation + 1) now)) st.work
            m)

  abbrev pub ClaimsResult : Store × Option ClaimedWork → Type 0
  ClaimsResult (st', none) =
      (st' ≡ st) × ((r : WorkRow) → Has r st.work → claimable st.work now kind r ≡ false)
  ClaimsResult (st', some c) = ClaimsRow e worker now kind st st' c

  claim_first-nil : claim_first worker until now [] st ≡ (st, none)
  unfolding claim_first
  claim_first-nil = refl

  claim_least :
      (sorted : List WorkRow)
      → IsLeastOf (select (claimable st.work now kind) st.work) sorted
      → ClaimsResult (claim_first worker until now (take 8 sorted) st)
  unfolding take
  claim_least _ (nothing q) = rw claim_first-nil (
    refl,
    λ r h. elim (Bool-cases (claimable st.work now kind r)) [
      | inl p ↦ absurd (not-Has-nil (rw q at (select-Has (claimable st.work now kind) st.work h p)))
      | inr p ↦ p
    ],
  )
  claim_least _ (least c rest h m) =
      let (n, p) = Has-select (claimable st.work now kind) st.work h in
      let s = claimable-ready st.work now kind c p in
      let moved =
        (claim-Refines worker until now st v c n (claimable-IsHead st.work now kind c p)).well in
      rw (claim_first-some c n s moved (take 7 rest)) (record {
        from = c;
        present = n;
        claimable_row = p;
        readiest = λ x o q. m x (select-Has (claimable st.work now kind) st.work o q);
        row = refl;
        generation = refl;
        owner = refl;
        stored = claimed-Has c n s moved;
        others = kept_others c n s moved;
      })

  -- On a well-formed store `claimReady` returns null only when no row is claimable, and then
  -- changes nothing. Otherwise it claims the claimable row that comes first by `available_at` and
  -- `sequence`: the claim is that row under the worker's name, with one more attempt, at the next
  -- generation; it is stored, and every other row stays as it is.
  pub claim_ready_lem : ClaimsResult (claim_ready e worker now kind st)
  unfolding claim_ready candidates
  claim_ready_lem =
      claim_least (order_by_readiness (select (claimable st.work now kind) st.work))
        (order_by_readiness-IsLeastOf (select (claimable st.work now kind) st.work))
