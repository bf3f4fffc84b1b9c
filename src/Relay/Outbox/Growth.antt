-- ===== src/Relay/Outbox/Growth.antt =====
-- What queueing deliveries leaves alone: src/coordinator/store.ts as the outbox uses it.
use smolpaws.Base.{
  ℕ, suc, ◌+◌, ◌≡◌, refl, ◌∙◌, String, true, none, some, ◌∷◌, any_where, find_first, arith, ==→eq,
  eq_refl, Bool-cases, inl, inr,
}
use smolpaws.Work.{WorkRow, WorkKind, DeliveryInput, same_kind}
use smolpaws.Store.{Store, Env, ok, ok-injective, is_lane, has_source, get_work_by_source_key}
use smolpaws.Store.Accept.{WorkFields, insert_work, insert_delivery, max_sequence, new_work}
use smolpaws.Invariant.Accept.{same_kind_refl}
use smolpaws.Invariant.Insert.{insert_work_cases}

same_kind-eq : (a b : WorkKind) → same_kind a b ≡ true → a ≡ b
same_kind-eq a b e = ground arith

-- The lanes stay, and so does every row that a key leads to.
pub record Grows (st st' : Store) : Type 0 where
  pub lanes : st'.lanes ≡ st.lanes
  pub cursors : st'.cursors ≡ st.cursors
  pub rows :
      (kind : WorkKind) (key : String) (w : WorkRow)
      → get_work_by_source_key st kind key ≡ some w
      → get_work_by_source_key st' kind key ≡ some w

pub Grows-refl : (st : Store) → Grows st st
Grows-refl st = record { lanes = refl; cursors = refl; rows = λ k s w p. p }

pub Grows-trans : {a b c : Store} → Grows a b → Grows b c → Grows a c
Grows-trans p q = record {
  lanes = q.lanes ∙ p.lanes;
  cursors = q.cursors ∙ p.cursors;
  rows = λ k s w e. q.rows k s w (p.rows k s w e);
}

added-Grows :
    (st : Store) (r : WorkRow) (drawn : ℕ)
    → get_work_by_source_key st r.kind r.source_key ≡ none
    → Grows st (record st { work = r ∷ st.work; drawn = drawn })
unfolding get_work_by_source_key
added-Grows st r drawn free = record {
  lanes = refl;
  cursors = refl;
  rows = λ kind key w p. elim (Bool-cases (has_source kind key r)) [
    | inr miss ↦ rw (miss, find_first) p
    | inl hit ↦
        let k = same_kind-eq r.kind kind (ground arith) in
        let s = ==→eq r.source_key key (ground arith) in absurd (cc (free, p, k, s))
  ];
}

-- A successful insert keeps all rows, and the key leads to the row returned.
pub record Queues (st st' : Store) (kind : WorkKind) (lane key : String) (row : WorkRow)
    : Type 0 where
  pub grows : Grows st st'
  pub lane_known : any_where (is_lane lane) st.lanes ≡ true
  pub queued : get_work_by_source_key st' kind key ≡ some row

module _ (e : Env) (kind : WorkKind) (f : WorkFields) (now : ℕ) (st : Store) where
  new-queued :
      let r = new_work (e.uuid st.drawn) kind f (max_sequence f.lane_key kind st.work + 1) now in
      get_work_by_source_key
        (record st { work = r ∷ st.work; drawn = suc st.drawn })
        kind
        f.source_key
      ≡ some r
  unfolding get_work_by_source_key new_work
  new-queued = ground (arith, same_kind_refl kind, eq_refl f.source_key)

  new-Grows :
      let r = new_work (e.uuid st.drawn) kind f (max_sequence f.lane_key kind st.work + 1) now in
      get_work_by_source_key st kind f.source_key ≡ none
      → Grows st (record st { work = r ∷ st.work; drawn = suc st.drawn })
  unfolding new_work
  new-Grows free = added-Grows st _ (suc st.drawn) free

  insert_work-Queues :
      {st' : Store} {row : WorkRow}
      → insert_work e kind f now st ≡ ok (st', row)
      → Queues st st' kind f.lane_key f.source_key row
  insert_work-Queues {st'} {row} =
      insert_work_cases (λ r. r ≡ ok (st', row) → Queues st st' kind f.lane_key f.source_key row) e
        kind f now st (λ x q. absurd (cc q))
        (λ old lane q p.
          let (a, b) = ok-injective p in
          rw (← a, ← b) (record { grows = Grows-refl st; lane_known = lane; queued = q }))
        (λ lane free id p.
          let (a, b) = ok-injective p in
          rw (← a, ← b) (record { grows = new-Grows free; lane_known = lane; queued = new-queued }))

  -- A second insert under a known key changes nothing.
  insert_work-known :
      {row : WorkRow}
      → any_where (is_lane f.lane_key) st.lanes ≡ true
      → get_work_by_source_key st kind f.source_key ≡ some row
      → insert_work e kind f now st ≡ ok (st, row)
  unfolding insert_work
  insert_work-known lane q = rw (lane, q, insert_work)

pub insert_delivery-Queues :
    (e : Env) (input : DeliveryInput) (now : ℕ) (st : Store) {st' : Store} {row : WorkRow}
    → insert_delivery e input now st ≡ ok (st', row)
    → Queues st st' WorkKind.delivery input.lane_key input.source_key row
unfolding insert_delivery
insert_delivery-Queues e input now st p = insert_work-Queues e WorkKind.delivery _ now st p

pub insert_delivery-known :
    (e : Env) (input : DeliveryInput) (now : ℕ) (st : Store) {row : WorkRow}
    → any_where (is_lane input.lane_key) st.lanes ≡ true
    → get_work_by_source_key st WorkKind.delivery input.source_key ≡ some row
    → insert_delivery e input now st ≡ ok (st, row)
unfolding insert_delivery
insert_delivery-known e input now st lane q = insert_work-known e WorkKind.delivery _ now st lane q
