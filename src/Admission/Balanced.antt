-- ===== src/Admission/Balanced.antt =====
-- The pool's balance under acquiring, aborting and sharing:
-- packages/openhands-agent-server/src/runAdmission.ts.
use smolpaws.Base.{
  ℕ, ◌+◌, ◌-◌, ◌≡◌, ◌⊎◌, ◌<◌, refl, sym, ◌∙◌, ap, Bool, true, false, some, [], length, ◌=?◌, ltb,
  arith, Bool-cases, Option-cases, inl, inr, =?→eq,
}
use smolpaws.Admission.{
  Slot, Admission, get_at, add_slot, try_acquire, acquire, abort, share, remove_waiter,
}
use smolpaws.Admission.Counts.{
  live_count, held, count_at, live_count-++, live_count-set_at, held-++, held-set_at, get_at-set_at,
  get_at-++, count_at-some, count_at-length,
}

-- What the pool keeps: every live reservation takes one of the maximum, its count is the number of
-- its slots, and calls wait only while nothing is available.
pub record IsBalanced (maximum : ℕ) (s : Admission) : Type 0 where
  pub capacity : s.available + live_count s.references ≡ maximum
  pub counted : (r : ℕ) → count_at r s.references ≡ held r s.slots
  pub eager : (s.waiters ≡ []) ⊎ (s.available ≡ 0)

abbrev pub Counted : Admission → Type 0
Counted s = (r : ℕ) → count_at r s.references ≡ held r s.slots

pub add_slot-Counted : (s : Admission) → Counted s → Counted (add_slot s).0
unfolding add_slot
add_slot-Counted s h r = elim (Bool-cases (r =? length s.references)) [
  | inl e ↦
      let same = =?→eq r (length s.references) e in
      let none_held : held r s.slots ≡ 0 =
        sym (h r) ∙ ap (λ (k : ℕ). count_at k s.references) same ∙ count_at-length s.references in
      ground (
        arith,
        get_at-++ r 1 s.references,
        held-++ r s.slots (record { reservation = length s.references; released = false }),
        none_held,
        e,
      )
  | inr e ↦ ground (
    arith,
    get_at-++ r 1 s.references,
    held-++ r s.slots (record { reservation = length s.references; released = false }),
    h r,
    e,
  )
]

module _ (maximum : ℕ) (s : Admission) (b : IsBalanced maximum s) where
  -- A slot that comes out of the available ones.
  taken-IsBalanced :
      0 < s.available → IsBalanced maximum (add_slot (record s { available = s.available - 1 })).0
  unfolding add_slot
  taken-IsBalanced p = record {
    capacity = omega (arith, live_count-++ s.references 1, b.capacity);
    counted = add_slot-Counted (record s { available = s.available - 1 }) b.counted;
    eager = elim b.eager [ inl e ↦ inl e | inr e ↦ absurd (omega arith) ];
  }

  pub try_acquire-IsBalanced : IsBalanced maximum (try_acquire s).0
  unfolding try_acquire
  try_acquire-IsBalanced = elim (Bool-cases (s.available =? 0)) [
    | inl e ↦ rw (e, try_acquire) b
    | inr e ↦ rw (e, try_acquire) (taken-IsBalanced (ground arith))
  ]

  pub acquire-IsBalanced :
      (call : ℕ) (is_aborted : Bool) → IsBalanced maximum (acquire call is_aborted s).0
  unfolding acquire
  acquire-IsBalanced call true = b
  acquire-IsBalanced call false = elim (Bool-cases (ltb 0 s.available)) [
    | inl e ↦ rw (e, acquire) (taken-IsBalanced (ground arith))
    | inr e ↦
        rw (e, acquire)
          (record { capacity = b.capacity; counted = b.counted; eager = inr (ground arith) })
  ]

  remove_waiter-nil : (call : ℕ) → s.waiters ≡ [] → remove_waiter call s.waiters ≡ []
  unfolding remove_waiter
  remove_waiter-nil call e = rw (e, remove_waiter) refl

  pub abort-IsBalanced : (call : ℕ) → IsBalanced maximum (abort call s)
  unfolding abort
  abort-IsBalanced call = record {
    capacity = b.capacity;
    counted = b.counted;
    eager = elim b.eager [ inl e ↦ inl (remove_waiter-nil call e) | inr e ↦ inr e ];
  }

  -- An unreleased slot's reservation is live.
  pub held-live :
      (i : ℕ) (slot : Slot) (n : ℕ)
      → get_at i s.slots ≡ some slot
      → slot.released ≡ false
      → get_at slot.reservation s.references ≡ some n
      → 0 < n
  held-live i slot n h open_slot q =
      let count = count_at-some slot.reservation n s.references q in
      let one = held-set_at slot.reservation i slot (record slot { released = true }) s.slots h in
      ground (arith, one, b.counted slot.reservation, count, open_slot)

  pub share-IsBalanced : (i : ℕ) → IsBalanced maximum (share i s).0
  unfolding share
  share-IsBalanced i = elim (Option-cases (get_at i s.slots)) [
    | inl h ↦ rw (h, share) b
    | inr (slot, h) ↦ elim (Bool-cases slot.released) [
      | inl r ↦ rw (h, r, share) b
      | inr r ↦ elim (Option-cases (get_at slot.reservation s.references)) [
        | inl q ↦ rw (h, r, q, share) b
        | inr (n, q) ↦
            rw (h, r, q, share)
              (record {
                capacity = ground (
                  arith,
                  live_count-set_at slot.reservation n (n + 1) s.references q,
                  b.capacity,
                  held-live i slot n h r q,
                );
                counted = λ k. ground (
                  arith,
                  get_at-set_at k slot.reservation n (n + 1) s.references q,
                  held-++ k s.slots (record { reservation = slot.reservation; released = false }),
                  b.counted k,
                  shared k slot.reservation n q,
                );
                eager = b.eager;
              })
      ]
    ]
  ]
    where
      shared :
          (k q n : ℕ)
          → get_at q s.references ≡ some n
          → (k =? q) ≡ true
          → count_at k s.references ≡ n
      shared k q n h e = rw (=?→eq k q e) (count_at-some q n s.references h)
