-- ===== src/Admission/Capacity.antt =====
-- The pool's capacity: packages/openhands-agent-server/src/runAdmission.ts.
use smolpaws.Base.{
  ℕ, ◌+◌, ◌-◌, ◌≡◌, ◌⊎◌, ◌<◌, refl, sym, Bool, true, false, some, List, [], ◌∷◌, ◌=?◌, arith,
  Bool-cases, Option-cases, inl, inr, =?→eq,
}
use smolpaws.Admission.{
  Slot, Admission, admits, fresh_pool, new_admission, get_at, add_slot, try_acquire, acquire, abort,
  share, hand_over, close_slot, release,
}
use smolpaws.Admission.Counts.{
  live_count, held, count_at, live_count-++, live_count-set_at, held-set_at, get_at-set_at,
  count_at-some,
}
use smolpaws.Admission.Balanced.{
  IsBalanced, Counted, add_slot-Counted, try_acquire-IsBalanced, acquire-IsBalanced,
  abort-IsBalanced, held-live, share-IsBalanced,
}

-- One reservation was closed and its place is free.
record IsFreed (maximum : ℕ) (s : Admission) : Type 0 where
  capacity : s.available + live_count s.references + 1 ≡ maximum
  counted : Counted s
  eager : (s.waiters ≡ []) ⊎ (s.available ≡ 0)

hand_over-IsBalanced :
    (maximum available : ℕ) (waiters references : List ℕ) (slots : List Slot)
    (granted : List (ℕ × ℕ))
    → let s : Admission = record {
      available = available;
      waiters = waiters;
      references = references;
      slots = slots;
      granted = granted;
    } in
      IsFreed maximum s → IsBalanced maximum (hand_over s)
unfolding hand_over add_slot
hand_over-IsBalanced maximum available [] references slots granted f = record {
  capacity = omega (arith, f.capacity);
  counted = f.counted;
  eager = inl refl;
}
hand_over-IsBalanced maximum available (w ∷ ws) references slots granted f = record {
  capacity = omega (arith, live_count-++ references 1, f.capacity);
  counted =
      add_slot-Counted
        (record {
          available = available;
          waiters = ws;
          references = references;
          slots = slots;
          granted = granted;
        })
        f.counted;
  eager = elim f.eager [ inl e ↦ absurd (cc e) | inr e ↦ inr e ];
}

module _ (maximum : ℕ) (s : Admission) (b : IsBalanced maximum s) (i n : ℕ) (slot : Slot)
    (h : get_at i s.slots ≡ some slot) (r : slot.released ≡ false)
    (q : get_at slot.reservation s.references ≡ some n) where
  close_slot-Counted : (m : ℕ) → m + 1 ≡ n → Counted (close_slot i slot m s)
  close_slot-Counted m e k = elim (Bool-cases (k =? slot.reservation)) [
    | inl z ↦
        let same = =?→eq k slot.reservation z in
        let count : count_at k s.references ≡ n =
          rw same (count_at-some slot.reservation n s.references q) in
        ground (
          arith,
          get_at-set_at k slot.reservation n m s.references q,
          held-set_at k i slot (record slot { released = true }) s.slots h,
          b.counted k,
          count,
          z,
          r,
          e,
        )
    | inr z ↦ ground (
      arith,
      get_at-set_at k slot.reservation n m s.references q,
      held-set_at k i slot (record slot { released = true }) s.slots h,
      b.counted k,
      z,
      r,
    )
  ]

  closed-IsFreed : n ≡ 1 → IsFreed maximum (close_slot i slot 0 s)
  closed-IsFreed e = record {
    capacity = ground (arith, live_count-set_at slot.reservation n 0 s.references q, b.capacity, e);
    counted = close_slot-Counted 0 (sym e);
    eager = b.eager;
  }

  lowered-IsBalanced : 1 < n → IsBalanced maximum (close_slot i slot (n - 1) s)
  lowered-IsBalanced p = record {
    capacity =
        ground (arith, live_count-set_at slot.reservation n (n - 1) s.references q, b.capacity, p);
    counted = close_slot-Counted (n - 1) (omega arith);
    eager = b.eager;
  }

release-IsBalanced :
    (maximum : ℕ) (s : Admission)
    → IsBalanced maximum s
    → (i : ℕ) → IsBalanced maximum (release i s).0
unfolding release
release-IsBalanced maximum s b i = elim (Option-cases (get_at i s.slots)) [
  | inl h ↦ rw (h, release) b
  | inr (slot, h) ↦ elim (Bool-cases slot.released) [
    | inl r ↦ rw (h, r, release) b
    | inr r ↦ elim (Option-cases (get_at slot.reservation s.references)) [
      | inl q ↦ rw (h, r, q, release) b
      | inr (n, q) ↦
          let one = held-live maximum s b i slot n h r q in
          elim (Bool-cases (n - 1 =? 0)) [
            | inl z ↦
                rw (h, r, q, z, release)
                  (hand_over-IsBalanced maximum _ _ _ _ _
                    (closed-IsFreed maximum s b i n slot h r q (ground arith)))
            | inr z ↦
                rw (h, r, q, z, release)
                  (lowered-IsBalanced maximum s b i n slot h r q (ground arith))
          ]
    ]
  ]
]

-- What the server does with the pool.
pub data AdmissionOp : Type 0 where
  tries : AdmissionOp
  acquires : ℕ → Bool → AdmissionOp
  aborts : ℕ → AdmissionOp
  shares : ℕ → AdmissionOp
  releases : ℕ → AdmissionOp

unfoldable pub admission_step : AdmissionOp → Admission → Admission
admission_step tries s = (try_acquire s).0
admission_step (acquires call is_aborted) s = (acquire call is_aborted s).0
admission_step (aborts call) s = abort call s
admission_step (shares i) s = (share i s).0
admission_step (releases i) s = (release i s).0

unfoldable pub admission_run : List AdmissionOp → Admission → Admission
admission_run [] s = s
admission_run (op ∷ ops) s = admission_run ops (admission_step op s)

admission_step-IsBalanced :
    (maximum : ℕ) (op : AdmissionOp) (s : Admission)
    → IsBalanced maximum s
    → IsBalanced maximum (admission_step op s)
unfolding admission_step
admission_step-IsBalanced maximum tries s b = try_acquire-IsBalanced maximum s b
admission_step-IsBalanced maximum (acquires call is_aborted) s b =
    acquire-IsBalanced maximum s b call is_aborted
admission_step-IsBalanced maximum (aborts call) s b = abort-IsBalanced maximum s b call
admission_step-IsBalanced maximum (shares i) s b = share-IsBalanced maximum s b i
admission_step-IsBalanced maximum (releases i) s b = release-IsBalanced maximum s b i

admission_run-IsBalanced :
    (maximum : ℕ) (ops : List AdmissionOp) (s : Admission)
    → IsBalanced maximum s
    → IsBalanced maximum (admission_run ops s)
unfolding admission_run
admission_run-IsBalanced maximum [] s b = b
admission_run-IsBalanced maximum (op ∷ ops) s b =
    admission_run-IsBalanced maximum ops (admission_step op s)
      (admission_step-IsBalanced maximum op s b)

new-IsBalanced :
    (maximum : ℕ) (s : Admission) → new_admission maximum ≡ admits s → IsBalanced maximum s
unfolding new_admission get_at held live_count
new-IsBalanced maximum s p = elim (Bool-cases (maximum =? 0)) [
  | inl e ↦ absurd (cc (rw (e, new_admission) at p))
  | inr e ↦
      let same : fresh_pool maximum ≡ s = cc (rw (e, new_admission) at p) in
      rw (← same) (record { capacity = omega arith; counted = λ r. refl; eager = inl refl })
]

-- Whatever calls the server makes on a new pool, in any order, double releases included: what is
-- available and the live reservations make up the maximum, a reservation's count is the number of
-- its slots that are not released, and calls wait only while nothing is available.
pub capacity_kept :
    (maximum : ℕ) (s : Admission) (ops : List AdmissionOp)
    → new_admission maximum ≡ admits s
    → IsBalanced maximum (admission_run ops s)
capacity_kept maximum s ops p = admission_run-IsBalanced maximum ops s (new-IsBalanced maximum s p)
