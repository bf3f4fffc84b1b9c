-- ===== src/Turns/Sequence.antt =====
-- Updates that keep turns in sequence: apps/agent-server/src/runner/turnState.ts.
use smolpaws.Base.{
  ℕ, ◌+◌, ◌≤◌, ◌≡◌, refl, Bool, true, some, List, [], ◌∷◌, ◌++◌, arith, Bool-cases, Option-cases,
  inl, inr,
}
use smolpaws.Turns.{Turn, TurnState, last_of, get_active_turn, is_turn_terminal_status}
use smolpaws.Turns.Submit.{update_first, update_last}
use smolpaws.Turns.Idempotent.{on_active}

-- The sequences ascend, from the first bound on and below the second.
abbrev pub Ascend : ℕ → ℕ → List Turn → Type 0
Ascend low high [] = low ≤ high
Ascend low high (t ∷ ts) = (low ≤ t.sequence) × Ascend (t.sequence + 1) high ts

-- Every turn but the last has ended.
abbrev pub Ended : List Turn → Type 0
Ended [] = Unit {0}
Ended (t ∷ []) = Unit {0}
Ended (t ∷ u ∷ ts) = (is_turn_terminal_status t.status ≡ true) × Ended (u ∷ ts)

pub record IsOrderly (s : TurnState) : Type 0 where
  pub ascend : Ascend 1 s.next_sequence s.turns
  pub ended : Ended s.turns

-- An update that keeps a turn's sequence and status.
abbrev pub Steady : (Turn → Turn) → Type 0
Steady f = (t : Turn) → ((f t).sequence ≡ t.sequence) × ((f t).status ≡ t.status)

module _ (f : Turn → Turn) where
  pub Ascend-last :
      ((t : Turn) → (f t).sequence ≡ t.sequence)
      → (low high : ℕ) (ts : List Turn) → Ascend low high ts
      → Ascend low high (update_last f ts)
  unfolding update_last
  Ascend-last k low high [] h = h
  Ascend-last k low high (t ∷ []) h = rw (k t) h
  Ascend-last k low high (t ∷ u ∷ ts) h = (h.0, Ascend-last k (t.sequence + 1) high (u ∷ ts) h.1)

  pub Ended-last : (ts : List Turn) → Ended ts → Ended (update_last f ts)
  unfolding update_last
  Ended-last [] h = tt
  Ended-last (t ∷ []) h = tt
  Ended-last (t ∷ u ∷ []) h = (h.0, tt)
  Ended-last (t ∷ u ∷ v ∷ ts) h = (h.0, Ended-last (u ∷ v ∷ ts) h.1)

module _ (f : Turn → Turn) (k : Steady f) (p : Turn → Bool) where
  pub Ascend-first :
      (low high : ℕ) (ts : List Turn) → Ascend low high ts → Ascend low high (update_first p f ts)
  unfolding update_first
  Ascend-first low high [] h = h
  Ascend-first low high (t ∷ ts) h = elim (Bool-cases (p t)) [
    | inl q ↦ rw (q, update_first, (k t).0) h
    | inr q ↦ rw (q, update_first) (h.0, Ascend-first (t.sequence + 1) high ts h.1)
  ]

  pub Ended-first : (ts : List Turn) → Ended ts → Ended (update_first p f ts)
  unfolding update_first
  Ended-first [] h = tt
  Ended-first (t ∷ []) h = elim (Bool-cases (p t)) [
    | inl q ↦ rw (q, update_first) tt
    | inr q ↦ rw (q, update_first) tt
  ]
  Ended-first (t ∷ u ∷ ts) h = elim (Bool-cases (p t)) [
    | inl q ↦ rw (q, update_first, (k t).1) h
    | inr q ↦
        let rest = Ended-first (u ∷ ts) h.1 in
        elim (Bool-cases (p u)) [
          | inl r ↦ rw (q, update_first, r) (h.0, rw (r, update_first) at rest)
          | inr r ↦ rw (q, update_first, r) (h.0, rw (r, update_first) at rest)
        ]
  ]

-- A turn that is numbered next stands behind turns that have ended.
pub Ascend-append :
    (low high : ℕ) (ts : List Turn) (t : Turn)
    → t.sequence ≡ high
    → Ascend low high ts
    → Ascend low (high + 1) (ts ++ t ∷ [])
Ascend-append low high [] t e h = (omega arith, omega arith)
Ascend-append low high (u ∷ ts) t e h = (h.0, Ascend-append (u.sequence + 1) high ts t e h.1)

pub Ended-append :
    (ts : List Turn) (t : Turn)
    → ((u : Turn) → last_of ts ≡ some u → is_turn_terminal_status u.status ≡ true)
    → Ended ts
    → Ended (ts ++ t ∷ [])
unfolding last_of
Ended-append [] t k h = tt
Ended-append (u ∷ []) t k h = (k u refl, tt)
Ended-append (u ∷ v ∷ ts) t k h = (h.0, Ended-append (v ∷ ts) t k h.1)

pub on_active-IsOrderly :
    (f : Turn → Turn)
    → ((t : Turn) → (f t).sequence ≡ t.sequence)
    → (s : TurnState) → IsOrderly s
    → IsOrderly (on_active f s)
on_active-IsOrderly f k s v = elim (Option-cases (get_active_turn s)) [
  | inl q ↦ rw (q, on_active) v
  | inr (t, q) ↦
      rw (q, on_active)
        (record {
          ascend = Ascend-last f k 1 s.next_sequence s.turns v.ascend;
          ended = Ended-last f s.turns v.ended;
        })
]
