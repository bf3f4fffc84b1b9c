-- ===== src/Admission/Counts.antt =====
-- Counting live reservations and their slots: packages/openhands-agent-server/src/runAdmission.ts.
use smolpaws.Base.{
  ℕ, zero, suc, ◌+◌, ◌≡◌, refl, ap, Option, none, some, List, [], ◌∷◌, ◌++◌, length, ◌=?◌, arith,
  if◌then◌else◌, ◌&&◌, not,
}
use smolpaws.Admission.{Slot, get_at, set_at}

-- 1 for a reservation that is live.
abbrev pub live : ℕ → ℕ
live n = if n =? 0 then 0 else 1

unfoldable pub live_count : List ℕ → ℕ
live_count [] = 0
live_count (n ∷ ns) = live n + live_count ns

-- How many unreleased slots share a reservation.
abbrev pub holds : ℕ → Slot → ℕ
holds r slot = if not slot.released && slot.reservation =? r then 1 else 0

unfoldable pub held : ℕ → List Slot → ℕ
held r [] = 0
held r (slot ∷ slots) = holds r slot + held r slots

abbrev pub count_at : ℕ → List ℕ → ℕ
count_at r ns = elim (get_at r ns) [ none ↦ 0 | some n ↦ n ]

pub live_count-++ : (ns : List ℕ) (n : ℕ) → live_count (ns ++ n ∷ []) ≡ live_count ns + live n
unfolding live_count
live_count-++ [] n = omega arith
live_count-++ (m ∷ ns) n = omega (arith, live_count-++ ns n)

pub live_count-set_at :
    (r n m : ℕ) (ns : List ℕ)
    → get_at r ns ≡ some n
    → live_count (set_at r m ns) + live n ≡ live_count ns + live m
unfolding live_count set_at get_at
live_count-set_at r n m [] h = absurd (cc h)
live_count-set_at zero n m (k ∷ ns) h = let e : k ≡ n = cc h in rw e (omega arith)
live_count-set_at (suc r) n m (k ∷ ns) h = omega (arith, live_count-set_at r n m ns h)

pub held-++ :
    (r : ℕ) (slots : List Slot) (slot : Slot)
    → held r (slots ++ slot ∷ []) ≡ held r slots + holds r slot
unfolding held
held-++ r [] slot = omega arith
held-++ r (x ∷ slots) slot = omega (arith, held-++ r slots slot)

pub held-set_at :
    (r i : ℕ) (slot new : Slot) (slots : List Slot)
    → get_at i slots ≡ some slot
    → held r (set_at i new slots) + holds r slot ≡ held r slots + holds r new
unfolding held set_at get_at
held-set_at r i slot new [] h = absurd (cc h)
held-set_at r zero slot new (x ∷ slots) h = let e : x ≡ slot = cc h in rw e (omega arith)
held-set_at r (suc i) slot new (x ∷ slots) h = omega (arith, held-set_at r i slot new slots h)

pub get_at-set_at :
    (r q n m : ℕ) (ns : List ℕ)
    → get_at q ns ≡ some n
    → count_at r (set_at q m ns) ≡ (if r =? q then m else count_at r ns)
unfolding get_at set_at
get_at-set_at r q n m [] h = absurd (cc h)
get_at-set_at zero zero n m (k ∷ ns) h = refl
get_at-set_at (suc r) zero n m (k ∷ ns) h = ground arith
get_at-set_at zero (suc q) n m (k ∷ ns) h = ground arith
get_at-set_at (suc r) (suc q) n m (k ∷ ns) h = ground (arith, get_at-set_at r q n m ns h)

pub get_at-++ :
    (r n : ℕ) (ns : List ℕ)
    → count_at r (ns ++ n ∷ []) ≡ (if r =? length ns then n else count_at r ns)
unfolding get_at
get_at-++ zero n [] = refl
get_at-++ (suc r) n [] = ground arith
get_at-++ zero n (k ∷ ns) = ground arith
get_at-++ (suc r) n (k ∷ ns) = ground (arith, get_at-++ r n ns)

pub count_at-some : (r n : ℕ) (ns : List ℕ) → get_at r ns ≡ some n → count_at r ns ≡ n
count_at-some r n ns h = ap (λ (o : Option ℕ). elim o [ none ↦ 0 | some k ↦ k ]) h

pub count_at-length : (ns : List ℕ) → count_at (length ns) ns ≡ 0
unfolding get_at
count_at-length [] = refl
count_at-length (n ∷ ns) = count_at-length ns
