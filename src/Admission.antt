-- ===== src/Admission.antt =====
-- packages/openhands-agent-server/src/runAdmission.ts: one pool of run slots. An object is its place
-- in a list, in the order in which the objects were made; a waiter is the number of its call.
pub mod Counts
pub mod Capacity
pub mod Balanced
use smolpaws.Base.{
  ℕ, zero, suc, ◌+◌, ◌-◌, Bool, true, false, Option, none, some, List, [], ◌∷◌, ◌++◌, length, ◌=?◌,
  ltb, if◌then◌else◌,
}

-- A RunSlot: the reservation that it shares.
pub record Slot : Type 0 where
  pub reservation : ℕ
  pub released : Bool

-- `references` are the reservations' counts; `granted` are the promises resolved so far, the newest
-- first, with the slot that each got.
pub record Admission : Type 0 where
  pub available : ℕ
  pub waiters : List ℕ
  pub references : List ℕ
  pub slots : List Slot
  pub granted : List (ℕ × ℕ)

pub data AdmissionError : Type 0 where
  not_positive limit_exceeded share_released aborted : AdmissionError

pub data Admitted {ℓ} (A : Type ℓ) : Type ℓ where
  admits : A → Admitted A
  refuses : AdmissionError → Admitted A

abbrev pub fresh_pool : ℕ → Admission
fresh_pool maximum = record {
  available = maximum;
  waiters = [];
  references = [];
  slots = [];
  granted = [];
}

-- new RunAdmission(maximum); a natural number stands for a safe integer that is not negative.
unfoldable pub new_admission : ℕ → Admitted Admission
new_admission maximum = if maximum =? 0 then refuses not_positive else admits (fresh_pool maximum)

unfoldable pub get_at {ℓ} : {A : Type ℓ} → ℕ → List A → Option A
get_at n [] = none
get_at zero (x ∷ xs) = some x
get_at (suc n) (x ∷ xs) = get_at n xs

unfoldable pub set_at {ℓ} : {A : Type ℓ} → ℕ → A → List A → List A
set_at n a [] = []
set_at zero a (x ∷ xs) = a ∷ xs
set_at (suc n) a (x ∷ xs) = x ∷ set_at n a xs

-- `slot()`: a new reservation with one reference, and its slot.
unfoldable pub add_slot : Admission → Admission × ℕ
add_slot s = (
  record s {
    references = s.references ++ 1 ∷ [];
    slots = s.slots ++ record { reservation = length s.references; released = false } ∷ [];
  },
  length s.slots,
)

unfoldable pub try_acquire : Admission → Admission × Admitted ℕ
unfolding add_slot
try_acquire s =
    if s.available =? 0
    then (s, refuses limit_exceeded)
    else let (s', slot) = add_slot (record s { available = s.available - 1 }) in (s', admits slot)

-- A call that neither fails nor gets a slot waits.
pub data Acquired : Type 0 where
  rejected : AdmissionError → Acquired
  resolved : ℕ → Acquired
  waits : Acquired

unfoldable pub acquire : ℕ → Bool → Admission → Admission × Acquired
unfolding add_slot
acquire call is_aborted s =
    if is_aborted
    then (s, rejected aborted)
    else if ltb 0 s.available
    then (let (s', slot) = add_slot (record s { available = s.available - 1 }) in
        (s', resolved slot))
    else (record s { waiters = s.waiters ++ call ∷ [] }, waits)

-- The first place of the waiter, taken out.
unfoldable pub remove_waiter : ℕ → List ℕ → List ℕ
remove_waiter call [] = []
remove_waiter call (w ∷ ws) = let rest = remove_waiter call ws in if w =? call then ws else w ∷ rest

unfoldable pub abort : ℕ → Admission → Admission
unfolding remove_waiter
abort call s = record s { waiters = remove_waiter call s.waiters }

unfoldable pub share : ℕ → Admission → Admission × Admitted ℕ
unfolding get_at set_at
share i s = elim (get_at i s.slots) [
  | none ↦ (s, refuses share_released)
  | some slot ↦
      if slot.released
      then (s, refuses share_released)
      else elim (get_at slot.reservation s.references) [
        | none ↦ (s, refuses share_released)
        | some n ↦ (
          record s {
            references = set_at slot.reservation (n + 1) s.references;
            slots = s.slots ++ record { reservation = slot.reservation; released = false } ∷ [];
          },
          admits (length s.slots),
        )
      ]
]

-- The reservation's `release`: the first waiter gets a new slot, or the capacity grows.
unfoldable pub hand_over : Admission → Admission
unfolding add_slot
hand_over s = elim s.waiters [
  | [] ↦ record s { available = s.available + 1 }
  | w ∷ ws ↦
      let (s', slot) = add_slot (record s { waiters = ws }) in
      record s' { granted = (w, slot) ∷ s.granted }
]

abbrev pub close_slot : ℕ → Slot → ℕ → Admission → Admission
close_slot i slot n s = record s {
  slots = set_at i (record slot { released = true }) s.slots;
  references = set_at slot.reservation n s.references;
}

-- True when the reservation ends.
unfoldable pub release : ℕ → Admission → Admission × Bool
unfolding get_at set_at hand_over
release i s = elim (get_at i s.slots) [
  | none ↦ (s, false)
  | some slot ↦ if slot.released then (s, false) else elim (get_at slot.reservation s.references) [
    | none ↦ (s, false)
    | some n ↦
        if n - 1 =? 0
        then (hand_over (close_slot i slot 0 s), true)
        else (close_slot i slot (n - 1) s, false)
  ]
]
