-- ===== src/Store.antt =====
-- src/coordinator/store.ts: the durable store. A table is a list of its rows, the newest first;
-- the columns that JSON encodes hold their value. A transaction is a function from the store to
-- the store that it commits, or to an error, and then nothing is written.
pub mod Lanes
pub mod Accept
pub mod Commands
pub mod Claims
pub mod Settle
pub mod Reconcile
pub mod Repair
pub mod Cursors
pub mod Listing
use smolpaws.Base.{
  ℕ, String, Bool, Option, List, [], find_first, any_where, ◌≡◌, refl, ◌⊎◌, inl, inr, ◌==◌, ◌&&◌,
}
use smolpaws.Work.{LaneRow, WorkRow, WorkKind, RetryPolicy, same_kind}
use smolpaws.Command.{RelayCommand, CommandStatus}

-- A row of `intake_commands`.
pub record CommandRow : Type 0 where
  pub work_id : String
  pub command : RelayCommand
  pub status : CommandStatus
  pub attempt_deadline : Option ℕ

-- A row of `projection_cursors`.
pub record CursorRow : Type 0 where
  pub conversation_id : String
  pub next_page_id : Option String
  pub updated_at : ℕ
  pub parked_at : Option ℕ

-- `drawn` counts the calls of `randomUUID()`.
pub record Store : Type 0 where
  pub lanes : List LaneRow
  pub work : List WorkRow
  pub commands : List CommandRow
  pub cursors : List CursorRow
  pub drawn : ℕ

abbrev pub empty : Store
empty = record { lanes = []; work = []; commands = []; cursors = []; drawn = 0 }

-- What the store is given: its policy, the values of `randomUUID()` in the order of the calls,
-- and `deterministicEventId`.
pub record Env : Type 0 where
  pub policy : RetryPolicy
  pub uuid : ℕ → String
  pub event_id : String → String → String

-- What a transaction throws: the message's parameter, or the constraint that SQLite reports.
pub data StoreError : Type 0 where
  unknown_lane : String → StoreError
  unsupported_command : StoreError
  unique_constraint : String → StoreError

-- A transaction is rolled back with an error, or it commits a value.
pub data Result {ℓ} (A : Type ℓ) : Type ℓ where
  err : StoreError → Result A
  ok : A → Result A

infixl 5 ◌>>=◌
abbrev pub ◌>>=◌ {ℓ κ} : {V : Type ℓ} {W : Type κ} → Result V → (V → Result W) → Result W
err thrown >>= rest = err thrown
ok value >>= rest = rest value

-- Inversion of a transaction that went on.
pub >>=-eq-ok {ℓ κ} :
    {A : Type ℓ} {B : Type κ} (tx : Result A) (rest : A → Result B) {b : B}
    → (tx >>= rest) ≡ ok b
    → (a : A) × (tx ≡ ok a) × (rest a ≡ ok b)
>>=-eq-ok (err thrown) rest h = cc
>>=-eq-ok (ok value) rest h = (value, refl, h)

pub ok-injective {ℓ κ} :
    {A : Type ℓ} {B : Type κ} {a c : A} {b d : B}
    → ◌≡◌ {A = Result (A × B)} (ok (a, b)) (ok (c, d))
    → (a ≡ c) × (b ≡ d)
ok-injective p = (cc, cc)

pub Result-cases {ℓ} :
    {A : Type ℓ} (r : Result A) → ((x : StoreError) × (r ≡ err x)) ⊎ ((a : A) × (r ≡ ok a))
Result-cases (err x) = inl (x, refl)
Result-cases (ok a) = inr (a, refl)

pub ok-eq {ℓ} : {A : Type ℓ} {a b : A} → ok a ≡ ok b → a ≡ b
ok-eq p = cc

abbrev pub has_id : String → WorkRow → Bool
has_id id r = r.id == id

abbrev pub has_source : WorkKind → String → WorkRow → Bool
has_source kind key r = same_kind r.kind kind && r.source_key == key

abbrev pub in_lane : String → WorkKind → WorkRow → Bool
in_lane lane kind r = same_kind r.kind kind && r.lane_key == lane

abbrev pub is_lane : String → LaneRow → Bool
is_lane key l = l.lane_key == key

unfoldable pub get_work : Store → String → Option WorkRow
unfolding find_first
get_work st id = find_first (has_id id) st.work

unfoldable pub get_work_by_source_key : Store → WorkKind → String → Option WorkRow
unfolding find_first
get_work_by_source_key st kind key = find_first (has_source kind key) st.work

unfoldable pub get_lane : Store → String → Option LaneRow
unfolding find_first
get_lane st key = find_first (is_lane key) st.lanes

unfoldable pub get_lane_by_conversation_id : Store → String → Option LaneRow
unfolding find_first
get_lane_by_conversation_id st id = find_first (λ l. l.conversation_id == id) st.lanes
