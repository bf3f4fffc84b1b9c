-- ===== src/Store/Claims.antt =====
-- Fenced claims of src/coordinator/store.ts: `claimReady`, `markSending`, `release`.
use smolpaws.Base.{
  ℕ, ◌+◌, ◌-◌, String, Bool, true, Option, none, some, List, [], ◌∷◌, select, take, count_where,
  any_where, update_where, ◌==◌, ◌=?◌, ◌&&◌, ◌||◌, not, leb, ltb, if◌then◌else◌,
}
use smolpaws.Work.{WorkKind, WorkState, WorkRow, ClaimedWork, is_resolved, is_ready, same_kind}
use smolpaws.Store.{Store, Env, in_lane, get_work}
use smolpaws.Store.Commands.{is_live}

-- An earlier row of the same lane and kind that is not resolved.
abbrev pub blocks : WorkRow → WorkRow → Bool
blocks r w = in_lane r.lane_key r.kind w && (ltb w.sequence r.sequence && not (is_resolved w.state))

-- @kind IS NULL OR kind = @kind.
abbrev pub kind_fits : Option WorkKind → WorkKind → Bool
kind_fits none k = true
kind_fits (some kind) k = same_kind k kind

unfoldable pub claimable : List WorkRow → ℕ → Option WorkKind → WorkRow → Bool
unfolding any_where
claimable work now kind r =
    is_ready r.state
    && (leb r.available_at now && (kind_fits kind r.kind && not (any_where (blocks r) work)))

-- ORDER BY available_at ASC, sequence ASC.
abbrev pub sooner : WorkRow → WorkRow → Bool
sooner a b =
    ltb a.available_at b.available_at
    || (a.available_at =? b.available_at && leb a.sequence b.sequence)

unfoldable pub insert_sorted : WorkRow → List WorkRow → List WorkRow
insert_sorted r [] = r ∷ []
insert_sorted r (s ∷ rows) =
    let rest = insert_sorted r rows in if sooner r s then r ∷ s ∷ rows else s ∷ rest

unfoldable pub order_by_readiness : List WorkRow → List WorkRow
unfolding insert_sorted
order_by_readiness [] = []
order_by_readiness (r ∷ rows) = insert_sorted r (order_by_readiness rows)

unfoldable pub candidates : List WorkRow → ℕ → Option WorkKind → List WorkRow
unfolding claimable order_by_readiness take select
candidates work now kind = take 8 (order_by_readiness (select (claimable work now kind) work))

-- WHERE id = @id AND state = 'ready' AND generation = @gen.
abbrev pub still_ready : WorkRow → WorkRow → Bool
still_ready c r = r.id == c.id && (is_ready r.state && r.generation =? c.generation)

unfoldable pub claim_row : String → ℕ → ℕ → ℕ → WorkRow → WorkRow
claim_row worker until next_gen now r = record r {
  state = WorkState.claimed;
  claim_owner = some worker;
  claim_until = some until;
  generation = next_gen;
  attempts = r.attempts + 1;
  updated_at = now;
}

-- The read-back of a claimed row: its id is the primary key, so the row is there.
unfoldable pub claim_of : Store → String → ℕ → WorkRow → Option ClaimedWork
unfolding get_work
claim_of st worker next_gen candidate = elim (get_work st candidate.id) [
  | none ↦ none
  | some row ↦ some (record { row = row; owner = worker; generation = next_gen })
]

unfoldable pub claim_first : String → ℕ → ℕ → List WorkRow → Store → Store × Option ClaimedWork
unfolding count_where claim_row claim_of
claim_first worker until now [] st = (st, none)
claim_first worker until now (c ∷ rest) st =
    let next_gen = c.generation + 1 in
    let next = claim_first worker until now rest st in
    let st' = record st {
      work = update_where (still_ready c) (claim_row worker until next_gen now) st.work;
    } in
    if count_where (still_ready c) st.work =? 1 then (st', claim_of st' worker next_gen c) else next

unfoldable pub claim_ready : Env → String → ℕ → Option WorkKind → Store → Store × Option ClaimedWork
unfolding claim_first candidates
claim_ready e worker now kind st =
    claim_first worker (now + e.policy.claim_ttl_ms) now (candidates st.work now kind) st

unfoldable pub mark_sending : ClaimedWork → ℕ → Store → Store × Bool
unfolding count_where
mark_sending claim now st = (
  record st {
    work =
        update_where (is_live claim) (λ r. record r { send_attempted = true; updated_at = now })
          st.work;
  },
  count_where (is_live claim) st.work =? 1,
)

unfoldable pub release : ClaimedWork → ℕ → Store → Store × Option WorkState
unfolding count_where
release claim now st = (
  record st {
    work =
        update_where (is_live claim)
          (λ r. record r {
            state = WorkState.ready;
            available_at = now;
            attempts = r.attempts - 1;
            claim_owner = none;
            claim_until = none;
            updated_at = now;
          })
          st.work;
  },
  if count_where (is_live claim) st.work =? 1 then some WorkState.ready else none,
)
