-- ===== src/Store/Lanes.antt =====
-- The lane directory of src/coordinator/store.ts.
use smolpaws.Base.{
  ℕ, String, Bool, true, false, none, some, List, ◌∷◌, any_where, update_where, ◌==◌, if◌then◌else◌,
}
use smolpaws.Work.{LaneRow, LaneDescriptor, LaneBinding}
use smolpaws.Store.{Store, Result, ok, err, unique_constraint, ◌>>=◌, is_lane, get_lane}

unfoldable pub new_lane : LaneDescriptor → String → ℕ → LaneRow
new_lane d candidate now = record {
  lane_key = d.lane_key;
  conversation_id = candidate;
  platform = d.platform;
  account_id = d.account_id;
  chat_id = d.chat_id;
  thread_id = d.thread_id;
  display_name = d.display_name;
  conversation_ready = false;
  created_at = now;
  last_seen_at = now;
}

-- INSERT ... ON CONFLICT(lane_key) DO NOTHING, with the table's other unique index.
unfoldable pub insert_lane :
    LaneDescriptor → String → ℕ → List LaneRow → Result (Bool × List LaneRow)
unfolding new_lane any_where
insert_lane d candidate now lanes =
    if any_where (is_lane d.lane_key) lanes
    then ok (false, lanes)
    else if any_where (λ l. l.conversation_id == candidate) lanes
    then err (unique_constraint "lanes.conversation_id")
    else ok (true, new_lane d candidate now ∷ lanes)

unfoldable pub touch : String → ℕ → List LaneRow → List LaneRow
touch key now = update_where (is_lane key) (λ l. record l { last_seen_at = now })

binding_of : Bool → LaneRow → LaneBinding
binding_of created l = record {
  lane_key = l.lane_key;
  conversation_id = l.conversation_id;
  conversation_ready = l.conversation_ready;
  created = created;
}

-- The read-back after the insert; `mapLane` of a missing row throws, which no caller can see.
unfoldable pub read_back : Bool → String → Store → Result (Store × LaneBinding)
unfolding binding_of
read_back created key st = elim (get_lane st key) [
  | none ↦ err (unique_constraint "lanes")
  | some l ↦ ok (st, binding_of created l)
]

unfoldable pub resolve_lane : LaneDescriptor → String → ℕ → Store → Result (Store × LaneBinding)
unfolding touch
resolve_lane d candidate now st = do
  (created, lanes) ← insert_lane d candidate now st.lanes
  let lanes' = if created then lanes else touch d.lane_key now lanes
  read_back created d.lane_key (record st { lanes = lanes' })

unfoldable pub mark_lane_conversation_ready : String → ℕ → Store → Store
mark_lane_conversation_ready key now st = record st {
  lanes =
      update_where (is_lane key) (λ l. record l { conversation_ready = true; last_seen_at = now })
        st.lanes;
}
