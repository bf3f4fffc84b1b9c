-- ===== src/Invariant/Lanes.antt =====
-- The lane directory keeps the store well-formed: src/coordinator/store.ts.
use smolpaws.Base.{
  ℕ, ◌≡◌, refl, subst, String, Bool, true, false, List, [], ◌∷◌, map, Has, All, All-of, any_where,
  not-any_where, guarded, ◌==◌, if◌then◌else◌, arith, eq_iff, Bool-cases, Option-cases, inl, inr,
}
use smolpaws.Work.{LaneRow, LaneDescriptor, LaneBinding}
use smolpaws.Store.{Store, ok, >>=-eq-ok, ok-injective, is_lane, get_lane}
use smolpaws.Store.Lanes.{
  new_lane, insert_lane, touch, read_back, resolve_lane, mark_lane_conversation_ready,
}
use smolpaws.Lifecycle.{start}
use smolpaws.Invariant.{
  IsWellFormed, LanesApart, LaneDistinct, Refines, Refines-refl, Refines-trans,
}

module _ (f : LaneRow → LaneRow) (key : (l : LaneRow) → (f l).lane_key ≡ l.lane_key)
    (conversation : (l : LaneRow) → (f l).conversation_id ≡ l.conversation_id) where
  LaneDistinct-map :
      (l : LaneRow) (lanes : List LaneRow)
      → All (LaneDistinct l) lanes
      → All (LaneDistinct (f l)) (map f lanes)
  LaneDistinct-map l [] a = tt
  LaneDistinct-map l (m ∷ lanes) a = (
    record {
      key = λ e. a.0.key (cc (e, key l, key m));
      conversation = λ e. a.0.conversation (cc (e, conversation l, conversation m));
    },
    LaneDistinct-map l lanes a.1,
  )

  LanesApart-map : (lanes : List LaneRow) → LanesApart lanes → LanesApart (map f lanes)
  LanesApart-map [] a = tt
  LanesApart-map (l ∷ lanes) a = (LaneDistinct-map l lanes a.0, LanesApart-map lanes a.1)

  any_where-map :
      (lane : String) (lanes : List LaneRow)
      → any_where (is_lane lane) (map f lanes) ≡ any_where (is_lane lane) lanes
  unfolding any_where
  any_where-map lane [] = refl
  any_where-map lane (l ∷ lanes) = rw (key l, any_where-map lane lanes)

  lanes-Refines : (st : Store) → IsWellFormed st → Refines st (record st { lanes = map f st.lanes })
  lanes-Refines st v = record {
    changes = start;
    well = record {
      sound = v.sound;
      lanes = LanesApart-map st.lanes v.lanes;
      owned = λ r h. rw any_where-map (v.owned r h);
      journal = v.journal;
    };
  }

record LanesKept (before after : List LaneRow) : Type 0 where
  apart : LanesApart after
  grown :
      (key : String) → any_where (is_lane key) before ≡ true → any_where (is_lane key) after ≡ true

kept-Refines :
    (st : Store) (lanes : List LaneRow)
    → LanesKept st.lanes lanes
    → IsWellFormed st
    → Refines st (record st { lanes = lanes })
kept-Refines st lanes k v = record {
  changes = start;
  well = record {
    sound = v.sound;
    lanes = k.apart;
    owned = λ r h. k.grown r.lane_key (v.owned r h);
    journal = v.journal;
  };
}

insert_lane-LanesKept :
    (d : LaneDescriptor) (candidate : String) (now : ℕ) (lanes : List LaneRow) {created : Bool}
    {lanes' : List LaneRow}
    → LanesApart lanes
    → insert_lane d candidate now lanes ≡ ok (created, lanes')
    → LanesKept lanes lanes'
unfolding insert_lane new_lane
insert_lane-LanesKept d candidate now lanes {created} {lanes'} a p =
    elim (Bool-cases (any_where (is_lane d.lane_key) lanes)) [
      | inl old ↦
          rw (← (ok-injective (rw (old, insert_lane) at p)).1)
            (record { apart = a; grown = λ key e. e })
      | inr new ↦ elim (Bool-cases (any_where (λ l. l.conversation_id == candidate) lanes)) [
        | inl taken ↦ absurd (cc (rw (new, taken, insert_lane) at p))
        | inr free ↦
            rw (← (ok-injective (rw (new, free, insert_lane) at p)).1) (record {
              apart = (All-of _ lanes (apart new free), a);
              grown = λ key e. ground arith;
            })
      ]
    ]
  where
    apart :
        any_where (is_lane d.lane_key) lanes ≡ false
        → any_where (λ l. l.conversation_id == candidate) lanes ≡ false
        → (l : LaneRow) → Has l lanes
        → LaneDistinct (new_lane d candidate now) l
    apart new free l h = record {
      key = λ e. absurd (ground (arith, not-any_where _ lanes new h, eq_iff l.lane_key d.lane_key));
      conversation = λ e.
          absurd (ground (arith, not-any_where _ lanes free h, eq_iff l.conversation_id candidate));
    }

pub read_back-eq :
    (created : Bool) (key : String) (st : Store) {st' : Store} {b : LaneBinding}
    → read_back created key st ≡ ok (st', b)
    → st ≡ st'
unfolding read_back
read_back-eq created key st p = elim (Option-cases (get_lane st key)) [
  | inl q ↦ absurd (cc (rw (q, read_back) at p))
  | inr (l, q) ↦ (ok-injective (rw (q, read_back) at p)).0
]

-- Only an existing lane is touched.
touched-Refines :
    (created : Bool) (key : String) (now : ℕ) (st : Store)
    → IsWellFormed st
    → Refines st (record st { lanes = if created then st.lanes else touch key now st.lanes })
unfolding touch
touched-Refines true key now st v = Refines-refl st v
touched-Refines false key now st v =
    lanes-Refines (guarded (is_lane key) _) (λ l. ground arith) (λ l. ground arith) st v

-- Resolving a lane, new or known, follows the machine.
pub resolve_lane-Refines :
    (d : LaneDescriptor) (candidate : String) (now : ℕ) (st : Store) {st' : Store} {b : LaneBinding}
    → IsWellFormed st
    → resolve_lane d candidate now st ≡ ok (st', b)
    → Refines st st'
unfolding resolve_lane
resolve_lane-Refines d candidate now st v p =
    let (pair, q, r) = >>=-eq-ok (insert_lane d candidate now st.lanes) _ p in
    let inserted =
      kept-Refines st pair.1 (insert_lane-LanesKept d candidate now st.lanes v.lanes q) v in
    let touched = touched-Refines pair.0 d.lane_key now _ inserted.well in
    subst (Refines st) (read_back-eq pair.0 d.lane_key _ r) (Refines-trans inserted touched)

pub mark_lane_conversation_ready-Refines :
    (key : String) (now : ℕ) (st : Store)
    → IsWellFormed st
    → Refines st (mark_lane_conversation_ready key now st)
unfolding mark_lane_conversation_ready
mark_lane_conversation_ready-Refines key now st v =
    lanes-Refines (guarded (is_lane key) _) (λ l. ground arith) (λ l. ground arith) st v
