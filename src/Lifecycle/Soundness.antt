-- ===== src/Lifecycle/Soundness.antt =====
-- What holds of the work table after any change: the keys are unique, what is not `ready` was
-- claimed before, and nothing overtakes an open row of its lane.
use smolpaws.Base.{
  ◌<◌, ◌≡◌, sym, true, false, List, [], ◌∷◌, map, Has, here, there, All, All-Has, Has-map,
  not-Has-nil, arith, inl, inr,
}
use native.Mathlib.Decide.{dec_lt}
use smolpaws.Work.{WorkRow, is_resolved, is_ready, is_claimed}
use smolpaws.Lifecycle.{
  SameWork, Step, Distinct, Fresh, Change, updates, inserts, Changes, start, next,
}
use smolpaws.Lifecycle.Edges.{
  Apart, IsSound, Edge-resolved, Edge-touched, Edge-started, Apart-map, not-blocks,
}

module _ (rows : List WorkRow) (f : WorkRow → WorkRow)
    (steps : (r : WorkRow) → Has r rows → Step rows r (f r)) (v : IsSound rows) where
  ordered_step :
      (r s : WorkRow)
      → Has r rows
      → Has s rows
      → (f s).kind ≡ (f r).kind
      → (f s).lane_key ≡ (f r).lane_key
      → (f s).sequence < (f r).sequence
      → 0 < (f r).generation
      → is_resolved (f s).state ≡ true
  ordered_step r s hr hs k l lt p =
      Edge-resolved (steps s hs).edge (elim (Edge-touched (steps r hr).edge (v.started r hr) p) [
        | inl q ↦ v.ordered r s hr hs kinds lanes before q
        | inr q ↦ not-blocks r s ((steps r hr).head q.0 q.1 s hs) kinds lanes before
      ])
    where
      same_r : SameWork r (f r)
      same_r = (steps r hr).same

      same_s : SameWork s (f s)
      same_s = (steps s hs).same

      kinds : s.kind ≡ r.kind
      kinds = cc (same_r.kind, same_s.kind)

      lanes : s.lane_key ≡ r.lane_key
      lanes = cc (same_r.lane_key, same_s.lane_key)

      before : s.sequence < r.sequence
      before = omega (arith, same_r.sequence, same_s.sequence)

  started_step : (x : WorkRow) → Has x (map f rows) → is_ready x.state ≡ false → 0 < x.generation
  started_step x h e =
      let (r, m, q) = Has-map f rows h in
      rw q (Edge-started (steps r m).edge (v.started r m) (rw q at e))

  updates-IsSound : IsSound (map f rows)
  updates-IsSound = record {
    apart = Apart-map f rows (λ s h. (steps s h).same) v.apart;
    started = started_step;
    ordered = λ x y hx hy k l lt p.
        let (r, m, q) = Has-map f rows hx in
        let (s, n, o) = Has-map f rows hy in
        rw o (ordered_step r s m n (cc (k, q, o)) (cc (l, q, o)) (rw (← q, ← o) lt) (rw (← q) p));
  }

module _ (r : WorkRow) (rows : List WorkRow) (new : Fresh r rows) (v : IsSound rows) where
  inserts_started : (x : WorkRow) → Has x (r ∷ rows) → is_ready x.state ≡ false → 0 < x.generation
  inserts_started x (here q) e = absurd (ground (arith, new.state))
  inserts_started x (there h) e = v.started x h e

  inserts_ordered :
      (x y : WorkRow)
      → Has x (r ∷ rows)
      → Has y (r ∷ rows)
      → y.kind ≡ x.kind
      → y.lane_key ≡ x.lane_key
      → y.sequence < x.sequence
      → 0 < x.generation
      → is_resolved y.state ≡ true
  inserts_ordered x y (here q) hy k l lt p = absurd (ground (arith, new.generation))
  inserts_ordered x y (there hx) (here q) k l lt p =
      absurd (ground (arith, new.last x hx (cc (k, q)) (cc (l, q))))
  inserts_ordered x y (there hx) (there hy) k l lt p = v.ordered x y hx hy k l lt p

  inserts-IsSound : IsSound (r ∷ rows)
  inserts-IsSound = record {
    apart = (new.distinct, v.apart);
    started = inserts_started;
    ordered = inserts_ordered;
  }

Change-IsSound : {rows rows' : List WorkRow} → Change rows rows' → IsSound rows → IsSound rows'
Change-IsSound {rows} (updates f steps) v = updates-IsSound rows f steps v
Change-IsSound {rows} (inserts r new) v = inserts-IsSound r rows new v

-- Any sequence of statements keeps the table sound.
pub Changes-IsSound :
    {rows rows' : List WorkRow} → Changes rows rows' → IsSound rows → IsSound rows'
Changes-IsSound start v = v
Changes-IsSound (next p c) v = Change-IsSound c (Changes-IsSound p v)

Apart-tail :
    (r s x : WorkRow) (rows : List WorkRow) → All (Distinct r) rows → Has s rows → Distinct r s
Apart-tail r s x rows a h = All-Has (Distinct r) rows a h

-- Two rows of a sound table that stand in one place are one row.
pub same_place :
    (r s : WorkRow) (rows : List WorkRow)
    → Apart rows
    → Has r rows
    → Has s rows
    → r.kind ≡ s.kind
    → r.lane_key ≡ s.lane_key
    → r.sequence ≡ s.sequence
    → r ≡ s
same_place r s [] a hr hs k l e = absurd (not-Has-nil hr)
same_place r s (x ∷ rows) a (here p) (here q) k l e = cc
same_place r s (x ∷ rows) a (here p) (there hs) k l e =
    absurd ((All-Has (Distinct x) rows a.0 hs).place (cc) (cc) (cc))
same_place r s (x ∷ rows) a (there hr) (here q) k l e =
    absurd ((All-Has (Distinct x) rows a.0 hr).place (cc) (cc) (cc))
same_place r s (x ∷ rows) a (there hr) (there hs) k l e = same_place r s rows a.1 hr hs k l e

pub same_id :
    (r s : WorkRow) (rows : List WorkRow)
    → Apart rows
    → Has r rows
    → Has s rows
    → r.id ≡ s.id
    → r ≡ s
same_id r s [] a hr hs e = absurd (not-Has-nil hr)
same_id r s (x ∷ rows) a (here p) (here q) e = cc
same_id r s (x ∷ rows) a (here p) (there hs) e = absurd ((All-Has (Distinct x) rows a.0 hs).id (cc))
same_id r s (x ∷ rows) a (there hr) (here q) e = absurd ((All-Has (Distinct x) rows a.0 hr).id (cc))
same_id r s (x ∷ rows) a (there hr) (there hs) e = same_id r s rows a.1 hr hs e

pub same_source :
    (r s : WorkRow) (rows : List WorkRow)
    → Apart rows
    → Has r rows
    → Has s rows
    → r.kind ≡ s.kind
    → r.source_key ≡ s.source_key
    → r ≡ s
same_source r s [] a hr hs k e = absurd (not-Has-nil hr)
same_source r s (x ∷ rows) a (here p) (here q) k e = cc
same_source r s (x ∷ rows) a (here p) (there hs) k e =
    absurd ((All-Has (Distinct x) rows a.0 hs).source (cc) (cc))
same_source r s (x ∷ rows) a (there hr) (here q) k e =
    absurd ((All-Has (Distinct x) rows a.0 hr).source (cc) (cc))
same_source r s (x ∷ rows) a (there hr) (there hs) k e = same_source r s rows a.1 hr hs k e

-- In one lane and kind at most one row is claimed.
pub claimed_once :
    (r s : WorkRow) (rows : List WorkRow)
    → IsSound rows
    → Has r rows
    → Has s rows
    → r.kind ≡ s.kind
    → r.lane_key ≡ s.lane_key
    → is_claimed r.state ≡ true
    → is_claimed s.state ≡ true
    → r ≡ s
claimed_once r s rows v hr hs k l p q = elim (dec_lt r.sequence s.sequence) [
  | yes lt ↦ absurd (ground (arith, v.ordered s r hs hr k l lt (v.started s hs (ground arith))))
  | no ge ↦ elim (dec_lt s.sequence r.sequence) [
    | yes lt ↦
        absurd
          (ground (arith, v.ordered r s hr hs (sym k) (sym l) lt (v.started r hr (ground arith))))
    | no le ↦ same_place r s rows v.apart hr hs k l (omega arith)
  ]
]
