-- ===== src/Lifecycle/Edges.antt =====
-- What the edges of the state machine keep of a row: src/coordinator/store.ts.
use smolpaws.Base.{
  ℕ, ◌+◌, ◌<◌, ◌≡◌, ◌⊎◌, refl, true, false, List, [], ◌∷◌, map, Has, here, there, All, arith,
  eq_iff, inl, inr,
}
use smolpaws.Work.{WorkRow, WorkState, WorkKind, is_resolved, is_ready, is_claimed, same_kind}
use smolpaws.Store.Claims.{blocks}
use smolpaws.Lifecycle.{
  Edge, keeps, claims, settles, releases, expires, expires_sent, wakes, skips, confirms, requeues,
  finishes, SameWork, Distinct,
}

abbrev pub Apart : List WorkRow → Type 0
Apart [] = Unit
Apart (r ∷ rows) = All (Distinct r) rows × Apart rows

pub record IsSound (rows : List WorkRow) : Type 0 where
  pub apart : Apart rows
  pub started : (r : WorkRow) → Has r rows → is_ready r.state ≡ false → 0 < r.generation
  pub ordered :
      (r s : WorkRow)
      → Has r rows
      → Has s rows
      → s.kind ≡ r.kind
      → s.lane_key ≡ r.lane_key
      → s.sequence < r.sequence
      → 0 < r.generation
      → is_resolved s.state ≡ true

pub Edge-resolved :
    {s t : WorkState} {g h : ℕ} → Edge s g t h → is_resolved s ≡ true → is_resolved t ≡ true
Edge-resolved keeps e = e
Edge-resolved (skips b) e = refl
Edge-resolved confirms e = refl
Edge-resolved {s} (requeues b) e = ground arith
Edge-resolved (finishes p) e = refl
Edge-resolved claims e = cc
Edge-resolved (settles x) e = cc
Edge-resolved releases e = cc
Edge-resolved expires e = cc
Edge-resolved expires_sent e = cc
Edge-resolved wakes e = cc

pub Edge-mono : {s t : WorkState} {g h : ℕ} → Edge s g t h → (h ≡ g) ⊎ (h ≡ g + 1)
Edge-mono keeps = inl refl
Edge-mono claims = inr refl
Edge-mono (settles x) = inl refl
Edge-mono releases = inl refl
Edge-mono expires = inr refl
Edge-mono expires_sent = inr refl
Edge-mono wakes = inl refl
Edge-mono (skips b) = inl refl
Edge-mono confirms = inl refl
Edge-mono (requeues b) = inr refl
Edge-mono (finishes p) = inr refl

-- A row is touched for the first time by a claim only.
pub Edge-touched :
    {s t : WorkState} {g h : ℕ}
    → Edge s g t h
    → (is_ready s ≡ false → 0 < g)
    → 0 < h
    → (0 < g) ⊎ ((is_ready s ≡ true) × (is_claimed t ≡ true))
Edge-touched keeps st p = inl p
Edge-touched claims st p = inr (refl, refl)
Edge-touched (settles x) st p = inl p
Edge-touched releases st p = inl p
Edge-touched expires st p = inl (st refl)
Edge-touched expires_sent st p = inl (st refl)
Edge-touched wakes st p = inl p
Edge-touched (skips b) st p = inl p
Edge-touched confirms st p = inl p
Edge-touched {s} {g = g} (requeues b) st p = inl (ground arith)
Edge-touched (finishes q) st p = inl q

pub Edge-started :
    {s t : WorkState} {g h : ℕ}
    → Edge s g t h
    → (is_ready s ≡ false → 0 < g)
    → is_ready t ≡ false
    → 0 < h
Edge-started keeps st e = st e
Edge-started claims st e = omega arith
Edge-started (settles x) st e = st refl
Edge-started releases st e = cc
Edge-started expires st e = cc
Edge-started expires_sent st e = omega arith
Edge-started wakes st e = cc
Edge-started {s} {g = g} (skips b) st e = ground arith
Edge-started confirms st e = st refl
Edge-started (requeues b) st e = cc
Edge-started (finishes q) st e = omega arith

SameWork-Distinct :
    {r s r' s' : WorkRow} → SameWork r r' → SameWork s s' → Distinct r s → Distinct r' s'
SameWork-Distinct p q d = record {
  id = λ e. d.id (cc);
  source = λ k e. d.source (cc) (cc);
  place = λ k l e. d.place (cc) (cc) (cc);
}

module _ (f : WorkRow → WorkRow) where
  All-Distinct-map :
      (r : WorkRow) (rows : List WorkRow)
      → SameWork r (f r)
      → ((s : WorkRow) → Has s rows → SameWork s (f s))
      → All (Distinct r) rows
      → All (Distinct (f r)) (map f rows)
  All-Distinct-map r [] p same a = tt
  All-Distinct-map r (s ∷ rows) p same a = (
    SameWork-Distinct p (same s (here refl)) a.0,
    All-Distinct-map r rows p (λ x h. same x (there h)) a.1,
  )

  pub Apart-map :
      (rows : List WorkRow)
      → ((s : WorkRow) → Has s rows → SameWork s (f s))
      → Apart rows
      → Apart (map f rows)
  Apart-map [] same a = tt
  Apart-map (r ∷ rows) same a = (
    All-Distinct-map r rows (same r (here refl)) (λ x h. same x (there h)) a.0,
    Apart-map rows (λ x h. same x (there h)) a.1,
  )

pub same_kind-of_eq : (a b : WorkKind) → a ≡ b → same_kind a b ≡ true
same_kind-of_eq a b e = ground arith

pub not-blocks :
    (r w : WorkRow)
    → blocks r w ≡ false
    → w.kind ≡ r.kind
    → w.lane_key ≡ r.lane_key
    → w.sequence < r.sequence
    → is_resolved w.state ≡ true
not-blocks r w h k l lt =
    ground (arith, eq_iff w.lane_key r.lane_key, same_kind-of_eq w.kind r.kind k)
