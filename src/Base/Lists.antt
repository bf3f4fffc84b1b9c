-- ===== src/Base/Lists.antt =====
-- Lists as tables: membership that can be matched, search, filtering, guarded updates, counts.
use Prim.Native.Nat.{ℕ, zero, suc}
use mathlib.Core.Path.{◌≡◌, refl, ap}
use mathlib.Core.Logic.{inl, inr}
use mathlib.Core.Bool.{Bool, true, false}
use mathlib.Core.Option.{Option, none, some}
use mathlib.Core.List.{List, [], ◌∷◌, map}
use native.Mathlib.Omega.{arith}
use smolpaws.Base.Tests.{if◌then◌else◌, Bool-cases}

-- Membership as data, so that a proof can match on the place.
pub data Has {ℓ} {A : Type ℓ} (x : A) : List A → Type ℓ where
  here : {y : A} {ys : List A} → x ≡ y → Has x (y ∷ ys)
  there : {y : A} {ys : List A} → Has x ys → Has x (y ∷ ys)

abbrev pub All {ℓ κ} : {A : Type ℓ} → (A → Type κ) → List A → Type κ
All P [] = Unit
All P (x ∷ xs) = P x × All P xs

module _ {ℓ} {A : Type ℓ} where
  abbrev pub length : List A → ℕ
  length [] = 0
  length (x ∷ xs) = suc (length xs)

  pub not-Has-nil : {x : A} → ¬ Has x []
  not-Has-nil h = elim h [ ]

  -- The first `n` elements: LIMIT n.
  unfoldable pub take : ℕ → List A → List A
  take zero xs = []
  take (suc n) [] = []
  take (suc n) (x ∷ xs) = x ∷ take n xs

  -- SELECT ... WHERE p, one row.
  unfoldable pub find_first : (A → Bool) → List A → Option A
  find_first p [] = none
  find_first p (x ∷ xs) = if p x then some x else find_first p xs

  -- SELECT ... WHERE p, every row.
  unfoldable pub select : (A → Bool) → List A → List A
  select p [] = []
  select p (x ∷ xs) = let rest = select p xs in if p x then x ∷ rest else rest

  unfoldable pub count_where : (A → Bool) → List A → ℕ
  count_where p [] = 0
  count_where p (x ∷ xs) = let rest = count_where p xs in if p x then suc rest else rest

  unfoldable pub any_where : (A → Bool) → List A → Bool
  any_where p [] = false
  any_where p (x ∷ xs) = if p x then true else any_where p xs

  -- What an UPDATE with a WHERE clause does to one row.
  abbrev pub guarded : (A → Bool) → (A → A) → A → A
  guarded p f x = if p x then f x else x

  -- UPDATE ... SET f WHERE p.
  abbrev pub update_where : (A → Bool) → (A → A) → List A → List A
  update_where p f xs = map (guarded p f) xs

  pub Has-take : (n : ℕ) (xs : List A) {x : A} → Has x (take n xs) → Has x xs
  unfolding take
  Has-take zero xs h = absurd (not-Has-nil h)
  Has-take (suc n) [] h = h
  Has-take (suc n) (y ∷ xs) (here e) = here e
  Has-take (suc n) (y ∷ xs) (there h) = there (Has-take n xs h)

  pub Has-select :
      (p : A → Bool) (xs : List A) {x : A} → Has x (select p xs) → Has x xs × (p x ≡ true)
  unfolding select
  Has-select p [] h = absurd (not-Has-nil h)
  Has-select p (y ∷ xs) {x} h = elim (Bool-cases (p y)) [
    | inl e ↦ kept e (λ r. Has-select p xs r) (rw (e, select) at h)
    | inr e ↦ let r = Has-select p xs (rw (e, select) at h) in (there r.0, r.1)
  ]
    where
      kept :
          p y ≡ true
          → (Has x (select p xs) → Has x xs × (p x ≡ true))
          → Has x (y ∷ select p xs)
          → Has x (y ∷ xs) × (p x ≡ true)
      kept e rest (here q) = (here q, rw q e)
      kept e rest (there r) = let s = rest r in (there s.0, s.1)

  pub Has-find :
      (p : A → Bool) (xs : List A) {x : A} → find_first p xs ≡ some x → Has x xs × (p x ≡ true)
  unfolding find_first
  Has-find p [] h = absurd (ground arith)
  Has-find p (y ∷ xs) h = elim (Bool-cases (p y)) [
    | inl e ↦ (here (ground arith), ground arith)
    | inr e ↦ let r = Has-find p xs (ground arith) in (there r.0, r.1)
  ]

  pub find-none :
      (p : A → Bool) (xs : List A) {x : A} → find_first p xs ≡ none → Has x xs → p x ≡ false
  unfolding find_first
  find-none p [] e h = absurd (not-Has-nil h)
  find-none p (y ∷ xs) e (here q) = ground arith
  find-none p (y ∷ xs) e (there h) = find-none p xs (ground arith) h

  pub Has-map :
      (f : A → A) (xs : List A) {x : A} → Has x (map f xs) → (y : A) × Has y xs × (x ≡ f y)
  Has-map f [] h = absurd (not-Has-nil h)
  Has-map f (y ∷ xs) (here e) = (y, here refl, e)
  Has-map f (y ∷ xs) (there h) = let (z, m, e) = Has-map f xs h in (z, there m, e)

  pub map-Has : (f : A → A) (xs : List A) {x : A} → Has x xs → Has (f x) (map f xs)
  map-Has f [] h = absurd (not-Has-nil h)
  map-Has f (y ∷ xs) (here e) = here (ap f e)
  map-Has f (y ∷ xs) (there h) = there (map-Has f xs h)

module _ {ℓ κ} {A : Type ℓ} where
  pub All-Has : (P : A → Type κ) (xs : List A) {x : A} → All P xs → Has x xs → P x
  All-Has P [] a h = absurd (not-Has-nil h)
  All-Has P (y ∷ xs) a (here e) = rw e a.0
  All-Has P (y ∷ xs) a (there h) = All-Has P xs a.1 h

  pub All-of : (P : A → Type κ) (xs : List A) → ((x : A) → Has x xs → P x) → All P xs
  All-of P [] h = tt
  All-of P (x ∷ xs) h = (h x (here refl), All-of P xs (λ y m. h y (there m)))

module _ {ℓ} {A : Type ℓ} where
  pub not-any_where :
      (p : A → Bool) (xs : List A) {x : A} → any_where p xs ≡ false → Has x xs → p x ≡ false
  unfolding any_where
  not-any_where p [] e h = absurd (not-Has-nil h)
  not-any_where p (y ∷ xs) e (here q) = ground arith
  not-any_where p (y ∷ xs) e (there h) = not-any_where p xs (ground arith) h

  pub any_where-Has :
      (p : A → Bool) (xs : List A) → any_where p xs ≡ true → (x : A) × Has x xs × (p x ≡ true)
  unfolding any_where
  any_where-Has p [] e = absurd (cc)
  any_where-Has p (y ∷ xs) e = elim (Bool-cases (p y)) [
    | inl q ↦ (y, here refl, q)
    | inr q ↦ let (x, m, r) = any_where-Has p xs (rw (q, any_where) at e) in (x, there m, r)
  ]

  pub select-Has :
      (p : A → Bool) (xs : List A) {x : A} → Has x xs → p x ≡ true → Has x (select p xs)
  unfolding select
  select-Has p [] h e = absurd (not-Has-nil h)
  select-Has p (y ∷ xs) (here q) e = let hit : p y ≡ true = rw (← q) e in rw (hit, select) (here q)
  select-Has p (y ∷ xs) (there h) e = elim (Bool-cases (p y)) [
    | inl q ↦ rw (q, select) (there (select-Has p xs h e))
    | inr q ↦ rw (q, select) (select-Has p xs h e)
  ]
