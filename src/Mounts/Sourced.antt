-- ===== src/Mounts/Sourced.antt =====
-- Where a loaded allowlist comes from: src/mount-security.ts.
use smolpaws.Base.{
  ◌≡◌, refl, String, Bool, true, Option, none, some, List, [], ◌∷◌, ◌++◌, ◌==◌, any_where,
  Bool-cases, Option-cases, inl, inr, ◌⊎◌, Has, here, there, not-Has-nil, eq_iff, sym, subst,
}
use smolpaws.Mounts.{
  AllowedRoot, MountAllowlist, RawAllowlist, AllowlistFile, missing, unreadable, parsed, Cache,
  default_blocked_patterns, unique, merged, read_allowlist, load_mount_allowlist,
}

Has-seen : (v : String) (seen : List String) → any_where (λ s. s == v) seen ≡ true → Has v seen
unfolding any_where
Has-seen v [] e = absurd (cc)
Has-seen v (s ∷ seen) e = elim (Bool-cases (s == v)) [
  | inl q ↦ here (sym ((eq_iff s v).0 q))
  | inr q ↦ there (Has-seen v seen (rw (q, any_where) at e))
]

-- A value is kept, or stood before.
Has-unique : (seen vs : List String) {v : String} → Has v vs → Has v (unique seen vs) ⊎ Has v seen
unfolding unique
Has-unique seen [] h = absurd (not-Has-nil h)
Has-unique seen (w ∷ vs) {v} (here e) = elim (Bool-cases (any_where (λ s. s == w) seen)) [
  | inl q ↦ inr (rw e (Has-seen w seen q))
  | inr q ↦ inl (rw (q, unique) (here e))
]
Has-unique seen (w ∷ vs) {v} (there h) = elim (Bool-cases (any_where (λ s. s == w) seen)) [
  | inl q ↦ rw (q, unique) (skipped q (Has-unique (w ∷ seen) vs h))
  | inr q ↦ rw (q, unique) (kept (Has-unique (w ∷ seen) vs h))
]
  where
    skipped :
        any_where (λ s. s == w) seen ≡ true
        → Has v (unique (w ∷ seen) vs) ⊎ Has v (w ∷ seen)
        → Has v (unique (w ∷ seen) vs) ⊎ Has v seen
    skipped q (inl k) = inl k
    skipped q (inr (here e)) = inr (rw e (Has-seen w seen q))
    skipped q (inr (there k)) = inr k

    kept :
        Has v (unique (w ∷ seen) vs) ⊎ Has v (w ∷ seen)
        → Has v (w ∷ unique (w ∷ seen) vs) ⊎ Has v seen
    kept (inl k) = inl (there k)
    kept (inr (here e)) = inl (here e)
    kept (inr (there k)) = inr k

pub Has-append : (p : String) (xs ys : List String) → Has p xs → Has p (xs ++ ys)
Has-append p [] ys h = absurd (not-Has-nil h)
Has-append p (x ∷ xs) ys (here e) = here e
Has-append p (x ∷ xs) ys (there h) = there (Has-append p xs ys h)

pub Has-unique_all : (vs : List String) (v : String) → Has v vs → Has v (unique [] vs)
Has-unique_all vs v h = only (Has-unique [] vs h)
  where
    only : Has v (unique [] vs) ⊎ Has v [] → Has v (unique [] vs)
    only (inl k) = k
    only (inr k) = absurd (not-Has-nil k)

-- The list was loaded before, or it is the file's: its roots and its flag, with all its patterns.
pub record IsOfFile (file : AllowlistFile) (list : MountAllowlist) : Type 0 where
  pub raw : RawAllowlist
  pub patterns : List String
  pub read : file ≡ parsed raw
  pub roots : raw.allowed_roots ≡ some list.allowed_roots
  pub only : raw.non_main_read_only ≡ some list.non_main_read_only
  pub listed : raw.blocked_patterns ≡ some patterns
  pub blocks : (p : String) → Has p patterns → Has p list.blocked_patterns

abbrev pub IsSourced : AllowlistFile → Cache → Option MountAllowlist → Type 0
IsSourced file c none = Unit {0}
IsSourced file c (some list) =
    (c.cached_allowlist ≡ some list) ⊎ ((c.allowlist_load_error ≡ none) × IsOfFile file list)

Has-append_right : (p : String) (xs ys : List String) → Has p ys → Has p (xs ++ ys)
Has-append_right p [] ys h = h
Has-append_right p (x ∷ xs) ys h = there (Has-append_right p xs ys h)

merged-IsOfFile :
    (raw : RawAllowlist) (list : MountAllowlist)
    → merged raw ≡ some list
    → IsOfFile (parsed raw) list
unfolding merged
merged-IsOfFile raw list e = elim (Option-cases raw.allowed_roots) [
  | inl a ↦ absurd (cc (rw (a, merged) at e))
  | inr (roots, a) ↦ elim (Option-cases raw.blocked_patterns) [
    | inl b ↦ absurd (cc (rw (a, merged, b) at e))
    | inr (patterns, b) ↦ elim (Option-cases raw.non_main_read_only) [
      | inl c ↦ absurd (cc (rw (a, merged, b, c) at e))
      | inr (only, c) ↦ made roots a patterns b only c (rw (a, merged, b, c) at e)
    ]
  ]
]
  where
    made :
        (roots : List AllowedRoot)
        → raw.allowed_roots ≡ some roots
        → (patterns : List String) → raw.blocked_patterns ≡ some patterns
        → (only : Bool) → raw.non_main_read_only ≡ some only
        → some (record {
          allowed_roots = roots;
          blocked_patterns = unique [] (default_blocked_patterns ++ patterns);
          non_main_read_only = only;
        })
          ≡ some list
        → IsOfFile (parsed raw) list
    made roots a patterns b only c e =
        let made_list : record {
          allowed_roots = roots;
          blocked_patterns = unique [] (default_blocked_patterns ++ patterns);
          non_main_read_only = only;
        }
            ≡ list =
          cc e in
        subst (λ (l : MountAllowlist). IsOfFile (parsed raw) l) made_list
          (record {
            raw = raw;
            patterns = patterns;
            read = refl;
            roots = a;
            only = c;
            listed = b;
            blocks = λ p h.
                Has-unique_all (default_blocked_patterns ++ patterns) p
                  (Has-append_right p default_blocked_patterns patterns h);
          })

load_of_parts :
    (file : AllowlistFile) (cached : Option MountAllowlist) (error : Option String)
    → let c : Cache = record { cached_allowlist = cached; allowlist_load_error = error } in
      IsSourced file c (load_mount_allowlist file c).0
unfolding load_mount_allowlist read_allowlist
load_of_parts file (some list) error = inl refl
load_of_parts file none (some m) = tt
load_of_parts missing none none = tt
load_of_parts (unreadable m) none none = tt
load_of_parts (parsed raw) none none = elim (Option-cases (merged raw)) [
  | inl q ↦ rw (q, read_allowlist) tt
  | inr (list, q) ↦ rw (q, read_allowlist) (inr (refl, merged-IsOfFile raw list q))
]

pub load-IsSourced :
    (file : AllowlistFile) (c : Cache) → IsSourced file c (load_mount_allowlist file c).0
load-IsSourced file c = load_of_parts file c.cached_allowlist c.allowlist_load_error
