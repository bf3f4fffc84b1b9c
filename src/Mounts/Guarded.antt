-- ===== src/Mounts/Guarded.antt =====
-- The mounts of a group, under the allowlist that was loaded: src/mount-security.ts.
use Prim.Native.String.{◌++◌ as ◌<>◌}
use smolpaws.Base.{
  ◌≡◌, refl, String, Bool, false, Option, none, some, List, [], ◌∷◌, ◌++◌, Option-cases, inl, inr,
  Has, here, there, All, sym, subst,
}
use smolpaws.Text.{includes}
use smolpaws.Mounts.{
  AdditionalMount, AllowedRoot, MountAllowlist, RawAllowlist, AllowlistFile, missing, unreadable,
  parsed, Cache, default_blocked_patterns, merged, read_allowlist, load_mount_allowlist, Files,
  Verdict, rejected, allowed, ValidatedMount, validate_mount, validate_additional_mounts,
}
use smolpaws.Mounts.Sourced.{Has-append, Has-unique_all, IsSourced, load-IsSourced}
use smolpaws.Mounts.Safe.{IsGranted, validate-IsGranted}

-- The default patterns are blocked.
abbrev pub IsGuarded : Option MountAllowlist → Type 0
IsGuarded none = Unit {0}
IsGuarded (some list) = (p : String) → Has p default_blocked_patterns → Has p list.blocked_patterns

merged-IsGuarded : (raw : RawAllowlist) → IsGuarded (merged raw)
unfolding merged
merged-IsGuarded raw = elim (Option-cases raw.allowed_roots) [
  | inl a ↦ rw (a, merged) tt
  | inr (roots, a) ↦ elim (Option-cases raw.blocked_patterns) [
    | inl b ↦ rw (a, merged, b) tt
    | inr (patterns, b) ↦ elim (Option-cases raw.non_main_read_only) [
      | inl c ↦ rw (a, merged, b, c) tt
      | inr (only, c) ↦
          rw (a, merged, b, c)
            (λ p h.
              Has-unique_all (default_blocked_patterns ++ patterns) p
                (Has-append p default_blocked_patterns patterns h))
    ]
  ]
]

-- What the module remembers is guarded, and remembered as it was loaded.
load-IsGuarded :
    (file : AllowlistFile) (c : Cache)
    → IsGuarded c.cached_allowlist
    → let (list, c') = load_mount_allowlist file c in IsGuarded list × IsGuarded c'.cached_allowlist
unfolding load_mount_allowlist read_allowlist
load-IsGuarded file c g = elim (Option-cases c.cached_allowlist) [
  | inr (list, q) ↦
      let known : IsGuarded (some list) = subst (λ (o : Option MountAllowlist). IsGuarded o) q g in
      rw (q, load_mount_allowlist)
        (known, subst (λ (o : Option MountAllowlist). IsGuarded o) (sym q) known)
  | inl q ↦ elim (Option-cases c.allowlist_load_error) [
    | inr (m, f) ↦ rw (q, load_mount_allowlist, f) (tt, g)
    | inl f ↦ rw (q, load_mount_allowlist, f) (first file g)
  ]
]
  where
    first :
        (file : AllowlistFile)
        → IsGuarded c.cached_allowlist
        → IsGuarded (read_allowlist file c).0 × IsGuarded (read_allowlist file c).1.cached_allowlist
    first missing g = (tt, g)
    first (unreadable m) g = (tt, g)
    first (parsed raw) g = elim (Option-cases (merged raw)) [
      | inl q ↦ rw (q, read_allowlist) (tt, g)
      | inr (list, q) ↦
          let known : IsGuarded (some list) =
            subst (λ (o : Option MountAllowlist). IsGuarded o) q (merged-IsGuarded raw) in
          rw (q, read_allowlist) (known, known)
    ]

-- A mount that is passed to a container, and the request that it answers.
pub record IsSafe (fs : Files) (list : MountAllowlist) (is_main : Bool)
    (mounts : List AdditionalMount) (m : ValidatedMount) : Type 0 where
  pub request : AdditionalMount
  pub asked : Has request mounts
  pub placed : m.container_path ≡ "/workspace/extra/" <> request.container_path
  pub root : AllowedRoot
  pub granted : IsGranted fs list is_main request root m.host_path m.readonly
  pub guarded : (p : String) → Has p default_blocked_patterns → includes p m.host_path ≡ false

-- Without a list nothing is mounted.
abbrev pub AllSafe :
    Files → Option MountAllowlist → Bool → List AdditionalMount → List ValidatedMount → Type 0
AllSafe fs none is_main mounts ms = ms ≡ []
AllSafe fs (some list) is_main mounts ms = All (IsSafe fs list is_main mounts) ms

module _ (fs : Files) (list : MountAllowlist) (is_main : Bool) where
  weaken :
      (mount : AdditionalMount) (mounts : List AdditionalMount) (ms : List ValidatedMount)
      → All (IsSafe fs list is_main mounts) ms
      → All (IsSafe fs list is_main (mount ∷ mounts)) ms
  weaken mount mounts [] h = tt
  weaken mount mounts (m ∷ ms) (v, h) = (
    record {
      request = v.request;
      asked = there v.asked;
      placed = v.placed;
      root = v.root;
      granted = v.granted;
      guarded = v.guarded;
    },
    weaken mount mounts ms h,
  )

  validate-AllSafe :
      (mounts : List AdditionalMount)
      → IsGuarded (some list)
      → All
          (IsSafe fs list is_main mounts)
          (validate_additional_mounts fs (some list) is_main mounts)
  unfolding validate_additional_mounts
  validate-AllSafe [] g = tt
  validate-AllSafe (mount ∷ mounts) g =
      by_verdict
        (weaken mount mounts (validate_additional_mounts fs (some list) is_main mounts)
          (validate-AllSafe mounts g))
        (validate_mount fs (some list) mount is_main) refl
    where
      by_verdict :
          All
            (IsSafe fs list is_main (mount ∷ mounts))
            (validate_additional_mounts fs (some list) is_main mounts)
          → (v : Verdict) → validate_mount fs (some list) mount is_main ≡ v
          → All
              (IsSafe fs list is_main (mount ∷ mounts))
              (validate_additional_mounts fs (some list) is_main (mount ∷ mounts))
      by_verdict rest (rejected r) e = rw (e, validate_additional_mounts) rest
      by_verdict rest (allowed root real readonly) e =
          let v = validate-IsGranted fs list is_main mount e in
          rw (e, validate_additional_mounts)
            (
              record {
                request = mount;
                asked = here refl;
                placed = refl;
                root = root;
                granted = v;
                guarded = λ p h. v.clean p (g p h);
              },
              rest,
            )

unlisted :
    (fs : Files) (is_main : Bool) (mounts : List AdditionalMount)
    → validate_additional_mounts fs none is_main mounts ≡ []
unfolding validate_additional_mounts validate_mount
unlisted fs is_main [] = refl
unlisted fs is_main (mount ∷ mounts) = unlisted fs is_main mounts

-- Every mount that a group gets was asked for, lies under `/workspace/extra` at a valid container
-- path, is the real path of the request, contains no blocked pattern, the default ones included, and
-- lies under the real path of an allowed root. It may be written only if that was asked for, the
-- root's flag is truthy, and the group is the main one or others may write. Without a list nothing
-- is mounted. The list is the one loaded before, or has the roots, the flag and all patterns of a
-- valid file: no other file gives one. The patterns and the roots' paths in the file are texts, and
-- a list that was loaded before blocks the default patterns, as the one that is loaded now does.
pub mounts_are_safe :
    (fs : Files) (file : AllowlistFile) (c : Cache) (is_main : Bool) (mounts : List AdditionalMount)
    → IsGuarded c.cached_allowlist
    → let (list, c') = load_mount_allowlist file c in
      IsGuarded c'.cached_allowlist
      × IsSourced file c list
      × AllSafe fs list is_main mounts (validate_additional_mounts fs list is_main mounts)
mounts_are_safe fs file c is_main mounts g = (
  (load-IsGuarded file c g).1,
  load-IsSourced file c,
  by_list (load_mount_allowlist file c).0 (load-IsGuarded file c g).0,
)
  where
    by_list :
        (list : Option MountAllowlist)
        → IsGuarded list
        → AllSafe fs list is_main mounts (validate_additional_mounts fs list is_main mounts)
    by_list none g = unlisted fs is_main mounts
    by_list (some list) g = validate-AllSafe fs list is_main mounts g
