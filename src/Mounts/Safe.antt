-- ===== src/Mounts/Safe.antt =====
-- What a mount that passed is allowed to be: src/mount-security.ts.
use smolpaws.Base.{
  ◌≡◌, refl, ◌∙◌, String, Bool, true, false, not, ◌||◌, Option, none, some, List, [], ◌∷◌, arith,
  Bool-cases, Option-cases, inl, inr, Has, here, there, not-Has-nil, sym, subst,
}
use smolpaws.Text.{includes}
use smolpaws.Mounts.{
  AdditionalMount, AllowedRoot, MountAllowlist, Files, matches_pattern, matches_blocked_pattern,
  is_valid_container_path, effective_readonly, is_truthy, allowed, expand_path, is_under,
  find_allowed_root, validate_real, validate_mount,
}

unblocked :
    (real : String) (ps : List String) {p : String}
    → matches_blocked_pattern real ps ≡ none
    → Has p ps
    → includes p real ≡ false
unfolding matches_blocked_pattern matches_pattern
unblocked real [] e h = absurd (not-Has-nil h)
unblocked real (q ∷ ps) {p} e h = elim (Bool-cases (matches_pattern real q)) [
  | inl m ↦ absurd (cc (rw (m, matches_blocked_pattern) at e))
  | inr m ↦
      let rest = rw (m, matches_blocked_pattern) at e in
      at_place q ps (λ k. unblocked real ps rest k) (path_part real q m) h
]
  where
    path_part : (real q : String) → matches_pattern real q ≡ false → includes q real ≡ false
    path_part real q m = ground arith

    at_place :
        (q : String) (ps : List String)
        → (Has p ps → includes p real ≡ false)
        → includes q real ≡ false
        → Has p (q ∷ ps)
        → includes p real ≡ false
    at_place q ps rest m (here s) = rw s m
    at_place q ps rest m (there k) = rest k

-- The root under which a mount stands.
pub record IsRooted (fs : Files) (roots : List AllowedRoot) (real : String) (root : AllowedRoot)
    : Type 0 where
  pub listed : Has root roots
  pub real_root : String
  pub resolved : fs.real_path (expand_path fs root.path) ≡ some real_root
  pub under : is_under fs real_root real ≡ true

find-IsRooted :
    (fs : Files) (real : String) (roots : List AllowedRoot) {root : AllowedRoot}
    → find_allowed_root fs real roots ≡ some root
    → IsRooted fs roots real root
unfolding find_allowed_root
find-IsRooted fs real [] e = absurd (cc)
find-IsRooted fs real (r ∷ roots) {root} e =
    elim (Option-cases (fs.real_path (expand_path fs r.path))) [
      | inl q ↦ later (find-IsRooted fs real roots (rw (q, find_allowed_root) at e))
      | inr (rr, q) ↦ elim (Bool-cases (is_under fs rr real)) [
        | inl u ↦
            let same : r ≡ root = cc (rw (q, find_allowed_root, u) at e) in
            record {
              listed = here (sym same);
              real_root = rr;
              resolved =
                  subst (λ (x : AllowedRoot). fs.real_path (expand_path fs x.path) ≡ some rr) same
                    q;
              under = u;
            }
        | inr u ↦ later (find-IsRooted fs real roots (rw (q, find_allowed_root, u) at e))
      ]
    ]
  where
    later : IsRooted fs roots real root → IsRooted fs (r ∷ roots) real root
    later v = record {
      listed = there v.listed;
      real_root = v.real_root;
      resolved = v.resolved;
      under = v.under;
    }

-- Who may write.
pub record MayWrite (list : MountAllowlist) (is_main : Bool) (mount : AdditionalMount)
    (root : AllowedRoot) : Type 0 where
  pub asked : mount.readonly ≡ some false
  pub root_allows : is_truthy root.allow_read_write ≡ true
  pub group_may : (is_main || not list.non_main_read_only) ≡ true

effective-MayWrite :
    (asked : Option Bool) (is_main only : Bool) (root : AllowedRoot)
    → effective_readonly asked is_main only root ≡ false
    → (asked ≡ some false)
      × (is_truthy root.allow_read_write ≡ true)
      × ((is_main || not only) ≡ true)
unfolding effective_readonly
effective-MayWrite none is_main only root e = absurd (cc)
effective-MayWrite (some true) is_main only root e = absurd (cc)
effective-MayWrite (some false) is_main only root e = (refl, ground arith, ground arith)

pub record IsGranted (fs : Files) (list : MountAllowlist) (is_main : Bool) (mount : AdditionalMount)
    (root : AllowedRoot) (real : String) (readonly : Bool) : Type 0 where
  pub inside : is_valid_container_path mount.container_path ≡ true
  pub resolved : fs.real_path (expand_path fs mount.host_path) ≡ some real
  pub clean : (p : String) → Has p list.blocked_patterns → includes p real ≡ false
  pub rooted : IsRooted fs list.allowed_roots real root
  pub written : readonly ≡ false → MayWrite list is_main mount root

pub validate-IsGranted :
    (fs : Files) (list : MountAllowlist) (is_main : Bool) (mount : AdditionalMount)
    {root : AllowedRoot} {real : String} {readonly : Bool}
    → validate_mount fs (some list) mount is_main ≡ allowed root real readonly
    → IsGranted fs list is_main mount root real readonly
unfolding validate_mount validate_real
validate-IsGranted fs list is_main mount {root} {real} {readonly} e =
    elim (Bool-cases (is_valid_container_path mount.container_path)) [
      | inr v ↦ absurd (cc (rw (v, validate_mount) at e))
      | inl v ↦ elim (Option-cases (fs.real_path (expand_path fs mount.host_path))) [
        | inl r ↦ absurd (cc (rw (v, validate_mount, r) at e))
        | inr (path, r) ↦ elim (Option-cases (matches_blocked_pattern path list.blocked_patterns)) [
          | inr (p, b) ↦ absurd (cc (rw (v, validate_mount, r, b, validate_real) at e))
          | inl b ↦ elim (Option-cases (find_allowed_root fs path list.allowed_roots)) [
            | inl f ↦ absurd (cc (rw (v, validate_mount, r, b, validate_real, f) at e))
            | inr (found, f) ↦
                granted v path r b found f (rw (v, validate_mount, r, b, validate_real, f) at e)
          ]
        ]
      ]
    ]
  where
    granted :
        is_valid_container_path mount.container_path ≡ true
        → (path : String) → fs.real_path (expand_path fs mount.host_path) ≡ some path
        → matches_blocked_pattern path list.blocked_patterns ≡ none
        → (found : AllowedRoot) → find_allowed_root fs path list.allowed_roots ≡ some found
        → allowed found path
            (effective_readonly mount.readonly is_main list.non_main_read_only found)
          ≡ allowed root real readonly
        → IsGranted fs list is_main mount root real readonly
    granted v path r b found f e =
        let same_root : found ≡ root = cc in
        let same_path : path ≡ real = cc in
        let same : effective_readonly mount.readonly is_main list.non_main_read_only root
            ≡ readonly =
          cc in
        record {
          inside = v;
          resolved = rw (← same_path) r;
          clean = λ p h. rw (← same_path) (unblocked path list.blocked_patterns b h);
          rooted = find-IsRooted fs real list.allowed_roots (cc);
          written = λ w.
              (let (a, c, d) =
                  effective-MayWrite mount.readonly is_main list.non_main_read_only root
                    (same ∙ w) in
                record { asked = a; root_allows = c; group_may = d });
        }
