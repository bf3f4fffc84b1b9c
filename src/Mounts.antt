-- ===== src/Mounts.antt =====
-- Additional mounts of containers: src/mount-security.ts, with the types of src/types.ts. The file
-- system and Node's path functions are parameters. A reason is a value; its words are for the log.
pub mod Safe
pub mod Guarded
pub mod Sourced
use Prim.Native.Char.{code}
use Prim.Native.String.{◌++◌ as ◌<>◌}
use smolpaws.Base.{
  String, Bool, true, false, not, ◌||◌, ◌&&◌, Option, none, some, List, [], ◌∷◌, ◌++◌, ◌==◌, ◌=?◌,
  if◌then◌else◌, any_where,
}
use smolpaws.Json.{Json, null, boolean, number, string, array, object}
use smolpaws.Text.{trim, starts_with, includes}

pub record AdditionalMount : Type 0 where
  pub host_path : String
  pub container_path : String
  pub readonly : Option Bool

-- An element of the file's `allowedRoots`, which are not checked: its flag may be any value, or
-- absent. That its path is a text is assumed; any other value throws when the mount is validated.
pub record AllowedRoot : Type 0 where
  pub path : String
  pub allow_read_write : Option Json

pub record MountAllowlist : Type 0 where
  pub allowed_roots : List AllowedRoot
  pub blocked_patterns : List String
  pub non_main_read_only : Bool

-- What `JSON.parse` gives: `none` where a field is no array or no boolean. The patterns are assumed
-- to be texts.
pub record RawAllowlist : Type 0 where
  pub allowed_roots : Option (List AllowedRoot)
  pub blocked_patterns : Option (List String)
  pub non_main_read_only : Option Bool

pub data AllowlistFile : Type 0 where
  missing : AllowlistFile
  unreadable : String → AllowlistFile
  parsed : RawAllowlist → AllowlistFile

-- The variables of the module.
pub record Cache : Type 0 where
  pub cached_allowlist : Option MountAllowlist
  pub allowlist_load_error : Option String

abbrev pub default_blocked_patterns : List String
default_blocked_patterns =
    ".ssh" ∷ ".gnupg" ∷ ".gpg" ∷ ".aws" ∷ ".azure" ∷ ".gcloud" ∷ ".kube" ∷ ".docker" ∷ "credentials"
    ∷ ".env" ∷ ".netrc" ∷ ".npmrc" ∷ ".pypirc" ∷ "id_rsa" ∷ "id_ed25519" ∷ "private_key" ∷ ".secret"
    ∷ []

-- `[...new Set(values)]`: each value where it stands first. `seen` are the values before.
unfoldable pub unique : List String → List String → List String
unfolding any_where
unique seen [] = []
unique seen (v ∷ vs) =
    let rest = unique (v ∷ seen) vs in if any_where (λ s. s == v) seen then rest else v ∷ rest

unfoldable pub merged : RawAllowlist → Option MountAllowlist
unfolding unique
merged raw = elim raw.allowed_roots [
  | none ↦ none
  | some roots ↦ elim raw.blocked_patterns [
    | none ↦ none
    | some patterns ↦ elim raw.non_main_read_only [
      | none ↦ none
      | some read_only ↦ some (record {
        allowed_roots = roots;
        blocked_patterns = unique [] (default_blocked_patterns ++ patterns);
        non_main_read_only = read_only;
      })
    ]
  ]
]

abbrev keep_error : String → Cache → Option MountAllowlist × Cache
keep_error message c = (none, record c { allowlist_load_error = some message })

-- The first answer is kept, also a failure.
unfoldable pub read_allowlist : AllowlistFile → Cache → Option MountAllowlist × Cache
unfolding merged
read_allowlist missing c = keep_error "Mount allowlist not found" c
read_allowlist (unreadable message) c = keep_error message c
read_allowlist (parsed raw) c = elim (merged raw) [
  | none ↦ keep_error "invalid" c
  | some list ↦ (some list, record c { cached_allowlist = some list })
]

unfoldable pub load_mount_allowlist : AllowlistFile → Cache → Option MountAllowlist × Cache
unfolding read_allowlist
load_mount_allowlist file c = elim c.cached_allowlist [
  | some list ↦ (some list, c)
  | none ↦ elim c.allowlist_load_error [ some message ↦ (none, c) | none ↦ read_allowlist file c ]
]

pub record Files : Type 0 where
  pub home : String
  pub resolve : String → String
  pub join : String → String → String
  pub relative : String → String → String
  pub is_absolute : String → Bool
  pub real_path : String → Option String

-- The parts of a path between its slashes.
unfoldable pub split_slash : String → List String
split_slash String.[] = "" ∷ []
split_slash (String.◌∷◌ c s) = elim (split_slash s) [
  | [] ↦ []
  | part ∷ parts ↦ if code c =? 47 then "" ∷ part ∷ parts else String.◌∷◌ c part ∷ parts
]

unfoldable pub matches_pattern : String → String → Bool
unfolding any_where split_slash includes
matches_pattern real pattern =
    any_where (λ part. part == pattern || includes pattern part) (split_slash real)
    || includes pattern real

unfoldable pub matches_blocked_pattern : String → List String → Option String
unfolding matches_pattern
matches_blocked_pattern real [] = none
matches_blocked_pattern real (p ∷ ps) =
    let later = matches_blocked_pattern real ps in if matches_pattern real p then some p else later

unfoldable pub is_valid_container_path : String → Bool
unfolding includes starts_with trim
is_valid_container_path path =
    not (includes ".." path) && not (starts_with "/" path) && not (path == "" || trim path == "")

-- `Boolean(value)`; an absent value is `undefined`.
unfoldable pub is_truthy : Option Json → Bool
is_truthy none = false
is_truthy (some null) = false
is_truthy (some (boolean b)) = b
is_truthy (some (number n)) = not (n =? 0)
is_truthy (some (string s)) = not (s == "")
is_truthy (some (array items)) = true
is_truthy (some (object fields)) = true

-- Read-write only where it is asked for, the root allows it, and the group may have it.
unfoldable pub effective_readonly : Option Bool → Bool → Bool → AllowedRoot → Bool
unfolding is_truthy
effective_readonly none is_main non_main_read_only root = true
effective_readonly (some true) is_main non_main_read_only root = true
effective_readonly (some false) is_main non_main_read_only root =
    if not is_main && non_main_read_only then true else not (is_truthy root.allow_read_write)

pub data Reason : Type 0 where
  no_allowlist invalid_container_path missing_host_path not_under_a_root : Reason
  blocked : String → Reason

pub data Verdict : Type 0 where
  rejected : Reason → Verdict
  allowed : AllowedRoot → String → Bool → Verdict

pub record ValidatedMount : Type 0 where
  pub host_path : String
  pub container_path : String
  pub readonly : Bool

-- `p.slice(2)`, of ASCII characters.
unfoldable pub after_two : String → String
after_two (String.◌∷◌ a (String.◌∷◌ b s)) = s
after_two s = ""

module _ (fs : Files) where
  unfoldable pub expand_path : String → String
  unfolding starts_with after_two
  expand_path p =
      if starts_with "~/" p
      then fs.join fs.home (after_two p)
      else if p == "~"
      then fs.home
      else fs.resolve p

  unfoldable pub is_under : String → String → Bool
  unfolding starts_with
  is_under root real =
      not (starts_with ".." (fs.relative root real)) && not (fs.is_absolute (fs.relative root real))

  -- A root that does not exist is passed over.
  unfoldable pub find_allowed_root : String → List AllowedRoot → Option AllowedRoot
  unfolding expand_path is_under
  find_allowed_root real [] = none
  find_allowed_root real (root ∷ roots) =
      let later = find_allowed_root real roots in
      elim (fs.real_path (expand_path root.path)) [
        | none ↦ later
        | some real_root ↦ if is_under real_root real then some root else later
      ]

  unfoldable pub validate_real : MountAllowlist → AdditionalMount → Bool → String → Verdict
  unfolding matches_blocked_pattern find_allowed_root effective_readonly
  validate_real list mount is_main real =
      elim (matches_blocked_pattern real list.blocked_patterns) [
        | some pattern ↦ rejected (blocked pattern)
        | none ↦ elim (find_allowed_root real list.allowed_roots) [
          | none ↦ rejected not_under_a_root
          | some root ↦
              allowed root real
                (effective_readonly mount.readonly is_main list.non_main_read_only root)
        ]
      ]

  unfoldable pub validate_mount : Option MountAllowlist → AdditionalMount → Bool → Verdict
  unfolding is_valid_container_path expand_path validate_real
  validate_mount none mount is_main = rejected no_allowlist
  validate_mount (some list) mount is_main =
      if is_valid_container_path mount.container_path
      then elim (fs.real_path (expand_path mount.host_path)) [
        | none ↦ rejected missing_host_path
        | some real ↦ validate_real list mount is_main real
      ]
      else rejected invalid_container_path

  -- Every mount that passed, at its real path; the list is loaded once at the first.
  unfoldable pub validate_additional_mounts :
      Option MountAllowlist → Bool → List AdditionalMount → List ValidatedMount
  unfolding validate_mount
  validate_additional_mounts list is_main [] = []
  validate_additional_mounts list is_main (mount ∷ mounts) =
      let rest = validate_additional_mounts list is_main mounts in
      elim (validate_mount list mount is_main) [
        | rejected reason ↦ rest
        | allowed root real readonly ↦
            record {
              host_path = real;
              container_path = "/workspace/extra/" <> mount.container_path;
              readonly = readonly;
            }
            ∷ rest
      ]
