-- ===== src/Text.antt =====
-- String.prototype.trim, startsWith, endsWith and includes.
use Prim.Native.Char.{code}
use smolpaws.Base.{ℕ, String, Bool, true, false, ◌||◌, ◌&&◌, ◌==◌, ◌=?◌, leb, if◌then◌else◌}

-- The characters that ECMAScript counts as white space or line ends.
unfoldable pub is_white_space : ℕ → Bool
is_white_space c =
    (leb 9 c && leb c 13)
    || c =? 32
    || c =? 160
    || c =? 5760
    || (leb 8192 c && leb c 8202)
    || c =? 8232
    || c =? 8233
    || c =? 8239
    || c =? 8287
    || c =? 12288
    || c =? 65279

unfoldable pub trim_start : String → String
unfolding is_white_space
trim_start String.[] = String.[]
trim_start (String.◌∷◌ c s) =
    let rest = trim_start s in if is_white_space (code c) then rest else String.◌∷◌ c s

trim_end : String → String
unfolding is_white_space
trim_end String.[] = String.[]
trim_end (String.◌∷◌ c s) =
    let rest = trim_end s in if rest == "" && is_white_space (code c) then "" else String.◌∷◌ c rest

unfoldable pub trim : String → String
unfolding trim_start trim_end
trim s = trim_end (trim_start s)

-- `s.startsWith(p)`.
unfoldable pub starts_with : String → String → Bool
starts_with String.[] s = true
starts_with (String.◌∷◌ c p) String.[] = false
starts_with (String.◌∷◌ c p) (String.◌∷◌ d s) =
    let rest = starts_with p s in if code c =? code d then rest else false

-- `s.includes(part)`.
unfoldable pub includes : String → String → Bool
unfolding starts_with
includes part String.[] = part == ""
includes part (String.◌∷◌ c s) =
    let rest = includes part s in if starts_with part (String.◌∷◌ c s) then true else rest

-- `s.endsWith(part)`.
unfoldable pub ends_with : String → String → Bool
ends_with part String.[] = part == ""
ends_with part (String.◌∷◌ c s) =
    let rest = ends_with part s in if part == String.◌∷◌ c s then true else rest
