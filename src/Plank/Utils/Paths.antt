-- ===== src/Plank/Utils/Paths.antt =====
-- DeriveStaticURIFromPath of plank/utils/paths.go, with what it uses of `strings` and
-- `filepath.Base`.
use Prim.Native.Char.{code, char}
use Prim.Native.String.{String}
use transport_go.Prelude.{
  ℕ, Bool, true, false, Option, none, some, ◌&&◌, ◌||◌, ◌==◌, leb, if◌then◌else◌,
}
use transport_go.Stomp.Text.{has_prefix}

abbrev pub is_space : ℕ → Bool
is_space c =
    (leb 9 c && leb c 13)
    || c == 32
    || c == 133
    || c == 160
    || c == 5760
    || (leb 8192 c && leb c 8202)
    || c == 8232
    || c == 8233
    || c == 8239
    || c == 8287
    || c == 12288

abbrev pub is_empty : String → Bool
is_empty String.[] = true
is_empty (String.◌∷◌ c s) = false

unfoldable pub trim_right : (ℕ → Bool) → String → String
trim_right p String.[] = String.[]
trim_right p (String.◌∷◌ c s) =
    let rest = trim_right p s in
    if is_empty rest && p (code c) then String.[] else String.◌∷◌ c rest

unfoldable pub trim_left : (ℕ → Bool) → String → String
trim_left p String.[] = String.[]
trim_left p (String.◌∷◌ c s) =
    let rest = trim_left p s in if p (code c) then rest else String.◌∷◌ c s

-- strings.TrimSpace
abbrev pub trim_space : String → String
trim_space s = trim_left is_space (trim_right is_space s)

-- The first part of `strings.Split(s, ":")`.
unfoldable pub before_colon : String → String
before_colon String.[] = String.[]
before_colon (String.◌∷◌ c s) =
    let rest = before_colon s in if code c == b':' then String.[] else String.◌∷◌ c rest

-- What stands behind the first ":", if there is one.
unfoldable pub behind_colon : String → Option String
behind_colon String.[] = none
behind_colon (String.◌∷◌ c s) = let rest = behind_colon s in if code c == b':' then some s else rest

unfoldable pub has_slash : String → Bool
has_slash String.[] = false
has_slash (String.◌∷◌ c s) = code c == b'/' || has_slash s

unfoldable pub last_element : String → String
unfolding has_slash
last_element String.[] = String.[]
last_element (String.◌∷◌ c s) =
    let rest = last_element s in
    if has_slash s then rest else (if code c == b'/' then s else String.◌∷◌ c s)

abbrev pub is_slash : ℕ → Bool
is_slash c = c == b'/'

-- filepath.Base
unfoldable pub base : String → String
unfolding trim_right last_element
base path =
    let rest = trim_right is_slash path in
    if is_empty path then "." else (if is_empty rest then "/" else last_element rest)

abbrev pub lead : String → String → String
lead part uri = if has_prefix part "/" then uri else String.◌∷◌ (char b'/' tt) uri

abbrev pub uri_of : String → Option String → String
uri_of p (some alias) = lead (before_colon alias) (before_colon alias)
uri_of p none = lead p (base p)

-- The path and the URI, of what is left without spaces.
unfoldable pub derive_trimmed : String → String × String
unfolding before_colon behind_colon base has_prefix
derive_trimmed String.[] = (String.[], "/")
derive_trimmed (String.◌∷◌ c s) =
    let p = before_colon (String.◌∷◌ c s) in (p, uri_of p (behind_colon (String.◌∷◌ c s)))

unfoldable pub derive_static_uri_from_path : String → String × String
unfolding trim_right trim_left derive_trimmed
derive_static_uri_from_path input = derive_trimmed (trim_space input)
