-- ===== src/Stomp/Text.antt =====
-- What the package uses of Go's `strings`: `HasPrefix`, `HasSuffix(s, "/")` and
-- `Split(s, ",")`, on texts as lists of characters; and the slice behind a prefix.
use Prim.Native.Char.{code}
use Prim.Native.String
use Prim.Native.String.{String}
use mathlib.Core.Path.{refl}
use text.Mathlib.TextLemmas.{nil-append, cons-append}
use transport_go.Prelude.{◌≡◌, ◌&&◌, Bool, true, false, List, [], ◌∷◌, ◌==◌, arith, if◌then◌else◌}

-- strings.HasPrefix(s, prefix)
unfoldable pub has_prefix : String → String → Bool
has_prefix s String.[] = true
has_prefix String.[] (String.◌∷◌ p ps) = false
has_prefix (String.◌∷◌ c s) (String.◌∷◌ p ps) = code c == code p && has_prefix s ps

-- s[len(prefix):], for a prefix of s
unfoldable pub after_prefix : String → String → String
after_prefix s String.[] = s
after_prefix String.[] (String.◌∷◌ p ps) = String.[]
after_prefix (String.◌∷◌ c s) (String.◌∷◌ p ps) = after_prefix s ps

-- strings.HasSuffix(s, "/")
unfoldable pub ends_with_slash : String → Bool
ends_with_slash String.[] = false
ends_with_slash (String.◌∷◌ c String.[]) = code c == b'/'
ends_with_slash (String.◌∷◌ c (String.◌∷◌ d s)) = ends_with_slash (String.◌∷◌ d s)

-- s + "/"
unfoldable pub add_slash : String → String
add_slash String.[] = "/"
add_slash (String.◌∷◌ c s) = String.◌∷◌ c (add_slash s)

-- strings.Split(s, ",")
unfoldable pub split_comma : String → List String
split_comma String.[] = String.[] ∷ []
split_comma (String.◌∷◌ c s) = elim (split_comma s) [
  | [] ↦ []
  | w ∷ ws ↦ if code c == b',' then String.[] ∷ (w ∷ ws) else String.◌∷◌ c w ∷ ws
]

pub add_slash-ends_with_slash : (s : String) → ends_with_slash (add_slash s) ≡ true
unfolding add_slash ends_with_slash
add_slash-ends_with_slash String.[] = refl
add_slash-ends_with_slash (String.◌∷◌ c String.[]) = refl
add_slash-ends_with_slash (String.◌∷◌ c (String.◌∷◌ d s)) =
    add_slash-ends_with_slash (String.◌∷◌ d s)

pub has_prefix-append : (p s : String) → has_prefix (String.◌++◌ p s) p ≡ true
unfolding has_prefix
has_prefix-append String.[] s = refl
has_prefix-append (String.◌∷◌ c p) s =
    rw (cons-append c p s) (ground (arith, has_prefix-append p s))

pub after_prefix-append : (p s : String) → after_prefix (String.◌++◌ p s) p ≡ s
unfolding after_prefix
after_prefix-append String.[] s = nil-append s
after_prefix-append (String.◌∷◌ c p) s = rw (cons-append c p s) (after_prefix-append p s)
