-- ===== src/Plank/Utils.antt =====
-- plank/utils: array.go and bytes.go; a `Value` is one of `interface{}` that is not nil.
pub mod Url
pub mod Paths
mod Examples
use Prim.Native.Char.{code}
use Prim.Native.String.{String}
use transport_go.Prelude.{
  ◌+◌, Bool, true, false, Option, none, some, List, [], ◌∷◌, ◌&&◌, ◌||◌, ◌==◌, leb, str_eq,
  if◌then◌else◌,
}
use transport_go.Stomp.Text.{has_prefix}

-- ContainsString
unfoldable pub contains_string : String → List String → Bool
contains_string text [] = false
contains_string text (first ∷ rest) =
    let below = contains_string text rest in if str_eq first text then true else below

-- strings.Contains(s, part)
unfoldable pub contains_text : String → String → Bool
unfolding has_prefix
contains_text part String.[] = has_prefix String.[] part
contains_text part (String.◌∷◌ c s) = has_prefix (String.◌∷◌ c s) part || contains_text part s

-- strings.ToLower(s) == expected, for an expected text without i, k and letters beyond ASCII
unfoldable pub lower_is : String → String → Bool
lower_is String.[] String.[] = true
lower_is String.[] (String.◌∷◌ e expected) = false
lower_is (String.◌∷◌ c s) String.[] = false
lower_is (String.◌∷◌ c s) (String.◌∷◌ e expected) =
    (if leb b'A' (code c) && leb (code c) b'Z' then code c + 32 else code c) == code e
    && lower_is s expected

pub data Value (V : Type 0) : Type 0 where
  byte_slice text : String → Value V
  another : V → Value V

-- The bytes, and whether there is no error; `none` is the panic of the type assertion. `marshal` is
-- `json.Marshal`, `none` its error; a nil `i` is `none`.
unfoldable pub convert_interface_to_byte_array :
    {V : Type 0}
    → (Option (Value V) → Option String)
    → String
    → Option (Value V)
    → Option (String × Bool)
unfolding contains_text
convert_interface_to_byte_array marshal mime_type i =
    if contains_text "json" mime_type
    then (elim (marshal i) [ none ↦ some ("", false) | some results ↦ some (results, true) ])
    else (elim i [
      | some (byte_slice results) ↦ some (results, true)
      | some (text results) ↦ some (results, true)
      | _ ↦ none
    ])
