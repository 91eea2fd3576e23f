-- ===== src/Plank/Middleware/Names.antt =====
-- The key of a route is its name.
use Prim.Native.Char.{Char, code}
use Prim.Native.String.{String}
use text.Mathlib.TextLemmas.{nil-append, cons-append}
use text.Mathlib.TextEquality.{Char-path}
use transport_go.Prelude.{
  ◌≡◌, refl, ap, sym, ◌∙◌, Bool, Option, none, some, ◌==◌, arith, Option-cases, Bool-cases,
  if◌then◌else◌, inl, inr,
}
use transport_go.Plank.Middleware.{is_prefix_route, extract_uri_verb, dash, key_of, middleware_key}

some_equal : {A : Type 0} {a b : A} → some a ≡ some b → a ≡ b
some_equal {a = a} p = ap (λ o. elim o [ none ↦ a | some v ↦ v ]) p

-- One step of the search for the last dash.
abbrev in_front : Char → String → Option (String × String) → Option (String × String)
in_front c s (some (uri, verb)) = some (String.◌∷◌ c uri, verb)
in_front c s none = if code c == code dash then some (String.[], s) else none

at_dash :
    (c : Char) (s : String) (parts : String × String)
    → in_front c s none ≡ some parts
    → (c ≡ dash) × ((String.[], s) ≡ parts)
at_dash c s parts e = elim (Bool-cases (code c == code dash)) [
  | inl y ↦
      let same : code c ≡ code dash = ground (arith, y) in
      (
        Char-path c dash same,
        some_equal (sym (ap (λ b. if b then some (String.[], s) else none) y) ∙ e),
      )
  | inr n ↦ ground (arith, n)
]

-- Both parts, joined again, are the name.
pub extract_uri_verb-key_of :
    (name : String) (parts : String × String)
    → extract_uri_verb name ≡ some parts
    → key_of parts ≡ name
unfolding extract_uri_verb
extract_uri_verb-key_of String.[] parts e = ground arith
extract_uri_verb-key_of (String.◌∷◌ c s) parts e = elim (Option-cases (extract_uri_verb s)) [
  | inl n ↦
      let (is_dash, split) = at_dash c s parts (sym (ap (in_front c s) n) ∙ e) in
      sym (ap (λ p. key_of p) split)
      ∙ nil-append (String.◌∷◌ dash s)
      ∙ ap (λ d. String.◌∷◌ d s) (sym is_dash)
  | inr (below, y) ↦
      sym (ap (λ p. key_of p) (some_equal (sym (ap (in_front c s) y) ∙ e)))
      ∙ cons-append c below.0 (String.◌∷◌ dash below.1)
      ∙ ap (λ t. String.◌∷◌ c t) (extract_uri_verb-key_of s below y)
]

pub middleware_key-name : (name key : String) → middleware_key name ≡ some key → key ≡ name
unfolding middleware_key
middleware_key-name name key e = elim (Option-cases (is_prefix_route name)) [
  | inl n ↦ ground (arith, n)
  | inr (star, y) ↦ elim (Option-cases (extract_uri_verb name)) [
    | inl n ↦ ground (arith, y, n)
    | inr (parts, q) ↦ ground (arith, y, q, extract_uri_verb-key_of name parts q)
  ]
]

is_prefix_route_cons :
    (c : Char) (s : String) → (star : Bool) × (is_prefix_route (String.◌∷◌ c s) ≡ some star)
unfolding is_prefix_route
is_prefix_route_cons c String.[] = (code c == b'*', refl)
is_prefix_route_cons c (String.◌∷◌ d s) = is_prefix_route_cons d s

pub middleware_key-extract_uri_verb :
    (name : String) (parts : String × String)
    → extract_uri_verb name ≡ some parts
    → middleware_key name ≡ some name
unfolding middleware_key extract_uri_verb
middleware_key-extract_uri_verb String.[] parts e = ground arith
middleware_key-extract_uri_verb (String.◌∷◌ c s) parts e =
    let name = String.◌∷◌ c s in
    let (star, y) = is_prefix_route_cons c s in
    ground (arith, y, e, extract_uri_verb-key_of name parts e)
