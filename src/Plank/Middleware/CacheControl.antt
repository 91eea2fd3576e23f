-- ===== src/Plank/Middleware/CacheControl.antt =====
-- plank/pkg/middleware/cache_control.go. A compiled pattern is of any type `G`, a response writer
-- of any type `W`; what a handler does to it for a request is a function.
pub mod Serving
use Prim.Native.String
use Prim.Native.String.{String}
use transport_go.Prelude.{
  ℕ, Bool, true, false, Option, none, some, List, [], ◌∷◌, ◌++◌, ◌==◌, if◌then◌else◌,
}
use transport_go.Prelude.GoSlice.{length}

pub record CacheControlDirective : Type 0 where
  pub directives : List String

abbrev pub new_cache_control_directive : CacheControlDirective
new_cache_control_directive = record { directives = [] }

abbrev pub add : String → CacheControlDirective → CacheControlDirective
add text c = record { directives = c.directives ++ text ∷ [] }

abbrev pub public : CacheControlDirective → CacheControlDirective
public c = add "public" c

abbrev pub private : CacheControlDirective → CacheControlDirective
private c = add "private" c

abbrev pub no_cache : CacheControlDirective → CacheControlDirective
no_cache c = add "no-cache" c

abbrev pub no_store : CacheControlDirective → CacheControlDirective
no_store c = add "no-store" c

-- `seconds` is the text of the duration's whole seconds.
abbrev pub max_age : String → CacheControlDirective → CacheControlDirective
max_age seconds c = add (String.◌++◌ "max-age=" seconds) c

abbrev pub shared_max_age : String → CacheControlDirective → CacheControlDirective
shared_max_age seconds c = add (String.◌++◌ "s-maxage=" seconds) c

abbrev pub max_stale : String → CacheControlDirective → CacheControlDirective
max_stale seconds c = add (String.◌++◌ "max-stale=" seconds) c

abbrev pub min_fresh : String → CacheControlDirective → CacheControlDirective
min_fresh seconds c = add (String.◌++◌ "min-fresh=" seconds) c

abbrev pub must_revalidate : CacheControlDirective → CacheControlDirective
must_revalidate c = add "must-revalidate" c

abbrev pub proxy_revalidate : CacheControlDirective → CacheControlDirective
proxy_revalidate c = add "proxy-revalidate" c

abbrev pub immutable : CacheControlDirective → CacheControlDirective
immutable c = add "immutable" c

abbrev pub no_transform : CacheControlDirective → CacheControlDirective
no_transform c = add "no-transform" c

abbrev pub only_if_cached : CacheControlDirective → CacheControlDirective
only_if_cached c = add "only-if-cached" c

-- strings.Join(texts, ", ")
unfoldable pub join_comma : List String → String
join_comma [] = String.[]
join_comma (text ∷ []) = text
join_comma (text ∷ next ∷ texts) = String.◌++◌ text (String.◌++◌ ", " (join_comma (next ∷ texts)))

unfoldable pub to_string : CacheControlDirective → String
unfolding join_comma
to_string c = join_comma c.directives

module _ {G : Type 0} where
  -- The patterns that compile; the others are left out.
  unfoldable pub parse_glob_patterns : (String → Option G) → List String → List G
  parse_glob_patterns compile [] = []
  parse_glob_patterns compile (pattern ∷ patterns) = elim (compile pattern) [
    | none ↦ parse_glob_patterns compile patterns
    | some glob ↦ glob ∷ parse_glob_patterns compile patterns
  ]

  -- The loop with its break.
  unfoldable pub uri_matches : (G → Bool) → List G → Bool
  uri_matches matched [] = false
  uri_matches matched (glob ∷ globs) =
      let rest = uri_matches matched globs in if matched glob then true else rest

  -- `matched` is the match of the request's URI, `set_header` writes `Cache-Control`.
  unfoldable pub cache_control_wrapper :
      {W : Type 0}
      → (G → Bool)
      → (String → W → W)
      → (W → W)
      → List G
      → CacheControlDirective
      → W
      → W
  unfolding uri_matches to_string
  cache_control_wrapper matched set_header serve globs directive w =
      if length globs == 0
      then serve w
      else (let begun = if uri_matches matched globs then w else serve w in
          serve (set_header (to_string directive) begun))

  unfoldable pub cache_control_middleware :
      {W : Type 0}
      → (String → Option G)
      → (G → Bool)
      → (String → W → W)
      → List String
      → CacheControlDirective
      → (W → W)
      → W
      → W
  unfolding parse_glob_patterns cache_control_wrapper
  cache_control_middleware compile matched set_header patterns directive serve w =
      cache_control_wrapper matched set_header serve (parse_glob_patterns compile patterns)
        directive w
