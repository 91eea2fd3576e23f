-- ===== src/Plank/Middleware/CacheControl/Serving.antt =====
-- How often a handler under the cache control middleware serves a request.
use Prim.Native.String.{String}
use transport_go.Prelude.{
  ◌≡◌, refl, ◌||◌, Bool, true, false, Option, none, some, List, [], ◌∷◌, arith, if◌then◌else◌,
  is_some, Option-cases, Bool-cases, inl, inr,
}
use transport_go.Plank.Middleware.CacheControl.{
  CacheControlDirective, to_string, parse_glob_patterns, uri_matches, cache_control_wrapper,
  cache_control_middleware,
}

module _ {G : Type 0} (compile : String → Option G) (matched : G → Bool) where
  -- A pattern that compiles, and one that then matches.
  abbrev pub any_compiles : List String → Bool
  any_compiles [] = false
  any_compiles (p ∷ ps) = is_some (compile p) || any_compiles ps

  abbrev pub pattern_matches : String → Bool
  pattern_matches p = elim (compile p) [ none ↦ false | some glob ↦ matched glob ]

  abbrev pub any_matches : List String → Bool
  any_matches [] = false
  any_matches (p ∷ ps) = pattern_matches p || any_matches ps

  uri_matches-parse_glob_patterns :
      (ps : List String) → uri_matches matched (parse_glob_patterns compile ps) ≡ any_matches ps
  unfolding uri_matches parse_glob_patterns
  uri_matches-parse_glob_patterns [] = refl
  uri_matches-parse_glob_patterns (p ∷ ps) = ground (arith, uri_matches-parse_glob_patterns ps)

  parse_glob_patterns_none :
      (ps : List String) → any_compiles ps ≡ false → parse_glob_patterns compile ps ≡ []
  unfolding parse_glob_patterns
  parse_glob_patterns_none [] n = refl
  parse_glob_patterns_none (p ∷ ps) n = ground (arith, parse_glob_patterns_none ps)

  parse_glob_patterns_some :
      (ps : List String)
      → any_compiles ps ≡ true
      → (g : G) × (gs : List G) × (parse_glob_patterns compile ps ≡ g ∷ gs)
  unfolding parse_glob_patterns
  parse_glob_patterns_some [] y = absurd (ground arith)
  parse_glob_patterns_some (p ∷ ps) y = elim (Option-cases (compile p)) [
    | inl e ↦
        let (g, gs, q) = parse_glob_patterns_some ps (ground (arith, e)) in
        (g, gs, ground (arith, e, q))
    | inr (g, e) ↦ (g, parse_glob_patterns compile ps, ground (arith, e))
  ]

  module _ {W : Type 0} (set_header : String → W → W) (directive : CacheControlDirective) where
    -- What the middleware does, by the patterns: if none compiles, the handler serves the request
    -- and no header is set; if one matches, the header is set and the handler serves the request
    -- once; if none matches, the handler serves it, then the header is set, and the handler serves
    -- it again.
    cache_control_middleware_cases :
        (patterns : List String) (serve : W → W) (w : W)
        → cache_control_middleware compile matched set_header patterns directive serve w ≡ (
            if any_compiles patterns
            then (if any_matches patterns
                then serve (set_header (to_string directive) w)
                else serve (set_header (to_string directive) (serve w)))
            else serve w)
    unfolding cache_control_middleware cache_control_wrapper
    cache_control_middleware_cases patterns serve w = elim (Bool-cases (any_compiles patterns)) [
      | inl y ↦
          let (g, gs, q) = parse_glob_patterns_some patterns y in
          ground (arith, y, q, uri_matches-parse_glob_patterns patterns)
      | inr n ↦ ground (arith, n, parse_glob_patterns_none patterns n)
    ]
