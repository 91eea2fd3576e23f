-- ===== src/Plank/Middleware/Examples.antt =====
-- A REST route with two middlewares, and the cache rules of a static folder.
use Prim.Native.String.{String}
use transport_go.Prelude.{
  ℕ, ◌+◌, ◌*◌, ◌≡◌, refl, Bool, Option, none, some, List, [], ◌∷◌, str_eq, if◌then◌else◌,
}
use transport_go.Prelude.GoMap.{lookup}
use transport_go.Plank.Middleware.{
  Handler, no_handler, handler_func, other_handler, MiddlewareFunc, MiddlewareManager,
  build_middleware_chain, extract_uri_verb, remove_middleware,
}
use transport_go.Plank.Middleware.Chain.{chain_of, build_middleware_chain-nested}
use transport_go.Plank.Middleware.Removal.{set_all, remove_middleware-set_all}
use transport_go.Plank.Middleware.CacheControl.{
  CacheControlDirective, new_cache_control_directive, public, private, no_cache, no_store, max_age,
  shared_max_age, max_stale, min_fresh, must_revalidate, proxy_revalidate, immutable, no_transform,
  only_if_cached, to_string, cache_control_middleware,
}

-- Handlers are numbers; each middleware makes a new one.
abbrev wrap : ℕ → MiddlewareFunc ℕ
wrap k (handler_func (some n)) = handler_func (some (n * 10 + k))
wrap k _ = handler_func (some k)

wrap-IsSettable : (k : ℕ) (h : Handler ℕ) → (f : Option ℕ) × (wrap k h ≡ handler_func f)
wrap-IsSettable k no_handler = (some k, refl)
wrap-IsSettable k (handler_func none) = (some k, refl)
wrap-IsSettable k (handler_func (some n)) = (some (n * 10 + k), refl)
wrap-IsSettable k (other_handler f) = (some k, refl)

abbrev chain : List (MiddlewareFunc ℕ)
chain = wrap 1 ∷ wrap 2 ∷ []

abbrev manager : MiddlewareManager ℕ
manager = record {
  endpoint_handler_map = ("/rest-GET", some 7) ∷ [];
  original_handlers_map = [];
  route_handlers = [];
}

build_middleware_chain-nested_example :
    build_middleware_chain chain (handler_func (some 7))
    ≡ some (chain_of chain (handler_func (some 7)))
build_middleware_chain-nested_example = build_middleware_chain-nested chain (handler_func (some 7))

nested_once : build_middleware_chain chain (handler_func (some 7)) ≡ some (handler_func (some 721))
unfolding build_middleware_chain
nested_once = refl

remove_middleware-set_all_example :
    (left stripped : MiddlewareManager ℕ) × (set_all "/rest-GET" (chain ∷ chain ∷ []) manager
      ≡ some (left, none))
    × (remove_middleware "/rest-GET" left ≡ some (stripped, none))
    × ((key : String)
        → lookup key stripped.endpoint_handler_map ≡ lookup key manager.endpoint_handler_map)
    × (lookup "/rest-GET" stripped.route_handlers ≡ some (some 7))
unfolding extract_uri_verb lookup
remove_middleware-set_all_example =
    remove_middleware-set_all "/rest-GET" ("/rest", "GET") (some 7) chain (chain ∷ []) manager refl
      refl refl (wrap-IsSettable 1, (wrap-IsSettable 1, tt))

-- `public`, and each other directive once.
abbrev rules : CacheControlDirective
rules = max_age "60" (public new_cache_control_directive)

abbrev all_rules : CacheControlDirective
all_rules = only_if_cached (
    no_transform (
      immutable (
        proxy_revalidate (
          must_revalidate (
            min_fresh "1"
              (max_stale "2" (shared_max_age "3" (no_store (no_cache (private rules))))))))))

all_rules_text :
    to_string all_rules
    ≡ "public, max-age=60, private, no-cache, no-store, s-maxage=3, max-stale=2, min-fresh=1, must-revalidate, proxy-revalidate, immutable, no-transform, only-if-cached"
unfolding to_string
all_rules_text = refl

-- A pattern is its text, and matches the URI of that text; a response is the list of what was done.
abbrev compile : String → Option String
compile p = if str_eq p "[" then none else some p

abbrev is_logo : String → Bool
is_logo g = str_eq g "/logo"

abbrev set_header : String → List String → List String
set_header text done = text ∷ done

abbrev serve : List String → List String
serve done = "served" ∷ done

served_twice :
    cache_control_middleware compile is_logo set_header ("/icon" ∷ []) rules serve []
    ≡ "served" ∷ "public, max-age=60" ∷ "served" ∷ []
unfolding cache_control_middleware to_string
served_twice = refl
