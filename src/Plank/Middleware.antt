-- ===== src/Plank/Middleware.antt =====
-- plank/pkg/middleware/middleware_manager.go. A function that serves a request is a value of any
-- type `F`, a nil `http.HandlerFunc` is `none`; routes are known by their names. `mu` makes each
-- method one step; `none` as the outcome of a method is a panic.
pub mod Chain
pub mod Names
pub mod Removal
pub mod CacheControl
mod Examples
use Prim.Native.Char.{Char, char, code}
use Prim.Native.String
use Prim.Native.String.{String}
use transport_go.Prelude.{
  ℕ, zero, suc, ◌-◌, Bool, true, false, Option, none, some, List, [], ◌∷◌, ◌==◌, if◌then◌else◌,
  is_some,
}
use transport_go.Prelude.GoSlice.{length, get_elem?}
use transport_go.Prelude.GoMap.{GoMap, lookup, insert, contains}

-- A value of `http.Handler`: nil, a `http.HandlerFunc`, or one of another type.
pub data Handler (F : Type 0) : Type 0 where
  no_handler : Handler F
  handler_func : Option F → Handler F
  other_handler : F → Handler F

abbrev pub MiddlewareFunc : Type 0 → Type 0
MiddlewareFunc F = Handler F → Handler F

-- `route_handlers` are the handlers that were set on the router's routes.
pub record MiddlewareManager (F : Type 0) : Type 0 where
  pub endpoint_handler_map : GoMap (Option F)
  pub original_handlers_map : GoMap (Option F)
  pub route_handlers : GoMap (Option F)

pub data MiddlewareError : Type 0 where
  no_endpoint : String → MiddlewareError

abbrev pub Outcome : Type 0 → Type 0
Outcome F = Option (MiddlewareManager F × Option MiddlewareError)

-- name[len(name)-1] == '*'; `none` is the panic on the empty text.
unfoldable pub is_prefix_route : String → Option Bool
is_prefix_route String.[] = none
is_prefix_route (String.◌∷◌ c String.[]) = some (code c == b'*')
is_prefix_route (String.◌∷◌ c (String.◌∷◌ d s)) = is_prefix_route (String.◌∷◌ d s)

abbrev pub dash : Char
dash = char 45 tt

-- The parts before and behind the last '-'; without one the slice expression panics.
unfoldable pub extract_uri_verb : String → Option (String × String)
extract_uri_verb String.[] = none
extract_uri_verb (String.◌∷◌ c s) = elim (extract_uri_verb s) [
  | some (uri, verb) ↦ some (String.◌∷◌ c uri, verb)
  | none ↦ if code c == code dash then some (String.[], s) else none
]

-- uri + "-" + method
abbrev pub key_of : String × String → String
key_of parts = String.◌++◌ parts.0 (String.◌∷◌ dash parts.1)

-- The key of `SetNewMiddleware`.
unfoldable pub middleware_key : String → Option String
unfolding is_prefix_route extract_uri_verb
middleware_key name = elim (is_prefix_route name) [
  | none ↦ none
  | some true ↦ some name
  | some false ↦ elim (extract_uri_verb name) [ none ↦ none | some parts ↦ some (key_of parts) ]
]

module _ {F : Type 0} where
  -- The loop, with `k` the index plus one, so that index 0 is the last round.
  unfoldable pub chain_loop :
      List (MiddlewareFunc F) → Handler F → ℕ → Handler F → Option (Handler F)
  chain_loop handlers original zero final = some final
  chain_loop handlers original (suc idx) final =
      let curr = if idx == length handlers - 1 then original else final in
      elim (get_elem? handlers idx) [
        | none ↦ none
        | some middleware ↦ chain_loop handlers original idx (middleware curr)
      ]

  unfoldable pub build_middleware_chain : List (MiddlewareFunc F) → Handler F → Option (Handler F)
  unfolding chain_loop
  build_middleware_chain handlers original =
      chain_loop handlers original (length handlers) no_handler

  -- The type assertion `.(http.HandlerFunc)`.
  abbrev pub assert_handler_func : Handler F → Option (Option F)
  assert_handler_func (handler_func f) = some f
  assert_handler_func _ = none

  -- The backup of the handler that has no middleware.
  abbrev pub back_up : String → Option F → GoMap (Option F) → GoMap (Option F)
  back_up key original m = if contains key m then m else insert key original m

  -- The part of `SetNewMiddleware` behind the key.
  unfoldable pub set_at_key :
      String → String → List (MiddlewareFunc F) → MiddlewareManager F → Outcome F
  unfolding build_middleware_chain
  set_at_key key name middleware m = elim (lookup key m.endpoint_handler_map) [
    | none ↦ some (m, some (no_endpoint key))
    | some original ↦ elim (build_middleware_chain middleware (handler_func original)) [
      | none ↦ none
      | some chain ↦ elim (assert_handler_func chain) [
        | none ↦ none
        | some handler ↦ some (
          record {
            endpoint_handler_map = insert key handler m.endpoint_handler_map;
            original_handlers_map = back_up key original m.original_handlers_map;
            route_handlers = insert name handler m.route_handlers;
          },
          none,
        )
      ]
    ]
  ]

  unfoldable pub set_new_middleware :
      String → List (MiddlewareFunc F) → MiddlewareManager F → Outcome F
  unfolding middleware_key set_at_key
  set_new_middleware name middleware m = elim (middleware_key name) [
    | none ↦ none
    | some key ↦ set_at_key key name middleware m
  ]

  -- m[key] of a map of functions: nil without the key.
  abbrev pub value_at : String → GoMap (Option F) → Option F
  value_at key m = elim (lookup key m) [ none ↦ none | some f ↦ f ]

  unfoldable pub remove_at_key : String → String → MiddlewareManager F → Outcome F
  remove_at_key key name m =
      if contains key m.endpoint_handler_map
      then (let original = value_at key m.original_handlers_map in
          some (
            record m {
              endpoint_handler_map = insert key original m.endpoint_handler_map;
              route_handlers = insert name original m.route_handlers;
            },
            none,
          ))
      else some (m, some (no_endpoint key))

  unfoldable pub remove_middleware : String → MiddlewareManager F → Outcome F
  unfolding extract_uri_verb remove_at_key
  remove_middleware name m = elim (extract_uri_verb name) [
    | none ↦ none
    | some parts ↦ remove_at_key (key_of parts) name m
  ]
