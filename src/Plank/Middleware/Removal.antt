-- ===== src/Plank/Middleware/Removal.antt =====
-- What `RemoveMiddleware` leaves of the calls of `SetNewMiddleware` before it.
use Prim.Native.String.{String}
use transport_go.Prelude.{
  ◌≡◌, refl, ap, ◌∙◌, false, Option, none, some, List, [], ◌∷◌, arith, str_eq, eq_iff, inl, inr,
  Bool-cases,
}
use transport_go.Prelude.GoSlice.{All}
use transport_go.Prelude.GoMap.{lookup, insert, lookup-insert}
use transport_go.Plank.Middleware.{
  Handler, handler_func, MiddlewareFunc, MiddlewareManager, Outcome, extract_uri_verb,
  middleware_key, back_up, set_at_key, set_new_middleware, remove_at_key, remove_middleware,
}
use transport_go.Plank.Middleware.Chain.{chain_of, nested, build_middleware_chain-nested}
use transport_go.Plank.Middleware.Names.{extract_uri_verb-key_of, middleware_key-extract_uri_verb}

module _ {F : Type 0} where
  -- At least one middleware, the outermost of which makes a `http.HandlerFunc`.
  abbrev pub IsSettable : List (MiddlewareFunc F) → Type 0
  IsSettable [] = ⊥
  IsSettable (first ∷ rest) = (h : Handler F) → (f : Option F) × (first h ≡ handler_func f)

  -- `SetNewMiddleware` with one list after the other, up to an error.
  unfoldable pub set_all : String → List (List (MiddlewareFunc F)) → MiddlewareManager F → Outcome F
  set_all name [] m = some (m, none)
  set_all name (ms ∷ mss) m = elim (set_new_middleware name ms m) [
    | none ↦ none
    | some (left, some e) ↦ some (left, some e)
    | some (left, none) ↦ set_all name mss left
  ]

  abbrev continue : String → List (List (MiddlewareFunc F)) → Outcome F → Outcome F
  continue name mss none = none
  continue name mss (some (left, some e)) = some (left, some e)
  continue name mss (some (left, none)) = set_all name mss left

  abbrev after_set : String → Option F → Option F → MiddlewareManager F → MiddlewareManager F
  after_set name original handler m = record {
    endpoint_handler_map = insert name handler m.endpoint_handler_map;
    original_handlers_map = back_up name original m.original_handlers_map;
    route_handlers = insert name handler m.route_handlers;
  }

  chain_of-IsSettable :
      (ms : List (MiddlewareFunc F)) (original : Handler F)
      → IsSettable ms
      → (f : Option F) × (chain_of ms original ≡ handler_func f)
  chain_of-IsSettable [] original v = absurd v
  chain_of-IsSettable (first ∷ rest) original v = v (nested rest original)

  set_new_middleware_succeeds :
      (name : String) (ms : List (MiddlewareFunc F)) (m : MiddlewareManager F) (original : Option F)
      → middleware_key name ≡ some name
      → IsSettable ms
      → lookup name m.endpoint_handler_map ≡ some original
      → (handler : Option F) × (set_new_middleware name ms m
          ≡ some (after_set name original handler m, none))
  unfolding set_new_middleware set_at_key
  set_new_middleware_succeeds name ms m original k v e =
      let (f, made) = chain_of-IsSettable ms (handler_func original) v in
      (f, ground (arith, k, e, made, build_middleware_chain-nested ms (handler_func original)))

  -- Nothing but the handlers at one key has changed, and the backup at that key is `f`.
  record IsBackedUp (name : String) (f : Option F) (m left : MiddlewareManager F) : Type 0 where
    current : Option F
    found : lookup name left.endpoint_handler_map ≡ some current
    original : lookup name left.original_handlers_map ≡ some f
    others :
        (key : String)
        → str_eq name key ≡ false
        → lookup key left.endpoint_handler_map ≡ lookup key m.endpoint_handler_map

  after_set-IsBackedUp :
      (name : String) (f handler : Option F) (m start : MiddlewareManager F)
      → (v : IsBackedUp name f start m)
      → IsBackedUp name f start (after_set name v.current handler m)
  after_set-IsBackedUp name f handler m start v = record {
    current = handler;
    found =
        ground (arith, eq_iff name name, lookup-insert name name handler m.endpoint_handler_map);
    original = ground (arith, v.original);
    others = λ key d. ground (
      arith,
      d,
      eq_iff name key,
      lookup-insert name key handler m.endpoint_handler_map,
      v.others key d,
    );
  }

  first-IsBackedUp :
      (name : String) (f handler : Option F) (m : MiddlewareManager F)
      → lookup name m.original_handlers_map ≡ none
      → IsBackedUp name f m (after_set name f handler m)
  first-IsBackedUp name f handler m n = record {
    current = handler;
    found =
        ground (arith, eq_iff name name, lookup-insert name name handler m.endpoint_handler_map);
    original =
        ground (arith, n, eq_iff name name, lookup-insert name name f m.original_handlers_map);
    others = λ key d.
        ground (arith, d, eq_iff name key, lookup-insert name key handler m.endpoint_handler_map);
  }

  set_all-IsBackedUp :
      (name : String) (f : Option F) (mss : List (List (MiddlewareFunc F)))
      (m start : MiddlewareManager F)
      → middleware_key name ≡ some name
      → All IsSettable mss
      → IsBackedUp name f start m
      → (left : MiddlewareManager F) × (set_all name mss m ≡ some (left, none))
        × IsBackedUp name f start left
  unfolding set_all
  set_all-IsBackedUp name f [] m start k _ v = (m, refl, v)
  set_all-IsBackedUp name f (ms ∷ mss) m start k all v =
      let (handler, e) = set_new_middleware_succeeds name ms m v.current k all.0 v.found in
      let next = after_set name v.current handler m in
      let (left, done, kept) =
        set_all-IsBackedUp name f mss next start k all.1
          (after_set-IsBackedUp name f handler m start v) in
      (left, ap (continue name mss) e ∙ done, kept)

  remove_middleware_backed_up :
      (name : String) (parts : String × String) (f : Option F) (m left : MiddlewareManager F)
      → extract_uri_verb name ≡ some parts
      → lookup name m.endpoint_handler_map ≡ some f
      → IsBackedUp name f m left
      → (stripped : MiddlewareManager F) × (remove_middleware name left ≡ some (stripped, none))
        × ((key : String)
            → lookup key stripped.endpoint_handler_map ≡ lookup key m.endpoint_handler_map)
        × (lookup name stripped.route_handlers ≡ some f)
  unfolding remove_middleware remove_at_key
  remove_middleware_backed_up name parts f m left e there v =
      let key_is_name = extract_uri_verb-key_of name parts e in
      (
        record left {
          endpoint_handler_map = insert name f left.endpoint_handler_map;
          route_handlers = insert name f left.route_handlers;
        },
        ground (arith, e, key_is_name, v.found, v.original),
        (λ key. elim (Bool-cases (str_eq name key)) [
          | inl same ↦ ground (
            arith,
            same,
            there,
            eq_iff name key,
            lookup-insert name key f left.endpoint_handler_map,
          )
          | inr d ↦ ground (
            arith,
            d,
            eq_iff name key,
            lookup-insert name key f left.endpoint_handler_map,
            v.others key d,
          )
        ]),
        ground (arith, eq_iff name name, lookup-insert name name f left.route_handlers),
      )

  -- A route with a verb in its name, whose handler has no middleware so far: after one or more calls
  -- of `SetNewMiddleware`, each with at least one middleware, the first of which makes a
  -- `http.HandlerFunc`, all succeed and one `RemoveMiddleware` puts the original handler back, on
  -- the route as in the map, where every other handler is as it was.
  pub remove_middleware-set_all :
      (name : String) (parts : String × String) (f : Option F) (first : List (MiddlewareFunc F))
      (mss : List (List (MiddlewareFunc F))) (m : MiddlewareManager F)
      → extract_uri_verb name ≡ some parts
      → lookup name m.endpoint_handler_map ≡ some f
      → lookup name m.original_handlers_map ≡ none
      → All IsSettable (first ∷ mss)
      → (left stripped : MiddlewareManager F) × (set_all name (first ∷ mss) m ≡ some (left, none))
        × (remove_middleware name left ≡ some (stripped, none))
        × ((key : String)
            → lookup key stripped.endpoint_handler_map ≡ lookup key m.endpoint_handler_map)
        × (lookup name stripped.route_handlers ≡ some f)
  unfolding set_all
  remove_middleware-set_all name parts f first mss m e there fresh all =
      let k = middleware_key-extract_uri_verb name parts e in
      let (handler, s) = set_new_middleware_succeeds name first m f k all.0 there in
      let (left, done, v) =
        set_all-IsBackedUp name f mss (after_set name f handler m) m k all.1
          (first-IsBackedUp name f handler m fresh) in
      let (stripped, removed, same, route) =
        remove_middleware_backed_up name parts f m left e there v in
      (left, stripped, ap (continue name mss) s ∙ done, removed, same, route)
