-- ===== src/Plank/Server/History.antt =====
-- The calls of the server and the requests of the lifecycle manager in any order, between which
-- channels of the bus come and go. The handler of a request runs in a goroutine of its own; its steps
-- stand here by themselves too, so that those of several handlers can alternate: it clears the
-- bridges of a channel, loads the router that this gave, sets each bridge and stores that the service
-- is ready.
use Prim.Native.String.{String}
use transport_go.Prelude.{
  ◌≡◌, arith, Bool, true, false, Option, none, some, List, [], ◌∷◌, Option-cases, inl, inr, ◌⊎◌,
  subst, ap, sym, ◌∙◌, Bool-cases, if◌then◌else◌,
}
use transport_go.Prelude.GoMap.{GoMap, lookup, insert, delete}
use transport_go.Plank.Server.Routes.{Route, Template, path, path_prefix}
use transport_go.Plank.Middleware.{key_of}
use transport_go.Plank.Server.{
  RestBridgeConfig, SetupRestBridgeRequest, PlatformServer, add_bridge, bridge_key, prefix_key,
  permitted_methods, set_http_channel_bridge, set_http_path_prefix_channel_bridge, set_bridges,
  clear_overridden, clear_http_channel_bridges_for_service, load_global_http_handler, await_service,
  set_up_rest_bridge, ReadyChannel, received, is_ready, get_route_by_uri_and_method, managed_router,
  make_endpoints,
}
use transport_go.Plank.Server.Override.{open_message_bridge-same, add_bridge-cases}
use transport_go.Plank.Server.Bridged.{IsBridged, add_bridge-IsBridged, clear-IsBridged}

-- `request` is a handler that runs alone; `loads` may have any router.
pub data ServerEvent (B F : Type 0) : Type 0 where
  bridge prefix_bridge : RestBridgeConfig B → ServerEvent B F
  request : Option (SetupRestBridgeRequest B) → ServerEvent B F
  clears : String → ServerEvent B F
  loads : List (Route B F) → ServerEvent B F
  readies : String → Bool → ServerEvent B F
  channel_made channel_gone : String → ServerEvent B F

module _ {B F M : Type 0} (hooks : String → Option ReadyChannel) where
  unfoldable pub step_server :
      ServerEvent B F → PlatformServer B F M → Option (PlatformServer B F M)
  unfolding set_http_channel_bridge set_http_path_prefix_channel_bridge set_up_rest_bridge
      clear_http_channel_bridges_for_service load_global_http_handler
  step_server (bridge config) s = set_http_channel_bridge config s
  step_server (prefix_bridge config) s = set_http_path_prefix_channel_bridge config s
  step_server (request message) s = set_up_rest_bridge hooks message s
  step_server (clears name) s = some (clear_http_channel_bridges_for_service name s).1
  step_server (loads router) s = some (load_global_http_handler (some router) s)
  step_server (readies name ready) s =
      some (record s { service_ready_store = insert name (some ready) s.service_ready_store })
  step_server (channel_made name) s =
      some (record s { bus_channels = insert name tt s.bus_channels })
  step_server (channel_gone name) s = some (record s { bus_channels = delete name s.bus_channels })

  unfoldable pub run : List (ServerEvent B F) → PlatformServer B F M → Option (PlatformServer B F M)
  unfolding step_server
  run [] s = some s
  run (event ∷ events) s = elim (step_server event s) [ none ↦ none | some t ↦ run events t ]

await_service-cases :
    {B F M : Type 0} (hooks : String → Option ReadyChannel) (name : String)
    (s t : PlatformServer B F M)
    → await_service hooks name s ≡ some t
    → (t ≡ s) ⊎ ((m : GoMap (Option Bool)) × (t ≡ record s { service_ready_store = m }))
unfolding await_service
await_service-cases hooks name s t e =
    elim (Option-cases (is_ready (lookup name s.service_ready_store))) [
      | inl n ↦ absurd (ground (arith, n, e))
      | inr (true, y) ↦ inl (ground (arith, y, e))
      | inr (false, y) ↦ elim (Option-cases (hooks name)) [
        | inl n ↦ absurd (ground (arith, y, n, e))
        | inr (ch, q) ↦ elim (Option-cases (received ch)) [
          | inl w ↦ inl (ground (arith, y, q, w, e))
          | inr (b, w) ↦ elim (Bool-cases ch.is_closed) [
            | inl c ↦ absurd (ground (arith, y, q, w, c, e))
            | inr c ↦
                inr (insert name (some b) s.service_ready_store, ground (arith, y, q, w, c, e))
          ]
        ]
      ]
    ]

module _ {B F M : Type 0} (P : PlatformServer B F M → Type 0) where
  -- What no bridge changes is not changed by several.
  pub set_bridges-keeps :
      ((key : String) (template : Template) (methods : Option (List String))
          (config : RestBridgeConfig B) (s t : PlatformServer B F M)
        → add_bridge key template methods config s ≡ some t
        → P s
        → P t)
      → (configs : List (RestBridgeConfig B)) (s t : PlatformServer B F M)
      → set_bridges configs s ≡ some t
      → P s
      → P t
  unfolding set_bridges set_http_channel_bridge
  set_bridges-keeps keeps [] s t e before =
      subst (λ o. elim o [ none ↦ P s | some v ↦ P v ]) e before
  set_bridges-keeps keeps (config ∷ configs) s t e before =
      elim (Option-cases (set_http_channel_bridge config s)) [
        | inl n ↦ absurd (ground (arith, n, e))
        | inr (u, y) ↦ set_bridges-keeps keeps configs u t (ground (arith, y, e)) (
            keeps (bridge_key config) (path config.uri) (some (permitted_methods config)) config s u
              y before)
      ]

  await_service-keeps :
      ((s : PlatformServer B F M) (m : GoMap (Option Bool))
        → P s
        → P (record s { service_ready_store = m }))
      → (hooks : String → Option ReadyChannel) (name : String) (s t : PlatformServer B F M)
      → await_service hooks name s ≡ some t
      → P s
      → P t
  unfolding await_service
  await_service-keeps keeps hooks name s t e before = elim (await_service-cases hooks name s t e) [
    | inl same ↦ subst P (sym same) before
    | inr (m, same) ↦ subst P (sym same) (keeps s m before)
  ]

  clear_overridden-keeps :
      ((name : String) (s : PlatformServer B F M)
        → P s
        → P (clear_http_channel_bridges_for_service name s).1)
      → ((router : List (Route B F)) (s : PlatformServer B F M)
          → P s
          → P (load_global_http_handler (some router) s))
      → (message : SetupRestBridgeRequest B) (s : PlatformServer B F M) → P s
      → P (clear_overridden message s)
  clear_overridden-keeps clearing loading message s before =
      let (h, t) = clear_http_channel_bridges_for_service message.service_channel s in
      elim (Bool-cases message.override) [
        | inl y ↦
            subst (λ b. P (if b then load_global_http_handler (some h) t else s)) (sym y)
              (loading h t (clearing message.service_channel s before))
        | inr n ↦
            subst (λ b. P (if b then load_global_http_handler (some h) t else s)) (sym n) before
      ]

  pub run-keeps :
      ((key : String) (template : Template) (methods : Option (List String))
          (config : RestBridgeConfig B) (s t : PlatformServer B F M)
        → add_bridge key template methods config s ≡ some t
        → P s
        → P t)
      → ((name : String) (s : PlatformServer B F M)
          → P s
          → P (clear_http_channel_bridges_for_service name s).1)
      → ((router : List (Route B F)) (s : PlatformServer B F M)
          → P s
          → P (load_global_http_handler (some router) s))
      → ((s : PlatformServer B F M) (m : GoMap (Option Bool))
          → P s
          → P (record s { service_ready_store = m }))
      → ((s : PlatformServer B F M) (m : GoMap {0} Unit) → P s → P (record s { bus_channels = m }))
      → (hooks : String → Option ReadyChannel) (events : List (ServerEvent B F))
        (s t : PlatformServer B F M)
      → run hooks events s ≡ some t
      → P s
      → P t
  unfolding run step_server set_http_channel_bridge set_http_path_prefix_channel_bridge
      set_up_rest_bridge
  run-keeps adds clearing loading storing moves hooks [] s t e before =
      subst (λ o. elim o [ none ↦ P s | some v ↦ P v ]) e before
  run-keeps adds clearing loading storing moves hooks (bridge config ∷ events) s t e before =
      elim (Option-cases (set_http_channel_bridge config s)) [
        | inl n ↦ absurd (ground (arith, n, e))
        | inr (u, y) ↦
            run-keeps adds clearing loading storing moves hooks events u t (ground (arith, y, e)) (
              adds (bridge_key config) (path config.uri) (some (permitted_methods config)) config s
                u y before)
      ]
  run-keeps adds clearing loading storing moves hooks (prefix_bridge config ∷ events) s t e before =
      elim (Option-cases (set_http_path_prefix_channel_bridge config s)) [
        | inl n ↦ absurd (ground (arith, n, e))
        | inr (u, y) ↦
            run-keeps adds clearing loading storing moves hooks events u t (ground (arith, y, e))
              (adds (prefix_key config) (path_prefix config.uri) none config s u y before)
      ]
  run-keeps adds clearing loading storing moves hooks (request none ∷ events) s t e before =
      absurd (ground (arith, e))
  run-keeps adds clearing loading storing moves hooks (request (some message) ∷ events) s t e
        before =
      elim (Option-cases (set_bridges message.config (clear_overridden message s))) [
        | inl n ↦ absurd (ground (arith, n, e))
        | inr (u, y) ↦ elim (Option-cases (await_service hooks message.service_channel u)) [
          | inl n ↦ absurd (ground (arith, y, n, e))
          | inr (v, q) ↦
              run-keeps adds clearing loading storing moves hooks events v t
                (ground (arith, y, q, e))
                (await_service-keeps storing hooks message.service_channel u v q (
                  set_bridges-keeps adds message.config (clear_overridden message s) u y
                    (clear_overridden-keeps clearing loading message s before)))
        ]
      ]
  run-keeps adds clearing loading storing moves hooks (clears name ∷ events) s t e before =
      run-keeps adds clearing loading storing moves hooks events
        (clear_http_channel_bridges_for_service name s).1 t e (clearing name s before)
  run-keeps adds clearing loading storing moves hooks (loads router ∷ events) s t e before =
      run-keeps adds clearing loading storing moves hooks events
        (load_global_http_handler (some router) s) t e (loading router s before)
  run-keeps adds clearing loading storing moves hooks (readies name ready ∷ events) s t e before =
      run-keeps adds clearing loading storing moves hooks events
        (record s { service_ready_store = insert name (some ready) s.service_ready_store }) t e
        (storing s (insert name (some ready) s.service_ready_store) before)
  run-keeps adds clearing loading storing moves hooks (channel_made name ∷ events) s t e before =
      run-keeps adds clearing loading storing moves hooks events
        (record s { bus_channels = insert name tt s.bus_channels }) t e
        (moves s (insert name tt s.bus_channels) before)
  run-keeps adds clearing loading storing moves hooks (channel_gone name ∷ events) s t e before =
      run-keeps adds clearing loading storing moves hooks events
        (record s { bus_channels = delete name s.bus_channels }) t e
        (moves s (delete name s.bus_channels) before)

module _ {B F M : Type 0} where
  -- Over any history without a panic the tables of the server agree if they did before.
  pub run-IsBridged :
      (hooks : String → Option ReadyChannel) (events : List (ServerEvent B F))
      (s t : PlatformServer B F M)
      → IsBridged s
      → run hooks events s ≡ some t
      → IsBridged t
  unfolding load_global_http_handler
  run-IsBridged hooks events s t before e =
      run-keeps (λ u. IsBridged u) add_bridge-IsBridged clear-IsBridged
        (λ router u here. record { listed = here.listed; opened = here.opened })
        (λ u m here. record { listed = here.listed; opened = here.opened })
        (λ u m here. record { listed = here.listed; opened = here.opened }) hooks events s t e
        before

  add_bridge-old_router :
      (routes : List (Route B F)) (key : String) (template : Template)
      (methods : Option (List String)) (config : RestBridgeConfig B) (s t : PlatformServer B F M)
      → add_bridge key template methods config s ≡ some t
      → s.old_router ≡ some routes
      → t.old_router ≡ some routes
  add_bridge-old_router routes key template methods config s t e before =
      elim (add_bridge-cases key template methods config s t e) [
        | inl (y, same) ↦ ap (λ u. u.old_router) same ∙ before
        | inr (n, u, q, same) ↦
            let kept =
              open_message_bridge-same config.service_channel
                (make_endpoints config.service_channel s) u q in
            ground (arith, same, kept, before)
      ]

  run-old_router :
      (routes : List (Route B F)) (hooks : String → Option ReadyChannel)
      (events : List (ServerEvent B F)) (s t : PlatformServer B F M)
      → run hooks events s ≡ some t
      → s.old_router ≡ some routes
      → t.old_router ≡ some routes
  unfolding clear_http_channel_bridges_for_service load_global_http_handler
  run-old_router routes hooks events s t e before =
      run-keeps (λ u. u.old_router ≡ some routes) (add_bridge-old_router routes)
        (λ name u here. here) (λ router u here. ground (arith, here)) (λ u m here. here)
        (λ u m here. here) hooks events s t e before

  set_up_rest_bridge-old_router :
      (routes : List (Route B F)) (hooks : String → Option ReadyChannel)
      (message : SetupRestBridgeRequest B) (s t : PlatformServer B F M)
      → set_up_rest_bridge hooks (some message) s ≡ some t
      → (clear_overridden message s).old_router ≡ some routes
      → t.old_router ≡ some routes
  unfolding set_up_rest_bridge
  set_up_rest_bridge-old_router routes hooks message s t e before =
      let cleared = clear_overridden message s in
      elim (Option-cases (set_bridges message.config cleared)) [
        | inl n ↦ absurd (ground (arith, n, e))
        | inr (u, y) ↦
            await_service-keeps (λ v. v.old_router ≡ some routes) (λ v m here. here) hooks
              message.service_channel u t (ground (arith, y, e))
              (set_bridges-keeps (λ v. v.old_router ≡ some routes) (add_bridge-old_router routes)
                message.config cleared u y before)
      ]

  -- After a request that overrides, in any history without a panic, GetRouteByUriAndMethod of the
  -- middleware manager answers what it answered before the request, whatever routes the server has.
  pub run-get_route_by_uri_and_method :
      (get : String → List (Route B F) → Option (Route B F)) (uri method : String)
      (hooks : String → Option ReadyChannel) (message : SetupRestBridgeRequest B)
      (events : List (ServerEvent B F)) (s t u : PlatformServer B F M)
      → message.override ≡ true
      → set_up_rest_bridge hooks (some message) s ≡ some t
      → run hooks events t ≡ some u
      → get_route_by_uri_and_method get uri method u ≡ get_route_by_uri_and_method get uri method s
  unfolding clear_http_channel_bridges_for_service load_global_http_handler
  run-get_route_by_uri_and_method get uri method hooks message events s t u over e later =
      let first : (clear_overridden message s).old_router ≡ some (managed_router s) =
        ground (arith, over) in
      let at_once = set_up_rest_bridge-old_router (managed_router s) hooks message s t e first in
      let last = run-old_router (managed_router s) hooks events t u later at_once in
      ap (λ o. get (key_of (uri, method)) (elim o [ none ↦ u.router | some routes ↦ routes ])) last
