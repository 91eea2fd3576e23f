-- ===== src/Plank/Server.antt =====
-- plank/pkg/server: server.go, core_models.go, and the listener of initialize.go. `lock` and
-- `routerConcurrencyProtection` make each method one step; `none` as its outcome is a panic. The
-- listener takes the lock for each of its calls anew: `set_up_rest_bridge` is its handler where it
-- runs alone, and History has its steps between those of other handlers.
-- A request builder is of any type `B`, a handler that is no bridge of any type `F`, a message of any
-- type `M`.
pub mod Bridged
pub mod Config
pub mod Endpoint
pub mod Exchange
pub mod Panics
pub mod Setup
pub mod Override
pub mod History
pub mod Routes
pub mod Services
mod Examples
use Prim.Native.Char.{char}
use Prim.Native.String
use Prim.Native.String.{String}
use transport_go.Prelude.{
  ℕ, Bool, true, false, Option, none, some, List, [], ◌∷◌, ◌++◌, map, str_eq, if◌then◌else◌,
}
use transport_go.Prelude.GoMap.{GoMap, lookup, insert, delete, contains}
use transport_go.Plank.Middleware.{key_of}
use transport_go.Plank.Server.Routes.{
  HandlerFunc, endpoint, Template, path, path_prefix, Route, add_route, copy_routes, delete_all,
}

pub record RestBridgeConfig (B : Type 0) : Type 0 where
  pub service_channel : String
  pub uri : String
  pub method : String
  pub allow_head : Bool
  pub allow_options : Bool
  pub fabric_request_builder : B

pub record SetupRestBridgeRequest (B : Type 0) : Type 0 where
  pub service_channel : String
  pub override : Bool
  pub config : List (RestBridgeConfig B)

-- The buffer of `payloadChannel` and behind it the messages whose senders wait for room.
pub record MessageBridge (M : Type 0) : Type 0 where
  pub payload_channel : List M

-- `bus_channels` are the channels of the bus. `message_bridge_map` is `none` while it is nil.
-- `serving` holds once `HttpServer.Handler` serves `router`. `old_router` is the router of the
-- middleware manager if it is no longer `router`. `accepts_template` is mux's, and never changes. A
-- value of the store of ready services that is no Boolean is `none`.
pub record PlatformServer (B F M : Type 0) : Type 0 where
  pub rest_bridge_timeout : ℕ
  pub bus_channels : GoMap {0} Unit
  pub endpoint_handler_map : GoMap (HandlerFunc B F)
  pub service_chan_to_bridge_endpoints : GoMap (List String)
  pub message_bridge_map : Option (GoMap (MessageBridge M))
  pub router : List (Route B F)
  pub old_router : Option (List (Route B F))
  pub serving : Bool
  pub accepts_template : Template → Bool
  pub service_ready_store : GoMap (Option Bool)

-- What `OnServiceReady` gives: a channel from which this value will come, if any does, and whether
-- the service itself closes it.
pub record ReadyChannel : Type 0 where
  pub value : Option Bool
  pub is_closed : Bool

-- The value of a receive; a closed channel that is empty gives false.
unfoldable pub received : ReadyChannel → Option Bool
received ch = elim ch.value [
  | some ready ↦ some ready
  | none ↦ if ch.is_closed then some false else none
]

-- `found && val.(bool)`; the assertion panics on a value of another type.
unfoldable pub is_ready : Option (Option Bool) → Option Bool
is_ready none = some false
is_ready (some value) = value

-- m[key] of a map of slices: nil without the key.
abbrev pub list_at : String → GoMap (List String) → List String
list_at key m = elim (lookup key m) [ none ↦ [] | some keys ↦ keys ]

abbrev pub all_methods_wildcard : String
all_methods_wildcard = "*"

abbrev pub permitted_methods : {B : Type 0} → RestBridgeConfig B → List String
permitted_methods config =
    (config.method ∷ [])
    ++ (if config.allow_head then "HEAD" ∷ [] else [])
    ++ (if config.allow_options then "OPTIONS" ∷ [] else [])

abbrev pub bridge_key : {B : Type 0} → RestBridgeConfig B → String
bridge_key config = key_of (config.uri, config.method)

abbrev pub prefix_key : {B : Type 0} → RestBridgeConfig B → String
prefix_key config = key_of (config.uri, all_methods_wildcard)

module _ {B F M : Type 0} where
  -- The entry of the service channel in `messageBridgeMap` is made if it is missing. `ListenStream`
  -- gives nil for a missing channel, and nothing can be put into a nil map.
  unfoldable pub open_message_bridge : String → PlatformServer B F M → Option (PlatformServer B F M)
  open_message_bridge name s = elim s.message_bridge_map [
    | none ↦ none
    | some bridges ↦
        if contains name bridges
        then some s
        else (if contains name s.bus_channels
            then some (record s {
              message_bridge_map = some (insert name (record { payload_channel = [] }) bridges);
            })
            else none)
  ]

  abbrev pub make_endpoints : String → PlatformServer B F M → PlatformServer B F M
  make_endpoints name s =
      let lists = s.service_chan_to_bridge_endpoints in
      record s { service_chan_to_bridge_endpoints = insert name (list_at name lists) lists }

  abbrev pub build_handler : RestBridgeConfig B → PlatformServer B F M → HandlerFunc B F
  build_handler config s =
      endpoint config.service_channel config.fabric_request_builder s.rest_bridge_timeout

  abbrev pub add_endpoint :
      String
      → Template
      → Option (List String)
      → RestBridgeConfig B
      → PlatformServer B F M
      → PlatformServer B F M
  add_endpoint key template methods config s =
      let lists = s.service_chan_to_bridge_endpoints in
      let handler = build_handler config s in
      record s {
        endpoint_handler_map = insert key handler s.endpoint_handler_map;
        service_chan_to_bridge_endpoints =
            insert config.service_channel (list_at config.service_channel lists ++ key ∷ []) lists;
        router =
            add_route s.accepts_template
              (record {
                name = some key;
                template = template;
                methods = methods;
                handler = handler;
              })
              s.router;
      }

  -- What both methods do for a new key.
  unfoldable pub add_bridge :
      String
      → Template
      → Option (List String)
      → RestBridgeConfig B
      → PlatformServer B F M
      → Option (PlatformServer B F M)
  unfolding open_message_bridge
  add_bridge key template methods config s =
      if contains key s.endpoint_handler_map
      then some s
      else (elim (open_message_bridge config.service_channel
          (make_endpoints config.service_channel s)) [
            | none ↦ none
            | some t ↦ some (add_endpoint key template methods config t)
          ])

  unfoldable pub set_http_channel_bridge :
      RestBridgeConfig B → PlatformServer B F M → Option (PlatformServer B F M)
  unfolding add_bridge
  set_http_channel_bridge config s =
      add_bridge (bridge_key config) (path config.uri) (some (permitted_methods config)) config s

  unfoldable pub set_http_path_prefix_channel_bridge :
      RestBridgeConfig B → PlatformServer B F M → Option (PlatformServer B F M)
  unfolding add_bridge
  set_http_path_prefix_channel_bridge config s =
      add_bridge (prefix_key config) (path_prefix config.uri) none config s

  -- The new router, and the server, which still has the old one.
  unfoldable pub clear_http_channel_bridges_for_service :
      String → PlatformServer B F M → List (Route B F) × PlatformServer B F M
  unfolding copy_routes delete_all
  clear_http_channel_bridges_for_service name s =
      let lists = s.service_chan_to_bridge_endpoints in
      let keys = list_at name lists in
      (
        copy_routes s.accepts_template keys s.router,
        record s {
          service_chan_to_bridge_endpoints = insert name [] lists;
          endpoint_handler_map = delete_all keys s.endpoint_handler_map;
        },
      )

  -- `none` is `ps.router` itself.
  unfoldable pub load_global_http_handler :
      Option (List (Route B F)) → PlatformServer B F M → PlatformServer B F M
  load_global_http_handler none s = record s { serving = true }
  load_global_http_handler (some h) s = record s {
    serving = true;
    router = h;
    old_router = elim s.old_router [ none ↦ some s.router | some routes ↦ some routes ];
  }

  unfoldable pub set_bridges :
      List (RestBridgeConfig B) → PlatformServer B F M → Option (PlatformServer B F M)
  unfolding set_http_channel_bridge
  set_bridges [] s = some s
  set_bridges (config ∷ configs) s = elim (set_http_channel_bridge config s) [
    | none ↦ none
    | some t ↦ set_bridges configs t
  ]

  abbrev pub clear_overridden :
      SetupRestBridgeRequest B → PlatformServer B F M → PlatformServer B F M
  clear_overridden request s =
      if request.override
      then (let (h, t) = clear_http_channel_bridges_for_service request.service_channel s in
          load_global_http_handler (some h) t)
      else s

  -- `<-readyChan`, and `close`: without a value it waits for ever, which changes nothing more.
  unfoldable pub wait_ready :
      ReadyChannel → String → PlatformServer B F M → Option (PlatformServer B F M)
  wait_ready ch name s = elim (received ch) [
    | none ↦ some s
    | some ready ↦
        if ch.is_closed
        then none
        else some
            (record s { service_ready_store = insert name (some ready) s.service_ready_store })
  ]

  -- `hooks` gives the ready channel of each service that has hooks; the others have no
  -- `OnServiceReady`.
  unfoldable pub await_service :
      (String → Option ReadyChannel) → String → PlatformServer B F M → Option (PlatformServer B F M)
  unfolding is_ready wait_ready
  await_service hooks name s = elim (is_ready (lookup name s.service_ready_store)) [
    | none ↦ none
    | some true ↦ some s
    | some false ↦ elim (hooks name) [ none ↦ none | some ch ↦ wait_ready ch name s ]
  ]

  -- The handler of the lifecycle manager's channel, running alone. A payload of another type is `none`.
  unfoldable pub set_up_rest_bridge :
      (String → Option ReadyChannel)
      → Option (SetupRestBridgeRequest B)
      → PlatformServer B F M
      → Option (PlatformServer B F M)
  unfolding clear_http_channel_bridges_for_service load_global_http_handler set_bridges
      await_service
  set_up_rest_bridge hooks none s = none
  set_up_rest_bridge hooks (some request) s =
      elim (set_bridges request.config (clear_overridden request s)) [
        | none ↦ none
        | some t ↦ await_service hooks request.service_channel t
      ]

  -- The router that the middleware manager was made with.
  abbrev pub managed_router : PlatformServer B F M → List (Route B F)
  managed_router s = elim s.old_router [ none ↦ s.router | some routes ↦ routes ]

-- `get` is `Router.Get` of mux.
module _ {B F M : Type 0} (get : String → List (Route B F) → Option (Route B F)) where
  abbrev pub get_sub_route : String → PlatformServer B F M → Option (Route B F)
  get_sub_route name s = get name s.router

  abbrev pub get_rest_bridge_sub_route : String → String → PlatformServer B F M → Option (Route B F)
  get_rest_bridge_sub_route uri method s = get_sub_route (key_of (uri, method)) s

  abbrev pub get_route_by_uri_and_method :
      String → String → PlatformServer B F M → Option (Route B F)
  get_route_by_uri_and_method uri method s = get (key_of (uri, method)) (managed_router s)
