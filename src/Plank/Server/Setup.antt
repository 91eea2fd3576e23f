-- ===== src/Plank/Server/Setup.antt =====
-- How a server is made (plank/pkg/server: NewPlatformServer and NewPlatformServerFromConfig of
-- server.go, `initialize`, SetStaticRoute). The listener that `initialize` registers is
-- `set_up_rest_bridge`. Files, logs and the HTTP server are left out.
-- `redirect` and `files` are the handlers of SetStaticRoute, the second with its security headers;
-- `health`, which its route has under cache control, and `prometheus` those of the reserved paths.
pub mod Fresh
use Prim.Native.String
use Prim.Native.String.{String}
use transport_go.Prelude.{
  ℕ, Bool, true, false, Option, none, some, List, [], ◌∷◌, ◌++◌, if◌then◌else◌, is_some,
}
use transport_go.Prelude.GoMap.{GoMap, insert}
use transport_go.Prelude.Int64.{mul64, signed_lt}
use transport_go.Plank.Utils.Paths.{derive_static_uri_from_path}
use transport_go.Plank.Middleware.{Handler, handler_func, MiddlewareFunc, assert_handler_func}
use transport_go.Plank.Server.Routes.{
  HandlerFunc, no_handler, other, Template, path, path_prefix, add_route,
}
use transport_go.Plank.Server.Config.{PlatformServerConfig, set_timeouts}
use transport_go.Plank.Server.{MessageBridge, PlatformServer}

abbrev pub as_handler : {B F : Type 0} → Option F → HandlerFunc B F
as_handler none = no_handler
as_handler (some f) = other f

-- for _, mw := range middlewareFn { compositeHandler = mw(compositeHandler) }
abbrev pub compose : {F : Type 0} → List (MiddlewareFunc F) → Handler F → Handler F
compose [] handler = handler
compose (mw ∷ middleware) handler = compose middleware (mw handler)

module _ {B F M : Type 0} where
  abbrev pub reserve :
      String → Option (List String) → F → F → PlatformServer B F M → PlatformServer B F M
  reserve uri methods handler served s = record s {
    endpoint_handler_map = insert uri (other handler) s.endpoint_handler_map;
    router =
        add_route s.accepts_template
          (record {
            name = some uri;
            template = path uri;
            methods = methods;
            handler = other served;
          })
          s.router;
  }

  abbrev pub zero_server :
      (Template → Bool)
      → ℕ
      → Option (GoMap (MessageBridge M))
      → GoMap {0} Unit
      → GoMap (Option Bool)
      → PlatformServer B F M
  zero_server accepts timeout bridges channels ready = record {
    rest_bridge_timeout = timeout;
    bus_channels = channels;
    endpoint_handler_map = [];
    service_chan_to_bridge_endpoints = [];
    message_bridge_map = bridges;
    router = [];
    old_router = none;
    serving = false;
    accepts_template = accepts;
    service_ready_store = ready;
  }

module _ {B F M : Type 0} (redirect : String → F) (files : String → String → F) where
  unfoldable pub set_static_route :
      String
      → String
      → List (MiddlewareFunc F)
      → PlatformServer B F M
      → Option (PlatformServer B F M)
  set_static_route prefix full_path middleware s =
      let key = String.◌++◌ prefix "*" in
      elim (assert_handler_func
        (compose middleware (handler_func (some (files prefix full_path))))) [
          | none ↦ none
          | some f ↦ some (record s {
            endpoint_handler_map = insert key (as_handler f) s.endpoint_handler_map;
            router =
                add_route s.accepts_template
                  (record {
                    name = some key;
                    template = path_prefix (String.◌++◌ prefix "/");
                    methods = none;
                    handler = as_handler f;
                  })
                  (add_route s.accepts_template
                    (record {
                      name = none;
                      template = path prefix;
                      methods = none;
                      handler = other (redirect prefix);
                    })
                    s.router);
          })
        ]

  unfoldable pub set_static_routes :
      List String → PlatformServer B F M → Option (PlatformServer B F M)
  unfolding set_static_route
  set_static_routes [] s = some s
  set_static_routes (dir ∷ dirs) s =
      let (p, uri) = derive_static_uri_from_path dir in
      elim (set_static_route uri p [] s) [ none ↦ none | some t ↦ set_static_routes dirs t ]

module _ {B F M G : Type 0} (redirect : String → F) (files : String → String → F)
    (health cached_health prometheus : F) where
  -- The maps that it makes, the reserved paths and the static ones.
  unfoldable pub initialize :
      PlatformServerConfig G → PlatformServer B F M → Option (PlatformServer B F M)
  unfolding set_static_routes
  initialize config s =
      let made = record s {
        endpoint_handler_map = [];
        service_chan_to_bridge_endpoints = [];
        router = [];
      } in
      let healthy = reserve "/health" none health cached_health made in
      set_static_routes redirect files config.static_dir (
        if config.enable_prometheus
        then reserve "/prometheus" (some ("GET" ∷ [])) prometheus prometheus healthy
        else healthy)

  -- The inner `none` is the nil server.
  unfoldable pub new_platform_server :
      (Template → Bool)
      → PlatformServerConfig G
      → GoMap {0} Unit
      → GoMap (Option Bool)
      → Option (Option (PlatformServer B F M))
  unfolding initialize
  new_platform_server accepts config channels ready =
      if is_some config.log_config
      then (elim (initialize config
          (zero_server accepts config.rest_bridge_timeout (some []) channels ready)) [
            | none ↦ none
            | some s ↦ some (some s)
          ])
      else some none

  -- The configuration is one that was read; the map of the message bridges is not made.
  unfoldable pub new_platform_server_from_config :
      (Template → Bool)
      → PlatformServerConfig G
      → GoMap {0} Unit
      → GoMap (Option Bool)
      → Option (PlatformServer B F M)
  unfolding set_timeouts initialize
  new_platform_server_from_config accepts config channels ready =
      if is_some config.log_config
      then initialize (set_timeouts config)
          (zero_server accepts (set_timeouts config).rest_bridge_timeout none channels ready)
      else none
