-- ===== src/Plank/Server/Setup/Fresh.antt =====
-- Servers that were just made.
use Prim.Native.String
use Prim.Native.String.{String}
use transport_go.Prelude.{
  ◌≡◌, refl, arith, Bool, false, Option, none, some, List, [], ◌∷◌, Option-cases, Bool-cases, inl,
  inr, ap, sym, ◌∙◌, subst,
}
use transport_go.Prelude.GoMap.{GoMap, lookup, insert, lookup-insert}
use transport_go.Plank.Utils.Paths.{derive_static_uri_from_path}
use transport_go.Plank.Middleware.{MiddlewareFunc, handler_func, assert_handler_func}
use transport_go.Plank.Server.Routes.{HandlerFunc, other, Template}
use transport_go.Plank.Server.{
  RestBridgeConfig, ReadyChannel, MessageBridge, PlatformServer, list_at, add_bridge,
  open_message_bridge, clear_http_channel_bridges_for_service, load_global_http_handler,
}
use transport_go.Plank.Server.Override.{handler_at, add_bridge-cases, lookup-delete_all}
use transport_go.Plank.Server.Bridged.{is_bridge}
use transport_go.Plank.Server.History.{ServerEvent, run, run-keeps}
use transport_go.Plank.Server.Config.{PlatformServerConfig, set_timeouts}
use transport_go.Plank.Server.Setup.{
  as_handler, compose, set_static_route, set_static_routes, reserve, initialize, zero_server,
  new_platform_server_from_config,
}

module _ {B F : Type 0} where
  insert-is_bridge :
      (key asked : String) (handler : HandlerFunc B F) (m : GoMap (HandlerFunc B F))
      → is_bridge (some handler) ≡ false
      → is_bridge (lookup asked m) ≡ false
      → is_bridge (lookup asked (insert key handler m)) ≡ false
  insert-is_bridge key asked handler m e plain =
      ground (arith, e, plain, lookup-insert key asked handler m)

as_handler-is_bridge :
    (B : Type 0) {F : Type 0} (f : Option F) → is_bridge {B = B} (some (as_handler f)) ≡ false
as_handler-is_bridge B none = refl
as_handler-is_bridge B (some f) = refl

module _ {B F M : Type 0} where
  -- No channel has endpoints, no handler is a bridge, and the message bridges are these.
  abbrev pub IsFresh : Option (GoMap (MessageBridge M)) → PlatformServer B F M → Type 0
  IsFresh bridges s =
      (s.service_chan_to_bridge_endpoints ≡ [])
      × ((key : String) → is_bridge (handler_at key s) ≡ false)
      × (s.message_bridge_map ≡ bridges)

module _ {B F M : Type 0} (redirect : String → F) (files : String → String → F)
    (bridges : Option (GoMap (MessageBridge M))) where
  set_static_route-IsFresh :
      (prefix full_path : String) (middleware : List (MiddlewareFunc F))
      (s t : PlatformServer B F M)
      → set_static_route redirect files prefix full_path middleware s ≡ some t
      → IsFresh bridges s
      → IsFresh bridges t
  unfolding set_static_route
  set_static_route-IsFresh prefix full_path middleware s t e (empty, plain, same) =
      elim (Option-cases
        (assert_handler_func (compose middleware (handler_func (some (files prefix full_path)))))) [
          | inl n ↦ absurd (ground (arith, n, e))
          | inr (f, y) ↦
              let key = String.◌++◌ prefix "*" in
              let filled : t.endpoint_handler_map
                  ≡ insert key (as_handler f) s.endpoint_handler_map =
                ground (arith, y, e) in
              (
                ground (arith, y, e, empty),
                λ asked.
                    ap (λ m. is_bridge (lookup asked m)) filled
                    ∙ insert-is_bridge key asked (as_handler f) s.endpoint_handler_map
                        (as_handler-is_bridge B f) (plain asked),
                ground (arith, y, e, same),
              )
        ]

  set_static_routes-IsFresh :
      (dirs : List String) (s t : PlatformServer B F M)
      → set_static_routes redirect files dirs s ≡ some t
      → IsFresh bridges s
      → IsFresh bridges t
  unfolding set_static_routes
  set_static_routes-IsFresh [] s t e fresh =
      subst (λ o. elim o [ none ↦ IsFresh bridges s | some v ↦ IsFresh bridges v ]) e fresh
  set_static_routes-IsFresh (dir ∷ dirs) s t e fresh =
      let (p, uri) = derive_static_uri_from_path dir in
      elim (Option-cases (set_static_route redirect files uri p [] s)) [
        | inl n ↦ absurd (ground (arith, n, e))
        | inr (u, y) ↦
            set_static_routes-IsFresh dirs u t (ground (arith, y, e))
              (set_static_route-IsFresh uri p [] s u y fresh)
      ]

module _ {B F M : Type 0} (bridges : Option (GoMap (MessageBridge M))) where
  reserve-IsFresh :
      (uri : String) (methods : Option (List String)) (handler served : F)
      (s : PlatformServer B F M)
      → IsFresh bridges s
      → IsFresh bridges (reserve uri methods handler served s)
  reserve-IsFresh uri methods handler served s (empty, plain, same) = (
    empty,
    λ asked. insert-is_bridge uri asked (other handler) s.endpoint_handler_map refl (plain asked),
    same,
  )

module _ {B F M G : Type 0} (redirect : String → F) (files : String → String → F)
    (health cached_health prometheus : F) (bridges : Option (GoMap (MessageBridge M))) where
  pub initialize-IsFresh :
      (config : PlatformServerConfig G) (s t : PlatformServer B F M)
      → initialize redirect files health cached_health prometheus config s ≡ some t
      → s.message_bridge_map ≡ bridges
      → IsFresh bridges t
  unfolding initialize lookup
  initialize-IsFresh config s t e same =
      let made : PlatformServer B F M = record s {
        endpoint_handler_map = [];
        service_chan_to_bridge_endpoints = [];
        router = [];
      } in
      let start : IsFresh bridges made = (refl, λ key. refl, same) in
      let healthy = reserve "/health" none health cached_health made in
      let reserved = reserve-IsFresh bridges "/health" none health cached_health made start in
      elim (Bool-cases config.enable_prometheus) [
        | inl y ↦
            set_static_routes-IsFresh redirect files bridges config.static_dir
              (reserve "/prometheus" (some ("GET" ∷ [])) prometheus prometheus healthy) t
              (ground (arith, y, e))
              (reserve-IsFresh bridges "/prometheus" (some ("GET" ∷ [])) prometheus prometheus
                healthy reserved)
        | inr n ↦
            set_static_routes-IsFresh redirect files bridges config.static_dir healthy t
              (ground (arith, n, e)) reserved
      ]

-- What NewPlatformServerFromConfig leaves nil keeps every bridge away.
module _ {B F M : Type 0} where
  abbrev IsUnbridged : PlatformServer B F M → Type 0
  IsUnbridged s =
      (s.message_bridge_map ≡ none) × ((key : String) → is_bridge (handler_at key s) ≡ false)

  add_bridge-IsUnbridged :
      (key : String) (template : Template) (methods : Option (List String))
      (config : RestBridgeConfig B) (s t : PlatformServer B F M)
      → add_bridge key template methods config s ≡ some t
      → IsUnbridged s
      → IsUnbridged t
  unfolding open_message_bridge
  add_bridge-IsUnbridged key template methods config s t e (closed, plain) =
      elim (add_bridge-cases key template methods config s t e) [
        | inl (y, same) ↦ subst (λ u. IsUnbridged u) (sym same) (closed, plain)
        | inr (n, u, q, same) ↦ absurd (ground (arith, q, closed))
      ]

  clear-IsUnbridged :
      (name : String) (s : PlatformServer B F M)
      → IsUnbridged s
      → IsUnbridged (clear_http_channel_bridges_for_service name s).1
  unfolding clear_http_channel_bridges_for_service
  clear-IsUnbridged name s (closed, plain) =
      let keys = list_at name s.service_chan_to_bridge_endpoints in
      (closed, λ key. ground (arith, plain key, lookup-delete_all key keys s.endpoint_handler_map))

module _ {B F M G : Type 0} (redirect : String → F) (files : String → String → F)
    (health cached_health prometheus : F) where
  -- A server of NewPlatformServerFromConfig never gets a bridge: in no history without a panic is
  -- the handler of an endpoint a bridge.
  pub run-is_bridge :
      (accepts : Template → Bool) (config : PlatformServerConfig G) (channels : GoMap {0} Unit)
      (ready : GoMap (Option Bool)) (hooks : String → Option ReadyChannel)
      (events : List (ServerEvent B F)) (s t : PlatformServer B F M) (key : String)
      → new_platform_server_from_config redirect files health cached_health prometheus accepts
          config channels ready
        ≡ some s
      → run hooks events s ≡ some t
      → is_bridge (handler_at key t) ≡ false
  unfolding new_platform_server_from_config load_global_http_handler
  run-is_bridge accepts config channels ready hooks events s t key made e =
      let zero : PlatformServer B F M =
        zero_server accepts (set_timeouts config).rest_bridge_timeout none channels ready in
      let started : initialize redirect files health cached_health prometheus (set_timeouts config)
            zero
          ≡ some s =
        ground (arith, made) in
      let (empty, plain, closed) =
        initialize-IsFresh redirect files health cached_health prometheus none (set_timeouts config)
          zero s started refl in
      let kept =
        run-keeps (λ u. IsUnbridged u) add_bridge-IsUnbridged clear-IsUnbridged
          (λ router u here. here) (λ u m here. here) (λ u m here. here) hooks events s t e
          (closed, plain) in
      kept.1 key
