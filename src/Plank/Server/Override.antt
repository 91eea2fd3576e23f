-- ===== src/Plank/Server/Override.antt =====
-- Requests of the lifecycle manager, against their effect on one endpoint.
use Prim.Native.String.{String}
use transport_go.Prelude.{
  ◌≡◌, refl, arith, eq_iff, true, Option, none, some, List, [], ◌∷◌, str_eq, if◌then◌else◌,
  Option-cases, inl, inr, ℕ, ◌⊎◌, ap, ap₂, ◌∙◌, ◌&&◌,
}
use transport_go.Prelude.GoMap.{GoMap, contains, lookup, delete, lookup-insert, lookup-delete}
use transport_go.Plank.Utils.{contains_string}
use transport_go.Plank.Server.Routes.{HandlerFunc, endpoint, Template, path, delete_all}
use transport_go.Plank.Server.{
  RestBridgeConfig, SetupRestBridgeRequest, PlatformServer, list_at, bridge_key,
  open_message_bridge, add_bridge, set_http_channel_bridge, set_bridges, clear_overridden,
  ReadyChannel, await_service, set_up_rest_bridge, clear_http_channel_bridges_for_service,
  load_global_http_handler, build_handler, make_endpoints, add_endpoint, permitted_methods,
}

pub lookup-delete_all :
    {V : Type 0} (asked : String) (keys : List String) (m : GoMap V)
    → lookup asked (delete_all keys m)
      ≡ (if contains_string asked keys then none else lookup asked m)
unfolding delete_all contains_string
lookup-delete_all asked [] m = refl
lookup-delete_all asked (key ∷ keys) m =
    let below = lookup-delete_all asked keys (delete key m) in
    ground (arith, below, lookup-delete key asked m, eq_iff key asked)

-- The configuration of the bridge at `asked`: the first one.
unfoldable pub first_of :
    {B : Type 0} → String → List (RestBridgeConfig B) → Option (RestBridgeConfig B)
first_of asked [] = none
first_of asked (config ∷ configs) =
    let below = first_of asked configs in
    if str_eq (bridge_key config) asked then some config else below

module _ {B F : Type 0} where
  -- The handler at `asked` when the bridges of the configurations are set behind `before`.
  abbrev pub filled :
      ℕ → String → List (RestBridgeConfig B) → Option (HandlerFunc B F) → Option (HandlerFunc B F)
  filled timeout asked configs (some handler) = some handler
  filled timeout asked configs none = elim (first_of asked configs) [
    | none ↦ none
    | some config ↦ some (endpoint config.service_channel config.fabric_request_builder timeout)
  ]

module _ {B F M : Type 0} where
  abbrev pub handler_at : String → PlatformServer B F M → Option (HandlerFunc B F)
  handler_at asked s = lookup asked s.endpoint_handler_map

  pub open_message_bridge-same :
      (name : String) (s t : PlatformServer B F M)
      → open_message_bridge name s ≡ some t
      → (t.endpoint_handler_map ≡ s.endpoint_handler_map)
        × (t.service_chan_to_bridge_endpoints ≡ s.service_chan_to_bridge_endpoints)
        × (t.rest_bridge_timeout ≡ s.rest_bridge_timeout)
        × (t.router ≡ s.router)
        × (t.old_router ≡ s.old_router)
        × (t.service_ready_store ≡ s.service_ready_store)
  unfolding open_message_bridge
  open_message_bridge-same name s t e = ground (arith, e)

  -- What a call that does not panic has done.
  pub add_bridge-cases :
      (key : String) (template : Template) (methods : Option (List String))
      (config : RestBridgeConfig B) (s t : PlatformServer B F M)
      → add_bridge key template methods config s ≡ some t
      → ((contains key s.endpoint_handler_map ≡ true) × (t ≡ s))
        ⊎ ((lookup key s.endpoint_handler_map ≡ none)
            × (u : PlatformServer B F M) × (open_message_bridge config.service_channel
                  (make_endpoints config.service_channel s)
                ≡ some u)
            × (t ≡ add_endpoint key template methods config u))
  unfolding add_bridge
  add_bridge-cases key template methods config s t e =
      elim (Option-cases (lookup key s.endpoint_handler_map)) [
        | inr (h, y) ↦ inl (ground (arith, y), ground (arith, y, e))
        | inl n ↦
            elim (Option-cases (
              open_message_bridge config.service_channel
                (make_endpoints config.service_channel s))) [
                  | inl p ↦ absurd (ground (arith, n, p, e))
                  | inr (u, q) ↦ inr (n, u, q, ground (arith, n, q, e))
                ]
      ]

  pub add_bridge-handler_at :
      (asked key : String) (template : Template) (methods : Option (List String))
      (config : RestBridgeConfig B) (s t : PlatformServer B F M)
      → add_bridge key template methods config s ≡ some t
      → (handler_at asked t ≡ (elim (handler_at asked s) [
        | some h ↦ some h
        | none ↦ if str_eq key asked then some (build_handler config s) else none
      ]))
        × (t.rest_bridge_timeout ≡ s.rest_bridge_timeout)
  add_bridge-handler_at asked key template methods config s t e =
      elim (add_bridge-cases key template methods config s t e) [
        | inl (y, same) ↦ ground (arith, y, same, eq_iff key asked)
        | inr (n, u, q, same) ↦
            let kept =
              open_message_bridge-same config.service_channel
                (make_endpoints config.service_channel s) u q in
            let found = lookup-insert key asked (build_handler config u) u.endpoint_handler_map in
            ground (arith, n, same, kept, found, eq_iff key asked)
      ]

  set_bridges-handler_at :
      (asked : String) (configs : List (RestBridgeConfig B)) (s t : PlatformServer B F M)
      → set_bridges configs s ≡ some t
      → handler_at asked t ≡ filled s.rest_bridge_timeout asked configs (handler_at asked s)
  unfolding set_bridges first_of set_http_channel_bridge
  set_bridges-handler_at asked [] s t e = elim (Option-cases (handler_at asked s)) [
    | inl n ↦ ground (arith, n, e)
    | inr (h, y) ↦ ground (arith, y, e)
  ]
  set_bridges-handler_at asked (config ∷ configs) s t e =
      elim (Option-cases (set_http_channel_bridge config s)) [
        | inl n ↦ absurd (ground (arith, n, e))
        | inr (u, y) ↦
            let below = set_bridges-handler_at asked configs u t (ground (arith, y, e)) in
            let here =
              add_bridge-handler_at asked (bridge_key config) (path config.uri)
                (some (permitted_methods config)) config s u y in
            elim (Option-cases (handler_at asked s)) [
              | inl n ↦ ground (arith, n, below, here)
              | inr (h, q) ↦ ground (arith, q, below, here)
            ]
      ]

  await_service-same :
      (hooks : String → Option ReadyChannel) (name : String) (s t : PlatformServer B F M)
      → await_service hooks name s ≡ some t
      → t.endpoint_handler_map ≡ s.endpoint_handler_map
  unfolding await_service
  await_service-same hooks name s t e = ground (arith, e)

  pub clear_overridden-handler_at :
      (asked : String) (request : SetupRestBridgeRequest B) (s : PlatformServer B F M)
      → (handler_at asked (clear_overridden request s) ≡ (
          if request.override
            && contains_string asked
                (list_at request.service_channel s.service_chan_to_bridge_endpoints)
          then none
          else handler_at asked s))
        × ((clear_overridden request s).rest_bridge_timeout ≡ s.rest_bridge_timeout)
  unfolding clear_http_channel_bridges_for_service load_global_http_handler
  clear_overridden-handler_at asked request s = ground (
    arith,
    lookup-delete_all asked (list_at request.service_channel s.service_chan_to_bridge_endpoints)
        s.endpoint_handler_map,
  )

  -- After a request whose handler runs alone and does not panic, the handler of each endpoint is what it was,
  -- unless the request overrides and the endpoint was listed for the channel of the request; an
  -- endpoint that is then without a handler has the one of the first configuration of the request
  -- for it, if there is one.
  pub set_up_rest_bridge-filled :
      (asked : String) (hooks : String → Option ReadyChannel) (request : SetupRestBridgeRequest B)
      (s t : PlatformServer B F M)
      → set_up_rest_bridge hooks (some request) s ≡ some t
      → handler_at asked t
        ≡ filled s.rest_bridge_timeout asked request.config (
            if request.override
              && contains_string asked
                  (list_at request.service_channel s.service_chan_to_bridge_endpoints)
            then none
            else handler_at asked s)
  unfolding set_up_rest_bridge
  set_up_rest_bridge-filled asked hooks request s t e =
      let cleared = clear_overridden request s in
      elim (Option-cases (set_bridges request.config cleared)) [
        | inl n ↦ absurd (ground (arith, n, e))
        | inr (u, y) ↦
            let (found, same) = clear_overridden-handler_at asked request s in
            let set = set_bridges-handler_at asked request.config cleared u y in
            let last =
              await_service-same hooks request.service_channel u t (ground (arith, y, e)) in
            ap (λ m. lookup asked m) last
            ∙ set
            ∙ ap₂ (λ n h. filled n asked request.config h) same found
      ]
