-- ===== src/Plank/Server/Panics.antt =====
-- When the set-up of a bridge panics.
use Prim.Native.String.{String}
use transport_go.Prelude.{
  ◌≡◌, refl, arith, eq_iff, Bool, true, false, Option, some, List, [], ◌∷◌, is_some, ◌||◌, ◌&&◌,
  Option-cases, inl, inr, ◌⊎◌, ap, ◌∙◌,
}
use transport_go.Prelude.GoMap.{GoMap, contains, lookup, insert, lookup-insert}
use transport_go.Prelude.GoSlice.{All}
use transport_go.Plank.Server.Routes.{Template, path}
use transport_go.Plank.Server.{
  RestBridgeConfig, SetupRestBridgeRequest, MessageBridge, PlatformServer, bridge_key,
  open_message_bridge, make_endpoints, permitted_methods, add_bridge, set_http_channel_bridge,
  set_bridges, clear_overridden, await_service, ReadyChannel, is_ready, received,
  set_up_rest_bridge, clear_http_channel_bridges_for_service, load_global_http_handler,
}
use transport_go.Plank.Server.Override.{open_message_bridge-same, add_bridge-cases}
use transport_go.Plank.Server.History.{set_bridges-keeps}
use transport_go.Plank.Server.Bridged.{has_message_bridge}

module _ {B F M : Type 0} where
  -- Whether the channel has a message bridge or can have one.
  abbrev pub can_bridge : String → PlatformServer B F M → Bool
  can_bridge name s =
      has_message_bridge name s || (is_some s.message_bridge_map && contains name s.bus_channels)

  -- SetHttpChannelBridge panics exactly if the endpoint has no handler, the service channel has no
  -- message bridge, and it has no channel on the bus or the map of message bridges is nil.
  pub set_http_channel_bridge-can_bridge :
      (config : RestBridgeConfig B) (s : PlatformServer B F M)
      → is_some (set_http_channel_bridge config s) ≡ (
          contains (bridge_key config) s.endpoint_handler_map
          || can_bridge config.service_channel s)
  unfolding set_http_channel_bridge add_bridge open_message_bridge
  set_http_channel_bridge-can_bridge config s = ground arith

  open_message_bridge-can_bridge :
      (asked name : String) (s t : PlatformServer B F M)
      → open_message_bridge name s ≡ some t
      → can_bridge asked t ≡ can_bridge asked s
  unfolding open_message_bridge
  open_message_bridge-can_bridge asked name s t e = elim (Option-cases s.message_bridge_map) [
    | inl n ↦ absurd (ground (arith, n, e))
    | inr (bridges, y) ↦ ground (
      arith,
      y,
      e,
      eq_iff name asked,
      lookup-insert {V = MessageBridge M} name asked (record { payload_channel = [] }) bridges,
    )
  ]

  All-able :
      (configs : List (RestBridgeConfig B)) (s t : PlatformServer B F M)
      → ((name : String) → can_bridge name t ≡ can_bridge name s)
      → All (λ config. can_bridge config.service_channel s ≡ true) configs
      → All (λ config. can_bridge config.service_channel t ≡ true) configs
  All-able [] s t same able = tt
  All-able (config ∷ configs) s t same able =
      (same config.service_channel ∙ able.0, All-able configs s t same able.1)

  add_bridge-can_bridge :
      (asked key : String) (template : Template) (methods : Option (List String))
      (config : RestBridgeConfig B) (s t : PlatformServer B F M)
      → add_bridge key template methods config s ≡ some t
      → can_bridge asked t ≡ can_bridge asked s
  unfolding open_message_bridge
  add_bridge-can_bridge asked key template methods config s t e =
      elim (add_bridge-cases key template methods config s t e) [
        | inl (y, same) ↦ ap (λ u. can_bridge asked u) same
        | inr (n, u, q, same) ↦
            ap (λ v. can_bridge asked v) same
            ∙ open_message_bridge-can_bridge asked config.service_channel
                (make_endpoints config.service_channel s) u q
      ]

  set_bridges-some :
      (configs : List (RestBridgeConfig B)) (s : PlatformServer B F M)
      → All (λ config. can_bridge config.service_channel s ≡ true) configs
      → (t : PlatformServer B F M) × (set_bridges configs s ≡ some t)
  unfolding set_bridges set_http_channel_bridge
  set_bridges-some [] s able = (s, refl)
  set_bridges-some (config ∷ configs) s able =
      elim (Option-cases (set_http_channel_bridge config s)) [
        | inl n ↦ absurd (ground (arith, n, able, set_http_channel_bridge-can_bridge config s))
        | inr (u, y) ↦
            let same : (name : String) → can_bridge name u ≡ can_bridge name s = λ name.
              add_bridge-can_bridge name (bridge_key config) (path config.uri)
                (some (permitted_methods config)) config s u y in
            let (t, q) = set_bridges-some configs u (All-able configs s u same able.1) in
            (t, ground (arith, y, q))
      ]

  add_bridge-ready :
      (store : GoMap (Option Bool)) (key : String) (template : Template)
      (methods : Option (List String)) (config : RestBridgeConfig B) (s t : PlatformServer B F M)
      → add_bridge key template methods config s ≡ some t
      → s.service_ready_store ≡ store
      → t.service_ready_store ≡ store
  add_bridge-ready store key template methods config s t e before =
      elim (add_bridge-cases key template methods config s t e) [
        | inl (y, same) ↦ ap (λ u. u.service_ready_store) same ∙ before
        | inr (n, u, q, same) ↦
            let kept =
              open_message_bridge-same config.service_channel
                (make_endpoints config.service_channel s) u q in
            ground (arith, same, kept, before)
      ]

  await_service-some :
      (hooks : String → Option ReadyChannel) (name : String) (ready : Bool)
      (s : PlatformServer B F M)
      → is_ready (lookup name s.service_ready_store) ≡ some ready
      → (ready ≡ true) ⊎ ((ch : ReadyChannel) × (hooks name ≡ some ch) × (ch.is_closed ≡ false))
      → (t : PlatformServer B F M) × (await_service hooks name s ≡ some t)
  unfolding await_service
  await_service-some hooks name true s known way = (s, ground (arith, known))
  await_service-some hooks name false s known (inl y) = cc
  await_service-some hooks name false s known (inr (ch, hooked, left_open)) =
      elim (Option-cases (received ch)) [
        | inl w ↦ (s, ground (arith, known, hooked, w))
        | inr (b, w) ↦ (
          record s { service_ready_store = insert name (some b) s.service_ready_store },
          ground (arith, known, hooked, left_open, w),
        )
      ]

  clear_overridden-same :
      (request : SetupRestBridgeRequest B) (s : PlatformServer B F M)
      → ((clear_overridden request s).service_ready_store ≡ s.service_ready_store)
        × ((clear_overridden request s).message_bridge_map ≡ s.message_bridge_map)
        × ((clear_overridden request s).bus_channels ≡ s.bus_channels)
  unfolding clear_http_channel_bridges_for_service load_global_http_handler
  clear_overridden-same request s = ground arith

  -- A request whose handler runs alone is handled without a panic if each of its channels has or can
  -- have a message bridge, the store of ready services has no value of another type for its own, and
  -- that says that the service is ready or the service has hooks and leaves its ready channel open.
  -- (If no value comes from that channel the handler has done all the rest and waits.)
  pub set_up_rest_bridge-some :
      (hooks : String → Option ReadyChannel) (request : SetupRestBridgeRequest B) (ready : Bool)
      (s : PlatformServer B F M)
      → All (λ config. can_bridge config.service_channel s ≡ true) request.config
      → is_ready (lookup request.service_channel s.service_ready_store) ≡ some ready
      → (ready ≡ true)
        ⊎ ((ch : ReadyChannel) × (hooks request.service_channel ≡ some ch) × (ch.is_closed ≡ false))
      → (t : PlatformServer B F M) × (set_up_rest_bridge hooks (some request) s ≡ some t)
  unfolding set_up_rest_bridge
  set_up_rest_bridge-some hooks request ready s able known way =
      let cleared = clear_overridden request s in
      let (store, bridges, channels) = clear_overridden-same request s in
      let same : (name : String) → can_bridge name cleared ≡ can_bridge name s =
        λ name. ground (arith, bridges, channels) in
      let (u, y) =
        set_bridges-some request.config cleared (All-able request.config s cleared same able) in
      let stored =
        set_bridges-keeps (λ v. v.service_ready_store ≡ s.service_ready_store)
          (add_bridge-ready s.service_ready_store) request.config cleared u y store in
      let (t, q) =
        await_service-some hooks request.service_channel ready u
          (ap (λ m. is_ready (lookup request.service_channel m)) stored ∙ known) way in
      (t, ground (arith, y, q))
