-- ===== src/Plank/Server/Services/Registered.antt =====
-- The endpoints of a service after its registration.
use Prim.Native.String.{String}
use mathlib.Core.List.{append_assoc}
use transport_go.Prelude.{
  ◌≡◌, refl, arith, eq_iff, ℕ, false, Option, none, some, List, [], ◌∷◌, ◌++◌, Option-cases,
  Bool-cases, inl, inr, ap, ap₂, sym, ◌∙◌,
}
use transport_go.Prelude.GoMap.{lookup, contains, lookup-insert}
use transport_go.Bus.ChannelManager.{ChannelEvent, create_channel, subscribe_channel_handler}
use transport_go.Service.Registry.{
  FabricService, FabricServiceWrapper, lifecycle_manager_channel_name, ServiceRegistry,
  RegistryError, Effect, set_up_rest_bridge, told, is_internal, listen_for_requests, send_hooks,
  get_service, get_service_hooks, register_service,
}
use transport_go.Plank.Server.{
  SetupRestBridgeRequest, PlatformServer, ReadyChannel, set_up_rest_bridge as handle_request,
}
use transport_go.Plank.Server.Override.{handler_at, filled, set_up_rest_bridge-filled}
use transport_go.Plank.Server.Services.{
  Hooks, Platform, on_service_ready, hear, mark_ready, on_bus, register,
}

module _ {B F M : Type 0} (ready : String → ReadyChannel) where
  hear-told :
      (hooks : String → Option ReadyChannel) (events : List ChannelEvent)
      (effects : List (Effect (Hooks B))) (s : PlatformServer B F M)
      → hear ready hooks (told events ++ effects) s ≡ hear ready hooks effects s
  unfolding hear
  hear-told hooks [] effects s = refl
  hear-told hooks (event ∷ events) effects s = hear-told hooks events effects s

  hear-one :
      (hooks : String → Option ReadyChannel) (name : String) (config : Hooks B)
      (s t : PlatformServer B F M)
      → hear ready hooks (set_up_rest_bridge name config ∷ []) s ≡ some t
      → handle_request hooks
          (some (record { service_channel = name; override = false; config = config }))
          s
        ≡ some t
  unfolding hear
  hear-one hooks name config s t e = ground (arith, e)

module _ {B : Type 0} where
  -- A registration without an error sends the hooks behind the events of the channel.
  register_service-effects :
      (service : FabricService (Hooks B)) (init : Option ℕ) (name : String) (config : Hooks B)
      (r left : ServiceRegistry (Hooks B)) (effects : List (Effect (Hooks B)))
      → register_service (some service) init name r ≡ ((left, effects), none)
      → is_internal name ≡ false
      → service.hooks ≡ some config
      → (made joined : List ChannelEvent) × (effects
          ≡ told made ++ told joined ++ set_up_rest_bridge name config ∷ [])
  unfolding register_service listen_for_requests send_hooks get_service_hooks get_service
  register_service-effects service init name config r left effects e outside hooked =
      elim (Bool-cases (contains name r.services)) [
        | inl y ↦ absurd (ground (arith, y, e))
        | inr n ↦ elim (Option-cases init) [
          | inr (failed, q) ↦ absurd (ground (arith, n, q, e))
          | inl q ↦
              let made = create_channel name r.channels in
              let with_channel : ServiceRegistry (Hooks B) = record r { channels = made.0 } in
              let joined = (subscribe_channel_handler name r.next_id false made.0).0 in
              let listening = listen_for_requests name service with_channel in
              let wrapper : FabricServiceWrapper (Hooks B) = record {
                service = service;
                subscription_id = r.next_id;
              } in
              let found : get_service_hooks name listening.0 ≡ some config =
                ground
                  (arith, hooked, lookup-insert name name wrapper r.services, eq_iff name name) in
              elim (Bool-cases (contains lifecycle_manager_channel_name listening.0.channels)) [
                | inr absent ↦ absurd (ground (arith, n, q, outside, found, absent, e))
                | inl there ↦ (made.1, joined.1, ground (arith, n, q, outside, found, there, e))
              ]
        ]
      ]

module _ {B F M : Type 0} (ready : String → ReadyChannel) where
  mark_ready-same :
      (name : String) (r : ServiceRegistry (Hooks B)) (e : Option RegistryError)
      (s : PlatformServer B F M)
      → ((mark_ready ready name r e s).rest_bridge_timeout ≡ s.rest_bridge_timeout)
        × ((mark_ready ready name r e s).endpoint_handler_map ≡ s.endpoint_handler_map)
  mark_ready-same name r (some e) s = (refl, refl)
  mark_ready-same name r none s = ground arith

  -- The request among the effects of a registration, against one endpoint.
  hear-filled :
      (hooks : String → Option ReadyChannel) (made joined : List ChannelEvent)
      (effects : List (Effect (Hooks B))) (name : String) (config : Hooks B) (asked : String)
      (s t : PlatformServer B F M)
      → effects ≡ told made ++ told joined ++ set_up_rest_bridge name config ∷ []
      → hear ready hooks effects s ≡ some t
      → handler_at asked t ≡ filled s.rest_bridge_timeout asked config (handler_at asked s)
  hear-filled hooks made joined effects name config asked s t shape e =
      let last = set_up_rest_bridge name config ∷ [] in
      let heard : hear ready hooks last s ≡ some t =
        sym (hear-told ready hooks joined last s)
        ∙ sym (hear-told ready hooks made (told joined ++ last) s)
        ∙ ap (λ l. hear ready hooks l s) (sym (shape ∙ append_assoc (told made) (told joined) last))
        ∙ e in
      let request : SetupRestBridgeRequest B = record {
        service_channel = name;
        override = false;
        config = config;
      } in
      set_up_rest_bridge-filled asked hooks request s t (hear-one ready hooks name config s t heard)

  -- A service with REST bridges that the server registers without an error or a panic, while no other
  -- request is handled, under another name than the one of the internal service, has its endpoints: the handler of each endpoint is
  -- what it was, and one that had none has the bridge of the first configuration for it, if there is
  -- one.
  pub register-filled :
      (asked : String) (service : FabricService (Hooks B)) (init : Option ℕ) (name : String)
      (config : Hooks B) (p left : Platform B F M)
      → is_internal name ≡ false
      → service.hooks ≡ some config
      → register ready (some service) init name p ≡ some (left, none)
      → handler_at asked left.server
        ≡ filled p.server.rest_bridge_timeout asked config (handler_at asked p.server)
  unfolding register
  register-filled asked service init name config p left outside hooked e =
      let done = register_service (some service) init name p.registry in
      let r = done.0.0 in
      let effects = done.0.1 in
      let before = mark_ready ready name r done.1 (on_bus ready r p.server) in
      elim (Option-cases (hear ready (on_service_ready ready r) effects before)) [
        | inl n ↦ absurd (ground (arith, n, e))
        | inr (s, y) ↦
            let clean : done.1 ≡ none = ground (arith, y, e) in
            let (made, joined, shape) =
              register_service-effects service init name config p.registry r effects
                (ap (λ o. (done.0, o)) clean) outside hooked in
            let set =
              hear-filled (on_service_ready ready r) made joined effects name config asked before s
                shape y in
            let (timeout, handlers) = mark_ready-same name r done.1 (on_bus ready r p.server) in
            let same : left.server ≡ s = ground (arith, y, e) in
            ap (λ v. handler_at asked v) same
            ∙ set
            ∙ ap₂ (λ n m. filled n asked config (lookup asked m)) timeout handlers
      ]
