-- ===== src/Service/Registry.antt =====
-- service/service_registry.go and service_lifecycle_manager.go. The state holds, beside the
-- registered services, the table of channels that the registry works on and the next id of a
-- handler. `lock` makes each method one step. The hooks of a service are its REST bridge
-- configuration, of any type `C`; what a method sends is a list of effects.
pub mod Register
mod Examples
use transport_go.Prelude.{
  ℕ, ◌+◌, String, ◌≡◌, Bool, true, false, not, Option, none, some, List, [], ◌∷◌, ◌++◌, str_eq,
  if◌then◌else◌, is_some,
}
use transport_go.Prelude.GoMap.{GoMap, lookup, insert, delete, contains}
use transport_go.Bus.ChannelManager.{
  Channels, ChannelEvent, create_channel, subscribe_channel_handler, unsubscribe_channel_handler,
}

-- A service: what names it, and its lifecycle hooks, if it has any.
pub record FabricService (C : Type 0) : Type 0 where
  pub service : ℕ
  pub hooks : Option C

-- A wrapper, with the id of its request handler's subscription.
pub record FabricServiceWrapper (C : Type 0) : Type 0 where
  pub service : FabricService C
  pub subscription_id : ℕ

pub record ServiceRegistry (C : Type 0) : Type 0 where
  pub services : GoMap (FabricServiceWrapper C)
  pub channels : Channels
  pub next_id : ℕ

pub data RegistryError : Type 0 where
  nil_service channel_name_used no_lifecycle_channel : RegistryError
  not_registered service_not_found : String → RegistryError
  init_failed : ℕ → RegistryError

-- `overrides` is a request to replace the configuration of a service that is registered.
pub data Effect (C : Type 0) : Type 0 where
  channel_event : ChannelEvent → Effect C
  set_up_rest_bridge overrides_rest_bridge : String → C → Effect C

abbrev pub lifecycle_manager_channel_name : String
lifecycle_manager_channel_name = "_transportInternal/service-lifecycle-manager"

abbrev pub is_internal : String → Bool
is_internal name = str_eq name "fabric-rest"

module _ {C : Type 0} where
  abbrev pub told : List ChannelEvent → List (Effect C)
  told [] = []
  told (e ∷ es) = channel_event e ∷ told es

  unfoldable pub get_service : String → ServiceRegistry C → Option (FabricService C)
  get_service name r = elim (lookup name r.services) [ none ↦ none | some w ↦ some w.service ]

  unfoldable pub get_all_service_channels : GoMap (FabricServiceWrapper C) → List String
  get_all_service_channels [] = []
  get_all_service_channels ((name, w) ∷ services) =
      let rest = get_all_service_channels services in
      if not (is_internal name) then name ∷ rest else rest

  unfoldable pub get_service_hooks : String → ServiceRegistry C → Option C
  unfolding get_service
  get_service_hooks name r = elim (get_service name r) [ none ↦ none | some s ↦ s.hooks ]

  -- The end of `RegisterService`: the hooks go to the lifecycle manager's channel.
  unfoldable pub send_hooks : String → ServiceRegistry C → List (Effect C) × Option RegistryError
  unfolding get_service_hooks
  send_hooks name r = if is_internal name then ([], none) else elim (get_service_hooks name r) [
    | none ↦ ([], none)
    | some config ↦
        if contains lifecycle_manager_channel_name r.channels
        then (set_up_rest_bridge name config ∷ [], none)
        else ([], some no_lifecycle_channel)
  ]

  -- `sw.init()` behind a successful `Init`: the service listens on its channel.
  unfoldable pub listen_for_requests :
      String → FabricService C → ServiceRegistry C → ServiceRegistry C × List (Effect C)
  listen_for_requests name service r =
      let joined = (subscribe_channel_handler name r.next_id false r.channels).0 in
      (
        record r {
          services =
              insert name (record { service = service; subscription_id = r.next_id }) r.services;
          channels = joined.0;
          next_id = r.next_id + 1;
        },
        told joined.1,
      )

  -- A nil service is `none`. `init` is the error of the service's `Init`, if it has one and that
  -- fails. The channel is made before `Init` runs.
  unfoldable pub register_service :
      Option (FabricService C)
      → Option ℕ
      → String
      → ServiceRegistry C
      → (ServiceRegistry C × List (Effect C)) × Option RegistryError
  unfolding listen_for_requests send_hooks
  register_service none init name r = ((r, []), some nil_service)
  register_service (some service) init name r =
      if contains name r.services
      then ((r, []), some channel_name_used)
      else (let made = create_channel name r.channels in
          elim init [
            | some e ↦ ((record r { channels = made.0 }, told made.1), some (init_failed e))
            | none ↦
                let listening = listen_for_requests name service (record r { channels = made.0 }) in
                let sent = send_hooks name listening.0 in
                ((listening.0, told made.1 ++ listening.1 ++ sent.0), sent.1)
          ])

  unfoldable pub unregister_service :
      String → ServiceRegistry C → (ServiceRegistry C × List (Effect C)) × Option RegistryError
  unregister_service name r = elim (lookup name r.services) [
    | none ↦ ((r, []), some (not_registered name))
    | some w ↦
        let left = (unsubscribe_channel_handler name w.subscription_id r.channels).0 in
        ((record r { services = delete name r.services; channels = left.0 }, told left.1), none)
  ]

  unfoldable pub override_rest_bridge_config :
      String → C → ServiceRegistry C → List (Effect C) × Option RegistryError
  unfolding get_service
  override_rest_bridge_config name config r = elim (get_service name r) [
    | none ↦ ([], some (service_not_found name))
    | some service ↦
        if contains lifecycle_manager_channel_name r.channels
        then (overrides_rest_bridge name config ∷ [], none)
        else ([], some no_lifecycle_channel)
  ]
