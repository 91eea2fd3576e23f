-- ===== src/Plank/Server/Services.antt =====
-- RegisterService of plank/pkg/server/server.go over the registry of services: the requests that the
-- registry sends to the lifecycle manager's channel are handled by the server's listener, one after
-- the other.
-- `ready` is the ready channel of a service with hooks.
pub mod Registered
mod Examples
use Prim.Native.String.{String}
use transport_go.Prelude.{
  ℕ, Bool, true, false, Option, none, some, List, [], ◌∷◌, ◌++◌, if◌then◌else◌,
}
use transport_go.Prelude.GoMap.{GoMap, insert}
use transport_go.Bus.ChannelManager.{Channels}
use transport_go.Service.Registry.{
  FabricService, ServiceRegistry, RegistryError, Effect, channel_event, set_up_rest_bridge,
  overrides_rest_bridge, get_service_hooks, register_service,
}
use transport_go.Plank.Server.{
  RestBridgeConfig, PlatformServer, ReadyChannel, set_up_rest_bridge as handle_request,
}

-- The hooks of a service are its REST bridges.
abbrev pub Hooks : Type 0 → Type 0
Hooks B = List (RestBridgeConfig B)

-- The channels of the bus are those of the registry's table.
pub record Platform (B F M : Type 0) : Type 0 where
  pub registry : ServiceRegistry (Hooks B)
  pub server : PlatformServer B F M

abbrev pub names_of : Channels → GoMap {0} Unit
names_of [] = []
names_of ((name, ch) ∷ channels) = (name, tt) ∷ names_of channels

abbrev pub on_service_ready :
    {B : Type 0}
    → (String → ReadyChannel)
    → ServiceRegistry (Hooks B)
    → String
    → Option ReadyChannel
on_service_ready ready r name = elim (get_service_hooks name r) [
  | none ↦ none
  | some config ↦ some (ready name)
]

module _ {B F M : Type 0} (ready : String → ReadyChannel) where
  -- What the listener makes of the effects of a call; `none` is a panic.
  unfoldable pub hear :
      (String → Option ReadyChannel)
      → List (Effect (Hooks B))
      → PlatformServer B F M
      → Option (PlatformServer B F M)
  unfolding handle_request
  hear hooks [] s = some s
  hear hooks (channel_event e ∷ effects) s = hear hooks effects s
  hear hooks (set_up_rest_bridge name config ∷ effects) s =
      elim (handle_request hooks
        (some (record { service_channel = name; override = false; config = config })) s) [
          | none ↦ none
          | some t ↦ hear hooks effects t
        ]
  hear hooks (overrides_rest_bridge name config ∷ effects) s =
      elim (handle_request hooks
        (some (record { service_channel = name; override = true; config = config })) s) [
          | none ↦ none
          | some t ↦ hear hooks effects t
        ]

  -- A service without hooks is ready at once.
  abbrev pub mark_ready :
      String
      → ServiceRegistry (Hooks B)
      → Option RegistryError
      → PlatformServer B F M
      → PlatformServer B F M
  mark_ready name r (some e) s = s
  mark_ready name r none s = elim (get_service_hooks name r) [
    | some config ↦ s
    | none ↦ record s { service_ready_store = insert name (some true) s.service_ready_store }
  ]

  abbrev pub on_bus : ServiceRegistry (Hooks B) → PlatformServer B F M → PlatformServer B F M
  on_bus r s = record s { bus_channels = names_of r.channels }

  -- RegisterService of the server.
  unfoldable pub register :
      Option (FabricService (Hooks B))
      → Option ℕ
      → String
      → Platform B F M
      → Option (Platform B F M × Option RegistryError)
  unfolding register_service get_service_hooks hear
  register service init name p =
      let ((r, effects), e) = register_service service init name p.registry in
      elim (hear (on_service_ready ready r) effects (mark_ready name r e (on_bus r p.server))) [
        | none ↦ none
        | some s ↦ some (record { registry = r; server = s }, e)
      ]
