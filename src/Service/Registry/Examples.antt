-- ===== src/Service/Registry/Examples.antt =====
-- A registry with one service and the channel of its lifecycle manager.
use transport_go.Prelude.{ℕ, ◌≡◌, String, refl, none, some, [], str_eq, if◌then◌else◌}
use transport_go.Prelude.GoMap.{lookup, insert}
use transport_go.Bus.ChannelManager.{create_channel, subscribe_channel_handler}
use transport_go.Bus.Channel.{new_channel}
use transport_go.Service.Registry.{
  FabricService, ServiceRegistry, lifecycle_manager_channel_name, get_service, register_service,
  unregister_service,
}
use transport_go.Service.Registry.Register.{channel_or_new, unregister_service-register_service}

abbrev joke : FabricService ℕ
joke = record { service = 1; hooks = some 5 }

abbrev ping : FabricService ℕ
ping = record { service = 2; hooks = none }

abbrev registry : ServiceRegistry ℕ
registry =
    (register_service (some ping) none "ping" (record {
      services = [];
      channels = (create_channel lifecycle_manager_channel_name []).0;
      next_id = 1;
    })).0.0

unregister_service-register_service_example :
    ((j : String)
      → get_service j (register_service (some joke) none "joke" registry).0.0
        ≡ (if str_eq "joke" j then some joke else get_service j registry))
    × ((unregister_service "joke" (register_service (some joke) none "joke" registry).0.0).1 ≡ none)
    × ((j : String)
        → get_service j
            (unregister_service "joke" (register_service (some joke) none "joke" registry).0.0).0.0
          ≡ get_service j registry)
    × ((j : String)
        → lookup j
            (unregister_service "joke"
              (register_service (some joke) none "joke" registry).0.0).0.0.channels
          ≡ (if str_eq "joke" j
              then some (channel_or_new "joke" registry.channels)
              else lookup j registry.channels))
unfolding lookup register_service insert subscribe_channel_handler create_channel new_channel
unregister_service-register_service_example =
    unregister_service-register_service joke "joke" registry refl tt
