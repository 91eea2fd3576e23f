-- ===== src/Plank/Server/Services/Examples.antt =====
-- A service with one REST bridge.
use Prim.Native.String.{String}
use transport_go.Prelude.{◌≡◌, refl, ℕ, true, false, none, some, [], ◌∷◌}
use transport_go.Prelude.GoMap.{lookup, insert}
use transport_go.Bus.Channel.{new_channel}
use transport_go.Bus.ChannelManager.{create_channel, subscribe_channel_handler}
use transport_go.Service.Registry.{
  FabricService, ServiceRegistry, lifecycle_manager_channel_name, register_service, send_hooks,
  get_service_hooks,
}
use transport_go.Plank.Server.Routes.{endpoint, path}
use transport_go.Plank.Server.{RestBridgeConfig, PlatformServer, ReadyChannel, received}
use transport_go.Plank.Server.Override.{handler_at, first_of}
use transport_go.Plank.Server.Services.{Hooks, Platform, register}
use transport_go.Plank.Server.Services.Registered.{register-filled}

abbrev always : String → ReadyChannel
always name = record { value = some true; is_closed = false }

abbrev get_a : RestBridgeConfig ℕ
get_a = record {
  service_channel = "svc";
  uri = "/a";
  method = "GET";
  allow_head = false;
  allow_options = false;
  fabric_request_builder = 7;
}

abbrev service : FabricService (Hooks ℕ)
service = record { service = 5; hooks = some (get_a ∷ []) }

abbrev empty_registry : ServiceRegistry (Hooks ℕ)
empty_registry = record {
  services = [];
  channels = (lifecycle_manager_channel_name, new_channel lifecycle_manager_channel_name) ∷ [];
  next_id = 0;
}

abbrev empty_server : PlatformServer ℕ String ℕ
empty_server = record {
  rest_bridge_timeout = 2;
  bus_channels = [];
  endpoint_handler_map = [];
  service_chan_to_bridge_endpoints = [];
  message_bridge_map = some [];
  router = [];
  old_router = none;
  serving = true;
  accepts_template = λ template. true;
  service_ready_store = [];
}

abbrev registered_platform : Platform ℕ String ℕ
registered_platform = record {
  registry = (register_service (some service) none "svc" empty_registry).0.0;
  server = record empty_server {
    bus_channels = (lifecycle_manager_channel_name, tt) ∷ ("svc", tt) ∷ [];
    endpoint_handler_map = ("/a-GET", endpoint "svc" 7 2) ∷ [];
    service_chan_to_bridge_endpoints = ("svc", "/a-GET" ∷ []) ∷ [];
    message_bridge_map = some (("svc", record { payload_channel = [] }) ∷ []);
    router =
        record {
          name = some "/a-GET";
          template = path "/a";
          methods = some ("GET" ∷ []);
          handler = endpoint "svc" 7 2;
        }
        ∷ [];
    service_ready_store = ("svc", some true) ∷ [];
  };
}

registered :
    register always
      (some service)
      none
      "svc"
      (record { registry = empty_registry; server = empty_server })
    ≡ some (registered_platform, none)
unfolding register create_channel subscribe_channel_handler send_hooks get_service_hooks lookup
    insert received
registered = refl

register-filled_example : handler_at "/a-GET" registered_platform.server ≡ some (endpoint "svc" 7 2)
unfolding first_of lookup
register-filled_example =
    register-filled always "/a-GET" service none "svc" (get_a ∷ [])
      (record { registry = empty_registry; server = empty_server }) registered_platform refl refl
      registered
