-- ===== src/Plank/Server/Examples.antt =====
-- Servers and requests on which the theorems are applied.
use Prim.Native.String.{String}
use transport_go.Prelude.{
  ◌≡◌, refl, ℕ, Bool, true, false, Option, none, some, List, [], ◌∷◌, ◌++◌, inr, str_eq,
  if◌then◌else◌,
}
use transport_go.Prelude.GoMap.{GoMap, lookup, insert, delete}
use transport_go.Plank.Utils.{contains_string}
use transport_go.Plank.Utils.Paths.{derive_static_uri_from_path}
use transport_go.Plank.Server.Routes.{endpoint, other, Template, Route, path, path_prefix}
use transport_go.Plank.Server.{
  RestBridgeConfig, SetupRestBridgeRequest, PlatformServer, ReadyChannel, is_ready,
  set_http_channel_bridge, set_up_rest_bridge, get_route_by_uri_and_method,
}
use transport_go.Plank.Server.Override.{handler_at, first_of, set_up_rest_bridge-filled}
use transport_go.Plank.Server.Bridged.{is_bridge}
use transport_go.Plank.Server.History.{
  ServerEvent, bridge, request, clears, loads, channel_gone, run, run-get_route_by_uri_and_method,
}
use transport_go.Plank.Server.Panics.{set_up_rest_bridge-some}
use transport_go.Plank.Server.Config.Examples.{docs_config}
use transport_go.Plank.Server.Setup.{new_platform_server_from_config}
use transport_go.Plank.Server.Setup.Fresh.{run-is_bridge}

abbrev Server : Type 0
Server = PlatformServer ℕ String ℕ

abbrev redirect : String → String
redirect prefix = prefix

abbrev files : String → String → String
files prefix full_path = full_path

abbrev bus_with_svc : GoMap {0} Unit
bus_with_svc = ("svc", tt) ∷ []

abbrev any_template : Template → Bool
any_template template = true

abbrev made_server : Server
made_server = record {
  rest_bridge_timeout = 2;
  bus_channels = bus_with_svc;
  endpoint_handler_map = ("/health", other "health") ∷ ("/d*", other "docs") ∷ [];
  service_chan_to_bridge_endpoints = [];
  message_bridge_map = some [];
  router =
      record {
        name = some "/health";
        template = path "/health";
        methods = none;
        handler = other "cached";
      }
      ∷ record { name = none; template = path "/d"; methods = none; handler = other "/d" }
      ∷ record {
        name = some "/d*";
        template = path_prefix "/d/";
        methods = none;
        handler = other "docs";
      }
      ∷ [];
  old_router = none;
  serving = false;
  accepts_template = any_template;
  service_ready_store = ("svc", some true) ∷ [];
}

abbrev get_a : RestBridgeConfig ℕ
get_a = record {
  service_channel = "svc";
  uri = "/a";
  method = "GET";
  allow_head = true;
  allow_options = false;
  fabric_request_builder = 7;
}

abbrev get_b : RestBridgeConfig ℕ
get_b = record get_a { uri = "/b"; fabric_request_builder = 8 }

abbrev override_to_b : SetupRestBridgeRequest ℕ
override_to_b = record { service_channel = "svc"; override = true; config = get_b ∷ [] }

abbrev no_hooks : String → Option ReadyChannel
no_hooks name = none

abbrev reserved_routes : List (Route ℕ String)
reserved_routes = made_server.router

abbrev route_a : Route ℕ String
route_a = record {
  name = some "/a-GET";
  template = path "/a";
  methods = some ("GET" ∷ "HEAD" ∷ []);
  handler = endpoint "svc" 7 2;
}

-- After SetHttpChannelBridge.
abbrev bridged_server : Server
bridged_server = record made_server {
  endpoint_handler_map = made_server.endpoint_handler_map ++ ("/a-GET", endpoint "svc" 7 2) ∷ [];
  service_chan_to_bridge_endpoints = ("svc", "/a-GET" ∷ []) ∷ [];
  message_bridge_map = some (("svc", record { payload_channel = [] }) ∷ []);
  router = made_server.router ++ route_a ∷ [];
}

-- The copies of the routes that were there before, which lost the prefix and take no method, and the
-- new one.
abbrev routes_to_b : List (Route ℕ String)
routes_to_b =
    record {
      name = some "/health";
      template = path "/health";
      methods = some [];
      handler = other "cached";
    }
    ∷ record { name = some ""; template = path "/d"; methods = some []; handler = other "/d" }
    ∷ record { name = some "/d*"; template = path "/d/"; methods = some []; handler = other "docs" }
    ∷ record {
      name = some "/b-GET";
      template = path "/b";
      methods = some ("GET" ∷ "HEAD" ∷ []);
      handler = endpoint "svc" 8 2;
    }
    ∷ []

abbrev overridden_server : Server
overridden_server = record bridged_server {
  endpoint_handler_map = made_server.endpoint_handler_map ++ ("/b-GET", endpoint "svc" 8 2) ∷ [];
  service_chan_to_bridge_endpoints = ("svc", "/b-GET" ∷ []) ∷ [];
  router = routes_to_b;
  old_router = some bridged_server.router;
  serving = true;
}

bridged : set_http_channel_bridge get_a made_server ≡ some bridged_server
unfolding set_http_channel_bridge lookup insert
bridged = refl

overridden :
    set_up_rest_bridge no_hooks (some override_to_b) bridged_server ≡ some overridden_server
unfolding set_up_rest_bridge set_http_channel_bridge lookup insert delete contains_string
overridden = refl

abbrev get_a_again : List (ServerEvent ℕ String)
get_a_again = channel_gone "svc" ∷ bridge get_a ∷ []

abbrev last_server : Server
last_server = record overridden_server {
  bus_channels = [];
  endpoint_handler_map =
      overridden_server.endpoint_handler_map ++ ("/a-GET", endpoint "svc" 7 2) ∷ [];
  service_chan_to_bridge_endpoints = ("svc", "/b-GET" ∷ "/a-GET" ∷ []) ∷ [];
  router = overridden_server.router ++ route_a ∷ [];
}

rebridged : run no_hooks get_a_again overridden_server ≡ some last_server
unfolding run lookup insert delete
rebridged = refl

abbrev whole_history : List (ServerEvent ℕ String)
whole_history = bridge get_a ∷ request (some override_to_b) ∷ get_a_again

-- A server of NewPlatformServerFromConfig, with time-outs of 2 and 5 minutes.
abbrev read_server : Server
read_server = record made_server { rest_bridge_timeout = 120000000000; message_bridge_map = none }

abbrev unbridged_server : Server
unbridged_server = record read_server {
  bus_channels = [];
  service_chan_to_bridge_endpoints = ("svc", []) ∷ [];
  router =
      record {
        name = some "/health";
        template = path "/health";
        methods = some [];
        handler = other "cached";
      }
      ∷ record { name = some ""; template = path "/d"; methods = some []; handler = other "/d" }
      ∷ record {
        name = some "/d*";
        template = path "/d/";
        methods = some [];
        handler = other "docs";
      }
      ∷ [];
  old_router = some made_server.router;
  serving = true;
}

-- The handler of one request copies the routes, a bridge is set, and then the copy is loaded: the
-- endpoint has its handler, and the router has no route for it.
route_lost :
    run no_hooks (clears "other" ∷ bridge get_a ∷ loads unbridged_server.router ∷ []) made_server
    ≡ some (record bridged_server {
      service_chan_to_bridge_endpoints = ("other", []) ∷ ("svc", "/a-GET" ∷ []) ∷ [];
      router = unbridged_server.router;
      old_router = some bridged_server.router;
      serving = true;
    })
unfolding run lookup insert
route_lost = refl

abbrev no_config : SetupRestBridgeRequest ℕ
no_config = record override_to_b { config = [] }

read_server_made :
    new_platform_server_from_config {B = ℕ} {M = ℕ} redirect files "health" "cached" "metrics"
      any_template docs_config bus_with_svc
      (("svc", some true) ∷ [])
    ≡ some read_server
unfolding new_platform_server_from_config derive_static_uri_from_path insert
read_server_made = refl

unbridged :
    run no_hooks (channel_gone "svc" ∷ request (some no_config) ∷ []) read_server
    ≡ some unbridged_server
unfolding run lookup insert delete contains_string
unbridged = refl

set_up_rest_bridge-filled_example :
    handler_at "/b-GET" overridden_server ≡ some (endpoint "svc" 8 2)
unfolding contains_string first_of lookup
set_up_rest_bridge-filled_example =
    set_up_rest_bridge-filled "/b-GET" no_hooks override_to_b bridged_server overridden_server
      overridden

-- The last route of the name.
by_name : String → List (Route ℕ String) → Option (Route ℕ String)
by_name name [] = none
by_name name (r ∷ routes) = elim (by_name name routes) [
  | some found ↦ some found
  | none ↦ elim r.name [ none ↦ none | some text ↦ if str_eq text name then some r else none ]
]

run-get_route_by_uri_and_method_example :
    get_route_by_uri_and_method by_name "/b" "GET" last_server ≡ none
unfolding by_name
run-get_route_by_uri_and_method_example =
    run-get_route_by_uri_and_method by_name "/b" "GET" no_hooks override_to_b get_a_again
      bridged_server overridden_server last_server refl overridden rebridged

abbrev fired_channel : ReadyChannel
fired_channel = record { value = some true; is_closed = false }

abbrev fired : String → Option ReadyChannel
fired name = some fired_channel

set_up_rest_bridge-some_example :
    (t : Server) × (set_up_rest_bridge fired
        (some override_to_b)
        (record made_server { service_ready_store = [] })
      ≡ some t)
unfolding lookup is_ready
set_up_rest_bridge-some_example =
    set_up_rest_bridge-some fired override_to_b false
      (record made_server { service_ready_store = [] }) (refl, tt) refl
      (inr (fired_channel, refl, refl))

run-is_bridge_example : is_bridge (handler_at "/a-GET" unbridged_server) ≡ false
run-is_bridge_example =
    run-is_bridge redirect files "health" "cached" "metrics" any_template docs_config bus_with_svc
      (("svc", some true) ∷ []) no_hooks (channel_gone "svc" ∷ request (some no_config) ∷ [])
      read_server unbridged_server "/a-GET" read_server_made unbridged
