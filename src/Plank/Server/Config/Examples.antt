-- ===== src/Plank/Server/Config/Examples.antt =====
-- A configuration that is read from a file.
use Prim.Native.String
use Prim.Native.String.{String}
use transport_go.Prelude.{
  ◌≡◌, refl, arith, ◌*◌, true, false, Option, none, some, [], ◌∷◌, str_eq, if◌then◌else◌, inl, inr,
}
use transport_go.Prelude.Int64.{signed_lt}
use transport_go.Plank.Server.Config.{
  PlatformServerConfig, Flags, minute, generate_platform_server_config,
}
use transport_go.Plank.Server.Config.Timeouts.{
  used, given_minutes, generate_platform_server_config-minutes,
}

abbrev compile : String → Option String
compile glob = some glob

abbrev pub docs_config : PlatformServerConfig String
docs_config = record {
  root_dir = "/srv";
  static_dir = "docs:d" ∷ [];
  spa_config = none;
  host = "localhost";
  port = 80;
  log_config = some (record {
    access_log = "stdout";
    error_log = "stderr";
    output_log = "stdout";
    root = "/srv";
  });
  fabric_config = none;
  tls_cert_config = none;
  enable_prometheus = false;
  debug = false;
  no_banner = true;
  shutdown_timeout = 0;
  rest_bridge_timeout = 2;
}

abbrev read_config : String → Option (PlatformServerConfig String)
read_config file = if str_eq file "config.json" then some docs_config else none

abbrev absolute : String → Option String
absolute file = some (String.◌++◌ "/srv/" file)

-- Only the file counts.
abbrev file_flags : Flags
file_flags = record {
  config_file = "config.json";
  hostname = "";
  port = 0;
  root_dir = "";
  static = [];
  shutdown_timeout = 9;
  access_log = "";
  output_log = "";
  error_log = "";
  debug = false;
  no_banner = false;
  cert = "";
  cert_key = "";
  spa_path = "";
  no_fabric_broker = false;
  fabric_endpoint = "";
  topic_prefix = "";
  queue_prefix = "";
  request_prefix = "";
  request_queue_prefix = "";
  prometheus = false;
  rest_bridge_timeout = 9;
}

abbrev timed_config : PlatformServerConfig String
timed_config = record docs_config {
  shutdown_timeout = 300000000000;
  rest_bridge_timeout = 120000000000;
}

generate_platform_server_config-minutes_example :
    (timed_config.shutdown_timeout ≡ used 5 0 * minute)
    × (signed_lt 0 timed_config.shutdown_timeout ≡ true)
    × (timed_config.rest_bridge_timeout ≡ used 1 2 * minute)
    × (signed_lt 0 timed_config.rest_bridge_timeout ≡ true)
unfolding generate_platform_server_config given_minutes
generate_platform_server_config-minutes_example =
    generate_platform_server_config-minutes compile absolute read_config file_flags timed_config 0 2
      refl refl (inl refl) (inr (omega arith))
