-- ===== src/Plank/Server/Config.antt =====
-- The configuration of a server (plank/pkg/server: core_models.go, spa_config.go and
-- generatePlatformServerConfig of helpers.go). A compiled glob pattern is of any type `G`; `compile`
-- is `glob.Compile`, `absolute` is `filepath.Abs`, `read_config` reads and decodes a file, and `none`
-- is their error. The iteration over a map follows its list. Time-outs are int64 patterns.
pub mod Timeouts
pub mod Examples
use Prim.Native.String.{String}
use transport_go.Prelude.{
  ℕ, Bool, true, false, not, Option, none, some, List, [], ◌∷◌, ◌++◌, if◌then◌else◌,
}
use transport_go.Prelude.GoMap.{GoMap}
use transport_go.Prelude.Int64.{mul64, signed_lt}
use transport_go.Bus.Fabric.{EndpointConfig}
use transport_go.Plank.Utils.Paths.{is_empty, trim_space, derive_static_uri_from_path}

-- `cache_control_rule_pairs` are the compiled patterns with their rules.
pub record SpaConfig (G : Type 0) : Type 0 where
  pub root_folder : String
  pub base_uri : String
  pub static_assets : List String
  pub cache_control_rules : GoMap String
  pub cache_control_rule_pairs : List (G × String)

pub record TlsCertConfig : Type 0 where
  pub cert_file : String
  pub key_file : String
  pub skip_certificate_validation : Bool

-- `heartbeat` is a field of the endpoint's configuration.
pub record FabricBrokerConfig : Type 0 where
  pub fabric_endpoint : String
  pub use_tcp : Bool
  pub tcp_port : ℕ
  pub endpoint_config : EndpointConfig
  pub heartbeat : ℕ

-- Without the format options and the open files.
pub record LogConfig : Type 0 where
  pub access_log : String
  pub error_log : String
  pub output_log : String
  pub root : String

pub record PlatformServerConfig (G : Type 0) : Type 0 where
  pub root_dir : String
  pub static_dir : List String
  pub spa_config : Option (SpaConfig G)
  pub host : String
  pub port : ℕ
  pub log_config : Option LogConfig
  pub fabric_config : Option FabricBrokerConfig
  pub tls_cert_config : Option TlsCertConfig
  pub enable_prometheus : Bool
  pub debug : Bool
  pub no_banner : Bool
  pub shutdown_timeout : ℕ
  pub rest_bridge_timeout : ℕ

-- What the flags say.
pub record Flags : Type 0 where
  pub config_file : String
  pub hostname : String
  pub port : ℕ
  pub root_dir : String
  pub static : List String
  pub shutdown_timeout : ℕ
  pub access_log : String
  pub output_log : String
  pub error_log : String
  pub debug : Bool
  pub no_banner : Bool
  pub cert : String
  pub cert_key : String
  pub spa_path : String
  pub no_fabric_broker : Bool
  pub fabric_endpoint : String
  pub topic_prefix : String
  pub queue_prefix : String
  pub request_prefix : String
  pub request_queue_prefix : String
  pub prometheus : Bool
  pub rest_bridge_timeout : ℕ

-- time.Minute in nanoseconds
abbrev pub minute : ℕ
minute = 60000000000

-- A number of minutes, or the default for one that is not positive, as a duration.
unfoldable pub in_minutes : (default given : ℕ) → ℕ
in_minutes default given = mul64 (if signed_lt 0 given then given else default) minute

module _ {G : Type 0} where
  -- The time-outs of a configuration that was read from a file.
  unfoldable pub set_timeouts : PlatformServerConfig G → PlatformServerConfig G
  unfolding in_minutes
  set_timeouts config = record config {
    shutdown_timeout = in_minutes 5 config.shutdown_timeout;
    rest_bridge_timeout = in_minutes 1 config.rest_bridge_timeout;
  }

  -- The rule of the first pattern that matches, which the middleware sets as the header before it
  -- serves the request.
  unfoldable pub first_rule : (G → String → Bool) → String → List (G × String) → Option String
  first_rule match uri [] = none
  first_rule match uri ((pattern, rule) ∷ pairs) =
      let below = first_rule match uri pairs in if match pattern uri then some rule else below

  -- CacheControlMiddleware; `set_header` is `w.Header().Set`.
  unfoldable pub cache_control_middleware :
      {W : Type 0}
      → (G → String → Bool)
      → (String → String → W → W)
      → SpaConfig G
      → (W → W)
      → String
      → W
      → W
  unfolding first_rule
  cache_control_middleware match set_header s serve uri w =
      elim (first_rule match uri s.cache_control_rule_pairs) [
        | none ↦ serve w
        | some rule ↦ serve (set_header "Cache-Control" rule w)
      ]

module _ {G : Type 0} (compile : String → Option G) where
  unfoldable pub collate : GoMap String → List (G × String)
  collate [] = []
  collate ((glob, rule) ∷ rules) =
      let below = collate rules in
      elim (compile glob) [ none ↦ below | some pattern ↦ (pattern, rule) ∷ below ]

  unfoldable pub collate_cache_control_rules : SpaConfig G → SpaConfig G
  unfolding collate
  collate_cache_control_rules s = record s {
    cache_control_rule_pairs = s.cache_control_rule_pairs ++ collate s.cache_control_rules;
  }

  unfoldable pub new_spa_config : String → SpaConfig G
  unfolding collate_cache_control_rules
  new_spa_config input =
      let (p, uri) = derive_static_uri_from_path input in
      collate_cache_control_rules (record {
        root_folder = p;
        base_uri = uri;
        static_assets = [];
        cache_control_rules = [];
        cache_control_rule_pairs = [];
      })

module _ {G : Type 0} (compile : String → Option G) (absolute : String → Option String)
    (read_config : String → Option (PlatformServerConfig G)) where
  -- The key is tested twice, the certificate not at all.
  unfoldable pub tls_of : Flags → Option (Option TlsCertConfig)
  tls_of f =
      if not (is_empty f.cert_key)
      then (elim (absolute f.cert_key) [
        | none ↦ none
        | some key ↦ elim (absolute f.cert) [
          | none ↦ none
          | some cert ↦ some (
              some
                (record { cert_file = cert; key_file = key; skip_certificate_validation = false }))
        ]
      ])
      else some none

  abbrev pub fabric_of : Flags → Option FabricBrokerConfig
  fabric_of f =
      if f.no_fabric_broker
      then none
      else some (record {
        fabric_endpoint = f.fabric_endpoint;
        use_tcp = false;
        tcp_port = 0;
        endpoint_config = record {
          topic_prefix = f.topic_prefix;
          user_queue_prefix = f.queue_prefix;
          app_request_prefix = f.request_prefix;
          app_request_queue_prefix = f.request_queue_prefix;
        };
        heartbeat = 60000;
      })

  abbrev pub of_flags : Flags → Option TlsCertConfig → PlatformServerConfig G
  of_flags f tls = record {
    root_dir = f.root_dir;
    static_dir = f.static;
    spa_config =
        if is_empty (trim_space f.spa_path) then none else some (new_spa_config compile f.spa_path);
    host = f.hostname;
    port = f.port;
    log_config = some (record {
      access_log = f.access_log;
      error_log = f.error_log;
      output_log = f.output_log;
      root = f.root_dir;
    });
    fabric_config = fabric_of f;
    tls_cert_config = tls;
    enable_prometheus = f.prometheus;
    debug = f.debug;
    no_banner = f.no_banner;
    shutdown_timeout = in_minutes 5 f.shutdown_timeout;
    rest_bridge_timeout = in_minutes 1 f.rest_bridge_timeout;
  }

  -- `none` is an error.
  unfoldable pub generate_platform_server_config : Flags → Option (PlatformServerConfig G)
  unfolding set_timeouts collate_cache_control_rules tls_of
  generate_platform_server_config f =
      if is_empty f.config_file
      then (elim (tls_of f) [ none ↦ none | some tls ↦ some (of_flags f tls) ])
      else (elim (read_config f.config_file) [
        | none ↦ none
        | some config ↦ some (record (set_timeouts config) {
          spa_config = elim config.spa_config [
            | none ↦ none
            | some s ↦ some (collate_cache_control_rules compile s)
          ];
        })
      ])
