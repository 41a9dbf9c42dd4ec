-- ===== src/Proxy/Config.antt =====
-- reverse-proxy-load-balancer/internal/config/config.go. Reading the file and the YAML decoder are an
-- argument. A `Duration` is its number of nanoseconds.
pub mod Usable
mod Tests
use backend_infra_platform.Base.{
  ℤ, pos, eqb_ℤ, String, str_eq, Bool, true, false, not, ◌&&◌, ◌||◌, List, [], ◌∷◌, Option, none,
  some, map, if◌then◌else◌,
}

abbrev pub Duration : Type 0
Duration = ℤ

pub record DiscoveryConfig : Type 0 where
  pub enabled : Bool
  pub control_plane_url : String
  pub refresh_interval : Duration

pub record ServerConfig : Type 0 where
  pub listen_addr : String
  pub read_timeout : Duration
  pub write_timeout : Duration
  pub shutdown_timeout : Duration

pub record LoadBalancerConfig : Type 0 where
  pub strategy : String
  pub max_retries : ℤ
  pub backend_timeout : Duration

pub record ProbeConfig : Type 0 where
  pub enabled : Bool
  pub path : String
  pub interval : Duration
  pub timeout : Duration
  pub unhealthy_threshold : ℤ
  pub healthy_threshold : ℤ

pub record BackendConfig : Type 0 where
  pub name : String
  pub url : String
  pub weight : ℤ

pub record LoggingConfig : Type 0 where
  pub level : String
  pub format : String

pub record MetricsConfig : Type 0 where
  pub enabled : Bool
  pub path : String

pub record Config : Type 0 where
  pub server : ServerConfig
  pub load_balancer : LoadBalancerConfig
  pub health_check : ProbeConfig
  pub backends : List BackendConfig
  pub discovery : DiscoveryConfig
  pub logging : LoggingConfig
  pub metrics : MetricsConfig

-- `if x == "" { x = d }`
abbrev pub text_or : String → String → String
text_or x d = if str_eq x "" then d else x

-- `if x == 0 { x = d }`
abbrev pub number_or : ℤ → ℤ → ℤ
number_or x d = if eqb_ℤ x (pos 0) then d else x

-- In nanoseconds.
abbrev pub milliseconds_500 : Duration
milliseconds_500 = pos 500000000

abbrev pub seconds_2 : Duration
seconds_2 = pos 2000000000

abbrev pub seconds_5 : Duration
seconds_5 = pos 5000000000

abbrev pub seconds_10 : Duration
seconds_10 = pos 10000000000

abbrev pub with_weight : BackendConfig → BackendConfig
with_weight b = record b { weight = number_or b.weight (pos 1) }

unfoldable pub apply_defaults : Config → Config
apply_defaults cfg = record {
  server = record {
    listen_addr = text_or cfg.server.listen_addr ":8080";
    read_timeout = number_or cfg.server.read_timeout seconds_5;
    write_timeout = number_or cfg.server.write_timeout seconds_10;
    shutdown_timeout = number_or cfg.server.shutdown_timeout seconds_5;
  };
  load_balancer = record {
    strategy = text_or cfg.load_balancer.strategy "round_robin";
    max_retries = cfg.load_balancer.max_retries;
    backend_timeout = number_or cfg.load_balancer.backend_timeout seconds_2;
  };
  health_check = record {
    enabled = cfg.health_check.enabled;
    path = text_or cfg.health_check.path "/health";
    interval = number_or cfg.health_check.interval seconds_2;
    timeout = number_or cfg.health_check.timeout milliseconds_500;
    unhealthy_threshold = number_or cfg.health_check.unhealthy_threshold (pos 2);
    healthy_threshold = number_or cfg.health_check.healthy_threshold (pos 2);
  };
  backends = map with_weight cfg.backends;
  discovery = record {
    enabled = cfg.discovery.enabled;
    control_plane_url = cfg.discovery.control_plane_url;
    refresh_interval = number_or cfg.discovery.refresh_interval seconds_5;
  };
  logging = record {
    level = text_or cfg.logging.level "info";
    format = text_or cfg.logging.format "json";
  };
  metrics = record { enabled = cfg.metrics.enabled; path = text_or cfg.metrics.path "/metrics" };
}

-- The errors of `Load`, with what their texts carry.
pub data ConfigError : Type 0 where
  unreadable no_backends no_control_plane_url backend_without_name : ConfigError
  backend_without_url unsupported_strategy : String → ConfigError

abbrev pub is_empty_list : List BackendConfig → Bool
is_empty_list [] = true
is_empty_list (b ∷ bs) = false

-- The first error of the loop over the backends.
unfoldable pub check_backends : List BackendConfig → Option ConfigError
check_backends [] = none
check_backends (b ∷ bs) =
    let rest = check_backends bs in
    if str_eq b.name ""
    then some ConfigError.backend_without_name
    else if str_eq b.url ""
    then some (ConfigError.backend_without_url b.name)
    else rest

unfoldable pub check_strategy : String → Option ConfigError
check_strategy strategy =
    if str_eq strategy "round_robin"
      || (str_eq strategy "least_conn" || str_eq strategy "weighted_round_robin")
    then none
    else some (ConfigError.unsupported_strategy strategy)

-- `none` is no error.
unfoldable pub validate : Config → Option ConfigError
validate c =
    if not c.discovery.enabled && is_empty_list c.backends
    then some ConfigError.no_backends
    else if c.discovery.enabled && str_eq c.discovery.control_plane_url ""
    then some ConfigError.no_control_plane_url
    else elim (check_backends c.backends) [
      | some e ↦ some e
      | none ↦ check_strategy c.load_balancer.strategy
    ]

pub data Loaded : Type 0 where
  loaded : Config → Loaded
  failed : ConfigError → Loaded

-- `parsed` is what the file and the decoder give; `none` is an error of either.
unfoldable pub load_config : Option Config → Loaded
load_config none = Loaded.failed ConfigError.unreadable
load_config (some cfg) = elim (validate (apply_defaults cfg)) [
  | some e ↦ Loaded.failed e
  | none ↦ Loaded.loaded (apply_defaults cfg)
]
