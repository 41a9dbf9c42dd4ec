-- ===== src/Proxy/Config/Tests.antt =====
-- A small configuration.
use backend_infra_platform.Base.{pos, str_eq, true, false, [], ◌∷◌, some, All, ◌≡◌, refl, eqb_ℤ}
use backend_infra_platform.Proxy.Balancer.{Strategy, new_balancer}
use backend_infra_platform.Proxy.Config.{
  Config, Loaded, apply_defaults, check_backends, check_strategy, validate, load_config,
}
use backend_infra_platform.Proxy.Config.Usable.{HasSource, load_config-usable}

-- One backend, and nothing else but a strategy.
abbrev short : Config
short = record {
  server = record {
    listen_addr = "";
    read_timeout = pos 0;
    write_timeout = pos 0;
    shutdown_timeout = pos 0;
  };
  load_balancer = record { strategy = "least_conn"; max_retries = pos 1; backend_timeout = pos 0 };
  health_check = record {
    enabled = true;
    path = "";
    interval = pos 0;
    timeout = pos 0;
    unhealthy_threshold = pos 0;
    healthy_threshold = pos 0;
  };
  backends = record { name = "a"; url = "http://a:9000"; weight = pos 0 } ∷ [];
  discovery = record { enabled = false; control_plane_url = ""; refresh_interval = pos 0 };
  logging = record { level = ""; format = "" };
  metrics = record { enabled = false; path = "" };
}

short_loads : load_config (some short) ≡ Loaded.loaded (apply_defaults short)
unfolding load_config validate apply_defaults check_backends check_strategy
short_loads = refl

load_config-usable_example :
    ((st : Strategy) × (new_balancer (apply_defaults short).load_balancer.strategy ≡ some st))
    × All
        (λ b. (str_eq b.name "" ≡ false) × (str_eq b.url "" ≡ false))
        (apply_defaults short).backends
    × All (λ b. eqb_ℤ b.weight (pos 0) ≡ false) (apply_defaults short).backends
    × HasSource (apply_defaults short)
    × (eqb_ℤ (apply_defaults short).health_check.interval (pos 0) ≡ false)
    × (eqb_ℤ (apply_defaults short).health_check.timeout (pos 0) ≡ false)
    × (eqb_ℤ (apply_defaults short).discovery.refresh_interval (pos 0) ≡ false)
    × (eqb_ℤ (apply_defaults short).load_balancer.backend_timeout (pos 0) ≡ false)
    × (apply_defaults (apply_defaults short) ≡ apply_defaults short)
load_config-usable_example = load_config-usable short (apply_defaults short) short_loads
