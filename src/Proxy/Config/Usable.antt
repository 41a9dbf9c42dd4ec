-- ===== src/Proxy/Config/Usable.antt =====
-- What a configuration that `Load` returns can be relied on for.
use backend_infra_platform.Base.{
  ℤ, pos, eqb_ℤ, String, str_eq, true, false, not, ◌&&◌, List, [], ◌∷◌, none, some, map, All, ◌≡◌,
  refl, subst, ◌⊎◌, inl, inr, arith, Bool-cases, Option-cases, eq_iff,
}
use backend_infra_platform.Proxy.Balancer.{Strategy, new_balancer}
use backend_infra_platform.Proxy.Config.{
  Config, BackendConfig, ConfigError, Loaded, text_or, number_or, with_weight, apply_defaults,
  is_empty_list, check_backends, check_strategy, validate, load_config, seconds_2, seconds_5,
  seconds_10, milliseconds_500,
}

text_or_twice : (x d : String) → str_eq d "" ≡ false → text_or (text_or x d) d ≡ text_or x d
text_or_twice x d h = elim (Bool-cases (str_eq x "")) [
  | inl e ↦ rw (e, h) refl
  | inr e ↦ rw (e, e) refl
]

number_or_nonzero : (x d : ℤ) → eqb_ℤ d (pos 0) ≡ false → eqb_ℤ (number_or x d) (pos 0) ≡ false
number_or_nonzero x d h = elim (Bool-cases (eqb_ℤ x (pos 0))) [
  | inl e ↦ rw (e, h) refl
  | inr e ↦ rw (e, e) refl
]

number_or_twice : (x d : ℤ) → eqb_ℤ d (pos 0) ≡ false → number_or (number_or x d) d ≡ number_or x d
number_or_twice x d h = rw (number_or_nonzero x d h) refl

with_weight_twice :
    (bs : List BackendConfig) → map with_weight (map with_weight bs) ≡ map with_weight bs
with_weight_twice [] = refl
with_weight_twice (b ∷ bs) =
    λ i. record b { weight = number_or_twice b.weight (pos 1) refl i } ∷ with_weight_twice bs i

apply_defaults_twice : (c : Config) → apply_defaults (apply_defaults c) ≡ apply_defaults c
unfolding apply_defaults
apply_defaults_twice c = λ i. record {
  server = record {
    listen_addr = text_or_twice c.server.listen_addr ":8080" refl i;
    read_timeout = number_or_twice c.server.read_timeout seconds_5 refl i;
    write_timeout = number_or_twice c.server.write_timeout seconds_10 refl i;
    shutdown_timeout = number_or_twice c.server.shutdown_timeout seconds_5 refl i;
  };
  load_balancer = record {
    strategy = text_or_twice c.load_balancer.strategy "round_robin" refl i;
    max_retries = c.load_balancer.max_retries;
    backend_timeout = number_or_twice c.load_balancer.backend_timeout seconds_2 refl i;
  };
  health_check = record {
    enabled = c.health_check.enabled;
    path = text_or_twice c.health_check.path "/health" refl i;
    interval = number_or_twice c.health_check.interval seconds_2 refl i;
    timeout = number_or_twice c.health_check.timeout milliseconds_500 refl i;
    unhealthy_threshold = number_or_twice c.health_check.unhealthy_threshold (pos 2) refl i;
    healthy_threshold = number_or_twice c.health_check.healthy_threshold (pos 2) refl i;
  };
  backends = with_weight_twice c.backends i;
  discovery = record {
    enabled = c.discovery.enabled;
    control_plane_url = c.discovery.control_plane_url;
    refresh_interval = number_or_twice c.discovery.refresh_interval seconds_5 refl i;
  };
  logging = record {
    level = text_or_twice c.logging.level "info" refl i;
    format = text_or_twice c.logging.format "json" refl i;
  };
  metrics = record {
    enabled = c.metrics.enabled;
    path = text_or_twice c.metrics.path "/metrics" refl i;
  };
}

check_backends-All :
    (bs : List BackendConfig)
    → check_backends bs ≡ none
    → All (λ b. (str_eq b.name "" ≡ false) × (str_eq b.url "" ≡ false)) bs
unfolding check_backends
check_backends-All [] e = tt
check_backends-All (b ∷ bs) e = ground (arith, check_backends-All bs, e)

with_weight-All :
    (bs : List BackendConfig) → All (λ b. eqb_ℤ b.weight (pos 0) ≡ false) (map with_weight bs)
with_weight-All [] = tt
with_weight-All (b ∷ bs) = (number_or_nonzero b.weight (pos 1) refl, with_weight-All bs)

rejected : {e : ConfigError} → some e ≡ none → ⊥
rejected e = cc

check_strategy-new_balancer :
    (text : String) → check_strategy text ≡ none → (st : Strategy) × (new_balancer text ≡ some st)
unfolding check_strategy new_balancer
check_strategy-new_balancer text e = elim (Bool-cases (str_eq text "round_robin")) [
  | inl a ↦ (Strategy.round_robin, rw ((eq_iff text "round_robin").0 a) refl)
  | inr a ↦ elim (Bool-cases (str_eq text "least_conn")) [
    | inl b ↦ (Strategy.least_conn, rw ((eq_iff text "least_conn").0 b) refl)
    | inr b ↦ elim (Bool-cases (str_eq text "weighted_round_robin")) [
      | inl c ↦ (Strategy.weighted_round_robin, rw ((eq_iff text "weighted_round_robin").0 c) refl)
      | inr c ↦ absurd (rejected (rw (a, b, c, check_strategy) at e))
    ]
  ]
]

-- Where the backends come from.
abbrev pub HasSource : Config → Type 0
HasSource c =
    ((c.discovery.enabled ≡ true) × (str_eq c.discovery.control_plane_url "" ≡ false))
    ⊎ (is_empty_list c.backends ≡ false)

source :
    (c : Config)
    → (not c.discovery.enabled && is_empty_list c.backends) ≡ false
    → (c.discovery.enabled && str_eq c.discovery.control_plane_url "") ≡ false
    → HasSource c
source c a b = elim (Bool-cases c.discovery.enabled) [
  | inl on ↦ inl (on, rw on at b)
  | inr off ↦ inr (rw off at a)
]

validate-eq-none :
    (c : Config)
    → validate c ≡ none
    → (check_backends c.backends ≡ none)
      × (check_strategy c.load_balancer.strategy ≡ none)
      × HasSource c
unfolding validate
validate-eq-none c e = elim (Bool-cases (not c.discovery.enabled && is_empty_list c.backends)) [
  | inl a ↦ absurd (rejected (rw (a, validate) at e))
  | inr a ↦ elim (Bool-cases (c.discovery.enabled && str_eq c.discovery.control_plane_url "")) [
    | inl b ↦ absurd (rejected (rw (a, b, validate) at e))
    | inr b ↦ elim (Option-cases (check_backends c.backends)) [
      | inl f ↦ (f, rw (a, b, f, validate) at e, source c a b)
      | inr (err, f) ↦ absurd (rejected (rw (a, b, f, validate) at e))
    ]
  ]
]

loaded_config : {c d : Config} → Loaded.loaded c ≡ Loaded.loaded d → c ≡ d
loaded_config e = cc

not_failed : {err : ConfigError} {c : Config} → Loaded.failed err ≡ Loaded.loaded c → ⊥
not_failed e = cc

load_config_loaded :
    (raw c : Config)
    → load_config (some raw) ≡ Loaded.loaded c
    → (validate (apply_defaults raw) ≡ none) × (apply_defaults raw ≡ c)
unfolding load_config
load_config_loaded raw c e = elim (Option-cases (validate (apply_defaults raw))) [
  | inl v ↦ (v, loaded_config (rw (v, load_config) at e))
  | inr (err, v) ↦ absurd (not_failed (rw (v, load_config) at e))
]

-- A configuration that `Load` returns is usable: its strategy is one that the balancer knows; each
-- backend has a name, a URL and a weight other than 0; there is a backend, or discovery is on and has
-- a URL; no interval of the health checks or the discovery and no timeout of a probe or a backend
-- is 0. The defaults are filled in: filling them in again changes nothing.
pub load_config-usable :
    (raw c : Config)
    → load_config (some raw) ≡ Loaded.loaded c
    → ((st : Strategy) × (new_balancer c.load_balancer.strategy ≡ some st))
      × All (λ b. (str_eq b.name "" ≡ false) × (str_eq b.url "" ≡ false)) c.backends
      × All (λ b. eqb_ℤ b.weight (pos 0) ≡ false) c.backends
      × HasSource c
      × (eqb_ℤ c.health_check.interval (pos 0) ≡ false)
      × (eqb_ℤ c.health_check.timeout (pos 0) ≡ false)
      × (eqb_ℤ c.discovery.refresh_interval (pos 0) ≡ false)
      × (eqb_ℤ c.load_balancer.backend_timeout (pos 0) ≡ false)
      × (apply_defaults c ≡ c)
unfolding apply_defaults
load_config-usable raw c e =
    let (valid, same) = load_config_loaded raw c e in
    let (backends, strategy, source) = validate-eq-none (apply_defaults raw) valid in
    subst
      (λ (c : Config).
        ((st : Strategy) × (new_balancer c.load_balancer.strategy ≡ some st))
        × All (λ b. (str_eq b.name "" ≡ false) × (str_eq b.url "" ≡ false)) c.backends
        × All (λ b. eqb_ℤ b.weight (pos 0) ≡ false) c.backends
        × HasSource c
        × (eqb_ℤ c.health_check.interval (pos 0) ≡ false)
        × (eqb_ℤ c.health_check.timeout (pos 0) ≡ false)
        × (eqb_ℤ c.discovery.refresh_interval (pos 0) ≡ false)
        × (eqb_ℤ c.load_balancer.backend_timeout (pos 0) ≡ false)
        × (apply_defaults c ≡ c))
      same
      (
        check_strategy-new_balancer (apply_defaults raw).load_balancer.strategy strategy,
        check_backends-All (apply_defaults raw).backends backends,
        with_weight-All raw.backends,
        source,
        number_or_nonzero raw.health_check.interval seconds_2 refl,
        number_or_nonzero raw.health_check.timeout milliseconds_500 refl,
        number_or_nonzero raw.discovery.refresh_interval seconds_5 refl,
        number_or_nonzero raw.load_balancer.backend_timeout seconds_2 refl,
        apply_defaults_twice raw,
      )
