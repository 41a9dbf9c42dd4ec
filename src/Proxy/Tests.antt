-- ===== src/Proxy/Tests.antt =====
-- Runs of the proxy on a pool of two backends: the theorems at concrete inputs.
use backend_infra_platform.Base.{
  ℕ, ◌<◌, ◌≤◌, pos, pos_part, ◌+ℤ◌, ◌≤ℤ◌, true, false, [], ◌∷◌, none, some, ◌≡◌, refl, ◌⊎◌, arith,
  Memᴰ, All, length, ◌+◌, get_elem?,
}
use backend_infra_platform.Base.SyncMap.{load}
use backend_infra_platform.Proxy.{Backend, Heap, Pool, healthy, is_alive, active_connections}
use backend_infra_platform.Proxy.Balancer.{Strategy, next, fewest}
use backend_infra_platform.Proxy.Balancer.Rotation.{turn, round_robin-turns}
use backend_infra_platform.Proxy.Balancer.Choice.{next-outcome, least_conn-minimal}
use backend_infra_platform.Proxy.Checker.{new_checker, Probe, is_success, count_of}
use backend_infra_platform.Proxy.Checker.Thresholds.{check_times, check_times-fails}
use backend_infra_platform.Proxy.Checker.Recovery.{check_times-passes}
use backend_infra_platform.Proxy.Provider.{BackendSpec, ConfigProvider, is_same, existing, refresh}
use backend_infra_platform.Proxy.Provider.Reuse.{refresh-reuses}
use backend_infra_platform.Proxy.Forward.{Outcome, is_idempotent, serve_http}
use backend_infra_platform.Proxy.Forward.Attempts.{serve_http-bounded, serve_http-active}

abbrev first : Backend
first = record {
  name = "b1";
  url = "http://b1";
  weight = pos 1;
  alive = true;
  active_conns = pos 0;
  total_reqs = pos 0;
  total_errs = pos 0;
}

abbrev second : Backend
second = record first { name = "b2"; url = "http://b2"; active_conns = pos 1 }

abbrev heap : Heap
heap = first ∷ second ∷ []

abbrev pool : Pool
pool = 0 ∷ 1 ∷ []

abbrev send : ℕ → ℕ → Outcome
send attempt a = Outcome.broken

next-outcome_example :
    ((healthy heap pool ≡ []) × ((next Strategy.weighted_round_robin heap pool 7).0 ≡ none))
    ⊎ ((a : ℕ) × ((next Strategy.weighted_round_robin heap pool 7).0 ≡ some a)
        × Memᴰ a pool
        × (is_alive heap a ≡ true))
next-outcome_example = next-outcome Strategy.weighted_round_robin heap pool 7

round_robin-turns_example : (k : ℕ) × (k < 2) × (turn heap pool 7 k ≡ some 0)
unfolding healthy is_alive
round_robin-turns_example = round_robin-turns heap pool 7 0 (omega arith) (omega arith)

least_conn-minimal_example :
    All (λ b. active_connections heap 0 ≤ℤ active_connections heap b) (healthy heap pool)
unfolding next healthy is_alive fewest active_connections
least_conn-minimal_example = least_conn-minimal heap pool 0 0 refl

-- Two requests take the counter between two rounds of this one.
abbrev draws : ℕ → ℕ → ℕ
draws attempt counter = counter + 2

abbrev still : ℕ → Heap → Heap
still attempt h = h

serve_http-bounded_example :
    let served = serve_http Strategy.round_robin pool (pos 2) "POST" send still draws heap 0 in
    (length served.sent ≤ pos_part (pos 2 +ℤ pos 1)) × (length served.sent ≤ 1)
unfolding is_idempotent
serve_http-bounded_example =
    serve_http-bounded Strategy.round_robin pool (pos 2) "POST" send still draws heap 0

serve_http-active_example :
    active_connections
      (serve_http Strategy.round_robin pool (pos 2) "GET" send still draws heap 0).heap
      1
    ≡ active_connections heap 1
serve_http-active_example =
    serve_http-active Strategy.round_robin pool (pos 2) "GET" send still draws heap 0 1
      (λ attempt h x. refl)

check_times-fails_example :
    get_elem? (check_times 3 Probe.no_response 0 (new_checker (pos 3) (pos 2)) heap).1 0
    ≡ some (record first { alive = false })
unfolding new_checker is_success count_of load
check_times-fails_example =
    check_times-fails 3 Probe.no_response 0 first (new_checker (pos 3) (pos 2)) heap refl refl
      (omega arith) (omega arith)

abbrev dead : Backend
dead = record first { alive = false }

check_times-passes_example :
    get_elem? (check_times 2 (Probe.responded 204) 0 (new_checker (pos 3) (pos 2)) (dead ∷ [])).1 0
    ≡ some first
unfolding new_checker is_success count_of load
check_times-passes_example =
    check_times-passes 2 (Probe.responded 204) 0 dead (new_checker (pos 3) (pos 2)) (dead ∷ []) refl
      refl (omega arith) (omega arith)

abbrev spec : BackendSpec
spec = record { name = "b1"; url = "http://b1"; weight = pos 1 }

abbrev provider : ConfigProvider
provider = record { known = ("b1", 0) ∷ []; pool = 0 ∷ []; heap = heap }

refresh-reuses_example :
    Memᴰ 0 (refresh some (some (spec ∷ [])) provider).pool
    × (get_elem? (refresh some (some (spec ∷ [])) provider).heap 0 ≡ some first)
unfolding existing is_same load
refresh-reuses_example = refresh-reuses some (spec ∷ []) provider spec 0 (Memᴰ.head refl) refl
