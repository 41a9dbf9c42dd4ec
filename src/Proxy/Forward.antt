-- ===== src/Proxy/Forward.antt =====
-- reverse-proxy-load-balancer/internal/proxy: handler.go. What a
-- backend does with a request is outside: `send` gives the outcome of each attempt. So is what the
-- requests served at the same time and the health checker do to the shared backends and to the
-- counter of the balancer: `others` and `draws` give it, in front of each round. Metrics and logging
-- are left out.
pub mod Attempts
pub mod Retry
use backend_infra_platform.Base.{
  ℕ, zero, suc, ℤ, pos, pos_part, ◌+ℤ◌, ◌==◌, String, Bool, true, false, not, ◌&&◌, ◌||◌, List, [],
  ◌∷◌, Option, none, some, str_eq, if◌then◌else◌,
}
use backend_infra_platform.Proxy.{
  Heap, Pool, write, inc_connections, dec_connections, inc_requests, inc_errors,
}
use backend_infra_platform.Proxy.Balancer.{Strategy, next}

-- A backend answers with a status, or the exchange fails, by a timeout or otherwise.
pub data Outcome : Type 0 where
  answered : ℕ → Outcome
  timed_out broken : Outcome

unfoldable pub is_idempotent : String → Bool
is_idempotent method = str_eq method "GET" || str_eq method "HEAD" || str_eq method "OPTIONS"

unfoldable pub is_error : Outcome → Bool
is_error (Outcome.answered status) = false
is_error _ = true

-- The status that `proxyOnce` returns.
unfoldable pub status_of : Outcome → ℕ
status_of (Outcome.answered status) = status
status_of Outcome.timed_out = 504
status_of Outcome.broken = 502

-- The heap after one forward to `a`, its deferred call included.
unfoldable pub proxy_once : ℕ → Outcome → Heap → Heap
unfolding is_error
proxy_once a outcome h =
    let h₁ = write a inc_requests (write a inc_connections h) in
    let h₂ = if is_error outcome then write a inc_errors h₁ else h₁ in write a dec_connections h₂

-- What a request leaves: the heap, the balancer's counter, the backends it was sent to, in order,
-- and the status that the client sees.
pub record Served : Type 0 where
  pub heap : Heap
  pub counter : ℕ
  pub sent : List ℕ
  pub status : ℕ

-- The statements after the loop.
unfoldable pub give_up_status : ℕ → ℕ
give_up_status last_status = if last_status == 0 then 502 else last_status

module _ (strategy : Strategy) (pool : Pool) (can_retry : Bool) (send : ℕ → ℕ → Outcome)
    (others : ℕ → Heap → Heap) (draws : ℕ → ℕ → ℕ) where
  -- `left` more rounds, from round `attempt` on; `send attempt a` is what backend `a` does in it.
  unfoldable pub try : ℕ → ℕ → ℕ → Heap → ℕ → Served
  try zero attempt last_status h counter = record {
    heap = h;
    counter = counter;
    sent = [];
    status = give_up_status last_status;
  }
  try (suc left) attempt last_status h counter =
      let h₀ = others attempt h in
      let (chosen, counter') = next strategy h₀ pool (draws attempt counter) in
      elim chosen [
        | none ↦ record { heap = h₀; counter = counter'; sent = []; status = 503 }
        | some a ↦
            let outcome = send attempt a in
            let h' = proxy_once a outcome h₀ in
            let rest = try left (suc attempt) (status_of outcome) h' counter' in
            if not (is_error outcome)
            then record { heap = h'; counter = counter'; sent = a ∷ []; status = status_of outcome }
            else if not can_retry || left == 0
            then record {
              heap = h';
              counter = counter';
              sent = a ∷ [];
              status = give_up_status (status_of outcome);
            }
            else record rest { sent = a ∷ rest.sent }
      ]

unfoldable pub serve_http :
    Strategy
    → Pool
    → ℤ
    → String
    → (ℕ → ℕ → Outcome)
    → (ℕ → Heap → Heap)
    → (ℕ → ℕ → ℕ)
    → Heap
    → ℕ
    → Served
serve_http strategy pool max_retries method send others draws h counter =
    try strategy pool (is_idempotent method) send others draws (pos_part (max_retries +ℤ pos 1)) 0 0
      h counter
