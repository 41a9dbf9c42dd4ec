-- ===== src/Proxy/Balancer.antt =====
-- reverse-proxy-load-balancer/internal/balancer. The two rotating strategies hold a uint64 counter,
-- which wraps; a strategy without one leaves it alone.
pub mod Choice
pub mod Rotation
use backend_infra_platform.Base.{
  ℕ, zero, suc, ◌+◌, ◌-◌, ◌%◌, ◌^◌, ℤ, pos, negsuc, ◌+ℤ◌, ltb_ℤ, leb_ℤ, ltb, String, Bool, ◌||◌,
  List, [], ◌∷◌, Option, none, some, str_eq, get_elem?, length, if◌then◌else◌,
}
use backend_infra_platform.Proxy.{Heap, Pool, healthy, active_connections, weight_of}

pub data Strategy : Type 0 where
  round_robin least_conn weighted_round_robin : Strategy

-- `New`; `none` is its error.
unfoldable pub new_balancer : String → Option Strategy
new_balancer strategy =
    if str_eq strategy "" || str_eq strategy "round_robin"
    then some Strategy.round_robin
    else if str_eq strategy "least_conn"
    then some Strategy.least_conn
    else if str_eq strategy "weighted_round_robin"
    then some Strategy.weighted_round_robin
    else none

abbrev pub uint64_mod : ℕ
uint64_mod = 2 ^ 64

-- `uint64(n)`.
abbrev pub to_uint64 : ℤ → ℕ
to_uint64 (pos n) = n % uint64_mod
to_uint64 (negsuc n) = uint64_mod - 1 - n % uint64_mod

-- `counter.Add(1)`, and `counter.Add(1) - 1`.
abbrev pub add_one : ℕ → ℕ
add_one counter = (counter + 1) % uint64_mod

abbrev pub drawn : ℕ → ℕ
drawn counter = (add_one counter + (uint64_mod - 1)) % uint64_mod

-- The loop of `LeastConn` over the rest of the healthy backends.
unfoldable pub fewest : Heap → ℕ → List ℕ → ℕ
fewest h best [] = best
fewest h best (b ∷ bs) =
    fewest h (if ltb_ℤ (active_connections h b) (active_connections h best) then b else best) bs

unfoldable pub total_weight : Heap → ℤ → List ℕ → ℤ
total_weight h total [] = total
total_weight h total (b ∷ bs) = total_weight h (total +ℤ weight_of h b) bs

-- The last loop of `WeightedRoundRobin`; `last` is what it returns after the loop.
unfoldable pub pick : Heap → ℕ → ℤ → ℕ → List ℕ → ℕ
pick h slot cumulative last [] = last
pick h slot cumulative last (b ∷ bs) =
    let rest = pick h slot (cumulative +ℤ weight_of h b) b bs in
    if ltb slot (to_uint64 (cumulative +ℤ weight_of h b)) then b else rest

-- Indexing a slice.
rotate : ℕ → List ℕ → Option ℕ
rotate idx bs = get_elem? bs (idx % length bs)

-- The address chosen, or `none` for `ErrNoHealthyBackends`, and the counter.
next_of : Strategy → Heap → ℕ → List ℕ → Option ℕ × ℕ
unfolding fewest total_weight pick rotate
next_of s h counter [] = (none, counter)
next_of Strategy.round_robin h counter (b ∷ bs) = (rotate (drawn counter) (b ∷ bs), add_one counter)
next_of Strategy.least_conn h counter (b ∷ bs) = (some (fewest h b bs), counter)
next_of Strategy.weighted_round_robin h counter (b ∷ bs) =
    let total = total_weight h (pos 0) (b ∷ bs) in
    (
      if leb_ℤ total (pos 0)
          then rotate (drawn counter) (b ∷ bs)
          else some (pick h (drawn counter % to_uint64 total) (pos 0) b (b ∷ bs)),
      add_one counter,
    )

unfoldable pub next : Strategy → Heap → Pool → ℕ → Option ℕ × ℕ
unfolding next_of
next s h pool counter = next_of s h counter (healthy h pool)
