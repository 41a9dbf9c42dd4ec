-- ===== src/Proxy/Forward/Attempts.antt =====
-- How often a request is sent, and what it leaves of the connection counts.
use backend_infra_platform.Base.{
  ℕ, zero, suc, ◌≤◌, ◌==◌, ℤ, pos, pos_part, ◌+ℤ◌, ◌-ℤ◌, +ℤ_parts, -ℤ_parts, eq_of_parts, String,
  Bool, true, false, not, ◌||◌, [], ◌∷◌, Option, none, some, ◌≡◌, refl, ap, arith, inl, inr,
  Bool-cases, Option-cases, length, get_elem?, if◌then◌else◌,
}
use backend_infra_platform.Proxy.{
  Backend, Heap, Pool, write, active_connections, is_alive, inc_connections, dec_connections,
  inc_requests, inc_errors,
}
use backend_infra_platform.Proxy.Balancer.{Strategy, next}
use backend_infra_platform.Proxy.Forward.{
  Outcome, is_idempotent, is_error, status_of, proxy_once, give_up_status, try, serve_http,
}

-- One round, by the choice of its backend.
module _ (strategy : Strategy) (pool : Pool) (can_retry : Bool) (send : ℕ → ℕ → Outcome)
    (others : ℕ → Heap → Heap) (draws : ℕ → ℕ → ℕ) (left attempt last : ℕ) (h : Heap)
    (counter : ℕ) where
  pub try-none :
      (next strategy (others attempt h) pool (draws attempt counter)).0 ≡ none
      → try strategy pool can_retry send others draws (suc left) attempt last h counter ≡ record {
        heap = others attempt h;
        counter = (next strategy (others attempt h) pool (draws attempt counter)).1;
        sent = [];
        status = 503;
      }
  unfolding try
  try-none e = rw (e, try) refl

  pub try-some :
      (a : ℕ)
      → (next strategy (others attempt h) pool (draws attempt counter)).0 ≡ some a
      → let outcome = send attempt a in
        let h' = proxy_once a outcome (others attempt h) in
        let counter' = (next strategy (others attempt h) pool (draws attempt counter)).1 in
        let rest =
          try strategy pool can_retry send others draws left
            (suc attempt)
            (status_of outcome)
            h'
            counter' in
        try strategy pool can_retry send others draws (suc left) attempt last h counter ≡ (
          if not (is_error outcome)
          then record { heap = h'; counter = counter'; sent = a ∷ []; status = status_of outcome }
          else if not can_retry || left == 0
          then record {
            heap = h';
            counter = counter';
            sent = a ∷ [];
            status = give_up_status (status_of outcome);
          }
          else record rest { sent = a ∷ rest.sent })
  unfolding try
  try-some a e = rw (e, try) refl

  pub try-zero :
      try strategy pool can_retry send others draws 0 attempt last h counter
      ≡ record { heap = h; counter = counter; sent = []; status = give_up_status last }
  unfolding try
  try-zero = refl

module _ (strategy : Strategy) (pool : Pool) (can_retry : Bool) (send : ℕ → ℕ → Outcome)
    (others : ℕ → Heap → Heap) (draws : ℕ → ℕ → ℕ) where
  try-length :
      (left attempt last : ℕ) (h : Heap) (counter : ℕ)
      → (length (try strategy pool can_retry send others draws left attempt last h counter).sent
          ≤ left)
        × (can_retry ≡ false
            → length
                (try strategy pool can_retry send others draws left attempt last h counter).sent
              ≤ 1)
  try-length zero attempt last h counter = rw try-zero (omega arith, λ _. omega arith)
  try-length (suc left) attempt last h counter =
      elim (Option-cases (next strategy (others attempt h) pool (draws attempt counter)).0) [
        | inl e ↦
            rw (try-none strategy pool can_retry send others draws left attempt last h counter e)
              (omega arith, λ _. omega arith)
        | inr (a, e) ↦
            let ih =
              try-length left (suc attempt) (status_of (send attempt a))
                (proxy_once a (send attempt a) (others attempt h))
                (next strategy (others attempt h) pool (draws attempt counter)).1 in
            rw (try-some strategy pool can_retry send others draws left attempt last h counter a e)
              (ground (arith, ih.0), λ no. ground (arith, no))
      ]

bounded_if : (b : Bool) (n m : ℕ) → n ≤ m → (b ≡ false → n ≤ 1) → n ≤ (if b then m else 1)
bounded_if true n m h k = h
bounded_if false n m h k = k refl

-- A request is sent at most `max_retries` + 1 times, and never if that is negative; a request whose
-- method is not idempotent is sent at most once. Both hold whatever else is served at the same time.
pub serve_http-bounded :
    (strategy : Strategy) (pool : Pool) (max_retries : ℤ) (method : String) (send : ℕ → ℕ → Outcome)
    (others : ℕ → Heap → Heap) (draws : ℕ → ℕ → ℕ) (h : Heap) (counter : ℕ)
    → let served = serve_http strategy pool max_retries method send others draws h counter in
      (length served.sent ≤ pos_part (max_retries +ℤ pos 1))
      × (length served.sent ≤ (if is_idempotent method then pos_part (max_retries +ℤ pos 1) else 1))
unfolding serve_http
serve_http-bounded strategy pool max_retries method send others draws h counter =
    let (all, one) =
      try-length strategy pool (is_idempotent method) send others draws _ 0 0 h counter in
    (all, bounded_if (is_idempotent method) _ _ all one)

back : (n : ℤ) → (n +ℤ pos 1) -ℤ pos 1 ≡ n
back n = eq_of_parts _ _ (omega (arith, +ℤ_parts n (pos 1), -ℤ_parts (n +ℤ pos 1) (pos 1)))

-- One forward leaves the fields that a choice looks at.
abbrev pub Alike : Option Backend → Option Backend → Type 0
Alike none none = Unit
Alike none (some c) = ⊥
Alike (some b) none = ⊥
Alike (some b) (some c) = (b.active_conns ≡ c.active_conns) × (b.alive ≡ c.alive)

write-write :
    (a : ℕ) (f g : Backend → Backend) (h : Heap)
    → write a f (write a g h) ≡ write a (λ b. f (g b)) h
unfolding write
write-write a f g [] = refl
write-write zero f g (b ∷ h) = refl
write-write (suc a) f g (b ∷ h) = ap (λ t. b ∷ t) (write-write a f g h)

Alike-refl : (o : Option Backend) → Alike o o
Alike-refl none = tt
Alike-refl (some b) = (refl, refl)

-- What one forward does to its backend.
forwarded : Bool → Backend → Backend
unfolding inc_connections dec_connections inc_requests inc_errors
forwarded true b = dec_connections (inc_errors (inc_requests (inc_connections b)))
forwarded false b = dec_connections (inc_requests (inc_connections b))

forwarded-Alike : (failed : Bool) (b : Backend) → Alike (some (forwarded failed b)) (some b)
unfolding forwarded inc_connections dec_connections inc_requests inc_errors
forwarded-Alike true b = (back b.active_conns, refl)
forwarded-Alike false b = (back b.active_conns, refl)

proxy_once-eq :
    (a : ℕ) (outcome : Outcome) (h : Heap)
    → proxy_once a outcome h ≡ write a (forwarded (is_error outcome)) h
unfolding proxy_once forwarded
proxy_once-eq a outcome h = elim (Bool-cases (is_error outcome)) [
  | inl e ↦ rw e (rw (write-write, write-write, write-write) refl)
  | inr e ↦ rw e (rw (write-write, write-write) refl)
]

write-Alike :
    (failed : Bool) (a : ℕ) (h : Heap) (x : ℕ)
    → Alike (get_elem? (write a (forwarded failed) h) x) (get_elem? h x)
unfolding write
write-Alike failed a [] x = tt
write-Alike failed zero (b ∷ h) zero = forwarded-Alike failed b
write-Alike failed zero (b ∷ h) (suc x) = Alike-refl (get_elem? h x)
write-Alike failed (suc a) (b ∷ h) zero = (refl, refl)
write-Alike failed (suc a) (b ∷ h) (suc x) = write-Alike failed a h x

pub proxy_once-Alike :
    (a : ℕ) (outcome : Outcome) (h : Heap) (x : ℕ)
    → Alike (get_elem? (proxy_once a outcome h) x) (get_elem? h x)
proxy_once-Alike a outcome h x = rw proxy_once-eq (write-Alike (is_error outcome) a h x)

pub Alike-active :
    (h h' : Heap) (x : ℕ)
    → Alike (get_elem? h' x) (get_elem? h x)
    → active_connections h' x ≡ active_connections h x
unfolding active_connections
Alike-active h h' x l = ground (arith, l)

pub Alike-alive :
    (h h' : Heap) (x : ℕ) → Alike (get_elem? h' x) (get_elem? h x) → is_alive h' x ≡ is_alive h x
unfolding is_alive
Alike-alive h h' x l = ground (arith, l)

module _ (strategy : Strategy) (pool : Pool) (can_retry : Bool) (send : ℕ → ℕ → Outcome)
    (others : ℕ → Heap → Heap) (draws : ℕ → ℕ → ℕ) where
  try-active :
      (balanced : (attempt : ℕ) (h : Heap) (x : ℕ)
        → active_connections (others attempt h) x ≡ active_connections h x)
      (left attempt last : ℕ) (h : Heap) (counter x : ℕ)
      → active_connections
          (try strategy pool can_retry send others draws left attempt last h counter).heap
          x
        ≡ active_connections h x
  try-active balanced zero attempt last h counter x = rw try-zero refl
  try-active balanced (suc left) attempt last h counter x =
      let h₀ = others attempt h in
      let kept = balanced attempt h x in
      let (chosen, counter') = next strategy h₀ pool (draws attempt counter) in
      elim (Option-cases (next strategy h₀ pool (draws attempt counter)).0) [
        | inl e ↦
            rw (try-none strategy pool can_retry send others draws left attempt last h counter e)
              kept
        | inr (a, e) ↦
            let outcome = send attempt a in
            let h' = proxy_once a outcome h₀ in
            let ih = try-active balanced left (suc attempt) (status_of outcome) h' counter' x in
            let once = Alike-active h₀ h' x (proxy_once-Alike a outcome h₀ x) in
            rw (try-some strategy pool can_retry send others draws left attempt last h counter a e)
              (ground (arith, ih, once, kept))
      ]

-- Whatever the backends do, and however often the request is retried, serving it leaves every
-- backend with as many active connections as before, if what is served at the same time leaves the
-- counts as they are. The health checker may change which backends are alive.
pub serve_http-active :
    (strategy : Strategy) (pool : Pool) (max_retries : ℤ) (method : String) (send : ℕ → ℕ → Outcome)
    (others : ℕ → Heap → Heap) (draws : ℕ → ℕ → ℕ) (h : Heap) (counter x : ℕ)
    → ((attempt : ℕ) (h : Heap) (x : ℕ)
        → active_connections (others attempt h) x ≡ active_connections h x)
    → active_connections
        (serve_http strategy pool max_retries method send others draws h counter).heap
        x
      ≡ active_connections h x
unfolding serve_http
serve_http-active strategy pool max_retries method send others draws h counter x balanced =
    try-active strategy pool (is_idempotent method) send others draws balanced _ 0 0 h counter x
