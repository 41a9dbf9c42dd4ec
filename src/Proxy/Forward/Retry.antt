-- ===== src/Proxy/Forward/Retry.antt =====
-- Which backends a request under the least-connections strategy is sent to.
use backend_infra_platform.Base.{ℕ, ◌≡◌}
use backend_infra_platform.Proxy.{Heap, is_alive, active_connections}

-- Nothing else changes how many connections a backend has, or whether it is alive.
abbrev pub IsUndisturbed : (ℕ → Heap → Heap) → Type 0
IsUndisturbed others =
    (attempt : ℕ) (h : Heap) (x : ℕ)
    → (active_connections (others attempt h) x ≡ active_connections h x)
      × (is_alive (others attempt h) x ≡ is_alive h x)
