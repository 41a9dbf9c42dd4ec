-- ===== src/Proxy/Checker.antt =====
-- reverse-proxy-load-balancer/internal/health/checker.go. A probe's HTTP exchange is outside: a
-- probe is given by its outcome. Each outcome is recorded in one step.
pub mod Thresholds
pub mod Recovery
use backend_infra_platform.Base.{
  ℕ, zero, suc, ℤ, pos, ◌+ℤ◌, ◌-ℤ◌, ltb_ℤ, leb_ℤ, String, Bool, true, false, ◌&&◌, List, [], ◌∷◌,
  Option, none, some, get_elem?, if◌then◌else◌,
}
use backend_infra_platform.Base.SyncMap.{SyncMap, load, store}
use backend_infra_platform.Proxy.{Backend, Heap, set_alive, write}

pub record Checker : Type 0 where
  pub unhealthy_threshold : ℤ
  pub healthy_threshold : ℤ
  pub counts : SyncMap ℤ

-- A threshold that is not positive is 1.
unfoldable pub new_checker : ℤ → ℤ → Checker
new_checker unhealthy_threshold healthy_threshold = record {
  unhealthy_threshold = if leb_ℤ unhealthy_threshold (pos 0) then pos 1 else unhealthy_threshold;
  healthy_threshold = if leb_ℤ healthy_threshold (pos 0) then pos 1 else healthy_threshold;
  counts = [];
}

-- A name without an entry counts 0.
unfoldable pub count_of : String → SyncMap ℤ → ℤ
count_of name counts = elim (load name counts) [ none ↦ pos 0 | some n ↦ n ]

unfoldable pub after_success : ℤ → ℤ
after_success n = (if ltb_ℤ n (pos 0) then pos 0 else n) +ℤ pos 1

unfoldable pub after_failure : ℤ → ℤ
after_failure n = (if ltb_ℤ (pos 0) n then pos 0 else n) -ℤ pos 1

module _ (a : ℕ) (b : Backend) (c : Checker) (h : Heap) where
  unfoldable pub record_success : Checker × Heap
  record_success =
      let consecutive = after_success (count_of b.name c.counts) in
      (
        record c { counts = store b.name consecutive c.counts },
        if leb_ℤ c.healthy_threshold consecutive then write a (set_alive true) h else h,
      )

  unfoldable pub record_failure : Checker × Heap
  record_failure =
      let count = after_failure (count_of b.name c.counts) in
      let consecutive = pos 0 -ℤ count in
      (
        record c { counts = store b.name count c.counts },
        if leb_ℤ c.unhealthy_threshold consecutive then write a (set_alive false) h else h,
      )

-- What a probe brings: no response, or a response with a status.
pub data Probe : Type 0 where
  no_response : Probe
  responded : ℕ → Probe

unfoldable pub is_success : Probe → Bool
is_success Probe.no_response = false
is_success (Probe.responded status) = leb_ℤ (pos 200) (pos status) && ltb_ℤ (pos status) (pos 300)

record_outcome : Bool → ℕ → Backend → Checker → Heap → Checker × Heap
record_outcome true a b c h = record_success a b c h
record_outcome false a b c h = record_failure a b c h

unfoldable pub check : Probe → ℕ → Checker → Heap → Checker × Heap
unfolding record_outcome is_success
check probe a c h = elim (get_elem? h a) [
  | none ↦ (c, h)
  | some b ↦ record_outcome (is_success probe) a b c h
]
