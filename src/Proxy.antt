-- ===== src/Proxy.antt =====
-- reverse-proxy-load-balancer/internal/backend: backend.go and pool.go. Backends are shared by
-- pointer: an address is a position in the heap, and a pool is a list of addresses. Atomic fields
-- are fields, and an atomic operation is one step. The counters are unbounded here.
pub mod Config
pub mod Balancer
pub mod Checker
pub mod Provider
pub mod Forward
mod Tests
use backend_infra_platform.Base.{
  ℕ, zero, suc, ℤ, pos, leb_ℤ, ◌+ℤ◌, ◌-ℤ◌, String, Bool, true, false, List, [], ◌∷◌, Option, none,
  some, ◌≡◌, refl, arith, get_elem?, keep, if◌then◌else◌,
}

-- `url` is the text that `URL.String` gives.
pub record Backend : Type 0 where
  pub name : String
  pub url : String
  pub weight : ℤ
  pub alive : Bool
  pub active_conns : ℤ
  pub total_reqs : ℤ
  pub total_errs : ℤ

abbrev pub Heap : Type 0
Heap = List Backend

abbrev pub Pool : Type 0
Pool = List ℕ

-- `url.Parse` is `parse_url`; it gives the text of the URL that it has read.
unfoldable pub new_backend : (String → Option String) → String → String → ℤ → Option Backend
new_backend parse_url name raw_url weight = elim (parse_url raw_url) [
  | none ↦ none
  | some url ↦ some (record {
    name = name;
    url = url;
    weight = if leb_ℤ weight (pos 0) then pos 1 else weight;
    alive = true;
    active_conns = pos 0;
    total_reqs = pos 0;
    total_errs = pos 0;
  })
]

-- A write through the pointer `a`.
unfoldable pub write : ℕ → (Backend → Backend) → Heap → Heap
write a f [] = []
write zero f (b ∷ h) = f b ∷ h
write (suc a) f (b ∷ h) = b ∷ write a f h

unfoldable pub is_alive : Heap → ℕ → Bool
is_alive h a = elim (get_elem? h a) [ none ↦ false | some b ↦ b.alive ]

unfoldable pub active_connections : Heap → ℕ → ℤ
active_connections h a = elim (get_elem? h a) [ none ↦ pos 0 | some b ↦ b.active_conns ]

unfoldable pub weight_of : Heap → ℕ → ℤ
weight_of h a = elim (get_elem? h a) [ none ↦ pos 0 | some b ↦ b.weight ]

unfoldable pub set_alive : Bool → Backend → Backend
set_alive alive b = record b { alive = alive }

unfoldable pub inc_connections : Backend → Backend
inc_connections b = record b { active_conns = b.active_conns +ℤ pos 1 }

unfoldable pub dec_connections : Backend → Backend
dec_connections b = record b { active_conns = b.active_conns -ℤ pos 1 }

unfoldable pub inc_requests : Backend → Backend
inc_requests b = record b { total_reqs = b.total_reqs +ℤ pos 1 }

unfoldable pub inc_errors : Backend → Backend
inc_errors b = record b { total_errs = b.total_errs +ℤ pos 1 }

unfoldable pub healthy : Heap → Pool → List ℕ
healthy h pool = keep (is_alive h) pool

pub get_elem-write :
    (a : ℕ) (f : Backend → Backend) (h : Heap) (b : Backend)
    → get_elem? h a ≡ some b
    → get_elem? (write a f h) a ≡ some (f b)
unfolding write
get_elem-write a f [] b e = absurd (ground arith)
get_elem-write zero f (c ∷ h) b e = ground arith
get_elem-write (suc a) f (c ∷ h) b e = get_elem-write a f h b e
