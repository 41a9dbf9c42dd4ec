-- ===== src/Proxy/Provider.antt =====
-- reverse-proxy-load-balancer/internal/backend/config_provider.go. The HTTP exchange and the JSON
-- decoder are outside: a refresh is given what they bring, `none` where it gives up.
pub mod Reuse
use backend_infra_platform.Base.{
  ℕ, ℤ, eqb_ℤ, String, Bool, true, false, ◌&&◌, List, [], ◌∷◌, ◌++◌, Option, none, some, str_eq,
  get_elem?, length, if◌then◌else◌,
}
use backend_infra_platform.Base.SyncMap.{SyncMap, load, store}
use backend_infra_platform.Proxy.{Backend, Heap, Pool, new_backend}

pub record BackendSpec : Type 0 where
  pub name : String
  pub url : String
  pub weight : ℤ

-- `known` goes from a name to the address of its backend.
pub record ConfigProvider : Type 0 where
  pub known : SyncMap ℕ
  pub pool : Pool
  pub heap : Heap

unfoldable pub is_same : BackendSpec → Option Backend → Bool
is_same spec none = false
is_same spec (some b) = str_eq b.url spec.url && eqb_ℤ b.weight spec.weight

-- The address of the backend that is kept for this spec.
unfoldable pub existing : BackendSpec → SyncMap ℕ → Heap → Option ℕ
unfolding is_same
existing spec known h = elim (load spec.name known) [
  | none ↦ none
  | some a ↦ if is_same spec (get_elem? h a) then some a else none
]

-- What the loop builds: `next` as `known`, `backends` as `pool`, and the heap.
unfoldable pub add : BackendSpec → ℕ → Heap → ConfigProvider → ConfigProvider
add spec a h t = record { known = store spec.name a t.known; pool = t.pool ++ a ∷ []; heap = h }

module _ (parse_url : String → Option String) where
  unfoldable pub add_spec : SyncMap ℕ → BackendSpec → ConfigProvider → ConfigProvider
  add_spec known spec t = elim (existing spec known t.heap) [
    | some a ↦ add spec a t.heap t
    | none ↦ elim (new_backend parse_url spec.name spec.url spec.weight) [
      | none ↦ t
      | some b ↦ add spec (length t.heap) (t.heap ++ b ∷ []) t
    ]
  ]

  unfoldable pub add_specs : SyncMap ℕ → List BackendSpec → ConfigProvider → ConfigProvider
  add_specs known [] t = t
  add_specs known (spec ∷ specs) t = add_specs known specs (add_spec known spec t)

  unfoldable pub refresh : Option (List BackendSpec) → ConfigProvider → ConfigProvider
  refresh none c = c
  refresh (some specs) c = add_specs c.known specs (record { known = []; pool = []; heap = c.heap })
