-- ===== src/ControlPlane/State.antt =====
-- control-plane/internal/state: store.go, labels.go and the four maps of memory_store.go. Each
-- operation runs under the store's mutex, so it is one step from a store to a store; an operation
-- that fails leaves the store as it was. The clock is an argument of the operations that read it.
pub mod Deployments
pub mod Pods
pub mod Nodes
pub mod Services
pub mod Bolt
pub mod Effects
pub mod Invariant
use backend_infra_platform.Base.{
  String, Bool, true, false, ◌&&◌, List, [], ◌∷◌, Option, none, some, str_eq, ◌≡◌, refl, ◌⊎◌, inl,
  inr,
}
use backend_infra_platform.Base.SyncMap.{SyncMap, load}
use backend_infra_platform.ControlPlane.Model.Deployment.{Deployment}
use backend_infra_platform.ControlPlane.Model.Pod.{Pod}
use backend_infra_platform.ControlPlane.Model.Node.{Node}
use backend_infra_platform.ControlPlane.Model.Service.{Service}

pub data StoreError : Type 0 where
  not_found already_exists invalid_transition : StoreError

pub data Result {ℓ} (A : Type ℓ) : Type ℓ where
  ok : A → Result A
  err : StoreError → Result A

pub Result-cases {ℓ} :
    {A : Type ℓ} (r : Result A) → ((e : StoreError) × (r ≡ err e)) ⊎ ((a : A) × (r ≡ ok a))
Result-cases (err e) = inl (e, refl)
Result-cases (ok a) = inr (a, refl)

-- id -> entity, one map for each kind.
pub record MemoryStore : Type 0 where
  pub deployments : SyncMap Deployment
  pub pods : SyncMap Pod
  pub nodes : SyncMap Node
  pub services : SyncMap Service

-- An error is dropped, and has changed nothing.
abbrev pub or_keep : MemoryStore → Result MemoryStore → MemoryStore
or_keep s (ok s') = s'
or_keep s (err e) = s

unfoldable pub new_memory_store : MemoryStore
new_memory_store = record { deployments = []; pods = []; nodes = []; services = [] }

-- Indexing a Go map of texts gives "" for a missing key.
unfoldable pub label : String → SyncMap String → String
unfolding load
label k labels = elim (load k labels) [ none ↦ "" | some v ↦ v ]

-- An empty selector matches everything.
unfoldable pub matches_selector : SyncMap String → SyncMap String → Bool
unfolding label
matches_selector labels [] = true
matches_selector labels ((k, v) ∷ selector) =
    str_eq (label k labels) v && matches_selector labels selector
