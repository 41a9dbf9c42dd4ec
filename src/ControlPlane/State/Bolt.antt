-- ===== src/ControlPlane/State/Bolt.antt =====
-- control-plane/internal/state/bolt_store.go: the store of the control plane in a bbolt file. The
-- package bbolt and encoding/json are outside: `Database` holds what the store asks of them, and
-- `IsDatabase` what they document. A transaction that fails is rolled back, so it gives no store; a
-- commit succeeds.
pub mod Deployments
pub mod Pods
pub mod Nodes
pub mod Services
mod Sees
mod Agreement
mod DeploymentWrites
mod PodWrites
mod NodeWrites
mod ServiceWrites
mod Listing
pub mod Views
mod Tests
pub mod Calls
pub mod Refinement
mod Reads
use backend_infra_platform.Base.{
  String, Bool, true, false, List, [], ◌∷◌, Option, none, some, str_eq, ◌≡◌, if◌then◌else◌,
}
use backend_infra_platform.Base.SyncMap.{SyncMap, load, HasUniqueKeys}
use backend_infra_platform.ControlPlane.Model.Deployment.{Deployment}
use backend_infra_platform.ControlPlane.Model.Pod.{Pod}
use backend_infra_platform.ControlPlane.Model.Node.{Node}
use backend_infra_platform.ControlPlane.Model.Service.{Service}
use backend_infra_platform.ControlPlane.State.{StoreError, not_found}

-- `json.Marshal` and `json.Unmarshal` at one type; `none` is an error.
pub record Codec (Bytes A : Type 0) : Type 0 where
  pub marshal : A → Option Bytes
  pub unmarshal : Bytes → Option A

-- What is written can be read back as it was.
pub record IsCodec {Bytes A : Type 0} (c : Codec Bytes A) : Type 0 where
  pub reads : (a : A) → (raw : Bytes) × (c.marshal a ≡ some raw) × (c.unmarshal raw ≡ some a)

-- A bucket in a transaction; `none` from a write is an error.
pub record Database (Bucket Bytes : Type 0) : Type 0 where
  pub get : String → Bucket → Option Bytes
  pub put : String → Bytes → Bucket → Option Bucket
  pub delete : String → Bucket → Option Bucket
  pub for_each : Bucket → SyncMap Bytes
  pub new_bucket : Bucket
  pub deployment : Codec Bytes Deployment
  pub pod : Codec Bytes Pod
  pub node : Codec Bytes Node
  pub service : Codec Bytes Service

-- `accepts` are the keys that bbolt takes: not blank, and not too long.
pub record IsDatabase {Bucket Bytes : Type 0} (db : Database Bucket Bytes) (accepts : String → Bool)
    : Type 0 where
  pub get_new : (k : String) → db.get k db.new_bucket ≡ none
  pub put_ok :
      (k : String) (raw : Bytes) (b : Bucket)
      → accepts k ≡ true
      → (b' : Bucket) × (db.put k raw b ≡ some b')
        × ((j : String) → db.get j b' ≡ (if str_eq k j then some raw else db.get j b))
  pub delete_ok :
      (k : String) (raw : Bytes) (b : Bucket)
      → db.get k b ≡ some raw
      → (b' : Bucket) × (db.delete k b ≡ some b')
        × ((j : String) → db.get j b' ≡ (if str_eq k j then none else db.get j b))
  pub visits : (k : String) (b : Bucket) → load k (db.for_each b) ≡ db.get k b
  pub visits_once : (b : Bucket) → HasUniqueKeys (db.for_each b)
  pub deployments : IsCodec db.deployment
  pub pods : IsCodec db.pod
  pub nodes : IsCodec db.node
  pub services : IsCodec db.service

-- One bucket for each kind of entity.
pub record BoltStore (Bucket : Type 0) : Type 0 where
  pub deployments : Bucket
  pub pods : Bucket
  pub nodes : Bucket
  pub services : Bucket

-- `other_error` is any error that is not one of the store's own.
pub data Answer {ℓ} (A : Type ℓ) : Type ℓ where
  done : A → Answer A
  store_error : StoreError → Answer A
  other_error : Answer A

-- `if err != nil { return err }`
unfoldable pub and_then {ℓ κ} : {A : Type ℓ} {B : Type κ} → Answer A → (A → Answer B) → Answer B
and_then (done a) f = f a
and_then (store_error e) f = store_error e
and_then other_error f = other_error

unfoldable pub or_other {ℓ} : {A : Type ℓ} → Option A → Answer A
or_other none = other_error
or_other (some a) = done a

module _ {Bucket Bytes : Type 0} (db : Database Bucket Bytes) where
  unfoldable pub new_bolt_store : BoltStore Bucket
  new_bolt_store = record {
    deployments = db.new_bucket;
    pods = db.new_bucket;
    nodes = db.new_bucket;
    services = db.new_bucket;
  }

  unfoldable pub bget : {A : Type 0} → Codec Bytes A → String → Bucket → Answer A
  unfolding or_other
  bget c id b = elim (db.get id b) [
    | none ↦ store_error not_found
    | some raw ↦ or_other (c.unmarshal raw)
  ]

  unfoldable pub bput : {A : Type 0} → Codec Bytes A → String → A → Bucket → Answer Bucket
  unfolding or_other and_then
  bput c id v b = and_then (or_other (c.marshal v)) λ raw. or_other (db.put id raw b)

  unfoldable pub bdelete : String → Bucket → Answer Bucket
  unfolding or_other
  bdelete id b = elim (db.get id b) [
    | none ↦ store_error not_found
    | some _ ↦ or_other (db.delete id b)
  ]

  -- The callback of `ForEach` in the operations that list, over the entries it is called with.
  unfoldable pub collect :
      {A : Type 0} → Codec Bytes A → (A → Bool) → SyncMap Bytes → Answer (List A)
  unfolding or_other and_then
  collect c test [] = done []
  collect c test ((k, raw) ∷ entries) =
      let rest = collect c test entries in
      and_then (or_other (c.unmarshal raw))
        λ v. and_then rest λ out. done (if test v then v ∷ out else out)

  unfoldable pub list_where : {A : Type 0} → Codec Bytes A → (A → Bool) → Bucket → Answer (List A)
  list_where c test b = collect c test (db.for_each b)
