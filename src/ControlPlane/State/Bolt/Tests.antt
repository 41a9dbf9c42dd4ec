-- ===== src/ControlPlane/State/Bolt/Tests.antt =====
-- A small database, and the theorems on it.
use backend_infra_platform.Base.{
  String, Bool, not, List, [], ◌∷◌, none, some, str_eq, ◌≡◌, refl, arith, inl, inr, Bool-cases,
  if◌then◌else◌, eq_iff,
}
use backend_infra_platform.Base.SyncMap.{
  SyncMap, load, store, delete, load-store, load-delete, HasUniqueKeys,
}
use backend_infra_platform.ControlPlane.Model.Deployment.{Deployment}
use backend_infra_platform.ControlPlane.Model.Pod.{Pod, PodStatus}
use backend_infra_platform.ControlPlane.Model.Node.{Node}
use backend_infra_platform.ControlPlane.Model.Service.{Service}
use backend_infra_platform.ControlPlane.State.{MemoryStore, new_memory_store}
use backend_infra_platform.ControlPlane.State.Bolt.{
  Codec, Database, IsDatabase, BoltStore, new_bolt_store,
}
use backend_infra_platform.ControlPlane.State.Bolt.Calls.{
  Call, creates_pod, transitions_pod, gets_pod, deletes_service, memory_run, bolt_run,
}
use backend_infra_platform.ControlPlane.State.Bolt.Refinement.{Matches, bolt_run-memory_run}
use backend_infra_platform.ControlPlane.State.Bolt.Pods as Bolt_pods
use backend_infra_platform.ControlPlane.State.Deployments as Memory_deployments
use backend_infra_platform.ControlPlane.State.Nodes as Memory_nodes
use backend_infra_platform.ControlPlane.State.Services as Memory_services
use backend_infra_platform.ControlPlane.State.Bolt.Deployments as Bolt_deployments
use backend_infra_platform.ControlPlane.State.Bolt.Nodes as Bolt_nodes
use backend_infra_platform.ControlPlane.State.Bolt.Services as Bolt_services
use backend_infra_platform.ControlPlane.State.Bolt.Agreement.{Refines}
use backend_infra_platform.ControlPlane.State.Pods as Memory_pods
use backend_infra_platform.ControlPlane.State.Bolt.Listing.{Lists}
use backend_infra_platform.ControlPlane.State.Bolt.Views.{listings_agree}
use backend_infra_platform.ControlPlane.State.Invariant.{IsWellFormed}
use backend_infra_platform.ControlPlane.Samples.{waiting}

-- What the four codecs write.
data Blob : Type 0 where
  deployment_blob : Deployment → Blob
  pod_blob : Pod → Blob
  node_blob : Node → Blob
  service_blob : Service → Blob

abbrev deployment_codec : Codec Blob Deployment
deployment_codec = record {
  marshal = λ d. some (deployment_blob d);
  unmarshal = elim [ (deployment_blob d) ↦ some d | _ ↦ none ];
}

abbrev pod_codec : Codec Blob Pod
pod_codec = record {
  marshal = λ p. some (pod_blob p);
  unmarshal = elim [ (pod_blob p) ↦ some p | _ ↦ none ];
}

abbrev node_codec : Codec Blob Node
node_codec = record {
  marshal = λ n. some (node_blob n);
  unmarshal = elim [ (node_blob n) ↦ some n | _ ↦ none ];
}

abbrev service_codec : Codec Blob Service
service_codec = record {
  marshal = λ v. some (service_blob v);
  unmarshal = elim [ (service_blob v) ↦ some v | _ ↦ none ];
}

abbrev is_key : String → Bool
is_key k = not (str_eq k "")

-- The entries of a bucket, each key once.
abbrev entries : SyncMap Blob → SyncMap Blob
entries [] = []
entries ((k, v) ∷ m) = store k v (entries m)

load-entries : (k : String) (m : SyncMap Blob) → load k (entries m) ≡ load k m
unfolding load
load-entries k [] = refl
load-entries k ((j, v) ∷ m) = rw load-store (ground (arith, load-entries k m))

store-HasUniqueKeys :
    (k : String) (v : Blob) (m : SyncMap Blob) → HasUniqueKeys m → HasUniqueKeys (store k v m)
unfolding store load
store-HasUniqueKeys k v [] h = (refl, tt)
store-HasUniqueKeys k v ((j, w) ∷ m) h = elim (Bool-cases (str_eq j k)) [
  | inl same ↦ rw same (rw ((eq_iff j k).0 same) at h.0, h.1)
  | inr other ↦
      rw other
        (rw load-store (ground (arith, eq_iff j k, eq_iff k j)), store-HasUniqueKeys k v m h.1)
]

entries-HasUniqueKeys : (m : SyncMap Blob) → HasUniqueKeys (entries m)
entries-HasUniqueKeys [] = tt
entries-HasUniqueKeys ((k, v) ∷ m) = store-HasUniqueKeys k v (entries m) (entries-HasUniqueKeys m)

abbrev database : Database (SyncMap Blob) Blob
database = record {
  get = load;
  put = λ k v m. if is_key k then some (store k v m) else none;
  delete = λ k m. some (delete k m);
  for_each = entries;
  new_bucket = [];
  deployment = deployment_codec;
  pod = pod_codec;
  node = node_codec;
  service = service_codec;
}

database-IsDatabase : IsDatabase database is_key
unfolding load
database-IsDatabase = record {
  get_new = λ k. refl;
  put_ok = λ k v m e. (store k v m, rw e refl, λ j. load-store k j v m);
  delete_ok = λ k v m e. (delete k m, refl, λ j. load-delete k j m);
  visits = load-entries;
  visits_once = entries-HasUniqueKeys;
  deployments = record { reads = λ d. (deployment_blob d, refl, refl) };
  pods = record { reads = λ p. (pod_blob p, refl, refl) };
  nodes = record { reads = λ n. (node_blob n, refl, refl) };
  services = record { reads = λ v. (service_blob v, refl, refl) };
}

abbrev calls : List Call
calls =
    creates_pod waiting
    ∷ creates_pod waiting
    ∷ transitions_pod 5 "pod_1" PodStatus.scheduled ""
    ∷ gets_pod "pod_1"
    ∷ deletes_service "s"
    ∷ []

bolt_run-memory_run_example :
    Matches database
      (bolt_run database calls (new_bolt_store database))
      (memory_run calls new_memory_store)
bolt_run-memory_run_example =
    bolt_run-memory_run database is_key database-IsDatabase calls
      (refl, (refl, (refl, (refl, (refl, tt)))))

abbrev buckets : BoltStore (SyncMap Blob)
buckets = record {
  deployments = [];
  pods = ("pod_1", pod_blob waiting) ∷ [];
  nodes = [];
  services = [];
}

abbrev maps : MemoryStore
maps = record { deployments = []; pods = ("pod_1", waiting) ∷ []; nodes = []; services = [] }

maps-IsWellFormed : IsWellFormed maps
unfolding load
maps-IsWellFormed = record { deployments = tt; pods = (refl, refl, tt); nodes = tt; services = tt }

buckets-Refines : Refines database buckets maps
unfolding load
buckets-Refines = record {
  deployments = λ k. refl;
  pods = λ k. elim (Bool-cases (str_eq "pod_1" k)) [
    | inl same ↦ rw same refl
    | inr other ↦ rw other refl
  ];
  nodes = λ k. refl;
  services = λ k. refl;
}

listings_agree_example :
    Lists
      (Bolt_deployments.list_deployments database buckets)
      (Memory_deployments.list_deployments maps)
    × Lists
        (Bolt_deployments.list_deployments_by_namespace database "default" buckets)
        (Memory_deployments.list_deployments_by_namespace "default" maps)
    × Lists
        (Bolt_pods.list_pods_by_deployment database "deploy_1" buckets)
        (Memory_pods.list_pods_by_deployment "deploy_1" maps)
    × Lists
        (Bolt_pods.list_pods_by_status database PodStatus.pending buckets)
        (Memory_pods.list_pods_by_status PodStatus.pending maps)
    × Lists
        (Bolt_pods.list_pods_by_node database "" buckets)
        (Memory_pods.list_pods_by_node "" maps)
    × Lists
        (Bolt_pods.list_pods_by_labels database "default" [] buckets)
        (Memory_pods.list_pods_by_labels "default" [] maps)
    × Lists (Bolt_nodes.list_nodes database buckets) (Memory_nodes.list_nodes maps)
    × Lists
        (Bolt_nodes.list_nodes_by_labels database [] buckets)
        (Memory_nodes.list_nodes_by_labels [] maps)
    × Lists (Bolt_services.list_services database buckets) (Memory_services.list_services maps)
listings_agree_example =
    listings_agree database is_key database-IsDatabase buckets maps "default" "deploy_1" ""
      PodStatus.pending [] maps-IsWellFormed buckets-Refines
