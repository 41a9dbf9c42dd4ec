-- ===== src/ControlPlane/State/Bolt/Refinement.antt =====
-- The memory store and the bolt store under the same calls.
use backend_infra_platform.Base.{String, Bool, true, List, [], ◌∷◌, All, ◌≡◌, refl, ap}
use backend_infra_platform.ControlPlane.State.{MemoryStore, Result, ok, err, new_memory_store}
use backend_infra_platform.ControlPlane.State.Bolt.{
  Database, IsDatabase, BoltStore, Answer, done, store_error, other_error, new_bolt_store,
}
use backend_infra_platform.ControlPlane.State.Bolt.Reads.{
  get_deployment_agrees, get_pod_agrees, get_node_agrees, get_service_agrees, new-Refines,
}
use backend_infra_platform.ControlPlane.State.Bolt.Agreement.{Refines, Agrees}
use backend_infra_platform.ControlPlane.State.Bolt.DeploymentWrites.{
  create_deployment-Agrees, update_deployment-Agrees, transition_deployment-Agrees,
  delete_deployment-Agrees,
}
use backend_infra_platform.ControlPlane.State.Bolt.PodWrites.{
  create_pod-Agrees, update_pod-Agrees, transition_pod-Agrees,
}
use backend_infra_platform.ControlPlane.State.Bolt.NodeWrites.{
  register_node-Agrees, update_node-Agrees, transition_node-Agrees,
}
use backend_infra_platform.ControlPlane.State.Bolt.ServiceWrites.{
  upsert_service-Agrees, delete_service-Agrees,
}
use backend_infra_platform.ControlPlane.State.Bolt.Calls.{
  Call, call_id, refused, memory_write, bolt_write, memory_call, memory_run, bolt_call, bolt_run,
  creates_deployment, updates_deployment, transitions_deployment, deletes_deployment, creates_pod,
  updates_pod, transitions_pod, registers_node, updates_node, transitions_node, upserts_service,
  deletes_service, gets_deployment, gets_pod, gets_node, gets_service,
}

module _ {Bucket Bytes : Type 0} (db : Database Bucket Bytes) where
  -- The same reply, in stores that correspond.
  abbrev pub Matches {ℓ} : {R : Type ℓ} → R × BoltStore Bucket → R × MemoryStore → Type ℓ
  Matches (x, b) (y, s) = (x ≡ y) × Refines db b s

  write-Matches :
      (b : BoltStore Bucket) (s : MemoryStore) (x : Answer (BoltStore Bucket))
      (y : Result MemoryStore)
      → Refines db b s
      → Agrees db x y
      → Matches (bolt_write b x) (memory_write s y)
  write-Matches b s (done b') (ok s') r h = (refl, h)
  write-Matches b s (done b') (err e) r h = absurd h
  write-Matches b s (store_error e) (ok s') r h = absurd h
  write-Matches b s (store_error e) (err f) r h = (ap refused h, r)
  write-Matches b s other_error y r h = absurd h

module _ {Bucket Bytes : Type 0} (db : Database Bucket Bytes) (accepts : String → Bool)
    (law : IsDatabase db accepts) where
  pub bolt_call-Matches :
      (c : Call) (b : BoltStore Bucket) (s : MemoryStore)
      → accepts (call_id c) ≡ true
      → Refines db b s
      → Matches db (bolt_call db c b) (memory_call c s)
  unfolding bolt_call memory_call
  bolt_call-Matches (creates_deployment d) b s key r =
      write-Matches db b s _ _ r (create_deployment-Agrees db accepts law b s r d key)
  bolt_call-Matches (updates_deployment now d) b s key r =
      write-Matches db b s _ _ r (update_deployment-Agrees db accepts law b s r now d key)
  bolt_call-Matches (transitions_deployment now id to) b s key r =
      write-Matches db b s _ _ r (transition_deployment-Agrees db accepts law b s r now id to key)
  bolt_call-Matches (deletes_deployment id) b s key r =
      write-Matches db b s _ _ r (delete_deployment-Agrees db accepts law b s r id)
  bolt_call-Matches (creates_pod p) b s key r =
      write-Matches db b s _ _ r (create_pod-Agrees db accepts law b s r p key)
  bolt_call-Matches (updates_pod p) b s key r =
      write-Matches db b s _ _ r (update_pod-Agrees db accepts law b s r p key)
  bolt_call-Matches (transitions_pod now id to err_msg) b s key r =
      write-Matches db b s _ _ r (transition_pod-Agrees db accepts law b s r now id to err_msg key)
  bolt_call-Matches (registers_node n) b s key r =
      write-Matches db b s _ _ r (register_node-Agrees db accepts law b s r n key)
  bolt_call-Matches (updates_node n) b s key r =
      write-Matches db b s _ _ r (update_node-Agrees db accepts law b s r n key)
  bolt_call-Matches (transitions_node id to) b s key r =
      write-Matches db b s _ _ r (transition_node-Agrees db accepts law b s r id to key)
  bolt_call-Matches (upserts_service now svc) b s key r =
      write-Matches db b s _ _ r (upsert_service-Agrees db accepts law b s r now svc key)
  bolt_call-Matches (deletes_service id) b s key r =
      write-Matches db b s _ _ r (delete_service-Agrees db accepts law b s r id)
  bolt_call-Matches (gets_deployment id) b s key r = (get_deployment_agrees db b s r id, r)
  bolt_call-Matches (gets_pod id) b s key r = (get_pod_agrees db b s r id, r)
  bolt_call-Matches (gets_node id) b s key r = (get_node_agrees db b s r id, r)
  bolt_call-Matches (gets_service id) b s key r = (get_service_agrees db b s r id, r)

  bolt_run-Matches :
      (cs : List Call) (b : BoltStore Bucket) (s : MemoryStore)
      → All (λ c. accepts (call_id c) ≡ true) cs
      → Refines db b s
      → Matches db (bolt_run db cs b) (memory_run cs s)
  unfolding bolt_run memory_run
  bolt_run-Matches [] b s keys r = (refl, r)
  bolt_run-Matches (c ∷ cs) b s keys r =
      let (same, r') = bolt_call-Matches c b s keys.0 r in
      let (sames, r'') = bolt_run-Matches cs (bolt_call db c b).1 (memory_call c s).1 keys.1 r' in
      (rw (same, sames) refl, r'')

  -- The bolt store can stand in for the memory store. Take any sequence of calls that write or that
  -- read one entity, made on both stores from their empty states, with identifiers that bbolt takes
  -- as keys. Then each call gets the same reply from both, an entity or an error included, and at
  -- the end the buckets hold the entities of the maps.
  pub bolt_run-memory_run :
      (cs : List Call)
      → All (λ c. accepts (call_id c) ≡ true) cs
      → Matches db (bolt_run db cs (new_bolt_store db)) (memory_run cs new_memory_store)
  bolt_run-memory_run cs keys = bolt_run-Matches cs _ _ keys (new-Refines db accepts law)
