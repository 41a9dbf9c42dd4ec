-- ===== src/ControlPlane/State/Bolt/PodWrites.antt =====
-- The writes of the pods in both stores.
use backend_infra_platform.Base.{String, Bool, true, ◌≡◌, refl, inl, inr, Option-cases, Bool-cases}
use backend_infra_platform.Base.SyncMap.{load}
use backend_infra_platform.ControlPlane.Model.Deployment.{Time}
use backend_infra_platform.ControlPlane.Model.Pod.{Pod, PodStatus, can_transition_pod}
use backend_infra_platform.ControlPlane.State.{MemoryStore}
use backend_infra_platform.ControlPlane.State.Pods.{apply_transition, is_terminal_pod_status}
use backend_infra_platform.ControlPlane.State.Pods as Memory_pods
use backend_infra_platform.ControlPlane.State.Bolt.{Database, IsDatabase, BoltStore, and_then}
use backend_infra_platform.ControlPlane.State.Bolt.Pods as Bolt_pods
use backend_infra_platform.ControlPlane.State.Bolt.Pods.{moved}
use backend_infra_platform.ControlPlane.State.Bolt.Sees.{
  get_absent, get_present, bget_absent, bget_present,
}
use backend_infra_platform.ControlPlane.State.Bolt.Agreement.{
  moved-apply_transition, Refines, Agrees, put_pod,
}

module _ {Bucket Bytes : Type 0} (db : Database Bucket Bytes) (accepts : String → Bool)
    (law : IsDatabase db accepts) (b : BoltStore Bucket) (s : MemoryStore)
    (r : Refines db b s) where
  pub create_pod-Agrees :
      (v : Pod)
      → accepts v.id ≡ true
      → Agrees db (Bolt_pods.create_pod db v b) (Memory_pods.create_pod v s)
  unfolding Bolt_pods.create_pod Memory_pods.create_pod
  create_pod-Agrees v key = elim (Option-cases (load v.id s.pods)) [
    | inl absent ↦
        rw (absent, Memory_pods.create_pod)
          (rw (get_absent db db.pod v.id b.pods s.pods r.pods absent, Bolt_pods.create_pod)
            (put_pod db accepts law b s r v.id v key))
    | inr (old, found) ↦
        let (raw, e, _) = get_present db db.pod v.id b.pods s.pods r.pods old found in
        rw (found, Memory_pods.create_pod) (rw (e, Bolt_pods.create_pod) refl)
  ]

  pub update_pod-Agrees :
      (v : Pod)
      → accepts v.id ≡ true
      → Agrees db (Bolt_pods.update_pod db v b) (Memory_pods.update_pod v s)
  unfolding Bolt_pods.update_pod Memory_pods.update_pod
  update_pod-Agrees v key = elim (Option-cases (load v.id s.pods)) [
    | inl absent ↦
        rw (absent, Memory_pods.update_pod)
          (rw (get_absent db db.pod v.id b.pods s.pods r.pods absent, Bolt_pods.update_pod) refl)
    | inr (old, found) ↦
        let (raw, e, _) = get_present db db.pod v.id b.pods s.pods r.pods old found in
        rw (found, Memory_pods.update_pod)
          (rw (e, Bolt_pods.update_pod) (put_pod db accepts law b s r v.id v key))
  ]

  pub transition_pod-Agrees :
      (now : Time) (id : String) (to : PodStatus) (msg : String)
      → accepts id ≡ true
      → Agrees db
          (Bolt_pods.transition_pod db now id to msg b)
          (Memory_pods.transition_pod now id to msg s)
  unfolding Bolt_pods.transition_pod Memory_pods.transition_pod and_then
  transition_pod-Agrees now id to msg key = elim (Option-cases (load id s.pods)) [
    | inl absent ↦
        rw (absent, Memory_pods.transition_pod)
          (rw (bget_absent db db.pod id b.pods s.pods r.pods absent) refl)
    | inr (v, found) ↦
        rw (found, Memory_pods.transition_pod)
          (rw (bget_present db db.pod id b.pods s.pods r.pods v found)
            (elim (Bool-cases (can_transition_pod v.status to)) [
              | inl legal ↦ rw legal (
                  rw moved-apply_transition
                    (put_pod db accepts law b s r id (apply_transition now to msg v) key))
              | inr illegal ↦ rw illegal refl
            ]))
  ]
