-- ===== src/ControlPlane/Reconciler/Slots.antt =====
-- How many replica slots of a deployment the pods of a store fill.
use backend_infra_platform.Base.{
  ℕ, Bool, true, false, ◌∙◌, length, length-keep, ◌&&◌, List, [], ◌∷◌, ◌≡◌, refl, arith, keep,
  count_if, str_eq,
}
use backend_infra_platform.Base.SyncMap.{values}
use backend_infra_platform.ControlPlane.Model.Deployment.{Deployment}
use backend_infra_platform.ControlPlane.Model.Pod.{Pod, PodStatus, pod_status_eq, active}
use backend_infra_platform.ControlPlane.State.{MemoryStore}
use backend_infra_platform.Base.Sort.{length-sort_slice}
use backend_infra_platform.ControlPlane.Reconciler.{is_cancellable, cancellable_pods, newer}
use backend_infra_platform.ControlPlane.State.Pods.{list_pods_by_deployment}

-- The replica slots of `d` that the pods of a store fill.
abbrev pub filled : Deployment → MemoryStore → ℕ
filled d s = count_if active (list_pods_by_deployment d.id s)

-- The same, counted over all pods.
abbrev pub fills : Deployment → Pod → Bool
fills d p = str_eq p.deployment_id d.id && active p

-- The pod has not been started by a node.
abbrev pub is_unstarted : PodStatus → Bool
is_unstarted PodStatus.pending = true
is_unstarted PodStatus.scheduled = true
is_unstarted _ = false

-- How many pods of `d` a store holds that have not been started.
abbrev pub unstarted : Deployment → MemoryStore → ℕ
unstarted d s = count_if (λ p. str_eq p.deployment_id d.id && is_unstarted p.status) (values s.pods)

count_if-keep :
    (q : Pod → Bool) (d : Deployment) (ps : List Pod)
    → count_if q (keep (λ p. str_eq p.deployment_id d.id) ps)
      ≡ count_if (λ p. str_eq p.deployment_id d.id && q p) ps
count_if-keep q d [] = refl
count_if-keep q d (p ∷ ps) = ground (arith, count_if-keep q d ps)

pub filled-eq : (d : Deployment) (s : MemoryStore) → filled d s ≡ count_if (fills d) (values s.pods)
unfolding list_pods_by_deployment
filled-eq d s = count_if-keep active d (values s.pods)

cancellable_eq : (p : Pod) → is_cancellable p ≡ is_unstarted p.status
unfolding is_cancellable pod_status_eq
cancellable_eq p = ground arith

count_cancellable :
    (ps : List Pod) → count_if is_cancellable ps ≡ count_if (λ p. is_unstarted p.status) ps
count_cancellable [] = refl
count_cancellable (p ∷ ps) = rw (cancellable_eq p, count_cancellable ps) refl

-- As many pods as a scale-down may cancel.
pub length-cancellable_pods :
    (d : Deployment) (s : MemoryStore)
    → length (cancellable_pods (list_pods_by_deployment d.id s)) ≡ unstarted d s
unfolding cancellable_pods list_pods_by_deployment
length-cancellable_pods d s =
    length-sort_slice newer _
    ∙ length-keep is_cancellable _
    ∙ count_cancellable _
    ∙ count_if-keep (λ p. is_unstarted p.status) d (values s.pods)
