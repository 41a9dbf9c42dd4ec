-- ===== src/ControlPlane/Reconciler/Replicas.antt =====
-- A pass of the reconciler brings a deployment to the number of replicas that it asks for.
use Prim.Native.Nat.{min}
use backend_infra_platform.Base.{
  ℕ, ◌-◌, ap, if◌then◌else◌, ℤ, pos, pos_part, eq_of_parts, ◌-ℤ◌, -ℤ_parts, ltb_ℤ, String, List,
  ◌≡◌, inl, inr, arith, count_if, Bool-cases,
}
use backend_infra_platform.Base.SyncMap.{values}
use backend_infra_platform.ControlPlane.Model.Deployment.{Time, Deployment, DeploymentStatus}
use backend_infra_platform.ControlPlane.Model.Pod.{Pod}
use backend_infra_platform.ControlPlane.State.{MemoryStore, or_keep}
use backend_infra_platform.ControlPlane.State.Deployments.{transition_deployment}
use backend_infra_platform.ControlPlane.State.Pods.{list_pods_by_deployment}
use backend_infra_platform.ControlPlane.State.Effects.{KeyedPods}
use backend_infra_platform.ControlPlane.Reconciler.{
  Pass, cancellable_pods, match_replicas, judge, reconcile_active,
}
use backend_infra_platform.ControlPlane.Reconciler.Slots.{
  filled, fills, filled-eq, unstarted, length-cancellable_pods,
}
use backend_infra_platform.ControlPlane.Reconciler.ScaleUp.{AreFresh, create_pods-filled}
use backend_infra_platform.ControlPlane.Reconciler.ScaleDown.{
  cancel_pods-filled, cancellable_pods-IsVictim, cancellable_pods-IsDistinct,
}

transition_deployment-pods :
    (now : Time) (id : String) (to : DeploymentStatus) (s : MemoryStore)
    → (or_keep s (transition_deployment now id to s)).pods ≡ s.pods
unfolding transition_deployment
transition_deployment-pods now id to s = ground arith

judge-pods :
    (now : Time) (d : Deployment) (pods : List Pod) (s : MemoryStore)
    → (judge now d pods s).pods ≡ s.pods
unfolding judge
judge-pods now d pods s = ground (
  arith,
  transition_deployment-pods now d.id DeploymentStatus.degraded s,
  transition_deployment-pods now d.id DeploymentStatus.active s,
)

reconcile_active-pods :
    (now : Time) (d : Deployment) (t : Pass)
    → (reconcile_active now d t).cluster.pods
      ≡ (match_replicas now d (list_pods_by_deployment d.id t.cluster) t).cluster.pods
unfolding reconcile_active
reconcile_active-pods now d t = judge-pods now d _ _

-- The number that a pass leaves, in the terms of the first `switch`.
abbrev pub replicas_left : ℕ → ℕ → ℤ → ℤ
replicas_left slots free replicas =
    if ltb_ℤ (pos slots) replicas
    then replicas
    else pos (slots - min (pos_part (pos slots -ℤ replicas)) free)

match_replicas-filled :
    (now : Time) (d : Deployment) (t : Pass)
    → KeyedPods t.cluster
    → AreFresh (pos_part (d.replicas -ℤ pos (filled d t.cluster))) t.ids t.cluster.pods
    → pos (
        count_if
          (fills d)
          (values (match_replicas now d (list_pods_by_deployment d.id t.cluster) t).cluster.pods))
      ≡ replicas_left (filled d t.cluster) (unstarted d t.cluster) d.replicas
unfolding match_replicas
match_replicas-filled now d t k f =
    elim (Bool-cases (ltb_ℤ (pos (filled d t.cluster)) d.replicas)) [
      | inl few ↦ rw few (
          eq_of_parts _ _ (
            ground (
              arith,
              create_pods-filled now d _ t.cluster t.ids f,
              filled-eq d t.cluster,
              -ℤ_parts d.replicas (pos (filled d t.cluster)),
            )))
      | inr enough ↦ rw enough (elim (Bool-cases (ltb_ℤ d.replicas (pos (filled d t.cluster)))) [
        | inl many ↦ rw many (
            ap pos (
              omega (
                arith,
                cancel_pods-filled now d (pos_part (pos (filled d t.cluster) -ℤ d.replicas))
                    (cancellable_pods (list_pods_by_deployment d.id t.cluster)) t.cluster
                    (cancellable_pods-IsDistinct d t.cluster k)
                    (cancellable_pods-IsVictim d t.cluster k),
                length-cancellable_pods d t.cluster,
                filled-eq d t.cluster,
              )))
        | inr same ↦ rw same (
            eq_of_parts _ _ (
              ground
                (arith, filled-eq d t.cluster, -ℤ_parts (pos (filled d t.cluster)) d.replicas)))
      ])
    ]

-- Let each pod stand under its own identifier, and let the identifiers drawn for the missing replicas
-- be fresh. Then a pass over `d` leaves exactly `d.replicas` slots filled if fewer were filled before
-- it. Otherwise it frees as many slots as are filled in excess of `d.replicas`, but no more than `d`
-- has pods that are PENDING or SCHEDULED.
pub reconcile_active-replicas :
    (now : Time) (d : Deployment) (t : Pass)
    → KeyedPods t.cluster
    → AreFresh (pos_part (d.replicas -ℤ pos (filled d t.cluster))) t.ids t.cluster.pods
    → pos (filled d (reconcile_active now d t).cluster) ≡ (
        if ltb_ℤ (pos (filled d t.cluster)) d.replicas
        then d.replicas
        else pos (
            filled d t.cluster
            - min (pos_part (pos (filled d t.cluster) -ℤ d.replicas)) (unstarted d t.cluster)))
reconcile_active-replicas now d t k f =
    rw (filled-eq, reconcile_active-pods) (match_replicas-filled now d t k f)
