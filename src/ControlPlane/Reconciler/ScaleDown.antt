-- ===== src/ControlPlane/Reconciler/ScaleDown.antt =====
-- The pods that a pass cancels beyond the replicas asked for.
use Prim.Native.Nat.{min}
use backend_infra_platform.Base.{
  ℕ, zero, suc, ◌+◌, true, false, List, [], ◌∷◌, some, ◌≡◌, refl, sym, arith, All, All-map,
  keep-All, count_if, length, eq_iff, subst,
}
use backend_infra_platform.Base.SyncMap.{
  load, store, values, load-store, count_if-store, All-of_load, id_of_load,
}
use backend_infra_platform.Base.Sort.{sort_slice-All}
use backend_infra_platform.Base.Distinct.{
  Differs, IsDistinct, keep-IsDistinct, sort_slice-IsDistinct, values-IsDistinct,
}
use backend_infra_platform.ControlPlane.Model.Deployment.{Time, Deployment}
use backend_infra_platform.ControlPlane.Model.Pod.{Pod, PodStatus, active, can_transition_pod}
use backend_infra_platform.ControlPlane.State.{MemoryStore, or_keep}
use backend_infra_platform.ControlPlane.State.Pods.{
  list_pods_by_deployment, transition_pod, apply_transition,
}
use backend_infra_platform.ControlPlane.State.Effects.{KeyedPods, transition_pod-ok}
use backend_infra_platform.ControlPlane.Reconciler.{
  cancel_pods, newer, is_cancellable, cancellable_pods,
}
use backend_infra_platform.ControlPlane.Reconciler.Slots.{fills}

-- What the scale-down reads: the stored pods of `d` that were not picked up, under their keys.
abbrev pub IsVictim : Deployment → MemoryStore → Pod → Type 0
IsVictim d s p = (load p.id s.pods ≡ some p) × (p.deployment_id ≡ d.id) × (is_cancellable p ≡ true)

cancelled_pod : Time → Pod → Pod
unfolding apply_transition
cancelled_pod now p = apply_transition now PodStatus.cancelled "deployment scaled down" p

abbrev without_pod : Time → Pod → MemoryStore → MemoryStore
without_pod now p s = record s { pods = store p.id (cancelled_pod now p) s.pods }

victim-fills :
    (d : Deployment) (p : Pod) → p.deployment_id ≡ d.id → is_cancellable p ≡ true → fills d p ≡ true
unfolding is_cancellable active
victim-fills d p e c = ground (arith, eq_iff p.deployment_id d.id)

victim-legal :
    (p : Pod) → is_cancellable p ≡ true → can_transition_pod p.status PodStatus.cancelled ≡ true
unfolding is_cancellable can_transition_pod
victim-legal p c = ground arith

cancelled_pod-fills :
    (now : Time) (d : Deployment) (p : Pod) → fills d (cancelled_pod now p) ≡ false
unfolding cancelled_pod active
cancelled_pod-fills now d p = ground arith

cancel_one :
    (now : Time) (d : Deployment) (p : Pod) (s : MemoryStore)
    → IsVictim d s p
    → or_keep s (transition_pod now p.id PodStatus.cancelled "deployment scaled down" s)
      ≡ without_pod now p s
unfolding cancelled_pod
cancel_one now d p s v = rw (transition_pod-ok now p.id _ _ s p v.0 (victim-legal p v.2)) refl

without_pod-filled :
    (now : Time) (d : Deployment) (p : Pod) (s : MemoryStore)
    → IsVictim d s p
    → count_if (fills d) (values (without_pod now p s).pods) + 1
      ≡ count_if (fills d) (values s.pods)
without_pod-filled now d p s v = ground (
  arith,
  count_if-store (fills d) p.id (cancelled_pod now p) p s.pods v.0,
  cancelled_pod-fills now d p,
  victim-fills d p v.1 v.2,
)

still_victims :
    (now : Time) (d : Deployment) (p : Pod) (s : MemoryStore) (ps : List Pod)
    → All (Differs (λ (q : Pod). q.id) p) ps
    → All (IsVictim d s) ps
    → All (IsVictim d (without_pod now p s)) ps
still_victims now d p s [] dif v = tt
still_victims now d p s (q ∷ ps) dif v =
    ((rw (load-store, dif.0) v.0.0, v.0.1, v.0.2), still_victims now d p s ps dif.1 v.1)

cancel_pods-suc :
    (now : Time) (n : ℕ) (p : Pod) (ps : List Pod) (s : MemoryStore)
    → cancel_pods now (suc n) (p ∷ ps) s
      ≡ cancel_pods now n ps
          (or_keep s (transition_pod now p.id PodStatus.cancelled "deployment scaled down" s))
unfolding cancel_pods
cancel_pods-suc now n p ps s = refl

cancel_pods-zero : (now : Time) (ps : List Pod) (s : MemoryStore) → cancel_pods now 0 ps s ≡ s
unfolding cancel_pods
cancel_pods-zero now ps s = refl

cancel_pods-none : (now : Time) (n : ℕ) (s : MemoryStore) → cancel_pods now (suc n) [] s ≡ s
unfolding cancel_pods
cancel_pods-none now n s = refl

pub cancel_pods-filled :
    (now : Time) (d : Deployment) (n : ℕ) (ps : List Pod) (s : MemoryStore)
    → IsDistinct (λ (q : Pod). q.id) ps
    → All (IsVictim d s) ps
    → count_if (fills d) (values (cancel_pods now n ps s).pods) + min n (length ps)
      ≡ count_if (fills d) (values s.pods)
cancel_pods-filled now d zero ps s dif v = rw cancel_pods-zero (omega arith)
cancel_pods-filled now d (suc n) [] s dif v = rw cancel_pods-none (omega arith)
cancel_pods-filled now d (suc n) (p ∷ ps) s dif v =
    rw (cancel_pods-suc, cancel_one now d p s v.0)
      (omega (
        arith,
        cancel_pods-filled now d n ps (without_pod now p s) dif.1
            (still_victims now d p s ps dif.0 v.1),
        without_pod-filled now d p s v.0,
      ))

-- The pods of `d` that a scale-down may cancel are stored, under different keys.
pub cancellable_pods-IsVictim :
    (d : Deployment) (s : MemoryStore)
    → KeyedPods s
    → All (IsVictim d s) (cancellable_pods (list_pods_by_deployment d.id s))
unfolding cancellable_pods list_pods_by_deployment
cancellable_pods-IsVictim d s k = sort_slice-All newer _ _ (
    All-map _ _ (λ p h. (h.0.0, h.0.1, h.1)) _
      (keep-All _ (λ (p : Pod). is_cancellable p ≡ true) is_cancellable (λ p e. e) _
        (keep-All (λ (p : Pod). load p.id s.pods ≡ some p) (λ (p : Pod). p.deployment_id ≡ d.id) _
          (λ p e. (eq_iff p.deployment_id d.id).0 e) _
          (All-of_load _ (λ (p : Pod). p.id) s.pods k
            λ j p e.
              subst (λ i. load i s.pods ≡ some p)
                (sym (id_of_load (λ (q : Pod). q.id) j p s.pods k e)) e))))

pub cancellable_pods-IsDistinct :
    (d : Deployment) (s : MemoryStore)
    → KeyedPods s
    → IsDistinct (λ (p : Pod). p.id) (cancellable_pods (list_pods_by_deployment d.id s))
unfolding cancellable_pods list_pods_by_deployment
cancellable_pods-IsDistinct d s k =
    sort_slice-IsDistinct _ newer _
      (keep-IsDistinct _ _ _ (keep-IsDistinct _ _ _ (values-IsDistinct _ s.pods k)))
