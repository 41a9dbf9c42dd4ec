-- ===== src/ControlPlane/Reconciler/ScaleUp.antt =====
-- The pods that a pass creates for the missing replicas.
use backend_infra_platform.Base.{
  ℕ, zero, suc, ◌+◌, String, true, false, List, [], ◌∷◌, Option, none, some, ◌≡◌, refl, ◌∙◌, ap,
  arith, count_if, count_if-append, str_eq, eq_refl,
}
use backend_infra_platform.Base.SyncMap.{SyncMap, load, store, values, load-store, values-store_new}
use backend_infra_platform.ControlPlane.Model.Deployment.{Time, Deployment}
use backend_infra_platform.ControlPlane.Model.Pod.{Pod, active}
use backend_infra_platform.ControlPlane.State.{MemoryStore, ok, or_keep}
use backend_infra_platform.ControlPlane.State.Pods.{create_pod}
use backend_infra_platform.ControlPlane.Reconciler.{Pass, new_pod, create_one, create_pods}
use backend_infra_platform.ControlPlane.Reconciler.Slots.{fills}

-- None of the next `n` identifiers is `id`.
abbrev Avoids : String → ℕ → List (Option String) → Type 0
Avoids id zero ids = Unit
Avoids id (suc n) [] = ⊥
Avoids id (suc n) (none ∷ rest) = ⊥
Avoids id (suc n) (some j ∷ rest) = (str_eq id j ≡ false) × Avoids id n rest

-- The next `n` draws give identifiers that differ, and that no pod has.
abbrev pub AreFresh : ℕ → List (Option String) → SyncMap Pod → Type 0
AreFresh zero ids pods = Unit
AreFresh (suc n) [] pods = ⊥
AreFresh (suc n) (none ∷ rest) pods = ⊥
AreFresh (suc n) (some id ∷ rest) pods =
    (load id pods ≡ none) × Avoids id n rest × AreFresh n rest pods

AreFresh-store :
    (n : ℕ) (ids : List (Option String)) (pods : SyncMap Pod) (id : String) (p : Pod)
    → Avoids id n ids
    → AreFresh n ids pods
    → AreFresh n ids (store id p pods)
AreFresh-store zero ids pods id p a h = tt
AreFresh-store (suc n) [] pods id p a h = h
AreFresh-store (suc n) (none ∷ rest) pods id p a h = h
AreFresh-store (suc n) (some j ∷ rest) pods id p a h =
    (rw (load-store, a.0) h.0, h.1, AreFresh-store n rest pods id p a.1 h.2)

new_pod-fills : (now : Time) (d : Deployment) (id : String) → fills d (new_pod now d id) ≡ true
unfolding new_pod active
new_pod-fills now d id = rw eq_refl refl

abbrev with_pod : Time → Deployment → String → MemoryStore → MemoryStore
with_pod now d id s = record s { pods = store id (new_pod now d id) s.pods }

create_pod_new :
    (s : MemoryStore) (p : Pod)
    → load p.id s.pods ≡ none
    → create_pod p s ≡ ok (record s { pods = store p.id p s.pods })
unfolding create_pod
create_pod_new s p h = ground arith

create_one_new :
    (now : Time) (d : Deployment) (s : MemoryStore) (id : String) (rest : List (Option String))
    → load id s.pods ≡ none
    → create_one now d (record { cluster = s; ids = some id ∷ rest })
      ≡ record { cluster = with_pod now d id s; ids = rest }
unfolding create_one new_pod
create_one_new now d s id rest h =
    ap (λ r. record { cluster = or_keep s r; ids = rest }) (create_pod_new s (new_pod now d id) h)

with_pod-filled :
    (now : Time) (d : Deployment) (s : MemoryStore) (id : String)
    → load id s.pods ≡ none
    → count_if (fills d) (values (with_pod now d id s).pods)
      ≡ count_if (fills d) (values s.pods) + 1
with_pod-filled now d s id h =
    rw (values-store_new id (new_pod now d id) s.pods h)
      (rw count_if-append (rw new_pod-fills refl))

create_pods-suc :
    (now : Time) (d : Deployment) (n : ℕ) (t : Pass)
    → create_pods now d (suc n) t ≡ create_pods now d n (create_one now d t)
unfolding create_pods
create_pods-suc now d n t = refl

create_pods-zero : (now : Time) (d : Deployment) (t : Pass) → create_pods now d 0 t ≡ t
unfolding create_pods
create_pods-zero now d t = refl

pub create_pods-filled :
    (now : Time) (d : Deployment) (n : ℕ) (s : MemoryStore) (ids : List (Option String))
    → AreFresh n ids s.pods
    → count_if
        (fills d)
        (values (create_pods now d n (record { cluster = s; ids = ids })).cluster.pods)
      ≡ count_if (fills d) (values s.pods) + n
create_pods-filled now d zero s ids h = rw create_pods-zero (omega arith)
create_pods-filled now d (suc n) s [] h = absurd h
create_pods-filled now d (suc n) s (none ∷ rest) h = absurd h
create_pods-filled now d (suc n) s (some id ∷ rest) h =
    rw (create_pods-suc, create_one_new now d s id rest h.0)
      (create_pods-filled now d n (with_pod now d id s) rest
          (AreFresh-store n rest s.pods id (new_pod now d id) h.1 h.2)
        ∙ omega (arith, with_pod-filled now d s id h.0))
