-- ===== src/Base/SyncMap.antt =====
-- Go's maps with string keys (`map`, `sync.Map`, a bucket), as association lists. An order of
-- iteration is not promised by any of them: every theorem is about an arbitrary list of entries.
use Prim.Native.Nat.{◌+◌}
use Prim.Native.String.{String}
use mathlib.Core.Path.{◌≡◌, refl, subst}
use mathlib.Core.Bool.{Bool, true}
use mathlib.Core.List.{List, [], ◌∷◌, ◌++◌}
use mathlib.Core.Option.{Option, none, some}
use mathlib.Core.Logic.{inl, inr}
use native.Mathlib.Omega.{arith}
use text.Mathlib.Text.{◌==◌}
use text.Mathlib.TextEquality.{eq_iff}
use text.Mathlib.TextPositions.{eq_refl}
use backend_infra_platform.Base.Tests.{if◌then◌else◌, Bool-cases}
use backend_infra_platform.Base.Lists.{All, count_if}

abbrev pub SyncMap {ℓ} : Type ℓ → Type ℓ
SyncMap V = List (String × V)

module _ {ℓ} {V : Type ℓ} where
  unfoldable pub load : String → SyncMap V → Option V
  load k [] = none
  load k ((j, v) ∷ m) = if j == k then some v else load k m

  unfoldable pub store : String → V → SyncMap V → SyncMap V
  store k v [] = (k, v) ∷ []
  store k v ((j, w) ∷ m) = let rest = store k v m in if j == k then (k, v) ∷ m else (j, w) ∷ rest

  unfoldable pub delete : String → SyncMap V → SyncMap V
  delete k [] = []
  delete k ((j, w) ∷ m) = let rest = delete k m in if j == k then rest else (j, w) ∷ rest

  -- What `Range` visits.
  unfoldable pub values : SyncMap V → List V
  values [] = []
  values ((j, v) ∷ m) = v ∷ values m

  pub load-store :
      (k j : String) (v : V) (m : SyncMap V)
      → load j (store k v m) ≡ (if k == j then some v else load j m)
  unfolding load store
  load-store k j v [] = refl
  load-store k j v ((i, w) ∷ m) =
      ground (arith, eq_iff k j, eq_iff i k, eq_iff i j, load-store k j v m)

  pub load-delete :
      (k j : String) (m : SyncMap V) → load j (delete k m) ≡ (if k == j then none else load j m)
  unfolding load delete
  load-delete k j [] = ground arith
  load-delete k j ((i, w) ∷ m) =
      ground (arith, eq_iff k j, eq_iff i k, eq_iff i j, load-delete k j m)

  -- Each entry stands under its own identifier, and under no other key.
  abbrev pub IsKeyed : (V → String) → SyncMap V → Type ℓ
  IsKeyed id [] = Unit
  IsKeyed id ((k, v) ∷ m) = (id v ≡ k) × (load k m ≡ none) × IsKeyed id m

  -- No key has two entries.
  abbrev pub HasUniqueKeys : SyncMap V → Type ℓ
  HasUniqueKeys [] = Unit
  HasUniqueKeys ((k, v) ∷ m) = (load k m ≡ none) × HasUniqueKeys m

  pub store-IsKeyed :
      (id : V → String) (k : String) (v : V) (m : SyncMap V)
      → id v ≡ k
      → IsKeyed id m
      → IsKeyed id (store k v m)
  unfolding store load
  store-IsKeyed id k v [] e h = (e, refl, tt)
  store-IsKeyed id k v ((j, w) ∷ m) e h = elim (Bool-cases (j == k)) [
    | inl same ↦ rw same (e, rw ((eq_iff j k).0 same) at h.1, h.2)
    | inr other ↦ rw other (
      h.0,
      rw load-store (ground (arith, eq_iff j k, eq_iff k j, h.1)),
      store-IsKeyed id k v m e h.2,
    )
  ]

  delete-cons :
      (k j : String) (w : V) (m : SyncMap V)
      → delete k ((j, w) ∷ m) ≡ (if j == k then delete k m else (j, w) ∷ delete k m)
  unfolding delete
  delete-cons k j w m = refl

  delete-nil : (k : String) → delete k [] ≡ []
  unfolding delete
  delete-nil k = refl

  pub delete-IsKeyed :
      (id : V → String) (k : String) (m : SyncMap V) → IsKeyed id m → IsKeyed id (delete k m)
  delete-IsKeyed id k [] h = rw delete-nil tt
  delete-IsKeyed id k ((j, w) ∷ m) h = elim (Bool-cases (j == k)) [
    | inl same ↦ rw (delete-cons, same) (delete-IsKeyed id k m h.2)
    | inr other ↦
        rw (delete-cons, other)
          (
            h.0,
            ground (arith, load-delete k j m, eq_iff j k, eq_iff k j, h.1),
            delete-IsKeyed id k m h.2,
          )
  ]

  pub id_of_load :
      (id : V → String) (k : String) (v : V) (m : SyncMap V)
      → IsKeyed id m
      → load k m ≡ some v
      → id v ≡ k
  unfolding load
  id_of_load id k v [] h e = cc
  id_of_load id k v ((j, w) ∷ m) h e = ground (arith, eq_iff j k, id_of_load id k v m h.2)

  pub All-of_load {κ} :
      (P : V → Type κ) (id : V → String) (m : SyncMap V)
      → IsKeyed id m
      → ((k : String) (v : V) → load k m ≡ some v → P v)
      → All P (values m)
  unfolding load values
  All-of_load P id [] h f = tt
  All-of_load P id ((j, w) ∷ m) h f = (
    f j w (rw eq_refl refl),
    All-of_load P id m h.2 λ k v e. f k v (ground (arith, eq_iff j k, h.1, e)),
  )

  pub load-All {κ} :
      (P : V → Type κ) (k : String) (v : V) (m : SyncMap V)
      → All P (values m)
      → load k m ≡ some v
      → P v
  unfolding load values
  load-All P k v [] h e = absurd (cc)
  load-All P k v ((j, w) ∷ m) h e = elim (Bool-cases (j == k)) [
    | inl same ↦ subst P (ground arith) h.0
    | inr other ↦ load-All P k v m h.1 (ground arith)
  ]

  -- A new key adds one value.
  pub values-store_new :
      (k : String) (v : V) (m : SyncMap V)
      → load k m ≡ none
      → values (store k v m) ≡ values m ++ v ∷ []
  unfolding load store values
  values-store_new k v [] e = refl
  values-store_new k v ((j, w) ∷ m) e = ground (arith, values-store_new k v m)

  -- A known key has its value replaced.
  pub count_if-store :
      (p : V → Bool) (k : String) (v w : V) (m : SyncMap V)
      → load k m ≡ some w
      → count_if p (values (store k v m)) + (if p w then 1 else 0)
        ≡ count_if p (values m) + (if p v then 1 else 0)
  unfolding load store values
  count_if-store p k v w [] e = cc
  count_if-store p k v w ((j, u) ∷ m) e = ground (arith, count_if-store p k v w m)

  pub All-store {κ} :
      (P : V → Type κ) (k : String) (v : V) (m : SyncMap V)
      → P v
      → All P (values m)
      → All P (values (store k v m))
  unfolding store values
  All-store P k v [] p h = (p, tt)
  All-store P k v ((j, w) ∷ m) p h = ground (arith, All-store P k v m p h.1)

  -- One key has one value.
  pub load_unique :
      (j k : String) (v w : V) (m : SyncMap V)
      → (j == k) ≡ true
      → load j m ≡ some v
      → load k m ≡ some w
      → v ≡ w
  load_unique j k v w m e hv hw = ground (arith, eq_iff j k)

  pub delete_absent : (k : String) (m : SyncMap V) → load k m ≡ none → delete k m ≡ m
  unfolding load delete
  delete_absent k [] e = refl
  delete_absent k ((j, w) ∷ m) e = ground (arith, delete_absent k m)

  pub delete-HasUniqueKeys :
      (k : String) (m : SyncMap V) → HasUniqueKeys m → HasUniqueKeys (delete k m)
  delete-HasUniqueKeys k [] h = rw delete-nil tt
  delete-HasUniqueKeys k ((j, w) ∷ m) h = elim (Bool-cases (j == k)) [
    | inl same ↦ rw (delete-cons, same) (delete-HasUniqueKeys k m h.1)
    | inr other ↦
        rw (delete-cons, other)
          (ground (arith, load-delete k j m, eq_iff j k, eq_iff k j), delete-HasUniqueKeys k m h.1)
  ]

  -- Deleting a known key takes one value away.
  pub count_if-delete :
      (p : V → Bool) (k : String) (w : V) (m : SyncMap V)
      → HasUniqueKeys m
      → load k m ≡ some w
      → count_if p (values m) ≡ count_if p (values (delete k m)) + (if p w then 1 else 0)
  unfolding load values delete
  count_if-delete p k w [] h e = cc
  count_if-delete p k w ((j, u) ∷ m) h e = elim (Bool-cases (j == k)) [
    | inl same ↦ ground (arith, delete_absent k m, h.0, eq_iff j k)
    | inr other ↦ ground (arith, count_if-delete p k w m h.1)
  ]

  pub IsKeyed-HasUniqueKeys : (id : V → String) (m : SyncMap V) → IsKeyed id m → HasUniqueKeys m
  IsKeyed-HasUniqueKeys id [] h = tt
  IsKeyed-HasUniqueKeys id ((k, v) ∷ m) h = (h.1, IsKeyed-HasUniqueKeys id m h.2)
