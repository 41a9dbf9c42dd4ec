-- ===== src/Base/Sort.antt =====
-- `sort.Slice`: the elements in an order that `less` accepts. The library promises nothing about
-- ties; here they keep their order.
use Prim.Native.Nat.{ℕ, zero, suc}
use mathlib.Core.Path.{◌≡◌, refl}
use mathlib.Core.Bool.{Bool, true, false}
use mathlib.Core.Logic.{inl, inr}
use mathlib.Core.List.{List, [], ◌∷◌}
use native.Mathlib.Omega.{arith}
use backend_infra_platform.Base.Tests.{if◌then◌else◌, Bool-cases}
use backend_infra_platform.Base.Lists.{All, All-map, All-drop, take, drop, length}

module _ {ℓ} {A : Type ℓ} (less : A → A → Bool) where
  unfoldable pub insert : A → List A → List A
  insert x [] = x ∷ []
  insert x (y ∷ ys) = if less y x then y ∷ insert x ys else x ∷ y ∷ ys

  unfoldable pub sort_slice : List A → List A
  unfolding insert
  sort_slice [] = []
  sort_slice (x ∷ xs) = insert x (sort_slice xs)

  pub insert-All {κ} : (P : A → Type κ) (x : A) (xs : List A) → P x → All P xs → All P (insert x xs)
  unfolding insert
  insert-All P x [] p h = (p, tt)
  insert-All P x (y ∷ ys) p h = ground (arith, insert-All P x ys p h.1)

  pub sort_slice-All {κ} : (P : A → Type κ) (xs : List A) → All P xs → All P (sort_slice xs)
  unfolding sort_slice
  sort_slice-All P [] h = tt
  sort_slice-All P (x ∷ xs) h = insert-All P x (sort_slice xs) h.0 (sort_slice-All P xs h.1)

module _ {ℓ} {A : Type ℓ} (less : A → A → Bool) where
  length-insert : (x : A) (xs : List A) → length (insert less x xs) ≡ suc (length xs)
  unfolding insert
  length-insert x [] = refl
  length-insert x (y ∷ ys) = ground (arith, length-insert x ys)

  pub length-sort_slice : (xs : List A) → length (sort_slice less xs) ≡ length xs
  unfolding sort_slice
  length-sort_slice [] = refl
  length-sort_slice (x ∷ xs) = rw (length-insert x (sort_slice less xs), length-sort_slice xs) refl

-- Every element stands before those that `less` does not put before it.
module _ {ℓ} {A : Type ℓ} (less : A → A → Bool) where
  abbrev pub IsOrdered : List A → Type 0
  IsOrdered [] = Unit
  IsOrdered (x ∷ xs) = All (λ y. less y x ≡ false) xs × IsOrdered xs

  module _ (asym : (x y : A) → less x y ≡ true → less y x ≡ false)
      (coarse : (x y z : A) → less y x ≡ false → less z y ≡ false → less z x ≡ false) where
    insert-IsOrdered : (x : A) (xs : List A) → IsOrdered xs → IsOrdered (insert less x xs)
    unfolding insert
    insert-IsOrdered x [] h = (tt, tt)
    insert-IsOrdered x (y ∷ ys) h = elim (Bool-cases (less y x)) [
      | inl e ↦
          rw e (
            insert-All less (λ z. less z y ≡ false) x ys (asym y x e) h.0,
            insert-IsOrdered x ys h.1,
          )
      | inr e ↦ rw e ((e, All-map _ _ (λ z. coarse x y z e) ys h.0), h)
    ]

    pub sort_slice-IsOrdered : (xs : List A) → IsOrdered (sort_slice less xs)
    unfolding sort_slice
    sort_slice-IsOrdered [] = tt
    sort_slice-IsOrdered (x ∷ xs) =
        insert-IsOrdered x (sort_slice less xs) (sort_slice-IsOrdered xs)

  -- Wherever the list is cut, nothing after the cut comes before anything in front of it.
  pub take-IsOrdered :
      (n : ℕ) (xs : List A)
      → IsOrdered xs
      → All (λ x. All (λ y. less y x ≡ false) (drop n xs)) (take n xs)
  take-IsOrdered zero xs h = tt
  take-IsOrdered (suc n) [] h = tt
  take-IsOrdered (suc n) (x ∷ xs) h = (All-drop _ n xs h.0, take-IsOrdered n xs h.1)
