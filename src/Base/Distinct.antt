-- ===== src/Base/Distinct.antt =====
-- Entities with pairwise different identifiers, as a keyed map lists them.
use Prim.Native.String.{String}
use mathlib.Core.Path.{◌≡◌}
use mathlib.Core.Bool.{Bool, false}
use mathlib.Core.Logic.{inl, inr}
use mathlib.Core.List.{List, [], ◌∷◌}
use native.Mathlib.Omega.{arith}
use text.Mathlib.Text.{◌==◌}
use text.Mathlib.TextEquality.{eq_iff}
use backend_infra_platform.Base.Tests.{Bool-cases}
use backend_infra_platform.Base.Lists.{All, All-keep, keep}
use backend_infra_platform.Base.Sort.{insert, sort_slice, insert-All, sort_slice-All}
use backend_infra_platform.Base.SyncMap.{SyncMap, values, IsKeyed, All-of_load, id_of_load}

module _ {ℓ} {A : Type ℓ} (id : A → String) where
  abbrev pub Differs : A → A → Type 0
  Differs x y = (id x == id y) ≡ false

  abbrev pub IsDistinct : List A → Type 0
  IsDistinct [] = Unit
  IsDistinct (x ∷ xs) = All (Differs x) xs × IsDistinct xs

  Differs-sym : (x y : A) → Differs x y → Differs y x
  Differs-sym x y h = ground (arith, eq_iff (id x) (id y), eq_iff (id y) (id x))

  pub keep-IsDistinct : (p : A → Bool) (xs : List A) → IsDistinct xs → IsDistinct (keep p xs)
  keep-IsDistinct p [] h = tt
  keep-IsDistinct p (x ∷ xs) h = elim (Bool-cases (p x)) [
    | inl e ↦ rw e (All-keep (Differs x) p xs h.0, keep-IsDistinct p xs h.1)
    | inr e ↦ rw e (keep-IsDistinct p xs h.1)
  ]

  module _ (less : A → A → Bool) where
    insert-IsDistinct :
        (x : A) (xs : List A) → All (Differs x) xs → IsDistinct xs → IsDistinct (insert less x xs)
    unfolding insert
    insert-IsDistinct x [] d h = (tt, tt)
    insert-IsDistinct x (y ∷ ys) d h = elim (Bool-cases (less y x)) [
      | inl e ↦ rw e (
        insert-All less (Differs y) x ys (Differs-sym x y d.0) h.0,
        insert-IsDistinct x ys d.1 h.1,
      )
      | inr e ↦ rw e (d, h)
    ]

    pub sort_slice-IsDistinct : (xs : List A) → IsDistinct xs → IsDistinct (sort_slice less xs)
    unfolding sort_slice
    sort_slice-IsDistinct [] h = tt
    sort_slice-IsDistinct (x ∷ xs) h =
        insert-IsDistinct x (sort_slice less xs) (sort_slice-All less (Differs x) xs h.0)
          (sort_slice-IsDistinct xs h.1)

  pub values-IsDistinct : (m : SyncMap A) → IsKeyed id m → IsDistinct (values m)
  unfolding values
  values-IsDistinct [] h = tt
  values-IsDistinct ((k, v) ∷ m) h = (
    All-of_load (Differs v) id m h.2
        λ j w e. ground (arith, eq_iff (id v) (id w), id_of_load id j w m h.2 e, h.0, h.1),
    values-IsDistinct m h.2,
  )
