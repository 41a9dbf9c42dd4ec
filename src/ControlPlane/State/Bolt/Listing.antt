-- ===== src/ControlPlane/State/Bolt/Listing.antt =====
-- What both stores answer when they list.
use backend_infra_platform.Base.{
  String, Bool, true, ◌&&◌, List, [], ◌∷◌, none, some, str_eq, ◌≡◌, refl, sym, ap, arith, inl, inr,
  Option-cases, Bool-cases, if◌then◌else◌, eq_iff, eq_refl, keep, count_if,
}
use backend_infra_platform.Base.SyncMap.{
  SyncMap, load, delete, values, HasUniqueKeys, load-delete, delete-HasUniqueKeys, count_if-delete,
}
use backend_infra_platform.ControlPlane.State.Bolt.{
  Codec, Database, IsDatabase, Answer, done, and_then, or_other, collect, list_where,
}
use backend_infra_platform.ControlPlane.State.Bolt.Sees.{Sees, decoded, present}

-- The listing succeeds, with the same entities in some order: every test counts as many of them.
abbrev pub Lists {ℓ} : {A : Type ℓ} → Answer (List A) → List A → Type ℓ
Lists {A = A} r xs =
    (out : List A) × (r ≡ done out) × ((p : A → Bool) → count_if p out ≡ count_if p xs)

count_if-keep {ℓ} :
    {A : Type ℓ} (p test : A → Bool) (xs : List A)
    → count_if p (keep test xs) ≡ count_if (λ a. test a && p a) xs
count_if-keep p test [] = refl
count_if-keep p test (x ∷ xs) = ground (arith, count_if-keep p test xs)

module _ {Bucket A Bytes : Type 0} (db : Database Bucket Bytes) (c : Codec Bytes A) where
  -- Without its first entry, a bucket holds what the map holds without that key.
  rest-Sees :
      (k : String) (raw : Bytes) (entries : SyncMap Bytes) (m : SyncMap A)
      → load k entries ≡ none
      → ((j : String) → decoded db c (load j ((k, raw) ∷ entries)) ≡ present db c (load j m))
      → (j : String) → decoded db c (load j entries) ≡ present db c (load j (delete k m))
  unfolding load
  rest-Sees k raw entries m new h j = rw load-delete (elim (Bool-cases (str_eq k j)) [
    | inl same ↦ rw (same, sym ((eq_iff k j).0 same), new) refl
    | inr other ↦ rw other (rw other at (h j))
  ])

  first-Sees :
      (k : String) (raw : Bytes) (entries : SyncMap Bytes) (m : SyncMap A)
      → ((j : String) → decoded db c (load j ((k, raw) ∷ entries)) ≡ present db c (load j m))
      → (a : A) × (load k m ≡ some a) × (c.unmarshal raw ≡ some a)
  unfolding load
  first-Sees k raw entries m h = elim (Option-cases (load k m)) [
    | inl e ↦ absurd (ground (arith, h k, eq_refl k))
    | inr (a, e) ↦ (a, e, ground (arith, h k, eq_refl k))
  ]

  -- `ForEach` over the entries, in any order.
  pub collect-Lists :
      (test : A → Bool) (entries : SyncMap Bytes) (m : SyncMap A)
      → HasUniqueKeys entries
      → HasUniqueKeys m
      → ((k : String) → decoded db c (load k entries) ≡ present db c (load k m))
      → (out : List A) × (collect db c test entries ≡ done out)
        × ((p : A → Bool) → count_if p out ≡ count_if (λ a. test a && p a) (values m))
  unfolding collect or_other and_then load values
  collect-Lists test [] [] ue um h = ([], refl, λ p. refl)
  collect-Lists test [] ((k, v) ∷ m) ue um h = absurd (ground (arith, h k, eq_refl k))
  collect-Lists test ((k, raw) ∷ entries) m ue um h =
      let (a, found, reads) = first-Sees k raw entries m h in
      let (out, e, counts) =
        collect-Lists test entries (delete k m) ue.1 (delete-HasUniqueKeys k m um)
          (rest-Sees k raw entries m ue.0 h) in
      (
        if test a then a ∷ out else out,
        rw reads (rw (e, collect) refl),
        λ p. ground (arith, counts p, count_if-delete (λ v. test v && p v) k a m um found),
      )

  pub list_where-Lists :
      (accepts : String → Bool) (test : A → Bool) (b : Bucket) (m : SyncMap A)
      → IsDatabase db accepts
      → HasUniqueKeys m
      → Sees db c b m
      → Lists (list_where db c test b) (keep test (values m))
  unfolding list_where
  list_where-Lists accepts test b m law um sees =
      let (out, e, counts) =
        collect-Lists test (db.for_each b) m (law.visits_once b) um (λ k. rw law.visits (sees k)) in
      (out, e, λ p. rw count_if-keep (counts p))

pub keep_all {ℓ} : {A : Type ℓ} (xs : List A) → keep (λ a. true) xs ≡ xs
keep_all [] = refl
keep_all (x ∷ xs) = ap (λ ys. x ∷ ys) (keep_all xs)
