-- ===== src/ControlPlane/State/Bolt/Sees.antt =====
-- A bucket as a map of entities.
use backend_infra_platform.Base.{
  String, Bool, true, Option, none, some, str_eq, ◌≡◌, refl, ap, arith, inl, inr, Option-cases,
  Bool-cases,
}
use backend_infra_platform.Base.SyncMap.{SyncMap, load, store, delete, load-store, load-delete}
use backend_infra_platform.ControlPlane.State.{not_found}
use backend_infra_platform.ControlPlane.State.Bolt.{
  Codec, IsCodec, Database, IsDatabase, done, store_error, and_then, or_other, bget, bput, bdelete,
}

module _ {Bucket Bytes A : Type 0} (db : Database Bucket Bytes) (c : Codec Bytes A) where
  -- What the bytes under a key read as, if there are any.
  abbrev pub decoded : Option Bytes → Option (Option A)
  decoded none = none
  decoded (some raw) = some (c.unmarshal raw)

  abbrev pub present : Option A → Option (Option A)
  present none = none
  present (some a) = some (some a)

  -- The bucket holds the entities of `m`, each readable under its key, and nothing else.
  abbrev pub Sees : Bucket → SyncMap A → Type 0
  Sees b m = (k : String) → decoded (db.get k b) ≡ present (load k m)

module _ {Bucket Bytes A : Type 0} (db : Database Bucket Bytes) (c : Codec Bytes A) (k : String)
    (b : Bucket) (m : SyncMap A) (sees : Sees db c b m) where
  pub get_absent : load k m ≡ none → db.get k b ≡ none
  get_absent h = elim (Option-cases (db.get k b)) [
    | inl e ↦ e
    | inr (raw, e) ↦ absurd (ground (arith, sees k))
  ]

  pub get_present :
      (a : A)
      → load k m ≡ some a
      → (raw : Bytes) × (db.get k b ≡ some raw) × (c.unmarshal raw ≡ some a)
  get_present a h = elim (Option-cases (db.get k b)) [
    | inl e ↦ absurd (ground (arith, sees k))
    | inr (raw, e) ↦ (raw, e, ground (arith, sees k))
  ]

  pub bget_absent : load k m ≡ none → bget db c k b ≡ store_error not_found
  unfolding bget
  bget_absent h = rw (get_absent h, bget) refl

  pub bget_present : (a : A) → load k m ≡ some a → bget db c k b ≡ done a
  unfolding bget or_other
  bget_present a h = let (raw, e, r) = get_present a h in rw (e, bget) (rw r refl)

module _ {Bucket Bytes A : Type 0} (db : Database Bucket Bytes) (accepts : String → Bool)
    (law : IsDatabase db accepts) (c : Codec Bytes A) (k : String) (b : Bucket) (m : SyncMap A)
    (sees : Sees db c b m) where
  pub bput-Sees :
      (a : A)
      → IsCodec c
      → accepts k ≡ true
      → (b' : Bucket) × (bput db c k a b ≡ done b') × Sees db c b' (store k a m)
  unfolding bput and_then or_other
  bput-Sees a codec key =
      let (raw, wrote, reads) = codec.reads a in
      let (b', put, gets) = law.put_ok k raw b key in
      (
        b',
        rw (wrote, bput) (rw put refl),
        λ j.
            rw (gets j, load-store)
              (elim (Bool-cases (str_eq k j)) [
                | inl e ↦ rw e (ap some reads)
                | inr e ↦ rw e (sees j)
              ]),
      )

  pub bdelete-Sees :
      (a : A)
      → load k m ≡ some a
      → (b' : Bucket) × (bdelete db k b ≡ done b') × Sees db c b' (delete k m)
  unfolding bdelete or_other
  bdelete-Sees a h =
      let (raw, e, _) = get_present db c k b m sees a h in
      let (b', deleted, gets) = law.delete_ok k raw b e in
      (
        b',
        rw (e, bdelete) (rw deleted refl),
        λ j.
            rw (gets j, load-delete)
              (elim (Bool-cases (str_eq k j)) [ inl s ↦ rw s refl | inr s ↦ rw s (sees j) ]),
      )

  pub bdelete_absent : load k m ≡ none → bdelete db k b ≡ store_error not_found
  unfolding bdelete
  bdelete_absent h = rw (get_absent db c k b m sees h, bdelete) refl
