-- ===== src/Jobs/Holds.antt =====
-- A store in which one job has been rewritten.
use backend_infra_platform.Base.{
  String, true, some, str_eq, ◌≡◌, refl, sym, inl, inr, Bool-cases, eq_iff, eq_refl, if◌then◌else◌,
}
use backend_infra_platform.Base.SyncMap.{load, store, load-store}
use backend_infra_platform.ControlPlane.State.{ok}
use backend_infra_platform.Jobs.Model.{Time, Job, JobState, can_transition}
use backend_infra_platform.Jobs.Store.{JobStore, get, update, transition, set_output, moved_to}

-- `t` is `s` with `v` under `id`.
abbrev pub Holds : String → Job → JobStore → JobStore → Type 0
Holds id v s t = (k : String) → load k t ≡ (if str_eq id k then some v else load k s)

module _ (id : String) (v : Job) (s t : JobStore) (h : Holds id v s t) where
  pub load-Holds : load id t ≡ some v
  load-Holds = rw (h id, eq_refl id) refl

  store-Holds : (w : Job) → Holds id w s (store id w t)
  store-Holds w k =
      rw load-store
        (elim (Bool-cases (str_eq id k)) [ inl e ↦ rw e refl | inr e ↦ rw e (rw e at (h k)) ])

  pub get-Holds : get id t ≡ ok v
  unfolding get
  get-Holds = rw (load-Holds, get) refl

  pub transition-Holds :
      (now : Time) (to : JobState) (msg : String)
      → can_transition v.state to ≡ true
      → (t' : JobStore) × (transition now id to msg t ≡ ok t')
        × Holds id (moved_to now to msg v) s t'
  unfolding transition
  transition-Holds now to msg legal = (
    store id (moved_to now to msg v) t,
    rw (load-Holds, transition) (rw legal refl),
    store-Holds (moved_to now to msg v),
  )

  pub set_output-Holds :
      (output : String)
      → (t' : JobStore) × (set_output id output t ≡ ok t')
        × Holds id (record v { output = output }) s t'
  unfolding set_output
  set_output-Holds output = (
    store id (record v { output = output }) t,
    rw (load-Holds, set_output) refl,
    store-Holds (record v { output = output }),
  )

  pub update-Holds :
      (w : Job) → w.id ≡ id → (t' : JobStore) × (update w t ≡ ok t') × Holds id w s t'
  unfolding update
  update-Holds w e = (store id w t, rw e (rw (load-Holds, update) refl), store-Holds w)

-- Nothing has been rewritten yet.
pub same-Holds : (id : String) (v : Job) (s : JobStore) → load id s ≡ some v → Holds id v s s
same-Holds id v s e k = elim (Bool-cases (str_eq id k)) [
  | inl same ↦ rw (same, sym ((eq_iff id k).0 same), e) refl
  | inr other ↦ rw other refl
]
