-- ===== src/ControlPlane/Api/Capacity.antt =====
-- The capacity that the scheduler reserves on a node and the API gives back.
use backend_infra_platform.Base.{
  true, if◌then◌else◌, Bool-cases, eqb_ℤ, ◌∙◌, sym, ap, ◌≢◌, ◌⊎◌, inl, inr, ℤ, pos, ◌+ℤ◌, ◌-ℤ◌,
  ◌≤ℤ◌, +ℤ_parts, -ℤ_parts, eq_of_parts, ltb_ℤ, some, ◌≡◌, refl, arith,
}
use backend_infra_platform.Base.Float.{round_float, add_float, sub_float}
use backend_infra_platform.ControlPlane.Model.Deployment.{ResourceRequest}
use backend_infra_platform.ControlPlane.Model.Node.{Node}
use backend_infra_platform.ControlPlane.Scheduler.{reserve}
use backend_infra_platform.ControlPlane.Api.Nodes.{release, clamp}

clamp-bound : (a c : ℤ) → clamp a c ≤ℤ c
clamp-bound a c = ground arith

there_and_back : (a r : ℤ) → (a -ℤ r) +ℤ r ≡ a
there_and_back a r = eq_of_parts _ _ (omega (arith, -ℤ_parts a r, +ℤ_parts (a -ℤ r) r))

clamp_within : (a c : ℤ) → a ≤ℤ c → clamp a c ≡ a
clamp_within a c h = ground arith

clamp-back : (a c r : ℤ) → a ≤ℤ c → clamp ((a -ℤ r) +ℤ r) c ≡ a
clamp-back a c r h = rw there_and_back (clamp_within a c h)

-- Where the difference is a float64 itself, nothing is rounded on the way there, nor on the way back.
clamp-exact :
    (a c r : ℤ)
    → a ≤ℤ c
    → round_float a ≡ a
    → sub_float a r ≡ a -ℤ r
    → clamp (add_float (sub_float a r) r) c ≡ a
unfolding add_float
clamp-exact a c r h float exact =
    rw exact (rw (there_and_back a r, add_float) (rw float (clamp_within a c h)))

eq_or_not : (a b : ℤ) → (a ≡ b) ⊎ (a ≢ b)
eq_or_not a b = elim (Bool-cases (eqb_ℤ a b)) [
  | inl e ↦ inl (eq_of_parts a b (ground arith))
  | inr e ↦ inr (λ h. absurd (ground arith))
]

one_less : (n : ℤ) → (n +ℤ pos 1) -ℤ pos 1 ≡ n
one_less n = eq_of_parts _ _ (omega (arith, +ℤ_parts n (pos 1), -ℤ_parts (n +ℤ pos 1) (pos 1)))

counts : (n : ℤ) → pos 0 ≤ℤ n → ltb_ℤ (pos 0) (n +ℤ pos 1) ≡ true
counts n h = ground (arith, +ℤ_parts n (pos 1))

-- One job fewer, if there is one.
fewer_jobs : (n : ℤ) → pos 0 ≤ℤ n → pos 0 ≤ℤ (if ltb_ℤ (pos 0) n then n -ℤ pos 1 else n)
fewer_jobs n h = ground (arith, -ℤ_parts n (pos 1))

released_jobs :
    (required : ResourceRequest) (n : Node)
    → (release (some required) n).running_jobs
      ≡ (if ltb_ℤ (pos 0) n.running_jobs then n.running_jobs -ℤ pos 1 else n.running_jobs)
unfolding release
released_jobs required n = ground arith

-- Nothing is given back beyond the capacity, whatever was reserved.
release-bounds :
    (required : ResourceRequest) (n : Node)
    → ((release (some required) n).available.cpu ≤ℤ n.capacity.cpu)
      × ((release (some required) n).available.memory_mb ≤ℤ n.capacity.memory_mb)
unfolding release
release-bounds required n = elim (Bool-cases (ltb_ℤ (pos 0) n.running_jobs)) [
  | inl e ↦ rw e (
    clamp-bound (add_float n.available.cpu required.cpu) n.capacity.cpu,
    clamp-bound (n.available.memory_mb +ℤ required.memory_mb) n.capacity.memory_mb,
  )
  | inr e ↦ rw e (
    clamp-bound (add_float n.available.cpu required.cpu) n.capacity.cpu,
    clamp-bound (n.available.memory_mb +ℤ required.memory_mb) n.capacity.memory_mb,
  )
]

module _ (required : ResourceRequest) (n : Node)
    (within : n.available.memory_mb ≤ℤ n.capacity.memory_mb) (jobs : pos 0 ≤ℤ n.running_jobs) where
  release-reserve_eq : release (some required) (reserve required n) ≡ record n {
    available = record {
      cpu = clamp (add_float (sub_float n.available.cpu required.cpu) required.cpu) n.capacity.cpu;
      memory_mb = n.available.memory_mb;
    };
  }
  unfolding release reserve
  release-reserve_eq =
      rw
        (
          counts n.running_jobs jobs,
          one_less n.running_jobs,
          clamp-back n.available.memory_mb n.capacity.memory_mb required.memory_mb within,
        )
        refl

-- Let a node be within its capacity, have a float64 as its available CPU and have no negative count
-- of jobs. When the API releases a request that the scheduler has reserved on the node, whatever the
-- request asks for, the node is the same again in everything but its available CPU: the memory and
-- the count of jobs come back exactly. The available CPU comes back exactly as well, unless the
-- difference that the scheduler stored had to be rounded. And on any node at all, a release leaves
-- the available CPU and memory within the capacity, and no negative count of jobs where there was
-- none.
pub release-reserve :
    (required : ResourceRequest) (n other : Node)
    → n.available.cpu ≤ℤ n.capacity.cpu
    → n.available.memory_mb ≤ℤ n.capacity.memory_mb
    → round_float n.available.cpu ≡ n.available.cpu
    → pos 0 ≤ℤ n.running_jobs
    → pos 0 ≤ℤ other.running_jobs
    → let back = release (some required) (reserve required n) in
      let after = release (some required) other in
      (back ≡ record n {
        available = record { cpu = back.available.cpu; memory_mb = n.available.memory_mb };
      })
      × ((back.available.cpu ≡ n.available.cpu)
          ⊎ (sub_float n.available.cpu required.cpu ≢ n.available.cpu -ℤ required.cpu))
      × (after.available.cpu ≤ℤ other.capacity.cpu)
      × (after.available.memory_mb ≤ℤ other.capacity.memory_mb)
      × (pos 0 ≤ℤ after.running_jobs)
release-reserve required n other hc hm float hj ho =
    let e = release-reserve_eq required n hm hj in
    let bounds = release-bounds required other in
    (
      e ∙ (λ i. record n {
        available = record { cpu = (sym e i).available.cpu; memory_mb = n.available.memory_mb };
      }),
      elim (eq_or_not (sub_float n.available.cpu required.cpu) (n.available.cpu -ℤ required.cpu)) [
        | inl exact ↦ inl (
            ap (λ (m : Node). m.available.cpu) e
            ∙ clamp-exact n.available.cpu n.capacity.cpu required.cpu hc float exact)
        | inr rounded ↦ inr rounded
      ],
      bounds.0,
      bounds.1,
      rw (released_jobs required other) (fewer_jobs other.running_jobs ho),
    )
