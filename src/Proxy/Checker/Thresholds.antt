-- ===== src/Proxy/Checker/Thresholds.antt =====
-- How many probes in a row it takes to change a backend's state.
use backend_infra_platform.Base.{
  ℕ, zero, suc, ℤ, pos, negsuc, ◌-ℤ◌, ◌≤ℤ◌, -ℤ_parts, eq_of_parts, ltb_ℤ, leb_ℤ, String, Bool, true,
  false, ◌&&◌, some, ◌≡◌, refl, ap, ◌∙◌, arith, inl, inr, Bool-cases, eq_refl, get_elem?,
  if◌then◌else◌,
}
use backend_infra_platform.Base.SyncMap.{store, load-store}
use backend_infra_platform.Proxy.{Backend, Heap, set_alive, get_elem-write}
use backend_infra_platform.Proxy.Checker.{
  Checker, count_of, after_success, after_failure, record_failure, record_success, Probe,
  is_success, check, record_outcome,
}

-- `n` probes of the backend at `a`, one after the other, each with the same outcome.
abbrev pub check_times : ℕ → Probe → ℕ → Checker → Heap → Checker × Heap
check_times zero probe a c h = (c, h)
check_times (suc n) probe a c h = let (c', h') = check_times n probe a c h in check probe a c' h'

count_of_stored : (name : String) (n : ℤ) (c : Checker) → count_of name (store name n c.counts) ≡ n
unfolding count_of
count_of_stored name n c = ground (arith, load-store name name n c.counts, eq_refl name)

-- One failed probe, from a state in which the backend at `a` is `b`.
module _ (a : ℕ) (b : Backend) (c : Checker) (h : Heap) where
  record_failure-count :
      count_of b.name (record_failure a b c h).0.counts ≡ after_failure (count_of b.name c.counts)
  unfolding record_failure
  record_failure-count = count_of_stored b.name _ c

  record_failure-alive :
      get_elem? h a ≡ some b
      → get_elem? (record_failure a b c h).1 a
        ≡ some (record b {
          alive =
              if leb_ℤ c.unhealthy_threshold (pos 0 -ℤ after_failure (count_of b.name c.counts))
              then false
              else b.alive;
        })
  unfolding record_failure set_alive
  record_failure-alive e =
      elim (Bool-cases
        (leb_ℤ c.unhealthy_threshold (pos 0 -ℤ after_failure (count_of b.name c.counts)))) [
          | inl t ↦ rw t (get_elem-write a (set_alive false) h b e)
          | inr f ↦ rw f e
        ]

  record_failure-threshold : (record_failure a b c h).0.unhealthy_threshold ≡ c.unhealthy_threshold
  unfolding record_failure
  record_failure-threshold = refl

  pub record_success-threshold : (record_success a b c h).0.healthy_threshold ≡ c.healthy_threshold
  unfolding record_success
  record_success-threshold = refl

  pub record_success-count :
      count_of b.name (record_success a b c h).0.counts ≡ after_success (count_of b.name c.counts)
  unfolding record_success
  record_success-count = count_of_stored b.name _ c

  pub record_success-alive :
      get_elem? h a ≡ some b
      → get_elem? (record_success a b c h).1 a
        ≡ some (record b {
          alive =
              if leb_ℤ c.healthy_threshold (after_success (count_of b.name c.counts))
              then true
              else b.alive;
        })
  unfolding record_success set_alive
  record_success-alive e =
      elim (Bool-cases (leb_ℤ c.healthy_threshold (after_success (count_of b.name c.counts)))) [
        | inl t ↦ rw t (get_elem-write a (set_alive true) h b e)
        | inr f ↦ rw f e
      ]

check_failed :
    (probe : Probe) (a : ℕ) (b : Backend) (c : Checker) (h : Heap)
    → is_success probe ≡ false
    → get_elem? h a ≡ some b
    → check probe a c h ≡ record_failure a b c h
unfolding check record_outcome
check_failed probe a b c h f e = rw (e, check) (rw f refl)

pub check_passed :
    (probe : Probe) (a : ℕ) (b : Backend) (c : Checker) (h : Heap)
    → is_success probe ≡ true
    → get_elem? h a ≡ some b
    → check probe a c h ≡ record_success a b c h
unfolding check record_outcome
check_passed probe a b c h f e = rw (e, check) (rw f refl)

-- The count after `n` failures in a row, from the count `k`.
abbrev fails : ℕ → ℤ → ℤ
fails zero k = k
fails (suc n) k = after_failure (fails n k)

fails-suc : (n : ℕ) (k : ℤ) → pos 0 ≤ℤ k → fails (suc n) k ≡ negsuc n
unfolding after_failure
fails-suc zero k h = eq_of_parts _ _ (ground (arith, -ℤ_parts k (pos 1), -ℤ_parts (pos 0) (pos 1)))
fails-suc (suc n) k h =
    rw (fails-suc n k h) (eq_of_parts _ _ (ground (arith, -ℤ_parts (negsuc n) (pos 1))))

failed_alive :
    (n : ℕ) (k t : ℤ) (alive : Bool)
    → pos 0 ≤ℤ k
    → (if leb_ℤ t (pos 0 -ℤ fails (suc n) k) then false else alive && ltb_ℤ (pos n) t)
      ≡ (alive && ltb_ℤ (pos (suc n)) t)
failed_alive n k t alive h = rw (fails-suc n k h) (ground (arith, -ℤ_parts (pos 0) (negsuc n)))

check_times-failed :
    (n : ℕ) (probe : Probe) (a : ℕ) (b : Backend) (c : Checker) (h : Heap)
    → is_success probe ≡ false
    → get_elem? h a ≡ some b
    → pos 0 ≤ℤ count_of b.name c.counts
    → pos 1 ≤ℤ c.unhealthy_threshold
    → let after = check_times n probe a c h in
      (count_of b.name after.0.counts ≡ fails n (count_of b.name c.counts))
      × (after.0.unhealthy_threshold ≡ c.unhealthy_threshold)
      × (get_elem? after.1 a
          ≡ some (record b { alive = b.alive && ltb_ℤ (pos n) c.unhealthy_threshold }))
check_times-failed zero probe a b c h f e k t =
    (refl, refl, e ∙ ap (λ v. some (record b { alive = v })) (ground arith))
check_times-failed (suc n) probe a b c h f e k t =
    let (counted, same, state) = check_times-failed n probe a b c h f e k t in
    let c' : Checker = (check_times n probe a c h).0 in
    let h' : Heap = (check_times n probe a c h).1 in
    let b' : Backend = record b { alive = b.alive && ltb_ℤ (pos n) c.unhealthy_threshold } in
    rw (check_failed probe a b' c' h' f state) (
      record_failure-count a b' c' h' ∙ ap after_failure counted,
      record_failure-threshold a b' c' h' ∙ same,
      record_failure-alive a b' c' h' state
          ∙ ap (λ v. some (record b { alive = v }))
              (ap
                  (λ v.
                    if leb_ℤ v (pos 0 -ℤ after_failure (count_of b.name c'.counts))
                    then false
                    else b'.alive)
                  same
                ∙ ap
                    (λ v.
                      if leb_ℤ c.unhealthy_threshold (pos 0 -ℤ after_failure v)
                      then false
                      else b'.alive)
                    counted
                ∙ failed_alive n (count_of b.name c.counts) c.unhealthy_threshold b.alive k),
    )

-- Let a backend be at `a` whose count is not negative, as after a success or before the first probe,
-- and let the threshold be positive, as `new_checker` makes it. After `n` failed probes in a row the
-- backend is alive exactly if it was before and `n` is below the threshold; nothing else of it has
-- changed.
pub check_times-fails :
    (n : ℕ) (probe : Probe) (a : ℕ) (b : Backend) (c : Checker) (h : Heap)
    → is_success probe ≡ false
    → get_elem? h a ≡ some b
    → pos 0 ≤ℤ count_of b.name c.counts
    → pos 1 ≤ℤ c.unhealthy_threshold
    → get_elem? (check_times n probe a c h).1 a
      ≡ some (record b { alive = b.alive && ltb_ℤ (pos n) c.unhealthy_threshold })
check_times-fails n probe a b c h f e k t = (check_times-failed n probe a b c h f e k t).2
