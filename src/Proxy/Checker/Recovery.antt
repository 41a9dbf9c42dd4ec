-- ===== src/Proxy/Checker/Recovery.antt =====
-- How many successful probes in a row it takes to bring a backend back.
use backend_infra_platform.Base.{
  ℕ, zero, suc, ℤ, pos, ◌≤ℤ◌, +ℤ_parts, eq_of_parts, leb_ℤ, Bool, true, ◌||◌, some, ◌≡◌, refl, ap,
  ◌∙◌, arith, get_elem?, if◌then◌else◌,
}
use backend_infra_platform.Proxy.{Backend, Heap}
use backend_infra_platform.Proxy.Checker.{Checker, count_of, after_success, Probe, is_success}
use backend_infra_platform.Proxy.Checker.Thresholds.{
  check_times, check_passed, record_success-count, record_success-alive, record_success-threshold,
}

-- The count after `n` successes in a row, from the count `k`.
abbrev passes : ℕ → ℤ → ℤ
passes zero k = k
passes (suc n) k = after_success (passes n k)

passes-suc : (n : ℕ) (k : ℤ) → k ≤ℤ pos 0 → passes (suc n) k ≡ pos (suc n)
unfolding after_success
passes-suc zero k h = eq_of_parts _ _ (ground (arith, +ℤ_parts k (pos 1), +ℤ_parts (pos 0) (pos 1)))
passes-suc (suc n) k h =
    rw (passes-suc n k h) (eq_of_parts _ _ (ground (arith, +ℤ_parts (pos (suc n)) (pos 1))))

passed_alive :
    (n : ℕ) (k t : ℤ) (alive : Bool)
    → k ≤ℤ pos 0
    → (if leb_ℤ t (passes (suc n) k) then true else alive || leb_ℤ t (pos n))
      ≡ (alive || leb_ℤ t (pos (suc n)))
passed_alive n k t alive h = rw (passes-suc n k h) (ground arith)

check_times-passed :
    (n : ℕ) (probe : Probe) (a : ℕ) (b : Backend) (c : Checker) (h : Heap)
    → is_success probe ≡ true
    → get_elem? h a ≡ some b
    → count_of b.name c.counts ≤ℤ pos 0
    → pos 1 ≤ℤ c.healthy_threshold
    → let after = check_times n probe a c h in
      (count_of b.name after.0.counts ≡ passes n (count_of b.name c.counts))
      × (after.0.healthy_threshold ≡ c.healthy_threshold)
      × (get_elem? after.1 a
          ≡ some (record b { alive = b.alive || leb_ℤ c.healthy_threshold (pos n) }))
check_times-passed zero probe a b c h f e k t =
    (refl, refl, e ∙ ap (λ v. some (record b { alive = v })) (ground arith))
check_times-passed (suc n) probe a b c h f e k t =
    let (counted, same, state) = check_times-passed n probe a b c h f e k t in
    let c' : Checker = (check_times n probe a c h).0 in
    let h' : Heap = (check_times n probe a c h).1 in
    let b' : Backend = record b { alive = b.alive || leb_ℤ c.healthy_threshold (pos n) } in
    rw (check_passed probe a b' c' h' f state) (
      record_success-count a b' c' h' ∙ ap after_success counted,
      record_success-threshold a b' c' h' ∙ same,
      record_success-alive a b' c' h' state
          ∙ ap (λ v. some (record b { alive = v }))
              (ap
                  (λ v.
                    if leb_ℤ v (after_success (count_of b.name c'.counts)) then true else b'.alive)
                  same
                ∙ ap (λ v. if leb_ℤ c.healthy_threshold (after_success v) then true else b'.alive)
                    counted
                ∙ passed_alive n (count_of b.name c.counts) c.healthy_threshold b.alive k),
    )

-- Let a backend be at `a` whose count is not positive, as after a failure or before the first probe,
-- and let the threshold be positive, as `new_checker` makes it. After `n` successful probes in a row
-- the backend is alive exactly if it was before or `n` has reached the threshold; nothing else of it
-- has changed.
pub check_times-passes :
    (n : ℕ) (probe : Probe) (a : ℕ) (b : Backend) (c : Checker) (h : Heap)
    → is_success probe ≡ true
    → get_elem? h a ≡ some b
    → count_of b.name c.counts ≤ℤ pos 0
    → pos 1 ≤ℤ c.healthy_threshold
    → get_elem? (check_times n probe a c h).1 a
      ≡ some (record b { alive = b.alive || leb_ℤ c.healthy_threshold (pos n) })
check_times-passes n probe a b c h f e k t = (check_times-passed n probe a b c h f e k t).2
