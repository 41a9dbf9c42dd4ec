-- ===== src/ControlPlane/Reconciler/Backoff.antt =====
-- The delays of backoff.go.
use Prim.Native.Nat.{min}
use backend_infra_platform.Base.{
  ℕ, zero, suc, ◌+◌, ◌-◌, ◌*◌, ◌^◌, ◌<◌, ◌≡◌, refl, subst, Bool, true, ◌&&◌, ◌==◌, ==_iff, arith,
}
use backend_infra_platform.ControlPlane.Reconciler.{backoff, second, max_backoff}

-- The test passes at every number under the bound, tried one by one.
passes_under : (ℕ → Bool) → ℕ → Bool
passes_under test zero = true
passes_under test (suc bound) = let lower = passes_under test bound in test bound && lower

passes_at :
    (test : ℕ → Bool) (bound n : ℕ) → n < bound → passes_under test bound ≡ true → test n ≡ true
unfolding passes_under
passes_at test zero n below passed = absurd (omega (arith, below))
passes_at test (suc bound) n below passed = ground (arith, below, passes_at test bound n)

module _ (overflowed : ℕ) where
  short_table :
      passes_under (λ a. backoff overflowed a == min (2 ^ a * second) max_backoff) 34 ≡ true
  unfolding backoff passes_under
  short_table = refl

  long_table : passes_under (λ a. backoff overflowed (a + 55) == 0) 8 ≡ true
  unfolding backoff passes_under
  long_table = refl

-- Up to the 33rd attempt the delay is 2^attempt seconds, or 60 seconds if that is less, as the
-- comment on `backoff` says; whatever the platform does with floats that do not fit in an int64.
pub backoff-eq-min :
    (overflowed attempt : ℕ)
    → attempt < 34
    → backoff overflowed attempt ≡ min (2 ^ attempt * second) max_backoff
backoff-eq-min overflowed attempt h =
    (==_iff _ _).0 (passes_at _ 34 attempt h (short_table overflowed))

-- From the 55th to the 62nd attempt the product with a second wraps to nothing: there is no delay.
pub backoff_vanishes :
    (overflowed attempt : ℕ) → 54 < attempt → attempt < 63 → backoff overflowed attempt ≡ 0
backoff_vanishes overflowed attempt h k =
    let e : attempt - 55 + 55 ≡ attempt = omega arith in
    subst (λ a. backoff overflowed a ≡ 0) e
      ((==_iff _ _).0 (passes_at _ 8 (attempt - 55) (omega arith) (long_table overflowed)))
