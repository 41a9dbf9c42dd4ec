-- ===== src/Base/Float.antt =====
-- Sums of Go's `float64`. A finite float64 is a whole multiple of 2^-1074, and stands here as that
-- multiple; a sum is the float64 nearest to the exact sum, the even one of two that are as near.
-- Infinities and NaN are not among these numbers; the two zeros are one.
use Prim.Native.Nat.{ℕ, zero, suc, ◌*◌, ◌/◌, ◌%◌, ◌^◌}
use native.Mathlib.Omega.{arith}
use backend_infra_platform.Base.Tests.{ltb, ◌==◌, if◌then◌else◌}
use backend_infra_platform.Base.Int.{ℤ, pos, negsuc, ◌+ℤ◌, ◌-ℤ◌, ◌≤ℤ◌}

-- How often `m` is halved until it fits in the 53 bits of a significand. The exact sum of two finite
-- float64s is below 2^2099, so 2046 halvings are enough.
unfoldable pub exponent : ℕ → ℕ → ℕ
exponent zero m = 0
exponent (suc fuel) m = let rest = exponent fuel (m / 2) in if ltb m (2 ^ 53) then 0 else suc rest

-- `q` units of 2^e and `r` over.
unfoldable pub round_half_even : ℕ → ℕ → ℕ → ℕ
round_half_even q r unit =
    if ltb (2 * r) unit
    then q * unit
    else if ltb unit (2 * r)
    then suc q * unit
    else if q % 2 == 0
    then q * unit
    else suc q * unit

unfoldable pub round_nat : ℕ → ℕ
unfolding exponent round_half_even
round_nat m = let unit = 2 ^ exponent 2046 m in round_half_even (m / unit) (m % unit) unit

unfoldable pub round_float : ℤ → ℤ
unfolding round_nat
round_float (pos m) = pos (round_nat m)
round_float (negsuc m) = pos 0 -ℤ pos (round_nat (suc m))

unfoldable pub add_float : ℤ → ℤ → ℤ
unfolding round_float
add_float a b = round_float (a +ℤ b)

unfoldable pub sub_float : ℤ → ℤ → ℤ
unfolding round_float
sub_float a b = round_float (a -ℤ b)

pub round_float_nonnegative : (a : ℤ) → pos 0 ≤ℤ a → pos 0 ≤ℤ round_float a
unfolding round_float
round_float_nonnegative (pos m) h = omega arith
round_float_nonnegative (negsuc m) h = absurd (omega (arith, h))
