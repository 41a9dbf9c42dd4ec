-- ===== src/ControlPlane/Reconciler/Delay.antt =====
-- control-plane/internal/reconciler/backoff.go, on the bit patterns of int64.
use backend_infra_platform.Base.{ℕ, ◌+◌, ◌-◌, ◌*◌, ◌%◌, ◌^◌, Bool, ◌&&◌, ltb, if◌then◌else◌}
use backend_infra_platform.ControlPlane.Model.Deployment.{Time}

-- A `time.Duration` is an int64, here its bit pattern, in nanoseconds.
abbrev pub int64_mod : ℕ
int64_mod = 2 ^ 64

abbrev pub int64_sign : ℕ
int64_sign = 2 ^ 63

abbrev pub second : ℕ
second = 1000000000

abbrev pub max_backoff : ℕ
max_backoff = 60 * second

-- `d > e` on int64, for an `e` that is not negative.
abbrev pub exceeds : ℕ → ℕ → Bool
exceeds d e = ltb d int64_sign && ltb e d

-- `t.Add(d)`.
abbrev pub add_duration : Time → ℕ → Time
add_duration t d = if ltb d int64_sign then t + d else t - (int64_mod - d)

-- `overflowed` is the bit pattern that the platform gives for a float64 of 2^63 or more converted
-- to int64, which Go leaves open. The product with `time.Second` wraps.
unfoldable pub backoff : ℕ → ℕ → ℕ
backoff overflowed attempt =
    let d = ((if ltb attempt 63 then 2 ^ attempt else overflowed) * second) % int64_mod in
    if exceeds d max_backoff then max_backoff else d
