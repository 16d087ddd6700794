-- ===== src/Base/Powers.antt =====
-- Powers of two.
use Prim.Native.Nat.{ℕ, zero, suc, ◌^◌, ◌<◌}
use native.Mathlib.Omega.{arith}
use native.Mathlib.Nat.{pow-suc}

pub pow_positive : (e : ℕ) → 0 < 2 ^ e
pow_positive zero = omega arith
pow_positive (suc e) = rw (pow-suc 2 e) (omega (arith, pow_positive e))

pub lt_pow : (e : ℕ) → e < 2 ^ e
lt_pow zero = omega arith
lt_pow (suc e) = rw (pow-suc 2 e) (omega (arith, lt_pow e))
