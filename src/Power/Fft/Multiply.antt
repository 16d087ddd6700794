-- ===== src/Power/Fft/Multiply.antt =====
-- `FIX_MPY` rounds the product of two fixed-point fractions to the nearest one.
use android_rtlpower.Base.{ℕ, ◌+◌, ◌*◌, ◌≤◌, arith}
use android_rtlpower.Base.Int.{ℤ, pos, negsuc, ◌+ℤ◌, ◌*ℤ◌, ◌≤ℤ◌, shr, to_int16_fits, low_bits}
use android_rtlpower.Power.Fft.{fix_mpy}

-- the shifts of `FIX_MPY` on a product, before the conversion to `int16_t`
abbrev pub rounded : ℤ → ℤ
rounded p = let c = shr p 14 in shr c 1 +ℤ pos (low_bits c 2)

-- They divide by `2 ^ 15` and round to the nearest integer, upwards in the middle.
rounded_nearest :
    (p : ℤ)
    → (rounded p *ℤ pos 0x8000 ≤ℤ p +ℤ pos 0x4000)
      × (p +ℤ pos 0x4000 ≤ℤ rounded p *ℤ pos 0x8000 +ℤ pos 0x7fff)
unfolding shr low_bits ◌+ℤ◌ ◌*ℤ◌
rounded_nearest (pos n) = ground arith
rounded_nearest (negsuc n) = ground arith

mul_bound : (a b m n : ℕ) → a ≤ m → b ≤ n → a * b ≤ m * n
mul_bound a b m n h k = grind arith

product_bound :
    (a b : ℤ)
    → negsuc 0x7ffe ≤ℤ a
    → a ≤ℤ pos 0x7fff
    → negsuc 0x7fff ≤ℤ b
    → b ≤ℤ pos 0x7fff
    → (pos 0x8000 ≤ℤ a *ℤ b +ℤ pos 0x4000_0000) × (a *ℤ b ≤ℤ pos 0x3fff_8000)
unfolding ◌*ℤ◌ ◌+ℤ◌
product_bound (pos a) (pos b) al ah bl bh = ground (arith, mul_bound a b 0x7fff 0x7fff)
product_bound (pos a) (negsuc b) al ah bl bh = ground (arith, mul_bound a (b + 1) 0x7fff 0x8000)
product_bound (negsuc a) (pos b) al ah bl bh = ground (arith, mul_bound (a + 1) b 0x7fff 0x7fff)
product_bound (negsuc a) (negsuc b) al ah bl bh =
    ground (arith, mul_bound (a + 1) (b + 1) 0x7fff 0x8000)

rounded_range :
    (p : ℤ)
    → pos 0x8000 ≤ℤ p +ℤ pos 0x4000_0000
    → p ≤ℤ pos 0x3fff_8000
    → (negsuc 0x7fff ≤ℤ rounded p) × (rounded p ≤ℤ pos 0x7fff)
unfolding shr low_bits ◌+ℤ◌
rounded_range (pos n) lo hi = ground arith
rounded_range (negsuc n) lo hi = ground arith

-- For `int16_t` arguments of which the first is not -32768, `FIX_MPY` does not wrap and is the
-- product divided by `2 ^ 15`, rounded to the nearest integer.
pub fix_mpy-nearest :
    (a b : ℤ)
    → negsuc 0x7ffe ≤ℤ a
    → a ≤ℤ pos 0x7fff
    → negsuc 0x7fff ≤ℤ b
    → b ≤ℤ pos 0x7fff
    → (fix_mpy a b *ℤ pos 0x8000 ≤ℤ a *ℤ b +ℤ pos 0x4000)
      × (a *ℤ b +ℤ pos 0x4000 ≤ℤ fix_mpy a b *ℤ pos 0x8000 +ℤ pos 0x7fff)
unfolding fix_mpy
fix_mpy-nearest a b al ah bl bh =
    let (lo, hi) = product_bound a b al ah bl bh in
    let (rl, rh) = rounded_range (a *ℤ b) lo hi in
    rw (to_int16_fits (rounded (a *ℤ b)) rl rh) (rounded_nearest (a *ℤ b))
