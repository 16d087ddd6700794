-- ===== src/Base/Int.antt =====
-- Signed integers over the native numbers, and the C operations on them: `>>` and `/`, and the
-- conversions to `int16_t` and `int`, which keep the low bits.
use android_rtlpower.Base.{
  ℕ, zero, suc, Option, none, some, ◌+◌, ◌-◌, ◌*◌, ◌/◌, ◌%◌, ◌^◌, ◌≤◌, ◌≡◌, refl, Bool, arith, ltb,
  leb, if◌then◌else◌, ◌⊎◌,
}

-- `negsuc n` is -(n + 1).
pub data ℤ : Type 0 where
  pos : ℕ → ℤ
  negsuc : ℕ → ℤ

abbrev pub pos_part : ℤ → ℕ
pos_part (pos n) = n
pos_part (negsuc n) = 0

abbrev pub neg_part : ℤ → ℕ
neg_part (pos n) = 0
neg_part (negsuc n) = suc n

-- a - b, as an integer.
abbrev pub sub_ℕ : ℕ → ℕ → ℤ
sub_ℕ a b = if leb b a then pos (a - b) else negsuc (b - a - 1)

infixl 65 ◌+ℤ◌ ◌-ℤ◌
infixl 70 ◌*ℤ◌
infix 50 ◌≤ℤ◌ ◌<ℤ◌
unfoldable pub ◌+ℤ◌ : ℤ → ℤ → ℤ
a +ℤ b = sub_ℕ (pos_part a + pos_part b) (neg_part a + neg_part b)

unfoldable pub ◌-ℤ◌ : ℤ → ℤ → ℤ
a -ℤ b = sub_ℕ (pos_part a + neg_part b) (neg_part a + pos_part b)

unfoldable pub ◌*ℤ◌ : ℤ → ℤ → ℤ
a *ℤ b =
    sub_ℕ (pos_part a * pos_part b + neg_part a * neg_part b)
      (pos_part a * neg_part b + neg_part a * pos_part b)

abbrev pub ◌≤ℤ◌ : ℤ → ℤ → Type 0
a ≤ℤ b = pos_part a + neg_part b ≤ pos_part b + neg_part a

abbrev pub ◌<ℤ◌ : ℤ → ℤ → Type 0
a <ℤ b = suc (pos_part a + neg_part b) ≤ pos_part b + neg_part a

abbrev pub ltb_ℤ : ℤ → ℤ → Bool
ltb_ℤ a b = ltb (pos_part a + neg_part b) (pos_part b + neg_part a)

abbrev pub leb_ℤ : ℤ → ℤ → Bool
leb_ℤ a b = leb (pos_part a + neg_part b) (pos_part b + neg_part a)

-- The value of `abs`, as a number.
abbrev pub nat_abs : ℤ → ℕ
nat_abs a = pos_part a + neg_part a

-- `a >> k` rounds towards minus infinity.
unfoldable pub shr : ℤ → ℕ → ℤ
shr (pos n) k = pos (n / 2 ^ k)
shr (negsuc n) k = negsuc (n / 2 ^ k)

-- `a / d` for a positive `d` rounds towards zero.
unfoldable pub quot : ℤ → ℕ → ℤ
quot (pos n) d = pos (n / d)
quot (negsuc n) d = sub_ℕ 0 (suc n / d)

-- The pattern of `a` in `w` bits, `m` being `2 ^ w`.
unfoldable pub low_bits : ℤ → ℕ → ℕ
low_bits (pos n) m = n % m
low_bits (negsuc n) m = m - 1 - n % m

-- The two's complement value of a pattern below `2 * half`.
unfoldable pub signed : ℕ → ℕ → ℤ
signed half x = if ltb x half then pos x else negsuc (2 * half - x - 1)

-- `(int16_t) a`
unfoldable pub to_int16 : ℤ → ℤ
unfolding signed low_bits
to_int16 a = signed 0x8000 (low_bits a 0x10000)

-- `(int) a`, for an `int` of 32 bits
unfoldable pub to_int32 : ℤ → ℤ
unfolding signed low_bits
to_int32 a = signed 0x8000_0000 (low_bits a 0x1_0000_0000)

-- `(uint32_t) a`
unfoldable pub to_uint32 : ℤ → ℕ
unfolding low_bits
to_uint32 a = low_bits a 0x1_0000_0000

-- One lemma for each operation lets `omega` work with the operations shut, at any depth.
pub +ℤ_parts :
    (a b : ℤ)
    → pos_part (a +ℤ b) + neg_part a + neg_part b ≡ neg_part (a +ℤ b) + pos_part a + pos_part b
unfolding ◌+ℤ◌
+ℤ_parts a b = ground arith

pub -ℤ_parts :
    (a b : ℤ)
    → pos_part (a -ℤ b) + neg_part a + pos_part b ≡ neg_part (a -ℤ b) + pos_part a + neg_part b
unfolding ◌-ℤ◌
-ℤ_parts a b = ground arith

pub eq_of_parts : (a b : ℤ) → pos_part a + neg_part b ≡ pos_part b + neg_part a → a ≡ b
eq_of_parts a b h = ground arith

pub ruleset int_laws = (arith, +ℤ_parts, -ℤ_parts, eq_of_parts)

-- A value in range is kept by the conversion.
pub to_int16_fits : (a : ℤ) → negsuc 0x7fff ≤ℤ a → a ≤ℤ pos 0x7fff → to_int16 a ≡ a
unfolding to_int16
to_int16_fits (pos n) lo hi = ground arith
to_int16_fits (negsuc n) lo hi = ground arith

pub to_int16_range : (a : ℤ) → (negsuc 0x7fff ≤ℤ to_int16 a) × (to_int16 a ≤ℤ pos 0x7fff)
unfolding to_int16
to_int16_range (pos n) = ground arith
to_int16_range (negsuc n) = ground arith

pub to_int32_fits : (a : ℤ) → negsuc 0x7fff_ffff ≤ℤ a → a ≤ℤ pos 0x7fff_ffff → to_int32 a ≡ a
unfolding to_int32
to_int32_fits (pos n) lo hi = ground arith
to_int32_fits (negsuc n) lo hi = ground arith

-- `a / b` in C: the quotient rounds towards zero, and a divisor 0 is a fault.
unfoldable pub c_div : ℤ → ℤ → Option ℤ
c_div a (pos zero) = none
c_div (pos n) (pos (suc d)) = some (pos (n / suc d))
c_div (negsuc n) (pos (suc d)) = some (sub_ℕ 0 (suc n / suc d))
c_div (pos n) (negsuc d) = some (sub_ℕ 0 (n / suc d))
c_div (negsuc n) (negsuc d) = some (pos (suc n / suc d))
