-- ===== src/Power/Scan/Boxcar.antt =====
-- The loop of `scanner` for `boxcar`: one round, and how many samples each place has got.
pub mod Sums
use android_rtlpower.Base.{
  ℕ, zero, suc, ◌+◌, ◌-◌, ◌*◌, ◌/◌, ◌%◌, ◌≤◌, ◌<◌, ◌≡◌, ◌≢◌, refl, sym, ap, ◌∙◌, arith, ◌==◌, ltb,
  lt→ltb, ltb-false, dec_lt, if◌then◌else◌, inl, inr, Bool, true, false, Bool-cases,
}
use native.Mathlib.Nat.{
  mul_assoc, suc-mul, mul-add-mod_self_right, mod_self, mod-eq_of_lt, mul-le-mul_right,
  le-mul_of_pos_right,
}
use android_rtlpower.Base.Int.{ℤ, pos, negsuc, ◌+ℤ◌, to_int16}
use android_rtlpower.Power.Buffer.{Buffer, store}
use android_rtlpower.Power.Scan.{boxcar_step, boxcar_loop}

pub wrap_add : (a b : ℤ) → to_int16 (to_int16 a +ℤ b) ≡ to_int16 (a +ℤ b)
unfolding to_int16 ◌+ℤ◌
wrap_add (pos a) (pos b) = ground arith
wrap_add (pos a) (negsuc b) = ground arith
wrap_add (negsuc a) (pos b) = ground arith
wrap_add (negsuc a) (negsuc b) = ground arith

-- the sum of `n` samples from `start` on; `c` is 0 for the real parts and 1 for the imaginary ones
pub sum_samples : Buffer → (c start n : ℕ) → ℤ
sum_samples orig c start zero = pos 0
sum_samples orig c start (suc n) = sum_samples orig c start n +ℤ orig (2 * (start + n) + c)

pub no_sample : to_int16 (pos 0) ≡ pos 0
unfolding to_int16
no_sample = ground arith

pub step_cell :
    (m t a c : ℕ) (buf : Buffer)
    → t < m
    → c < 2
    → boxcar_step (2 * m) (2 * t) buf (2 * a + c) ≡ (
        if a == m
        then pos 0
        else if a == t
        then to_int16 (buf (2 * t + c) +ℤ buf (2 * m + c))
        else buf (2 * a + c))
unfolding boxcar_step store
step_cell m t a zero buf h l = ground (arith, no_sample)
step_cell m t a (suc zero) buf h l = ground (arith, no_sample)
step_cell m t a (suc (suc c)) buf h l = absurd (omega arith)

-- how many samples have been added up in `a`, when the loop adds to `t` and has added `r` there
pub count_added : (ds t r a : ℕ) → ℕ
count_added ds t r a = if ltb a t then ds else if a == t then r else 0

abbrev pub next_t : (ds t r : ℕ) → ℕ
next_t ds t r = if suc r == ds then suc t else t

abbrev pub next_r : (ds r : ℕ) → ℕ
next_r ds r = if suc r == ds then 0 else suc r

pub count_elsewhere :
    (ds t r a : ℕ) → a ≢ t → count_added ds (next_t ds t r) (next_r ds r) a ≡ count_added ds t r a
unfolding count_added
count_elsewhere ds t r a h = ground arith

pub count_here : (ds t r : ℕ) → count_added ds (next_t ds t r) (next_r ds r) t ≡ suc r
unfolding count_added
count_here ds t r = ground arith

pub count_same : (ds t r : ℕ) → count_added ds t r t ≡ r
unfolding count_added
count_same ds t r = ground arith

pub count_below : (ds t r a : ℕ) → a < t → count_added ds t r a ≡ ds
unfolding count_added
count_below ds t r a h = ground arith

pub positive : (n : ℕ) → 2 ≤ n → 0 < n
positive n h = omega arith

pub at_least_if : (t a : ℕ) → ¬ (a < t) → t ≤ a
at_least_if t a h = omega arith

pub count_beyond : (ds t r a : ℕ) → t < a → count_added ds t r a ≡ 0
unfolding count_added
count_beyond ds t r a h = ground arith

pub zero_plus : (a : ℤ) → pos 0 +ℤ a ≡ a
unfolding ◌+ℤ◌
zero_plus a = ground arith
