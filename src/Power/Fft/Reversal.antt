-- ===== src/Power/Fft/Reversal.antt =====
-- `fix_fft` steps `mr` through the numbers with their bits reversed.
pub mod Permute
use android_rtlpower.Base.{
  ℕ, zero, suc, ◌+◌, ◌-◌, ◌*◌, ◌/◌, ◌%◌, ◌^◌, ◌≤◌, ◌<◌, ◌≡◌, refl, sym, ap, ◌∙◌, arith, ltb, lt→ltb,
  ltb-false, dec_lt, if◌then◌else◌,
}
use native.Mathlib.Nat.{
  zero-add, pow-suc, mod-eq_of_lt, add-mul-mod_self_left, mul-add-mod_self_left,
}
use android_rtlpower.Base.Powers.{pow_positive, lt_pow}
use android_rtlpower.Power.Fft.{halve_loop, next_mr}

-- the number whose `k` low bits are those of `m` in reverse
pub rev : (k m : ℕ) → ℕ
rev zero m = 0
rev (suc k) m = m % 2 * 2 ^ k + rev k (m / 2)

-- the largest power of two below `2 ^ j` whose bit is not set in `r`
lead : (j r : ℕ) → ℕ
lead zero r = 1
lead (suc j) r = let next = lead j (r - 2 ^ j) in if ltb r (2 ^ j) then 2 ^ j else next

halve_loop-lead :
    (j fuel c r : ℕ)
    → j ≤ fuel
    → r + 1 < 2 ^ j
    → halve_loop fuel (c + (2 ^ j - 1)) (c + r) (2 ^ j) ≡ lead j r
unfolding halve_loop lead
halve_loop-lead zero fuel c r f h = absurd (omega arith)
halve_loop-lead (suc j) zero c r f h = absurd (omega arith)
halve_loop-lead (suc j) (suc fuel) c r f h = rw (half) (elim (dec_lt r (2 ^ j)) [
  | yes low ↦ rw (ltb-false _ _ (fits low), lt→ltb r (2 ^ j) low)
  | no high ↦
      rw (lt→ltb _ _ (over high), ltb-false r (2 ^ j) (omega (arith, high)))
        (ap (λ a. halve_loop fuel a (c + r) (2 ^ j)) (nn high)
          ∙ ap (λ a. halve_loop fuel (c + 2 ^ j + (2 ^ j - 1)) a (2 ^ j)) (mr high)
          ∙ halve_loop-lead j fuel (c + 2 ^ j) (r - 2 ^ j) (omega arith)
              (omega (arith, pow-suc 2 j, high)))
])
  where
    half : 2 ^ suc j / 2 ≡ 2 ^ j
    half = rw (pow-suc 2 j) (omega arith)

    fits : r < 2 ^ j → c + r + 2 ^ j ≤ c + (2 ^ suc j - 1)
    fits low = omega (arith, pow-suc 2 j)

    over : ¬ (r < 2 ^ j) → c + (2 ^ suc j - 1) < c + r + 2 ^ j
    over high = omega (arith, pow-suc 2 j, pow_positive j)

    nn : ¬ (r < 2 ^ j) → c + (2 ^ suc j - 1) ≡ c + 2 ^ j + (2 ^ j - 1)
    nn high = omega (arith, pow-suc 2 j, pow_positive j)

    mr : ¬ (r < 2 ^ j) → c + r ≡ c + 2 ^ j + (r - 2 ^ j)
    mr high = omega arith

lead-divides : (j r : ℕ) → (q : ℕ) × (2 ^ j ≡ lead j r * q)
unfolding lead
lead-divides zero r = (1, refl)
lead-divides (suc j) r = elim (dec_lt r (2 ^ j)) [
  | yes low ↦ (2, rw (lt→ltb r (2 ^ j) low) (pow-suc 2 j))
  | no high ↦
      let (q, e) = lead-divides j (r - 2 ^ j) in
      (q * 2, rw (ltb-false r (2 ^ j) (omega (arith, high)), pow-suc 2 j) (grind (arith, e)))
]

pub rev-lt : (k m : ℕ) → rev k m < 2 ^ k
unfolding rev
rev-lt zero m = omega arith
rev-lt (suc k) m = grind (arith, pow-suc 2 k, rev-lt k (m / 2))

rev-even : (k m : ℕ) → m % 2 ≡ 0 → rev (suc k) m ≡ rev k (m / 2)
unfolding rev
rev-even k m e = rw e (omega arith)

rev-even_suc : (k m : ℕ) → m % 2 ≡ 0 → rev (suc k) (suc m) ≡ 2 ^ k + rev k (m / 2)
unfolding rev
rev-even_suc k m e =
    ap (λ b. b * 2 ^ k + rev k (suc m / 2)) bit ∙ ap (λ q. 1 * 2 ^ k + rev k q) same ∙ omega arith
  where
    bit : suc m % 2 ≡ 1
    bit = omega arith

    same : suc m / 2 ≡ m / 2
    same = omega arith

rev-odd : (k m : ℕ) → m % 2 ≡ 1 → rev (suc k) m ≡ 2 ^ k + rev k (m / 2)
unfolding rev
rev-odd k m e = rw e (omega arith)

rev-odd_suc : (k m : ℕ) → m % 2 ≡ 1 → rev (suc k) (suc m) ≡ rev k (suc (m / 2))
unfolding rev
rev-odd_suc k m e =
    ap (λ b. b * 2 ^ k + rev k (suc m / 2)) bit ∙ ap (λ q. 0 * 2 ^ k + rev k q) next ∙ omega arith
  where
    bit : suc m % 2 ≡ 0
    bit = omega arith

    next : suc m / 2 ≡ suc (m / 2)
    next = omega arith

lead-low : (k x : ℕ) → x < 2 ^ k → x % lead (suc k) x + lead (suc k) x ≡ 2 ^ k + x
unfolding lead
lead-low k x h = rw (lt→ltb x (2 ^ k) h, mod-eq_of_lt h) (omega arith)

lead-high :
    (k x : ℕ)
    → (2 ^ k + x) % lead (suc k) (2 ^ k + x) + lead (suc k) (2 ^ k + x) ≡ x % lead k x + lead k x
unfolding lead
lead-high k x =
    let (q, e) = lead-divides k x in
    rw (ltb-false (2 ^ k + x) (2 ^ k) (omega arith)) (
      ap (λ y. (2 ^ k + x) % lead k y + lead k y) less
      ∙ ap (λ p. (p + x) % lead k x + lead k x) e
      ∙ ap (λ r. r + lead k x) (mul-add-mod_self_left (lead k x) q x))
  where
    less : 2 ^ k + x - 2 ^ k ≡ x
    less = omega arith

-- one step of `mr`
lead-rev : (k m : ℕ) → m + 1 < 2 ^ k → rev k m % lead k (rev k m) + lead k (rev k m) ≡ rev k (suc m)
lead-rev zero m h = absurd (omega arith)
lead-rev (suc k) m h = elim (dec_lt (m % 2) 1) [
  | yes low ↦
      let even : m % 2 ≡ 0 = omega (arith, low) in
      ap (λ r. r % lead (suc k) r + lead (suc k) r) (rev-even k m even)
      ∙ lead-low k (rev k (m / 2)) (rev-lt k (m / 2))
      ∙ sym (rev-even_suc k m even)
  | no high ↦
      let odd : m % 2 ≡ 1 = omega (arith, high) in
      ap (λ r. r % lead (suc k) r + lead (suc k) r) (rev-odd k m odd)
      ∙ lead-high k (rev k (m / 2))
      ∙ lead-rev k (m / 2) (omega (arith, pow-suc 2 k, odd))
      ∙ sym (rev-odd_suc k m odd)
]

rev-not_last : (k m : ℕ) → m + 1 < 2 ^ k → rev k m + 1 < 2 ^ k
unfolding rev
rev-not_last zero m h = absurd (omega arith)
rev-not_last (suc k) m h = elim (dec_lt (m % 2) 1) [
  | yes low ↦ grind (arith, pow-suc 2 k, rev-lt k (m / 2), pow_positive k, low)
  | no high ↦
      let less = rev-not_last k (m / 2) (omega (arith, pow-suc 2 k, high)) in
      let odd : m % 2 ≡ 1 = omega (arith, high) in rw odd (omega (arith, pow-suc 2 k, less))
]

pub next_mr-rev : (k m : ℕ) → m + 1 < 2 ^ k → next_mr (2 ^ k) (rev k m) ≡ rev k (suc m)
unfolding next_mr
next_mr-rev k m h = ap (λ l. rev k m % l + l) whole ∙ lead-rev k m h
  where
    whole : halve_loop (2 ^ k) (2 ^ k - 1) (rev k m) (2 ^ k) ≡ lead k (rev k m)
    whole =
        rw (zero-add (2 ^ k - 1), zero-add (rev k m)) at
          (halve_loop-lead k (2 ^ k) 0 (rev k m) (omega (arith, lt_pow k)) (rev-not_last k m h))

-- The lowest bit becomes the highest, and the highest the lowest.
rev-high : (k b y : ℕ) → b < 2 → y < 2 ^ k → rev (suc k) (b * 2 ^ k + y) ≡ 2 * rev k y + b
unfolding rev
rev-high zero b y hb hy = omega arith
rev-high (suc k) b y hb hy =
    ap (λ (c : ℕ). c * 2 ^ suc k + rev (suc k) ((b * 2 ^ suc k + y) / 2)) bit
    ∙ ap (λ q. y % 2 * 2 ^ suc k + rev (suc k) q) half
    ∙ ap (λ (r : ℕ). y % 2 * 2 ^ suc k + r) (rev-high k b (y / 2) hb (omega (arith, pow-suc 2 k)))
    ∙ rw (pow-suc 2 k) (grind arith)
  where
    twice : b * 2 ^ suc k ≡ b * 2 ^ k * 2
    twice = rw (pow-suc 2 k) (grind arith)

    bit : (b * 2 ^ suc k + y) % 2 ≡ y % 2
    bit = omega (arith, twice)

    half : (b * 2 ^ suc k + y) / 2 ≡ b * 2 ^ k + y / 2
    half = omega (arith, twice)

pub rev-zero : (k : ℕ) → rev k 0 ≡ 0
unfolding rev
rev-zero zero = refl
rev-zero (suc k) = omega (arith, rev-zero k)

pub rev-rev : (k m : ℕ) → m < 2 ^ k → rev k (rev k m) ≡ m
unfolding rev
rev-rev zero m h = omega arith
rev-rev (suc k) m h =
    rev-high k (m % 2) (rev k (m / 2)) (omega arith) (rev-lt k (m / 2))
    ∙ omega (arith, rev-rev k (m / 2) (omega (arith, pow-suc 2 k)))
