-- ===== src/Double/Exact.antt =====
-- What the integer part of the code relies on: on whole numbers of the size that occurs, division
-- by one and comparison of a quotient with a whole number are exact (IEEE 754 doubles are so).
use android_rtlpower.Base.{ℕ, ◌*◌, ◌^◌, ◌<◌, ◌≤◌, ◌≡◌, leb}
use android_rtlpower.Base.Int.{ℤ, pos, negsuc, ◌≤ℤ◌}
use android_rtlpower.Double.{Double}

-- Without cropping, the division by `1.0 - crop` changes no whole number.
abbrev pub Uncropped : (d : Double) → d.F → Type 0
Uncropped d crop =
    (n : ℤ)
    → negsuc 0x7fff_ffff ≤ℤ n
    → n ≤ℤ pos 0x7fff_ffff
    → d.to_int (d.div (d.of_int n) (d.sub (d.lit 1 0) crop)) ≡ n

-- `(double) a / (double) b <= (double) c`
abbrev pub ComparesQuotients : Double → Type 0
ComparesQuotients d =
    (a b c : ℕ)
    → 0 < b
    → a < 0x8000_0000
    → b < 0x8000_0000
    → c < 0x8000_0000
    → d.le (d.div (d.of_int (pos a)) (d.of_int (pos b))) (d.of_int (pos c)) ≡ leb a (c * b)

-- Without cropping, no bin of a hop is cut off at its ends.
abbrev pub NoMargin : (d : Double) → d.F → Type 0
NoMargin d crop =
    (e : ℕ) → e ≤ 21 → d.to_int (d.mul (d.mul (d.of_int (pos (2 ^ e))) crop) (d.lit 5 1)) ≡ pos 0
