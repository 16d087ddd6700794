-- ===== src/Power/Range/Rate.antt =====
-- The sample rate that `frequency_range` chooses.
use android_rtlpower.Base.{
  ℕ, ◌-◌, ◌*◌, ◌/◌, ◌≤◌, ◌<◌, ◌≡◌, refl, ap, ◌∙◌, true, some, arith, if-true, if-false, dec_lt,
}
use android_rtlpower.Base.Int.{ℤ, pos, ltb_ℤ, ◌*ℤ◌, to_int32, to_int32_fits, ◌-ℤ◌}
use android_rtlpower.Double.{Double}
use android_rtlpower.Double.Exact.{Uncropped}
use android_rtlpower.Power.Range.{
  Plan, maximum_rate, minimum_rate, small_band, recursive_downsample, giant_bins, layout,
}
use android_rtlpower.Power.Range.Hops.{band, c_div-pos, IsFewest, hop_loop-IsFewest}

-- The plan reads at a rate that the dongle supports, `downsample` times the width of a hop.
pub record IsPlan (span : ℕ) (p : Plan) : Type 0 where
  pub count : ℕ
  pub width : ℕ
  pub factor : ℕ
  pub rate : ℕ
  pub hops_are : p.hops ≡ pos count
  pub seen_is : p.bw_seen ≡ pos width
  pub used_is : p.bw_used ≡ pos rate
  pub downsample_is : p.downsample ≡ pos factor
  pub some_hop : 0 < count
  pub in_array : count < 1500
  pub covers : width ≡ span / count
  pub factor_pos : 0 < factor
  pub factor_small : factor ≤ maximum_rate
  pub scaled : rate ≡ width * factor
  pub at_least : minimum_rate ≤ rate
  pub at_most : rate ≤ maximum_rate
  pub no_passes : p.downsample_passes ≡ pos 0

pub pos-mul : (a b : ℕ) → pos a *ℤ pos b ≡ pos (a * b)
unfolding ◌*ℤ◌
pos-mul a b = ground arith

scaled_range :
    (w : ℕ)
    → 0 < w
    → w < minimum_rate
    → (minimum_rate ≤ w * (maximum_rate / w))
      × (w * (maximum_rate / w) ≤ maximum_rate)
      × (0 < maximum_rate / w)
      × (maximum_rate / w ≤ maximum_rate)
scaled_range w p h = grind arith

mul_le_of_lt_div : (m s k : ℕ) → 0 < k → m < s / k → m * k ≤ s
mul_le_of_lt_div m s k p h = grind arith

lt_mul_of_div_lt : (m s n : ℕ) → 0 < n → s / n < m → s < m * n
lt_mul_of_div_lt m s n p h = grind arith

-- A band below the smallest rate is that of a single hop.
single_of_small : (span n : ℕ) → 0 < span → IsFewest span n → span / n < minimum_rate → n ≡ 1
single_of_small span n p f h = elim (dec_lt 1 n) [
  | yes many ↦ absurd (
      omega (
        arith,
        mul_le_of_lt_div maximum_rate span (n - 1) (omega arith)
            (f.fewest (n - 1) (omega arith) (omega arith)),
        lt_mul_of_div_lt minimum_rate span n (omega arith) h,
      ))
  | no one ↦ omega (arith, f.positive)
]

rate_fits : (w k : ℕ) → w * k ≤ maximum_rate → to_int32 (pos w *ℤ pos k) ≡ pos (w * k)
rate_fits w k h =
    ap to_int32 (pos-mul w k) ∙ to_int32_fits (pos (w * k)) (omega arith) (omega arith)

module _ (d : Double) (span n : ℕ) (p : 0 < span) (f : IsFewest span n) where
  small_band-IsPlan :
      (q : Plan) × (small_band d (band (span / n) (span / n) n) ≡ some q) × IsPlan span q
  unfolding small_band
  small_band-IsPlan = elim (dec_lt (span / n) minimum_rate) [
    | yes low ↦
        let w = span / n in
        let one = single_of_small span n p f low in
        let whole : w ≡ span / 1 = ap (λ k. span / k) one in
        let wp : 0 < w = rw one (omega arith) in
        let (lo, hi, fp, fs) = scaled_range w wp low in
        let rate = rate_fits w (maximum_rate / w) hi in
        (
          record {
            band = record { bw_seen = pos w; bw_used = pos (w * (maximum_rate / w)); hops = pos 1 };
            downsample = pos (maximum_rate / w);
            downsample_passes = pos 0;
          },
          rw (c_div-pos maximum_rate w wp)
              (if-true {b = ltb_ℤ (pos w) (pos minimum_rate)} _ _ (ground arith) ∙ rw rate),
          record {
            count = 1;
            width = w;
            factor = maximum_rate / w;
            rate = w * (maximum_rate / w);
            hops_are = refl;
            seen_is = refl;
            used_is = refl;
            downsample_is = refl;
            some_hop = omega arith;
            in_array = omega arith;
            covers = whole;
            factor_pos = fp;
            factor_small = fs;
            scaled = refl;
            at_least = lo;
            at_most = hi;
            no_passes = refl;
          },
        )
    | no high ↦ (
      record { band = band (span / n) (span / n) n; downsample = pos 1; downsample_passes = pos 0 },
      if-false {b = ltb_ℤ (pos (span / n)) (pos minimum_rate)} _ _ (ground arith),
      record {
        count = n;
        width = span / n;
        factor = 1;
        rate = span / n;
        hops_are = refl;
        seen_is = refl;
        used_is = refl;
        downsample_is = refl;
        some_hop = f.positive;
        in_array = f.bounded;
        covers = refl;
        factor_pos = omega arith;
        factor_small = omega arith;
        scaled = omega arith;
        at_least = omega arith;
        at_most = f.fits;
        no_passes = refl;
      },
    )
  ]

-- `span` is positive and fits, boxcar downsampling is on, the bins are not giant.
module _ (d : Double) (crop : d.F) (exact : Uncropped d crop) (lower upper : ℤ) (span : ℕ)
    (apart : upper -ℤ lower ≡ pos span) (p : 0 < span) (small : span < 0x8000_0000) where
  -- For an upper bound that lies above the lower one, by less than `2 ^ 31`, the plan is made, and
  -- it reads at a rate that the dongle supports.
  pub plan-IsPlan :
      (max_size old : ℤ)
      → (q : Plan) × IsPlan span q
        × (layout d true crop lower upper max_size old ≡ giant_bins d crop (pos span) max_size q)
  unfolding layout recursive_downsample
  plan-IsPlan max_size old =
      let (n, run, few) =
        hop_loop-IsFewest d crop exact span small 1499 1
          (record { bw_seen = pos 0; bw_used = pos 0; hops = old }) refl (omega arith)
          (λ j a b. absurd (omega arith)) in
      let (q, made, is) = small_band-IsPlan d span n p few in
      (q, is, rw (apart, to_int32_fits (pos span) (omega arith) (omega arith), run, made))
