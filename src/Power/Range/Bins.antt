-- ===== src/Power/Range/Bins.antt =====
-- The number of bins, and the layout as a whole.
use android_rtlpower.Base.{
  ℕ, zero, suc, ◌+◌, ◌*◌, ◌^◌, ◌≤◌, ◌<◌, ◌≡◌, refl, sym, ap, ◌∙◌, true, false, some, inl, inr,
  arith, ◌⊎◌, Bool-cases, if-false, dec_lt, leb, leb→le,
}
use mathlib.Core.Path.{ap₂}
use native.Mathlib.Nat.{pow-suc}
use android_rtlpower.Base.Int.{ℤ, pos, leb_ℤ, ◌*ℤ◌, to_int32, to_int32_fits, ◌-ℤ◌}
use android_rtlpower.Double.{Double}
use android_rtlpower.Double.Exact.{Uncropped, ComparesQuotients}
use android_rtlpower.Power.Range.{
  Plan, Layout, maximum_rate, minimum_rate, layout, bin_loop, bin_fits, giant_bins,
}
use android_rtlpower.Power.Range.Rate.{IsPlan, pos-mul, plan-IsPlan}

module _ (d : Double) (p : Plan) (max_size : ℤ) where
  -- The loop stops at the first `i` that fits, or behind the last round.
  bin_loop-first :
      (left i e : ℕ)
      → bin_loop d p max_size left i ≡ e
      → 0 < i
      → (i ≤ e + 1)
        × ((bin_fits d p max_size e ≡ true) × (i ≤ e) × (e < i + left) ⊎ (e + 1 ≡ i + left))
        × ((j : ℕ) → i ≤ j → j < e → bin_fits d p max_size j ≡ false)
  unfolding bin_loop
  bin_loop-first zero i e stop pos_i =
      (omega arith, inr (omega arith), λ j a b. absurd (omega arith))
  bin_loop-first (suc left) i e stop pos_i = elim (Bool-cases (bin_fits d p max_size i)) [
    | inl fits ↦
        let here : i ≡ e = rw fits at stop in
        (
          omega arith,
          inl (rw here at fits, omega arith, omega arith),
          λ j a b. absurd (omega arith),
        )
    | inr more ↦
        let (low, either, before) = bin_loop-first left (i + 1) e (rw more at stop) (omega arith) in
        (
          omega arith,
          elim either [
            | inl (f, a, b) ↦ inl (f, omega arith, omega arith)
            | inr h ↦ inr (omega arith)
          ],
          λ j a b. elim (dec_lt i j) [
            | yes later ↦ before j (omega arith) b
            | no same ↦ let ij : i ≡ j = omega arith in rw ij at more
          ],
        )
  ]

module _ (d : Double) (compares : ComparesQuotients d) (span : ℕ) (p : Plan) (is : IsPlan span p)
    (m : ℕ) where
  -- where nothing overflows, the test is the one on whole numbers
  bin_fits-leb :
      (i : ℕ)
      → 2 ^ i * is.factor ≤ 2 * maximum_rate
      → 0 < 2 ^ i * is.factor
      → m < minimum_rate
      → bin_fits d p (pos m) i ≡ leb is.rate (m * (2 ^ i * is.factor))
  unfolding bin_fits
  bin_fits-leb i h pp mm =
      ap₂ (λ (a b : ℤ). d.le (d.div (d.of_int a) (d.of_int (to_int32 b))) (d.of_int (pos m)))
        is.used_is (ap (λ x. pos (2 ^ i) *ℤ x) is.downsample_is ∙ pos-mul (2 ^ i) is.factor)
      ∙ ap (λ (b : ℤ). d.le (d.div (d.of_int (pos is.rate)) (d.of_int b)) (d.of_int (pos m)))
          (to_int32_fits (pos (2 ^ i * is.factor)) (omega arith) (omega arith))
      ∙ compares is.rate (2 ^ i * is.factor) m pp (omega (arith, is.at_most)) (omega arith)
          (omega arith)

  pow_pos : (i : ℕ) → 0 < 2 ^ i * is.factor
  pow_pos zero = omega (arith, is.factor_pos)
  pow_pos (suc i) = rw (pow-suc 2 i) (omega (arith, pow_pos i))

  doubled :
      (a k n r : ℕ)
      → leb r (n * (a * k)) ≡ false
      → 0 < n
      → r ≤ maximum_rate
      → a * 2 * k ≤ 2 * maximum_rate
  doubled a k n r over np h = grind arith

  -- Every `i` that the loop tries is small enough for `(1 << i) * downsample` to fit.
  tried_small :
      (e i : ℕ)
      → 0 < m
      → m < minimum_rate
      → ((j : ℕ) → 1 ≤ j → j < e → bin_fits d p (pos m) j ≡ false)
      → i < e
      → 2 ^ suc i * is.factor ≤ 2 * maximum_rate
  tried_small e zero mp mm before h = omega (arith, is.factor_small)
  tried_small e (suc i) mp mm before h =
      let low = tried_small e i mp mm before (omega arith) in
      let fails = before (suc i) (omega arith) h in
      let over = bin_fits-leb (suc i) low (pow_pos (suc i)) mm in
      rw (pow-suc 2 (suc i))
        (doubled (2 ^ suc i) is.factor m is.rate (sym over ∙ fails) mp is.at_most)

  -- At the `e` where the loop stops the bins are as small as asked for, or `e` is the last round.
  stops_fine :
      (e : ℕ)
      → bin_loop d p (pos m) 21 1 ≡ e
      → 0 < m
      → m < minimum_rate
      → (1 ≤ e)
        × (e ≤ 21)
        × (2 ^ e * is.factor ≤ 2 * maximum_rate)
        × ((is.rate ≤ m * (2 ^ e * is.factor)) ⊎ (e ≡ 21))
  stops_fine zero stop mp mm =
      let (low, either, before) = bin_loop-first d p (pos m) 21 1 zero stop (omega arith) in
      absurd (elim either [ inl (ok, a, b) ↦ omega arith | inr h ↦ omega arith ])
  stops_fine (suc e) stop mp mm =
      let (low, either, before) = bin_loop-first d p (pos m) 21 1 (suc e) stop (omega arith) in
      let small = tried_small (suc e) e mp mm before (omega arith) in
      elim either [
        | inl (ok, a, b) ↦
            let fits = sym (bin_fits-leb (suc e) small (pow_pos (suc e)) mm) ∙ ok in
            (omega arith, omega arith, small, inl (leb→le _ _ fits))
        | inr h ↦ (omega arith, omega arith, small, inr (omega arith))
      ]

-- What `frequency_range` promises for a band `lower` to `upper`, `span` wide, and bins of at most
-- `m`: the plan reads at a supported rate, and `bin_e` is 1 to 21 with fine enough bins below 21;
-- the samples of one frame are few enough for an `int`.
pub record IsLayout (d : Double) (crop : d.F) (span m : ℕ) (l : Layout d) : Type 0 where
  pub plan_is : IsPlan span l.plan
  pub bin_low : 1 ≤ l.bin_e
  pub bin_high : l.bin_e ≤ 21
  pub crop_is : l.crop ≡ crop
  pub frame_small : 2 ^ l.bin_e * plan_is.factor ≤ 2 * maximum_rate
  pub fine : (plan_is.rate ≤ m * (2 ^ l.bin_e * plan_is.factor)) ⊎ (l.bin_e ≡ 21)

module _ (d : Double) (crop : d.F) (exact : Uncropped d crop) (compares : ComparesQuotients d)
    (lower upper : ℤ) (span : ℕ) (apart : upper -ℤ lower ≡ pos span) (p : 0 < span)
    (small : span < 0x8000_0000) where
  -- For an upper bound above the lower one, by less than `2 ^ 31`, and a bin size below the smallest
  -- rate, with boxcar downsampling, no cropping and a `double` that is exact on such numbers, the
  -- layout is made: the rate is supported, a hop is as wide as the band divided by the number of
  -- hops, which is below 1500, and the bins are at most as wide as asked for unless `bin_e` is 21.
  pub layout-IsLayout :
      (m : ℕ)
      → 0 < m
      → m < minimum_rate
      → (old : ℤ)
      → (l : Layout d) × (layout d true crop lower upper (pos m) old ≡ some l)
        × IsLayout d crop span m l
  unfolding giant_bins
  layout-IsLayout m mp mm old =
      let (q, is, run) = plan-IsPlan d crop exact lower upper span apart p small (pos m) old in
      let (low, high, frame, fine) =
        stops_fine d compares span q is m (bin_loop d q (pos m) 21 1) refl mp mm in
      (
        record { plan = q; bin_e = bin_loop d q (pos m) 21 1; crop = crop },
        run ∙ if-false {b = leb_ℤ (pos minimum_rate) (pos m)} _ _ (ground arith),
        record {
          plan_is = is;
          bin_low = low;
          bin_high = high;
          crop_is = refl;
          frame_small = frame;
          fine = fine;
        },
      )
