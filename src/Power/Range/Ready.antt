-- ===== src/Power/Range/Ready.antt =====
-- The hops that `frequency_range` makes are ready to be scanned.
use android_rtlpower.Base.{
  ℕ, ◌*◌, ◌/◌, ◌^◌, ◌≤◌, ◌<◌, ◌≡◌, ap, ◌∙◌, arith, if-true, if-false, dec_lt,
}
use android_rtlpower.Base.Powers.{pow_positive}
use android_rtlpower.Base.Int.{ℤ, pos, ◌+ℤ◌, ◌*ℤ◌, ltb_ℤ, to_int32, to_int32_fits}
use android_rtlpower.Double.{Double}
use android_rtlpower.Power.Tune.{Tune, Tunes}
use android_rtlpower.Power.Range.{Layout, maximum_rate, default_buf_length, buf_length}
use android_rtlpower.Power.Range.Rate.{pos-mul}
use android_rtlpower.Power.Range.Bins.{IsLayout}

module _ (d : Double) (l : Layout d) (lower : ℤ) (w : ℕ) where
  -- the hop `i`
  unfoldable pub made : ℕ → (ℕ → ℕ) → Tune d
  made i buf8 = record {
    freq = to_int32 (lower +ℤ pos i *ℤ l.bw_seen +ℤ pos (w / 2));
    rate = l.bw_used;
    bin_e = l.bin_e;
    avg = λ j. pos 0;
    samples = pos 0;
    downsample = l.downsample;
    downsample_passes = l.downsample_passes;
    crop = l.crop;
    buf8 = buf8;
    buf_len = buf_length d l;
  }

-- The hops of an array are ready to be scanned: all have the bins and the samples of the first, no
-- recursive passes, and two cells or more in the buffer after the downsampling.
module _ (d : Double) (crop : d.F) where
  pub record IsReady (bin factor len : ℕ) (u : Tune d) : Type 0 where
    pub bin_is : u.bin_e ≡ bin
    pub factor_is : u.downsample ≡ pos factor
    pub no_passes : u.downsample_passes ≡ pos 0
    pub len_is : u.buf_len ≡ pos len
    pub crop_is : u.crop ≡ crop

  pub record AreReady (t : Tunes d) : Type 0 where
    pub bin : ℕ
    pub factor : ℕ
    pub len : ℕ
    pub count : ℕ
    pub count_is : t.tune_count ≡ pos count
    pub some_hop : 0 < count
    pub bin_low : 1 ≤ bin
    pub bin_high : bin ≤ 21
    pub factor_pos : 0 < factor
    pub enough : 2 ≤ len / factor
    pub ready : (i : ℕ) → i < count → IsReady bin factor len (t.tunes i)

two_left : (a k n : ℕ) → 2 ≤ a → 0 < k → a * k ≤ n → 2 ≤ n / k
two_left a k n h p l = grind arith

-- `buf_len` holds at least one frame, and two cells of it are left after the downsampling.
buf_length-enough :
    (d : Double) (l : Layout d) (factor : ℕ)
    → l.downsample ≡ pos factor
    → 0 < factor
    → 2 ^ l.bin_e * factor ≤ 2 * maximum_rate
    → (n : ℕ) × (buf_length d l ≡ pos n) × (2 ≤ n / factor)
unfolding buf_length
buf_length-enough d l factor e p small =
    let n = 2 * 2 ^ l.bin_e * factor in
    let whole : to_int32 (pos (2 * 2 ^ l.bin_e) *ℤ l.downsample) ≡ pos n =
      ap (λ x. to_int32 (pos (2 * 2 ^ l.bin_e) *ℤ x)) e
      ∙ ap to_int32 (pos-mul (2 * 2 ^ l.bin_e) factor)
      ∙ to_int32_fits (pos n) (omega arith) (omega arith) in
    let two : 2 ≤ 2 * 2 ^ l.bin_e = omega (arith, pow_positive l.bin_e) in
    elim (dec_lt n default_buf_length) [
      | yes short ↦ (
        default_buf_length,
        rw whole (if-true {b = ltb_ℤ (pos n) (pos default_buf_length)} _ _ (ground arith)),
        two_left (2 * 2 ^ l.bin_e) factor default_buf_length two p (omega arith),
      )
      | no long ↦ (
        n,
        rw whole (if-false {b = ltb_ℤ (pos n) (pos default_buf_length)} _ _ (ground arith)),
        two_left (2 * 2 ^ l.bin_e) factor n two p (omega arith),
      )
    ]

module _ {d : Double} (crop : d.F) (span m : ℕ) (l : Layout d) (lower : ℤ)
    (is : IsLayout d crop span m l) (t : Tunes d) (blocks : ℕ → ℕ → ℕ) where
  pub made-AreReady :
      ((i : ℕ) → i < is.plan_is.count → t.tunes i ≡ made d l lower is.plan_is.width i (blocks i))
      → t.tune_count ≡ pos (is.plan_is.count)
      → AreReady d crop t
  unfolding made
  made-AreReady new count =
      let plan = is.plan_is in
      let (n, len, enough) =
        buf_length-enough d l plan.factor plan.downsample_is plan.factor_pos is.frame_small in
      record {
        bin = l.bin_e;
        factor = plan.factor;
        len = n;
        count = plan.count;
        count_is = count;
        some_hop = plan.some_hop;
        bin_low = is.bin_low;
        bin_high = is.bin_high;
        factor_pos = plan.factor_pos;
        enough = enough;
        ready = λ i h. record {
          bin_is = ap (λ (u : Tune d). u.bin_e) (new i h);
          factor_is = ap (λ (u : Tune d). u.downsample) (new i h) ∙ plan.downsample_is;
          no_passes = ap (λ (u : Tune d). u.downsample_passes) (new i h) ∙ plan.no_passes;
          len_is = ap (λ (u : Tune d). u.buf_len) (new i h) ∙ len;
          crop_is = ap (λ (u : Tune d). u.crop) (new i h) ∙ is.crop_is;
        };
      }
