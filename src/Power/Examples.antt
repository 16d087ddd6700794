-- ===== src/Power/Examples.antt =====
-- The theorems on rtlsdrdevice.c's FFT and hops at concrete numbers. `Fraction`
-- is a `Double` for them: quotients of integers.
mod Whole
use android_rtlpower.Power.Fft.Table.{SameTable, fix_fft-SameTable}
use android_rtlpower.Base.{
  List, [], ◌∷◌, ◌++◌, ℕ, suc, ◌+◌, ◌-◌, ◌*◌, ◌/◌, ◌%◌, ◌^◌, ◌≡◌, refl, true, false, Bool, some,
  arith, length, ◌==◌, ltb, if◌then◌else◌,
}
use android_rtlpower.Base.Int.{
  ℤ, pos, negsuc, ◌+ℤ◌, ◌-ℤ◌, ◌*ℤ◌, ◌≤ℤ◌, leb_ℤ, quot, to_int16, to_int16_fits,
}
use android_rtlpower.Suffix.{atofs}
use android_rtlpower.Double.{Double}
use android_rtlpower.Double.Exact.{Uncropped, ComparesQuotients}
use android_rtlpower.Device.Session.{opens, closes}
use android_rtlpower.Power.Recording.{World, Outcome, opened}
use android_rtlpower.Power.Tune.{Tune, Tunes}
use android_rtlpower.Power.Buffer.{Buffer, SameBehind}
use android_rtlpower.Power.Scan.{Settings, scan_hop, boxcar_loop}
use android_rtlpower.Power.Scan.Boxcar.{sum_samples}
use android_rtlpower.Power.Scan.Boxcar.Sums.{boxcar_loop-sum_samples}
use android_rtlpower.Power.Scan.Frames.{scan_hop-samples}
use android_rtlpower.Power.Csv.Halves.{fix_quirks-halves}
use android_rtlpower.Power.Fft.{fix_mpy, reorder_loop, Wave, fix_fft}
use android_rtlpower.Power.Fft.Bounds.{SameOutside, fix_fft-SameOutside}
use android_rtlpower.Power.Fft.Multiply.{fix_mpy-nearest}
use android_rtlpower.Power.Fft.Reversal.{rev}
use android_rtlpower.Power.Fft.Reversal.Permute.{cell, reorder_loop-rev}
use android_rtlpower.Power.Range.Cover.{IsCover, Reads, frequency_range-IsCover}
use android_rtlpower.Power.Range.{Layout, layout, hop_loop, frequency_range}
use android_rtlpower.Power.Range.Hops.{band, IsFewest, hop_loop-IsFewest}
use android_rtlpower.Power.Range.Bins.{IsLayout, layout-IsLayout}

fix_mpy-nearest_example :
    (fix_mpy (pos 12000) (negsuc 20000) *ℤ pos 0x8000 ≤ℤ pos 12000 *ℤ negsuc 20000 +ℤ pos 0x4000)
    × (pos 12000 *ℤ negsuc 20000 +ℤ pos 0x4000
        ≤ℤ fix_mpy (pos 12000) (negsuc 20000) *ℤ pos 0x8000 +ℤ pos 0x7fff)
fix_mpy-nearest_example =
    fix_mpy-nearest (pos 12000) (negsuc 20000) (omega arith) (omega arith) (omega arith)
      (omega arith)

-- numerator and denominator
abbrev Fraction : Type 0
Fraction = ℤ × ℕ

abbrev fraction_sub : Fraction → Fraction → Fraction
fraction_sub (a, b) (c, d) = (a *ℤ pos d -ℤ c *ℤ pos b, b * d)

abbrev fraction_mul : Fraction → Fraction → Fraction
fraction_mul (a, b) (c, d) = (a *ℤ c, b * d)

abbrev fraction_div : Fraction → Fraction → Fraction
fraction_div (a, b) (pos c, d) = (a *ℤ pos d, b * c)
fraction_div (a, b) (negsuc c, d) = (pos 0 -ℤ a *ℤ pos d, b * suc c)

abbrev fraction_le : Fraction → Fraction → Bool
fraction_le (a, b) (c, d) = leb_ℤ (a *ℤ pos d) (c *ℤ pos b)

-- a number in decimal, `n` being what its first digits are
digits : List ℕ → ℕ → ℕ
digits [] n = n
digits (c ∷ cs) n = digits cs (10 * n + (c - b'0'))

-- what the layout of the hops calls; the rest is not used by it
abbrev fractions : Double
fractions = record {
  F = Fraction;
  of_int = λ n. (n, 1);
  to_int = λ x. quot (x.0) (x.1);
  lit = λ n e. (pos n, 10 ^ e);
  add = λ x y. x;
  sub = fraction_sub;
  mul = fraction_mul;
  div = fraction_div;
  neg = λ x. x;
  lt = λ x y. false;
  le = fraction_le;
  round = λ x. x;
  sin = λ x. x;
  cos = λ x. x;
  log2 = λ x. x;
  log10 = λ x. x;
  pow = λ x y. x;
  m_pi = (pos 3, 1);
  m_e = (pos 3, 1);
  atof = λ s. (pos (digits s 0), 1);
}

fractions-Uncropped : Uncropped fractions (pos 0, 1)
unfolding ◌*ℤ◌ ◌-ℤ◌ quot
fractions-Uncropped (pos n) lo hi = ground arith
fractions-Uncropped (negsuc n) lo hi = ground arith

fractions-ComparesQuotients : ComparesQuotients fractions
unfolding ◌*ℤ◌
fractions-ComparesQuotients a b c p la lb lc = ground arith

fm_band : pos 108_000_000 -ℤ pos 88_000_000 ≡ pos 20_000_000
unfolding ◌-ℤ◌
fm_band = refl

layout-IsLayout_example :
    (l : Layout fractions) × (layout fractions true
        (pos 0, 1)
        (pos 88_000_000)
        (pos 108_000_000)
        (pos 125_000)
        (pos 0)
      ≡ some l)
    × IsLayout fractions (pos 0, 1) 20_000_000 125_000 l
layout-IsLayout_example =
    layout-IsLayout fractions (pos 0, 1) fractions-Uncropped fractions-ComparesQuotients
      (pos 88_000_000) (pos 108_000_000) 20_000_000 fm_band (omega arith) (omega arith) 125_000
      (omega arith) (omega arith) (pos 0)

abbrev four_bins : Tune fractions
four_bins = record {
  freq = pos 89_250_000;
  rate = pos 2_500_000;
  bin_e = 2;
  avg = λ j. pos 7;
  samples = pos 2;
  downsample = pos 1;
  downsample_passes = pos 0;
  crop = (pos 0, 1);
  buf8 = λ j. 127;
  buf_len = pos 16384;
}

abbrev settings : Settings
settings = record {
  boxcar = true;
  comp_fir_size = 0;
  peak_hold = false;
  window_coefs = λ j. pos 256;
  wave = record { log2_n_wave = 2; n_wave = 4; sinewave = λ j. pos (32767 * (j % 2)) };
}

scan_hop-samples_example :
    (t : Tune fractions) × (buf : Buffer) × (scan_hop fractions settings 2
        (pos (2 * 2 ^ 2 * 3 * 1))
        four_bins
        (λ j. pos 0)
      ≡ some (t, buf))
    × (t.samples ≡ pos (2 + 3 * 1))
    × SameBehind (2 * 2 ^ 2 * 3 * 1) (λ j. pos 0) buf
    × SameBehind (2 ^ 2) four_bins.avg t.avg
scan_hop-samples_example =
    scan_hop-samples fractions settings 1 3 1 2 four_bins (λ j. pos 0) refl refl refl (omega arith)
      (omega arith) refl (omega arith)

abbrev no_file : World fractions
no_file = record {
  driver = record { answer = λ log c. pos 0; gains = []; malloc = λ n. true };
  heap = λ i. some (λ j. 0);
  file_opens = false;
  clock = λ i. i;
  stops = λ i. false;
  exits = λ i j. false;
  read = λ i j k. 127;
  fft_buf = λ j. pos 0;
}

abbrev one_hop : Tunes fractions
one_hop = record { tune_count = pos 1; tunes = λ i. four_bins; failed = false }

abbrev eight_samples : Buffer
eight_samples a = pos (a % 16)

eight_samples-kept : (a : ℕ) → to_int16 (eight_samples a) ≡ eight_samples a
eight_samples-kept a = to_int16_fits (eight_samples a) (omega arith) (omega arith)

reorder_loop-rev_example :
    reorder_loop 0 (2 ^ 3) (2 ^ 3 - 1) 1 0 eight_samples (cell 0 3 1)
    ≡ eight_samples (cell 0 (rev 3 3) 1)
reorder_loop-rev_example =
    reorder_loop-rev 0 3 eight_samples eight_samples-kept 3 1 (omega arith) (omega arith)

boxcar_loop-sum_samples_example :
    boxcar_loop 3 (2 * 8) (2 * 8) 2 0 eight_samples (2 * 1 + 1)
    ≡ to_int16 (sum_samples eight_samples 1 (1 * 3) 3)
boxcar_loop-sum_samples_example =
    boxcar_loop-sum_samples 3 eight_samples (omega arith) eight_samples-kept 8 1 1 (omega arith)
      (omega arith)

abbrev flat : Wave
flat = record { log2_n_wave = 3; n_wave = 8; sinewave = λ j. pos 100 }

fix_fft-SameOutside_example :
    (new : Buffer) × (fix_fft flat 4 2 eight_samples ≡ some new)
    × SameOutside 4 (2 ^ 2) eight_samples new
fix_fft-SameOutside_example = fix_fft-SameOutside flat 4 2 eight_samples (omega arith)

-- the same table, and other values behind its end
abbrev flat_and_more : Wave
flat_and_more = record flat { sinewave = λ j. if ltb j 6 then pos 100 else pos 7 }

flat-SameTable : SameTable flat flat_and_more
flat-SameTable = record {
  same_log = refl;
  same_size = refl;
  same_entries = λ j h. ground (arith, h);
}

fix_fft-SameTable_example : fix_fft flat_and_more 0 3 eight_samples ≡ fix_fft flat 0 3 eight_samples
fix_fft-SameTable_example =
    fix_fft-SameTable flat flat_and_more 0 3 eight_samples refl flat-SameTable
