-- ===== src/Power/Tune.antt =====
-- The globals of rtlsdrdevice.c that the scan works on.
use android_rtlpower.Base.{ℕ, Bool}
use android_rtlpower.Base.Int.{ℤ}
use android_rtlpower.Double.{Double}

module _ (d : Double) where
  -- `struct tuning_state`; `avg` and `buf8` are the cells of the allocated arrays
  pub record Tune : Type 0 where
    pub freq : ℤ
    pub rate : ℤ
    pub bin_e : ℕ
    pub avg : ℕ → ℤ
    pub samples : ℤ
    pub downsample : ℤ
    pub downsample_passes : ℤ
    pub crop : d.F
    pub buf8 : ℕ → ℕ
    pub buf_len : ℤ

  -- `tune_count`, `tunes`, and `backgroundProcessingFailed`
  pub record Tunes : Type 0 where
    pub tune_count : ℤ
    pub tunes : ℕ → Tune
    pub failed : Bool
