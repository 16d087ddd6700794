-- ===== src/Device/Tools.antt =====
-- The `verbose_` functions of rtlsdrdevice.c: a call of the driver whose result is passed on and
-- logged (the log is not modelled), and `verbose_device_search`, which finds a dongle by its number
-- or by its serial. A string is the list of its bytes.
use android_rtlpower.Base.{
  ℕ, zero, suc, ◌-◌, Bool, true, false, ◌&&◌, Option, none, some, List, [], ◌∷◌, length, drop, ◌==◌,
  ltb, if◌then◌else◌,
}
use android_rtlpower.Base.Int.{ℤ, pos, negsuc, ltb_ℤ, leb_ℤ, to_int32, pos_part}
use android_rtlpower.Device.{
  Driver, Run, call, set_center_freq, set_sample_rate, set_direct_sampling, set_offset_tuning,
  set_tuner_gain_mode, set_freq_correction, reset_buffer,
}
pub mod Search

module _ (d : Driver) where
  pub verbose_set_frequency : (frequency : ℕ) → Run ℤ
  verbose_set_frequency frequency = call d (set_center_freq frequency)

  pub verbose_set_sample_rate : (samp_rate : ℕ) → Run ℤ
  verbose_set_sample_rate samp_rate = call d (set_sample_rate samp_rate)

  pub verbose_direct_sampling : (on : ℤ) → Run ℤ
  verbose_direct_sampling on = call d (set_direct_sampling on)

  pub verbose_offset_tuning : Run ℤ
  verbose_offset_tuning = call d (set_offset_tuning (pos 1))

  pub verbose_auto_gain : Run ℤ
  verbose_auto_gain = call d (set_tuner_gain_mode (pos 0))

  pub verbose_ppm_set : (ppm_error : ℤ) → Run ℤ
  verbose_ppm_set ppm_error log =
      if leb_ℤ ppm_error (pos 0) && leb_ℤ (pos 0) ppm_error
      then some (pos 0, log)
      else call d (set_freq_correction ppm_error) log

  pub verbose_reset_buffer : Run ℤ
  verbose_reset_buffer = call d reset_buffer

-- `strncmp(s, t, strlen(s)) == 0`
pub is_prefix : (s t : List ℕ) → Bool
is_prefix [] t = true
is_prefix (a ∷ s) [] = false
is_prefix (a ∷ s) (b ∷ t) = (a == b) && is_prefix s t

-- `strcmp(s, t) == 0`
pub is_same : (s t : List ℕ) → Bool
is_same [] [] = true
is_same [] (b ∷ t) = false
is_same (a ∷ s) [] = false
is_same (a ∷ s) (b ∷ t) = (a == b) && is_same s t

-- the test of the third loop, from `offset` on
pub is_suffix : (s t : List ℕ) → Bool
unfolding is_prefix
is_suffix s t =
    if ltb (length t) (length s) then false else is_prefix s (drop (length t - length s) t)

abbrev next : Option ℕ → Option ℕ
next none = none
next (some i) = some (suc i)

-- a loop over the devices: the first whose serial passes the test
pub find : (List ℕ → Bool) → List (List ℕ) → Option ℕ
find test [] = none
find test (serial ∷ serials) =
    let later = next (find test serials) in if test serial then some 0 else later

abbrev pub or_else : Option ℕ → ℤ → ℤ
or_else none other = other
or_else (some i) other = pos i

-- the three loops
pub search_serials : (s : List ℕ) → List (List ℕ) → ℤ
unfolding find
search_serials s serials =
    or_else (find (is_same s) serials)
      (or_else (find (is_prefix s) serials) (or_else (find (is_suffix s) serials) (negsuc 0)))

abbrev is_empty : List ℕ → Bool
is_empty [] = true
is_empty (c ∷ cs) = false

-- `verbose_device_search(s)`; `serials` are those that `rtlsdr_get_device_usb_strings` gives, one
-- for each device, and `strtol` returns the number and what stands behind it
pub verbose_device_search : (strtol : List ℕ → ℤ × List ℕ) → List (List ℕ) → (s : List ℕ) → ℤ
unfolding search_serials
verbose_device_search strtol serials s =
    let number = strtol s in
    let device = to_int32 number.0 in
    if length serials == 0
    then negsuc 0
    else if is_empty number.1 && leb_ℤ (pos 0) device && ltb_ℤ device (pos (length serials))
    then device
    else search_serials s serials
