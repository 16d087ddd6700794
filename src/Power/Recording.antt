-- ===== src/Power/Recording.antt =====
-- `mainCOPIED` of rtlsdrdevice.c, with the values that it gives the options: single shot, every 10
-- seconds, automatic gain, no cropping. The calls of the driver go to a log as in Device. Parameters
-- are what the allocator gives to the hops, what the driver answers and reads, whether `fopen`
-- works, the time that `time(NULL)` gives in each round of the loop, and `do_exit` as set from
-- outside before each round. `malloc` of the FFT's buffer and tables is taken to work; `usage`, the
-- handlers of signals and the log are left out.
pub mod Stopped
pub mod Whole
use android_rtlpower.Base.{
  ℕ, zero, suc, ◌+◌, ◌^◌, Bool, true, false, ◌||◌, Option, none, some, List, [], ◌∷◌, ltb,
  if◌then◌else◌,
}
use android_rtlpower.Base.Int.{ℤ, pos, ltb_ℤ, to_uint32, pos_part}
use android_rtlpower.Double.{Double}
use android_rtlpower.Device.{
  Driver, Log, open_device, close_device, set_tuner_gain_mode, reset_buffer, set_sample_rate,
}
use android_rtlpower.Power.Buffer.{Buffer}
use android_rtlpower.Power.Tune.{Tune, Tunes}
use android_rtlpower.Power.Range.{◌>>=◌, frequency_range}
use android_rtlpower.Power.Window.{rectangle, window_coef, sine_entry}
use android_rtlpower.Power.Csv.{Row, csv_dbm, cons_if, map_if}
use android_rtlpower.Power.Scan.{Settings, scanner}

module _ (d : Double) where
  -- the outside world of one recording
  pub record World : Type 0 where
    pub driver : Driver
    pub heap : ℕ → Option (ℕ → ℕ)
    pub file_opens : Bool
    pub clock : ℕ → ℕ
    pub stops : ℕ → Bool
    pub exits : ℕ → ℕ → Bool
    pub read : ℕ → ℕ → ℕ → ℕ
    -- what `malloc` leaves in `fft_buf`
    pub fft_buf : Buffer

  -- what remains: the result, the calls, the rows written, and `backgroundProcessingFailed`
  pub record Outcome : Type 0 where
    pub result : ℤ
    pub log : Log
    pub rows : List (Row d)
    pub failed : Bool

  -- `csv_dbm(&tunes[i])` for each hop, with the rounds left
  write_rows : (t : Tunes d) → ℕ → (i : ℕ) → Option (List (Row d))
  write_rows t zero i = some []
  write_rows t (suc left) i =
      cons_if (map_if (λ (p : Row d × Tune d). p.0) (csv_dbm d (t.tunes i)))
        (write_rows t left (i + 1))

  -- `while (!do_exit)` on fuel, from round `i` on; the row of the first tick ends it
  pub record_loop :
      World → Settings → (next_tick : ℕ) → ℕ → (i : ℕ) → Tunes d → Buffer → Option (List (Row d))
  unfolding write_rows
  record_loop w s next_tick zero i t buf = none
  record_loop w s next_tick (suc fuel) i t buf =
      let round = scanner d s (w.exits i) (w.read i) t buf >>= λ scanned.
      let later = record_loop w s next_tick fuel (i + 1) scanned.0 scanned.1 in
      if ltb (w.clock i) next_tick
      then later
      else write_rows scanned.0 (pos_part ((scanned.0).tune_count)) 0 in
      if w.stops i then some [] else round

  -- the globals, as `sine_table` and the loop over `window_coefs` leave them
  prepared : Tunes d → Settings
  prepared t =
      let e = (t.tunes 0).bin_e in
      record {
        boxcar = true;
        comp_fir_size = 0;
        peak_hold = false;
        window_coefs = window_coef d (rectangle d) (2 ^ e);
        wave = record { log2_n_wave = e; n_wave = 2 ^ e; sinewave = sine_entry d (2 ^ e) };
      }

  -- from `verbose_reset_buffer` to the end
  pub capture : World → (fuel now : ℕ) → (r : ℤ) → Tunes d → Log → Option Outcome
  unfolding record_loop prepared
  capture w fuel now r t log = record_loop w (prepared t) (now + 10) fuel 0 t w.fft_buf >>= λ rows.
      some (record {
        result = r;
        log = close_device ∷ set_sample_rate (to_uint32 ((t.tunes 0).rate)) ∷ reset_buffer ∷ log;
        rows = rows;
        failed = t.failed;
      })

  -- an early `return 0`, with `backgroundProcessingFailed=1`
  abbrev gave_up : Log → Option Outcome
  gave_up log = some (record { result = pos 0; log = log; rows = []; failed = true })

  -- from `rtlsdr_open2` on
  pub opened : World → (fuel now : ℕ) → Tunes d → Option Outcome
  unfolding capture
  opened w fuel now t =
      let r = w.driver.answer [] open_device in
      let log = set_tuner_gain_mode (pos 0) ∷ open_device ∷ [] in
      if ltb_ℤ r (pos 0)
      then gave_up (open_device ∷ [])
      else if w.file_opens
      then capture w fuel now r t log
      else gave_up log

  -- `mainCOPIED`; `crop` is 0.0, `now` the time before the loop, `t` the globals before the call
  pub main_copied : World → (fuel now : ℕ) → (freq_optarg : List ℕ) → Tunes d → Option Outcome
  unfolding opened
  main_copied w fuel now freq_optarg t =
      let crop = d.lit 0 0 in
      if d.lt crop (d.lit 0 0) || d.lt (d.lit 1 0) crop
      then gave_up []
      else frequency_range d true w.heap freq_optarg crop t >>= opened w fuel now
