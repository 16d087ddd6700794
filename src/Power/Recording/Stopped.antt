-- ===== src/Power/Recording/Stopped.antt =====
-- A recording that is to stop before its first round.
use android_rtlpower.Base.{ℕ, suc, ◌+◌, ◌≡◌, refl, true, false, some, List, [], ◌∷◌}
use android_rtlpower.Base.Int.{pos, to_uint32}
use android_rtlpower.Double.{Double}
use android_rtlpower.Device.{
  open_device, close_device, reset_buffer, set_sample_rate, set_tuner_gain_mode,
}
use android_rtlpower.Power.Tune.{Tunes}
use android_rtlpower.Power.Range.{frequency_range}
use android_rtlpower.Power.Recording.{
  World, Outcome, prepared, record_loop, capture, opened, main_copied,
}

-- what is left of such a recording
abbrev pub stopped : (d : Double) → Tunes d → Outcome d
stopped d t = record {
  result = pos 0;
  log =
      close_device
      ∷ set_sample_rate (to_uint32 ((t.tunes 0).rate))
      ∷ reset_buffer
      ∷ set_tuner_gain_mode (pos 0)
      ∷ open_device
      ∷ [];
  rows = [];
  failed = t.failed;
}

loop_stopped :
    (d : Double) (w : World d) (fuel now : ℕ) (t : Tunes d)
    → w.stops 0 ≡ true
    → record_loop d w (prepared d t) (now + 10) (suc fuel) 0 t w.fft_buf ≡ some []
unfolding record_loop
loop_stopped d w fuel now t stop = rw stop refl

opened-stopped :
    (d : Double) (w : World d) (fuel now : ℕ) (t : Tunes d)
    → w.stops 0 ≡ true
    → w.driver.answer [] open_device ≡ pos 0
    → w.file_opens ≡ true
    → opened d w (suc fuel) now t ≡ some (stopped d t)
unfolding opened capture
opened-stopped d w fuel now t stop ok file = rw (ok, file, loop_stopped d w fuel now t stop) refl

pub main_copied-stopped :
    (d : Double) (w : World d) (fuel now : ℕ) (freq_optarg : List ℕ) (t t' : Tunes d)
    → w.stops 0 ≡ true
    → w.driver.answer [] open_device ≡ pos 0
    → w.file_opens ≡ true
    → d.lt (d.lit 0 0) (d.lit 0 0) ≡ false
    → d.lt (d.lit 1 0) (d.lit 0 0) ≡ false
    → frequency_range d true w.heap freq_optarg (d.lit 0 0) t ≡ some t'
    → main_copied d w (suc fuel) now freq_optarg t ≡ some (stopped d t')
unfolding main_copied
main_copied-stopped d w fuel now freq_optarg t t' stop ok file low high made =
    rw (low, high, made) (opened-stopped d w fuel now t' stop ok file)
