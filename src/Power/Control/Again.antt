-- ===== src/Power/Control/Again.antt =====
-- A recording that is begun while `do_exit` is still set.
use android_rtlpower.Base.{
  ℕ, suc, ◌≡◌, ◌≢◌, refl, ap, true, false, not, ◌||◌, some, List, [], ◌==◌, arith,
}
use android_rtlpower.Base.Int.{pos}
use android_rtlpower.Double.{Double}
use android_rtlpower.Device.{open_device}
use android_rtlpower.Power.Tune.{Tunes}
use android_rtlpower.Power.Range.{◌>>=◌, frequency_range}
use android_rtlpower.Power.Recording.{World, Outcome}
use android_rtlpower.Power.Recording.Stopped.{stopped, main_copied-stopped}
use android_rtlpower.Power.Control.{Control, after_main, begin_rtl_power}

-- A recording that `beginRTLPower` begins while `do_exit` is set, as a completed recording or
-- `staphRTLPOWER` leaves it, writes no row although the hops are laid out, the device and the file
-- are opened; it counts as finished, and has failed only if the laying out says so. `do_exit`
-- keeps its value, so that this lasts until `resetRTLPOWER`.
pub begin_rtl_power-again :
    (d : Double) (w : World d) (fuel now : ℕ) (freq_optarg : List ℕ) (t t' : Tunes d) (c : Control)
    → c.do_exit ≢ 0
    → w.driver.answer [] open_device ≡ pos 0
    → w.file_opens ≡ true
    → d.lt (d.lit 0 0) (d.lit 0 0) ≡ false
    → d.lt (d.lit 1 0) (d.lit 0 0) ≡ false
    → frequency_range d true w.heap freq_optarg (d.lit 0 0) (record t { failed = c.failed })
      ≡ some t'
    → (o : Outcome d) × (c' : Control) × (begin_rtl_power d w (suc fuel) now freq_optarg t c
        ≡ some (o, c'))
      × (o.rows ≡ [])
      × (c'.execution_finished ≡ true)
      × (c'.failed ≡ t'.failed)
      × (c'.do_exit ≡ c.do_exit)
unfolding begin_rtl_power after_main
begin_rtl_power-again d w fuel now freq_optarg t t' c set ok file low high made =
    let seen : World d = record w { stops = λ i. not (c.do_exit == 0) || w.stops i } in
    let stop : seen.stops 0 ≡ true = ground (arith, set) in
    let run =
      main_copied-stopped d seen fuel now freq_optarg (record t { failed = c.failed }) t' stop ok
        file low high made in
    (
      stopped d t',
      after_main d c (stopped d t'),
      ap (λ r. r >>= λ o. some (o, after_main d c o)) run,
      refl,
      refl,
      refl,
      ground (arith, set),
    )
