-- ===== src/Power/Examples/Whole.antt =====
-- `frequency_range` and a recording as a whole, at the band from 88 MHz to 108 MHz.
use android_rtlpower.Base.{List, [], ◌∷◌, ◌++◌, ℕ, ◌+◌, ◌≡◌, refl, true, false, some, arith}
use android_rtlpower.Base.Int.{pos, ◌*ℤ◌, quot}
use android_rtlpower.Suffix.{atofs}
use android_rtlpower.Double.Exact.{NoMargin}
use android_rtlpower.Device.{
  open_device, close_device, reset_buffer, set_sample_rate, set_tuner_gain_mode,
}
use android_rtlpower.Power.Range.Ready.{AreReady}
use android_rtlpower.Power.Recording.Whole.{AreRows, main_copied-AreRows}
use android_rtlpower.Power.Recording.{World, Outcome, main_copied}
use android_rtlpower.Power.Tune.{Tunes}
use android_rtlpower.Power.Range.Cover.{IsCover, Reads, frequency_range-IsCover}
use android_rtlpower.Power.Range.{frequency_range}
use android_rtlpower.Power.Control.{Control, begin_rtl_power}
use android_rtlpower.Power.Control.Again.{begin_rtl_power-again}
use android_rtlpower.Power.Examples.{
  digits, fractions, fractions-Uncropped, fractions-ComparesQuotients, four_bins, no_file,
}

abbrev no_tunes : Tunes fractions
no_tunes = record { tunes = λ i. four_bins; tune_count = pos 0; failed = false }

-- `88M`, `108M` and `125k`
abbrev low : List ℕ
low = b'8' ∷ b'8' ∷ b'M' ∷ []

abbrev high : List ℕ
high = b'1' ∷ b'0' ∷ b'8' ∷ b'M' ∷ []

abbrev width : List ℕ
width = b'1' ∷ b'2' ∷ b'5' ∷ b'k' ∷ []

low-Reads : Reads fractions low 88_000_000
unfolding atofs digits quot ◌*ℤ◌
low-Reads = record { plain = refl; value = _; value_is = refl; whole = refl }

high-Reads : Reads fractions high (88_000_000 + 20_000_000)
unfolding atofs digits quot ◌*ℤ◌
high-Reads = record { plain = refl; value = _; value_is = refl; whole = refl }

width-Reads : Reads fractions width 125_000
unfolding atofs digits quot ◌*ℤ◌
width-Reads = record { plain = refl; value = _; value_is = refl; whole = refl }

frequency_range-IsCover_example :
    (t : Tunes fractions) × (frequency_range fractions true
        (λ i. some (λ j. 0))
        (low ++ b':' ∷ (high ++ b':' ∷ width))
        (pos 0, 1)
        no_tunes
      ≡ some t)
    × (t.failed ≡ false)
    × IsCover fractions 88_000_000 20_000_000 t
frequency_range-IsCover_example =
    frequency_range-IsCover fractions (pos 0, 1) (λ i. some (λ j. 0)) (λ i j. 0) low high width
      88_000_000 20_000_000 125_000 no_tunes fractions-Uncropped fractions-ComparesQuotients
      (λ i. refl) low-Reads high-Reads width-Reads (omega arith) (omega arith) (omega arith)
      (omega arith)

laid_out :
    (t : Tunes fractions) × (frequency_range fractions true
        (λ i. some (λ j. 0))
        (low ++ b':' ∷ (high ++ b':' ∷ width))
        (pos 0, 1)
        no_tunes
      ≡ some t)
    × (t.failed ≡ false)
    × IsCover fractions 88_000_000 20_000_000 t
laid_out =
    frequency_range-IsCover fractions (pos 0, 1) (λ i. some (λ j. 0)) (λ i j. 0) low high width
      88_000_000 20_000_000 125_000 no_tunes fractions-Uncropped fractions-ComparesQuotients
      (λ i. refl) low-Reads high-Reads width-Reads (omega arith) (omega arith) (omega arith)
      (omega arith)

abbrev with_file : World fractions
with_file = record no_file { file_opens = true }

-- a recording has been completed
abbrev spent : Control
spent = record { do_exit = 1; execution_finished = true; failed = false }

begin_rtl_power-again_example :
    (o : Outcome fractions) × (c : Control) × (begin_rtl_power fractions with_file 1 0
        (low ++ b':' ∷ (high ++ b':' ∷ width))
        no_tunes
        spent
      ≡ some (o, c))
    × (o.rows ≡ [])
    × (c.execution_finished ≡ true)
    × (c.failed ≡ (laid_out.0).failed)
    × (c.do_exit ≡ 1)
begin_rtl_power-again_example =
    begin_rtl_power-again fractions with_file 0 0 (low ++ b':' ∷ (high ++ b':' ∷ width)) no_tunes
      laid_out.0 spent (omega arith) refl refl refl refl laid_out.1

fractions-NoMargin : NoMargin fractions (pos 0, 1)
unfolding ◌*ℤ◌ quot
fractions-NoMargin e h = ground arith

main_copied-AreRows_example :
    (t : Tunes fractions) × (frequency_range fractions true with_file.heap
        (low ++ b':' ∷ (high ++ b':' ∷ width))
        (pos 0, 1)
        no_tunes
      ≡ some t)
    × (cover : IsCover fractions 88_000_000 20_000_000 t) × (ready : AreReady fractions
        (pos 0, 1)
        t)
    × (o : Outcome fractions) × (main_copied fractions with_file 11 0
          (low ++ b':' ∷ (high ++ b':' ∷ width))
          no_tunes
        ≡ some o)
    × AreRows fractions (λ j. (t.tunes j).freq) cover.count ready.bin o.rows
    × (o.result ≡ pos 0)
    × (o.failed ≡ false)
    × (o.log
        ≡ close_device
          ∷ set_sample_rate cover.rate
          ∷ reset_buffer
          ∷ set_tuner_gain_mode (pos 0)
          ∷ open_device
          ∷ [])
main_copied-AreRows_example =
    main_copied-AreRows fractions with_file (λ i j. 0) low high width 88_000_000 20_000_000 125_000
      11 0 10 no_tunes fractions-Uncropped fractions-ComparesQuotients fractions-NoMargin refl refl
      (λ i. refl) low-Reads high-Reads width-Reads (omega arith) (omega arith) (omega arith)
      (omega arith) refl refl (λ i h. refl) (omega arith) (omega arith)
