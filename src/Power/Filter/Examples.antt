-- ===== src/Power/Filter/Examples.antt =====
-- The theorems on the filters at concrete samples.
use android_rtlpower.Base.{◌+◌, ◌-◌, ◌*◌, ◌≡◌, refl, arith, ltb, if◌then◌else◌}
use android_rtlpower.Base.Int.{pos, to_int16}
use android_rtlpower.Power.Buffer.{Buffer}
use android_rtlpower.Power.Filter.{
  fifth_tap, fifth_order, generic_fir, cic_9_tables, fir_tap, history, remove_dc,
}
use android_rtlpower.Power.Filter.FifthOrder.{window, fifth_order-window, fifth_order-slip}
use android_rtlpower.Power.Filter.Fir.{generic_fir-window}
use android_rtlpower.Power.Filter.RemoveDc.{remove_dc-constant}

abbrev ramp : Buffer
ramp a = pos a

abbrev level : Buffer
level a = pos 10

fifth_order-window_example : fifth_order 0 64 ramp (0 + 2 * 7) ≡ to_int16 (window ramp 0 (4 * 7))
fifth_order-window_example = fifth_order-window 0 64 ramp 7 (omega arith) (omega arith)

fifth_order-slip_example :
    fifth_order 0 64 ramp 6
    ≡ to_int16 (fifth_tap (pos 4) (pos 6) (pos 8) (pos 10) (pos 10) (pos 12))
fifth_order-slip_example = fifth_order-slip 0 64 ramp (omega arith)

generic_fir-window_example : generic_fir 1 64 (cic_9_tables 2) ramp (1 + 2 * 12) ≡ (
    if ltb 12 9
    then ramp (1 + 2 * 12)
    else to_int16 (fir_tap (cic_9_tables 2) (history 1 (2 * 12 - 18) ramp)))
generic_fir-window_example = generic_fir-window 1 64 (cic_9_tables 2) ramp 12 (omega arith)

remove_dc-constant_example : remove_dc 0 (2 * 8) level (0 + 2 * 3) ≡ pos 5
remove_dc-constant_example =
    remove_dc-constant 0 level 8 5 3 (omega arith) (omega arith) (omega arith) (λ i h. refl)
      (omega arith)
