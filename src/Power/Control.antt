-- ===== src/Power/Control.antt =====
-- The functions of rtlsdrdevice.c through which Java runs a recording: `beginRTLPower`,
-- `staphRTLPOWER`, `resetRTLPOWER`, `readExecutionFinished`, `checkForFailure`, and the handler of
-- signals. Of the strings of Java `mainCOPIED` uses the frequency range.
pub mod Again
use android_rtlpower.Base.{
  ℕ, zero, suc, ◌+◌, ◌≡◌, ◌≢◌, refl, ap, ◌∙◌, Bool, true, false, not, ◌||◌, ◌&&◌, Option, none,
  some, List, [], ◌∷◌, ◌==◌, arith, if◌then◌else◌, get_elem?,
}
use android_rtlpower.Base.Int.{ℤ, pos, ltb_ℤ, to_uint32}
use android_rtlpower.Double.{Double}
use android_rtlpower.Device.{
  Log, open_device, close_device, reset_buffer, set_sample_rate, set_tuner_gain_mode,
}
use android_rtlpower.Device.Session.{closes}
use android_rtlpower.Power.Tune.{Tunes}
use android_rtlpower.Power.Range.{◌>>=◌, frequency_range}
use android_rtlpower.Power.Recording.{World, Outcome, opened, main_copied}

-- `do_exit`, `executionFinished` and `backgroundProcessingFailed`
pub record Control : Type 0 where
  pub do_exit : ℕ
  pub execution_finished : Bool
  pub failed : Bool

-- `globalFD` and `globalDevicePath`, which `mainCOPIED` opens
pub record Dongle : Type 0 where
  pub global_fd : ℤ
  pub global_device_path : List ℕ

-- `passFDandDeviceName`
pub pass_fd_and_device_name : (fd : ℤ) → (path : List ℕ) → Dongle
pass_fd_and_device_name fd path = record { global_fd = fd; global_device_path = path }

-- `staphRTLPOWER`
pub staph_rtl_power : Control → Control
staph_rtl_power c = record c { do_exit = 1 }

-- `resetRTLPOWER`
pub reset_rtl_power : Control → Control
reset_rtl_power c = record c { do_exit = 0 }

-- `sighandler`, without the log
pub sighandler : Control → Control
sighandler c = record c { do_exit = c.do_exit + 1 }

-- `readExecutionFinished`
pub read_execution_finished : Control → Bool
read_execution_finished c = c.execution_finished

-- `checkForFailure`
pub check_for_failure : Control → Bool
check_for_failure c = c.failed

module _ (d : Double) where
  -- what `mainCOPIED` leaves in the globals: its loop, after which it closes the device, ends with
  -- `do_exit` set
  pub after_main : Control → Outcome d → Control
  after_main c o = record {
    do_exit = if (c.do_exit == 0) && not (closes o.log == 0) then 1 else c.do_exit;
    execution_finished = true;
    failed = o.failed;
  }

  -- `beginRTLPower`; the loop also sees `do_exit` as it is before the call
  pub begin_rtl_power :
      World d
      → (fuel now : ℕ) → (freq_optarg : List ℕ) → Tunes d
      → Control
      → Option (Outcome d × Control)
  unfolding after_main
  begin_rtl_power w fuel now freq_optarg t c =
      main_copied d (record w { stops = λ i. not (c.do_exit == 0) || w.stops i }) fuel now
        freq_optarg (record t { failed = c.failed })
      >>= λ o. some (o, after_main c o)

-- "MyProgramName"
abbrev program_name : List ℕ
program_name =
    b'M' ∷ b'y' ∷ b'P' ∷ b'r' ∷ b'o' ∷ b'g' ∷ b'r' ∷ b'a' ∷ b'm' ∷ b'N' ∷ b'a' ∷ b'm' ∷ b'e' ∷ []

-- the array that `beginRTLPower` makes of the strings that Java passes
pub legacy_arguments : (strings : List (List ℕ)) → List (List ℕ)
legacy_arguments strings = program_name ∷ strings

-- `beginRTLPower`, from the strings on; `argv[2]` is the frequency range, and a read behind the array is a
-- fault
pub begin_rtl_power_with :
    (d : Double)
    → World d
    → (fuel now : ℕ) → (strings : List (List ℕ)) → Tunes d
    → Control
    → Option (Outcome d × Control)
unfolding legacy_arguments begin_rtl_power
begin_rtl_power_with d w fuel now strings t c =
    get_elem? (legacy_arguments strings) 2 >>= λ freq_optarg.
    begin_rtl_power d w fuel now freq_optarg t c
