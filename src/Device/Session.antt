-- ===== src/Device/Session.antt =====
-- The body of `RtlSdrDevice.openAsync` in rtlsdrdevice.c: a dongle is opened, set up, served over
-- TCP until `rtlsdr_read_async` returns, and closed. Each function is the code from a step on. The
-- result is what Java is told. The Java calls before the device is opened are not modelled.
use android_rtlpower.Base.{ℕ, suc, ◌+◌, ◌≡◌, Bool, false, ◌&&◌, [], ◌∷◌, arith, if◌then◌else◌}
use android_rtlpower.Base.Int.{ℤ, pos, ltb_ℤ, leb_ℤ, to_uint32}
use android_rtlpower.Device.{
  Driver, Log, open_device, close_device, read_async, reset_buffer, set_freq_correction,
  set_sample_rate, set_center_freq, set_tuner_gain_mode, set_tuner_gain, get_tuner_type,
  count_tuner_gains, open_socket, serve_client_async, stop_serving_client,
}

abbrev is_zero : ℤ → Bool
is_zero a = leb_ℤ a (pos 0) && leb_ℤ (pos 0) a

module _ (d : Driver) where
  -- `err:`
  failed : Log → Bool × Log
  failed log = (false, close_device ∷ log)

  -- from `dev->rtl_dev = device` on; `announced` tells whether `announceOnOpen` threw nothing
  serve : (announced : Bool) → Log → Bool × Log
  serve announced log =
      let log1 = serve_client_async ∷ log in
      (
        announced && is_zero (d.answer log1 read_async),
        stop_serving_client ∷ close_device ∷ read_async ∷ log1,
      )

  -- the calls from `rtlsdr_reset_buffer` on; `sdrtcp_open_socket` is nonzero where it succeeds
  open_server : (announced : Bool) → Log → Bool × Log
  unfolding failed serve
  open_server announced log =
      let log1 = count_tuner_gains ∷ get_tuner_type ∷ reset_buffer ∷ log in
      if is_zero (d.answer log1 open_socket)
      then failed (open_socket ∷ log1)
      else serve announced (open_socket ∷ log1)

  -- `if (0 == gain)`; a failure is only logged
  set_up_gain : (gain : ℤ) → Log → Log
  set_up_gain gain log =
      if is_zero gain
      then set_tuner_gain_mode (pos 0) ∷ log
      else set_tuner_gain gain ∷ set_tuner_gain_mode (pos 1) ∷ log

  tune : (frequency gain : ℤ) → (announced : Bool) → Log → Bool × Log
  unfolding failed set_up_gain open_server
  tune frequency gain announced log =
      let asked = set_center_freq (to_uint32 frequency) in
      if ltb_ℤ frequency (pos 0)
      then failed log
      else if ltb_ℤ (d.answer log asked) (pos 0)
      then failed (asked ∷ log)
      else open_server announced (set_up_gain gain (asked ∷ log))

  set_rate : (samplingrate frequency gain : ℤ) → (announced : Bool) → Log → Bool × Log
  unfolding failed tune
  set_rate samplingrate frequency gain announced log =
      let asked = set_sample_rate (to_uint32 samplingrate) in
      if ltb_ℤ samplingrate (pos 0)
      then failed log
      else if ltb_ℤ (d.answer log asked) (pos 0)
      then failed (asked ∷ log)
      else tune frequency gain announced (asked ∷ log)

  -- `openAsync`, from `rtlsdr_open2` on
  pub open_async : (ppm samplingrate frequency gain : ℤ) → (announced : Bool) → Log → Bool × Log
  unfolding set_rate
  open_async ppm samplingrate frequency gain announced log =
      let log1 = open_device ∷ log in
      if is_zero (d.answer log open_device)
      then set_rate samplingrate frequency gain announced
          (if is_zero ppm then log1 else set_freq_correction ppm ∷ log1)
      else (false, log1)

-- how often the device was closed
abbrev pub closes : Log → ℕ
closes [] = 0
closes (close_device ∷ log) = suc (closes log)
closes (_ ∷ log) = closes log

-- how often it was opened, by what the driver answered
abbrev pub opens : Driver → Log → ℕ
opens d [] = 0
opens d (open_device ∷ log) =
    if is_zero (d.answer log open_device) then suc (opens d log) else opens d log
opens d (_ ∷ log) = opens d log

module _ (d : Driver) where
  abbrev Once : (log log' : Log) → Type 0
  Once log log' = (closes log' ≡ suc (closes log)) × (opens d log' ≡ opens d log)

  open_server-Once : (announced : Bool) (log : Log) → Once log ((open_server d announced log).1)
  unfolding open_server failed serve
  open_server-Once announced log = ground arith

  tune-Once :
      (frequency gain : ℤ) (announced : Bool) (log : Log)
      → Once log ((tune d frequency gain announced log).1)
  unfolding tune failed set_up_gain
  tune-Once frequency gain announced log = ground (
    arith,
    open_server-Once announced (set_up_gain d gain (set_center_freq (to_uint32 frequency) ∷ log)),
  )

  set_rate-Once :
      (samplingrate frequency gain : ℤ) (announced : Bool) (log : Log)
      → Once log ((set_rate d samplingrate frequency gain announced log).1)
  unfolding set_rate failed
  set_rate-Once samplingrate frequency gain announced log =
      ground
        (arith, tune-Once frequency gain announced (set_sample_rate (to_uint32 samplingrate) ∷ log))

  -- Whatever the driver, the network and Java answer, `openAsync` closes the device once if it
  -- opened it, and not at all if it did not: no path leaks the device or closes it twice.
  pub open_async-closes :
      (ppm samplingrate frequency gain : ℤ) (announced : Bool) (log : Log)
      → closes ((open_async d ppm samplingrate frequency gain announced log).1) + opens d log
        ≡ closes log + opens d ((open_async d ppm samplingrate frequency gain announced log).1)
  unfolding open_async
  open_async-closes ppm samplingrate frequency gain announced log = ground (
    arith,
    set_rate-Once samplingrate frequency gain announced (open_device ∷ log),
    set_rate-Once samplingrate frequency gain announced
        (set_freq_correction ppm ∷ open_device ∷ log),
  )
