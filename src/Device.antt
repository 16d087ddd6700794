-- ===== src/Device.antt =====
-- app/src/main/jni/rtlsdrdevice.c, the code that drives the tuner: `set_gain_by_index`,
-- `set_gain_by_perc`, `tcpCommandCallback` (with the command codes of tcp_commands.h) and
-- `nearest_gain`. The driver librtlsdr is a parameter: what it answers to a call, which may depend
-- on the calls before. A run is the log of the calls made, the newest first. Reading a table of
-- gains out of bounds, or one that `malloc` did not give, is a fault, `none`.
pub mod Commands
pub mod Examples
pub mod Gains
pub mod Handle
pub mod Session
pub mod Tools
use android_rtlpower.Base.{
  ℕ, zero, suc, ◌+◌, ◌-◌, ◌*◌, ◌/◌, ◌%◌, Bool, true, false, ◌&&◌, Option, none, some, List, [], ◌∷◌,
  ◌==◌, ltb, get_elem?, if◌then◌else◌,
}
use android_rtlpower.Base.Int.{
  ℤ, pos, negsuc, ◌-ℤ◌, ltb_ℤ, leb_ℤ, nat_abs, to_int16, to_int32, to_uint32, pos_part,
}

-- the functions of librtlsdr, and those of sdrtcp.c that rtlsdrdevice.c calls
pub data Call : Type 0 where
  set_center_freq set_sample_rate : ℕ → Call
  set_tuner_gain_mode set_tuner_gain set_freq_correction : ℤ → Call
  set_tuner_if_gain : ℤ → ℤ → Call
  set_testmode set_agc_mode set_direct_sampling set_offset_tuning : ℤ → Call
  set_xtal_freq : ℕ → ℕ → Call
  -- `rtlsdr_get_tuner_gains` for NULL, and for a table
  count_tuner_gains get_tuner_gains : Call
  open_device reset_buffer read_async close_device : Call
  get_tuner_type : Call
  -- of sdrtcp.c
  open_socket serve_client_async stop_serving_client : Call

abbrev pub Log : Type 0
Log = List Call

-- What a call returns, what `rtlsdr_get_tuner_gains` writes to a table, and for which number of
-- cells `malloc` gives a table.
pub record Driver : Type 0 where
  pub answer : Log → Call → ℤ
  pub gains : List ℤ
  pub malloc : ℤ → Bool

abbrev pub Run : Type 0 → Type 0
Run A = Log → Option (A × Log)

abbrev pub pure : {A : Type 0} → A → Run A
pure a log = some (a, log)

abbrev pub after : {A B : Type 0} → Option (A × Log) → (A → Run B) → Option (B × Log)
after none k = none
after (some (a, log)) k = k a log

infixl 5 ◌>>=◌ ◌>>◌
abbrev pub ◌>>=◌ : {A B : Type 0} → Run A → (A → Run B) → Run B
m >>= k = λ log. after (m log) k

abbrev pub ◌>>◌ : {A B : Type 0} → Run A → Run B → Run B
m >> k = m >>= λ _. k

-- `(percent * count) / 100` in unsigned arithmetic, cut to `count - 1`
pub percent_index : (percent : ℕ) → (count : ℤ) → ℕ
percent_index percent count =
    let index = percent * to_uint32 count % 0x1_0000_0000 / 100 in
    if ltb index (to_uint32 count) then index else to_uint32 (count -ℤ pos 1)

-- the rest of a run, with the entry that was read
abbrev given : Option ℤ → Run ℤ
given none log = none
given (some gain) log = some (gain, log)

module _ (d : Driver) where
  unfoldable pub call : Call → Run ℤ
  call c log = some (d.answer log c, c ∷ log)

  -- `gains[index]`, of a table of `count` cells
  unfoldable pub entry : (count : ℤ) → (index : ℕ) → Option ℤ
  entry count index =
      if d.malloc count && ltb_ℤ (pos index) count then get_elem? d.gains index else none

  unfoldable pub read_gain : (count : ℤ) → (index : ℕ) → Run ℤ
  unfolding entry
  read_gain count index = given (entry count index)

  -- the four lines that `set_gain_by_index` and `set_gain_by_perc` share
  pub set_gain_entry : (count : ℤ) → (index : ℕ) → Run ℤ
  unfolding call read_gain
  set_gain_entry count index = do
    _ ← call get_tuner_gains
    gain ← read_gain count index
    call (set_tuner_gain gain)

  set_gain_if : (count : ℤ) → (index : ℕ) → Run ℤ
  set_gain_if count index log =
      if ltb_ℤ (pos 0) count && ltb index (to_uint32 count)
      then set_gain_entry count index log
      else some (pos 0, log)

  -- `set_gain_by_index(_dev, index)`
  pub set_gain_by_index : (index : ℕ) → Run ℤ
  unfolding call set_gain_if
  set_gain_by_index index = do count ← call count_tuner_gains; set_gain_if count index

  -- `set_gain_by_perc(_dev, percent)`
  pub set_gain_by_perc : (percent : ℕ) → Run ℤ
  unfolding call set_gain_entry
  set_gain_by_perc percent = do
    count ← call count_tuner_gains
    set_gain_entry count (percent_index percent count)

  -- the loop of `nearest_gain`, with the rounds left and `i`
  pub nearest_loop : (target : ℤ) → (table : ℤ) → ℕ → (i : ℕ) → (nearest : ℤ) → Run ℤ
  unfolding read_gain
  nearest_loop target table zero i nearest = pure nearest
  nearest_loop target table (suc left) i nearest = do
    gain ← read_gain table i
    nearest_loop target table left (i + 1) (
        if ltb (nat_abs (to_int32 (target -ℤ gain))) (nat_abs (to_int32 (target -ℤ nearest)))
        then gain
        else nearest)

  pub nearest_in_table : (target : ℤ) → (count : ℤ) → Run ℤ
  unfolding call read_gain nearest_loop
  nearest_in_table target count = do
    filled ← call get_tuner_gains
    first ← read_gain count 0
    nearest_loop target count (pos_part filled) 0 first

  pub nearest_counted : (target : ℤ) → (count : ℤ) → Run ℤ
  nearest_counted target count log =
      if leb_ℤ count (pos 0) then some (pos 0, log) else nearest_in_table target count log

  pub nearest_if_manual : (target r : ℤ) → Run ℤ
  unfolding call nearest_counted
  nearest_if_manual target r log =
      if ltb_ℤ r (pos 0)
      then some (r, log)
      else (call count_tuner_gains >>= nearest_counted target) log

  -- `nearest_gain(dev, target_gain)`
  pub nearest_gain : (target : ℤ) → Run ℤ
  unfolding call nearest_if_manual
  nearest_gain target = do r ← call (set_tuner_gain_mode (pos 1)); nearest_if_manual target r

  -- `verbose_gain_set(dev, gain)`
  pub verbose_gain_set : (gain : ℤ) → Run ℤ
  unfolding call
  verbose_gain_set gain log =
      let r = d.answer log (set_tuner_gain_mode (pos 1)) in
      let log1 = set_tuner_gain_mode (pos 1) ∷ log in
      if ltb_ℤ r (pos 0) then some (r, log1) else call (set_tuner_gain gain) log1

-- `SUPPORTED_COMMANDS`
abbrev pub supported_commands : List ℕ
supported_commands =
    0x01 ∷ 0x02 ∷ 0x03 ∷ 0x04 ∷ 0x05 ∷ 0x06 ∷ 0x07 ∷ 0x08 ∷ 0x09 ∷ 0x0a ∷ 0x0b ∷ 0x0c ∷ 0x0d ∷ 0x7e
    ∷ 0x7f ∷ []

module _ (d : Driver) where
  -- the cases of the `switch`, each with its code; `int` parameters of the driver convert the
  -- `uint32_t` parameter of the command
  cases : (parameter : ℕ) → List (ℕ × Run ℤ)
  cases p =
      let n = to_int32 (pos p) in
      (0x01, call d (set_center_freq p))
      ∷ (0x02, call d (set_sample_rate p))
      ∷ (0x03, call d (set_tuner_gain_mode n))
      ∷ (0x04, call d (set_tuner_gain n))
      ∷ (0x05, call d (set_freq_correction n))
      ∷ (0x06, call d (set_tuner_if_gain (pos (p / 0x10000)) (to_int16 (pos (p % 0x10000)))))
      ∷ (0x07, call d (set_testmode n))
      ∷ (0x08, call d (set_agc_mode n))
      ∷ (0x09, call d (set_direct_sampling n))
      ∷ (0x0a, call d (set_offset_tuning n))
      ∷ (0x0b, call d (set_xtal_freq p 0))
      ∷ (0x0c, call d (set_xtal_freq 0 p))
      ∷ (0x0d, set_gain_by_index d p)
      ∷ (0x7e, call d stop_serving_client)
      ∷ (0x7f, set_gain_by_perc d p)
      ∷ []

  -- the first case with the code; the `default` does nothing
  switch : (command : ℕ) → List (ℕ × Run ℤ) → Log → Option Log
  switch command [] log = some log
  switch command ((code, run) ∷ others) log =
      let next = switch command others log in
      let chosen : Option Log = elim (run log) [ none ↦ none | some (r, log1) ↦ some log1 ] in
      if command == code then chosen else next

  -- `tcpCommandCallback`; `opened` tells whether `rtl_dev` is set
  pub tcp_command_callback : (opened : Bool) → (command parameter : ℕ) → Log → Option Log
  unfolding cases switch
  tcp_command_callback opened command parameter log =
      if opened then switch command (cases parameter) log else some log
