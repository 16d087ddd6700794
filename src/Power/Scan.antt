-- ===== src/Power/Scan.antt =====
-- `scanner` of rtlsdrdevice.c: each hop is read, brought down to its rate, windowed, transformed,
-- and its powers are added to those of the hop. The driver is a parameter: `read i` is what
-- `rtlsdr_read_sync` writes for hop `i`, after the retuning; `exits i` is the test of `do_exit`.
-- A division by zero and an index outside `cic_9_tables` are faults, `none`.
pub mod Behind
pub mod Boxcar
pub mod Frames
pub mod Whole
use android_rtlpower.Base.{
  ℕ, zero, suc, ◌+◌, ◌-◌, ◌*◌, ◌/◌, ◌%◌, ◌^◌, Bool, true, false, ◌&&◌, Option, none, some, ◌==◌,
  ltb, leb, if◌then◌else◌,
}
use android_rtlpower.Base.Int.{ℤ, pos, negsuc, ◌+ℤ◌, ◌-ℤ◌, ◌*ℤ◌, ltb_ℤ, c_div, to_int32, pos_part}
use android_rtlpower.Double.{Double}
use android_rtlpower.Power.Buffer.{Buffer, store}
use android_rtlpower.Power.Filter.{downsample_iq, generic_fir, cic_9_tables, remove_dc}
use android_rtlpower.Power.Fft.{Wave, fix_fft}
use android_rtlpower.Power.Tune.{Tune, Tunes}
use android_rtlpower.Power.Range.{◌>>=◌}
use android_rtlpower.Power.Csv.{Cells, put, real_conj, rms_power}

-- the globals `boxcar`, `comp_fir_size`, `peak_hold`, `window_coefs`, and the tables of the FFT
pub record Settings : Type 0 where
  pub boxcar : Bool
  pub comp_fir_size : ℕ
  pub peak_hold : Bool
  pub window_coefs : ℕ → ℤ
  pub wave : Wave

-- `fft_buf[j] = (int16_t)ts->buf8[j] - 127`, with the rounds left
pub prep_loop : (buf8 : ℕ → ℕ) → ℕ → (j : ℕ) → Buffer → Buffer
prep_loop buf8 zero j buf = buf
prep_loop buf8 (suc left) j buf =
    prep_loop buf8 left (j + 1) (store buf j (pos (buf8 j) -ℤ pos 127))

-- the body of the boxcar loop, up to `j += 2`
pub boxcar_step : (j j2 : ℕ) → Buffer → Buffer
boxcar_step j j2 buf =
    let re = store buf j2 (buf j2 +ℤ buf j) in
    let im = store re (j2 + 1) (re (j2 + 1) +ℤ re (j + 1)) in
    store (store im j (pos 0)) (j + 1) (pos 0)

-- `while (j < buf_len)`, on fuel; `buf_len` is enough, `j` grows in each round
pub boxcar_loop : (ds buf_len : ℕ) → ℕ → (j j2 : ℕ) → Buffer → Buffer
unfolding boxcar_step
boxcar_loop ds buf_len zero j j2 buf = buf
boxcar_loop ds buf_len (suc fuel) j j2 buf =
    let rest =
      boxcar_loop ds buf_len fuel (j + 2) (if (j + 2) % (ds * 2) == 0 then j2 + 2 else j2)
        (boxcar_step j j2 buf) in
    if ltb j buf_len then rest else buf

-- `for (j=0; j < ds_p; j++) downsample_iq(fft_buf, buf_len >> j)`, with the rounds left
pass_loop : (buf_len : ℕ) → ℕ → (j : ℕ) → Buffer → Buffer
pass_loop buf_len zero j buf = buf
pass_loop buf_len (suc left) j buf =
    pass_loop buf_len left (j + 1) (downsample_iq 0 (buf_len / 2 ^ j) buf)

-- the droop compensation, after `ds_p` passes
compensate : (comp_fir_size buf_len ds_p : ℕ) → Buffer → Buffer
compensate comp_fir_size buf_len ds_p buf =
    let n = buf_len / 2 ^ ds_p in
    let k = cic_9_tables ds_p in
    if (comp_fir_size == 9) && leb ds_p 10
    then generic_fir 1 (n - 1) k (generic_fir 0 n k buf)
    else buf

-- `else if (ds_p)`
pub recursive : (comp_fir_size buf_len : ℕ) → (ds_p : ℤ) → Buffer → Option Buffer
unfolding pass_loop compensate
recursive comp_fir_size buf_len (pos zero) buf = some buf
recursive comp_fir_size buf_len (pos (suc n)) buf =
    some (compensate comp_fir_size buf_len (suc n) (pass_loop buf_len (suc n) 0 buf))
recursive comp_fir_size buf_len (negsuc n) buf = if comp_fir_size == 9 then none else some buf

-- the two calls of `remove_dc`, `q` being `buf_len / ds`
pub remove_both_dc : (q : ℤ) → Buffer → Option Buffer
remove_both_dc (negsuc n) buf = some buf
remove_both_dc (pos zero) buf = none
remove_both_dc (pos (suc zero)) buf = none
remove_both_dc (pos (suc (suc n))) buf = some (remove_dc 1 (suc n) (remove_dc 0 (suc (suc n)) buf))

-- the window on one frame, with the rounds left
window_loop : (coefs : ℕ → ℤ) → (offset : ℕ) → ℕ → (j : ℕ) → Buffer → Buffer
window_loop coefs offset zero j buf = buf
window_loop coefs offset (suc left) j buf =
    let re = store buf (offset + j * 2) (to_int32 (buf (offset + j * 2) *ℤ coefs j)) in
    window_loop coefs offset left (j + 1)
      (store re (offset + j * 2 + 1) (to_int32 (re (offset + j * 2 + 1) *ℤ coefs j)))

-- the powers of one frame, with the rounds left
pub power_loop : (peak_hold : Bool) → (offset : ℕ) → Buffer → ℕ → (j : ℕ) → Cells → Cells
power_loop peak_hold offset buf zero j avg = avg
power_loop peak_hold offset buf (suc left) j avg =
    let p = real_conj (buf (offset + j * 2)) (buf (offset + j * 2 + 1)) in
    power_loop peak_hold offset buf left (j + 1)
      (put avg j (if peak_hold then (if ltb_ℤ (avg j) p then p else avg j) else avg j +ℤ p))

-- the result of `fix_fft` is not looked at
abbrev pub or_same : Buffer → Option Buffer → Buffer
or_same buf none = buf
or_same buf (some new) = new

pub frame_buffer : Settings → (bin_e offset : ℕ) → Buffer → Buffer
unfolding window_loop
frame_buffer s bin_e offset buf =
    let windowed = window_loop s.window_coefs offset (2 ^ bin_e) 0 buf in
    or_same windowed (fix_fft s.wave offset bin_e windowed)

module _ (d : Double) where
  -- the body of `for (offset=0; …)`, after the FFT; `bin_e` is that of the first hop
  add_frame : Settings → (bin_e offset : ℕ) → Buffer → Tune d → Tune d
  unfolding power_loop
  add_frame s bin_e offset buf ts = record ts {
    avg = power_loop s.peak_hold offset buf (2 ^ bin_e) 0 ts.avg;
    samples = to_int32 (ts.samples +ℤ ts.downsample);
  }

  -- `for (offset=0; offset<q; offset+=(2*bin_len))`, on fuel; `q` is enough
  pub frame_loop : Settings → (bin_e q : ℕ) → ℕ → (offset : ℕ) → Tune d → Buffer → Tune d × Buffer
  unfolding frame_buffer add_frame
  frame_loop s bin_e q zero offset ts buf = (ts, buf)
  frame_loop s bin_e q (suc fuel) offset ts buf =
      let new = frame_buffer s bin_e offset buf in
      let rest =
        frame_loop s bin_e q fuel (offset + 2 * 2 ^ bin_e) (add_frame s bin_e offset new ts) new in
      if ltb offset q then rest else (ts, buf)

  -- `if (boxcar && ds > 1) … else if (ds_p) …`
  pub bring_down : Settings → (buf_len : ℕ) → Tune d → Buffer → Option Buffer
  unfolding boxcar_loop recursive
  bring_down s buf_len ts buf =
      if s.boxcar && ltb_ℤ (pos 1) ts.downsample
      then some (boxcar_loop (pos_part ts.downsample) buf_len buf_len 2 0 buf)
      else recursive s.comp_fir_size buf_len ts.downsample_passes buf

  -- one hop, its samples being read
  pub scan_hop : Settings → (bin_e : ℕ) → (buf_len : ℤ) → Tune d → Buffer → Option (Tune d × Buffer)
  unfolding prep_loop bring_down remove_both_dc
  scan_hop s bin_e buf_len ts buf =
      let n = pos_part buf_len in
      if 2 ^ bin_e == 1 then some (rms_power d s.peak_hold ts, buf) else (do
        down ← bring_down s n ts (prep_loop ts.buf8 n 0 buf)
        q ← c_div buf_len ts.downsample
        level ← remove_both_dc q down
        some (frame_loop s bin_e (pos_part q) (pos_part q) 0 ts level))

  -- `for (i=0; i<tune_count; i++)`, with the rounds left
  scan_loop :
      Settings
      → (bin_e : ℕ) → (buf_len : ℤ) → (exits : ℕ → Bool) → (read : ℕ → ℕ → ℕ) → ℕ
      → (i : ℕ) → Tunes d
      → Buffer
      → Option (Tunes d × Buffer)
  scan_loop s bin_e buf_len exits read zero i t buf = some (t, buf)
  scan_loop s bin_e buf_len exits read (suc left) i t buf =
      let next = scan_hop s bin_e buf_len (record (t.tunes i) { buf8 = read i }) buf >>= λ done.
      scan_loop s bin_e buf_len exits read left (i + 1)
        (record t { tunes = λ j. if j == i then done.0 else t.tunes j }) done.1 in
      if exits i then some (t, buf) else next

  -- `scanner()`; the bins and the buffer length are those of the first hop
  pub scanner :
      Settings
      → (exits : ℕ → Bool) → (read : ℕ → ℕ → ℕ) → Tunes d
      → Buffer
      → Option (Tunes d × Buffer)
  unfolding scan_loop
  scanner s exits read t buf =
      let first = t.tunes 0 in
      scan_loop s first.bin_e first.buf_len exits read (pos_part t.tune_count) 0 t buf
