-- ===== src/Power/Fft.antt =====
-- The fixed-point FFT of rtlsdrdevice.c: `FIX_MPY` and `fix_fft`, over the tables of `sine_table`.
-- Loops recur on fuel or on the rounds left; `fix_fft` hands each of them enough.
pub mod Bounds
pub mod Multiply
pub mod Reversal
pub mod Table
use android_rtlpower.Base.{
  ℕ, zero, suc, ◌+◌, ◌-◌, ◌*◌, ◌/◌, ◌%◌, ◌^◌, ltb, Option, none, some, Bool, if◌then◌else◌,
}
use android_rtlpower.Base.Int.{ℤ, pos, ◌+ℤ◌, ◌-ℤ◌, ◌*ℤ◌, shr, to_int16, low_bits}
use android_rtlpower.Power.Buffer.{Buffer, store}

-- `LOG2_N_WAVE`, `N_WAVE` and `Sinewave`, as `sine_table` leaves them
pub record Wave : Type 0 where
  pub log2_n_wave : ℕ
  pub n_wave : ℕ
  pub sinewave : ℕ → ℤ

-- `FIX_MPY`: `int c = (a * b) >> 14; b = c & 1; return (c >> 1) + b`
pub fix_mpy : ℤ → ℤ → ℤ
fix_mpy a b = let c = shr (a *ℤ b) 14 in to_int16 (shr c 1 +ℤ pos (low_bits c 2))

-- `do { l >>= 1; } while (mr + l > nn)`
halve_loop : ℕ → (nn mr l : ℕ) → ℕ
halve_loop zero nn mr l = l
halve_loop (suc fuel) nn mr l =
    let again = halve_loop fuel nn mr (l / 2) in if ltb nn (mr + l / 2) then again else l / 2

-- `l = n; do …; mr = (mr & (l - 1)) + l`; `l` is a power of two, so the mask takes the remainder
pub next_mr : (n mr : ℕ) → ℕ
unfolding halve_loop
next_mr n mr = let l = halve_loop n (n - 1) mr n in mr % l + l

-- The values of cells `a` and `b` are exchanged, through a temporary.
pub swap : Buffer → ℕ → ℕ → Buffer
swap buf a b = store (store buf a (buf b)) b (buf a)

-- `for (m = 1; m <= nn; ++m)`, with the rounds left; `iq` is the index of the first cell
pub reorder_loop : (iq n : ℕ) → ℕ → (m mr : ℕ) → Buffer → Buffer
unfolding next_mr swap
reorder_loop iq n zero m mr buf = buf
reorder_loop iq n (suc left) m mr buf =
    let mr' = next_mr n mr in
    reorder_loop iq n left (m + 1) mr' (
      if ltb m mr'
      then swap (swap buf (iq + 2 * m) (iq + 2 * mr')) (iq + (2 * m + 1)) (iq + (2 * mr' + 1))
      else buf)

-- the body of the innermost loop
butterfly : (iq : ℕ) → (wr wi : ℤ) → (i l : ℕ) → Buffer → Buffer
butterfly iq wr wi i l buf =
    let j = i + l in
    let re = buf (iq + 2 * j) in
    let im = buf (iq + (2 * j + 1)) in
    let tr = to_int16 (fix_mpy wr re -ℤ fix_mpy wi im) in
    let ti = to_int16 (fix_mpy wr im +ℤ fix_mpy wi re) in
    let qr = shr (buf (iq + 2 * i)) 1 in
    let qi = shr (buf (iq + (2 * i + 1))) 1 in
    store
      (store (store (store buf (iq + 2 * j) (qr -ℤ tr)) (iq + (2 * j + 1)) (qi -ℤ ti)) (iq + 2 * i)
        (qr +ℤ tr))
      (iq + (2 * i + 1)) (qi +ℤ ti)

-- `for (i = m; i < n; i += istep)`
inner_loop : (iq n l : ℕ) → (wr wi : ℤ) → ℕ → (i : ℕ) → Buffer → Buffer
unfolding butterfly
inner_loop iq n l wr wi zero i buf = buf
inner_loop iq n l wr wi (suc fuel) i buf =
    let next = inner_loop iq n l wr wi fuel (i + 2 * l) (butterfly iq wr wi i l buf) in
    if ltb i n then next else buf

-- `for (m = 0; m < l; ++m)`, with the rounds left; `shift` is 1 throughout
middle_loop : Wave → (iq n l k : ℕ) → ℕ → (m : ℕ) → Buffer → Buffer
unfolding inner_loop
middle_loop w iq n l k zero m buf = buf
middle_loop w iq n l k (suc left) m buf =
    let j = m * 2 ^ k in
    let wr = shr (w.sinewave (j + w.n_wave / 4)) 1 in
    let wi = shr (to_int16 (pos 0 -ℤ w.sinewave j)) 1 in
    middle_loop w iq n l k left (m + 1) (inner_loop iq n l wr wi n m buf)

-- `while (l < n)`
outer_loop : Wave → (iq n : ℕ) → ℕ → (l k : ℕ) → Buffer → Buffer
unfolding middle_loop
outer_loop w iq n zero l k buf = buf
outer_loop w iq n (suc fuel) l k buf =
    let next = outer_loop w iq n fuel (2 * l) (k - 1) (middle_loop w iq n l k l 0 buf) in
    if ltb l n then next else buf

-- `fix_fft(iq, m)`; `none` is the result -1
pub fix_fft : Wave → (iq m : ℕ) → Buffer → Option Buffer
unfolding reorder_loop outer_loop
fix_fft w iq m buf =
    let n = 2 ^ m in
    let done = outer_loop w iq n m 1 (w.log2_n_wave - 1) (reorder_loop iq n (n - 1) 1 0 buf) in
    if ltb w.n_wave n then none else some done
