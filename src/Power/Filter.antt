-- ===== src/Power/Filter.antt =====
-- The filters of rtlsdrdevice.c that work in place on one half of the interleaved samples:
-- `fifth_order`, `remove_dc`, `generic_fir`, and `downsample_iq`. Every second cell from `start` on
-- belongs to the half. Each loop recurs on fuel, which is `length` or more: its counter grows by at
-- least one, so the test `i < length` fails before the fuel ends.
pub mod Examples
pub mod FifthOrder
pub mod RemoveDc
pub mod Fir
use android_rtlpower.Base.{
  ℕ, zero, suc, ◌+◌, ◌-◌, ◌/◌, List, [], ◌∷◌, get_or, ltb, Bool, ◌&&◌, if◌then◌else◌,
}
use android_rtlpower.Base.Int.{
  ℤ, pos, negsuc, ◌+ℤ◌, ◌-ℤ◌, ◌*ℤ◌, shr, quot, to_int16, to_int32, leb_ℤ,
}
use android_rtlpower.Power.Buffer.{Buffer, store}

-- `(a + (b+e)*5 + (c+d)*10 + f) >> 4`
unfoldable pub fifth_tap : ℤ → ℤ → ℤ → ℤ → ℤ → ℤ → ℤ
fifth_tap a b c d e f = shr (a +ℤ (b +ℤ e) *ℤ pos 5 +ℤ (c +ℤ d) *ℤ pos 10 +ℤ f) 4

-- the loop of `fifth_order`, with the `c`, `d`, `e`, `f` of the round before
fifth_loop : (start length : ℕ) → ℕ → ℕ → ℤ → ℤ → ℤ → ℤ → Buffer → Buffer
fifth_loop start length zero i c d e f buf = buf
fifth_loop start length (suc fuel) i c d e f buf =
    let e' = buf (start + (i - 2)) in
    let f' = buf (start + i) in
    let next =
      fifth_loop start length fuel (i + 4) e f e' f'
        (store buf (start + i / 2) (fifth_tap c d e f e' f')) in
    if ltb i length then next else buf

-- `fifth_order(data, length)`
pub fifth_order : (start length : ℕ) → Buffer → Buffer
unfolding fifth_loop
fifth_order start length buf =
    let a = buf (start + 0) in
    let b = buf (start + 2) in
    let c = buf (start + 4) in
    let d = buf (start + 6) in
    let e = buf (start + 8) in
    let f = buf (start + 10) in
    let buf0 = store buf (start + 0) (shr ((a +ℤ b) *ℤ pos 10 +ℤ (c +ℤ d) *ℤ pos 5 +ℤ d +ℤ f) 4) in
    let buf2 = store buf0 (start + 2) (shr ((b +ℤ c) *ℤ pos 10 +ℤ (a +ℤ d) *ℤ pos 5 +ℤ e +ℤ f) 4) in
    let buf4 = store buf2 (start + 4) (fifth_tap a b c d e f) in
    fifth_loop start length length 12 c d e f buf4

-- `downsample_iq(data, length)`: both halves, the second from `start + 1` on
pub downsample_iq : (start length : ℕ) → Buffer → Buffer
downsample_iq start length buf = fifth_order (start + 1) (length - 1) (fifth_order start length buf)

-- `sum += data[i]`, for `i` up to `length` in steps of two, in a `long` of 32 bits, as it is on the
-- 32-bit machines that Android runs on
sum_loop : (start length : ℕ) → ℕ → ℕ → ℤ → Buffer → ℤ
sum_loop start length zero i sum buf = sum
sum_loop start length (suc fuel) i sum buf =
    let next = sum_loop start length fuel (i + 2) (to_int32 (sum +ℤ buf (start + i))) buf in
    if ltb i length then next else sum

-- `data[i] -= ave`
subtract_loop : (start length : ℕ) → ℤ → ℕ → ℕ → Buffer → Buffer
subtract_loop start length ave zero i buf = buf
subtract_loop start length ave (suc fuel) i buf =
    let next =
      subtract_loop start length ave fuel (i + 2)
        (store buf (start + i) (buf (start + i) -ℤ ave)) in
    if ltb i length then next else buf

-- `ave = (int16_t)(sum / (long)(length))`
pub dc_average : (start length : ℕ) → Buffer → ℤ
unfolding sum_loop
dc_average start length buf = to_int16 (quot (sum_loop start length length 0 (pos 0) buf) length)

abbrev pub is_zero : ℤ → Bool
is_zero a = leb_ℤ a (pos 0) && leb_ℤ (pos 0) a

-- `remove_dc(data, length)`
pub remove_dc : (start length : ℕ) → Buffer → Buffer
unfolding subtract_loop
remove_dc start length buf =
    let ave = dc_average start length buf in
    if is_zero ave then buf else subtract_loop start length ave length 0 buf

-- `hist[9]`, oldest sample first
pub record History : Type 0 where
  pub h0 : ℤ
  pub h1 : ℤ
  pub h2 : ℤ
  pub h3 : ℤ
  pub h4 : ℤ
  pub h5 : ℤ
  pub h6 : ℤ
  pub h7 : ℤ
  pub h8 : ℤ

-- `int *fir`: the length and five coefficients (`cic_9_tables` holds ten numbers to a row; the
-- code reads the first six)
pub record Taps : Type 0 where
  pub f1 : ℤ
  pub f2 : ℤ
  pub f3 : ℤ
  pub f4 : ℤ
  pub f5 : ℤ

-- `sum >> 15`, the sum being an `int`
unfoldable pub fir_tap : Taps → History → ℤ
fir_tap k h =
    shr
      (to_int32 (
        (h.h0 +ℤ h.h8) *ℤ k.f1
        +ℤ (h.h1 +ℤ h.h7) *ℤ k.f2
        +ℤ (h.h2 +ℤ h.h6) *ℤ k.f3
        +ℤ (h.h3 +ℤ h.h5) *ℤ k.f4
        +ℤ h.h4 *ℤ k.f5))
      15

-- `hist[0] = hist[1]; … hist[8] = temp`
abbrev pub shift : History → ℤ → History
shift h temp = record {
  h0 = h.h1;
  h1 = h.h2;
  h2 = h.h3;
  h3 = h.h4;
  h4 = h.h5;
  h5 = h.h6;
  h6 = h.h7;
  h7 = h.h8;
  h8 = temp;
}

-- nine samples in a row, `j` being the first
abbrev pub history : ℕ → ℕ → Buffer → History
history start j buf = record {
  h0 = buf (start + j);
  h1 = buf (start + (j + 2));
  h2 = buf (start + (j + 4));
  h3 = buf (start + (j + 6));
  h4 = buf (start + (j + 8));
  h5 = buf (start + (j + 10));
  h6 = buf (start + (j + 12));
  h7 = buf (start + (j + 14));
  h8 = buf (start + (j + 16));
}

fir_loop : (start length : ℕ) → Taps → ℕ → ℕ → History → Buffer → Buffer
fir_loop start length k zero d hist buf = buf
fir_loop start length k (suc fuel) d hist buf =
    let temp = buf (start + d) in
    let next =
      fir_loop start length k fuel (d + 2) (shift hist temp)
        (store buf (start + d) (fir_tap k hist)) in
    if ltb d length then next else buf

-- `generic_fir(data, length, fir)`
pub generic_fir : (start length : ℕ) → Taps → Buffer → Buffer
unfolding fir_loop
generic_fir start length k buf = fir_loop start length k length 18 (history start 0 buf) buf

-- a row of `cic_9_tables`, the signs as in each of them; row 0 is empty
abbrev fir : ℕ → ℕ → ℕ → ℕ → ℕ → Taps
fir a b c d e = record {
  f1 = negsuc (a - 1);
  f2 = negsuc (b - 1);
  f3 = pos c;
  f4 = negsuc (d - 1);
  f5 = pos e;
}

abbrev no_fir : Taps
no_fir = record { f1 = pos 0; f2 = pos 0; f3 = pos 0; f4 = pos 0; f5 = pos 0 }

abbrev cic_rows : List Taps
cic_rows =
    fir 156 97 2798 15489 61019
    ∷ fir 128 568 5593 24125 74126
    ∷ fir 129 639 6187 26281 77511
    ∷ fir 122 612 6082 26353 77818
    ∷ fir 120 602 6015 26269 77757
    ∷ fir 120 582 5951 26128 77542
    ∷ fir 119 580 5931 26094 77505
    ∷ fir 119 578 5921 26077 77484
    ∷ fir 119 577 5917 26067 77473
    ∷ fir 199 362 5303 25505 77489
    ∷ []

-- `cic_9_tables[ds_p]`, for `ds_p` from 1 to `CIC_TABLE_MAX`
pub cic_9_tables : ℕ → Taps
cic_9_tables zero = no_fir
cic_9_tables (suc n) = get_or cic_rows n no_fir
