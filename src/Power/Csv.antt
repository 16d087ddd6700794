-- ===== src/Power/Csv.antt =====
-- `rms_power`, `real_conj` and `csv_dbm` of rtlsdrdevice.c: the power of a hop is added up, printed
-- as one row, and cleared. A read below an array is a fault, `none`; what is printed is the row.
pub mod Halves
use android_rtlpower.Base.{
  ℕ, zero, suc, ◌+◌, ◌-◌, ◌*◌, ◌/◌, ◌^◌, Bool, Option, none, some, List, [], ◌∷◌, ◌++◌, ◌==◌, ltb,
  if◌then◌else◌,
}
use android_rtlpower.Base.Int.{ℤ, pos, negsuc, ◌+ℤ◌, ◌-ℤ◌, ◌*ℤ◌, ltb_ℤ, to_int32, pos_part}
use android_rtlpower.Double.{Double}
use android_rtlpower.Power.Range.{◌>>=◌}
use android_rtlpower.Power.Tune.{Tune}

-- `long *avg`
abbrev pub Cells : Type 0
Cells = ℕ → ℤ

unfoldable pub put : Cells → ℕ → ℤ → Cells
put avg i v j = if j == i then v else avg j

-- `for (i=0; i<len/2; i++)`: the cells `i` and `i + half` are exchanged, with the rounds left
pub swap_loop : (half : ℕ) → ℕ → (i : ℕ) → Cells → Cells
swap_loop half zero i avg = avg
swap_loop half (suc left) i avg =
    swap_loop half left (i + 1) (put (put avg i (avg (i + half))) (i + half) (avg i))

-- `if (ts->bin_e > 0)`
pub fix_quirks : (bin_e : ℕ) → Cells → Cells
unfolding swap_loop
fix_quirks bin_e avg =
    if ltb 0 bin_e then swap_loop (2 ^ bin_e / 2) (2 ^ bin_e / 2) 0 (put avg 0 (avg 1)) else avg

-- `for (i=0; i<len; i++) ts->avg[i] = 0L`
pub clear_loop : ℕ → (i : ℕ) → Cells → Cells
clear_loop zero i avg = avg
clear_loop (suc left) i avg = clear_loop left (i + 1) (put avg i (pos 0))

abbrev pub at : Cells → ℤ → Option ℤ
at avg (pos n) = some (avg n)
at avg (negsuc n) = none

abbrev pub cons_if : {A : Type 0} → Option A → Option (List A) → Option (List A)
cons_if none xs = none
cons_if (some x) none = none
cons_if (some x) (some xs) = some (x ∷ xs)

abbrev pub map_if : {A B : Type 0} → (A → B) → Option A → Option B
map_if f none = none
map_if f (some a) = some (f a)

-- `long real_conj(int16_t real, int16_t imag)`
pub real_conj : (real imag : ℤ) → ℤ
real_conj real imag = real *ℤ real +ℤ imag *ℤ imag

module _ (d : Double) where
  open d use {F, of_int, to_int, lit, sub, mul, div, log10}

  -- what one call prints
  pub record Row : Type 0 where
    pub hz_low : ℤ
    pub hz_high : ℤ
    pub hz_step : F
    pub samples : ℤ
    pub dbm : List F

  -- the loop's `dbm`, by two divisions
  pub decibel : (t : Tune d) → ℤ → F
  decibel t power =
      mul (of_int (pos 10)) (log10 (div (div (of_int power) (of_int t.rate)) (of_int t.samples)))

  -- the last one, by one division
  pub last_decibel : (t : Tune d) → ℤ → F
  last_decibel t power =
      mul (of_int (pos 10)) (log10 (div (of_int power) (mul (of_int t.rate) (of_int t.samples))))

  -- `for (i=i1; i<=i2; i++)`, with the rounds left
  pub decibel_loop : (t : Tune d) → Cells → ℕ → (i : ℤ) → Option (List F)
  unfolding decibel
  decibel_loop t avg zero i = some []
  decibel_loop t avg (suc left) i =
      cons_if (map_if (decibel t) (at avg i)) (decibel_loop t avg left (i +ℤ pos 1))

  -- `(int)((double)len * ts->crop * 0.5)`
  unfoldable pub margin : (t : Tune d) → ℤ
  margin t = to_int (mul (mul (of_int (pos (2 ^ t.bin_e))) t.crop) (lit 5 1))

  -- the row, from the values of the loop and the power that is printed last
  pub make_row : (t : Tune d) → List F → ℤ → Row
  unfolding last_decibel
  make_row t dbms power =
      let len = pos (2 ^ t.bin_e) in
      let bin_count = to_int (mul (of_int len) (sub (lit 1 0) t.crop)) in
      let bw2 = to_int (
        div (mul (of_int t.rate) (of_int bin_count))
          (of_int (to_int32 (len *ℤ pos 2 *ℤ t.downsample)))) in
      record {
        hz_low = to_int32 (t.freq -ℤ bw2);
        hz_high = to_int32 (t.freq +ℤ bw2);
        hz_step = div (of_int t.rate) (of_int (to_int32 (len *ℤ t.downsample)));
        samples = t.samples;
        dbm = dbms ++ last_decibel t power ∷ [];
      }

  -- the row of the cells `avg`
  pub row : (t : Tune d) → Cells → Option Row
  row t avg =
      let i1 = margin t in
      let i2 = pos (2 ^ t.bin_e) -ℤ pos 1 -ℤ margin t in
      do
        dbms ← decibel_loop t avg (pos_part (i2 +ℤ pos 1 -ℤ i1)) i1
        power ← if t.bin_e == 0 then some (avg 0) else at avg i2
        some (make_row t dbms power)

  -- `csv_dbm(ts)`: the row, and the hop afterwards
  pub csv_dbm : Tune d → Option (Row × Tune d)
  unfolding row fix_quirks clear_loop
  csv_dbm t =
      let avg = fix_quirks t.bin_e t.avg in
      map_if (λ r. (r, record t { avg = clear_loop (2 ^ t.bin_e) 0 avg; samples = pos 0 }))
        (row t avg)

  -- the loop of `rms_power`, with the rounds left: `p` and `t`
  power_loop : (buf : ℕ → ℕ) → ℕ → (i : ℕ) → (p t : ℤ) → ℤ × ℤ
  power_loop buf zero i p t = (p, t)
  power_loop buf (suc left) i p t =
      let s = pos (buf i) -ℤ pos 127 in power_loop buf left (i + 1) (p +ℤ s *ℤ s) (t +ℤ s)

  -- `rms_power(ts)`; `double` turns `t * 2` and `buf_len` into doubles
  pub rms_power : (peak_hold : Bool) → Tune d → Tune d
  unfolding power_loop
  rms_power peak_hold ts =
      let sums = power_loop ts.buf8 (pos_part ts.buf_len) 0 (pos 0) (pos 0) in
      let t = sums.1 in
      let len = of_int ts.buf_len in
      let dc = div (of_int t) len in
      let err = sub (mul (of_int (t *ℤ pos 2)) dc) (mul (mul dc dc) len) in
      let p = sums.0 -ℤ to_int (d.round err) in
      let old = ts.avg 0 in
      let new = if peak_hold then (if ltb_ℤ p old then old else p) else old +ℤ p in
      record ts { avg = put ts.avg 0 new; samples = to_int32 (ts.samples +ℤ pos 1) }
