-- ===== src/Power/Range.antt =====
-- `frequency_range` of rtlsdrdevice.c: the argument `lower:upper:bin_size` becomes a list of hops.
-- `int` values are integers; where the code converts or multiplies, the result is wrapped to 32
-- bits. A missing colon, an empty number and a division by zero are faults, `none`.
pub mod Bins
pub mod Cover
pub mod Hops
pub mod Rate
pub mod Ready
use android_rtlpower.Base.{
  ℕ, zero, suc, ◌+◌, ◌-◌, ◌*◌, ◌^◌, Bool, true, false, ◌&&◌, not, Option, none, some, List, [], ◌∷◌,
  ◌==◌, leb, if◌then◌else◌,
}
use android_rtlpower.Base.Int.{
  ℤ, pos, negsuc, ◌+ℤ◌, ◌-ℤ◌, ◌*ℤ◌, ltb_ℤ, leb_ℤ, c_div, to_int32, pos_part,
}
use android_rtlpower.Double.{Double}
use android_rtlpower.Suffix.{atofs}
use android_rtlpower.Power.Tune.{Tune, Tunes}

abbrev pub maximum_rate : ℕ
maximum_rate = 2_800_000

abbrev pub minimum_rate : ℕ
minimum_rate = 1_000_000

abbrev pub max_tunes : ℕ
max_tunes = 3000

abbrev pub default_buf_length : ℕ
default_buf_length = 16384

infixl 5 ◌>>=◌
abbrev pub ◌>>=◌ {ℓ κ} : {A : Type ℓ} {B : Type κ} → Option A → (A → Option B) → Option B
none >>= f = none
some a >>= f = f a

abbrev put_front : ℕ → Option (List ℕ × List ℕ) → Option (List ℕ × List ℕ)
put_front c none = none
put_front c (some (a, b)) = some (c ∷ a, b)

-- `strchr(s, ':')`: what stands before the colon, and what stands behind it
pub cut : List ℕ → Option (List ℕ × List ℕ)
cut [] = none
cut (c ∷ cs) = let rest = put_front c (cut cs) in if c == b':' then some ([], cs) else rest

-- `bw_seen`, `bw_used` and `tune_count`
pub record Band : Type 0 where
  pub bw_seen : ℤ
  pub bw_used : ℤ
  pub hops : ℤ

-- `downsample`, `downsample_passes`, and the band as they change it
pub record Plan : Type 0 where
  pub band : Band
  pub open band use *
  pub downsample : ℤ
  pub downsample_passes : ℤ

module _ (d : Double) where
  open d use {F, of_int, to_int, lit, sub, div, le, log2}

  -- `(int)((double)n / (1.0 - crop))`
  pub uncrop : F → ℤ → ℤ
  uncrop crop n = to_int (div (of_int n) (sub (lit 1 0) crop))

  -- `for (i = 1; i < 1500; i++)`, with the rounds left; `span` is `upper - lower`, and `last` is
  -- what the variables hold so far
  pub hop_loop : (crop : F) → (span : ℤ) → ℕ → (i : ℕ) → Band → Option Band
  unfolding uncrop
  hop_loop crop span zero i last = some last
  hop_loop crop span (suc left) i last = c_div span (pos i) >>= λ seen.
      let used = uncrop crop seen in
      let next =
        hop_loop crop span left (i + 1)
          (record { bw_seen = seen; bw_used = used; hops = last.hops }) in
      if ltb_ℤ (pos maximum_rate) used
      then next
      else some (record { bw_seen = seen; bw_used = used; hops = pos i })

  -- `if (bw_used < MINIMUM_RATE)`
  pub small_band : Band → Option Plan
  small_band b =
      if ltb_ℤ b.bw_used (pos minimum_rate)
      then (do
        downsample ← c_div (pos maximum_rate) b.bw_used
        some (record {
          band = record b { hops = pos 1; bw_used = to_int32 (b.bw_used *ℤ downsample) };
          downsample = downsample;
          downsample_passes = pos 0;
        }))
      else some (record { band = b; downsample = pos 1; downsample_passes = pos 0 })

  -- `if (!boxcar && downsample > 1)`
  pub recursive_downsample : (boxcar : Bool) → F → Plan → Plan
  unfolding uncrop
  recursive_downsample boxcar crop p =
      let passes = to_int (log2 (of_int p.downsample)) in
      let factor = to_int32 (pos (2 ^ pos_part passes)) in
      if not boxcar && ltb_ℤ (pos 1) p.downsample
      then record {
        band = record (p.band) { bw_used = uncrop crop (to_int32 (p.bw_seen *ℤ factor)) };
        downsample = factor;
        downsample_passes = passes;
      }
      else p

  -- `bin_size <= (double)max_size` at `i`
  pub bin_fits : Plan → (max_size : ℤ) → (i : ℕ) → Bool
  bin_fits p max_size i =
      le (div (of_int p.bw_used) (of_int (to_int32 (pos (2 ^ i) *ℤ p.downsample))))
        (of_int max_size)

  -- `for (i = 1; i <= 21; i++)`, with the rounds left: `bin_e` after the loop
  pub bin_loop : Plan → (max_size : ℤ) → ℕ → (i : ℕ) → ℕ
  unfolding bin_fits
  bin_loop p max_size zero i = i - 1
  bin_loop p max_size (suc left) i =
      let next = bin_loop p max_size left (i + 1) in if bin_fits p max_size i then i else next

  -- the values that go into every hop
  pub record Layout : Type 0 where
    pub plan : Plan
    pub open plan use *
    pub bin_e : ℕ
    pub crop : F

  -- `if (max_size >= MINIMUM_RATE)`
  pub giant_bins : F → (span max_size : ℤ) → Plan → Option Layout
  giant_bins crop span max_size p =
      if leb_ℤ (pos minimum_rate) max_size
      then (do
        count ← c_div span max_size
        some (record {
          plan = record p {
            band = record { bw_seen = max_size; bw_used = max_size; hops = count };
          };
          bin_e = 0;
          crop = of_int (pos 0);
        }))
      else some (record { plan = p; bin_e = bin_loop p max_size 21 1; crop = crop })

  -- from the parsed numbers to the layout; `old` is the value of the global `tune_count`
  pub layout : (boxcar : Bool) → F → (lower upper max_size old : ℤ) → Option Layout
  layout boxcar crop lower upper max_size old = do
    let span = to_int32 (upper -ℤ lower)
    band ← hop_loop crop span 1499 1 (record { bw_seen = pos 0; bw_used = pos 0; hops = old })
    plan ← small_band band
    giant_bins crop span max_size (recursive_downsample boxcar crop plan)

  -- `buf_len = 2 * (1<<bin_e) * downsample`, at least `DEFAULT_BUF_LENGTH`
  pub buf_length : Layout → ℤ
  buf_length l =
      let n = to_int32 (pos (2 * 2 ^ l.bin_e) *ℤ l.downsample) in
      if ltb_ℤ n (pos default_buf_length) then pos default_buf_length else n

  -- the body of `for (i = 0; i < tune_count; i++)`; `buf8` is what `malloc` returned for it
  pub hop : Layout → (lower : ℤ) → (i : ℕ) → (buf8 : ℕ → ℕ) → Option (Tune d)
  hop l lower i buf8 = do
    half ← c_div l.bw_seen (pos 2)
    some (record {
      freq = to_int32 (lower +ℤ pos i *ℤ l.bw_seen +ℤ half);
      rate = l.bw_used;
      bin_e = l.bin_e;
      avg = λ j. pos 0;
      samples = pos 0;
      downsample = l.downsample;
      downsample_passes = l.downsample_passes;
      crop = l.crop;
      buf8 = buf8;
      buf_len = buf_length l;
    })

  -- NULL ends the loop with `backgroundProcessingFailed`
  abbrev with_block : Option (ℕ → ℕ) → Tunes d → ((ℕ → ℕ) → Option (Tunes d)) → Option (Tunes d)
  with_block none t go_on = some (record t { failed = true })
  with_block (some buf8) t go_on = go_on buf8

  -- `tunes[i] = …` for `left` hops from `i` on; `heap i` is what the two calls of `malloc` give, and
  -- NULL in one of them ends the loop with `backgroundProcessingFailed` (the hop whose arrays are
  -- NULL keeps its old values here)
  pub fill :
      Layout → (lower : ℤ) → (heap : ℕ → Option (ℕ → ℕ)) → ℕ → (i : ℕ) → Tunes d → Option (Tunes d)
  fill l lower heap zero i t = some t
  fill l lower heap (suc left) i t = with_block (heap i) t λ buf8. hop l lower i buf8 >>= λ h.
      fill l lower heap left (i + 1) (record t { tunes = λ j. if j == i then h else t.tunes j })

  -- from the layout to the array of hops
  pub build : Layout → (lower : ℤ) → (heap : ℕ → Option (ℕ → ℕ)) → Tunes d → Option (Tunes d)
  build l lower heap t =
      let counted = record t { tune_count = l.hops } in
      if ltb_ℤ (pos max_tunes) l.hops
      then some (record counted { failed = true })
      else fill l lower heap (pos_part l.hops) 0 counted

  -- `frequency_range(arg, crop)`
  pub frequency_range :
      (boxcar : Bool) → (heap : ℕ → Option (ℕ → ℕ)) → List ℕ → F → Tunes d → Option (Tunes d)
  frequency_range boxcar heap arg crop t = do
    (start, rest) ← cut arg
    (stop, step) ← cut rest
    lower ← atofs d start
    upper ← atofs d stop
    max_size ← atofs d step
    l ← layout boxcar crop (to_int lower) (to_int upper) (to_int max_size) t.tune_count
    build l (to_int lower) heap t
