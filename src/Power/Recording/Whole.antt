-- ===== src/Power/Recording/Whole.antt =====
-- A recording from the argument to the rows.
use android_rtlpower.Base.{
  ℕ, zero, suc, ◌+◌, ◌^◌, ◌≤◌, ◌<◌, ◌≡◌, refl, ap, ◌∙◌, sym, true, false, some, List, [], ◌∷◌, ◌++◌,
  arith, length, get_elem?, ltb, inl, inr, Bool-cases, ltb→lt, dec_lt, if-true,
}
use mathlib.Core.Path.{ap₂}
use mathlib.Core.Option.{some-injective}
use android_rtlpower.Base.Powers.{pow_positive}
use android_rtlpower.Base.Int.{ℤ, pos, pos_part, to_uint32, low_bits}
use android_rtlpower.Double.{Double}
use android_rtlpower.Double.Exact.{Uncropped, ComparesQuotients, NoMargin}
use android_rtlpower.Device.{
  open_device, close_device, reset_buffer, set_sample_rate, set_tuner_gain_mode,
}
use android_rtlpower.Power.Buffer.{Buffer}
use android_rtlpower.Power.Tune.{Tune, Tunes}
use android_rtlpower.Power.Csv.{Row, csv_dbm, margin}
use android_rtlpower.Power.Csv.Halves.{csv_dbm-IsCleared}
use android_rtlpower.Power.Range.{minimum_rate, maximum_rate, frequency_range}
use android_rtlpower.Power.Range.Ready.{IsReady, AreReady}
use android_rtlpower.Power.Range.Cover.{Reads, IsCover, frequency_range-AreReady}
use android_rtlpower.Power.Scan.{Settings}
use android_rtlpower.Power.Scan.Whole.{scanner-AreReady}
use android_rtlpower.Power.Recording.{
  World, Outcome, write_rows, prepared, record_loop, capture, opened, main_copied,
}

module _ (d : Double) where
  -- what `csv_dbm` prints of some power of the hop at that frequency
  pub record IsRowOf (freq : ℤ) (r : Row d) : Type 0 where
    pub hop : Tune d
    pub after : Tune d
    pub prints : csv_dbm d hop ≡ some (r, after)
    pub centred : hop.freq ≡ freq

  -- `count` rows, each of the hop of the next frequency and with one value more than there are bins
  pub record AreRows (freqs : ℕ → ℤ) (count bin : ℕ) (rows : List (Row d)) : Type 0 where
    pub one_each : length rows ≡ count
    pub full : (j : ℕ) (r : Row d) → get_elem? rows j ≡ some r → length r.dbm ≡ 2 ^ bin + 1
    pub in_place : (j : ℕ) (r : Row d) → get_elem? rows j ≡ some r → IsRowOf (freqs j) r

  counted :
      {freqs freqs' : ℕ → ℤ} {n n' b b' : ℕ} {rows : List (Row d)}
      → ((j : ℕ) → freqs j ≡ freqs' j)
      → n ≡ n'
      → b ≡ b'
      → AreRows freqs n b rows
      → AreRows freqs' n' b' rows
  counted g e f are = record {
    one_each = are.one_each ∙ e;
    full = λ j r h. are.full j r h ∙ ap (λ b. 2 ^ b + 1) f;
    in_place = λ j r h.
        let is = are.in_place j r h in
        record { hop = is.hop; after = is.after; prints = is.prints; centred = is.centred ∙ g j };
  }

module _ (d : Double) (crop : d.F) (no_margin : NoMargin d crop) where
  ready-row :
      (bin factor len : ℕ) (u : Tune d)
      → bin ≤ 21
      → IsReady d crop bin factor len u
      → (r : Row d) × (u' : Tune d) × (csv_dbm d u ≡ some (r, u')) × (length r.dbm ≡ 2 ^ bin + 1)
  unfolding margin
  ready-row bin factor len u high is =
      let none_cut : margin d u ≡ pos 0 =
        ap₂ (λ e c. d.to_int (d.mul (d.mul (d.of_int (pos (2 ^ e))) c) (d.lit 5 1))) is.bin_is
          is.crop_is
        ∙ no_margin bin high in
      let (r, u', run, prints, same, cleared) =
        csv_dbm-IsCleared d u 0 none_cut (omega (arith, pow_positive u.bin_e)) in
      (r, u', run, prints.one_more_value ∙ omega (arith, ap (λ e. 2 ^ e) is.bin_is))

  module _ (bin factor len count : ℕ) (t : Tunes d) (high : bin ≤ 21)
      (ready : (i : ℕ) → i < count → IsReady d crop bin factor len (t.tunes i)) where
    write_rows-AreRows :
        (left i : ℕ)
        → i + left ≡ count
        → (rows : List (Row d)) × (write_rows d t left i ≡ some rows)
          × AreRows d (λ j. (t.tunes (i + j)).freq) left bin rows
    unfolding write_rows
    write_rows-AreRows zero i e = (
      [],
      refl,
      record {
        one_each = refl;
        full = λ j r h. grind arith;
        in_place = λ j r h. absurd (ground (arith, h));
      },
    )
    write_rows-AreRows (suc left) i e =
        let (r, u, run, full) = ready-row bin factor len (t.tunes i) high (ready i (omega arith)) in
        let (rows, rest, are) = write_rows-AreRows left (i + 1) (omega arith) in
        (
          r ∷ rows,
          rw (run, rest) refl,
          record {
            one_each = ap suc are.one_each;
            full = longer r rows full are;
            in_place = placed i r u rows run are;
          },
        )
      where
        longer :
            (r : Row d) (rows : List (Row d))
            → length r.dbm ≡ 2 ^ bin + 1
            → AreRows d (λ j. (t.tunes (i + 1 + j)).freq) left bin rows
            → (j : ℕ) (q : Row d) → get_elem? (r ∷ rows) j ≡ some q
            → length q.dbm ≡ 2 ^ bin + 1
        longer r rows h are zero q e =
            ap (λ (x : Row d). length x.dbm) (sym (some-injective r q e)) ∙ h
        longer r rows h are (suc j) q e = are.full j q e

        placed :
            (i : ℕ) (r : Row d) (u : Tune d) (rows : List (Row d))
            → csv_dbm d (t.tunes i) ≡ some (r, u)
            → AreRows d (λ j. (t.tunes (i + 1 + j)).freq) left bin rows
            → (j : ℕ) (q : Row d) → get_elem? (r ∷ rows) j ≡ some q
            → IsRowOf d (t.tunes (i + j)).freq q
        placed i r u rows run are zero q e = record {
          hop = t.tunes i;
          after = u;
          prints = run ∙ ap (λ (x : Row d). some (x, u)) (some-injective r q e);
          centred = ap (λ k. (t.tunes k).freq) (omega arith);
        }
        placed i r u rows run are (suc j) q e =
            let is = are.in_place j q e in
            record {
              hop = is.hop;
              after = is.after;
              prints = is.prints;
              centred = is.centred ∙ ap (λ k. (t.tunes k).freq) (omega arith);
            }

  module _ (w : World d) (s : Settings) (on : s.boxcar ≡ true) (next_tick wait : ℕ)
      (goes_on : (j : ℕ) → j ≤ wait → w.stops j ≡ false) (ticks : next_tick ≤ w.clock wait) where
    record_loop-AreRows :
        (fuel i : ℕ) (t : Tunes d) (buf : Buffer)
        → i ≤ wait
        → wait < i + fuel
        → (r : AreReady d crop t)
        → (rows : List (Row d)) × (record_loop d w s next_tick fuel i t buf ≡ some rows)
          × AreRows d (λ j. (t.tunes j).freq) (pos_part t.tune_count) r.bin rows
    unfolding record_loop
    record_loop-AreRows zero i t buf before enough r = absurd (omega arith)
    record_loop-AreRows (suc fuel) i t buf before enough r =
        let (t', buf', run, same, failed, freqs, r', bins) =
          scanner-AreReady d crop s (w.exits i) (w.read i) t buf on r in
        let count : pos_part t'.tune_count ≡ pos_part t.tune_count = ap pos_part same in
        elim (Bool-cases (ltb (w.clock i) next_tick)) [
          | inl early ↦
              let later = early_lt (ltb→lt _ _ early) in
              let (rows, rest, are) =
                record_loop-AreRows fuel (i + 1) t' buf' later (omega arith) r' in
              (rows, rw (goes_on i before, run, early) rest, counted d freqs count bins are)
          | inr due ↦
              let (rows, rest, are) =
                write_rows-AreRows r'.bin r'.factor r'.len r'.count t' r'.bin_high r'.ready r'.count
                  0 (omega arith) in
              (
                rows,
                rw (goes_on i before, run, due)
                    (ap (λ c. write_rows d t' (pos_part c) 0) r'.count_is ∙ rest),
                counted d (λ j. ap (λ k. (t'.tunes k).freq) (omega arith) ∙ freqs j)
                    (sym (ap pos_part r'.count_is) ∙ count) bins are,
              )
        ]
      where
        early_lt : w.clock i < next_tick → i + 1 ≤ wait
        early_lt h = elim (dec_lt i wait) [
          | yes less ↦ omega arith
          | no last ↦ let e : i ≡ wait = omega arith in absurd (omega (arith, ap w.clock e))
        ]

-- what `mainCOPIED` leaves after a recording that wrote `rows`
abbrev recorded : (d : Double) → List (Row d) → Tunes d → Outcome d
recorded d rows t = record {
  result = pos 0;
  log =
      close_device
      ∷ set_sample_rate (to_uint32 ((t.tunes 0).rate))
      ∷ reset_buffer
      ∷ set_tuner_gain_mode (pos 0)
      ∷ open_device
      ∷ [];
  rows = rows;
  failed = t.failed;
}

opened-recorded :
    (d : Double) (w : World d) (fuel now : ℕ) (t : Tunes d) (rows : List (Row d))
    → w.driver.answer [] open_device ≡ pos 0
    → w.file_opens ≡ true
    → record_loop d w (prepared d t) (now + 10) fuel 0 t w.fft_buf ≡ some rows
    → opened d w fuel now t ≡ some (recorded d rows t)
unfolding opened capture
opened-recorded d w fuel now t rows ok file run = rw ok (if-true _ _ file ∙ rw run refl)

kept_rate : (n : ℕ) → n ≤ maximum_rate → to_uint32 (pos n) ≡ n
unfolding to_uint32 low_bits
kept_rate n h = ground arith

-- A recording as a whole: for an argument `start:stop:step` as `frequency_range` takes it, with
-- memory for every hop, a device and a file that open, no cropping, a `double` that is exact on such
-- numbers, no stop before round `wait`, and a clock that shows 10 seconds in that round, `mainCOPIED`
-- ends within `wait + 1` rounds. It has written one row for each of the hops that `frequency_range`
-- laid out, in their order and at their frequencies, each row with one value more than there are
-- bins, has set the sample rate of the hops, and has closed the device.
pub main_copied-AreRows :
    (d : Double) (w : World d) (blocks : ℕ → ℕ → ℕ) (start stop step : List ℕ) (lo span m : ℕ)
    (fuel now wait : ℕ) (t : Tunes d)
    → Uncropped d (d.lit 0 0)
    → ComparesQuotients d
    → NoMargin d (d.lit 0 0)
    → d.lt (d.lit 0 0) (d.lit 0 0) ≡ false
    → d.lt (d.lit 1 0) (d.lit 0 0) ≡ false
    → ((i : ℕ) → w.heap i ≡ some (blocks i))
    → Reads d start lo
    → Reads d stop (lo + span)
    → Reads d step m
    → 0 < span
    → lo + span < 0x8000_0000
    → 0 < m
    → m < minimum_rate
    → w.driver.answer [] open_device ≡ pos 0
    → w.file_opens ≡ true
    → ((i : ℕ) → i ≤ wait → w.stops i ≡ false)
    → now + 10 ≤ w.clock wait
    → wait < fuel
    → (t' : Tunes d) × (frequency_range d true w.heap
          (start ++ b':' ∷ (stop ++ b':' ∷ step))
          (d.lit 0 0)
          t
        ≡ some t')
      × (cover : IsCover d lo span t') × (ready : AreReady d (d.lit 0 0) t') × (o : Outcome d)
      × (main_copied d w fuel now (start ++ b':' ∷ (stop ++ b':' ∷ step)) t ≡ some o)
      × AreRows d (λ j. (t'.tunes j).freq) cover.count ready.bin o.rows
      × (o.result ≡ pos 0)
      × (o.failed ≡ t.failed)
      × (o.log
          ≡ close_device
            ∷ set_sample_rate cover.rate
            ∷ reset_buffer
            ∷ set_tuner_gain_mode (pos 0)
            ∷ open_device
            ∷ [])
unfolding main_copied prepared
main_copied-AreRows d w blocks start stop step lo span m fuel now wait t exact compares no_margin
      low one gives a b c p small mp mm ok file goes_on ticks enough =
    let (t', made, failed, cover, ready) =
      frequency_range-AreReady d (d.lit 0 0) w.heap blocks start stop step lo span m t exact
        compares gives a b c p small mp mm in
    let (rows, run, are) =
      record_loop-AreRows d (d.lit 0 0) no_margin w (prepared d t') refl (now + 10) wait goes_on
        ticks fuel 0 t' w.fft_buf (omega arith) (omega arith) ready in
    (
      t',
      made,
      cover,
      ready,
      recorded d rows t',
      rw (low, one, made) (opened-recorded d w fuel now t' rows ok file run),
      counted d (λ j. refl) (ap pos_part cover.count_is) refl are,
      refl,
      failed,
      ap
          (λ x.
            close_device
            ∷ set_sample_rate x
            ∷ reset_buffer
            ∷ set_tuner_gain_mode (pos 0)
            ∷ open_device
            ∷ [])
          (ap to_uint32 (cover.rated 0 cover.some_hop) ∙ kept_rate cover.rate cover.supported.1),
    )
