-- ===== src/Power/Scan/Whole.antt =====
-- `scanner` on the hops that `frequency_range` makes.
use android_rtlpower.Base.{
  ℕ, zero, suc, ◌+◌, ◌/◌, ◌≤◌, ◌<◌, ◌≡◌, refl, sym, ap, ◌∙◌, Bool, true, some, arith, ◌==◌, ltb,
  inl, inr, Bool-cases, ◌^◌, false, if◌then◌else◌,
}
use android_rtlpower.Base.Int.{pos, c_div, pos_part}
use android_rtlpower.Double.{Double}
use android_rtlpower.Power.Buffer.{Buffer}
use android_rtlpower.Power.Tune.{Tune, Tunes}
use android_rtlpower.Power.Range.Hops.{c_div-pos}
use android_rtlpower.Power.Range.Ready.{IsReady, AreReady}
use android_rtlpower.Power.Scan.{
  Settings, add_frame, frame_loop, prep_loop, scan_hop, scan_loop, scanner,
}
use android_rtlpower.Power.Scan.Frames.{remove_both_dc-some, bring_down-some, many_bins}

module _ (d : Double) (crop : d.F) (s : Settings) (on : s.boxcar ≡ true) (bin factor len : ℕ) where
  frame_loop-IsReady :
      (bin_e q fuel offset : ℕ) (ts : Tune d) (buf : Buffer)
      → IsReady d crop bin factor len ts
      → IsReady d crop bin factor len ((frame_loop d s bin_e q fuel offset ts buf).0)
  unfolding frame_loop add_frame
  frame_loop-IsReady bin_e q zero offset ts buf is = is
  frame_loop-IsReady bin_e q (suc fuel) offset ts buf is = elim (Bool-cases (ltb offset q)) [
    | inl more ↦ rw more (
        frame_loop-IsReady bin_e q fuel _ _ _ (record {
          bin_is = is.bin_is;
          factor_is = is.factor_is;
          no_passes = is.no_passes;
          len_is = is.len_is;
          crop_is = is.crop_is;
        }))
    | inr end ↦ rw end is
  ]

  frame_loop-freq :
      (bin_e q fuel offset : ℕ) (ts : Tune d) (buf : Buffer)
      → ((frame_loop d s bin_e q fuel offset ts buf).0).freq ≡ ts.freq
  unfolding frame_loop add_frame
  frame_loop-freq bin_e q zero offset ts buf = refl
  frame_loop-freq bin_e q (suc fuel) offset ts buf = elim (Bool-cases (ltb offset q)) [
    | inl more ↦ rw more (frame_loop-freq bin_e q fuel _ _ _)
    | inr end ↦ rw end refl
  ]

  module _ (low : 1 ≤ bin) (fp : 0 < factor) (enough : 2 ≤ len / factor) where
    scan_hop-IsReady :
        (ts : Tune d) (buf : Buffer)
        → IsReady d crop bin factor len ts
        → (ts' : Tune d) × (buf' : Buffer) × (scan_hop d s bin (pos len) ts buf ≡ some (ts', buf'))
          × IsReady d crop bin factor len ts'
          × (ts'.freq ≡ ts.freq)
    unfolding scan_hop
    scan_hop-IsReady ts buf is =
        let prepared = prep_loop ts.buf8 len 0 buf in
        let (down, run, _) = bring_down-some d s len ts prepared on is.no_passes in
        let (level, run', _) = remove_both_dc-some (len / factor) down enough in
        let divided : c_div (pos len) ts.downsample ≡ some (pos (len / factor)) =
          ap (c_div (pos len)) is.factor_is ∙ c_div-pos len factor fp in
        let done = frame_loop d s bin (len / factor) (len / factor) 0 ts level in
        (
          done.0,
          done.1,
          rw (several bin low, run, divided, run') refl,
          frame_loop-IsReady bin (len / factor) (len / factor) 0 ts level is,
          frame_loop-freq bin (len / factor) (len / factor) 0 ts level,
        )
      where
        several : (e : ℕ) → 1 ≤ e → (2 ^ e == 1) ≡ false
        several zero l = absurd (omega arith)
        several (suc e) l = many_bins e

    -- every hop below `count` is ready
    abbrev AllReady : (count : ℕ) → Tunes d → Type 0
    AllReady count t = (i : ℕ) → i < count → IsReady d crop bin factor len (t.tunes i)

    scan_loop-AllReady :
        (exits : ℕ → Bool) (read : ℕ → ℕ → ℕ) (left i : ℕ) (t : Tunes d) (buf : Buffer) (count : ℕ)
        → i + left ≡ count
        → AllReady count t
        → (t' : Tunes d) × (buf' : Buffer) × (scan_loop d s bin (pos len) exits read left i t buf
            ≡ some (t', buf'))
          × (t'.tune_count ≡ t.tune_count)
          × (t'.failed ≡ t.failed)
          × AllReady count t'
          × ((j : ℕ) → (t'.tunes j).freq ≡ (t.tunes j).freq)
    unfolding scan_loop
    scan_loop-AllReady exits read zero i t buf count e ready =
        (t, buf, refl, refl, refl, ready, λ j. refl)
    scan_loop-AllReady exits read (suc left) i t buf count e ready =
        let (ts, buf1, run, is, freq) =
          scan_hop-IsReady (record (t.tunes i) { buf8 = read i }) buf
            (again (ready i (omega arith))) in
        let t1 = record t { tunes = λ j. if j == i then ts else t.tunes j } in
        let (t', buf', rest, same, failed, ready', freqs) =
          scan_loop-AllReady exits read left (i + 1) t1 buf1 count (omega arith) (λ j h.
            elim (Bool-cases (j == i)) [
              | inl here ↦ rw here is
              | inr other ↦ rw other (ready j h)
            ]) in
        elim (Bool-cases (exits i)) [
          | inl out ↦ (t, buf, rw out refl, refl, refl, ready, λ j. refl)
          | inr on ↦
              (t', buf', rw (on, run) rest, same, failed, ready', λ j. freqs j ∙ kept i j ts freq)
        ]
      where
        kept :
            (i j : ℕ) (ts : Tune d)
            → ts.freq ≡ (t.tunes i).freq
            → (if j == i then ts else t.tunes j).freq ≡ (t.tunes j).freq
        kept i j ts e = elim (Bool-cases (j == i)) [
          | inl here ↦
              let f : j ≡ i = ground (arith, here) in
              rw here (e ∙ ap (λ k. (t.tunes k).freq) (sym f))
          | inr other ↦ rw other refl
        ]

        again :
            {u : Tune d} {b : ℕ → ℕ}
            → IsReady d crop bin factor len u
            → IsReady d crop bin factor len (record u { buf8 = b })
        again r = record {
          bin_is = r.bin_is;
          factor_is = r.factor_is;
          no_passes = r.no_passes;
          len_is = r.len_is;
          crop_is = r.crop_is;
        }

-- `scanner` runs without a fault over hops that are ready, however soon `do_exit` ends it, and
-- leaves as many hops, as ready and in their places.
pub scanner-AreReady :
    (d : Double) (crop : d.F) (s : Settings) (exits : ℕ → Bool) (read : ℕ → ℕ → ℕ) (t : Tunes d)
    (buf : Buffer)
    → s.boxcar ≡ true
    → (r : AreReady d crop t)
    → (t' : Tunes d) × (buf' : Buffer) × (scanner d s exits read t buf ≡ some (t', buf'))
      × (t'.tune_count ≡ t.tune_count)
      × (t'.failed ≡ t.failed)
      × ((j : ℕ) → (t'.tunes j).freq ≡ (t.tunes j).freq)
      × (r' : AreReady d crop t') × (r'.bin ≡ r.bin)
unfolding scanner
scanner-AreReady d crop s exits read t buf on r =
    let first = r.ready 0 r.some_hop in
    let (t', buf', run, same, failed, ready, freqs) =
      scan_loop-AllReady d crop s on r.bin r.factor r.len r.bin_low r.factor_pos r.enough exits read
        r.count 0 t buf r.count (omega arith) r.ready in
    (
      t',
      buf',
      ap (λ e. scan_loop d s e (t.tunes 0).buf_len exits read (pos_part t.tune_count) 0 t buf)
            first.bin_is
          ∙ ap (λ n. scan_loop d s r.bin n exits read (pos_part t.tune_count) 0 t buf) first.len_is
          ∙ ap (λ c. scan_loop d s r.bin (pos r.len) exits read (pos_part c) 0 t buf) r.count_is
          ∙ run,
      same,
      failed,
      freqs,
      record {
        bin = r.bin;
        factor = r.factor;
        len = r.len;
        count = r.count;
        count_is = same ∙ r.count_is;
        some_hop = r.some_hop;
        bin_low = r.bin_low;
        bin_high = r.bin_high;
        factor_pos = r.factor_pos;
        enough = r.enough;
        ready = ready;
      },
      refl,
    )
