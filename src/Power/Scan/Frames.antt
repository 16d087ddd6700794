-- ===== src/Power/Scan/Frames.antt =====
-- How many frames `scanner` adds to a hop.
use android_rtlpower.Base.{
  ℕ, zero, suc, ◌+◌, ◌*◌, ◌^◌, ◌≤◌, ◌<◌, ◌≡◌, refl, ap, ◌∙◌, arith, ◌/◌, ◌==◌, ltb, true, false,
  some, inl, inr, Bool-cases, lt→ltb, ltb-false,
}
use mathlib.Core.Path.{ap₂}
use native.Mathlib.Nat.{pow-suc}
use android_rtlpower.Power.Filter.{remove_dc}
use android_rtlpower.Base.Powers.{pow_positive}
use android_rtlpower.Power.Range.Hops.{c_div-pos}
use android_rtlpower.Base.Int.{ℤ, pos, c_div, pos_part, ltb_ℤ, ◌+ℤ◌, to_int32}
use android_rtlpower.Double.{Double}
use android_rtlpower.Power.Buffer.{Buffer, SameBehind}
use android_rtlpower.Power.Tune.{Tune}
use android_rtlpower.Power.Scan.{
  Settings, frame_loop, add_frame, bring_down, recursive, boxcar_loop, remove_both_dc, prep_loop,
  scan_hop, frame_buffer,
}
use android_rtlpower.Power.Scan.Behind.{
  prep_loop-SameBehind, boxcar_loop-SameBehind, frame_buffer-SameBehind, power_loop-SameBehind,
}
use android_rtlpower.Power.Filter.RemoveDc.{remove_dc-SameBehind}

bump : (n ds : ℕ) → n + ds < 0x8000_0000 → to_int32 (pos n +ℤ pos ds) ≡ pos (n + ds)
unfolding to_int32 ◌+ℤ◌
bump n ds h = ground arith

module _ (d : Double) (s : Settings) (bin_e q ds : ℕ) where
  frame_loop-samples :
      (left fuel offset n : ℕ) (ts : Tune d) (buf : Buffer)
      → q ≡ offset + 2 * 2 ^ bin_e * left
      → left ≤ fuel
      → 0 < 2 ^ bin_e
      → ts.downsample ≡ pos ds
      → ts.samples ≡ pos n
      → n + left * ds < 0x8000_0000
      → ((frame_loop d s bin_e q fuel offset ts buf).0).samples ≡ pos (n + left * ds)
  unfolding frame_loop add_frame
  frame_loop-samples zero zero offset n ts buf e h p ed es l = es ∙ ap pos (omega arith)
  frame_loop-samples zero (suc fuel) offset n ts buf e h p ed es l =
      rw (ltb-false offset q (omega arith)) (es ∙ ap pos (omega arith))
  frame_loop-samples (suc left) zero offset n ts buf e h p ed es l = absurd (omega arith)
  frame_loop-samples (suc left) (suc fuel) offset n ts buf e h p ed es l =
      rw (lt→ltb offset q (grind arith)) (
        frame_loop-samples left fuel (offset + 2 * 2 ^ bin_e) (n + ds) _ _ (grind arith)
          (omega arith) p ed (ap₂ (λ (a b : ℤ). to_int32 (a +ℤ b)) es ed ∙ bump n ds (grind arith))
          (grind arith)
        ∙ ap pos (grind arith))

-- the frames from `offset` on write neither behind `q` cells of `fft_buf` nor behind the bins
module _ (d : Double) (s : Settings) (e q : ℕ) where
  frame_loop-SameBehind :
      (left fuel offset : ℕ) (ts : Tune d) (buf : Buffer)
      → q ≡ offset + 2 * 2 ^ e * left
      → SameBehind q buf ((frame_loop d s e q fuel offset ts buf).1)
        × SameBehind (2 ^ e) ts.avg (((frame_loop d s e q fuel offset ts buf).0).avg)
  unfolding frame_loop add_frame
  frame_loop-SameBehind left zero offset ts buf h = (λ a out. refl, λ a out. refl)
  frame_loop-SameBehind zero (suc fuel) offset ts buf h =
      rw (ltb-false offset q (omega arith)) (λ a out. refl, λ a out. refl)
  frame_loop-SameBehind (suc left) (suc fuel) offset ts buf h =
      let new = frame_buffer s e offset buf in
      let (cells, powers) =
        frame_loop-SameBehind left fuel (offset + 2 * 2 ^ e) (add_frame d s e offset new ts) new
          (grind arith) in
      elim (Bool-cases (ltb offset q)) [
        | inl on ↦ rw on (
          λ a out. cells a out ∙ frame_buffer-SameBehind q s e offset buf (grind arith) a out,
          λ a out.
              powers a out
              ∙ power_loop-SameBehind (2 ^ e) s.peak_hold offset new (2 ^ e) 0 ts.avg (omega arith)
                  a out,
        )
        | inr end ↦ rw end (λ a out. refl, λ a out. refl)
      ]

pub remove_both_dc-some :
    (q : ℕ) (buf : Buffer)
    → 2 ≤ q
    → (b : Buffer) × (remove_both_dc (pos q) buf ≡ some b) × SameBehind q buf b
unfolding remove_both_dc
remove_both_dc-some zero buf h = absurd (omega arith)
remove_both_dc-some (suc zero) buf h = absurd (omega arith)
remove_both_dc-some (suc (suc n)) buf h =
    let first = remove_dc 0 (suc (suc n)) buf in
    (
      remove_dc 1 (suc n) first,
      refl,
      λ a out.
          remove_dc-SameBehind (suc (suc n)) 1 (suc n) first (omega arith) a out
          ∙ remove_dc-SameBehind (suc (suc n)) 0 (suc (suc n)) buf (omega arith) a out,
    )

whole_below : (q ds a : ℕ) → 0 < ds → q * ds ≤ a → q ≤ a
whole_below q zero a p h = absurd (omega arith)
whole_below q (suc ds) a p h = grind arith

whole_quotient : (q ds : ℕ) → 0 < ds → (q * ds) / ds ≡ q
whole_quotient q ds h = grind arith

pub many_bins : (e : ℕ) → (2 ^ suc e == 1) ≡ false
many_bins e = rw (pow-suc 2 e) (ground (arith, pow_positive e))

module _ (d : Double) (s : Settings) where
  pub bring_down-some :
      (n : ℕ) (ts : Tune d) (buf : Buffer)
      → s.boxcar ≡ true
      → ts.downsample_passes ≡ pos 0
      → (b : Buffer) × (bring_down d s n ts buf ≡ some b)
        × ((h : ℕ) → n ≡ 2 * h → SameBehind n buf b)
  unfolding bring_down recursive
  bring_down-some n ts buf on no_passes = elim (Bool-cases (ltb_ℤ (pos 1) ts.downsample)) [
    | inl many ↦ (
      boxcar_loop (pos_part ts.downsample) n n 2 0 buf,
      rw (on, many) refl,
      λ h e a out.
          ap (λ k. boxcar_loop (pos_part ts.downsample) k n 2 0 buf a) e
          ∙ boxcar_loop-SameBehind (pos_part ts.downsample) h n 1 0 2 0 buf refl refl (omega arith)
              a (omega arith),
    )
    | inr one ↦ (buf, rw (on, one, no_passes) refl, λ h e a out. refl)
  ]

  -- With boxcar downsampling and no recursive passes, for a hop of several bins whose buffer holds
  -- `frames` whole frames after the downsampling by `ds`, at least one, `scanner` handles the hop
  -- without dividing by zero, counts `ds` samples for each frame, as long as that fits in an `int`,
  -- and writes no cell of `fft_buf` behind the samples of the hop and no cell of `avg` behind its
  -- bins.
  pub scan_hop-samples :
      (e frames ds n : ℕ) (ts : Tune d) (buf : Buffer)
      → s.boxcar ≡ true
      → ts.downsample_passes ≡ pos 0
      → ts.downsample ≡ pos ds
      → 0 < ds
      → 0 < frames
      → ts.samples ≡ pos n
      → n + frames * ds < 0x8000_0000
      → (ts' : Tune d) × (buf' : Buffer) × (scan_hop d s
            (suc e)
            (pos (2 * 2 ^ suc e * frames * ds))
            ts
            buf
          ≡ some (ts', buf'))
        × (ts'.samples ≡ pos (n + frames * ds))
        × SameBehind (2 * 2 ^ suc e * frames * ds) buf buf'
        × SameBehind (2 ^ suc e) ts.avg ts'.avg
  unfolding scan_hop
  scan_hop-samples e frames ds n ts buf on no_passes ed dp fp es small =
      let q = 2 * 2 ^ suc e * frames in
      let prepared = prep_loop ts.buf8 (q * ds) 0 buf in
      let (down, run, kept) = bring_down-some (q * ds) ts prepared on no_passes in
      let (level, run', kept') = remove_both_dc-some q down (grind (arith, pow_positive (suc e))) in
      let divided : c_div (pos (q * ds)) ts.downsample ≡ some (pos q) =
        ap (c_div (pos (q * ds))) ed
        ∙ c_div-pos (q * ds) ds dp
        ∙ ap (λ k. some (pos k)) (whole_quotient q ds dp) in
      let done = frame_loop d s (suc e) q q 0 ts level in
      let (cells, powers) = frame_loop-SameBehind d s (suc e) q frames q 0 ts level (omega arith) in
      (
        done.0,
        done.1,
        rw (many_bins e, run, divided, run') refl,
        frame_loop-samples d s (suc e) q ds frames q 0 n ts level (omega arith)
            (grind (arith, pow_positive (suc e))) (pow_positive (suc e)) ed es small,
        λ a out.
            let further : q ≤ a = whole_below q ds a dp out in
            cells a further
            ∙ kept' a further
            ∙ kept (2 ^ suc e * frames * ds) (grind arith) a out
            ∙ prep_loop-SameBehind (q * ds) ts.buf8 (q * ds) 0 buf (omega arith) a out,
        powers,
      )
