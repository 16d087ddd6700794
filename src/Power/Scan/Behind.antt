-- ===== src/Power/Scan/Behind.antt =====
-- The loops of `scanner` write no cell behind the end of `fft_buf` or of `avg`.
use android_rtlpower.Base.{
  ℕ, zero, suc, ◌+◌, ◌*◌, ◌%◌, ◌^◌, ◌≤◌, ◌<◌, ◌≡◌, refl, ap, ◌∙◌, Bool, arith, ltb, ◌==◌, inl, inr,
  Bool-cases, if◌then◌else◌, dec_le,
}
use android_rtlpower.Base.Int.{ℤ}
use android_rtlpower.Power.Buffer.{Buffer, SameBehind, store}
use android_rtlpower.Power.Fft.{Wave, fix_fft}
use android_rtlpower.Power.Fft.Bounds.{fix_fft-SameOutside, fix_fft-too_long}
use android_rtlpower.Power.Csv.{Cells, put}
use android_rtlpower.Power.Scan.{
  Settings, prep_loop, boxcar_step, boxcar_loop, window_loop, power_loop, or_same, frame_buffer,
}

pub prep_loop-SameBehind :
    (n : ℕ) (buf8 : ℕ → ℕ) (left j : ℕ) (buf : Buffer)
    → j + left ≤ n
    → SameBehind n buf (prep_loop buf8 left j buf)
unfolding prep_loop store
prep_loop-SameBehind n buf8 zero j buf h a l = refl
prep_loop-SameBehind n buf8 (suc left) j buf h a l =
    prep_loop-SameBehind n buf8 left (j + 1) _ (omega arith) a l ∙ ground arith

boxcar_step-SameBehind :
    (n j j2 : ℕ) (buf : Buffer) → j + 1 < n → j2 < j → SameBehind n buf (boxcar_step j j2 buf)
unfolding boxcar_step store
boxcar_step-SameBehind n j j2 buf h l a out = ground arith

next_cell :
    (ds m t j2 j : ℕ)
    → j2 ≡ 2 * t
    → t < m
    → (t' : ℕ) × ((if (j + 2) % (ds * 2) == 0 then j2 + 2 else j2) ≡ 2 * t') × (t' < m + 1)
next_cell ds m t j2 j e l = elim (Bool-cases ((j + 2) % (ds * 2) == 0)) [
  | inl full ↦ (t + 1, rw full (omega arith), omega arith)
  | inr more ↦ (t, rw more e, omega arith)
]

pub boxcar_loop-SameBehind :
    (ds h fuel m t j j2 : ℕ) (buf : Buffer)
    → j ≡ 2 * m
    → j2 ≡ 2 * t
    → t < m
    → SameBehind (2 * h) buf (boxcar_loop ds (2 * h) fuel j j2 buf)
unfolding boxcar_loop
boxcar_loop-SameBehind ds h zero m t j j2 buf e f l a out = refl
boxcar_loop-SameBehind ds h (suc fuel) m t j j2 buf e f l a out =
    elim (Bool-cases (ltb j (2 * h))) [
      | inl on ↦
          let (t', e', l') = next_cell ds m t j2 j f l in
          let inside : j + 1 < 2 * h = below (ground (arith, on)) in
          rw on (
            boxcar_loop-SameBehind ds h fuel (m + 1) t' (j + 2) _ _ (omega arith) e' l' a out
            ∙ boxcar_step-SameBehind (2 * h) j j2 buf inside (omega arith) a out)
      | inr end ↦ rw end refl
    ]
  where
    below : j < 2 * h → j + 1 < 2 * h
    below p = omega arith

window_loop-SameBehind :
    (n : ℕ) (coefs : ℕ → ℤ) (offset left j : ℕ) (buf : Buffer)
    → offset + 2 * (j + left) ≤ n
    → SameBehind n buf (window_loop coefs offset left j buf)
unfolding window_loop store
window_loop-SameBehind n coefs offset zero j buf h a out = refl
window_loop-SameBehind n coefs offset (suc left) j buf h a out =
    window_loop-SameBehind n coefs offset left (j + 1) _ (omega arith) a out ∙ ground arith

fix_fft-SameBehind :
    (n : ℕ) (w : Wave) (offset e : ℕ) (buf : Buffer)
    → offset + 2 * 2 ^ e ≤ n
    → SameBehind n buf (or_same buf (fix_fft w offset e buf))
fix_fft-SameBehind n w offset e buf h a out = elim (dec_le (2 ^ e) w.n_wave) [
  | yes fits ↦
      let (new, run, same) = fix_fft-SameOutside w offset e buf fits in
      ap (λ o. or_same buf o a) run ∙ same a (inr (omega arith))
  | no too_long ↦ ap (λ o. or_same buf o a) (fix_fft-too_long w offset e buf (omega arith))
]

pub frame_buffer-SameBehind :
    (n : ℕ) (s : Settings) (e offset : ℕ) (buf : Buffer)
    → offset + 2 * 2 ^ e ≤ n
    → SameBehind n buf (frame_buffer s e offset buf)
unfolding frame_buffer
frame_buffer-SameBehind n s e offset buf h a out =
    fix_fft-SameBehind n s.wave offset e (window_loop s.window_coefs offset (2 ^ e) 0 buf) h a out
    ∙ window_loop-SameBehind n s.window_coefs offset (2 ^ e) 0 buf (omega arith) a out

pub power_loop-SameBehind :
    (n : ℕ) (peak_hold : Bool) (offset : ℕ) (buf : Buffer) (left j : ℕ) (avg : Cells)
    → j + left ≤ n
    → SameBehind n avg (power_loop peak_hold offset buf left j avg)
unfolding power_loop put
power_loop-SameBehind n peak_hold offset buf zero j avg h a out = refl
power_loop-SameBehind n peak_hold offset buf (suc left) j avg h a out =
    power_loop-SameBehind n peak_hold offset buf left (j + 1) _ (omega arith) a out ∙ ground arith
