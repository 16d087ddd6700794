-- ===== src/Power/Fft/Table.antt =====
-- `fix_fft` reads the sine table inside the `N_WAVE*3/4` entries that `sine_table` allocates.
use android_rtlpower.Base.{
  ℕ, zero, suc, ◌+◌, ◌-◌, ◌*◌, ◌/◌, ◌^◌, ◌≤◌, ◌<◌, ◌≡◌, refl, sym, ap, ◌∙◌, true, false, some,
  arith, ltb, inl, inr, Bool-cases, ltb-false, if-true, none, ◌⊎◌, if◌then◌else◌,
}
use mathlib.Core.Path.{ap₂}
use native.Mathlib.Nat.{pow-suc, mul-le-mul_right}
use android_rtlpower.Base.Int.{pos, ◌-ℤ◌, shr, to_int16}
use android_rtlpower.Base.Powers.{pow_positive}
use android_rtlpower.Power.Buffer.{Buffer}
use android_rtlpower.Power.Fft.{Wave, inner_loop, middle_loop, outer_loop, reorder_loop, fix_fft}

-- Two tables of the same size have the same entries.
pub record SameTable (w v : Wave) : Type 0 where
  pub same_log : v.log2_n_wave ≡ w.log2_n_wave
  pub same_size : v.n_wave ≡ w.n_wave
  pub same_entries : (j : ℕ) → j < 3 * w.n_wave / 4 → v.sinewave j ≡ w.sinewave j

-- the indices of round `m`, where the `l` rounds span half of the wave
in_table :
    (n l p m : ℕ)
    → 2 * (l * p) ≡ n
    → m < l
    → 0 < p
    → (m * p < 3 * n / 4) × (m * p + n / 4 < 3 * n / 4)
in_table n l p m e h pp =
    let below : suc m * p ≤ l * p = mul-le-mul_right p h in
    let next : suc m * p ≡ m * p + p = grind arith in (omega arith, omega arith)

halved : (l k s : ℕ) → 2 * (l * 2 ^ suc k) ≡ s → 2 * (2 * l * 2 ^ (suc k - 1)) ≡ s
halved l k s e = let back : suc k - 1 ≡ k = omega arith in rw back (grind (arith, e, pow-suc 2 k))

module _ (w v : Wave) (same : SameTable w v) (iq n : ℕ) where
  middle_loop-same :
      (l k left m : ℕ) (buf : Buffer)
      → 2 * (l * 2 ^ k) ≡ w.n_wave
      → m + left ≤ l
      → middle_loop v iq n l k left m buf ≡ middle_loop w iq n l k left m buf
  unfolding middle_loop
  middle_loop-same l k zero m buf e h = refl
  middle_loop-same l k (suc left) m buf e h =
      let (wi, wr) = in_table w.n_wave l (2 ^ k) m e (omega arith) (pow_positive k) in
      let cosine : v.sinewave (m * 2 ^ k + v.n_wave / 4) ≡ w.sinewave (m * 2 ^ k + w.n_wave / 4) =
        ap (λ s. v.sinewave (m * 2 ^ k + s / 4)) same.same_size
        ∙ same.same_entries (m * 2 ^ k + w.n_wave / 4) wr in
      ap₂
        (λ c s.
          middle_loop v iq n l k left (m + 1)
            (inner_loop iq n l (shr c 1) (shr (to_int16 (pos 0 -ℤ s)) 1) n m buf))
        cosine (same.same_entries (m * 2 ^ k) wi)
      ∙ middle_loop-same l k left (m + 1) _ e (omega arith)

  outer_done :
      (u : Wave) (fuel l k : ℕ) (buf : Buffer) → n ≤ l → outer_loop u iq n fuel l k buf ≡ buf
  unfolding outer_loop
  outer_done u zero l k buf h = refl
  outer_done u (suc fuel) l k buf h = rw (ltb-false l n h) refl

  outer_loop-same :
      (fuel l k : ℕ) (buf : Buffer)
      → 2 * (l * 2 ^ k) ≡ w.n_wave
      → n ≤ w.n_wave
      → outer_loop v iq n fuel l k buf ≡ outer_loop w iq n fuel l k buf
  unfolding outer_loop
  outer_loop-same zero l k buf e h = refl
  outer_loop-same (suc fuel) l zero buf e h =
      let all : n ≤ 2 * l = omega arith in
      ap₂ (λ x y. if ltb l n then x else y)
        (outer_done v fuel (2 * l) 0 _ all
          ∙ middle_loop-same l 0 l 0 buf e (omega arith)
          ∙ sym (outer_done w fuel (2 * l) 0 _ all))
        refl
  outer_loop-same (suc fuel) l (suc k) buf e h =
      let half : 2 * (2 * l * 2 ^ (suc k - 1)) ≡ w.n_wave = halved l k w.n_wave e in
      ap₂ (λ x y. if ltb l n then x else y)
        (ap (outer_loop v iq n fuel (2 * l) (suc k - 1))
            (middle_loop-same l (suc k) l 0 buf e (omega arith))
          ∙ outer_loop-same fuel (2 * l) (suc k - 1) _ half h)
        refl

  whole-same :
      (t m : ℕ) (buf : Buffer)
      → w.n_wave ≡ 2 ^ t
      → n ≤ w.n_wave
      → outer_loop v iq n m 1 (t - 1) buf ≡ outer_loop w iq n m 1 (t - 1) buf
  whole-same zero m buf size h =
      outer_done v m 1 0 buf (omega arith) ∙ sym (outer_done w m 1 0 buf (omega arith))
  whole-same (suc t) m buf size h = outer_loop-same m 1 (suc t - 1) buf (first_half t size) h
    where
      first_half : (t : ℕ) → w.n_wave ≡ 2 ^ suc t → 2 * (1 * 2 ^ (suc t - 1)) ≡ w.n_wave
      first_half t e =
          let back : suc t - 1 ≡ t = omega arith in rw back (omega (arith, e, pow-suc 2 t))

-- The table is read at entries of the first three quarters alone: with any other values behind them
-- `fix_fft` does the same, for a size that is the power of two that `sine_table` sets.
pub fix_fft-SameTable :
    (w v : Wave) (iq m : ℕ) (buf : Buffer)
    → w.n_wave ≡ 2 ^ w.log2_n_wave
    → SameTable w v
    → fix_fft v iq m buf ≡ fix_fft w iq m buf
unfolding fix_fft
fix_fft-SameTable w v iq m buf size same =
    let n = 2 ^ m in
    let start = reorder_loop iq n (n - 1) 1 0 buf in
    ap₂ (λ s t. if ltb s n then none else some (outer_loop v iq n m 1 (t - 1) start)) same.same_size
      same.same_log
    ∙ within (Bool-cases (ltb w.n_wave n))
  where
    within :
        (ltb w.n_wave (2 ^ m) ≡ true) ⊎ (ltb w.n_wave (2 ^ m) ≡ false)
        → (if ltb w.n_wave (2 ^ m)
            then none
            else some (
                outer_loop v iq
                  (2 ^ m)
                  m
                  1
                  (w.log2_n_wave - 1)
                  (reorder_loop iq (2 ^ m) (2 ^ m - 1) 1 0 buf)))
          ≡ (if ltb w.n_wave (2 ^ m)
              then none
              else some (
                  outer_loop w iq
                    (2 ^ m)
                    m
                    1
                    (w.log2_n_wave - 1)
                    (reorder_loop iq (2 ^ m) (2 ^ m - 1) 1 0 buf)))
    within (inl large) = if-true _ _ large ∙ sym (if-true _ _ large)
    within (inr fits) =
        ap (λ b. if ltb w.n_wave (2 ^ m) then none else some b)
          (whole-same w v same iq (2 ^ m) w.log2_n_wave m _ size (ground (arith, fits)))
