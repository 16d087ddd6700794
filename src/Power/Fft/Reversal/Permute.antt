-- ===== src/Power/Fft/Reversal/Permute.antt =====
-- The first loop of `fix_fft` puts each sample to the place with its bits reversed.
use android_rtlpower.Base.{
  ℕ, zero, suc, ◌+◌, ◌-◌, ◌*◌, ◌^◌, ◌<◌, ◌≡◌, ◌∙◌, ◌||◌, arith, ltb, ◌==◌, lt→ltb, ltb-false,
  dec_lt, if◌then◌else◌,
}
use native.Mathlib.Numerals.{add-one}
use android_rtlpower.Base.Int.{to_int16}
use android_rtlpower.Base.Powers.{pow_positive}
use android_rtlpower.Power.Buffer.{Buffer, store}
use android_rtlpower.Power.Fft.{swap, reorder_loop}
use android_rtlpower.Power.Fft.Reversal.{rev, rev-zero, rev-lt, rev-rev, next_mr-rev}

-- the real or imaginary part, `c` being 0 or 1, of sample `i`
abbrev pub cell : (iq i c : ℕ) → ℕ
cell iq i c = iq + (2 * i + c)

abbrev swap_samples : (iq m r : ℕ) → Buffer → Buffer
swap_samples iq m r buf =
    swap (swap buf (iq + 2 * m) (iq + 2 * r)) (iq + (2 * m + 1)) (iq + (2 * r + 1))

swap_samples-cell :
    (iq m r : ℕ) (buf : Buffer) (i c : ℕ)
    → m < r
    → c < 2
    → swap_samples iq m r buf (cell iq i c) ≡ (
        if i == r
        then to_int16 (buf (cell iq m c))
        else if i == m
        then to_int16 (buf (cell iq r c))
        else buf (cell iq i c))
unfolding swap store
swap_samples-cell iq m r buf i zero h hc = ground arith
swap_samples-cell iq m r buf i (suc zero) h hc = ground arith
swap_samples-cell iq m r buf i (suc (suc c)) h hc = absurd (omega arith)

module _ (iq k : ℕ) (orig : Buffer) (kept : (a : ℕ) → to_int16 (orig a) ≡ orig a) where
  -- the samples that are in place once `m` has passed `p`
  abbrev Placed : ℕ → Buffer → Type 0
  Placed p buf =
      (i c : ℕ)
      → i < 2 ^ k
      → c < 2
      → buf (cell iq i c) ≡ (
          if ltb i (suc p) || ltb (rev k i) (suc p)
          then orig (cell iq (rev k i) c)
          else orig (cell iq i c))

  Placed-none : Placed 0 orig
  Placed-none i c h hc = ground (arith, rev-zero k, rev-rev k i h)

  abbrev exchanged : (m r : ℕ) → Buffer → Buffer
  exchanged m r buf = if ltb m r then swap_samples iq m r buf else buf

  Placed-suc :
      (p : ℕ) (buf : Buffer)
      → suc p < 2 ^ k
      → Placed p buf
      → Placed (suc p) (exchanged (suc p) (rev k (suc p)) buf)
  Placed-suc p buf h placed i c hi hc =
      let r = rev k (suc p) in
      let swapped = λ (up : suc p < r). swap_samples-cell iq (suc p) r buf i c up hc in
      let here = placed (suc p) c h hc in
      let there = placed r c (rev-lt k (suc p)) hc in
      let old = placed i c hi hc in
      elim (dec_lt (suc p) r) [
        | yes up ↦ rw (lt→ltb (suc p) r up) (
            swapped up
            ∙ ground (
              arith,
              here,
              there,
              old,
              kept (cell iq (suc p) c),
              kept (cell iq r c),
              rev-rev k (suc p) h,
              rev-rev k i hi,
            ))
        | no down ↦
            rw (ltb-false (suc p) r (omega arith))
              (old ∙ ground (arith, rev-rev k (suc p) h, rev-rev k i hi))
      ]

  reorder_loop-Placed :
      (left p : ℕ) (buf : Buffer)
      → suc p + left ≡ 2 ^ k
      → Placed p buf
      → (i c : ℕ) → i < 2 ^ k
      → c < 2
      → reorder_loop iq (2 ^ k) left (suc p) (rev k p) buf (cell iq i c)
        ≡ orig (cell iq (rev k i) c)
  unfolding reorder_loop
  reorder_loop-Placed zero p buf e placed i c hi hc = placed i c hi hc ∙ ground (arith, e)
  reorder_loop-Placed (suc left) p buf e placed i c hi hc =
      rw (next_mr-rev k p (omega arith), add-one (suc p))
        (reorder_loop-Placed left (suc p) (exchanged (suc p) (rev k (suc p)) buf) (omega arith)
          (Placed-suc p buf (omega arith) placed) i c hi hc)

  -- For `n = 2 ^ k` samples that are `int16_t`, the reordering at the start of `fix_fft` moves to
  -- each place, real and imaginary part, the sample whose index has the `k` bits reversed: it is
  -- the bit reversal, although the loop exchanges samples in place.
  pub reorder_loop-rev :
      (i c : ℕ)
      → i < 2 ^ k
      → c < 2
      → reorder_loop iq (2 ^ k) (2 ^ k - 1) 1 0 orig (cell iq i c) ≡ orig (cell iq (rev k i) c)
  reorder_loop-rev i c hi hc =
      rw (rev-zero k) at (
        reorder_loop-Placed (2 ^ k - 1) 0 orig (omega (arith, pow_positive k)) Placed-none i c hi
          hc)
