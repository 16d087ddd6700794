-- ===== src/Power/Fft/Bounds.antt =====
-- `fix_fft` writes to its `2 * 2 ^ m` cells alone.
use android_rtlpower.Base.{
  ℕ, zero, suc, ◌+◌, ◌-◌, ◌*◌, ◌/◌, ◌^◌, ◌≤◌, ◌<◌, ◌≡◌, ◌⊎◌, inl, inr, refl, ap, ◌∙◌, Bool, true,
  false, none, some, arith, ltb, lt→ltb, ltb-false, dec_lt, if◌then◌else◌,
}
use native.Mathlib.Numerals.{add-one}
use native.Mathlib.Nat.{pow-suc, mul-le-mul_right, suc-mul, mul-one}
use android_rtlpower.Base.Int.{ℤ, pos, ◌-ℤ◌, shr, to_int16}
use android_rtlpower.Base.Powers.{pow_positive}
use android_rtlpower.Power.Buffer.{Buffer, store}
use android_rtlpower.Power.Fft.{
  Wave, swap, reorder_loop, butterfly, inner_loop, middle_loop, outer_loop, fix_fft,
}
use android_rtlpower.Power.Fft.Reversal.{rev, rev-zero, rev-lt, next_mr-rev}

-- The two buffers are the same in every cell but the `2 * n` from `iq` on.
abbrev pub SameOutside : (iq n : ℕ) → Buffer → Buffer → Type 0
SameOutside iq n old new = (a : ℕ) → (a < iq) ⊎ (iq + 2 * n ≤ a) → new a ≡ old a

suc_le : (t q : ℕ) → t < q → suc t ≤ q
suc_le t q h = omega arith

le_if : (t q : ℕ) → ¬ (t < q) → q ≤ t
le_if t q h = omega arith

module _ (iq n : ℕ) where
  if-SameOutside :
      (b : Bool) (old x y : Buffer)
      → (b ≡ true → SameOutside iq n old x)
      → SameOutside iq n old y
      → SameOutside iq n old (if b then x else y)
  if-SameOutside true old x y f g = f refl
  if-SameOutside false old x y f g = g

  butterfly-SameOutside :
      (wr wi : ℤ) (i l : ℕ) (buf : Buffer)
      → i + l < n
      → SameOutside iq n buf (butterfly iq wr wi i l buf)
  unfolding butterfly store
  butterfly-SameOutside wr wi i l buf h a (inl below) = ground arith
  butterfly-SameOutside wr wi i l buf h a (inr above) = ground arith

  swap-SameOutside :
      (m r : ℕ) (buf : Buffer)
      → m < n
      → r < n
      → SameOutside iq n buf
          (swap (swap buf (iq + 2 * m) (iq + 2 * r)) (iq + (2 * m + 1)) (iq + (2 * r + 1)))
  unfolding swap store
  swap-SameOutside m r buf h k a (inl below) = ground arith
  swap-SameOutside m r buf h k a (inr above) = ground arith

  then_same : (a b c : Buffer) → SameOutside iq n a b → SameOutside iq n b c → SameOutside iq n a c
  then_same a b c f g x out = g x out ∙ f x out

  same_self : (a : Buffer) → SameOutside iq n a a
  same_self a x out = refl

  partner_below :
      (l q m t : ℕ) → n ≡ q * (2 * l) → m < l → t * (2 * l) + m < n → t * (2 * l) + m + l < n
  partner_below l q m t e h i = elim (dec_lt t q) [
    | yes more ↦ omega (arith, e, mul-le-mul_right (2 * l) (suc_le t q more), suc-mul t (2 * l))
    | no over ↦ absurd (omega (arith, e, mul-le-mul_right (2 * l) (le_if t q over)))
  ]

  -- the rounds `t` on, of the `q` in which `i` is `2 * l * t + m`
  inner_loop-SameOutside :
      (l q m : ℕ) (wr wi : ℤ) (fuel t : ℕ) (buf : Buffer)
      → n ≡ q * (2 * l)
      → m < l
      → SameOutside iq n buf (inner_loop iq n l wr wi fuel (t * (2 * l) + m) buf)
  unfolding inner_loop
  inner_loop-SameOutside l q m wr wi zero t buf e h = same_self buf
  inner_loop-SameOutside l q m wr wi (suc fuel) t buf e h =
      let i = t * (2 * l) + m in
      let done = butterfly iq wr wi i l buf in
      let further : suc t * (2 * l) + m ≡ i + 2 * l = omega (arith, suc-mul t (2 * l)) in
      if-SameOutside (ltb i n) buf (inner_loop iq n l wr wi fuel (i + 2 * l) done) buf
        (λ on.
          then_same buf done (inner_loop iq n l wr wi fuel (i + 2 * l) done)
            (butterfly-SameOutside wr wi i l buf (partner_below l q m t e h (ground (arith, on))))
            (rw further at (inner_loop-SameOutside l q m wr wi fuel (suc t) done e h)))
        (same_self buf)

  middle_loop-SameOutside :
      (w : Wave) (l q k left m : ℕ) (buf : Buffer)
      → n ≡ q * (2 * l)
      → m + left ≡ l
      → SameOutside iq n buf (middle_loop w iq n l k left m buf)
  unfolding middle_loop
  middle_loop-SameOutside w l q k zero m buf e h = same_self buf
  middle_loop-SameOutside w l q k (suc left) m buf e h =
      let wr = shr (w.sinewave (m * 2 ^ k + w.n_wave / 4)) 1 in
      let wi = shr (to_int16 (pos 0 -ℤ w.sinewave (m * 2 ^ k))) 1 in
      let done = inner_loop iq n l wr wi n m buf in
      let start : 0 * (2 * l) + m ≡ m = omega arith in
      then_same buf done (middle_loop w iq n l k left (m + 1) done)
        (rw start at (inner_loop-SameOutside l q m wr wi n 0 buf e (omega arith)))
        (middle_loop-SameOutside w l q k left (m + 1) done e (omega arith))

  halves : (l e : ℕ) → n ≡ l * 2 ^ suc e → (n ≡ 2 ^ e * (2 * l)) × (n ≡ 2 * l * 2 ^ e)
  halves l e h =
      let twice : n ≡ l * (2 ^ e * 2) = h ∙ ap (λ p. l * p) (pow-suc 2 e) in
      (grind (arith, twice), grind (arith, twice))

  outer_loop-SameOutside :
      (w : Wave) (fuel l k e : ℕ) (buf : Buffer)
      → n ≡ l * 2 ^ e
      → SameOutside iq n buf (outer_loop w iq n fuel l k buf)
  unfolding outer_loop
  outer_loop-SameOutside w zero l k e buf h = same_self buf
  outer_loop-SameOutside w (suc fuel) l k zero buf h =
      let same : n ≡ l = h ∙ mul-one l in
      let next = outer_loop w iq n fuel (2 * l) (k - 1) (middle_loop w iq n l k l 0 buf) in
      if-SameOutside (ltb l n) buf next buf (λ on. absurd (ground (arith, on, same)))
        (same_self buf)
  outer_loop-SameOutside w (suc fuel) l k (suc e) buf h =
      let (inside, doubled) = halves l e h in
      let done = middle_loop w iq n l k l 0 buf in
      let next = outer_loop w iq n fuel (2 * l) (k - 1) done in
      if-SameOutside (ltb l n) buf next buf
        (λ on.
          then_same buf done next
            (middle_loop-SameOutside w l (2 ^ e) k l 0 buf inside (omega arith))
            (outer_loop-SameOutside w fuel (2 * l) (k - 1) e done doubled))
        (same_self buf)

module _ (iq k : ℕ) where
  reorder_loop-SameOutside :
      (left p : ℕ) (buf : Buffer)
      → suc p + left ≡ 2 ^ k
      → SameOutside iq (2 ^ k) buf (reorder_loop iq (2 ^ k) left (suc p) (rev k p) buf)
  unfolding reorder_loop
  reorder_loop-SameOutside zero p buf e = same_self iq (2 ^ k) buf
  reorder_loop-SameOutside (suc left) p buf e =
      let m = suc p in
      let r = rev k m in
      let swapped =
        swap (swap buf (iq + 2 * m) (iq + 2 * r)) (iq + (2 * m + 1)) (iq + (2 * r + 1)) in
      let done = if ltb m r then swapped else buf in
      let first : SameOutside iq (2 ^ k) buf done =
        if-SameOutside iq (2 ^ k) (ltb m r) buf swapped buf
          (λ on. swap-SameOutside iq (2 ^ k) m r buf (omega arith) (rev-lt k m))
          (same_self iq (2 ^ k) buf) in
      rw (next_mr-rev k p (omega arith), add-one m)
        (then_same iq (2 ^ k) buf done (reorder_loop iq (2 ^ k) left (suc m) r done) first
          (reorder_loop-SameOutside left m done (omega arith)))

pub fix_fft-too_long :
    (w : Wave) (iq m : ℕ) (buf : Buffer) → w.n_wave < 2 ^ m → fix_fft w iq m buf ≡ none
unfolding fix_fft
fix_fft-too_long w iq m buf h = rw (lt→ltb w.n_wave (2 ^ m) h) refl

-- `fix_fft` on `2 ^ m` samples, which the tables are long enough for, succeeds and changes no cell
-- of the buffer but those of its samples, before or behind them.
pub fix_fft-SameOutside :
    (w : Wave) (iq m : ℕ) (buf : Buffer)
    → 2 ^ m ≤ w.n_wave
    → (new : Buffer) × (fix_fft w iq m buf ≡ some new) × SameOutside iq (2 ^ m) buf new
unfolding fix_fft
fix_fft-SameOutside w iq m buf h =
    let ordered = reorder_loop iq (2 ^ m) (2 ^ m - 1) 1 0 buf in
    let new = outer_loop w iq (2 ^ m) m 1 (w.log2_n_wave - 1) ordered in
    let start : SameOutside iq (2 ^ m) buf ordered =
      rw (rev-zero m) at
        (reorder_loop-SameOutside iq m (2 ^ m - 1) 0 buf (omega (arith, pow_positive m))) in
    (
      new,
      rw (ltb-false w.n_wave (2 ^ m) h) refl,
      then_same iq (2 ^ m) buf ordered new start
          (outer_loop-SameOutside iq (2 ^ m) w m 1 (w.log2_n_wave - 1) m ordered (omega arith)),
    )
