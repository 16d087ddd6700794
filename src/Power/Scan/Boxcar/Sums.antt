-- ===== src/Power/Scan/Boxcar/Sums.antt =====
-- The loop of `scanner` for `boxcar` adds up neighbouring samples in place.
use android_rtlpower.Base.{
  ℕ, zero, suc, ◌+◌, ◌-◌, ◌*◌, ◌%◌, ◌≤◌, ◌<◌, ◌≡◌, ◌≢◌, refl, sym, ap, ◌∙◌, arith, ◌==◌, ltb,
  lt→ltb, ltb-false, dec_lt, if◌then◌else◌, inl, inr, true, false, Bool-cases,
}
use native.Mathlib.Nat.{
  mul_assoc, suc-mul, mul-add-mod_self_right, mod_self, mod-eq_of_lt, mul-le-mul_right,
  le-mul_of_pos_right,
}
use android_rtlpower.Base.Int.{pos, ◌+ℤ◌, to_int16}
use android_rtlpower.Power.Buffer.{Buffer}
use android_rtlpower.Power.Scan.{boxcar_step, boxcar_loop}
use android_rtlpower.Power.Scan.Boxcar.{
  wrap_add, sum_samples, no_sample, step_cell, count_added, next_t, next_r, count_elsewhere,
  count_here, count_same, count_below, positive, at_least_if, count_beyond, zero_plus,
}

module _ (ds : ℕ) (orig : Buffer) (two : 2 ≤ ds) (kept : (a : ℕ) → to_int16 (orig a) ≡ orig a) where
  -- before the sample `m` is added: the sums below it are those of the samples so far
  abbrev Summed : (m t r : ℕ) → Buffer → Type 0
  Summed m t r buf =
      (a c : ℕ)
      → c < 2
      → buf (2 * a + c) ≡ (
          if ltb a m
          then to_int16 (sum_samples orig c (a * ds) (count_added ds t r a))
          else orig (2 * a + c))

  Summed-first : Summed 1 0 1 orig
  unfolding count_added sum_samples
  Summed-first zero c l =
      let here : 2 * (0 * ds + 0) + c ≡ c = omega arith in
      let start : 2 * 0 + c ≡ c = omega arith in
      ap orig start
      ∙ sym (kept c)
      ∙ ap to_int16 (sym (zero_plus (orig c)) ∙ ap (λ k. pos 0 +ℤ orig k) (sym here))
  Summed-first (suc a) c l = ground arith

  module _ (m t r : ℕ) (buf : Buffer) (e : m ≡ t * ds + r) (h : t < m) (is : Summed m t r buf)
      (c : ℕ) (l : c < 2) where
    sum_here :
        boxcar_step (2 * m) (2 * t) buf (2 * t + c) ≡ to_int16 (sum_samples orig c (t * ds) (suc r))
    unfolding sum_samples
    sum_here =
        let sum = sum_samples orig c (t * ds) in
        let so_far : buf (2 * t + c) ≡ to_int16 (sum r) =
          ground (arith, is t c l, count_same ds t r) in
        let new : buf (2 * m + c) ≡ orig (2 * (t * ds + r) + c) = ground (arith, is m c l, e) in
        let step : boxcar_step (2 * m) (2 * t) buf (2 * t + c)
            ≡ to_int16 (buf (2 * t + c) +ℤ buf (2 * m + c)) =
          ground (arith, step_cell m t t c buf h l) in
        step ∙ rw (so_far, new) (wrap_add (sum r) (orig (2 * (t * ds + r) + c)))

    sum_cleared :
        boxcar_step (2 * m) (2 * t) buf (2 * m + c)
        ≡ to_int16 (sum_samples orig c (m * ds) (count_added ds (next_t ds t r) (next_r ds r) m))
    unfolding sum_samples
    sum_cleared =
        rw (count_elsewhere ds t r m (omega arith), count_beyond ds t r m h, no_sample)
          (ground (arith, step_cell m t m c buf h l))

    sum_elsewhere :
        (a : ℕ)
        → a ≢ t
        → a ≢ m
        → boxcar_step (2 * m) (2 * t) buf (2 * a + c) ≡ (
            if ltb a (suc m)
            then to_int16
                (sum_samples orig c (a * ds) (count_added ds (next_t ds t r) (next_r ds r) a))
            else orig (2 * a + c))
    sum_elsewhere a not_t not_m =
        rw (count_elsewhere ds t r a not_t)
          (ground (arith, step_cell m t a c buf h l, is a c l, not_t, not_m))

  Summed-suc :
      (m t r : ℕ) (buf : Buffer)
      → m ≡ t * ds + r
      → t < m
      → Summed m t r buf
      → Summed (suc m) (next_t ds t r) (next_r ds r) (boxcar_step (2 * m) (2 * t) buf)
  Summed-suc m t r buf e h is a c l = elim (Bool-cases (a == t)) [
    | inl hit ↦
        let here : a ≡ t = ground (arith, hit) in
        rw (here, lt→ltb t (suc m) (omega arith), count_here ds t r) (sum_here m t r buf e h is c l)
    | inr miss ↦ elim (Bool-cases (a == m)) [
      | inl at_m ↦
          let here : a ≡ m = ground (arith, at_m) in
          rw (here, lt→ltb m (suc m) (omega arith)) (sum_cleared m t r buf e h is c l)
      | inr neither ↦
          sum_elsewhere m t r buf e h is c l a (ground (arith, miss)) (ground (arith, neither))
    ]
  ]

  remainder : (m t r : ℕ) → m ≡ t * ds + r → (2 * m + 2) % (ds * 2) ≡ 2 * suc r % (ds * 2)
  remainder m t r e =
      let split : 2 * m + 2 ≡ t * (ds * 2) + 2 * suc r = omega (arith, e, mul_assoc t ds 2) in
      rw split (mul-add-mod_self_right t (ds * 2) (2 * suc r))

  -- where the loop writes after the sample `m`
  next_place :
      (m t r : ℕ)
      → m ≡ t * ds + r
      → r < ds
      → (if (2 * m + 2) % (ds * 2) == 0 then 2 * t + 2 else 2 * t) ≡ 2 * next_t ds t r
  next_place m t r e h = elim (Bool-cases (suc r == ds)) [
    | inl full ↦
        let whole : 2 * suc r ≡ ds * 2 = ground (arith, full) in
        rw (full, remainder m t r e, whole, mod_self (ds * 2)) (omega arith)
    | inr part ↦
        let below : 2 * suc r < ds * 2 = ground (arith, part, h) in
        rw (part, remainder m t r e, mod-eq_of_lt below) (ground arith)
  ]

  next_divides : (m t r : ℕ) → m ≡ t * ds + r → suc m ≡ next_t ds t r * ds + next_r ds r
  next_divides m t r e = elim (Bool-cases (suc r == ds)) [
    | inl full ↦ rw (full, suc-mul t ds) (ground (arith, full, e))
    | inr part ↦ rw part (omega (arith, e))
  ]

  next_below : (m t r : ℕ) → t < m → r < ds → (next_t ds t r < suc m) × (next_r ds r < ds)
  next_below m t r h rl = ground (arith, h, rl, two)

  module _ (n : ℕ) where
    stays :
        (fuel m place : ℕ) (buf : Buffer)
        → m ≡ n
        → boxcar_loop ds (2 * n) fuel (2 * m) place buf ≡ buf
    unfolding boxcar_loop
    stays zero m place buf e = refl
    stays (suc fuel) m place buf e =
        let off : ltb (2 * m) (2 * n) ≡ false = ltb-false (2 * m) (2 * n) (omega (arith, e)) in
        rw off refl

    goes_on :
        (fuel m t r : ℕ) (buf : Buffer)
        → m < n
        → m ≡ t * ds + r
        → r < ds
        → boxcar_loop ds (2 * n) (suc fuel) (2 * m) (2 * t) buf
          ≡ boxcar_loop ds
              (2 * n)
              fuel
              (2 * suc m)
              (2 * next_t ds t r)
              (boxcar_step (2 * m) (2 * t) buf)
    unfolding boxcar_loop
    goes_on fuel m t r buf h e rl =
        let on : ltb (2 * m) (2 * n) ≡ true = lt→ltb (2 * m) (2 * n) (omega arith) in
        let further : 2 * suc m ≡ 2 * m + 2 = omega arith in
        rw (on, further, next_place m t r e rl) refl

    boxcar_loop-Summed :
        (left fuel m t r : ℕ) (buf : Buffer)
        → m + left ≡ n
        → left ≤ fuel
        → m ≡ t * ds + r
        → r < ds
        → t < m
        → Summed m t r buf
        → (t' r' : ℕ) × (n ≡ t' * ds + r')
          × (r' < ds)
          × Summed n t' r' (boxcar_loop ds (2 * n) fuel (2 * m) (2 * t) buf)
    boxcar_loop-Summed zero fuel m t r buf all f e rl h is =
        let last : m ≡ n = omega arith in
        (t, r, sym last ∙ e, rl, rw (stays fuel m (2 * t) buf last) (rw last at is))
    boxcar_loop-Summed (suc left) zero m t r buf all f e rl h is = absurd (omega arith)
    boxcar_loop-Summed (suc left) (suc fuel) m t r buf all f e rl h is =
        let (h', rl') = next_below m t r h rl in
        rw (goes_on fuel m t r buf (omega arith) e rl) (
          boxcar_loop-Summed left fuel (suc m) (next_t ds t r) (next_r ds r)
            (boxcar_step (2 * m) (2 * t) buf) (omega arith) (omega arith) (next_divides m t r e) rl'
            h' (Summed-suc m t r buf e h is))

  below_lem : (n t r a : ℕ) → n ≡ t * ds + r → r < ds → a * ds + ds ≤ n → a < t
  below_lem n t r a e rl h = elim (dec_lt a t) [
    | yes below ↦ below
    | no above ↦ absurd (omega (arith, e, mul-le-mul_right ds (at_least_if t a above)))
  ]

  -- For boxcar downsampling by at least 2, on `n` complex samples that are `int16_t`, the loop of
  -- `scanner` leaves in place `a`, if the samples from `a * ds` on are `ds` or more, the sum of those
  -- `ds` samples as an `int16_t`, real and imaginary parts apart, although it adds in place.
  pub boxcar_loop-sum_samples :
      (n a c : ℕ)
      → a * ds + ds ≤ n
      → c < 2
      → boxcar_loop ds (2 * n) (2 * n) 2 0 orig (2 * a + c)
        ≡ to_int16 (sum_samples orig c (a * ds) ds)
  boxcar_loop-sum_samples n a c h l =
      let (t, r, e, rl, is) =
        boxcar_loop-Summed n (n - 1) (2 * n) 1 0 1 orig (omega arith) (omega arith) (omega arith)
          (omega arith) (omega arith) Summed-first in
      let below : a < t = below_lem n t r a e rl h in
      let inside : a < n = omega (arith, le-mul_of_pos_right a (positive ds two)) in
      is a c l ∙ rw (lt→ltb a n inside, count_below ds t r a below) refl
