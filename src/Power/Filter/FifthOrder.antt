-- ===== src/Power/Filter/FifthOrder.antt =====
-- `fifth_order` works in place and yet computes each output from the samples as they were.
use android_rtlpower.Base.{
  ℕ, zero, suc, ◌+◌, ◌-◌, ◌*◌, ◌/◌, ◌≤◌, ◌<◌, ◌≡◌, refl, ap, ◌∙◌, inl, inr, arith, Bool-cases, ltb,
  lt→ltb, dec_lt,
}
use mathlib.Core.Path.{ap₂}
use android_rtlpower.Base.Int.{ℤ, to_int16}
use android_rtlpower.Power.Buffer.{Buffer, store, store_at, store_other}
use android_rtlpower.Power.Filter.{fifth_tap, fifth_loop, fifth_order}

-- six samples in a row, the last one at `start + i`
abbrev pub window : Buffer → ℕ → ℕ → ℤ
window buf start i =
    fifth_tap (buf (start + (i - 10))) (buf (start + (i - 8))) (buf (start + (i - 6)))
      (buf (start + (i - 4))) (buf (start + (i - 2))) (buf (start + i))

module _ (start length : ℕ) where
  -- The loop from `i` on writes no cell below `start + i / 2`.
  fifth_loop_below :
      (fuel i : ℕ) (c d e f : ℤ) (buf : Buffer) (a : ℕ)
      → a < start + i / 2
      → fifth_loop start length fuel i c d e f buf a ≡ buf a
  unfolding fifth_loop
  fifth_loop_below zero i c d e f buf a h = refl
  fifth_loop_below (suc fuel) i c d e f buf a h = elim (Bool-cases (ltb i length)) [
    | inl t ↦ rw t (
        fifth_loop_below fuel (i + 4) e f _ _ _ a (omega arith)
        ∙ store_other buf (start + i / 2) a _ (omega arith))
    | inr t ↦ rw t
  ]

  -- In the steady state each round has the four samples before `i - 2`, and the cells from `i - 2`
  -- on are still as they were in `orig`.
  fifth_loop-window :
      (orig : Buffer) (fuel i k : ℕ) (c d e f : ℤ) (buf : Buffer) (m : ℕ)
      → i ≡ 4 * k
      → 5 ≤ k
      → c ≡ orig (start + (i - 10))
      → d ≡ orig (start + (i - 8))
      → e ≡ orig (start + (i - 6))
      → f ≡ orig (start + (i - 4))
      → ((j : ℕ) → i ≤ j + 2 → buf (start + j) ≡ orig (start + j))
      → k ≤ m
      → 4 * m < length
      → length ≤ 4 * (fuel + k)
      → fifth_loop start length fuel i c d e f buf (start + 2 * m)
        ≡ to_int16 (window orig start (4 * m))
  unfolding fifth_loop
  fifth_loop-window orig zero i k c d e f buf m ik k5 ec ed ee ef same km ml fuel =
      absurd (omega arith)
  fifth_loop-window orig (suc fuel) i k c d e f buf m ik k5 ec ed ee ef same km ml enough =
      rw (lt→ltb i length (omega arith)) (elim (dec_lt k m) [
        | yes later ↦
            fifth_loop-window orig fuel (i + 4) (k + 1) e f _ _ _ m (omega arith) (omega arith)
              (ee ∙ at (i - 6) (omega arith)) (ef ∙ at (i - 4) (omega arith))
              (same (i - 2) (omega arith) ∙ at (i - 2) (omega arith))
              (same i (omega arith) ∙ at i (omega arith))
              (λ j h.
                store_other buf (start + i / 2) (start + j) _ (omega arith) ∙ same j (omega arith))
              (omega arith) ml (omega arith)
        | no now ↦
            let im : i ≡ 4 * m = omega arith in
            fifth_loop_below fuel (i + 4) e f _ _ _ (start + 2 * m) (omega arith)
            ∙ store_at buf (start + i / 2) (start + 2 * m) _ (omega arith)
            ∙ cc (same (i - 2) (omega arith), same i (omega arith))
      ])
    where
      at : (j : ℕ) {l : ℕ} → j ≡ l → orig (start + j) ≡ orig (start + l)
      at j e = ap (λ n. orig (start + n)) e

-- The first five outputs leave the cells from the tenth on as they were.
module _ (start : ℕ) (buf : Buffer) (j : ℕ) (h : 10 ≤ j) where
  after_three :
      (u v w : ℤ)
      → store (store (store buf (start + 0) u) (start + 2) v) (start + 4) w (start + j)
        ≡ buf (start + j)
  after_three u v w =
      store_other _ (start + 4) (start + j) w (omega arith)
      ∙ store_other _ (start + 2) (start + j) v (omega arith)
      ∙ store_other _ (start + 0) (start + j) u (omega arith)

  after_four :
      (u v w x : ℤ)
      → store
          (store (store (store buf (start + 0) u) (start + 2) v) (start + 4) w)
          (start + 12 / 2)
          x
          (start + j)
        ≡ buf (start + j)
  after_four u v w x =
      store_other _ (start + 12 / 2) (start + j) x (omega arith) ∙ after_three u v w

  after_five :
      (u v w x y : ℤ)
      → store
          (store
            (store (store (store buf (start + 0) u) (start + 2) v) (start + 4) w)
            (start + 12 / 2)
            x)
          (start + (12 + 4) / 2)
          y
          (start + j)
        ≡ buf (start + j)
  after_five u v w x y =
      store_other _ (start + (12 + 4) / 2) (start + j) y (omega arith) ∙ after_four u v w x

-- `fifth_order` as a filter: from output 5 on, the first output being output 0, each one is the weighted sum of the six
-- samples up to the one of twice its index, all as they were before the call, although the outputs
-- overwrite the inputs.
pub fifth_order-window :
    (start length : ℕ) (buf : Buffer) (m : ℕ)
    → 5 ≤ m
    → 4 * m < length
    → fifth_order start length buf (start + 2 * m) ≡ to_int16 (window buf start (4 * m))
unfolding fifth_order fifth_loop
fifth_order-window start zero buf m h l = absurd (omega arith)
fifth_order-window start (suc zero) buf m h l = absurd (omega arith)
fifth_order-window start (suc (suc n)) buf m h l =
    rw (lt→ltb 12 (suc (suc n)) (omega arith), lt→ltb (12 + 4) (suc (suc n)) (omega arith))
      (fifth_loop-window start (suc (suc n)) buf n 20 5 _ _ _ _ _ m refl (omega arith)
        (after_three start buf 10 (omega arith) _ _ _)
        (after_three start buf 12 (omega arith) _ _ _)
        (after_four start buf 14 (omega arith) _ _ _ _)
        (after_four start buf 16 (omega arith) _ _ _ _)
        (λ j p. after_five start buf j (omega arith) _ _ _ _ _) h l (omega arith))

-- Between the first outputs and the steady state the window slips: the fourth output counts the
-- sixth sample twice, where six samples in a row would end one further on.
pub fifth_order-slip :
    (start length : ℕ) (buf : Buffer)
    → 12 < length
    → fifth_order start length buf (start + 6)
      ≡ to_int16 (
          fifth_tap
            (buf (start + 4))
            (buf (start + 6))
            (buf (start + 8))
            (buf (start + 10))
            (buf (start + 10))
            (buf (start + 12)))
unfolding fifth_order fifth_loop
fifth_order-slip start zero buf h = absurd (omega arith)
fifth_order-slip start (suc n) buf h = rw (lt→ltb 12 (suc n) h) (
    fifth_loop_below start (suc n) n (12 + 4) _ _ _ _ _ (start + 6) (omega arith)
    ∙ store_at _ (start + 12 / 2) (start + 6) _ (omega arith)
    ∙ ap₂
        (λ (e f : ℤ).
          to_int16 (
            fifth_tap (buf (start + 4)) (buf (start + 6)) (buf (start + 8)) (buf (start + 10)) e f))
        (after_three start buf 10 (omega arith) _ _ _)
        (after_three start buf 12 (omega arith) _ _ _))
