-- ===== src/Power/Filter/Fir.antt =====
-- `generic_fir` works in place and yet computes each output from the samples as they were.
use android_rtlpower.Base.{
  ℕ, zero, suc, ◌+◌, ◌-◌, ◌*◌, ◌≤◌, ◌<◌, ◌≡◌, refl, ap, ◌∙◌, inl, inr, arith, Bool-cases, ltb,
  lt→ltb, dec_lt, if◌then◌else◌,
}
use android_rtlpower.Base.Int.{to_int16}
use android_rtlpower.Power.Buffer.{Buffer, store_at, store_other}
use android_rtlpower.Power.Filter.{Taps, History, history, shift, fir_tap, fir_loop, generic_fir}

module _ (start : ℕ) where
  shift-history :
      (orig : Buffer) (d : ℕ)
      → 18 ≤ d
      → shift (history start (d - 18) orig) (orig (start + d)) ≡ history start (d + 2 - 18) orig
  shift-history orig d h = λ i. record {
    h0 = at (d - 18 + 2) (d + 2 - 18) (omega arith) i;
    h1 = at (d - 18 + 4) (d + 2 - 18 + 2) (omega arith) i;
    h2 = at (d - 18 + 6) (d + 2 - 18 + 4) (omega arith) i;
    h3 = at (d - 18 + 8) (d + 2 - 18 + 6) (omega arith) i;
    h4 = at (d - 18 + 10) (d + 2 - 18 + 8) (omega arith) i;
    h5 = at (d - 18 + 12) (d + 2 - 18 + 10) (omega arith) i;
    h6 = at (d - 18 + 14) (d + 2 - 18 + 12) (omega arith) i;
    h7 = at (d - 18 + 16) (d + 2 - 18 + 14) (omega arith) i;
    h8 = at d (d + 2 - 18 + 16) (omega arith) i;
  }
    where
      at : (j l : ℕ) → j ≡ l → orig (start + j) ≡ orig (start + l)
      at j l e = ap (λ n. orig (start + n)) e

module _ (start length : ℕ) (k : Taps) where
  fir_loop_below :
      (fuel d : ℕ) (hist : History) (buf : Buffer) (a : ℕ)
      → a < start + d
      → fir_loop start length k fuel d hist buf a ≡ buf a
  unfolding fir_loop
  fir_loop_below zero d hist buf a h = refl
  fir_loop_below (suc fuel) d hist buf a h = elim (Bool-cases (ltb d length)) [
    | inl t ↦ rw t (
        fir_loop_below fuel (d + 2) _ _ a (omega arith)
        ∙ store_other buf (start + d) a _ (omega arith))
    | inr t ↦ rw t
  ]

  -- The history holds the nine samples before `d`, and the cells from `d` on are still as in `orig`.
  fir_loop_window :
      (orig : Buffer) (fuel d j : ℕ) (hist : History) (buf : Buffer) (m : ℕ)
      → d ≡ 2 * j
      → 18 ≤ d
      → hist ≡ history start (d - 18) orig
      → ((i : ℕ) → d ≤ i → buf (start + i) ≡ orig (start + i))
      → j ≤ m
      → 2 * m < length
      → length ≤ 2 * (fuel + j)
      → fir_loop start length k fuel d hist buf (start + 2 * m)
        ≡ to_int16 (fir_tap k (history start (2 * m - 18) orig))
  unfolding fir_loop
  fir_loop_window orig zero d j hist buf m dj h eh same jm ml enough = absurd (omega arith)
  fir_loop_window orig (suc fuel) d j hist buf m dj h eh same jm ml enough =
      rw (lt→ltb d length (omega arith)) (elim (dec_lt j m) [
        | yes later ↦
            fir_loop_window orig fuel (d + 2) (j + 1) _ _ m (omega arith) (omega arith)
              (rw (eh, same d (omega arith)) (shift-history start orig d h))
              (λ i p.
                store_other buf (start + d) (start + i) _ (omega arith) ∙ same i (omega arith))
              (omega arith) ml (omega arith)
        | no now ↦
            let dm : d ≡ 2 * m = omega arith in
            fir_loop_below fuel (d + 2) _ _ (start + 2 * m) (omega arith)
            ∙ store_at buf (start + d) (start + 2 * m) _ (omega arith)
            ∙ ap (λ g. to_int16 (fir_tap k g)) (eh ∙ ap (λ n. history start (n - 18) orig) dm)
      ])

-- `generic_fir` as a filter: from the tenth sample on, each output is the filter's sum over the
-- nine samples before it, all as they were before the call; the first nine stay unfiltered.
pub generic_fir-window :
    (start length : ℕ) (k : Taps) (buf : Buffer) (m : ℕ)
    → 2 * m < length
    → generic_fir start length k buf (start + 2 * m) ≡ (
        if ltb m 9
        then buf (start + 2 * m)
        else to_int16 (fir_tap k (history start (2 * m - 18) buf)))
unfolding generic_fir
generic_fir-window start length k buf m h = elim (Bool-cases (ltb m 9)) [
  | inl t ↦ rw t (fir_loop_below start length k length 18 _ buf (start + 2 * m) (ground arith))
  | inr f ↦ rw f (
      fir_loop_window start length k buf length 18 9 _ buf m refl (omega arith) refl (λ i p. refl)
        (ground arith) h (omega arith))
]
