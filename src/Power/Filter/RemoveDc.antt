-- ===== src/Power/Filter/RemoveDc.antt =====
-- `remove_dc` subtracts one value from every sample, and that value is half the mean.
use android_rtlpower.Base.{
  ℕ, zero, suc, ◌+◌, ◌*◌, ◌/◌, ◌≤◌, ◌<◌, ◌≡◌, refl, ap, ◌∙◌, inl, inr, false, arith, Bool-cases,
  ltb, lt→ltb, ltb-false, dec_lt,
}
use android_rtlpower.Base.Int.{
  ℤ, pos, ◌+ℤ◌, ◌-ℤ◌, quot, to_int16, to_int32, to_int16_fits, int_laws, eq_of_parts,
}
use android_rtlpower.Power.Buffer.{Buffer, SameBehind, store, store_at, store_other}
use android_rtlpower.Power.Filter.{sum_loop, subtract_loop, dc_average, remove_dc, is_zero}

module _ (start length : ℕ) (ave : ℤ) where
  subtract_loop_below :
      (fuel i : ℕ) (buf : Buffer) (a : ℕ)
      → a < start + i
      → subtract_loop start length ave fuel i buf a ≡ buf a
  unfolding subtract_loop
  subtract_loop_below zero i buf a h = refl
  subtract_loop_below (suc fuel) i buf a h = elim (Bool-cases (ltb i length)) [
    | inl t ↦ rw t (
        subtract_loop_below fuel (i + 2) _ a (omega arith)
        ∙ store_other buf (start + i) a _ (omega arith))
    | inr t ↦ rw t
  ]

  subtract_loop_at :
      (orig : Buffer) (fuel i j : ℕ) (buf : Buffer) (m : ℕ)
      → i ≡ 2 * j
      → ((l : ℕ) → i ≤ l → buf (start + l) ≡ orig (start + l))
      → j ≤ m
      → 2 * m < length
      → length ≤ 2 * (fuel + j)
      → subtract_loop start length ave fuel i buf (start + 2 * m)
        ≡ to_int16 (orig (start + 2 * m) -ℤ ave)
  unfolding subtract_loop
  subtract_loop_at orig zero i j buf m ij same jm ml enough = absurd (omega arith)
  subtract_loop_at orig (suc fuel) i j buf m ij same jm ml enough =
      rw (lt→ltb i length (omega arith)) (elim (dec_lt j m) [
        | yes later ↦
            subtract_loop_at orig fuel (i + 2) (j + 1) _ m (omega arith)
              (λ l p.
                store_other buf (start + i) (start + l) _ (omega arith) ∙ same l (omega arith))
              (omega arith) ml (omega arith)
        | no now ↦
            let im : i ≡ 2 * m = omega arith in
            subtract_loop_below fuel (i + 2) _ (start + 2 * m) (omega arith)
            ∙ store_at buf (start + i) (start + 2 * m) _ (omega arith)
            ∙ ap (λ (v : ℤ). to_int16 (v -ℤ ave))
                (same i (omega arith) ∙ ap (λ n. orig (start + n)) im)
      ])

subtract_loop-SameBehind :
    (n start length : ℕ) (ave : ℤ) (fuel i : ℕ) (buf : Buffer)
    → start + length ≤ n
    → SameBehind n buf (subtract_loop start length ave fuel i buf)
unfolding subtract_loop store
subtract_loop-SameBehind n start length ave zero i buf h a out = refl
subtract_loop-SameBehind n start length ave (suc fuel) i buf h a out =
    elim (Bool-cases (ltb i length)) [
      | inl on ↦ rw on (
          subtract_loop-SameBehind n start length ave fuel (i + 2) _ h a out
          ∙ other (ground (arith, on)))
      | inr end ↦ rw end refl
    ]
  where
    other : i < length → store buf (start + i) (buf (start + i) -ℤ ave) a ≡ buf a
    other p = ground arith

pub remove_dc-SameBehind :
    (n start length : ℕ) (buf : Buffer)
    → start + length ≤ n
    → SameBehind n buf (remove_dc start length buf)
unfolding remove_dc
remove_dc-SameBehind n start length buf h a out =
    elim (Bool-cases (is_zero (dc_average start length buf))) [
      | inl none_there ↦ rw none_there refl
      | inr some_there ↦
          rw some_there (subtract_loop-SameBehind n start length _ length 0 buf h a out)
    ]

-- Every sample loses the same value, the one that `dc_average` gives before the call.
pub remove_dc-average :
    (start length : ℕ) (buf : Buffer) (m : ℕ)
    → is_zero (dc_average start length buf) ≡ false
    → 2 * m < length
    → remove_dc start length buf (start + 2 * m)
      ≡ to_int16 (buf (start + 2 * m) -ℤ dc_average start length buf)
unfolding remove_dc
remove_dc-average start length buf m nz h = rw nz (
    subtract_loop_at start length _ buf length 0 0 buf m refl (λ l p. refl) (omega arith) h
      (omega arith))

int_add : (a b : ℕ) → a + b < 0x8000_0000 → to_int32 (pos a +ℤ pos b) ≡ pos (a + b)
unfolding to_int32 ◌+ℤ◌
int_add a b h = ground arith

-- the sum that `remove_dc` forms, for samples that are all the same
sum_loop_constant :
    (start length : ℕ) (buf : Buffer) (v fuel j i s n : ℕ)
    → ((m : ℕ) → 2 * m < length → buf (start + 2 * m) ≡ pos v)
    → i ≡ 2 * j
    → length ≡ 2 * (j + n)
    → n ≤ fuel
    → s + n * v < 0x8000_0000
    → sum_loop start length fuel i (pos s) buf ≡ pos (s + n * v)
unfolding sum_loop
sum_loop_constant start length buf v zero j i s zero all ij e le fits = ap pos (omega arith)
sum_loop_constant start length buf v zero j i s (suc n) all ij e le fits = absurd (omega arith)
sum_loop_constant start length buf v (suc fuel) j i s zero all ij e le fits =
    rw (ltb-false i length (omega arith)) (ap pos (omega arith))
sum_loop_constant start length buf v (suc fuel) j i s (suc n) all ij e le fits =
    rw (lt→ltb i length (omega arith)) (
      ap (λ t. sum_loop start length fuel (i + 2) t buf)
        (ap (λ t. to_int32 (pos s +ℤ t)) (ap (λ l. buf (start + l)) ij ∙ all j (omega arith))
          ∙ int_add s v (grind arith))
      ∙ sum_loop_constant start length buf v fuel (j + 1) (i + 2) (s + v) n all (omega arith)
          (omega arith) (omega arith) (grind arith)
      ∙ ap pos (omega arith))

half_of : (n w : ℕ) → 0 < n → (0 + n * (2 * w)) / (2 * n) ≡ w
half_of n w h = grind arith

quot_half : (n w : ℕ) → 0 < n → quot (pos (0 + n * (2 * w))) (2 * n) ≡ pos w
unfolding quot
quot_half n w h = ap pos (half_of n w h)

dc_average_constant :
    (start : ℕ) (buf : Buffer) (n w : ℕ)
    → 0 < n
    → 2 * w < 0x8000
    → n * (2 * w) < 0x8000_0000
    → ((m : ℕ) → 2 * m < 2 * n → buf (start + 2 * m) ≡ pos (2 * w))
    → dc_average start (2 * n) buf ≡ pos w
unfolding dc_average
dc_average_constant start buf n w h small fits all =
    ap (λ s. to_int16 (quot s (2 * n)))
      (sum_loop_constant start (2 * n) buf (2 * w) (2 * n) 0 0 0 n all refl (omega arith)
        (omega arith) (omega (arith, fits)))
    ∙ ap to_int16 (quot_half n w h)
    ∙ to_int16_fits (pos w) (omega arith) (omega arith)

-- On a constant signal of value `2 * w`, as long as the sum of its samples fits in a `long` of 32
-- bits, `remove_dc` leaves `w` in place of zero: it divides the sum of every second cell by the number of all cells.
pub remove_dc-constant :
    (start : ℕ) (buf : Buffer) (n w m : ℕ)
    → 0 < w
    → 2 * w < 0x8000
    → n * (2 * w) < 0x8000_0000
    → ((i : ℕ) → 2 * i < 2 * n → buf (start + 2 * i) ≡ pos (2 * w))
    → m < n
    → remove_dc start (2 * n) buf (start + 2 * m) ≡ pos w
remove_dc-constant start buf n w m p small fits all h =
    remove_dc-average start (2 * n) buf m (ap is_zero mean ∙ ground arith) (omega arith)
    ∙ ap (λ a. to_int16 (buf (start + 2 * m) -ℤ a)) mean
    ∙ ap (λ (b : ℤ). to_int16 (b -ℤ pos w)) (all m (omega arith))
    ∙ ap to_int16 (eq_of_parts _ (pos w) (omega int_laws))
    ∙ to_int16_fits (pos w) (omega arith) (omega arith)
  where
    mean : dc_average start (2 * n) buf ≡ pos w
    mean = dc_average_constant start buf n w (omega arith) small fits all
