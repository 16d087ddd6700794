-- ===== src/Power/Csv/Halves.antt =====
-- What `csv_dbm` does to the cells of a hop.
use android_rtlpower.Base.{
  ℕ, zero, suc, ◌+◌, ◌-◌, ◌*◌, ◌/◌, ◌^◌, ◌≤◌, ◌<◌, ◌≡◌, refl, sym, ap, ◌∙◌, ◌&&◌, true, some, arith,
  ltb, leb, if◌then◌else◌, ◌==◌, List, [], ◌∷◌, ◌++◌, length, length-append, get_elem?,
  get_elem?-append_last, get_elem?-append_left, inl, inr, Bool-cases, lt→ltb,
}
use native.Mathlib.Nat.{pow-suc}
use android_rtlpower.Base.Powers.{pow_positive}
use android_rtlpower.Base.Int.{ℤ, pos, ◌+ℤ◌, ◌-ℤ◌, pos_part}
use android_rtlpower.Double.{Double}
use android_rtlpower.Power.Tune.{Tune}
use android_rtlpower.Power.Csv.{
  Cells, put, swap_loop, fix_quirks, clear_loop, Row, make_row, row, csv_dbm, decibel_loop, decibel,
  last_decibel, margin,
}

swap_loop-exchange :
    (half left i : ℕ) (avg : Cells) (j : ℕ)
    → i + left ≤ half
    → swap_loop half left i avg j ≡ (
        if leb i j && ltb j (i + left)
        then avg (j + half)
        else if leb (i + half) j && ltb j (i + left + half)
        then avg (j - half)
        else avg j)
unfolding swap_loop put
swap_loop-exchange half zero i avg j h = ground arith
swap_loop-exchange half (suc left) i avg j h =
    swap_loop-exchange half left (i + 1) _ j (omega arith) ∙ step
  where
    step :
        (if leb (i + 1) j && ltb j (i + 1 + left)
          then put (put avg i (avg (i + half))) (i + half) (avg i) (j + half)
          else if leb (i + 1 + half) j && ltb j (i + 1 + left + half)
          then put (put avg i (avg (i + half))) (i + half) (avg i) (j - half)
          else put (put avg i (avg (i + half))) (i + half) (avg i) j)
        ≡ (if leb i j && ltb j (i + suc left)
            then avg (j + half)
            else if leb (i + half) j && ltb j (i + suc left + half)
            then avg (j - half)
            else avg j)
    step = grind arith

clear_loop-zero :
    (left i : ℕ) (avg : Cells) (j : ℕ)
    → clear_loop left i avg j ≡ (if leb i j && ltb j (i + left) then pos 0 else avg j)
unfolding clear_loop put
clear_loop-zero zero i avg j = ground arith
clear_loop-zero (suc left) i avg j =
    clear_loop-zero left (i + 1) (put avg i (pos 0)) j ∙ ground arith

half_of_pow : (e : ℕ) → 2 ^ suc e / 2 ≡ 2 ^ e
half_of_pow e = rw (pow-suc 2 e) (omega arith)

picked :
    (k : ℕ) (avg : Cells) (j : ℕ)
    → 0 < k
    → j < k * 2
    → (if leb 0 j && ltb j (0 + k)
        then put avg 0 (avg 1) (j + k)
        else if leb (0 + k) j && ltb j (0 + k + k)
        then put avg 0 (avg 1) (j - k)
        else put avg 0 (avg 1) j)
      ≡ (if ltb j k then avg (j + k) else if j == k then avg 1 else avg (j - k))
unfolding put
picked k avg j p h = grind arith

-- For `2 ^ (e + 1)` bins, `csv_dbm` puts the upper half of the bins before the lower one, the
-- bin of the frequency zero being replaced by its neighbour.
pub fix_quirks-halves :
    (e : ℕ) (avg : Cells) (j : ℕ)
    → j < 2 ^ suc e
    → fix_quirks (suc e) avg j
      ≡ (if ltb j (2 ^ e) then avg (j + 2 ^ e) else if j == 2 ^ e then avg 1 else avg (j - 2 ^ e))
unfolding fix_quirks
fix_quirks-halves e avg j h =
    rw (half_of_pow e, lt→ltb 0 (suc e) (omega arith))
      (swap_loop-exchange (2 ^ e) (2 ^ e) 0 (put avg 0 (avg 1)) j (omega arith)
        ∙ picked (2 ^ e) avg j (pow_positive e) (rw (pow-suc 2 e) at h))

one_more : (n : ℕ) → pos n +ℤ pos 1 ≡ pos (n + 1)
unfolding ◌+ℤ◌
one_more n = ground arith

last_cell : (k m : ℕ) → 2 * m < k → pos k -ℤ pos 1 -ℤ pos m ≡ pos (k - 1 - m)
unfolding ◌-ℤ◌
last_cell k m h = ground arith

rounds : (k m : ℕ) → 2 * m < k → pos_part (pos (k - 1 - m) +ℤ pos 1 -ℤ pos m) ≡ k - 2 * m
unfolding ◌-ℤ◌ ◌+ℤ◌
rounds k m h = ground arith

module _ (d : Double) (t : Tune d) where
  decibel_loop-length :
      (avg : Cells) (left n : ℕ)
      → (xs : List (d.F)) × (decibel_loop d t avg left (pos n) ≡ some xs)
        × (length xs ≡ left)
        × ((j : ℕ) → j < left → get_elem? xs j ≡ some (decibel d t (avg (n + j))))
  unfolding decibel_loop
  decibel_loop-length avg zero n = ([], refl, refl, λ j h. absurd (omega arith))
  decibel_loop-length avg (suc left) n =
      let (xs, run, len, each) = decibel_loop-length avg left (n + 1) in
      (decibel d t (avg n) ∷ xs, rw (one_more n, run), ap suc len, shifted xs each)
    where
      shifted :
          (xs : List (d.F))
          → ((j : ℕ) → j < left → get_elem? xs j ≡ some (decibel d t (avg (n + 1 + j))))
          → (j : ℕ) → j < suc left
          → get_elem? (decibel d t (avg n) ∷ xs) j ≡ some (decibel d t (avg (n + j)))
      shifted xs each zero h = ap (λ k. some (decibel d t (avg k))) (omega arith)
      shifted xs each (suc j) h =
          each j (omega arith) ∙ ap (λ k. some (decibel d t (avg k))) (omega arith)

  -- `r` prints the cells of `avg` but for `m` at either end, and the last of them once more.
  pub record Prints (avg : Cells) (m : ℕ) (r : Row d) : Type 0 where
    pub one_more_value : length r.dbm ≡ 2 ^ t.bin_e - 2 * m + 1
    pub each_bin :
        (j : ℕ) → j < 2 ^ t.bin_e - 2 * m → get_elem? r.dbm j ≡ some (decibel d t (avg (m + j)))
    pub last_again :
        get_elem? r.dbm (2 ^ t.bin_e - 2 * m) ≡ some (last_decibel d t (avg (2 ^ t.bin_e - 1 - m)))

  printed :
      (avg : Cells) (m : ℕ) (xs : List (d.F)) (p : ℤ)
      → p ≡ avg (2 ^ t.bin_e - 1 - m)
      → length xs ≡ 2 ^ t.bin_e - 2 * m
      → ((j : ℕ) → j < 2 ^ t.bin_e - 2 * m → get_elem? xs j ≡ some (decibel d t (avg (m + j))))
      → Prints avg m (make_row d t xs p)
  unfolding make_row
  printed avg m xs p last len each = record {
    one_more_value = omega (arith, length-append xs (last_decibel d t p ∷ []));
    each_bin = λ j h. get_elem?-append_left xs (last_decibel d t p ∷ []) j (omega arith) ∙ each j h;
    last_again =
        ap (get_elem? (xs ++ last_decibel d t p ∷ [])) (sym len)
        ∙ get_elem?-append_last xs (last_decibel d t p)
        ∙ ap (λ c. some (last_decibel d t c)) last;
  }

  only_bin : (m : ℕ) → 2 * m < 2 ^ t.bin_e → (t.bin_e == 0) ≡ true → 2 ^ t.bin_e - 1 - m ≡ 0
  only_bin m h whole =
      let e : t.bin_e ≡ 0 = ground (arith, whole) in omega (arith, ap (λ k. 2 ^ k) e)

  row-some :
      (avg : Cells) (m : ℕ)
      → margin d t ≡ pos m
      → 2 * m < 2 ^ t.bin_e
      → (r : Row d) × (row d t avg ≡ some r) × Prints avg m r × (r.samples ≡ t.samples)
  unfolding row make_row
  row-some avg m e h =
      let (xs, run, len, each) = decibel_loop-length avg (2 ^ t.bin_e - 2 * m) m in
      elim (Bool-cases (t.bin_e == 0)) [
        | inl whole ↦ (
          make_row d t xs (avg 0),
          rw (e, last_cell (2 ^ t.bin_e) m h, rounds (2 ^ t.bin_e) m h, run, whole),
          printed avg m xs (avg 0) (ap avg (sym (only_bin m h whole))) len each,
          refl,
        )
        | inr split ↦ (
          make_row d t xs (avg (2 ^ t.bin_e - 1 - m)),
          rw (e, last_cell (2 ^ t.bin_e) m h, rounds (2 ^ t.bin_e) m h, run, split),
          printed avg m xs (avg (2 ^ t.bin_e - 1 - m)) refl len each,
          refl,
        )
      ]

  -- `t'` is the hop `t` with nothing added up.
  pub record IsCleared (t' : Tune d) : Type 0 where
    pub no_samples : t'.samples ≡ pos 0
    pub no_power : (j : ℕ) → j < 2 ^ t.bin_e → t'.avg j ≡ pos 0
    pub same_hop :
        (t'.freq ≡ t.freq)
        × (t'.rate ≡ t.rate)
        × (t'.bin_e ≡ t.bin_e)
        × (t'.downsample ≡ t.downsample)

  pub csv_dbm-IsCleared :
      (m : ℕ)
      → margin d t ≡ pos m
      → 2 * m < 2 ^ t.bin_e
      → (r : Row d) × (t' : Tune d) × (csv_dbm d t ≡ some (r, t'))
        × Prints (fix_quirks t.bin_e t.avg) m r
        × (r.samples ≡ t.samples)
        × IsCleared t'
  unfolding csv_dbm
  csv_dbm-IsCleared m e h =
      let (r, run, prints, same) = row-some (fix_quirks t.bin_e t.avg) m e h in
      (
        r,
        record t { avg = clear_loop (2 ^ t.bin_e) 0 (fix_quirks t.bin_e t.avg); samples = pos 0 },
        rw run,
        prints,
        same,
        record {
          no_samples = refl;
          no_power =
              λ j l. clear_loop-zero (2 ^ t.bin_e) 0 (fix_quirks t.bin_e t.avg) j ∙ ground arith;
          same_hop = (refl, refl, refl, refl);
        },
      )
