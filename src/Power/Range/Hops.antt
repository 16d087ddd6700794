-- ===== src/Power/Range/Hops.antt =====
-- The number of hops: as few as the largest rate allows, and never more than the array holds.
use android_rtlpower.Base.{
  ℕ, zero, suc, ◌+◌, ◌/◌, ◌≤◌, ◌<◌, ◌≡◌, refl, ◌∙◌, some, arith, Bool, if-true, if-false, dec_le,
  dec_lt,
}
use android_rtlpower.Base.Int.{pos, ltb_ℤ, c_div}
use android_rtlpower.Double.{Double}
use android_rtlpower.Double.Exact.{Uncropped}
use android_rtlpower.Power.Range.{Band, maximum_rate, uncrop, hop_loop}

pub c_div-pos : (n k : ℕ) → 0 < k → c_div (pos n) (pos k) ≡ some (pos (n / k))
unfolding c_div
c_div-pos n zero h = absurd (omega arith)
c_div-pos n (suc k) h = refl

abbrev pub band : (seen used hops : ℕ) → Band
band seen used hops = record { bw_seen = pos seen; bw_used = pos used; hops = pos hops }

-- `n` hops bring the band of one hop down to the largest rate, and fewer would not.
pub record IsFewest (span n : ℕ) : Type 0 where
  pub positive : 0 < n
  pub bounded : n < 1500
  pub fits : span / n ≤ maximum_rate
  pub fewest : (j : ℕ) → 0 < j → j < n → maximum_rate < span / j

module _ (d : Double) (crop : d.F) (exact : Uncropped d crop) (span : ℕ)
    (small : span < 0x8000_0000) where
  uncrop_quotient : (i : ℕ) → 0 < i → uncrop d crop (pos (span / i)) ≡ pos (span / i)
  unfolding uncrop
  uncrop_quotient i h = exact (pos (span / i)) (omega arith) (grind arith)

  abbrev over : ℕ → Bool
  over i = ltb_ℤ (pos maximum_rate) (pos (span / i))

  still_above :
      (i : ℕ)
      → ((j : ℕ) → 0 < j → j < i → maximum_rate < span / j)
      → maximum_rate < span / i
      → (j : ℕ) → 0 < j
      → j < i + 1
      → maximum_rate < span / j
  still_above i above at j p h = elim (dec_lt j i) [
    | yes before ↦ above j p before
    | no other ↦ let e : j ≡ i = omega arith in rw e at
  ]

  -- Without cropping, for a span below `2 ^ 31` and from a round `i` on below which every number of
  -- hops is too few, the loop ends at the fewest hops that bring the band of one hop down to the
  -- largest rate, below 1500, and leaves the bands of that number of hops.
  pub hop_loop-IsFewest :
      (left i : ℕ) (last : Band)
      → i + left ≡ 1500
      → 0 < i
      → ((j : ℕ) → 0 < j → j < i → maximum_rate < span / j)
      → (n : ℕ) × (hop_loop d crop (pos span) left i last ≡ some (band (span / n) (span / n) n))
        × IsFewest span n
  unfolding hop_loop
  hop_loop-IsFewest zero i last e p above =
      let far = above 1499 (omega arith) (omega arith) in absurd (omega arith)
  hop_loop-IsFewest (suc left) i last e p above = elim (dec_le (span / i) maximum_rate) [
    | yes fits ↦ (
      i,
      rw (c_div-pos span i p, uncrop_quotient i p) (if-false {b = over i} _ _ (ground arith)),
      record { positive = p; bounded = omega arith; fits = fits; fewest = above },
    )
    | no more ↦
        let (n, run, rest) =
          hop_loop-IsFewest left (i + 1)
            (record { bw_seen = pos (span / i); bw_used = pos (span / i); hops = last.hops })
            (omega arith) (omega arith) (still_above i above (omega arith)) in
        (
          n,
          rw (c_div-pos span i p, uncrop_quotient i p)
              (if-true {b = over i} _ _ (ground arith) ∙ run),
          rest,
        )
  ]
