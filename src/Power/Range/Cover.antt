-- ===== src/Power/Range/Cover.antt =====
-- The array of hops that `frequency_range` builds, and the function as a whole.
use android_rtlpower.Base.{
  ℕ, zero, suc, ◌+◌, ◌*◌, ◌/◌, ◌≤◌, ◌<◌, ◌≡◌, refl, ap, ◌∙◌, Bool, true, Option, some, List, [],
  ◌∷◌, ◌++◌, ◌&&◌, not, arith, ◌==◌, dec_lt, if-false, if◌then◌else◌,
}
use android_rtlpower.Base.Int.{
  ℤ, pos, ◌+ℤ◌, ◌-ℤ◌, ◌*ℤ◌, ltb_ℤ, c_div, to_int32, to_int32_fits, pos_part,
}
use android_rtlpower.Double.{Double}
use android_rtlpower.Double.Exact.{Uncropped, ComparesQuotients}
use android_rtlpower.Suffix.{atofs}
use android_rtlpower.Power.Tune.{Tune, Tunes}
use android_rtlpower.Power.Range.{
  Layout, minimum_rate, maximum_rate, max_tunes, cut, hop, fill, build, frequency_range, ◌>>=◌,
}
use android_rtlpower.Power.Range.Hops.{c_div-pos}
use android_rtlpower.Power.Range.Rate.{pos-mul}
use android_rtlpower.Power.Range.Bins.{IsLayout, layout-IsLayout}
use android_rtlpower.Power.Range.Ready.{made, AreReady, made-AreReady}

abbrev pub no_colon : List ℕ → Bool
no_colon [] = true
no_colon (c ∷ cs) = not (c == b':') && no_colon cs

cut-append : (a rest : List ℕ) → no_colon a ≡ true → cut (a ++ b':' ∷ rest) ≡ some (a, rest)
unfolding cut
cut-append [] rest h = refl
cut-append (c ∷ a) rest h = rw (cut-append a rest (ground (arith, h))) (ground (arith, h))

module _ (d : Double) (l : Layout d) (lower : ℤ) (w : ℕ) (seen : l.bw_seen ≡ pos w) where
  hop-made : (i : ℕ) (buf8 : ℕ → ℕ) → hop d l lower i buf8 ≡ some (made d l lower w i buf8)
  unfolding hop made
  hop-made i buf8 =
      ap
        (λ s. c_div s (pos 2) >>= λ half. some (record (made d l lower w i buf8) {
          freq = to_int32 (lower +ℤ pos i *ℤ l.bw_seen +ℤ half);
        }))
        seen
      ∙ rw (c_div-pos w 2 (omega arith))

  fill-made :
      (heap : ℕ → Option (ℕ → ℕ)) (blocks : ℕ → ℕ → ℕ)
      → ((i : ℕ) → heap i ≡ some (blocks i))
      → (left i : ℕ) (t : Tunes d)
      → (t' : Tunes d) × (fill d l lower heap left i t ≡ some t')
        × (t'.tune_count ≡ t.tune_count)
        × (t'.failed ≡ t.failed)
        × ((j : ℕ) → i ≤ j → j < i + left → t'.tunes j ≡ made d l lower w j (blocks j))
        × ((j : ℕ) → j < i → t'.tunes j ≡ t.tunes j)
  unfolding fill
  fill-made heap blocks gives zero i t =
      (t, refl, refl, refl, λ j a b. absurd (omega arith), λ j a. refl)
  fill-made heap blocks gives (suc left) i t =
      let t1 = record t {
        tunes = λ j. if j == i then made d l lower w i (blocks i) else t.tunes j;
      } in
      let (t', run, count, failed, new, old) = fill-made heap blocks gives left (i + 1) t1 in
      (
        t',
        rw (gives i, hop-made i (blocks i)) run,
        count,
        failed,
        λ j a b. elim (dec_lt i j) [
          | yes later ↦ new j (omega arith) (omega arith)
          | no same ↦ let e : j ≡ i = omega arith in rw e (old i (omega arith) ∙ ground arith)
        ],
        λ j a. old j (omega arith) ∙ ground arith,
      )

-- The hops of `t` lie side by side from `lo` on, at the middle of their bands, and what they leave
-- of the span at its upper end is less than one hertz for each hop.
pub record IsCover (d : Double) (lo span : ℕ) (t : Tunes d) : Type 0 where
  pub count : ℕ
  pub width : ℕ
  pub rate : ℕ
  pub count_is : t.tune_count ≡ pos count
  pub some_hop : 0 < count
  pub in_array : count < 1500
  pub supported : (minimum_rate ≤ rate) × (rate ≤ maximum_rate)
  pub centred : (i : ℕ) → i < count → (t.tunes i).freq ≡ pos (lo + i * width + width / 2)
  pub rated : (i : ℕ) → i < count → (t.tunes i).rate ≡ pos rate
  pub blank : (i : ℕ) → i < count → (t.tunes i).samples ≡ pos 0
  pub inside : (i : ℕ) → i < count → lo + i * width + width ≤ lo + span
  pub reaches : span < (width + 1) * count

side_by_side : (span count i : ℕ) → 0 < count → i < count → i * (span / count) + span / count ≤ span
side_by_side span count i p h = grind arith

left_over : (span count : ℕ) → 0 < count → span < (span / count + 1) * count
left_over span count p = grind arith

pos_sum : (a b c : ℕ) → pos a +ℤ pos b +ℤ pos c ≡ pos (a + b + c)
unfolding ◌+ℤ◌
pos_sum a b c = ground arith

centre :
    (lo i w : ℕ)
    → lo + i * w + w < 0x8000_0000
    → to_int32 (pos lo +ℤ pos i *ℤ pos w +ℤ pos (w / 2)) ≡ pos (lo + i * w + w / 2)
centre lo i w h =
    ap (λ x. to_int32 (pos lo +ℤ x +ℤ pos (w / 2))) (pos-mul i w)
    ∙ ap to_int32 (pos_sum lo (i * w) (w / 2))
    ∙ to_int32_fits (pos (lo + i * w + w / 2)) (omega arith) (omega arith)

module _ (d : Double) (heap : ℕ → Option (ℕ → ℕ)) (blocks : ℕ → ℕ → ℕ)
    (gives : (i : ℕ) → heap i ≡ some (blocks i)) (crop : d.F) (lo span m : ℕ)
    (small : lo + span < 0x8000_0000) where
  fits :
      (l : Layout d) (is : IsLayout d crop span m l) (i : ℕ)
      → i < is.plan_is.count
      → lo + i * is.plan_is.width + is.plan_is.width ≤ lo + span
  fits l is i h =
      rw is.plan_is.covers
        (omega (arith, side_by_side span is.plan_is.count i is.plan_is.some_hop h))

  build-IsCover :
      (l : Layout d) (t : Tunes d)
      → IsLayout d crop span m l
      → (t' : Tunes d) × (build d l (pos lo) heap t ≡ some t')
        × (t'.failed ≡ t.failed)
        × IsCover d lo span t'
        × AreReady d crop t'
  unfolding build made
  build-IsCover l t is =
      let plan = is.plan_is in
      let counted = record t { tune_count = l.hops } in
      let (t', run, count, failed, new, old) =
        fill-made d l (pos lo) plan.width plan.seen_is heap blocks gives plan.count 0 counted in
      (
        t',
        if-false {b = ltb_ℤ (pos max_tunes) l.hops} _ _
              (ap (λ n. ltb_ℤ (pos max_tunes) n) plan.hops_are ∙ ground (arith, plan.in_array))
            ∙ ap (λ n. fill d l (pos lo) heap (pos_part n) 0 counted) plan.hops_are
            ∙ run,
        failed,
        record {
          count = plan.count;
          width = plan.width;
          rate = plan.rate;
          count_is = count ∙ plan.hops_are;
          some_hop = plan.some_hop;
          in_array = plan.in_array;
          supported = (plan.at_least, plan.at_most);
          centred = λ i h.
              ap (λ (u : Tune d). u.freq) (new i (omega arith) (omega arith))
              ∙ ap (λ w. to_int32 (pos lo +ℤ pos i *ℤ w +ℤ pos (plan.width / 2))) plan.seen_is
              ∙ centre lo i plan.width (omega (arith, fits l is i h));
          rated =
              λ i h. ap (λ (u : Tune d). u.rate) (new i (omega arith) (omega arith)) ∙ plan.used_is;
          blank = λ i h. ap (λ (u : Tune d). u.samples) (new i (omega arith) (omega arith));
          inside = λ i h. fits l is i h;
          reaches = rw plan.covers (left_over span plan.count plan.some_hop);
        },
        made-AreReady crop span m l (pos lo) is t' blocks (λ i h. new i (omega arith) (omega arith))
            (count ∙ plan.hops_are),
      )

pos_diff : (lo span : ℕ) → pos (lo + span) -ℤ pos lo ≡ pos span
unfolding ◌-ℤ◌
pos_diff lo span = ground arith

-- what a part of the argument means: it has no colon, and its number is `n`
pub record Reads (d : Double) (s : List ℕ) (n : ℕ) : Type 0 where
  pub plain : no_colon s ≡ true
  pub value : d.F
  pub value_is : atofs d s ≡ some value
  pub whole : d.to_int value ≡ pos n

module _ (d : Double) (crop : d.F) (heap : ℕ → Option (ℕ → ℕ)) (blocks : ℕ → ℕ → ℕ)
    (start stop step : List ℕ) (lo span m : ℕ) (t : Tunes d) (exact : Uncropped d crop)
    (compares : ComparesQuotients d) (gives : (i : ℕ) → heap i ≡ some (blocks i))
    (a : Reads d start lo) (b : Reads d stop (lo + span)) (c : Reads d step m) (p : 0 < span)
    (small : lo + span < 0x8000_0000) (mp : 0 < m) (mm : m < minimum_rate) where
  -- the array, as the claim below and a recording need it
  pub frequency_range-AreReady :
      (t' : Tunes d) × (frequency_range d true heap (start ++ b':' ∷ (stop ++ b':' ∷ step)) crop t
        ≡ some t')
      × (t'.failed ≡ t.failed)
      × IsCover d lo span t'
      × AreReady d crop t'
  unfolding frequency_range
  frequency_range-AreReady =
      let (l, made, is) =
        layout-IsLayout d crop exact compares (pos lo) (pos (lo + span)) span (pos_diff lo span) p
          (omega arith) m mp mm t.tune_count in
      let (t', run, failed, cover, ready) =
        build-IsCover d heap blocks gives crop lo span m small l t is in
      (
        t',
        rw
            (
              cut-append start (stop ++ b':' ∷ step) a.plain,
              cut-append stop step b.plain,
              a.value_is,
              b.value_is,
              c.value_is,
              a.whole,
              b.whole,
              c.whole,
              made,
            )
            run,
        failed,
        cover,
        ready,
      )

-- `frequency_range` as a whole: for an argument `start:stop:step` of three numbers, `stop` above
-- `start` and below `2 ^ 31`, the step below the smallest rate, with boxcar downsampling, no
-- cropping, memory for every hop and a `double` that is exact on such numbers, it succeeds, and the
-- array holds hops of a supported rate that lie side by side over the band.
pub frequency_range-IsCover :
    (d : Double) (crop : d.F) (heap : ℕ → Option (ℕ → ℕ)) (blocks : ℕ → ℕ → ℕ)
    (start stop step : List ℕ) (lo span m : ℕ) (t : Tunes d)
    → Uncropped d crop
    → ComparesQuotients d
    → ((i : ℕ) → heap i ≡ some (blocks i))
    → Reads d start lo
    → Reads d stop (lo + span)
    → Reads d step m
    → 0 < span
    → lo + span < 0x8000_0000
    → 0 < m
    → m < minimum_rate
    → (t' : Tunes d) × (frequency_range d true heap (start ++ b':' ∷ (stop ++ b':' ∷ step)) crop t
        ≡ some t')
      × (t'.failed ≡ t.failed)
      × IsCover d lo span t'
frequency_range-IsCover d crop heap blocks start stop step lo span m t exact compares gives a b c p
      small mp mm =
    let (t', run, failed, cover, ready) =
      frequency_range-AreReady d crop heap blocks start stop step lo span m t exact compares gives a
        b c p small mp mm in
    (t', run, failed, cover)
