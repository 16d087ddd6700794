-- ===== src/Device/Gains.antt =====
-- Which gain the tuner is set to, for a driver whose two answers about the table of gains agree.
use android_rtlpower.Base.{
  ℕ, zero, suc, ◌+◌, ◌-◌, ◌*◌, ◌/◌, ◌≤◌, ◌<◌, ◌≡◌, refl, ◌∙◌, true, false, some, List, [], ◌∷◌,
  length, get_elem?, get_elem?-lt, arith, inl, inr, dec_lt, if-true, if-false, ltb, ◌&&◌,
  if◌then◌else◌, Bool-cases,
}
use android_rtlpower.Base.Int.{ℤ, pos, ◌-ℤ◌, ltb_ℤ, leb_ℤ, nat_abs, to_int32, to_uint32}
use android_rtlpower.Device.{
  Driver, Log, set_tuner_gain, set_tuner_gain_mode, get_tuner_gains, count_tuner_gains, call, entry,
  read_gain, set_gain_entry, percent_index, set_gain_by_perc, nearest_loop, nearest_in_table,
  nearest_counted, nearest_if_manual, nearest_gain,
}

-- `rtlsdr_get_tuner_gains` returns the length of the table both times, an `int`, and `malloc` gives
-- a table.
pub record IsHonest (d : Driver) : Type 0 where
  pub counted : (log : Log) → d.answer log count_tuner_gains ≡ pos (length (d.gains))
  pub filled : (log : Log) → d.answer log get_tuner_gains ≡ pos (length (d.gains))
  pub enough : (n : ℤ) → d.malloc n ≡ true
  pub small : length (d.gains) < 0x8000_0000

get_elem?-some : (gs : List ℤ) (i : ℕ) → i < length gs → (g : ℤ) × (get_elem? gs i ≡ some g)
get_elem?-some [] i h = absurd (omega arith)
get_elem?-some (g ∷ gs) zero h = (g, refl)
get_elem?-some (g ∷ gs) (suc i) h = get_elem?-some gs i (omega arith)

module _ (d : Driver) (honest : IsHonest d) where
  entry-some :
      (i : ℕ)
      → i < length (d.gains)
      → (g : ℤ) × (get_elem? (d.gains) i ≡ some g) × (entry d (pos (length (d.gains))) i ≡ some g)
  unfolding entry
  entry-some i h =
      let (g, at) = get_elem?-some (d.gains) i h in
      (
        g,
        at,
        if-true {b = d.malloc (pos (length (d.gains))) && ltb_ℤ (pos i) (pos (length (d.gains)))} _
              _ (rw (honest.enough (pos (length (d.gains)))) (ground arith))
            ∙ at,
      )

  pub read_gain-some :
      (i : ℕ) (log : Log)
      → i < length (d.gains)
      → (g : ℤ) × (get_elem? (d.gains) i ≡ some g)
        × (read_gain d (pos (length (d.gains))) i log ≡ some (g, log))
  unfolding read_gain
  read_gain-some i log h = let (g, at, e) = entry-some i h in (g, at, rw e)

  pub set_gain_entry-some :
      (i : ℕ) (log : Log)
      → i < length (d.gains)
      → (g r : ℤ) × (get_elem? (d.gains) i ≡ some g)
        × (set_gain_entry d (pos (length (d.gains))) i log
            ≡ some (r, set_tuner_gain g ∷ get_tuner_gains ∷ log))
  unfolding set_gain_entry call
  set_gain_entry-some i log h =
      let (g, at, run) = read_gain-some i (get_tuner_gains ∷ log) h in
      (g, d.answer (get_tuner_gains ∷ log) (set_tuner_gain g), at, rw run)

pub percent_index-below :
    (percent n : ℕ) → 0 < n → n < 0x8000_0000 → percent_index percent (pos n) < n
unfolding percent_index to_uint32 ◌-ℤ◌
percent_index-below percent n p h = ground arith

whole : (n : ℕ) → n < 0x200_0000 → to_uint32 (pos n) ≡ n
unfolding to_uint32
whole n h = ground arith

before : (n : ℕ) → 0 < n → n < 0x200_0000 → to_uint32 (pos n -ℤ pos 1) ≡ n - 1
unfolding to_uint32 ◌-ℤ◌
before n p h = ground arith

share_lt : (percent n : ℕ) → percent < 100 → percent * n + n ≤ 100 * n
share_lt percent n h = grind arith

-- For up to 100 percent the unsigned product does not wrap: the index is that share of the table,
-- rounded down, and 100 percent is its last entry.
pub percent_index-share :
    (percent n : ℕ)
    → percent ≤ 100
    → 0 < n
    → n < 0x200_0000
    → percent_index percent (pos n) ≡ (if ltb percent 100 then percent * n / 100 else n - 1)
unfolding percent_index
percent_index-share percent n h p l =
    rw (whole n l, before n p l)
      (elim (dec_lt percent 100) [
        | yes some_left ↦ ground (arith, share_lt percent n some_left)
        | no all ↦ let e : percent ≡ 100 = omega arith in rw e (ground arith)
      ])

module _ (d : Driver) (honest : IsHonest d) where
  -- For an honest driver whose table is not empty, `set_gain_by_perc` sets a gain of the table for any percentage
  -- whatever: it asks for the number of gains, reads the table and sets the entry at
  -- `percent_index`.
  pub set_gain_by_perc-some :
      (percent : ℕ) (log : Log)
      → 0 < length (d.gains)
      → (g r : ℤ) × (get_elem? (d.gains) (percent_index percent (pos (length (d.gains)))) ≡ some g)
        × (set_gain_by_perc d percent log
            ≡ some (r, set_tuner_gain g ∷ get_tuner_gains ∷ count_tuner_gains ∷ log))
  unfolding set_gain_by_perc call
  set_gain_by_perc-some percent log p =
      let (g, r, at, run) =
        set_gain_entry-some d honest (percent_index percent (pos (length (d.gains))))
          (count_tuner_gains ∷ log)
          (percent_index-below percent (length (d.gains)) p honest.small) in
      (g, r, at, rw (honest.counted log, run))

abbrev pub distance : ℤ → ℤ → ℕ
distance target g = nat_abs (to_int32 (target -ℤ g))

-- `g` is in the table from `i` on, and no entry from there on is nearer to the target.
pub record IsNearest (target : ℤ) (gs : List ℤ) (g : ℤ) : Type 0 where
  pub index : ℕ
  pub entry_is : get_elem? gs index ≡ some g
  pub nearest : (j : ℕ) (h : ℤ) → get_elem? gs j ≡ some h → distance target g ≤ distance target h

module _ (d : Driver) (honest : IsHonest d) (target : ℤ) where
  -- The loop from `i` on returns an entry at least as near as `best` and as all from `i` on.
  nearest_loop-least :
      (left i : ℕ) (best : ℤ) (log : Log) (k : ℕ)
      → i + left ≡ length (d.gains)
      → get_elem? (d.gains) k ≡ some best
      → (g : ℤ) × (l : ℕ) × (nearest_loop d target (pos (length (d.gains))) left i best log
          ≡ some (g, log))
        × (get_elem? (d.gains) l ≡ some g)
        × (distance target g ≤ distance target best)
        × ((j : ℕ) (h : ℤ)
            → i ≤ j
            → get_elem? (d.gains) j ≡ some h
            → distance target g ≤ distance target h)
  unfolding nearest_loop
  nearest_loop-least zero i best log k e at = (
    best,
    k,
    refl,
    at,
    omega arith,
    λ j h p here. absurd (omega (arith, get_elem?-lt (d.gains) j h here)),
  )
  nearest_loop-least (suc left) i best log k e at =
      let (g0, at0, run0) = read_gain-some d honest i log (omega arith) in
      elim (Bool-cases (ltb (distance target g0) (distance target best))) [
        | inl t ↦
            let (g, l, run, gat, near, all) =
              nearest_loop-least left (i + 1) g0 log i (omega arith) at0 in
            (g, l, rw (run0, t) run, gat, ground (arith, near), later g0 g at0 near all)
        | inr f ↦
            let (g, l, run, gat, near, all) =
              nearest_loop-least left (i + 1) best log k (omega arith) at in
            (g, l, rw (run0, f) run, gat, near, later g0 g at0 (ground (arith, near)) all)
      ]
    where
      later :
          (g0 g : ℤ)
          → get_elem? (d.gains) i ≡ some g0
          → distance target g ≤ distance target g0
          → ((j : ℕ) (h : ℤ)
              → i + 1 ≤ j
              → get_elem? (d.gains) j ≡ some h
              → distance target g ≤ distance target h)
          → (j : ℕ) (h : ℤ) → i ≤ j
          → get_elem? (d.gains) j ≡ some h
          → distance target g ≤ distance target h
      later g0 g at0 near all j h p here = elim (dec_lt i j) [
        | yes more ↦ all j h (omega arith) here
        | no same ↦ let ij : i ≡ j = omega arith in ground (arith, ij, near)
      ]

  -- For an honest driver that takes the manual gain mode and has gains, `nearest_gain` returns a gain of the
  -- table, and no gain of the table is nearer to the target, distances being those of `int`.
  pub nearest_gain-IsNearest :
      (log : Log)
      → 0 < length (d.gains)
      → ltb_ℤ (d.answer log (set_tuner_gain_mode (pos 1))) (pos 0) ≡ false
      → (g : ℤ) × (nearest_gain d target log
          ≡ some (g, get_tuner_gains ∷ count_tuner_gains ∷ set_tuner_gain_mode (pos 1) ∷ log))
        × IsNearest target (d.gains) g
  unfolding nearest_gain call nearest_if_manual nearest_counted nearest_in_table
  nearest_gain-IsNearest log p ok =
      let log2 = count_tuner_gains ∷ set_tuner_gain_mode (pos 1) ∷ log in
      let (first, at, read) = read_gain-some d honest 0 (get_tuner_gains ∷ log2) p in
      let (g, l, run, gat, _, all) =
        nearest_loop-least (length (d.gains)) 0 first (get_tuner_gains ∷ log2) 0 (omega arith) at in
      (
        g,
        rw (ok, honest.counted (set_tuner_gain_mode (pos 1) ∷ log))
            (if-false {b = leb_ℤ (pos (length (d.gains))) (pos 0)} _ _ (ground arith)
              ∙ rw (honest.filled log2, read) run),
        record { index = l; entry_is = gat; nearest = λ j h here. all j h (omega arith) here },
      )
