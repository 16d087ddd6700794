-- ===== src/Suffix.antt =====
-- `atofs`, `atoft` and `atofp` of rtlsdrdevice.c: numbers with a unit behind them. A string is the
-- list of its bytes. On an empty string the code reads and writes `s[-1]`: a fault, `none`.
use android_rtlpower.Base.{ℕ, Option, none, some, List, [], ◌∷◌, ◌==◌, ◌||◌, if◌then◌else◌, Bool}
use android_rtlpower.Double.{Double}

-- `s` with its last byte cut off, and that byte
abbrev pub split_last : List ℕ → Option (List ℕ × ℕ)
split_last [] = none
split_last (c ∷ []) = some ([], c)
split_last (c ∷ d ∷ cs) = elim (split_last (d ∷ cs)) [
  | none ↦ none
  | some (init, last) ↦ some (c ∷ init, last)
]

abbrev is_letter : (lower upper c : ℕ) → Bool
is_letter lower upper c = (c == lower) || (c == upper)

module _ (d : Double) where
  open d use {F, lit, mul, atof}

  -- the `switch` of `atofs`; its cases fall through from G to M to k
  scaled_by_size : List ℕ → (init : List ℕ) → ℕ → F
  scaled_by_size s init last =
      let one = lit 1 0 in
      let k = λ (suff : F). mul (mul suff (lit 1000 0)) (atof init) in
      let m = λ (suff : F). k (mul suff (lit 1000 0)) in
      if is_letter b'g' b'G' last
      then m (mul one (lit 1000 0))
      else if is_letter b'm' b'M' last
      then m one
      else if is_letter b'k' b'K' last
      then k one
      else atof s

  unfoldable pub atofs : List ℕ → Option F
  unfolding scaled_by_size
  atofs s = elim (split_last s) [
    | none ↦ none
    | some (init, last) ↦ some (scaled_by_size s init last)
  ]

  -- the `switch` of `atoft`, from h to m to s
  scaled_by_time : List ℕ → (init : List ℕ) → ℕ → F
  scaled_by_time s init last =
      let one = lit 1 0 in
      let sec = λ (suff : F). mul suff (atof init) in
      let min = λ (suff : F). sec (mul suff (lit 60 0)) in
      if is_letter b'h' b'H' last
      then min (mul one (lit 60 0))
      else if is_letter b'm' b'M' last
      then min one
      else if is_letter b's' b'S' last
      then sec one
      else atof s

  pub atoft : List ℕ → Option F
  unfolding scaled_by_time
  atoft s = elim (split_last s) [
    | none ↦ none
    | some (init, last) ↦ some (scaled_by_time s init last)
  ]

  pub atofp : List ℕ → Option F
  atofp s = elim (split_last s) [
    | none ↦ none
    | some (init, last) ↦
        some (if last == b'%' then mul (mul (lit 1 0) (lit 1 2)) (atof init) else atof s)
  ]
