-- ===== src/Device/Tools/Search.antt =====
-- `verbose_device_search` finds what it looks for, and a device that is there.
use android_rtlpower.Base.{
  ℕ, zero, suc, ◌-◌, ◌≤◌, ◌<◌, ◌≡◌, refl, sym, ap, append-nil, ◌∙◌, Bool, true, false, ◌&&◌, some,
  List, [], ◌∷◌, ◌++◌, length, length-append, drop, get_elem?, get_elem?-lt, arith, inl, inr, ◌⊎◌,
  ◌==◌, ltb, Bool-cases, Option-cases, if-false,
}
use android_rtlpower.Base.Int.{ℤ, pos, negsuc, leb_ℤ, ltb_ℤ, to_int32}
use android_rtlpower.Device.Tools.{
  is_prefix, is_same, is_suffix, find, or_else, search_serials, is_empty, verbose_device_search,
}

find-some :
    (test : List ℕ → Bool) (xs : List (List ℕ)) (i : ℕ) (x : List ℕ)
    → get_elem? xs i ≡ some x
    → test x ≡ true
    → (j : ℕ) × (y : List ℕ) × (find test xs ≡ some j)
      × (get_elem? xs j ≡ some y)
      × (test y ≡ true)
      × (j ≤ i)
unfolding find
find-some test [] i x at ok = absurd (ground (arith, at))
find-some test (y ∷ xs) zero x at ok =
    (0, y, ground (arith, at, ok), refl, ground (arith, at, ok), omega arith)
find-some test (y ∷ xs) (suc i) x at ok = elim (Bool-cases (test y)) [
  | inl hit ↦ (0, y, rw hit, refl, hit, omega arith)
  | inr miss ↦
      let (j, z, run, there, good, le) = find-some test xs i x at ok in
      (suc j, z, rw (miss, run), there, good, omega arith)
]

find-lt :
    (test : List ℕ → Bool) (xs : List (List ℕ)) (j : ℕ) → find test xs ≡ some j → j < length xs
unfolding find
find-lt test [] j e = absurd (ground (arith, e))
find-lt test (x ∷ xs) j e = elim (Bool-cases (test x)) [
  | inl hit ↦ let z = rw hit at e in ground (arith, z)
  | inr miss ↦ elim (Option-cases (find test xs)) [
    | inl none_left ↦ let z = rw (miss, none_left) at e in absurd (ground (arith, z))
    | inr (k, found) ↦ let z = rw (miss, found) at e in ground (arith, z, find-lt test xs k found)
  ]
]

is_same_self : (s : List ℕ) → is_same s s ≡ true
unfolding is_same
is_same_self [] = refl
is_same_self (a ∷ s) = ground (arith, is_same_self s)

is_same_eq : (s t : List ℕ) → is_same s t ≡ true → t ≡ s
unfolding is_same
is_same_eq [] [] e = refl
is_same_eq [] (b ∷ t) e = absurd (ground (arith, e))
is_same_eq (a ∷ s) [] e = absurd (ground (arith, e))
is_same_eq (a ∷ s) (b ∷ t) e = ground (arith, e, is_same_eq s t)

is_prefix-append : (s t : List ℕ) → is_prefix s (s ++ t) ≡ true
unfolding is_prefix
is_prefix-append [] t = refl
is_prefix-append (a ∷ s) t = ground (arith, is_prefix-append s t)

drop-front : (front s : List ℕ) → drop (length front) (front ++ s) ≡ s
drop-front [] s = refl
drop-front (c ∷ front) s = drop-front front s

is_suffix-append : (front s : List ℕ) → is_suffix s (front ++ s) ≡ true
unfolding is_suffix
is_suffix-append front s =
    if-false {b = ltb (length (front ++ s)) (length s)} _ _ (ground (arith, length-append front s))
    ∙ ap (λ n. is_prefix s (drop n (front ++ s))) rest
    ∙ ap (is_prefix s) (drop-front front s)
    ∙ ap (is_prefix s) (sym (append-nil s))
    ∙ is_prefix-append s []
  where
    rest : length (front ++ s) - length s ≡ length front
    rest = omega (arith, length-append front s)

module _ (strtol : List ℕ → ℤ × List ℕ) (serials : List (List ℕ)) (s : List ℕ) where
  -- what `verbose_device_search` answers: no device, or one that is there
  abbrev pub IsAnswer : ℤ → Type 0
  IsAnswer r = (r ≡ negsuc 0) ⊎ ((j : ℕ) × (r ≡ pos j) × (j < length serials))

  or_else-IsAnswer :
      (test : List ℕ → Bool) (other : ℤ)
      → IsAnswer other
      → IsAnswer (or_else (find test serials) other)
  or_else-IsAnswer test other rest = elim (Option-cases (find test serials)) [
    | inl missed ↦ rw missed rest
    | inr (j, found) ↦ inr (j, rw found, find-lt test serials j found)
  ]

  search_serials-IsAnswer : IsAnswer (search_serials s serials)
  unfolding search_serials
  search_serials-IsAnswer =
      or_else-IsAnswer (is_same s) _
        (or_else-IsAnswer (is_prefix s) _ (or_else-IsAnswer (is_suffix s) (negsuc 0) (inl refl)))

  in_range : (r : ℤ) → (leb_ℤ (pos 0) r && ltb_ℤ r (pos (length serials))) ≡ true → IsAnswer r
  in_range (pos n) e = inr (n, refl, ground (arith, e))
  in_range (negsuc n) e = absurd (ground (arith, e))

  -- Whatever `strtol` says of the string, `verbose_device_search` returns -1 or the number of a
  -- device that is there.
  pub verbose_device_search-IsAnswer : IsAnswer (verbose_device_search strtol serials s)
  unfolding verbose_device_search
  verbose_device_search-IsAnswer = elim (Bool-cases (length serials == 0)) [
    | inl nothing ↦ rw nothing (inl refl)
    | inr some_device ↦
        elim (Bool-cases (
          is_empty ((strtol s).1) && leb_ℤ (pos 0) device && ltb_ℤ device (pos (length serials)))) [
            | inl number ↦ rw (some_device, number) (in_range device (ground (arith, number)))
            | inr name ↦ rw (some_device, name) search_serials-IsAnswer
          ]
  ]
    where
      device : ℤ
      device = to_int32 ((strtol s).0)

  searched :
      (i : ℕ) (x : List ℕ)
      → get_elem? serials i ≡ some x
      → is_empty ((strtol s).1) ≡ false
      → verbose_device_search strtol serials s ≡ search_serials s serials
  unfolding verbose_device_search
  searched i x at name =
      rw (name)
        (if-false {b = length serials == 0} _ _ (ground (arith, get_elem?-lt serials i x at)))

  -- A name that is no number and equals a serial is found by that serial, at the first device that
  -- has it.
  pub verbose_device_search-exact :
      (i : ℕ)
      → get_elem? serials i ≡ some s
      → is_empty ((strtol s).1) ≡ false
      → (j : ℕ) × (verbose_device_search strtol serials s ≡ pos j)
        × (get_elem? serials j ≡ some s)
        × (j ≤ i)
  unfolding search_serials
  verbose_device_search-exact i at name =
      let (j, y, run, there, good, le) = find-some (is_same s) serials i s at (is_same_self s) in
      (j, searched i s at name ∙ rw run, there ∙ ap some (is_same_eq s y good), le)

  -- A name that is no number and ends a serial finds a device.
  pub verbose_device_search-suffix :
      (i : ℕ) (front : List ℕ)
      → get_elem? serials i ≡ some (front ++ s)
      → is_empty ((strtol s).1) ≡ false
      → (j : ℕ) × (verbose_device_search strtol serials s ≡ pos j) × (j < length serials)
  unfolding search_serials
  verbose_device_search-suffix i front at name =
      let (j, y, run, there, good, le) =
        find-some (is_suffix s) serials i (front ++ s) at (is_suffix-append front s) in
      let last = find-lt (is_suffix s) serials j run in
      elim (Option-cases (find (is_same s) serials)) [
        | inr (k, same) ↦
            (k, searched i (front ++ s) at name ∙ rw same, find-lt (is_same s) serials k same)
        | inl other ↦ elim (Option-cases (find (is_prefix s) serials)) [
          | inr (k, pre) ↦ (
            k,
            searched i (front ++ s) at name ∙ rw (other, pre),
            find-lt (is_prefix s) serials k pre,
          )
          | inl neither ↦ (j, searched i (front ++ s) at name ∙ rw (other, neither, run), last)
        ]
      ]
