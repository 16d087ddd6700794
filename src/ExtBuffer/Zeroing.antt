-- ===== src/ExtBuffer/Zeroing.antt =====
-- The loop of `extbuffer_preparetohandle` that clears a buffer.
use android_rtlpower.Base.{
  ℕ, zero, suc, ◌+◌, ◌≤◌, ◌<◌, ◌≡◌, refl, some, List, [], ◌∷◌, ◌++◌, length, take, drop, replicate,
  set, arith, ap, ◌∙◌, length-append, length-replicate, length-drop, append_assoc, lt→ltb,
}
use android_rtlpower.Base.Int.{ℤ, pos}
use android_rtlpower.ExtBuffer.{zero_loop}

set-append :
    (xs : List ℤ) (x v : ℤ) (ys : List ℤ) → set (xs ++ x ∷ ys) (length xs) v ≡ (xs ++ v ∷ []) ++ ys
set-append [] x v ys = refl
set-append (z ∷ xs) x v ys = ap (λ r. z ∷ r) (set-append xs x v ys)

-- The loop clears the next `k` cells and no other.
pub zero_loop-replicate :
    (k : ℕ) (xs ys : List ℤ)
    → k ≤ length ys
    → zero_loop k (length xs) (xs ++ ys) ≡ some (xs ++ (replicate k (pos 0) ++ drop k ys))
unfolding zero_loop
zero_loop-replicate zero xs ys h = refl
zero_loop-replicate (suc k) xs [] h = absurd (omega arith)
zero_loop-replicate (suc k) xs (y ∷ ys) h =
    rw (lt→ltb _ _ inside, set-append xs y (pos 0) ys, one_more)
      (zero_loop-replicate k (xs ++ pos 0 ∷ []) ys (omega arith)
        ∙ ap some (append_assoc xs (pos 0 ∷ []) (replicate k (pos 0) ++ drop k ys)))
  where
    inside : length xs < length (xs ++ y ∷ ys)
    inside = omega (arith, length-append xs (y ∷ ys))

    one_more : length xs + 1 ≡ length (xs ++ pos 0 ∷ [])
    one_more = omega (arith, length-append xs (pos 0 ∷ []))

pub take-replicate :
    (n : ℕ) (xs : List ℤ) → take n (replicate n (pos 0) ++ xs) ≡ replicate n (pos 0)
take-replicate zero xs = refl
take-replicate (suc n) xs = ap (λ r. pos 0 ∷ r) (take-replicate n xs)

pub length-zeros :
    (n : ℕ) (xs : List ℤ) → n ≤ length xs → length (replicate n (pos 0) ++ drop n xs) ≡ length xs
length-zeros n xs h = omega (
  arith,
  length-append (replicate n (pos 0)) (drop n xs),
  length-replicate n (pos 0),
  length-drop n xs,
)
