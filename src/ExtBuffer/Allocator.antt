-- ===== src/ExtBuffer/Allocator.antt =====
-- What the code relies on in `malloc` and `realloc`, and an allocator that is so.
use android_rtlpower.Base.{
  ℕ, ◌≤◌, ◌-◌, ◌≡◌, refl, some, List, ◌++◌, length, replicate, arith, length-append,
  length-replicate,
}
use android_rtlpower.Base.Int.{ℤ, pos}
use android_rtlpower.ExtBuffer.{Memory}

-- Memory suffices: `malloc` gives as many cells as asked for, and `realloc` to a larger block
-- keeps the old cells.
pub record Suffices (m : Memory) : Type 0 where
  pub malloc-some : (n : ℕ) → (xs : List ℤ) × (m.malloc n ≡ some xs) × (length xs ≡ n)
  pub realloc-some :
      (old : List ℤ) (n : ℕ)
      → length old ≤ n
      → (ys : List ℤ) × (m.realloc old n ≡ some (old ++ ys)) × (length (old ++ ys) ≡ n)

abbrev pub fresh_ones : Memory
fresh_ones = record {
  malloc = λ n. some (replicate n (pos 1));
  realloc = λ old n. some (old ++ replicate (n - length old) (pos 1));
}

pub fresh_ones-Suffices : Suffices fresh_ones
fresh_ones-Suffices = record {
  malloc-some = λ n. (replicate n (pos 1), refl, length-replicate n (pos 1));
  realloc-some = λ old n h. (
    replicate (n - length old) (pos 1),
    refl,
    omega (
      arith,
      length-append old (replicate (n - length old) (pos 1)),
      length-replicate (n - length old) (pos 1),
    ),
  );
}
