-- ===== src/Power/Buffer.antt =====
-- `int16_t fft_buf[]` and pointers into it: the value of each cell. A pointer `data` is the index
-- of its first cell, so `data[i]` is the cell `data + i`. No access is a fault.
use android_rtlpower.Base.{ℕ, ◌≤◌, ◌≡◌, ◌≢◌, arith, ◌==◌, if◌then◌else◌}
use android_rtlpower.Base.Int.{ℤ, to_int16}

abbrev pub Buffer : Type 0
Buffer = ℕ → ℤ

-- `data[i] = v`, with the conversion to `int16_t`
unfoldable pub store : Buffer → ℕ → ℤ → Buffer
store buf i v j = if j == i then to_int16 v else buf j

pub store_self : (buf : Buffer) (i : ℕ) (v : ℤ) → store buf i v i ≡ to_int16 v
unfolding store
store_self buf i v = ground arith

pub store_other : (buf : Buffer) (i j : ℕ) (v : ℤ) → j ≢ i → store buf i v j ≡ buf j
unfolding store
store_other buf i j v ne = ground arith

pub store_at : (buf : Buffer) (i j : ℕ) (v : ℤ) → j ≡ i → store buf i v j ≡ to_int16 v
unfolding store
store_at buf i j v e = ground arith

-- The cells from `n` on are the same in both.
abbrev pub SameBehind : (n : ℕ) → (old new : ℕ → ℤ) → Type 0
SameBehind n old new = (a : ℕ) → n ≤ a → new a ≡ old a
