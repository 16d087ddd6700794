-- ===== src/ExtBuffer/Valid.antt =====
-- The containers that the code makes, and what `extbuffer_preparetohandle` does to them.
use android_rtlpower.Base.{
  ℕ, zero, suc, ◌≤◌, ◌<◌, ◌≡◌, refl, true, false, Option, none, some, List, [], ◌++◌, length,
  take-append, take, drop, replicate, arith, inl, inr, ap, ◌∙◌, append-nil, Bool-cases,
  Option-cases, if-true, if-false, ltb→lt, ltb, sym,
}
use android_rtlpower.Base.Int.{ℤ, pos, leb_ℤ}
use android_rtlpower.ExtBuffer.{
  ExtBuffer, BufferType, Memory, buffer, with_buffer, extbuffer_init, grow, clear_block, cleared,
  clear_if_asked, prepare_positive, extbuffer_preparetohandle,
}
use android_rtlpower.ExtBuffer.Allocator.{Suffices}
use android_rtlpower.ExtBuffer.Zeroing.{zero_loop-replicate, take-replicate, length-zeros}

-- the cells of the container's own buffer
abbrev pub cells : ExtBuffer → List ℤ
cells c = elim (buffer c) [ none ↦ [] | some xs ↦ xs ]

abbrev pub AllNull : ExtBuffer → Type 0
AllNull c =
    (c.intbuffer ≡ none)
    × (c.floatbuffer ≡ none)
    × (c.charbuffer ≡ none)
    × (c.shortbuffer ≡ none)
    × (c.ushortbuffer ≡ none)

-- No buffer but the own one is allocated, and that one is as long as `buffer_max_size` says.
pub record IsValid (c : ExtBuffer) : Type 0 where
  pub own : AllNull (with_buffer c none)
  pub sized : length (cells c) ≡ c.buffer_max_size
  pub empty : buffer c ≡ none → c.buffer_max_size ≡ 0
  pub fits : c.size_valid_elements ≤ c.buffer_max_size

-- `extbuffer_init` makes a valid container that holds nothing.
pub extbuffer_init-IsValid : (t : BufferType) → IsValid (extbuffer_init t)
unfolding extbuffer_init
extbuffer_init-IsValid BufferType.int = ground arith
extbuffer_init-IsValid _ = ground arith

pub buffer-with_buffer : (c : ExtBuffer) (b : Option (List ℤ)) → buffer (with_buffer c b) ≡ b
buffer-with_buffer c b = ground arith

-- `c'` is `c` prepared for `n` elements.
pub record IsPrepared (c : ExtBuffer) (n : ℕ) (c' : ExtBuffer) : Type 0 where
  pub valid : IsValid c'
  pub holds : c'.size_valid_elements ≡ n
  pub cleared : c.cleartozero ≡ true → take n (cells c') ≡ replicate n (pos 0)
  pub kept : c.cleartozero ≡ false → take (length (cells c)) (cells c') ≡ cells c
  pub flag : c'.cleartozero ≡ false
  pub never_shrinks : c.buffer_max_size ≤ c'.buffer_max_size

clear_lem :
    (c : ExtBuffer) (xs : List ℤ)
    → c.size_valid_elements ≤ length xs
    → clear_block c (some xs)
      ≡ some
          (record (with_buffer c
            (some (replicate c.size_valid_elements (pos 0) ++ drop c.size_valid_elements xs))) {
              cleartozero = false;
            })
unfolding clear_block
clear_lem c xs h = ap (cleared c) (zero_loop-replicate c.size_valid_elements [] xs h)

-- `grow` gives a block of the new size that begins with the old cells.
grow_lem :
    {m : Memory} (c : ExtBuffer) (n : ℕ)
    → Suffices m
    → IsValid c
    → c.buffer_max_size < n
    → (ys : List ℤ) × (buffer (grow m c n) ≡ some (cells c ++ ys))
      × (length (cells c ++ ys) ≡ n)
      × AllNull (with_buffer (grow m c n) none)
      × ((grow m c n).buffer_max_size ≡ n)
unfolding grow
grow_lem {m} c n ok v h = elim (Option-cases (buffer c)) [
  | inl e ↦
      let (xs, got, long) = ok.malloc-some n in
      (xs, ground (arith, v.own), ground arith, ground (arith, v.own), ground arith)
  | inr (old, e) ↦
      let (ys, got, long) = ok.realloc-some old n (ground (arith, v.sized)) in
      (ys, ground (arith, v.own), ground arith, ground (arith, v.own), ground arith)
]

-- the container between the two `switch`es
record IsGrown (c : ExtBuffer) (n : ℕ) (g : ExtBuffer) : Type 0 where
  rest : List ℤ
  block : buffer g ≡ some (cells c ++ rest)
  long : length (cells c ++ rest) ≡ g.buffer_max_size
  room : n ≤ g.buffer_max_size
  others : AllNull (with_buffer g none)
  larger : c.buffer_max_size ≤ g.buffer_max_size
  same_flag : g.cleartozero ≡ c.cleartozero

cells_of_room : (c : ExtBuffer) (n : ℕ) → IsValid c → 0 < n → n ≤ c.buffer_max_size → IsGrown c n c
cells_of_room c n v p h = record {
  rest = [];
  block = ground (arith, v.empty, append-nil (cells c));
  long = rw (append-nil) v.sized;
  room = h;
  others = v.own;
  larger = omega arith;
  same_flag = refl;
}

grow-cleartozero : (m : Memory) (c : ExtBuffer) (n : ℕ) → (grow m c n).cleartozero ≡ c.cleartozero
unfolding grow
grow-cleartozero m c n = ground arith

grow-IsGrown :
    {m : Memory} (c : ExtBuffer) (n : ℕ)
    → Suffices m
    → IsValid c
    → c.buffer_max_size < n
    → IsGrown c n (grow m c n)
grow-IsGrown {m} c n ok v h =
    let (ys, block, long, others, max) = grow_lem c n ok v h in
    record {
      rest = ys;
      block = block;
      long = ground arith;
      room = omega arith;
      others = others;
      larger = omega arith;
      same_flag = grow-cleartozero m c n;
    }

abbrev sized : ExtBuffer → ℕ → ExtBuffer
sized g n = record g { size_valid_elements = n }

-- the container after the loop that clears `n` cells of `xs`
abbrev zeroed : ExtBuffer → ℕ → List ℤ → ExtBuffer
zeroed g n xs = record (with_buffer (sized g n) (some (replicate n (pos 0) ++ drop n xs))) {
  cleartozero = false;
}

kept-IsPrepared :
    (c g : ExtBuffer) (n : ℕ) → IsGrown c n g → c.cleartozero ≡ false → IsPrepared c n (sized g n)
kept-IsPrepared c g n w off = record {
  valid = record {
    own = ground (arith, w.others);
    sized = ground (arith, w.block, w.long);
    empty = λ e. ground (arith, w.block);
    fits = w.room;
  };
  holds = refl;
  cleared = λ on. cc;
  kept = λ _. ground (arith, w.block, take-append (cells c) w.rest);
  flag = w.same_flag ∙ off;
  never_shrinks = w.larger;
}

-- every field of `zeroed`, for a block `ys` put in place
zeroed_fields :
    (g : ExtBuffer) (n : ℕ) (xs ys : List ℤ)
    → replicate n (pos 0) ++ drop n xs ≡ ys
    → AllNull (with_buffer g none)
    → (buffer (zeroed g n xs) ≡ some ys)
      × AllNull (with_buffer (zeroed g n xs) none)
      × ((zeroed g n xs).buffer_max_size ≡ g.buffer_max_size)
      × ((zeroed g n xs).size_valid_elements ≡ n)
zeroed_fields g n xs ys e others = ground arith

cells_eq : (c : ExtBuffer) {ys : List ℤ} → buffer c ≡ some ys → cells c ≡ ys
cells_eq c e = ground arith

zeroed-IsPrepared :
    (c g : ExtBuffer) (n : ℕ)
    → (w : IsGrown c n g) → c.cleartozero ≡ true
    → IsPrepared c n (zeroed g n (cells c ++ w.rest))
zeroed-IsPrepared c g n w on =
    let xs : List ℤ = cells c ++ w.rest in
    let (block, others, max, valid) = zeroed_fields g n xs _ refl w.others in
    let long : length (cells (zeroed g n xs)) ≡ length xs =
      ap length (cells_eq (zeroed g n xs) block)
      ∙ (length-zeros n xs (omega (arith, w.long, w.room))) in
    record {
      valid = record {
        own = others;
        sized = long ∙ w.long ∙ sym max;
        empty = λ e. ground (arith, block);
        fits = omega (arith, valid, max, w.room);
      };
      holds = valid;
      cleared = λ _. ap (take n) (cells_eq (zeroed g n xs) block) ∙ take-replicate n (drop n xs);
      kept = λ off. cc;
      flag = refl;
      never_shrinks = omega (arith, max, w.larger);
    }

clear_if_asked-IsPrepared :
    (c g : ExtBuffer) (n : ℕ)
    → IsGrown c n g
    → (c' : ExtBuffer) × (clear_if_asked (sized g n) ≡ some c') × IsPrepared c n c'
unfolding clear_if_asked
clear_if_asked-IsPrepared c g n w = elim (Bool-cases c.cleartozero) [
  | inl on ↦ (
    zeroed g n (cells c ++ w.rest),
    if-true _ _ (w.same_flag ∙ on)
        ∙ ap (clear_block (sized g n)) w.block
        ∙ clear_lem (sized g n) (cells c ++ w.rest) (omega (arith, w.long, w.room)),
    zeroed-IsPrepared c g n w on,
  )
  | inr off ↦ (sized g n, if-false _ _ (w.same_flag ∙ off), kept-IsPrepared c g n w off)
]

prepare_positive-IsPrepared :
    (m : Memory) (c : ExtBuffer) (n : ℕ)
    → Suffices m
    → IsValid c
    → 0 < n
    → (c' : ExtBuffer) × (prepare_positive m c n ≡ some c') × IsPrepared c n c'
unfolding prepare_positive
prepare_positive-IsPrepared m c n ok v p = elim (Bool-cases (ltb c.buffer_max_size n)) [
  | inl t ↦ rw t (clear_if_asked-IsPrepared c (grow m c n) n (grow-IsGrown c n ok v (ltb→lt _ _ t)))
  | inr f ↦ rw f (clear_if_asked-IsPrepared c c n (cells_of_room c n v p (ground arith)))
]

pub prepare-positive :
    (m : Memory) (c : ExtBuffer) (n : ℕ)
    → 0 < n
    → extbuffer_preparetohandle m c (pos n) ≡ prepare_positive m c n
unfolding extbuffer_preparetohandle
prepare-positive m c zero p = absurd (omega arith)
prepare-positive m c (suc n) p = if-false _ _ not_small
  where
    not_small : leb_ℤ (pos (suc n)) (pos 0) ≡ false
    not_small = ground arith

-- On a valid container and with enough memory `extbuffer_preparetohandle` with a positive size
-- never faults: it gives a
-- valid container of that many elements, cleared if that was asked for and else with the old cells
-- in front, whose memory did not shrink.
pub prepare-IsPrepared :
    (m : Memory) (c : ExtBuffer) (n : ℕ)
    → Suffices m
    → IsValid c
    → 0 < n
    → (c' : ExtBuffer) × (extbuffer_preparetohandle m c (pos n) ≡ some c') × IsPrepared c n c'
prepare-IsPrepared m c n ok v p =
    rw (prepare-positive m c n p) (prepare_positive-IsPrepared m c n ok v p)
