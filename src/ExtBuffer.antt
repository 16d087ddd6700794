-- ===== src/ExtBuffer.antt =====
-- app/src/main/jni/extbuffer.c: a buffer of samples that grows on demand and keeps its memory.
-- Only one of the five buffers is used, that of the container's type; the cells of all five are
-- integers here (the float buffer is only allocated, cleared and freed by this file).
-- The C library's allocator is a parameter. A write through NULL or behind the end of an
-- allocated block is a fault, `none`.
pub mod Allocator
pub mod Examples
pub mod Valid
mod Zeroing
pub mod Reuse
pub mod Sized
use android_rtlpower.Base.{
  ℕ, zero, suc, ◌+◌, Bool, true, false, Option, none, some, List, length, set, ltb, ◌==◌,
  if◌then◌else◌,
}
use android_rtlpower.Base.Int.{ℤ, pos, pos_part, leb_ℤ}

-- `EXTBUFF_TYPE_INT` and its kin
pub data BufferType : Type 0 where
  int float char short ushort : BufferType

-- `extbuffer_t`; NULL is `none`, and an allocated block is the list of its cells
pub record ExtBuffer : Type 0 where
  pub intbuffer : Option (List ℤ)
  pub floatbuffer : Option (List ℤ)
  pub charbuffer : Option (List ℤ)
  pub shortbuffer : Option (List ℤ)
  pub ushortbuffer : Option (List ℤ)
  pub buffer_max_size : ℕ
  pub buffer_type : BufferType
  pub size_valid_elements : ℕ
  pub valid : Bool
  pub cleartozero : Bool

-- `malloc` and `realloc` of so many cells; NULL is `none`
pub record Memory : Type 0 where
  pub malloc : ℕ → Option (List ℤ)
  pub realloc : List ℤ → ℕ → Option (List ℤ)

-- the `switch (container->type)` to a buffer
abbrev pub buffer : ExtBuffer → Option (List ℤ)
buffer c = elim c.buffer_type [
  | int ↦ c.intbuffer
  | float ↦ c.floatbuffer
  | char ↦ c.charbuffer
  | short ↦ c.shortbuffer
  | ushort ↦ c.ushortbuffer
]

abbrev pub with_buffer : ExtBuffer → Option (List ℤ) → ExtBuffer
with_buffer c b = elim c.buffer_type [
  | int ↦ record c { intbuffer = b }
  | float ↦ record c { floatbuffer = b }
  | char ↦ record c { charbuffer = b }
  | short ↦ record c { shortbuffer = b }
  | ushort ↦ record c { ushortbuffer = b }
]

-- `extbuffer_init`
unfoldable pub extbuffer_init : BufferType → ExtBuffer
extbuffer_init type = record {
  intbuffer = none;
  floatbuffer = none;
  charbuffer = none;
  shortbuffer = none;
  ushortbuffer = none;
  buffer_max_size = 0;
  buffer_type = type;
  size_valid_elements = 0;
  valid = false;
  cleartozero = true;
}

-- the first `switch` of `extbuffer_preparetohandle`, given the buffer that it looks at
grow_block : Memory → ExtBuffer → ℕ → Option (List ℤ) → ExtBuffer
grow_block m c size none = record (with_buffer c (m.malloc size)) { valid = true }
grow_block m c size (some old) =
    with_buffer c (if c.buffer_max_size == size then some old else m.realloc old size)

-- what `extbuffer_preparetohandle` does for `buffer_max_size < size`
grow : Memory → ExtBuffer → ℕ → ExtBuffer
unfolding grow_block
grow m c size = record (grow_block m c size (buffer c)) { buffer_max_size = size }

-- `for (i = 0; i < size_valid_elements; i++) buffer[i] = 0`, with the rounds left and `i`
pub zero_loop : ℕ → ℕ → List ℤ → Option (List ℤ)
zero_loop zero i xs = some xs
zero_loop (suc k) i xs =
    let rest = zero_loop k (i + 1) (set xs i (pos 0)) in if ltb i (length xs) then rest else none

cleared : ExtBuffer → Option (List ℤ) → Option ExtBuffer
cleared c none = none
cleared c (some ys) = some (record (with_buffer c (some ys)) { cleartozero = false })

-- the second `switch` of `extbuffer_preparetohandle`, given the buffer that it looks at
clear_block : ExtBuffer → Option (List ℤ) → Option ExtBuffer
unfolding zero_loop cleared
clear_block c none = none
clear_block c (some xs) = cleared c (zero_loop c.size_valid_elements 0 xs)

-- `if (container->cleartozero)`
clear_if_asked : ExtBuffer → Option ExtBuffer
unfolding clear_block
clear_if_asked c = if c.cleartozero then clear_block c (buffer c) else some c

-- `extbuffer_preparetohandle`, past the test of `size <= 0`
pub prepare_positive : Memory → ExtBuffer → ℕ → Option ExtBuffer
unfolding grow clear_if_asked
prepare_positive m c size =
    let grown = if ltb c.buffer_max_size size then grow m c size else c in
    clear_if_asked (record grown { size_valid_elements = size })

-- `extbuffer_preparetohandle`
unfoldable pub extbuffer_preparetohandle : Memory → ExtBuffer → ℤ → Option ExtBuffer
unfolding prepare_positive
extbuffer_preparetohandle m c size =
    if leb_ℤ size (pos 0)
    then some (record c { size_valid_elements = 0 })
    else prepare_positive m c (pos_part size)

-- `extbuffer_cleartozero`
unfoldable pub extbuffer_cleartozero : ExtBuffer → ExtBuffer
extbuffer_cleartozero c = record c { cleartozero = true }

-- `extbuffer_free`: every buffer that is not NULL is freed and set to NULL
unfoldable pub extbuffer_free : ExtBuffer → ExtBuffer
extbuffer_free c = record c {
  intbuffer = none;
  floatbuffer = none;
  charbuffer = none;
  shortbuffer = none;
  ushortbuffer = none;
  valid = false;
}
