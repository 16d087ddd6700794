-- ===== src/ExtBuffer/Reuse.antt =====
-- A container that `extbuffer_free` has freed still claims the memory that it had.
use android_rtlpower.Base.{ℕ, ◌≤◌, ◌<◌, ◌≡◌, false, none, some, arith}
use android_rtlpower.Base.Int.{pos}
use android_rtlpower.ExtBuffer.{
  ExtBuffer, Memory, buffer, extbuffer_preparetohandle, extbuffer_free, extbuffer_cleartozero,
  prepare_positive, clear_if_asked,
}
use android_rtlpower.ExtBuffer.Valid.{prepare-positive}

freed_buffer : (c : ExtBuffer) → buffer (extbuffer_free c) ≡ none
unfolding extbuffer_free
freed_buffer c = ground arith

-- Prepared again for at most the old number of elements after `extbuffer_free`, a container
-- promises that many elements and has no buffer: no memory is allocated.
pub free_prepare_null :
    (m : Memory) (c : ExtBuffer) (n : ℕ)
    → 0 < n
    → n ≤ c.buffer_max_size
    → c.cleartozero ≡ false
    → (c' : ExtBuffer) × (extbuffer_preparetohandle m (extbuffer_free c) (pos n) ≡ some c')
      × (c'.size_valid_elements ≡ n)
      × (buffer c' ≡ none)
unfolding prepare_positive clear_if_asked extbuffer_free
free_prepare_null m c n p h off = (
  record (extbuffer_free c) { size_valid_elements = n },
  rw (prepare-positive m (extbuffer_free c) n p) (ground arith),
  ground arith,
  ground arith,
)

-- If clearing was asked for, the same call writes through NULL.
pub free_prepare_fault :
    (m : Memory) (c : ExtBuffer) (n : ℕ)
    → 0 < n
    → n ≤ c.buffer_max_size
    → extbuffer_preparetohandle m (extbuffer_cleartozero (extbuffer_free c)) (pos n) ≡ none
unfolding prepare_positive clear_if_asked extbuffer_free extbuffer_cleartozero
free_prepare_fault m c n p h =
    rw (prepare-positive m (extbuffer_cleartozero (extbuffer_free c)) n p) (ground arith)
