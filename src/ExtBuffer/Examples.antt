-- ===== src/ExtBuffer/Examples.antt =====
-- The theorems on extbuffer.c at containers of `short` cells.
use android_rtlpower.Base.{◌≡◌, refl, true, false, none, some, [], ◌∷◌, arith}
use android_rtlpower.Base.Int.{pos}
use android_rtlpower.ExtBuffer.{
  BufferType, ExtBuffer, buffer, extbuffer_preparetohandle, extbuffer_cleartozero, extbuffer_free,
}
use android_rtlpower.ExtBuffer.Allocator.{fresh_ones, fresh_ones-Suffices}
use android_rtlpower.ExtBuffer.Valid.{IsValid, IsPrepared, prepare-IsPrepared}
use android_rtlpower.ExtBuffer.Reuse.{free_prepare_null, free_prepare_fault}

-- a container of two cells, in use
abbrev two_cells : ExtBuffer
two_cells = record {
  intbuffer = none;
  floatbuffer = none;
  charbuffer = none;
  shortbuffer = some (pos 4 ∷ pos 9 ∷ []);
  ushortbuffer = none;
  buffer_max_size = 2;
  buffer_type = BufferType.short;
  size_valid_elements = 1;
  valid = true;
  cleartozero = false;
}

two_cells-IsValid : IsValid two_cells
two_cells-IsValid = ground arith

prepare-IsPrepared_example :
    (c : ExtBuffer) × (extbuffer_preparetohandle fresh_ones two_cells (pos 5) ≡ some c)
    × IsPrepared two_cells 5 c
prepare-IsPrepared_example =
    prepare-IsPrepared fresh_ones two_cells 5 fresh_ones-Suffices two_cells-IsValid (omega arith)

free_prepare_null_example :
    (c : ExtBuffer) × (extbuffer_preparetohandle fresh_ones (extbuffer_free two_cells) (pos 2)
      ≡ some c)
    × (c.size_valid_elements ≡ 2)
    × (buffer c ≡ none)
free_prepare_null_example =
    free_prepare_null fresh_ones two_cells 2 (omega arith) (omega arith) refl

free_prepare_fault_example :
    extbuffer_preparetohandle fresh_ones (extbuffer_cleartozero (extbuffer_free two_cells)) (pos 2)
    ≡ none
free_prepare_fault_example = free_prepare_fault fresh_ones two_cells 2 (omega arith) (omega arith)
