-- ===== src/SdrTcp/Pipeline/Examples.antt =====
-- The theorems on the pipeline at the pool that `sdrtcp_open_socket` sets up, and one packet.
use android_rtlpower.Base.{
  ℕ, ◌≡◌, ◌≤◌, refl, sym, true, none, List, [], ◌∷◌, ◌++◌, map, length, arith,
}
use mathlib.Core.Path.{subst}
use android_rtlpower.Base.Int.{ℤ, pos}
use android_rtlpower.Queue.{null}
use android_rtlpower.ExtBuffer.{BufferType}
use android_rtlpower.ExtBuffer.Allocator.{fresh_ones, fresh_ones-Suffices}
use android_rtlpower.WorkPool.{Pool}
use android_rtlpower.WorkPool.Invariant.{IsPool}
use android_rtlpower.WorkPool.Invariant.Freeing.{no_cells, fresh-IsPool}
use android_rtlpower.SdrTcp.Pipeline.{bytes_of, Feeding, Serving, Line, Run}
use android_rtlpower.SdrTcp.Pipeline.Packets.{concat}
use android_rtlpower.SdrTcp.Pipeline.Filled.{feeds-runs}
use android_rtlpower.SdrTcp.Pipeline.Conserved.{at_rest, at_rest-IsLine, Run-concat}
use android_rtlpower.SdrTcp.Pipeline.Draining.{AllFit, Run-drains}

abbrev new_pool : Pool
new_pool = record {
  heap = λ a. none;
  buffers = λ a. none;
  queues = λ i. null;
  max_elements = 5;
  max_ids = 2;
  elements = 0;
  leaked = 0;
  extbuffer_type = BufferType.ushort;
  valid = true;
}

new_pool-IsPool : IsPool new_pool no_cells []
new_pool-IsPool = fresh-IsPool new_pool refl refl λ a. refl

-- "RTL0", and two numbers
abbrev info : List ℤ
info = pos 0x5452 ∷ pos 0x304c ∷ pos 0 ∷ pos 0x0500 ∷ pos 0 ∷ pos 0x1d00 ∷ []

fed_info :
    (f : Line) × Run fresh_ones 32 (at_rest new_pool) f
    × (f.fed ≡ info ∷ [])
    × (f.feeding ≡ Feeding.idle)
    × (f.serving ≡ Serving.idle)
fed_info =
    feeds-runs fresh_ones fresh_ones-Suffices info (omega arith) (omega arith) 32 (at_rest new_pool)
      (at_rest-IsLine new_pool 0 new_pool-IsPool refl refl λ a h. refl) 7 refl refl (omega arith)
      (omega arith) refl

Run-concat_example :
    (packets unsent : List (List ℕ)) × ((fed_info.0).wire ≡ concat packets)
    × (map bytes_of (fed_info.0).fed ≡ packets ++ unsent)
    × (length unsent ≤ ((fed_info.0).pool).max_elements)
Run-concat_example =
    Run-concat fresh_ones 32 new_pool 0 fed_info.0 new_pool-IsPool refl refl (λ a h. refl)
      fed_info.1

info_fits : AllFit 32 (map bytes_of (fed_info.0).fed)
unfolding AllFit bytes_of
info_fits = subst (λ fed. AllFit 32 (map bytes_of fed)) (sym fed_info.2) (omega arith, tt)

Run-drains_example :
    (g : Line) × Run fresh_ones 32 fed_info.0 g
    × (g.fed ≡ (fed_info.0).fed)
    × (g.wire ≡ concat (map bytes_of (fed_info.0).fed))
Run-drains_example =
    Run-drains fresh_ones 32 new_pool 0 fed_info.0 new_pool-IsPool refl refl (λ a h. refl)
      fed_info.1 info_fits
