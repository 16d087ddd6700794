-- ===== src/WorkPool/Examples.antt =====
-- The theorems on workpool.c at a pool of two stages and at most two buffers.
use android_rtlpower.Base.{
  ℕ, ◌≡◌, ◌≤◌, ◌⊎◌, ◌≢◌, refl, sym, ◌∙◌, true, false, none, some, List, [], ◌∷◌, arith, suc,
}
use mathlib.Core.Path.{subst}
use mathlib.Core.Option.{some-injective}
use android_rtlpower.Queue.{Ptr, null}
use android_rtlpower.ExtBuffer.{BufferType, ExtBuffer, extbuffer_init}
use android_rtlpower.ExtBuffer.Allocator.{fresh_ones}
use android_rtlpower.WorkPool.{Pool, put_at, create, pool_get_wait_lock, pool_get_unlock, pool_free}
use android_rtlpower.WorkPool.Invariant.{occ, one_if, IsPool, create-IsPool}
use android_rtlpower.WorkPool.Invariant.Calls.{Gets, pool_get_wait_lock-IsPool}
use android_rtlpower.WorkPool.Invariant.Unlock.{pool_get_unlock-IsPool}
use android_rtlpower.WorkPool.Invariant.Freeing.{IsEnough, no_cells, fresh-IsPool, pool_free-held}
use android_rtlpower.WorkPool.Runs.{done, and_then, made, Run-IsPool}

abbrev two_stages : Pool
two_stages = record {
  heap = λ a. none;
  buffers = λ a. none;
  queues = λ i. null;
  max_elements = 2;
  max_ids = 2;
  elements = 0;
  leaked = 0;
  extbuffer_type = BufferType.short;
  valid = true;
}

two_stages-IsPool : IsPool two_stages no_cells []
two_stages-IsPool = fresh-IsPool two_stages refl refl λ a. refl

-- the pool when a buffer has been made at the address 3
abbrev one_made : Pool
one_made = record two_stages {
  buffers = put_at two_stages.buffers 3 (some (extbuffer_init BufferType.short));
  elements = 1;
}

make : create 3 two_stages ≡ some (3, one_made)
unfolding create
make = refl

one_made-IsPool : IsPool one_made no_cells (3 ∷ [])
one_made-IsPool =
    let (p, run, after, _, _, _, _) =
      create-IsPool two_stages no_cells [] two_stages-IsPool 3 (omega arith) refl (omega arith) in
    subst (λ (t : Ptr × Pool). IsPool t.1 no_cells (3 ∷ []))
      (some-injective (3, p) (3, one_made) (sym run ∙ make)) after

pool_get_wait_lock-IsPool_example :
    Gets (pool_get_wait_lock (λ p. some p) 3 0 true two_stages) []
    ⊎ Gets (pool_get_wait_lock (λ p. some p) 3 0 true two_stages) []
pool_get_wait_lock-IsPool_example =
    pool_get_wait_lock-IsPool (λ p. some p) 3 0 two_stages two_stages no_cells no_cells [] []
      two_stages-IsPool refl (omega arith) (omega arith) refl refl two_stages-IsPool (omega arith)
      true

pool_get_unlock-IsPool_example :
    (p : Pool) × (pool_get_unlock fresh_ones 8 1 3 one_made ≡ some p)
    × IsPool p (put_at no_cells 0 ((8, 3) ∷ [])) []
    × (p.max_ids ≡ 2)
    × (p.valid ≡ true)
    × (suc 1 ≡ one_made.max_ids
        → (b : ExtBuffer) × (p.buffers 3 ≡ some b) × (b.size_valid_elements ≡ 0))
    × ((a : Ptr) → a ≢ 3 → p.buffers a ≡ one_made.buffers a)
    × (suc 1 ≢ one_made.max_ids → p.buffers ≡ one_made.buffers)
pool_get_unlock-IsPool_example =
    pool_get_unlock-IsPool fresh_ones one_made no_cells 3 [] one_made-IsPool 8 1 refl (omega arith)
      (omega arith) refl

abbrev one_cell : ℕ → List (Ptr × Ptr)
one_cell = put_at no_cells 1 ((8, 3) ∷ [])

-- the pool when the buffer has been handed on to the second stage
one_queued :
    (p : Pool) × (pool_get_unlock fresh_ones 8 0 3 one_made ≡ some p) × IsPool p one_cell []
one_queued =
    let (p, run, is, _, _, _, _, _) =
      pool_get_unlock-IsPool fresh_ones one_made no_cells 3 [] one_made-IsPool 8 0 refl
        (omega arith) (omega arith) refl in
    (p, run, is)

enough : IsEnough 2 one_cell
enough j = ground arith

pool_free-held_example :
    (p : Pool) × (pool_free 2 one_queued.0 ≡ some p)
    × ((a : Ptr) → one_if (p.buffers a) ≡ occ a [])
    × (p.valid ≡ false)
    × (p.max_ids ≡ 0)
    × (p.elements ≤ 0)
    × (p.leaked ≡ (one_queued.0).leaked)
pool_free-held_example = pool_free-held 2 one_queued.0 one_cell [] one_queued.2 enough

Run-IsPool_example :
    (cells : ℕ → List (Ptr × Ptr)) × IsPool one_made cells (3 ∷ []) × (one_made.valid ≡ true)
Run-IsPool_example =
    Run-IsPool fresh_ones two_stages one_made no_cells [] (3 ∷ []) two_stages-IsPool refl
      (and_then (made 3 (omega arith) (omega arith) refl make) done)
