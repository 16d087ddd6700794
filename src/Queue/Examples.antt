-- ===== src/Queue/Examples.antt =====
-- The queue's theorems at a run that adds two pointers and takes one out.
use android_rtlpower.Base.{◌≡◌, refl, none, some, List, [], ◌∷◌, arith}
use android_rtlpower.Queue.{
  Ptr, null, Heap, write, load, store_new, set_next, set_prev, set_last, free, add_to_empty,
  add_behind, queue_add, promote, pop_first, queue_pop,
}
use android_rtlpower.Queue.Chain.{Cells, nil, cons, IsQueue}
use android_rtlpower.Queue.Fifo.{
  payloads, Event, added, popped, accept, Trace, done, add, pop, Trace-accept,
}

abbrev nothing : Heap
nothing a = none

nothing-IsQueue : IsQueue nothing null []
nothing-IsQueue = record { chain = nil refl; tail = λ e at nz. absurd (nz refl) }

abbrev only : Heap
only = write nothing 5 (some (record { next = 0; prev = 0; last = 5; payload = 7 }))

only-IsQueue : IsQueue only 5 ((5, 7) ∷ [])
unfolding write
only-IsQueue = record {
  chain =
      cons (record { next = 0; prev = 0; last = 5; payload = 7 }) (omega arith) refl refl refl refl
        (nil refl);
  tail = λ e at nz. ground arith;
}

abbrev calls : List Event
calls = added 7 ∷ added 8 ∷ popped 7 ∷ []

run : (g : Heap) × (r : Ptr) × Trace g r nothing null calls
unfolding queue_add add_to_empty add_behind queue_pop pop_first promote write load store_new
    set_next set_prev set_last free
run = (_, _, add 5 (omega arith) refl refl (add 6 (omega arith) refl refl (pop refl done)))

Trace-accept_example :
    (ys : Cells) × IsQueue run.0 run.1 ys × (accept [] calls ≡ some (payloads ys))
Trace-accept_example = Trace-accept [] run.2 nothing-IsQueue
