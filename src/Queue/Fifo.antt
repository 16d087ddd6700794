-- ===== src/Queue/Fifo.antt =====
-- The queue as a first-in first-out list of payloads.
use android_rtlpower.Base.{
  ◌≡◌, refl, ◌≢◌, Option, none, some, List, [], ◌∷◌, ◌++◌, map, map-append, arith, ◌==◌,
  if◌then◌else◌,
}
use android_rtlpower.Queue.{Ptr, null, Heap, queue_add, queue_pop}
use android_rtlpower.Queue.Chain.{Cells, IsQueue, SameOutside}
use android_rtlpower.Queue.Add.{add_first, add_more}
use android_rtlpower.Queue.Pop.{pop_empty, pop_first_lem}

abbrev pub payloads : Cells → List Ptr
payloads = map λ c. c.1

-- what a caller sees of one call
pub data Event : Type 0 where
  added popped : Ptr → Event

-- The specification: is this history one of a first-in first-out list that starts as `xs`, and
-- what does the list hold in the end? An empty list answers NULL.
pub accept : List Ptr → List Event → Option (List Ptr)
accept xs [] = some xs
accept xs (added v ∷ es) = accept (xs ++ v ∷ []) es
accept [] (popped v ∷ es) = let rest = accept [] es in if v == null then rest else none
accept (x ∷ xs) (popped v ∷ es) = let rest = accept xs es in if v == x then rest else none

-- Calls of `queue_add` and `queue_pop` one after the other, each `malloc` returning an address
-- that is not in use.
pub data Trace (g : Heap) (r : Ptr) : Heap → Ptr → List Event → Type 0 where
  done : Trace g r g r []
  add :
      {h h' : Heap} {q q' v : Ptr} {es : List Event} (new : Ptr)
      → new ≢ null
      → h new ≡ none
      → queue_add new q v h ≡ some (q', h')
      → Trace g r h' q' es
      → Trace g r h q (added v ∷ es)
  pop :
      {h h' : Heap} {q q' v : Ptr} {es : List Event}
      → queue_pop q h ≡ some ((v, q'), h')
      → Trace g r h' q' es
      → Trace g r h q (popped v ∷ es)

-- With an unused address `queue_add` never faults: it puts the payload behind the others, and
-- changes no other element of the heap.
pub queue_add-append :
    {h : Heap} {q : Ptr} (xs : Cells) (new v : Ptr)
    → IsQueue h q xs
    → new ≢ null
    → h new ≡ none
    → (q' : Ptr) × (g : Heap) × (queue_add new q v h ≡ some (q', g))
      × IsQueue g q' (xs ++ (new, v) ∷ [])
      × SameOutside new xs h g
queue_add-append [] new v s nn unused =
    let (g, run, is, same) = add_first new v s nn in (new, g, run, is, same)
queue_add-append {q} (c ∷ xs) new v s nn unused =
    let (g, run, is, same) = add_more c xs new v s nn unused in (q, g, run, is, same)

moved :
    {g g' : Heap} {q q' : Ptr} {xs : Cells} → IsQueue g q xs → q ≡ q' → g ≡ g' → IsQueue g' q' xs
moved s p e = rw (← p, ← e) s

-- Every history of calls that starts at a queue is one of a first-in first-out list, and leaves a queue that
-- holds what that list holds.
pub Trace-accept :
    {g : Heap} {r : Ptr} {h : Heap} {q : Ptr} {es : List Event} (xs : Cells)
    → Trace g r h q es
    → IsQueue h q xs
    → (ys : Cells) × IsQueue g r ys × (accept (payloads xs) es ≡ some (payloads ys))
unfolding accept
Trace-accept xs done s = (xs, s, refl)
Trace-accept xs (add {v} new nn unused run rest) s =
    let (q1, g1, run', is, _) = queue_add-append xs new v s nn unused in
    let (ys, end, ok) = Trace-accept (xs ++ (new, v) ∷ []) rest (moved is (cc) (cc)) in
    (ys, end, rw (map-append) at ok)
Trace-accept [] (pop run rest) s =
    let run' = pop_empty s in
    let (ys, end, ok) = Trace-accept [] rest (moved s (cc) (cc)) in (ys, end, ground (arith, run'))
Trace-accept (c ∷ xs) (pop run rest) s =
    let (q1, g1, run', is, _, _) = pop_first_lem c xs s in
    let (ys, end, ok) = Trace-accept xs rest (moved is (cc) (cc)) in (ys, end, ground arith)
