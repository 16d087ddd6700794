-- ===== src/Queue/Pop.antt =====
-- `queue_pop` takes the first pointer out, frees its element and makes the next one the first.
use android_rtlpower.Base.{◌≡◌, refl, ◌≢◌, false, none, some, [], ◌∷◌, arith, ap, ◌∙◌}
use android_rtlpower.Queue.{Ptr, null, Element, Heap, write, queue_pop}
use android_rtlpower.Queue.Points.{not_null, load-ok, set_prev-ok, set_last-ok, free-ok}
use android_rtlpower.Queue.Chain.{
  Cells, has, last_of, Chain, nil, cons, frame, frame-write, first-address, Chain-nil, IsQueue,
}

-- the heap after `promote` has made `n` the first element
promoted : (n l : Ptr) → Element → Heap → Heap
promoted n l e h =
    write (write h n (some (record e { prev = null }))) n
      (some (record e { prev = null; last = l }))

half-next :
    (h : Heap) (n : Ptr) (e : Element)
    → write h n (some (record e { prev = null })) n ≡ some (record e { prev = null })
unfolding write
half-next h n e = ground arith

promoted-first :
    (h : Heap) {q : Ptr} (qe e : Element)
    → h q ≡ some qe
    → q ≢ qe.next
    → promoted qe.next qe.last e h q ≡ some qe
unfolding promoted write
promoted-first h qe e at apart = ground arith

Chain-promoted :
    {h : Heap} {back n : Ptr} (l : Ptr) (c : Ptr × Ptr) (xs : Cells)
    → Chain h back n (c ∷ xs)
    → (e : Element) × (h n ≡ some e) × (n ≢ null) × Chain (promoted n l e h) null n (c ∷ xs)
unfolding promoted write
Chain-promoted {n} l c xs (cons e nz at pr pl out rest) = (
  e,
  at,
  nz,
  cons (record e { prev = null; last = l }) nz (ground arith) refl pl out
      (frame rest λ a i. ground arith),
)

-- On an empty queue `queue_pop` returns NULL and changes nothing.
pub pop_empty : {h : Heap} {q : Ptr} → IsQueue h q [] → queue_pop q h ≡ some ((null, q), h)
unfolding queue_pop
pop_empty s = rw (Chain-nil s.chain)

pop_run :
    (h : Heap) {q : Ptr} (qe e : Element)
    → q ≢ null
    → h q ≡ some qe
    → qe.next ≢ null
    → h qe.next ≡ some e
    → q ≢ qe.next
    → queue_pop q h ≡ some ((qe.payload, qe.next), write (promoted qe.next qe.last e h) q none)
unfolding queue_pop promoted
pop_run h {q} qe e nz at nn ne apart =
    rw (not_null nz, load-ok nz h at)
      (rw (not_null nn, set_prev-ok nn h ne null)
        (rw (set_last-ok nn half (half-next h qe.next e) qe.last)
          (rw (free-ok nz (promoted qe.next qe.last e h) (promoted-first h qe e at apart)))))
  where
    half : Heap
    half = write h qe.next (some (record e { prev = null }))

pop_rest :
    {h : Heap} {q : Ptr} (c : Ptr × Ptr) (xs : Cells) (qe : Element)
    → q ≢ null
    → h q ≡ some qe
    → qe.last ≡ last_of null (c ∷ xs)
    → has q xs ≡ false
    → Chain h q qe.next xs
    → (g : Heap) × (queue_pop q h ≡ some ((qe.payload, qe.next), g))
      × IsQueue g qe.next xs
      × (g q ≡ none)
      × ((b : Ptr) → b ≢ q → has b xs ≡ false → g b ≡ h b)
unfolding queue_pop promoted write
pop_rest {h} {q} c [] qe nz at l out (nil z) = (
  write h q none,
  rw (not_null nz, load-ok nz h at) (simp z (rw (free-ok nz h at))),
  record { chain = nil z; tail = λ e _ n. absurd (n z) },
  ground arith,
  λ b ne _. ground arith,
)
pop_rest {h} {q} c (d ∷ ys) qe nz at l out rest =
    let (e, ne, nn, chain) = Chain-promoted qe.last d ys rest in
    (
      write (promoted qe.next qe.last e h) q none,
      pop_run h qe e nz at nn ne (ground (arith, first-address rest)),
      record {
        chain = frame-write q none chain out;
        tail = λ f ft _. ground (arith, first-address rest, l);
      },
      ground arith,
      λ b ne' other. ground (arith, first-address rest),
    )

-- `queue_pop` returns the payload of the first element, frees that element alone, and leaves the
-- others as a queue.
pub pop_first_lem :
    {h : Heap} {q : Ptr} (c : Ptr × Ptr) (xs : Cells)
    → IsQueue h q (c ∷ xs)
    → (q' : Ptr) × (g : Heap) × (queue_pop q h ≡ some ((c.1, q'), g))
      × IsQueue g q' xs
      × (g q ≡ none)
      × ((b : Ptr) → b ≢ q → has b xs ≡ false → g b ≡ h b)
pop_first_lem c xs s = first c xs s.chain s.tail
  where
    first :
        {h : Heap} {q : Ptr} (c : Ptr × Ptr) (xs : Cells)
        → Chain h null q (c ∷ xs)
        → ((e : Element) → h q ≡ some e → q ≢ null → e.last ≡ last_of null (c ∷ xs))
        → (q' : Ptr) × (g : Heap) × (queue_pop q h ≡ some ((c.1, q'), g))
          × IsQueue g q' xs
          × (g q ≡ none)
          × ((b : Ptr) → b ≢ q → has b xs ≡ false → g b ≡ h b)
    first c xs (cons e nz at pr pl out rest) tail =
        let (g, run, is, gone, same) = pop_rest c xs e nz at (tail e at nz) out rest in
        (e.next, g, run ∙ ap (λ (v : Ptr). some ((v, e.next), g)) pl, is, gone, same)
