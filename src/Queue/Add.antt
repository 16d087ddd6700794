-- ===== src/Queue/Add.antt =====
-- `queue_add` puts the pointer behind the others and links the new element both ways.
use android_rtlpower.Base.{◌≡◌, refl, ◌≢◌, none, some, [], ◌∷◌, ◌++◌, arith, ◌==◌, if◌then◌else◌}
use android_rtlpower.Queue.{Ptr, null, Element, Heap, write, queue_add}
use android_rtlpower.Queue.Points.{not_null, load-ok, store_new-ok, set_next-ok, set_last-ok}
use android_rtlpower.Queue.Chain.{
  Cells, last_of, nil, cons, frame-write, Chain-set_last, not-has_of_none, last_of-allocated,
  last_of-ne-null, Chain-append, has-last_of, Chain-nil, first-allocated, first-address, IsQueue,
  SameOutside,
}

pub add_first :
    {h : Heap} {q : Ptr} (new v : Ptr)
    → IsQueue h q []
    → new ≢ null
    → (g : Heap) × (queue_add new q v h ≡ some (new, g))
      × IsQueue g new ((new, v) ∷ [])
      × SameOutside new [] h g
unfolding queue_add write
add_first {h} {q} new v s nn = (
  write h new (some first),
  rw (Chain-nil s.chain, store_new-ok h nn first),
  record {
    chain = cons first nn (ground arith) refl refl refl (nil refl);
    tail = λ e at _. ground arith;
  },
  λ b ne _. ground arith,
)
  where
    first : Element
    first = record { next = null; prev = null; last = new; payload = v }

-- the heaps of `queue_add`, write by write
abbrev newcomer : (v l : Ptr) → Element
newcomer v l = record { next = null; prev = l; last = null; payload = v }

with_new : (new v l : Ptr) → Heap → Heap
with_new new v l h = write h new (some (newcomer v l))

linked : (new v l : Ptr) (e : Element) → Heap → Heap
linked new v l e h = write (with_new new v l h) l (some (record e { next = new }))

relinked : (q new l : Ptr) (qe e : Element) → Element
relinked q new l qe e = if q == l then record e { next = new } else qe

added : (q new v l : Ptr) (qe e : Element) → Heap → Heap
added q new v l qe e h =
    write (linked new v l e h) q (some (record (relinked q new l qe e) { last = new }))

with_new-old :
    (h : Heap) {l : Ptr} {e : Element} (new v m : Ptr)
    → h l ≡ some e
    → h new ≡ none
    → with_new new v m h l ≡ some e
unfolding with_new write
with_new-old h new v m le unused = ground arith

linked-first :
    (h : Heap) {q l : Ptr} {qe e : Element} (new v : Ptr)
    → h q ≡ some qe
    → h l ≡ some e
    → h new ≡ none
    → linked new v l e h q ≡ some (relinked q new l qe e)
unfolding with_new linked relinked write
linked-first h new v at le unused = ground arith

add_run :
    (h : Heap) (q new v l : Ptr) (qe e : Element)
    → q ≢ null
    → h q ≡ some qe
    → qe.last ≡ l
    → l ≢ null
    → h l ≡ some e
    → new ≢ null
    → h new ≡ none
    → queue_add new q v h ≡ some (q, added q new v l qe e h)
unfolding queue_add with_new linked added
add_run h q new v l qe e nz at is ln le nn unused =
    rw (not_null nz, load-ok nz h at)
      (simp (is, store_new-ok h nn (newcomer v l))
        (rw (set_next-ok ln (with_new new v l h) (with_new-old h new v l le unused) new)
          (rw (set_last-ok nz (linked new v l e h) (linked-first h new v at le unused) new))))

last_of-append : (d : Ptr) (xs : Cells) (new v : Ptr) → last_of d (xs ++ (new, v) ∷ []) ≡ new
last_of-append d [] new v = refl
last_of-append d ((p, w) ∷ xs) new v = last_of-append p xs new v

pub add_more :
    {h : Heap} {q : Ptr} (c : Ptr × Ptr) (xs : Cells) (new v : Ptr)
    → IsQueue h q (c ∷ xs)
    → new ≢ null
    → h new ≡ none
    → (g : Heap) × (queue_add new q v h ≡ some (q, g))
      × IsQueue g q ((c ∷ xs) ++ (new, v) ∷ [])
      × SameOutside new (c ∷ xs) h g
unfolding added linked with_new write
add_more {h} {q} c xs new v s nn unused =
    let l : Ptr = last_of null (c ∷ xs) in
    let (qe, at, nz) = first-allocated s.chain in
    let (e, le) = last_of-allocated c xs s.chain in
    let fresh = not-has_of_none new s.chain unused in
    let ln = last_of-ne-null c xs s.chain in
    let old = frame-write new (some (newcomer v l)) s.chain fresh in
    let chain =
      Chain-append c xs new v e (newcomer v l) old (with_new-old h new v l le unused) (ground arith)
        refl refl refl nn fresh in
    (
      added q new v l qe e h,
      add_run h q new v l qe e nz at (s.tail qe at nz) ln le nn unused,
      record {
        chain = Chain-set_last q new _ (linked-first h new v at le unused) chain;
        tail = λ f ft _. ground (arith, last_of-append c.0 xs new v);
      },
      λ b ne out. ground (arith, has-last_of c.0 c.1 xs, first-address s.chain),
    )
