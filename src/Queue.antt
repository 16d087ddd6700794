-- ===== src/Queue.antt =====
-- app/src/main/jni/queue.c: a doubly linked queue of pointers, over an explicit heap.
-- A `queue_t` is the address of its first element, outside the heap, so a function that is given
-- `queue_t *` returns the new address. `malloc` is a parameter: the address that it returns.
-- A command that reads or writes through NULL, or through an address that is not allocated,
-- faults (`none`).
pub mod Add
pub mod Chain
pub mod Examples
pub mod Fifo
pub mod Points
pub mod Pop
use android_rtlpower.Base.{ℕ, Option, none, some, ◌==◌, if◌then◌else◌}

abbrev pub Ptr : Type 0
Ptr = ℕ

abbrev pub null : Ptr
null = 0

-- `struct queue_element`
pub record Element : Type 0 where
  pub next : Ptr
  pub prev : Ptr
  pub last : Ptr
  pub payload : Ptr

abbrev pub Heap : Type 0
Heap = Ptr → Option Element

unfoldable pub write : Heap → Ptr → Option Element → Heap
write h p c a = if a == p then c else h a

abbrev pub Cmd : Type 0 → Type 0
Cmd A = Heap → Option (A × Heap)

abbrev pub pure : {A : Type 0} → A → Cmd A
pure a h = some (a, h)

abbrev pub and_then : {A B : Type 0} → Option (A × Heap) → (A → Cmd B) → Option (B × Heap)
and_then none k = none
and_then (some (a, h)) k = k a h

infixl 5 ◌>>=◌ ◌>>◌
abbrev pub ◌>>=◌ : {A B : Type 0} → Cmd A → (A → Cmd B) → Cmd B
m >>= k = λ h. and_then (m h) k

abbrev pub ◌>>◌ : {B : Type 0} → Cmd (Unit {0}) → Cmd B → Cmd B
m >> k = m >>= λ _. k

-- `*p`
unfoldable pub load : Ptr → Cmd Element
load p h = if p == null then none else elim (h p) [ none ↦ none | some e ↦ some (e, h) ]

-- the first write to the element that `malloc` returned
unfoldable pub store_new : Ptr → Element → Cmd (Unit {0})
store_new p e h = if p == null then none else some (tt, write h p (some e))

-- `p->next = q`, `p->prev = q`, `p->last = q`
unfoldable pub set_next : Ptr → Ptr → Cmd (Unit {0})
set_next p q = do e ← load p; λ h. some (tt, write h p (some (record e { next = q })))

unfoldable pub set_prev : Ptr → Ptr → Cmd (Unit {0})
set_prev p q = do e ← load p; λ h. some (tt, write h p (some (record e { prev = q })))

unfoldable pub set_last : Ptr → Ptr → Cmd (Unit {0})
set_last p q = do e ← load p; λ h. some (tt, write h p (some (record e { last = q })))

unfoldable pub free : Ptr → Cmd (Unit {0})
free p = do _ ← load p; λ h. some (tt, write h p none)

-- `queue_add` on an empty queue
add_to_empty : (new_el ptr : Ptr) → Cmd Ptr
add_to_empty new_el ptr = do
  store_new new_el (record { next = null; prev = null; last = new_el; payload = ptr })
  pure new_el

-- `queue_add` behind the last element
add_behind : (new_el queue ptr : Ptr) → Cmd Ptr
add_behind new_el queue ptr = do
  qe ← load queue
  store_new new_el (record { next = null; prev = qe.last; last = null; payload = ptr })
  set_next qe.last new_el
  set_last queue new_el
  pure queue

-- `queue_add`, with `new_el` for what `malloc` returns
pub queue_add : (new_el queue ptr : Ptr) → Cmd Ptr
unfolding add_to_empty add_behind
queue_add new_el queue ptr h =
    if queue == null then add_to_empty new_el ptr h else add_behind new_el queue ptr h

-- what `queue_pop` does to the element that becomes the first
promote : Element → Cmd (Unit {0})
promote qe h =
    if qe.next == null then some (tt, h) else (set_prev qe.next null >> set_last qe.next qe.last) h

-- `queue_pop` on a queue that is not empty
pop_first : Ptr → Cmd (Ptr × Ptr)
unfolding promote
pop_first queue = do qe ← load queue; promote qe; free queue; pure (qe.payload, qe.next)

-- `queue_pop`: the payload, and the new first element
pub queue_pop : Ptr → Cmd (Ptr × Ptr)
unfolding pop_first
queue_pop queue h = if queue == null then some ((null, queue), h) else pop_first queue h
