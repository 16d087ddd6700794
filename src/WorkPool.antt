-- ===== src/WorkPool.antt =====
-- app/src/main/jni/workpool.c: buffers that travel from stage to stage, one queue for each stage.
-- The queues are those of queue.c in one heap. A function is given the addresses that its calls of
-- `malloc` return; `malloc` of the arrays of queues is taken to work. A mutex makes each region
-- that it guards one step: `add`, and the two halves of `pop`. What other threads do while
-- `pthread_cond_timedwait` has released the mutex is a parameter, `wait`. A fault is `none`.
pub mod Contents
pub mod Invariant
pub mod Runs
mod Examples
use android_rtlpower.Base.{
  ℕ, zero, suc, ◌+◌, ◌-◌, Bool, true, false, not, ◌&&◌, Option, none, some, List, ◌==◌, ltb,
  if◌then◌else◌,
}
use android_rtlpower.Base.Int.{ℤ, pos, leb_ℤ, pos_part}
use android_rtlpower.Queue.{Ptr, null, Heap, queue_add, queue_pop}
use android_rtlpower.ExtBuffer.{
  BufferType, ExtBuffer, Memory, extbuffer_init, extbuffer_preparetohandle, extbuffer_free,
}

-- `workpool_t`, with the memory that it reaches: the elements of the queues in `heap`, and the
-- buffers. `leaked` counts the blocks of samples whose only pointer went with a buffer's memory
pub record Pool : Type 0 where
  pub heap : Heap
  pub buffers : Ptr → Option ExtBuffer
  pub leaked : ℕ
  pub queues : ℕ → Ptr
  pub max_elements : ℕ
  pub max_ids : ℕ
  pub elements : ℕ
  pub extbuffer_type : BufferType
  pub valid : Bool

abbrev pub put_at {ℓ} : {A : Type ℓ} → (ℕ → A) → ℕ → A → ℕ → A
put_at f i v j = if j == i then v else f j

abbrev pub then_pool : {A : Type 0} → Option A → (A → Option (Ptr × Pool)) → Option (Ptr × Pool)
then_pool none k = none
then_pool (some a) k = k a

abbrev pub popped : Pool → ℕ → (Ptr × Ptr) × Heap → Option (Ptr × Pool)
popped p id ((v, q), h) = some (v, record p { heap = h; queues = put_at p.queues id q })

-- `queue_pop(&pool->queues[id])`
pub try_pop : (id : ℕ) → Pool → Option (Ptr × Pool)
try_pop id p = then_pool (queue_pop (p.queues id) p.heap) (popped p id)

-- the region of `pop` behind the wait
pop_again : (wait : Pool → Option Pool) → (id : ℕ) → Pool → Option (Ptr × Pool)
unfolding try_pop
pop_again wait id p = then_pool (wait p) (try_pop id)

-- `if (result == NULL && block)`
pop_or_wait :
    (wait : Pool → Option Pool) → (id : ℕ) → (block : Bool) → Ptr × Pool → Option (Ptr × Pool)
unfolding pop_again
pop_or_wait wait id block (result, p) =
    if (result == null) && block then pop_again wait id p else some (result, p)

-- `pop(pool, id, block)`
pub pop : (wait : Pool → Option Pool) → (id : ℕ) → (block : Bool) → Pool → Option (Ptr × Pool)
unfolding pop_or_wait
pop wait id block p =
    if p.valid then then_pool (try_pop id p) (pop_or_wait wait id block) else some (null, p)

abbrev queued : Pool → ℕ → Option (Ptr × Heap) → Option Pool
queued p id none = none
queued p id (some (q, h)) = some (record p { heap = h; queues = put_at p.queues id q })

-- `queue_add(&pool->queues[id], buffer)`, `new_el` being the element that it allocates
pub append : (new_el : Ptr) → (id : ℕ) → (buffer : Ptr) → Pool → Option Pool
append new_el id buffer p = queued p id (queue_add new_el (p.queues id) buffer p.heap)

-- `add(pool, id, buffer)`
pub add : (new_el : Ptr) → (id : ℕ) → (buffer : Ptr) → Pool → Option Pool
unfolding append
add new_el id buffer p = if p.valid then append new_el id buffer p else some p

-- a new buffer at the address that `malloc` returned; NULL is written through
pub create : (new_buffer : Ptr) → Pool → Option (Ptr × Pool)
create new_buffer p =
    if new_buffer == null
    then none
    else some (
      new_buffer,
      record p {
        buffers = put_at p.buffers new_buffer (some (extbuffer_init p.extbuffer_type));
        elements = p.elements + 1;
      },
    )

-- `if (result == NULL)` of `pool_get_wait_lock`
get_other :
    (wait : Pool → Option Pool)
    → (new_buffer : Ptr) → (id : ℕ) → (block : Bool) → Ptr × Pool
    → Option (Ptr × Pool)
unfolding pop create
get_other wait new_buffer id block (result, p) =
    if not (result == null)
    then some (result, p)
    else if (id == 0) && ltb p.elements p.max_elements
    then create new_buffer p
    else if block
    then pop wait id true p
    else some (result, p)

-- `pool_get_wait_lock(pool, id, block)`
pub pool_get_wait_lock :
    (wait : Pool → Option Pool)
    → (new_buffer : Ptr) → (id : ℕ) → (block : Bool) → Pool
    → Option (Ptr × Pool)
unfolding get_other pop
pool_get_wait_lock wait new_buffer id block p =
    if p.valid
    then then_pool (pop wait id false p) (get_other wait new_buffer id block)
    else some (null, p)

abbrev with_buffers : Pool → Ptr → Option ExtBuffer → Option Pool
with_buffers p buffer none = none
with_buffers p buffer (some b) = some (record p { buffers = put_at p.buffers buffer (some b) })

abbrev prepared : Memory → Option ExtBuffer → Option ExtBuffer
prepared m none = none
prepared m (some b) = extbuffer_preparetohandle m b (pos 0)

-- `extbuffer_preparetohandle(buffer, 0)`
pub reset_buffer : Memory → Ptr → Pool → Option Pool
reset_buffer m buffer p = with_buffers p buffer (prepared m (p.buffers buffer))

abbrev pub and_pool : Option Pool → (Pool → Option Pool) → Option Pool
and_pool none k = none
and_pool (some p) k = k p

-- `pool_get_unlock(pool, id, buffer)`; `id` and `max_ids - 1` are compared as `int`
pub pool_get_unlock : Memory → (new_el : Ptr) → (id : ℕ) → (buffer : Ptr) → Pool → Option Pool
unfolding add reset_buffer
pool_get_unlock m new_el id buffer p =
    if not p.valid
    then some p
    else if id + 1 == p.max_ids
    then and_pool (reset_buffer m buffer p) (add new_el 0 buffer)
    else add new_el (id + 1) buffer p

-- `pool_init(pool, max_elements, extbuffer_type)`, from the memory that there is
pub pool_init : (max_elements : ℕ) → BufferType → Pool → Pool
pool_init max_elements extbuffer_type p = record p {
  queues = λ i. null;
  max_elements = max_elements;
  max_ids = 0;
  elements = 0;
  extbuffer_type = extbuffer_type;
  valid = false;
}

abbrev pub one_block : Option (List ℤ) → ℕ
one_block none = 0
one_block (some xs) = 1

-- the blocks of samples that a buffer points to
abbrev pub blocks_of : Option ExtBuffer → ℕ
blocks_of none = 0
blocks_of (some b) =
    one_block b.intbuffer
    + one_block b.floatbuffer
    + one_block b.charbuffer
    + one_block b.shortbuffer
    + one_block b.ushortbuffer

abbrev pub freed : Option ExtBuffer → Option ExtBuffer
freed none = none
freed (some b) = some (extbuffer_free b)

-- `extbuffer_free(buff)`
pub free_samples : Ptr → Pool → Pool
free_samples buff p = record p { buffers = put_at p.buffers buff (freed (p.buffers buff)) }

-- `free(buff)`
pub free_struct : Ptr → Pool → Pool
free_struct buff p = record p {
  buffers = put_at p.buffers buff none;
  leaked = p.leaked + blocks_of (p.buffers buff);
}

-- the body of the loop of `pool_free`
pub discard : Ptr → Pool → Pool
unfolding free_samples free_struct
discard buff p = record (free_struct buff (free_samples buff p)) { elements = p.elements - 1 }

abbrev drained : (Ptr → Pool → Option Pool) → Option (Ptr × Pool) → Option Pool
drained go_on none = none
drained go_on (some (buff, p)) = if buff == null then some p else go_on buff p

-- `while ((buff = queue_pop(&pool->queues[i])))`, on fuel; `none` if it runs out
pub drain : ℕ → (id : ℕ) → Pool → Option Pool
unfolding try_pop discard
drain zero id p = none
drain (suc fuel) id p = drained (λ buff q. drain fuel id (discard buff q)) (try_pop id p)

-- `for (i = 0; i < pool->max_ids; i++)`, with the rounds left
pub drain_all : ℕ → ℕ → (id : ℕ) → Pool → Option Pool
unfolding drain
drain_all fuel zero id p = some p
drain_all fuel (suc left) id p = and_pool (drain fuel id p) (drain_all fuel left (id + 1))

-- `pool_free(pool)`
pub pool_free : ℕ → Pool → Option Pool
unfolding drain_all
pool_free fuel p =
    if p.max_ids == 0
    then some (record p { valid = false })
    else and_pool (drain_all fuel p.max_ids 0 p)
        λ q. some (record q { max_ids = 0; elements = 0; valid = false })

-- `pool_set_threads(pool, number_of_ids)`
pub pool_set_threads : ℕ → (number_of_ids : ℤ) → Pool → Option Pool
unfolding pool_free
pool_set_threads fuel number_of_ids p =
    if leb_ℤ number_of_ids (pos 0)
    then some p
    else and_pool (pool_free fuel p)
        λ q. some (record q { max_ids = pos_part number_of_ids; queues = λ i. null; valid = true })
