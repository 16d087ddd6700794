-- ===== src/SdrTcp/Pipeline.antt =====
-- The way of the samples through sdrtcp.c and workpool.c: `sdrtcp_feed`, and before it
-- `sdrtcp_open_socket` with the dongle's info, fill a buffer of stage 0 of the pool and hand it on,
-- and `serveClient` takes it at stage 1, sends it and gives it back. The two run in threads of their
-- own. A step here is what the mutexes of workpool.c make whole, or what a thread does to a buffer
-- that it alone holds. The server is serving throughout.
pub mod Conserved
pub mod Draining
pub mod Examples
pub mod Filling
pub mod Calls
pub mod Fed
pub mod Filled
pub mod Served
pub mod Packets
use android_rtlpower.Base.{
  ℕ, zero, suc, ◌*◌, ◌/◌, ◌%◌, ◌^◌, ◌≤◌, ◌<◌, ◌≡◌, ◌≢◌, true, Option, none, some, List, [], ◌∷◌,
  ◌++◌, length, take, drop, ◌==◌, leb, if◌then◌else◌,
}
use android_rtlpower.Base.Int.{ℤ, pos, pos_part, to_int32}
use android_rtlpower.Queue.{Ptr, null}
use android_rtlpower.ExtBuffer.{ExtBuffer, Memory, extbuffer_preparetohandle}
use android_rtlpower.WorkPool.{Pool, put_at, try_pop, create, pool_get_unlock}
use android_rtlpower.SdrTcp.Transfer.{Round, send_buffer}
use android_rtlpower.SdrTcp.Transfer.Complete.{AllDeliver, count_ready}

-- the bytes of `uint16_t` cells, on a machine that is little-endian
unfoldable pub bytes_of : List ℤ → List ℕ
bytes_of [] = []
bytes_of (x ∷ xs) = pos_part x % 256 ∷ pos_part x / 256 % 256 ∷ bytes_of xs

-- the bytes of so many cells of a block; a read through NULL or behind the block is a fault
pub read_block : (size_valid_elements : ℕ) → Option (List ℤ) → Option (List ℕ)
unfolding bytes_of
read_block size_valid_elements none = if size_valid_elements == 0 then some [] else none
read_block size_valid_elements (some xs) =
    if leb size_valid_elements (length xs)
    then some (bytes_of (take size_valid_elements xs))
    else none

-- the bytes that `serveClient` sends of a buffer
pub data_to_send : ExtBuffer → Option (List ℕ)
unfolding read_block
data_to_send buff = read_block buff.size_valid_elements buff.ushortbuffer

-- `memcpy` of `buf` to a block; a write through NULL or behind the block is a fault
pub copy_block : (buf : List ℤ) → ExtBuffer → Option (List ℤ) → Option ExtBuffer
copy_block buf buff none = if length buf == 0 then some buff else none
copy_block buf buff (some xs) =
    if leb (length buf) (length xs)
    then some (record buff { ushortbuffer = some (buf ++ drop (length buf) xs) })
    else none

-- `memcpy(buff->ushortbuffer, buf, sizeof(uint16_t) * len)`
pub copy_in : (buf : List ℤ) → ExtBuffer → Option ExtBuffer
unfolding copy_block
copy_in buf buff = copy_block buf buff buff.ushortbuffer

abbrev pub and_copy : (buf : List ℤ) → Option ExtBuffer → Option ExtBuffer
and_copy buf none = none
and_copy buf (some buff) = copy_in buf buff

-- `extbuffer_preparetohandle(buff, len)` and the `memcpy`
pub fill : Memory → (buf : List ℤ) → ExtBuffer → Option ExtBuffer
unfolding copy_in
fill m buf buff = and_copy buf (extbuffer_preparetohandle m buff (to_int32 (pos (length buf))))

abbrev pub with_filled : Pool → Ptr → Option ExtBuffer → Option Pool
with_filled p v none = none
with_filled p v (some b) = some (record p { buffers = put_at p.buffers v (some b) })

abbrev pub fill_if : Memory → (buf : List ℤ) → Option ExtBuffer → Option ExtBuffer
fill_if m buf none = none
fill_if m buf (some b) = fill m buf b

-- the same, of the buffer at an address
pub fill_at : Memory → (buf : List ℤ) → Ptr → Pool → Option Pool
unfolding fill
fill_at m buf v p = with_filled p v (fill_if m buf (p.buffers v))

abbrev pub data_of : Option ExtBuffer → Option (List ℕ)
data_of none = none
data_of (some b) = data_to_send b

-- what `serveClient` finds to send at an address
abbrev pub data_at : Pool → Ptr → Option (List ℕ)
data_at p v = data_of (p.buffers v)

-- the thread that feeds: it holds no buffer, an unfilled one, or one with the samples in it
pub data Feeding : Type 0 where
  idle : Feeding
  empty : Ptr → Feeding
  full : Ptr → List ℤ → Feeding

-- the thread that serves: it holds no buffer, one to send, or one that has been sent
pub data Serving : Type 0 where
  idle : Serving
  unsent : Ptr → Serving
  sent : Ptr → Serving

-- the pool, the two threads, the bytes that `send` has taken, and what has been fed, in order
pub record Line : Type 0 where
  pub pool : Pool
  pub feeding : Feeding
  pub serving : Serving
  pub wire : List ℕ
  pub fed : List (List ℤ)

-- `w` is the width of `size_t`.
module _ (m : Memory) (w : ℕ) where
  pub data Step (f : Line) : Line → Type 0 where
    reuses :
        (v : Ptr) (q : Pool)
        → f.feeding ≡ Feeding.idle
        → try_pop 0 f.pool ≡ some (v, q)
        → v ≢ null
        → Step f (record f { pool = q; feeding = Feeding.empty v })
    makes :
        (new : Ptr) (q : Pool)
        → f.feeding ≡ Feeding.idle
        → f.pool.elements < f.pool.max_elements
        → new ≢ null
        → f.pool.buffers new ≡ none
        → create new f.pool ≡ some (new, q)
        → Step f (record f { pool = q; feeding = Feeding.empty new })
    fills :
        (v : Ptr) (buf : List ℤ) (q : Pool)
        → f.feeding ≡ Feeding.empty v
        → length buf < 0x8000_0000
        → fill_at m buf v f.pool ≡ some q
        → Step f (record f { pool = q; feeding = Feeding.full v buf })
    feeds :
        (new_el v : Ptr) (buf : List ℤ) (q : Pool)
        → f.feeding ≡ Feeding.full v buf
        → new_el ≢ null
        → f.pool.heap new_el ≡ none
        → pool_get_unlock m new_el 0 v f.pool ≡ some q
        → Step f (record f { pool = q; feeding = Feeding.idle; fed = f.fed ++ buf ∷ [] })
    serves :
        (v : Ptr) (q : Pool)
        → f.serving ≡ Serving.idle
        → try_pop 1 f.pool ≡ some (v, q)
        → v ≢ null
        → Step f (record f { pool = q; serving = Serving.unsent v })
    sends :
        (v : Ptr) (bytes : List ℕ) (r : Round ℕ) (rs : List (Round ℕ))
        → f.serving ≡ Serving.unsent v
        → data_at f.pool v ≡ some bytes
        → length bytes < 2 ^ w
        → AllDeliver (r ∷ rs)
        → r.ready ≡ true
        → length bytes ≤ count_ready (r ∷ rs)
        → Step f (record f {
          serving = Serving.sent v;
          wire = (send_buffer w bytes (r ∷ rs) f.wire).wire;
        })
    returns :
        (new_el v : Ptr) (q : Pool)
        → f.serving ≡ Serving.sent v
        → new_el ≢ null
        → f.pool.heap new_el ≡ none
        → pool_get_unlock m new_el 1 v f.pool ≡ some q
        → Step f (record f { pool = q; serving = Serving.idle })

  pub data Run (f : Line) : Line → Type 0 where
    start : Run f f
    further : {g h : Line} → Run f g → Step g h → Run f h
