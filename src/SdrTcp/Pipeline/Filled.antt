-- ===== src/SdrTcp/Pipeline/Filled.antt =====
-- The thread that feeds can make a buffer and fill it, as long as the pool has room.
use android_rtlpower.Base.{
  ℕ, ◌≤◌, suc, ◌<◌, ◌≡◌, ◌≢◌, refl, ap, ◌∙◌, true, Option, none, some, List, [], ◌∷◌, ◌++◌, length,
  arith, leb, if-true, drop,
}
use android_rtlpower.Base.Int.{ℤ}
use android_rtlpower.Queue.{Ptr, null}
use android_rtlpower.ExtBuffer.{
  BufferType, ExtBuffer, Memory, buffer, extbuffer_init, extbuffer_preparetohandle,
}
use android_rtlpower.ExtBuffer.Allocator.{Suffices}
use android_rtlpower.ExtBuffer.Valid.{cells, IsValid, extbuffer_init-IsValid, prepare-IsPrepared}
use android_rtlpower.ExtBuffer.Sized.{prepare-HasType}
use android_rtlpower.WorkPool.{Pool, put_at}
use android_rtlpower.WorkPool.Contents.{create-buffer}
use android_rtlpower.WorkPool.Invariant.{create-IsPool}
use android_rtlpower.WorkPool.Invariant.Unlock.{pool_get_unlock-IsPool}
use android_rtlpower.SdrTcp.Pipeline.{
  copy_block, copy_in, and_copy, fill, fill_at, fill_if, with_filled, Feeding, Line, Run, makes,
  fills, feeds, start, further,
}
use android_rtlpower.SdrTcp.Pipeline.Packets.{IsLine, server_holds}
use android_rtlpower.SdrTcp.Pipeline.Filling.{whole}
use android_rtlpower.SdrTcp.Pipeline.Fed.{feeder_idle, makes-IsLine, fills-IsLine, in_hand}

own_block : (c : ExtBuffer) → c.buffer_type ≡ BufferType.ushort → buffer c ≡ c.ushortbuffer
own_block c e = ground (arith, e)

abbrev cells_in : Option (List ℤ) → List ℤ
cells_in none = []
cells_in (some xs) = xs

cells_lem : (c : ExtBuffer) → cells c ≡ cells_in (buffer c)
cells_lem c = ground arith

room_lem : (n : ℕ) (xs : List ℤ) → n ≤ length xs → leb n (length xs) ≡ true
room_lem n xs h = ground arith

copy_block-some :
    (buf : List ℤ) (c : ExtBuffer) (o : Option (List ℤ))
    → 0 < length buf
    → length buf ≤ length (cells_in o)
    → (c' : ExtBuffer) × (copy_block buf c o ≡ some c')
unfolding copy_block
copy_block-some buf c none p h = absurd (omega arith)
copy_block-some buf c (some xs) p h = (
  record c { ushortbuffer = some (buf ++ drop (length buf) xs) },
  if-true _ _ (room_lem (length buf) xs h),
)

module _ (m : Memory) (ok : Suffices m) (buf : List ℤ) (p : 0 < length buf)
    (small : length buf < 0x8000_0000) where
  fill-some :
      (b : ExtBuffer)
      → IsValid b
      → b.buffer_type ≡ BufferType.ushort
      → (c : ExtBuffer) × (fill m buf b ≡ some c)
  unfolding fill copy_in
  fill-some b v t =
      let (c, run, is) = prepare-IsPrepared m b (length buf) ok v p in
      let type = prepare-HasType m b c (length buf) run ∙ t in
      let block : cells c ≡ cells_in c.ushortbuffer =
        cells_lem c ∙ ap cells_in (own_block c type) in
      let long : length buf ≤ length (cells_in c.ushortbuffer) =
        omega (arith, ap length block, is.valid.sized, is.valid.fits, is.holds) in
      let (c', done) = copy_block-some buf c c.ushortbuffer p long in
      (
        c',
        ap (λ n. and_copy buf (extbuffer_preparetohandle m b n)) (whole buf small)
            ∙ ap (and_copy buf) run
            ∙ done,
      )

  fill_at-some :
      (v : Ptr) (b : ExtBuffer) (q : Pool)
      → q.buffers v ≡ some b
      → IsValid b
      → b.buffer_type ≡ BufferType.ushort
      → (q' : Pool) × (fill_at m buf v q ≡ some q')
  unfolding fill_at
  fill_at-some v b q at valid t =
      let (c, run) = fill-some b valid t in
      (
        record q { buffers = put_at q.buffers v (some c) },
        ap (λ o. with_filled q v (fill_if m buf o)) at ∙ ap (with_filled q v) run,
      )

  -- A line whose feeding thread is idle and whose pool has room can be fed a packet.
  pub feeds-runs :
      (w : ℕ) (f : Line) (is : IsLine f) (new : Ptr)
      → f.feeding ≡ Feeding.idle
      → f.pool.extbuffer_type ≡ BufferType.ushort
      → f.pool.elements < f.pool.max_elements
      → new ≢ null
      → f.pool.buffers new ≡ none
      → (g : Line) × Run m w f g
        × (g.fed ≡ f.fed ++ buf ∷ [])
        × (g.feeding ≡ Feeding.idle)
        × (g.serving ≡ f.serving)
  unfolding extbuffer_init
  feeds-runs w f is new e type room nn fresh =
      let (q1, run1, _, _, _, _, _) =
        create-IsPool f.pool is.cells (server_holds f.serving) (feeder_idle m f is e) new nn fresh
          room in
      let line1 = makes-IsLine m f is new q1 e room nn fresh run1 in
      let made = create-buffer new f.pool q1 nn run1 in
      let (q2, run2) =
        fill_at-some new (extbuffer_init f.pool.extbuffer_type) q1 made
          (extbuffer_init-IsValid f.pool.extbuffer_type) type in
      let g1 = record f { pool = q1; feeding = Feeding.empty new } in
      let line2 = fills-IsLine m g1 line1 new buf q2 refl small run2 in
      let g2 = record f { pool = q2; feeding = Feeding.full new buf } in
      let nn' : suc line2.free ≢ null = omega arith in
      let fresh' = line2.unused (suc line2.free) (omega arith) in
      let (q3, run3, _, _, _, _, _, _) =
        pool_get_unlock-IsPool m q2 line2.cells new (server_holds f.serving)
          (in_hand m g2 line2 new (Feeding.full new buf) refl refl) (suc line2.free) 0 line2.valid
          (omega (arith, line2.two)) nn' fresh' in
      (
        record f { pool = q3; feeding = Feeding.idle; fed = f.fed ++ buf ∷ [] },
        further
            (further (further start (makes new q1 e room nn fresh run1))
              (fills new buf q2 refl small run2))
            (feeds (suc line2.free) new buf q3 refl nn' fresh' run3),
        refl,
        refl,
        refl,
      )
