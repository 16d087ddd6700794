-- ===== src/SdrTcp/Pipeline/Fed.antt =====
-- The steps of the thread that feeds.
use android_rtlpower.Base.{
  ◌<◌, ◌+◌, suc, ◌≡◌, ◌≢◌, refl, sym, ap, ◌∙◌, none, some, List, [], ◌∷◌, ◌++◌, map-append,
  append_assoc, length, arith,
}
use mathlib.Core.Path.{subst}
use android_rtlpower.Base.Int.{ℤ}
use android_rtlpower.Queue.{Ptr, null}
use android_rtlpower.ExtBuffer.{ExtBuffer, Memory}
use android_rtlpower.WorkPool.{Pool, put_at, try_pop, create, pool_get_unlock}
use android_rtlpower.WorkPool.Invariant.{occ, IsPool}
use android_rtlpower.SdrTcp.Pipeline.{
  bytes_of, data_at, data_of, data_to_send, Feeding, Line, fill_at,
}
use android_rtlpower.SdrTcp.Pipeline.Filling.{fill_at-IsFilled}
use android_rtlpower.SdrTcp.Pipeline.Packets.{
  behind, feeder_holds, server_holds, holds, FeederHas, IsLine, Queued-frame, ServerHas-frame,
  Queued-snoc, reheld, absent, apart, alone, refilled,
}
use android_rtlpower.SdrTcp.Pipeline.Calls.{took, gave, made}

module _ (m : Memory) (f : Line) (is : IsLine f) where
  -- what the threads hold when the feeding one is idle, or the serving one
  pub feeder_idle : f.feeding ≡ Feeding.idle → IsPool f.pool is.cells (server_holds f.serving)
  feeder_idle e =
      reheld f.pool is.cells (holds f.feeding f.serving) is.pool_is is.two (server_holds f.serving)
        (λ a. ap (λ x. occ a (holds x f.serving)) e) (ap (λ x. length (holds x f.serving)) e)

  pub reuses-IsLine :
      (v : Ptr) (q : Pool)
      → f.feeding ≡ Feeding.idle
      → try_pop 0 f.pool ≡ some (v, q)
      → v ≢ null
      → IsLine (record f { pool = q; feeding = Feeding.empty v })
  reuses-IsLine v q e run nn =
      let (c, xs, at, head, after, ids, valid, same, free) =
        took f.pool is.cells (server_holds f.serving) (feeder_idle e) 0 (omega (arith, is.two)) v q
          run nn in
      record {
        cells = put_at is.cells 0 xs;
        pool_is = after;
        valid = valid ∙ is.valid;
        two = ids ∙ is.two;
        free = is.free;
        unused = λ a h. free a (is.unused a h);
        packets = is.packets;
        current = is.current;
        waiting = is.waiting;
        wire_is = is.wire_is;
        order = is.order;
        queue = Queued-frame f.pool q is.queue λ a h. ap (λ b. b a) same;
        feeder = tt;
        server = ServerHas-frame f.pool q f.serving is.current is.server λ a h. ap (λ b. b a) same;
      }

  pub makes-IsLine :
      (new : Ptr) (q : Pool)
      → f.feeding ≡ Feeding.idle
      → f.pool.elements < f.pool.max_elements
      → new ≢ null
      → f.pool.buffers new ≡ none
      → create new f.pool ≡ some (new, q)
      → IsLine (record f { pool = q; feeding = Feeding.empty new })
  makes-IsLine new q e room nn fresh run =
      let (after, ids, valid, others, heap) =
        made f.pool is.cells (server_holds f.serving) new q (feeder_idle e) nn fresh room run in
      let (no_queue, no_hand) =
        absent f.pool is.cells (server_holds f.serving) (feeder_idle e) is.two new fresh in
      record {
        cells = is.cells;
        pool_is = after;
        valid = valid ∙ is.valid;
        two = ids ∙ is.two;
        free = is.free;
        unused = λ a h. ap (λ g. g a) heap ∙ is.unused a h;
        packets = is.packets;
        current = is.current;
        waiting = is.waiting;
        wire_is = is.wire_is;
        order = is.order;
        queue = Queued-frame f.pool q is.queue λ a h. others a (apart _ new no_queue a h);
        feeder = tt;
        server =
            ServerHas-frame f.pool q f.serving is.current is.server
              λ a h. others a (apart _ new no_hand a h);
      }

  -- what the threads hold when the feeding one holds `v`
  pub in_hand :
      (v : Ptr) (x : Feeding)
      → f.feeding ≡ x
      → feeder_holds x ≡ v ∷ []
      → IsPool f.pool is.cells (v ∷ server_holds f.serving)
  in_hand v x e one =
      let same : holds f.feeding f.serving ≡ v ∷ server_holds f.serving =
        ap (λ y. feeder_holds y ++ server_holds f.serving) e
        ∙ ap (λ ys. ys ++ server_holds f.serving) one in
      reheld f.pool is.cells (holds f.feeding f.serving) is.pool_is is.two
        (v ∷ server_holds f.serving) (λ a. ap (occ a) same) (ap (length {A = Ptr}) same)

  filled_lem :
      (v : Ptr) (buf : List ℤ) (b c : ExtBuffer)
      → IsPool f.pool is.cells (v ∷ server_holds f.serving)
      → f.pool.buffers v ≡ some b
      → data_to_send c ≡ some (bytes_of buf)
      → IsLine (record f {
        pool = record (f.pool) { buffers = put_at f.pool.buffers v (some c) };
        feeding = Feeding.full v buf;
      })
  filled_lem v buf b c here was has =
      let (no_queue, no_hand) = alone f.pool is.cells v (server_holds f.serving) here is.two in
      let q = record (f.pool) { buffers = put_at f.pool.buffers v (some c) } in
      record {
        cells = is.cells;
        pool_is = refilled f.pool is.cells (v ∷ server_holds f.serving) v b c here was;
        valid = is.valid;
        two = is.two;
        free = is.free;
        unused = is.unused;
        packets = is.packets;
        current = is.current;
        waiting = is.waiting;
        wire_is = is.wire_is;
        order = is.order;
        queue = Queued-frame f.pool q is.queue λ a h. ground (arith, apart _ v no_queue a h);
        feeder = ground (arith, has);
        server =
            ServerHas-frame f.pool q f.serving is.current is.server
              λ a h. ground (arith, apart _ v no_hand a h);
      }

  pub fills-IsLine :
      (v : Ptr) (buf : List ℤ) (q : Pool)
      → f.feeding ≡ Feeding.empty v
      → length buf < 0x8000_0000
      → fill_at m buf v f.pool ≡ some q
      → IsLine (record f { pool = q; feeding = Feeding.full v buf })
  fills-IsLine v buf q e small run =
      let fill = fill_at-IsFilled m buf small v f.pool q run in
      subst (λ r. IsLine (record f { pool = r; feeding = Feeding.full v buf })) (sym fill.is_now)
        (filled_lem v buf fill.before fill.after (in_hand v (Feeding.empty v) e refl) fill.was
          fill.holds)

  pub feeds-IsLine :
      (new_el v : Ptr) (buf : List ℤ) (q : Pool)
      → f.feeding ≡ Feeding.full v buf
      → new_el ≢ null
      → f.pool.heap new_el ≡ none
      → pool_get_unlock m new_el 0 v f.pool ≡ some q
      → IsLine (record f { pool = q; feeding = Feeding.idle; fed = f.fed ++ buf ∷ [] })
  feeds-IsLine new_el v buf q e nn fresh run =
      let (after, ids, valid, others, same, free) =
        gave m f.pool is.cells v (server_holds f.serving) new_el 0 1 q (ground (arith, is.two))
          (in_hand v (Feeding.full v buf) e refl) is.valid (omega (arith, is.two)) nn fresh run in
      let all : q.buffers ≡ f.pool.buffers = same (omega (arith, is.two)) in
      let here : data_at f.pool v ≡ some (bytes_of buf) = subst (FeederHas f.pool) e is.feeder in
      record {
        cells = put_at is.cells 1 (is.cells 1 ++ (new_el, v) ∷ []);
        pool_is = after;
        valid = valid;
        two = ids ∙ is.two;
        free = is.free + suc new_el;
        unused = λ a h. free a (behind is.free new_el a h) (is.unused a (omega arith));
        packets = is.packets;
        current = is.current;
        waiting = is.waiting ++ bytes_of buf ∷ [];
        wire_is = is.wire_is;
        order =
            map-append bytes_of f.fed (buf ∷ [])
            ∙ ap (λ x. x ++ bytes_of buf ∷ []) is.order
            ∙ append_assoc is.packets (is.current ++ is.waiting) (bytes_of buf ∷ [])
            ∙ ap (λ x. is.packets ++ x) (append_assoc is.current is.waiting (bytes_of buf ∷ []));
        queue =
            Queued-snoc (new_el, v) (bytes_of buf)
              (Queued-frame f.pool q is.queue λ a h. ap (λ b. b a) all)
              (ap (λ b. data_of (b v)) all ∙ here);
        feeder = tt;
        server = ServerHas-frame f.pool q f.serving is.current is.server λ a h. ap (λ b. b a) all;
      }
