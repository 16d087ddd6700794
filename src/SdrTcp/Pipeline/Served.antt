-- ===== src/SdrTcp/Pipeline/Served.antt =====
-- The steps of the thread that serves.
use android_rtlpower.Base.{
  ℕ, ◌^◌, ◌≤◌, ◌<◌, ◌+◌, suc, ◌≡◌, ◌≢◌, refl, sym, ap, ◌∙◌, true, none, some, List, [], ◌∷◌, ◌++◌,
  append_assoc, append-nil, length, length-append, arith,
}
use mathlib.Core.Path.{subst, ap₂}
use mathlib.Core.Option.{some-injective}
use android_rtlpower.Queue.{Ptr, null}
use android_rtlpower.ExtBuffer.{Memory}
use android_rtlpower.WorkPool.{Pool, put_at, try_pop, pool_get_unlock}
use android_rtlpower.WorkPool.Invariant.{occ, occ-append}
use android_rtlpower.SdrTcp.Pipeline.{data_at, data_of, Serving, Line}
use android_rtlpower.SdrTcp.Pipeline.Packets.{
  feeder_holds, holds, Queued, ServerHas, IsLine, Queued-frame, FeederHas-frame, Queued-first,
  concat-snoc, reheld, apart, alone,
}
use android_rtlpower.SdrTcp.Transfer.{Round, send_buffer}
use android_rtlpower.SdrTcp.Transfer.Complete.{AllDeliver, count_ready, send_buffer-all}
use android_rtlpower.WorkPool.Invariant.{IsPool, try_pop-IsPool}
use android_rtlpower.WorkPool.Invariant.Unlock.{pool_get_unlock-IsPool}
use android_rtlpower.SdrTcp.Pipeline.Packets.{Queued-cons, behind}
use android_rtlpower.SdrTcp.Pipeline.Calls.{took, gave}

last_held : (a v : Ptr) (xs : List Ptr) → occ a (v ∷ xs) ≡ occ a (xs ++ v ∷ [])
unfolding occ
last_held a v xs = omega (arith, occ-append a xs (v ∷ []))

module _ (m : Memory) (w : ℕ) (f : Line) (is : IsLine f) where
  -- what the threads hold when the serving one is idle, or has sent `v`
  server_idle : f.serving ≡ Serving.idle → IsPool f.pool is.cells (feeder_holds f.feeding)
  server_idle e =
      let mine = feeder_holds f.feeding in
      reheld f.pool is.cells (holds f.feeding f.serving) is.pool_is is.two mine
        (λ a. ap (λ y. occ a (holds f.feeding y)) e ∙ ap (occ a) (append-nil mine))
        (ap (λ y. length (holds f.feeding y)) e ∙ ap (length {A = Ptr}) (append-nil mine))

  all_sent :
      (v : Ptr) → f.serving ≡ Serving.sent v → IsPool f.pool is.cells (v ∷ feeder_holds f.feeding)
  all_sent v e =
      let mine = feeder_holds f.feeding in
      reheld f.pool is.cells (holds f.feeding f.serving) is.pool_is is.two (v ∷ mine)
        (λ a. ap (λ y. occ a (holds f.feeding y)) e ∙ sym (last_held a v mine))
        (ap (λ y. length (holds f.feeding y)) e ∙ omega (arith, length-append mine (v ∷ [])))

  -- A packet that waits can be taken.
  pub serves-runs :
      (packet : List ℕ) (rest : List (List ℕ))
      → f.serving ≡ Serving.idle
      → is.waiting ≡ packet ∷ rest
      → (v : Ptr) × (q : Pool) × (try_pop 1 f.pool ≡ some (v, q)) × (v ≢ null)
  serves-runs packet rest e waits =
      let (c, xs, at) =
        Queued-cons (is.cells 1) (subst (Queued f.pool (is.cells 1)) waits is.queue) in
      let (q, run, nn, _, _, _, _, _) =
        try_pop-IsPool f.pool is.cells (feeder_holds f.feeding) (server_idle e) 1 c xs
          (omega (arith, is.two)) at in
      (c.1, q, run, nn)

  -- A buffer that has been sent can be given back.
  pub returns-runs :
      (new_el v : Ptr)
      → f.serving ≡ Serving.sent v
      → new_el ≢ null
      → f.pool.heap new_el ≡ none
      → (q : Pool) × (pool_get_unlock m new_el 1 v f.pool ≡ some q)
  returns-runs new_el v e nn fresh =
      let (q, run, _, _, _, _, _, _) =
        pool_get_unlock-IsPool m f.pool is.cells v (feeder_holds f.feeding) (all_sent v e) new_el 1
          is.valid (omega (arith, is.two)) nn fresh in
      (q, run)

  pub serves-IsLine :
      (v : Ptr) (q : Pool)
      → f.serving ≡ Serving.idle
      → try_pop 1 f.pool ≡ some (v, q)
      → v ≢ null
      → (line : IsLine (record f { pool = q; serving = Serving.unsent v })) × (packet : List ℕ)
        × (is.waiting ≡ packet ∷ line.waiting)
        × (line.current ≡ packet ∷ [])
  serves-IsLine v q e run nn =
      let mine = feeder_holds f.feeding in
      let (c, xs, at, head, after, ids, valid, same, free) =
        took f.pool is.cells mine (server_idle e) 1 (omega (arith, is.two)) v q run nn in
      let (packet, rest, split, has, queued) =
        Queued-first (subst (λ ys. Queued f.pool ys is.waiting) at is.queue) in
      let idle : is.current ≡ [] = subst (λ y. ServerHas f.pool y is.current) e is.server in
      (
        record {
          cells = put_at is.cells 1 xs;
          pool_is =
              reheld q (put_at is.cells 1 xs) (v ∷ mine) after (ids ∙ is.two) (mine ++ v ∷ [])
                (λ a. last_held a v mine) (omega (arith, length-append mine (v ∷ [])));
          valid = valid ∙ is.valid;
          two = ids ∙ is.two;
          free = is.free;
          unused = λ a h. free a (is.unused a h);
          packets = is.packets;
          current = packet ∷ [];
          waiting = rest;
          wire_is = is.wire_is;
          order = is.order ∙ ap₂ (λ x y. is.packets ++ (x ++ y)) idle split;
          queue = Queued-frame f.pool q queued λ a h. ap (λ b. b a) same;
          feeder = FeederHas-frame f.pool q f.feeding is.feeder λ a h. ap (λ b. b a) same;
          server =
              (packet, ap data_of (ap (λ b. b v) same ∙ ap f.pool.buffers (sym head)) ∙ has, refl);
        },
        packet,
        split,
        refl,
      )

  pub sends-IsLine :
      (v : Ptr) (bytes : List ℕ) (r : Round ℕ) (rs : List (Round ℕ))
      → f.serving ≡ Serving.unsent v
      → data_at f.pool v ≡ some bytes
      → length bytes < 2 ^ w
      → AllDeliver (r ∷ rs)
      → r.ready ≡ true
      → length bytes ≤ count_ready (r ∷ rs)
      → (line : IsLine (record f {
        serving = Serving.sent v;
        wire = (send_buffer w bytes (r ∷ rs) f.wire).wire;
      }))
        × (line.waiting ≡ is.waiting)
  sends-IsLine v bytes r rs e at fits deliver ready enough =
      let (left, all, stage) = send_buffer-all w f.wire bytes fits r rs deliver ready enough in
      let (packet, at', one) = subst (λ y. ServerHas f.pool y is.current) e is.server in
      let it : packet ≡ bytes = some-injective packet bytes (sym at' ∙ at) in
      (
        record {
          cells = is.cells;
          pool_is =
              reheld f.pool is.cells (holds f.feeding f.serving) is.pool_is is.two
                (feeder_holds f.feeding ++ v ∷ []) (λ a. ap (λ y. occ a (holds f.feeding y)) e)
                (ap (λ y. length (holds f.feeding y)) e);
          valid = is.valid;
          two = is.two;
          free = is.free;
          unused = is.unused;
          packets = is.packets ++ bytes ∷ [];
          current = [];
          waiting = is.waiting;
          wire_is = all ∙ ap (λ x. x ++ bytes) is.wire_is ∙ sym (concat-snoc is.packets bytes);
          order =
              is.order
              ∙ ap (λ x. is.packets ++ (x ++ is.waiting)) (one ∙ ap (λ x. x ∷ []) it)
              ∙ sym (append_assoc is.packets (bytes ∷ []) is.waiting);
          queue = is.queue;
          feeder = is.feeder;
          server = refl;
        },
        refl,
      )

  pub returns-IsLine :
      (new_el v : Ptr) (q : Pool)
      → f.serving ≡ Serving.sent v
      → new_el ≢ null
      → f.pool.heap new_el ≡ none
      → pool_get_unlock m new_el 1 v f.pool ≡ some q
      → (line : IsLine (record f { pool = q; serving = Serving.idle })) × (line.waiting
          ≡ is.waiting)
  returns-IsLine new_el v q e nn fresh run =
      let mine = feeder_holds f.feeding in
      let here = all_sent v e in
      let (no_queue, no_hand) = alone f.pool is.cells v mine here is.two in
      let (after, ids, valid, others, _, free) =
        gave m f.pool is.cells v mine new_el 1 0 q (ground (arith, is.two)) here is.valid
          (omega (arith, is.two)) nn fresh run in
      let none_left : is.current ≡ [] = subst (λ y. ServerHas f.pool y is.current) e is.server in
      (
        record {
          cells = put_at is.cells 0 (is.cells 0 ++ (new_el, v) ∷ []);
          pool_is =
              reheld q (put_at is.cells 0 (is.cells 0 ++ (new_el, v) ∷ [])) mine after
                (ids ∙ is.two) (mine ++ []) (λ a. ap (occ a) (sym (append-nil mine)))
                (ap (length {A = Ptr}) (sym (append-nil mine)));
          valid = valid;
          two = ids ∙ is.two;
          free = is.free + suc new_el;
          unused = λ a h. free a (behind is.free new_el a h) (is.unused a (omega arith));
          packets = is.packets;
          current = is.current;
          waiting = is.waiting;
          wire_is = is.wire_is;
          order = is.order;
          queue = Queued-frame f.pool q is.queue λ a h. others a (apart _ v no_queue a h);
          feeder =
              FeederHas-frame f.pool q f.feeding is.feeder λ a h. others a (apart _ v no_hand a h);
          server = none_left;
        },
        refl,
      )
