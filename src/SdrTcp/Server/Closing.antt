-- ===== src/SdrTcp/Server/Closing.antt =====
-- `tcp_server` leaves the server down.
use android_rtlpower.Base.{
  ℕ, ◌≡◌, refl, ap, Bool, true, false, ◌&&◌, Option, some, none, List, [], ◌∷◌, arith,
  if◌then◌else◌,
}
use android_rtlpower.Base.Int.{ℤ, negsuc}
use android_rtlpower.SdrTcp.{Stage, SdrTcp, is_socket, is_uninitialized, close_all, sdrtcp_cleanup}
use android_rtlpower.SdrTcp.Stages.{IsConsistent}
use android_rtlpower.SdrTcp.Transfer.{is_serving, Round}
use android_rtlpower.SdrTcp.Transfer.Staying.{send_buffer_up}
use android_rtlpower.SdrTcp.Server.{
  WaitTurn, ServeTurn, Served, is_waiting, is_client_open, serve_buffer, welcome, wait_loop,
  sdrtcp_wait_for_client, serve_open, serve_client, shut_down, tcp_server,
}

welcome-IsConsistent :
    (socket : ℤ) (obj : SdrTcp)
    → is_uninitialized obj.state ≡ false
    → IsConsistent obj
    → IsConsistent (welcome socket obj)
welcome-IsConsistent socket obj up c = ground (arith, c.up, up)

if-IsConsistent :
    (b : Bool) (x y : SdrTcp)
    → (b ≡ true → IsConsistent x)
    → IsConsistent y
    → IsConsistent (if b then x else y)
if-IsConsistent true x y a c = a refl
if-IsConsistent false x y a c = c

accepted-IsConsistent :
    (socket : ℤ) (obj : SdrTcp)
    → IsConsistent obj
    → IsConsistent (record obj { client_socket = socket })
accepted-IsConsistent socket obj c = record { down = c.down; up = c.up }

not_down : (stage : Stage) → is_waiting stage ≡ true → is_uninitialized stage ≡ false
not_down stage e = ground (arith, e)

wait_loop-IsConsistent :
    (ts : List WaitTurn) (obj : SdrTcp) → IsConsistent obj → IsConsistent (wait_loop ts obj)
unfolding wait_loop
wait_loop-IsConsistent [] obj c = c
wait_loop-IsConsistent (t ∷ ts) obj c =
    let answered : SdrTcp =
      if is_socket t.accepted
      then wait_loop ts (welcome t.accepted obj)
      else record obj { client_socket = t.accepted } in
    if-IsConsistent (t.still && is_waiting obj.state)
      (if t.asks && t.ready && t.acts then answered else wait_loop ts obj) obj
      (λ waiting.
        if-IsConsistent (t.asks && t.ready && t.acts) answered (wait_loop ts obj)
          (λ ready.
            if-IsConsistent (is_socket t.accepted) (wait_loop ts (welcome t.accepted obj))
              (record obj { client_socket = t.accepted })
              (λ some_client. wait_loop-IsConsistent ts (welcome t.accepted obj) (
                welcome-IsConsistent t.accepted obj (not_down obj.state (ground (arith, waiting)))
                  c))
              (accepted-IsConsistent t.accepted obj c))
          (wait_loop-IsConsistent ts obj c))
      c

wait-IsConsistent :
    (ts : List WaitTurn) (obj : SdrTcp)
    → IsConsistent obj
    → IsConsistent (sdrtcp_wait_for_client ts obj)
unfolding sdrtcp_wait_for_client
wait-IsConsistent ts obj c =
    if-IsConsistent (is_waiting obj.state) (wait_loop ts (record obj { client_socket = negsuc 0 }))
      obj
      (λ e.
        wait_loop-IsConsistent ts (record obj { client_socket = negsuc 0 })
          (accepted-IsConsistent (negsuc 0) obj c))
      c

served_if :
    (b : Bool) (x y : Served)
    → is_uninitialized x.stage ≡ false
    → is_uninitialized y.stage ≡ false
    → is_uninitialized ((if b then x else y).stage) ≡ false
served_if true x y a c = a
served_if false x y a c = c

module _ (w : ℕ) where
  buffer_up :
      (rs : List (Round ℕ)) (buff : Option (List ℕ)) (s : Served)
      → is_uninitialized s.stage ≡ false
      → is_uninitialized ((serve_buffer w rs buff s).stage) ≡ false
  buffer_up rs none s up = up
  buffer_up rs (some bytes) s up = send_buffer_up w bytes rs s.wire

  serve_client-up :
      (ts : List ServeTurn) (s : Served)
      → is_uninitialized s.stage ≡ false
      → is_uninitialized ((serve_client w ts s).stage) ≡ false
  unfolding serve_client
  serve_client-up [] s up = up
  serve_client-up (t ∷ ts) s up =
      served_if (t.still && is_serving s.stage && t.again)
        (serve_client w ts (serve_buffer w t.rounds t.buff s)) s
        (serve_client-up ts (serve_buffer w t.rounds t.buff s) (buffer_up t.rounds t.buff s up)) up

  served-IsConsistent :
      (ts : List ServeTurn) (obj : SdrTcp)
      → is_client_open obj.state ≡ true
      → IsConsistent obj
      → IsConsistent (serve_open w ts obj)
  served-IsConsistent ts obj open_now c =
      let up =
        serve_client-up ts (record { stage = Stage.client_serving; wire = []; returned = 0 })
          refl in
      record {
        down = λ e. absurd (ground (arith, ap is_uninitialized e, up));
        up = λ e. c.up (ground (arith, open_now));
      }

  shut_down-IsConsistent :
      (obj : SdrTcp)
      → IsConsistent obj
      → IsConsistent (shut_down obj) × ((shut_down obj).state ≡ Stage.uninitialized)
  unfolding shut_down sdrtcp_cleanup close_all
  shut_down-IsConsistent obj c = ground (arith, c.down, c.up)

  -- `tcp_server`, started on a consistent server, with other threads that keep it consistent in
  -- between: whatever happens in the turns of its loops, it leaves the server down and consistent.
  pub tcp_server-IsConsistent :
      (between : SdrTcp → SdrTcp) (waits : List WaitTurn) (serves : List ServeTurn) (obj : SdrTcp)
      → ((o : SdrTcp) → IsConsistent o → IsConsistent (between o))
      → IsConsistent obj
      → IsConsistent (tcp_server w between waits serves obj)
        × ((tcp_server w between waits serves obj).state ≡ Stage.uninitialized)
  unfolding tcp_server
  tcp_server-IsConsistent between waits serves obj keeps c =
      let waited = between (sdrtcp_wait_for_client waits obj) in
      let c1 : IsConsistent waited = keeps _ (wait-IsConsistent waits obj c) in
      let c2 = keeps _ (
        if-IsConsistent (is_client_open waited.state) (serve_open w serves waited) waited
          (λ e. served-IsConsistent serves waited e c1) c1) in
      shut_down-IsConsistent _ c2
