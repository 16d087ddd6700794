-- ===== src/SdrTcp/Server.antt =====
-- The threads of sdrtcp.c: `sdrtcp_wait_for_client`, `serveClient`, `commandListener` and `tcp_server`.
-- A list holds what happens in each turn of a loop; readings of `obj->state` are flags, as in
-- Transfer. What the pool gives is part of a turn.
pub mod Answering
pub mod Closing
use android_rtlpower.Base.{
  ℕ, zero, suc, ◌+◌, Bool, true, false, ◌&&◌, Option, none, some, List, [], ◌∷◌, if◌then◌else◌,
}
use android_rtlpower.Base.Int.{ℤ, negsuc}
use android_rtlpower.SdrTcp.{Stage, SdrTcp, is_socket, is_uninitialized, sdrtcp_cleanup}
use android_rtlpower.SdrTcp.Transfer.{
  is_serving, Round, Sending, send_buffer, Receiving, Command, listen,
}

-- A turn of `serveClient`: the two tests of the state, what `pool_get_wait_lock` returns, as the bytes
-- of its elements, and the rounds of the loop that sends them.
pub record ServeTurn : Type 0 where
  pub still : Bool
  pub again : Bool
  pub buff : Option (List ℕ)
  pub rounds : List (Round ℕ)

-- the stage, the bytes sent and the buffers given back to the pool
pub record Served : Type 0 where
  pub stage : Stage
  pub wire : List ℕ
  pub returned : ℕ

abbrev given_back : Sending → ℕ → Served
given_back sent returned = record { stage = sent.stage; wire = sent.wire; returned = returned + 1 }

abbrev serve_buffer : (w : ℕ) → List (Round ℕ) → Option (List ℕ) → Served → Served
serve_buffer w rounds none s = s
serve_buffer w rounds (some bytes) s = given_back (send_buffer w bytes rounds s.wire) s.returned

-- `while (obj->state == STAGE_CLIENT_SERVING)` of `serveClient`
pub serve_client : (w : ℕ) → List ServeTurn → Served → Served
serve_client w [] s = s
serve_client w (t ∷ ts) s =
    let rest = serve_client w ts (serve_buffer w t.rounds t.buff s) in
    if t.still && is_serving s.stage && t.again then rest else s

-- a turn of `commandListener`: the test of its loop, the rounds of the loop inside, and the last
-- test
pub record ListenTurn : Type 0 where
  pub still : Bool
  pub rounds : List (Round (List ℕ))
  pub serves : Bool

abbrev called : Option Command → List Command → List Command
called none commands = commands
called (some c) commands = c ∷ commands

-- `commandListener`: the commands that the callback gets, in order, and the variables at the end
pub command_listener : (w : ℕ) → List ListenTurn → Receiving → List Command × Receiving
command_listener w [] s = ([], s)
command_listener w (t ∷ ts) s =
    let (c, got) = listen w t.rounds t.serves s in
    let (commands, after) = command_listener w ts got in
    if t.still && is_serving s.stage then (called c commands, after) else ([], s)

-- a turn of `sdrtcp_wait_for_client`: the tests of the state, what `select` says and what `accept`
-- returns
pub record WaitTurn : Type 0 where
  pub still : Bool
  pub asks : Bool
  pub ready : Bool
  pub acts : Bool
  pub accepted : ℤ

abbrev is_waiting : Stage → Bool
is_waiting Stage.client_open_started_async = true
is_waiting _ = false

abbrev is_client_open : Stage → Bool
is_client_open Stage.client_open = true
is_client_open _ = false

-- `accept` succeeds
abbrev welcome : ℤ → SdrTcp → SdrTcp
welcome socket obj = record obj { client_socket = socket; state = Stage.client_open }

-- `while (obj->state == STAGE_CLIENT_OPEN_STARTED_ASYNC)`
pub wait_loop : List WaitTurn → SdrTcp → SdrTcp
wait_loop [] obj = obj
wait_loop (t ∷ ts) obj =
    let idle = wait_loop ts obj in
    let met = wait_loop ts (welcome t.accepted obj) in
    if t.still && is_waiting obj.state
    then (if t.asks && t.ready && t.acts
        then (if is_socket t.accepted then met else record obj { client_socket = t.accepted })
        else idle)
    else obj

-- `sdrtcp_wait_for_client`
pub sdrtcp_wait_for_client : List WaitTurn → SdrTcp → SdrTcp
unfolding wait_loop
sdrtcp_wait_for_client ts obj =
    if is_waiting obj.state then wait_loop ts (record obj { client_socket = negsuc 0 }) else obj

-- what `serveClient` leaves of the server; `commandListener` has ended by then
abbrev serve_open : (w : ℕ) → List ServeTurn → SdrTcp → SdrTcp
serve_open w ts obj = record obj {
  state =
      (serve_client w ts (record { stage = Stage.client_serving; wire = []; returned = 0 })).stage;
}

-- the end of `tcp_server`
pub shut_down : SdrTcp → SdrTcp
shut_down obj =
    let down = if is_uninitialized obj.state then obj else sdrtcp_cleanup obj in
    record down { closed_calls = down.closed_calls + 1 }

-- `tcp_server`; `between` is what other threads and `commandListener` do to the server, between the
-- wait and the test, and again before the end
pub tcp_server :
    (w : ℕ) → (between : SdrTcp → SdrTcp) → List WaitTurn → List ServeTurn → SdrTcp → SdrTcp
unfolding sdrtcp_wait_for_client serve_client shut_down
tcp_server w between waits serves obj =
    let waited = between (sdrtcp_wait_for_client waits obj) in
    shut_down (between (if is_client_open waited.state then serve_open w serves waited else waited))
