-- ===== src/SdrTcp.antt =====
-- app/src/main/jni/sdrtcp.c, the functions that other threads call: `sdrtcp_open_socket`,
-- `sdrtcp_serve_client_async`, `sdrtcp_stop_serving_client`, `sdrtcp_feed` and the cleanup. One call
-- runs at a time; Transfer and Server are the server's threads. What the sockets answer is a
-- parameter, and of the pool only whether it is set up, and what it is fed, is kept.
pub mod Examples
pub mod Stages
pub mod Transfer
pub mod Server
pub mod Pipeline
use android_rtlpower.Base.{ℕ, Bool, true, false, ◌&&◌, List, [], ◌∷◌, ◌+◌, if◌then◌else◌}
use android_rtlpower.Base.Int.{ℤ, pos, negsuc}

-- `STAGE_UNINITIALIZED` and its kin
pub data Stage : Type 0 where
  uninitialized initialized socket_open client_open client_open_started_async client_serving
        needs_stopping :
      Stage

-- `sdrtcp_t`, the sockets closed so far, and the calls of `closedcb`, of the server thread's start
-- and of the pool's feed so far
pub record SdrTcp : Type 0 where
  pub state : Stage
  pub client_socket : ℤ
  pub listen_socket : ℤ
  pub pool_valid : Bool
  pub closed : List ℤ
  pub closed_calls : ℕ
  pub threads : ℕ
  pub fed : List (List ℕ)

-- the answer of `socket`; -1 is the failure
abbrev is_socket : ℤ → Bool
is_socket (pos n) = true
is_socket (negsuc n) = false

abbrev is_uninitialized : Stage → Bool
is_uninitialized Stage.uninitialized = true
is_uninitialized _ = false

-- the branch of `sdrtcp_cleanup` that is taken unless the server is uninitialized; the test of
-- `obj->state != STAGE_INITIALIZED` reads the state that was just reset, so it holds
close_all : SdrTcp → SdrTcp
close_all obj = record obj {
  state = Stage.uninitialized;
  pool_valid = false;
  closed = if is_socket obj.listen_socket then obj.listen_socket ∷ obj.closed else obj.closed;
  client_socket = negsuc 0;
  listen_socket = negsuc 0;
}

-- `sdrtcp_cleanup(obj)`
pub sdrtcp_cleanup : SdrTcp → SdrTcp
unfolding close_all
sdrtcp_cleanup obj = if is_uninitialized obj.state then obj else close_all obj

-- `sdrtcp_open_socket` past the test of the state: the pool is set up and holds the dongle's info
open_fresh : (info : List ℕ) → (socket : ℤ) → (bound listening : Bool) → SdrTcp → Bool × SdrTcp
open_fresh info socket bound listening obj =
    let stage = if is_socket socket then Stage.socket_open else Stage.initialized in
    let tried = record obj {
      state = stage;
      listen_socket = socket;
      pool_valid = true;
      fed = info ∷ [];
    } in
    if is_socket socket && bound && listening then (true, tried) else (false, sdrtcp_cleanup tried)

-- `sdrtcp_open_socket`; `info` is the magic and the two numbers, `bound` and `listening` tell
-- whether `bind` and `listen` return 0
pub sdrtcp_open_socket :
    (info : List ℕ) → (socket : ℤ) → (bound listening : Bool) → SdrTcp → Bool × SdrTcp
unfolding open_fresh
sdrtcp_open_socket info socket bound listening obj =
    if is_uninitialized obj.state
    then open_fresh info socket bound listening obj
    else (false, sdrtcp_cleanup obj)

-- `sdrtcp_serve_client_async`
pub sdrtcp_serve_client_async : SdrTcp → SdrTcp
sdrtcp_serve_client_async obj = elim obj.state [
  | Stage.socket_open ↦ record obj {
    state = Stage.client_open_started_async;
    threads = obj.threads + 1;
  }
  | _ ↦ sdrtcp_cleanup (record obj { closed_calls = obj.closed_calls + 1 })
]

-- `sdrtcp_stop_serving_client`
pub sdrtcp_stop_serving_client : SdrTcp → SdrTcp
sdrtcp_stop_serving_client obj = elim obj.state [
  | Stage.uninitialized ↦ obj
  | Stage.initialized ↦ sdrtcp_cleanup obj
  | Stage.socket_open ↦ sdrtcp_cleanup obj
  | Stage.client_open ↦ sdrtcp_cleanup obj
  | _ ↦ record obj { state = Stage.needs_stopping }
]

-- `sdrtcp_feed`; `has_buffer` is whether `pool_get_wait_lock` gives a buffer, and without one
-- the data is dropped. The result is 1 for a client that is served, 2 for no client yet, 0 for a
-- server that is not there
pub sdrtcp_feed : (buf : List ℕ) (has_buffer : Bool) → SdrTcp → ℕ × SdrTcp
sdrtcp_feed buf has_buffer obj = elim obj.state [
  | Stage.client_serving ↦ (1, if has_buffer then record obj { fed = buf ∷ obj.fed } else obj)
  | Stage.socket_open ↦ (2, obj)
  | Stage.client_open ↦ (2, obj)
  | Stage.client_open_started_async ↦ (2, obj)
  | _ ↦ (0, obj)
]

-- `sdrtcp_init`
pub sdrtcp_init : SdrTcp
sdrtcp_init = record {
  state = Stage.uninitialized;
  client_socket = negsuc 0;
  listen_socket = negsuc 0;
  pool_valid = false;
  closed = [];
  closed_calls = 0;
  threads = 0;
  fed = [];
}
