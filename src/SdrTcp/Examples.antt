-- ===== src/SdrTcp/Examples.antt =====
-- The theorems on the server's stages at a server that is started.
use android_rtlpower.Base.{ℕ, ◌≡◌, refl, true, false, some, List, [], ◌∷◌, arith}
use android_rtlpower.Base.Int.{pos, negsuc}
use android_rtlpower.SdrTcp.{Stage, SdrTcp}
use android_rtlpower.SdrTcp.Transfer.{
  Round, send_buffer, Receiving, Command, receive_loop, receive_some,
}
use android_rtlpower.SdrTcp.Transfer.Complete.{
  Delivers, none_left, one_more, count_ready, send_buffer-all,
}
use android_rtlpower.SdrTcp.Transfer.Arriving.{Serves, Arrives, all_there, piece, encode}
use android_rtlpower.SdrTcp.Transfer.Failing.{
  no_round, one_round, send_buffer-slow, receive_loop-Closed,
}
use android_rtlpower.SdrTcp.Server.{ListenTurn, WaitTurn, ServeTurn, command_listener, tcp_server}
use android_rtlpower.SdrTcp.Server.Answering.{no_more, one_asked, command_listener-encode}
use android_rtlpower.SdrTcp.Server.Closing.{tcp_server-IsConsistent}
use android_rtlpower.SdrTcp.Stages.{IsConsistent}

abbrev down : SdrTcp
down = record {
  state = Stage.uninitialized;
  client_socket = negsuc 0;
  listen_socket = negsuc 0;
  pool_valid = false;
  closed = [];
  closed_calls = 0;
  threads = 0;
  fed = [];
}

abbrev up : SdrTcp
up = record down { state = Stage.socket_open; listen_socket = pos 7; pool_valid = true }

down-IsConsistent : IsConsistent down
down-IsConsistent = ground arith

up-IsConsistent : IsConsistent up
up-IsConsistent = ground arith

-- the client takes one byte a time
abbrev takes_one : Round ℕ
takes_one = record {
  still = true;
  asks = true;
  ready = true;
  acts = true;
  checks = true;
  answer = λ left. some 1;
}

abbrev late : Round ℕ
late = record takes_one { ready = false }

takes_one-Delivers : Delivers takes_one
takes_one-Delivers = record {
  still = refl;
  asks = refl;
  acts = refl;
  gives = λ left some_left. (1, refl, omega arith, omega arith);
}

late-Delivers : Delivers late
late-Delivers = record {
  still = refl;
  asks = refl;
  acts = refl;
  gives = λ left some_left. (1, refl, omega arith, omega arith);
}

send_buffer-all_example :
    ((send_buffer 32 (7 ∷ 8 ∷ []) (takes_one ∷ late ∷ takes_one ∷ []) []).bytesleft ≡ 0)
    × ((send_buffer 32 (7 ∷ 8 ∷ []) (takes_one ∷ late ∷ takes_one ∷ []) []).wire ≡ 7 ∷ 8 ∷ [])
    × ((send_buffer 32 (7 ∷ 8 ∷ []) (takes_one ∷ late ∷ takes_one ∷ []) []).stage
        ≡ Stage.client_serving)
unfolding count_ready
send_buffer-all_example =
    send_buffer-all 32 [] (7 ∷ 8 ∷ []) (omega arith) takes_one (late ∷ takes_one ∷ [])
      (one_more takes_one-Delivers (one_more late-Delivers (one_more takes_one-Delivers none_left)))
      refl (omega arith)

send_buffer-slow_example :
    ((send_buffer 32 (7 ∷ 8 ∷ []) (late ∷ takes_one ∷ []) []).stage ≡ Stage.needs_stopping)
    × ((send_buffer 32 (7 ∷ 8 ∷ []) (late ∷ takes_one ∷ []) []).wire ≡ [])
    × ((send_buffer 32 (7 ∷ 8 ∷ []) (late ∷ takes_one ∷ []) []).bytesleft ≡ 2)
send_buffer-slow_example =
    send_buffer-slow 32 (7 ∷ 8 ∷ []) [] late (takes_one ∷ []) (omega arith) refl refl refl

abbrev gives_bytes : List ℕ → Round (List ℕ)
gives_bytes bytes = record {
  still = true;
  asks = true;
  ready = true;
  acts = true;
  checks = true;
  answer = λ left. some bytes;
}

gives_bytes-Serves : (bytes : List ℕ) → Serves (gives_bytes bytes)
gives_bytes-Serves bytes = record { still = refl; asks = refl; acts = refl }

abbrev fresh : Receiving
fresh = record { cmd = 0 ∷ 0 ∷ 0 ∷ 0 ∷ 0 ∷ []; left = 5; stage = Stage.client_serving }

receive_loop-Closed_example :
    (receive_loop 32 (gives_bytes [] ∷ gives_bytes [] ∷ []) fresh ≡ fresh)
    × (receive_loop 32 (gives_bytes [] ∷ gives_bytes [] ∷ gives_bytes (7 ∷ []) ∷ []) fresh
        ≡ receive_loop 32 [] (receive_some 32 (gives_bytes (7 ∷ [])) fresh))
receive_loop-Closed_example =
    receive_loop-Closed 32 (gives_bytes [] ∷ gives_bytes [] ∷ []) (gives_bytes (7 ∷ [])) [] fresh
      (omega arith)
      (one_round (gives_bytes-Serves []) refl (λ left. refl)
        (one_round (gives_bytes-Serves []) refl (λ left. refl) no_round))
      (gives_bytes-Serves (7 ∷ [])) (omega arith) (omega arith) refl

-- the command 1, which sets the frequency, with 100 MHz, in two pieces
abbrev set_frequency : Command
set_frequency = record { command = 1; parameter = 100_000_000 }

abbrev pieces : List (Round (List ℕ))
pieces = gives_bytes (1 ∷ 5 ∷ []) ∷ gives_bytes (245 ∷ 225 ∷ 0 ∷ []) ∷ []

pieces-Arrives : Arrives pieces (encode set_frequency)
unfolding encode
pieces-Arrives =
    piece (1 ∷ 5 ∷ []) (245 ∷ 225 ∷ 0 ∷ []) (gives_bytes-Serves (1 ∷ 5 ∷ [])) refl refl
      (piece (245 ∷ 225 ∷ 0 ∷ []) [] (gives_bytes-Serves (245 ∷ 225 ∷ 0 ∷ [])) refl refl all_there)

abbrev one_turn : ListenTurn
one_turn = record { still = true; rounds = pieces; serves = true }

command_listener-encode_example : (command_listener 32 (one_turn ∷ []) fresh).0 ≡ set_frequency ∷ []
command_listener-encode_example =
    command_listener-encode 32 (one_turn ∷ []) (set_frequency ∷ []) fresh (omega arith) refl refl
      (one_asked refl refl (omega arith) pieces-Arrives no_more)

abbrev one_wait : WaitTurn
one_wait = record { still = true; asks = true; ready = true; acts = true; accepted = pos 9 }

abbrev one_serve : ServeTurn
one_serve = record {
  still = true;
  again = true;
  buff = some (7 ∷ 8 ∷ []);
  rounds = takes_one ∷ late ∷ takes_one ∷ [];
}

abbrev waiting : SdrTcp
waiting = record up { state = Stage.client_open_started_async }

waiting-IsConsistent : IsConsistent waiting
waiting-IsConsistent = ground arith

tcp_server-IsConsistent_example :
    IsConsistent (tcp_server 32 (λ obj. obj) (one_wait ∷ []) (one_serve ∷ []) waiting)
    × ((tcp_server 32 (λ obj. obj) (one_wait ∷ []) (one_serve ∷ []) waiting).state
        ≡ Stage.uninitialized)
tcp_server-IsConsistent_example =
    tcp_server-IsConsistent 32 (λ obj. obj) (one_wait ∷ []) (one_serve ∷ []) waiting (λ obj c. c)
      waiting-IsConsistent
