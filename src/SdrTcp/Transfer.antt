-- ===== src/SdrTcp/Transfer.antt =====
-- The loops of sdrtcp.c that move bytes: the one of `serveClient` that sends a buffer and the one of
-- `commandListener` that receives a command. A round is what the operating system answers in one
-- turn of a loop; every reading of `obj->state` is a flag of the round, since another thread may
-- have changed it. No other thread sets the stage back to STAGE_CLIENT_SERVING. `w` is the width
-- of `size_t`. -1 is `none`.
pub mod Complete
pub mod Arriving
pub mod Failing
pub mod Staying
use android_rtlpower.Base.{
  ℕ, zero, suc, ◌+◌, ◌-◌, ◌*◌, ◌%◌, ◌^◌, Bool, true, false, ◌&&◌, not, Option, none, some, List, [],
  ◌∷◌, ◌++◌, length, take, drop, ◌==◌, ltb, if◌then◌else◌,
}
use android_rtlpower.SdrTcp.{Stage}

abbrev pub is_serving : Stage → Bool
is_serving Stage.client_serving = true
is_serving _ = false

-- One turn: the state is the serving one at the test of the loop (`still`), before `select`
-- (`asks`), before the transfer (`acts`) and before the test of a failure (`checks`); `select`
-- returns something other than 0 (`ready`); and what the transfer of so many bytes returns.
pub record Round (A : Type 0) : Type 0 where
  pub still : Bool
  pub asks : Bool
  pub ready : Bool
  pub acts : Bool
  pub checks : Bool
  pub answer : ℕ → Option A

-- whether the transfer takes place: `r` is 0 unless the state lets `select` run
abbrev pub goes : {A : Type 0} → Round A → Bool
goes r = r.asks && r.ready && r.acts

-- the variables of the loop that sends, and the bytes that `send` has taken, in order
pub record Sending : Type 0 where
  pub index : ℕ
  pub bytessent : Option ℕ
  pub bytesleft : ℕ
  pub stage : Stage
  pub wire : List ℕ

-- `x -= y` and `x += y` in `size_t`
abbrev size_sub : (w : ℕ) → ℕ → Option ℕ → ℕ
size_sub w x none = (x + 1) % 2 ^ w
size_sub w x (some n) = (x + (2 ^ w - n % 2 ^ w)) % 2 ^ w

abbrev size_add : (w : ℕ) → ℕ → Option ℕ → ℕ
size_add w x none = (x + (2 ^ w - 1)) % 2 ^ w
size_add w x (some n) = (x + n) % 2 ^ w

abbrev taken : Option ℕ → List ℕ → List ℕ
taken none bytes = []
taken (some n) bytes = take n bytes

abbrev is_failure : Option ℕ → Bool
is_failure none = true
is_failure (some n) = false

-- `if (r && …)` of `serveClient`
pub send_some : (w : ℕ) → (data_to_send : List ℕ) → Round ℕ → Sending → Sending
send_some w data_to_send r s =
    if goes r
    then record s {
      bytessent = r.answer s.bytesleft;
      bytesleft = size_sub w s.bytesleft (r.answer s.bytesleft);
      index = size_add w s.index (r.answer s.bytesleft);
      wire = s.wire ++ taken (r.answer s.bytesleft) (drop s.index data_to_send);
    }
    else s

-- `if (bytessent == -1 && …)`
pub give_up : Bool → Sending → Sending
give_up checks s =
    if is_failure s.bytessent && checks then record s { stage = Stage.needs_stopping } else s

-- `while (bytesleft > 0 && …)`
pub send_loop : (w : ℕ) → (data_to_send : List ℕ) → List (Round ℕ) → Sending → Sending
unfolding send_some give_up
send_loop w data_to_send [] s = s
send_loop w data_to_send (r ∷ rs) s =
    let rest = send_loop w data_to_send rs (give_up r.checks (send_some w data_to_send r s)) in
    if ltb 0 s.bytesleft && r.still && is_serving s.stage then rest else s

-- a buffer of `serveClient` is sent: the loop from its start, with `data_to_send` the bytes of the buffer
pub send_buffer : (w : ℕ) → (data_to_send : List ℕ) → List (Round ℕ) → (wire : List ℕ) → Sending
unfolding send_loop
send_buffer w data_to_send rs wire = send_loop w data_to_send rs (record {
  index = 0;
  bytessent = none;
  bytesleft = length data_to_send;
  stage = Stage.client_serving;
  wire = wire;
})

-- the bytes of `cmd`, which is packed, and the variables of the loop that receives
pub record Receiving : Type 0 where
  pub cmd : List ℕ
  pub left : ℕ
  pub stage : Stage

abbrev pub command_size : ℕ
command_size = 5

-- `recv` writes behind what is there
abbrev put_bytes : (offset : ℕ) → (bytes cmd : List ℕ) → List ℕ
put_bytes offset bytes cmd = take offset cmd ++ (bytes ++ drop (offset + length bytes) cmd)

abbrev received : (w : ℕ) → Option (List ℕ) → Receiving → Receiving
received w none s = record s { left = size_sub w s.left none; stage = Stage.needs_stopping }
received w (some bytes) s = record s {
  left = size_sub w s.left (some (length bytes));
  cmd = put_bytes (command_size - s.left) bytes s.cmd;
}

-- the body of the loop that receives; `break` is the stage that it sets
pub receive_some : (w : ℕ) → Round (List ℕ) → Receiving → Receiving
receive_some w r s = if goes r then received w (r.answer s.left) s else s

-- `while (left > 0 && …)`
pub receive_loop : (w : ℕ) → List (Round (List ℕ)) → Receiving → Receiving
unfolding receive_some
receive_loop w [] s = s
receive_loop w (r ∷ rs) s =
    let rest = receive_loop w rs (receive_some w r s) in
    if ltb 0 s.left && r.still && is_serving s.stage then rest else s

-- `sdr_tcp_command_t`
pub record Command : Type 0 where
  pub command : ℕ
  pub parameter : ℕ

-- `cmd` with its parameter brought from the network's order, big-endian, by `ntohl`
pub read_command : List ℕ → Option Command
read_command (c ∷ p ∷ q ∷ r ∷ s ∷ []) =
    some (record { command = c; parameter = ((p * 256 + q) * 256 + r) * 256 + s })
read_command _ = none

-- the bytes of `cmd` after `cmd.parameter = ntohl(cmd.parameter)` and `cmd.command = 0xff`, on a
-- machine that is little-endian
pub spent : List ℕ → List ℕ
spent (c ∷ p ∷ q ∷ r ∷ s ∷ []) = 0xff ∷ s ∷ r ∷ q ∷ p ∷ []
spent bytes = bytes

-- `if (… && left == 0)` of `commandListener`; `serves` is the state that another thread left
pub dispatch : (serves : Bool) → Receiving → Option Command × Receiving
unfolding read_command spent
dispatch serves got =
    if serves && is_serving got.stage && got.left == 0
    then (read_command got.cmd, record got { cmd = spent got.cmd })
    else (none, got)

-- a turn of the outer loop of `commandListener`: the command that the callback gets, if any
pub listen :
    (w : ℕ) → List (Round (List ℕ)) → (serves : Bool) → Receiving → Option Command × Receiving
unfolding receive_loop dispatch
listen w rs serves s = dispatch serves (receive_loop w rs (record s { left = command_size }))
