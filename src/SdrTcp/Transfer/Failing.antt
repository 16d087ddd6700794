-- ===== src/SdrTcp/Transfer/Failing.antt =====
-- Where the loops of sdrtcp.c stop, or do not, on what is not an error of the connection.
use android_rtlpower.Base.{
  ℕ, ◌-◌, ◌^◌, ◌≤◌, ◌<◌, ◌≡◌, refl, ap, ◌∙◌, true, false, ◌&&◌, none, some, List, [], ◌∷◌, ◌++◌,
  length, ltb, if◌then◌else◌, arith, take-append-drop,
}
use native.Mathlib.Nat.{add-zero, sub-zero}
use android_rtlpower.SdrTcp.{Stage}
use android_rtlpower.SdrTcp.Transfer.{
  is_serving, Round, goes, Sending, send_some, give_up, send_loop, send_buffer, Receiving,
  command_size, put_bytes, receive_some, receive_loop,
}
use android_rtlpower.SdrTcp.Transfer.Complete.{size_sub_fits}
use android_rtlpower.SdrTcp.Transfer.Arriving.{Serves, loop_goes_on}

stopped :
    (w : ℕ) (whole : List ℕ) (rs : List (Round ℕ)) (s : Sending)
    → s.stage ≡ Stage.needs_stopping
    → send_loop w whole rs s ≡ s
unfolding send_loop
stopped w whole [] s e = refl
stopped w whole (r ∷ rs) s e =
    let off : (ltb 0 s.bytesleft && r.still && is_serving s.stage) ≡ false =
      ground (arith, ap is_serving e) in
    ap (λ b. if b then send_loop w whole rs (give_up r.checks (send_some w whole r s)) else s) off

abbrev begun : (whole wire : List ℕ) → Stage → Sending
begun whole wire stage = record {
  index = 0;
  bytessent = none;
  bytesleft = length whole;
  stage = stage;
  wire = wire;
}

slow_round :
    (w : ℕ) (whole wire : List ℕ) (r : Round ℕ)
    → r.checks ≡ true
    → r.ready ≡ false
    → give_up r.checks (send_some w whole r (begun whole wire Stage.client_serving))
      ≡ begun whole wire Stage.needs_stopping
unfolding send_some give_up
slow_round w whole wire r checks slow = ground (arith, checks, slow)

slow_lem :
    (w : ℕ) (whole wire : List ℕ) (r : Round ℕ) (rs : List (Round ℕ))
    → 0 < length whole
    → r.still ≡ true
    → r.checks ≡ true
    → r.ready ≡ false
    → send_buffer w whole (r ∷ rs) wire ≡ begun whole wire Stage.needs_stopping
unfolding send_buffer
slow_lem w whole wire r rs h still checks slow =
    let on : (ltb 0 (length whole) && r.still && true) ≡ true = ground (arith, h, still) in
    let s = begun whole wire Stage.client_serving in
    ap (λ b. if b then send_loop w whole rs (give_up r.checks (send_some w whole r s)) else s) on
    ∙ ap (send_loop w whole rs) (slow_round w whole wire r checks slow)
    ∙ stopped w whole rs (begun whole wire Stage.needs_stopping) refl

-- When the first `select` for a buffer times out, the client being slow, `serveClient` acts as on a
-- failed `send`: nothing of the buffer is sent, and the stage becomes STAGE_NEEDS_STOPPING, whatever
-- the later rounds would have brought.
pub send_buffer-slow :
    (w : ℕ) (whole wire : List ℕ) (r : Round ℕ) (rs : List (Round ℕ))
    → 0 < length whole
    → r.still ≡ true
    → r.checks ≡ true
    → r.ready ≡ false
    → ((send_buffer w whole (r ∷ rs) wire).stage ≡ Stage.needs_stopping)
      × ((send_buffer w whole (r ∷ rs) wire).wire ≡ wire)
      × ((send_buffer w whole (r ∷ rs) wire).bytesleft ≡ length whole)
send_buffer-slow w whole wire r rs h still checks slow =
    let e = slow_lem w whole wire r rs h still checks slow in
    (
      ap (λ (s : Sending). s.stage) e,
      ap (λ (s : Sending). s.wire) e,
      ap (λ (s : Sending). s.bytesleft) e,
    )

-- the peer has closed the connection: `select` says that there is something to read, and `recv`
-- returns 0
pub data Closed : List (Round (List ℕ)) → Type 0 where
  no_round : Closed []
  one_round :
      {r : Round (List ℕ)} {rs : List (Round (List ℕ))}
      → Serves r
      → r.ready ≡ true
      → ((left : ℕ) → r.answer left ≡ some [])
      → Closed rs
      → Closed (r ∷ rs)

nothing_put : (n : ℕ) (cmd : List ℕ) → put_bytes n [] cmd ≡ cmd
nothing_put n cmd = rw (add-zero n) (take-append-drop n cmd)

receive_some-closed :
    (w : ℕ) (r : Round (List ℕ)) (s : Receiving)
    → Serves r
    → r.ready ≡ true
    → r.answer s.left ≡ some []
    → s.left < 2 ^ w
    → receive_some w r s ≡ s
unfolding receive_some
receive_some-closed w r s d ready ans fits =
    let go : goes r ≡ true = ground (arith, d.asks, d.acts, ready) in
    rw
      (
        go,
        ans,
        size_sub_fits w s.left 0 (omega arith) fits,
        nothing_put (command_size - s.left) s.cmd,
        sub-zero s.left,
      )
      refl

-- When the client has closed the connection, the loop of `commandListener` neither receives anything
-- nor stops: after any number of rounds its variables and the stage are what they were, and the next
-- round, if the server still serves, runs on them.
pub receive_loop-Closed :
    (w : ℕ) (rs : List (Round (List ℕ))) (q : Round (List ℕ)) (qs : List (Round (List ℕ)))
    (s : Receiving)
    → command_size < 2 ^ w
    → Closed rs
    → Serves q
    → 0 < s.left
    → s.left ≤ command_size
    → s.stage ≡ Stage.client_serving
    → (receive_loop w rs s ≡ s)
      × (receive_loop w (rs ++ q ∷ qs) s ≡ receive_loop w qs (receive_some w q s))
unfolding receive_loop
receive_loop-Closed w [] q qs s fits no_round next some_left bound serving =
    (refl, loop_goes_on w fits q qs s next some_left serving)
receive_loop-Closed w (r ∷ rs) q qs s fits (one_round d ready ans later) next some_left bound
      serving =
    let same = receive_some-closed w r s d ready (ans s.left) (omega arith) in
    let (stays, goes_on) =
      receive_loop-Closed w rs q qs s fits later next some_left bound serving in
    (
      loop_goes_on w fits r rs s d some_left serving ∙ ap (receive_loop w rs) same ∙ stays,
      loop_goes_on w fits r (rs ++ q ∷ qs) s d some_left serving
          ∙ ap (receive_loop w (rs ++ q ∷ qs)) same
          ∙ goes_on,
    )
