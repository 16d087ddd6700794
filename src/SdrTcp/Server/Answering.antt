-- ===== src/SdrTcp/Server/Answering.antt =====
-- Commands that a client sends one after the other.
use android_rtlpower.Base.{
  ℕ, ◌^◌, ◌<◌, ◌≡◌, refl, ap, ◌∙◌, true, ◌&&◌, some, List, [], ◌∷◌, length, arith,
}
use android_rtlpower.SdrTcp.{Stage}
use android_rtlpower.SdrTcp.Transfer.{is_serving, Receiving, Command, command_size, listen}
use android_rtlpower.SdrTcp.Transfer.Arriving.{encode, Arrives, listen-encode}
use android_rtlpower.SdrTcp.Server.{ListenTurn, command_listener}

-- In these turns, in which the server serves, the bytes of these commands arrive, a command a turn.
pub data Asked : List ListenTurn → List Command → Type 0 where
  no_more : Asked [] []
  one_asked :
      {t : ListenTurn} {ts : List ListenTurn} {c : Command} {cs : List Command}
      → t.still ≡ true
      → t.serves ≡ true
      → c.parameter < 0x1_0000_0000
      → Arrives t.rounds (encode c)
      → Asked ts cs
      → Asked (t ∷ ts) (c ∷ cs)

listener_turn :
    (w : ℕ) (t : ListenTurn) (ts : List ListenTurn) (s s' : Receiving) (c : Command)
    → t.still ≡ true
    → t.serves ≡ true
    → s.stage ≡ Stage.client_serving
    → listen w t.rounds true s ≡ (some c, s')
    → (command_listener w (t ∷ ts) s).0 ≡ c ∷ (command_listener w ts s').0
unfolding command_listener
listener_turn w t ts s s' c still serves serving run =
    let on : (t.still && is_serving s.stage) ≡ true =
      ground (arith, still, ap is_serving serving) in
    let heard : listen w t.rounds t.serves s ≡ (some c, s') =
      ap (λ b. listen w t.rounds b s) serves ∙ run in
    rw (on, heard) refl

-- `commandListener` calls the callback with exactly the commands that the client has sent, in their
-- order, when the server serves all the while and the bytes of each command arrive in pieces of
-- any lengths. Parameters are below `2 ^ 32`, and `size_t` counts more than five bytes.
pub command_listener-encode :
    (w : ℕ) (ts : List ListenTurn) (cs : List Command) (s : Receiving)
    → command_size < 2 ^ w
    → length s.cmd ≡ command_size
    → s.stage ≡ Stage.client_serving
    → Asked ts cs
    → (command_listener w ts s).0 ≡ cs
unfolding command_listener
command_listener-encode w [] [] s fits long serving no_more = refl
command_listener-encode w [] (c ∷ cs) s fits long serving asked = elim asked [ ]
command_listener-encode w (t ∷ ts) [] s fits long serving asked = elim asked [ ]
command_listener-encode w (t ∷ ts) (c ∷ cs) s fits long serving
      (one_asked still serves small arrives later) =
    let (s', run, _, serving', long') =
      listen-encode w fits t.rounds s c long serving arrives small in
    listener_turn w t ts s s' c still serves serving run
    ∙ ap (c ∷◌) (command_listener-encode w ts cs s' fits long' serving' later)
